-- ===== src/Stats/Report.antt =====
-- The markdown of the comparison: the lines that scripts/_benchmark_diff.py prints.
use psychicstd.Base.{
  ℕ, Option, none, some, List, [], ◌∷◌, ◌++◌, Text, codes, length, map, decimal, join_lines,
  sort_texts, difference, text_leb, text_eq, nat_eq, if◌then◌else◌, ◌==◌,
}
use psychicstd.Stats.Floats.{Floats, Random}
use psychicstd.Stats.Speed.{green, red, yellow}
use psychicstd.Stats.Delta.{
  BenchCache, whole, words, bench_names, field, DeltaRow, Thresholds, rows, noise, slower, faster,
  noisy,
}

-- The version of the compiler, if it is given and not empty.
unfoldable pub version_of : {F : Type 0} → BenchCache F → Option Text
unfolding field
version_of cache = elim (field cache (codes "__meta__") (codes "compiler_version")) [
  | some (words (c ∷ cs)) ↦ some (c ∷ cs)
  | _ ↦ none
]

-- The repetitions, if they are an integer.
unfoldable pub repetitions_of : {F : Type 0} → BenchCache F → Option ℕ
unfolding field
repetitions_of cache = elim (field cache (codes "__meta__") (codes "repetitions")) [
  | some (whole n) ↦ some n
  | _ ↦ none
]

-- `compiler`, of the versions of the head and the base
unfoldable pub compiler_text : Option Text → Option Text → Text
unfolding text_eq
compiler_text none none = codes "unknown"
compiler_text none (some base_ver) = base_ver
compiler_text (some head_ver) none = head_ver
compiler_text (some head_ver) (some base_ver) =
    if base_ver == head_ver
    then head_ver
    else codes "PR: " ++ (head_ver ++ (codes " / main: " ++ base_ver))

-- The line on the repetitions, of the base and the head.
unfoldable pub repetitions_lines : Option ℕ → Option ℕ → List Text
unfolding nat_eq decimal
repetitions_lines none head_reps = []
repetitions_lines (some base_reps) none = []
repetitions_lines (some base_reps) (some head_reps) =
    if base_reps == head_reps
    then (codes "Repetitions: **" ++ (decimal head_reps ++ codes "** per configuration.\n")) ∷ []
    else (codes "Repetitions: main **"
        ++ (decimal base_reps ++ (codes "**, PR **" ++ (decimal head_reps ++ codes "**.\n"))))
      ∷ []

-- `" · ".join(parts)` and `", ".join(names)`
unfoldable pub join_with : Text → List Text → Text
join_with between [] = []
join_with between (part ∷ []) = part
join_with between (part ∷ next ∷ parts) = part ++ (between ++ join_with between (next ∷ parts))

-- A part of a list, if there is anything to say.
unfoldable pub part_of : {A : Type 0} → List A → Text → List Text
part_of [] part = []
part_of (x ∷ xs) part = part ∷ []

unfoldable pub tally : {A : Type 0} → Text → List A → Text → Text
unfolding decimal
tally color shown what = color ++ (codes " " ++ (decimal (length shown) ++ what))

unfoldable pub quoted : Text → Text
quoted name = codes "`" ++ (name ++ codes "`")

-- The notes on the benchmarks that only one of the files has.
unfoldable pub only_lines : List Text → List Text → List Text
unfolding join_with part_of quoted
only_lines only_head only_base =
    let notes =
      part_of only_head (codes "new on this PR: " ++ join_with (codes ", ") (map quoted only_head))
      ++ part_of only_base
          (codes "only on main: " ++ join_with (codes ", ") (map quoted only_base)) in
    part_of notes (codes "\n" ++ join_with (codes " · ") notes)

module _ (f : Floats) where
  -- `ci_str`
  unfoldable pub ci_str : Option (f.F × f.F) → Text
  ci_str none = []
  ci_str (some (lo, hi)) =
      codes " [" ++ (f.signed 1 lo ++ (codes ", " ++ (f.signed 1 hi ++ codes "]")))

  unfoldable pub speedup_text : Option f.F → Text
  speedup_text none = codes "—"
  speedup_text (some speedup) = f.fixed 1 speedup ++ codes "x"

  unfoldable pub table_row : DeltaRow f → Text
  unfolding ci_str speedup_text quoted
  table_row row =
      codes "| "
      ++ (quoted row.name
          ++ (codes " | "
              ++ (f.fixed 1 row.base
                  ++ (codes "ms | "
                      ++ (f.fixed 1 row.head
                          ++ (codes "ms | "
                              ++ (row.color
                                  ++ (codes " "
                                      ++ (f.signed 1 row.delta
                                          ++ (codes "%"
                                              ++ (ci_str row.ci
                                                  ++ (codes " | "
                                                      ++ (speedup_text row.speedup
                                                          ++ codes " |")))))))))))))

  -- `table`
  unfoldable pub table : List (DeltaRow f) → List Text
  unfolding table_row
  table rowset =
      codes "| benchmark | main | PR | Δ (95% CI) | vs system |"
      ∷ codes "|-----------|-----:|---:|:--|--:|"
      ∷ map table_row rowset

  -- The tables of the slower, the faster and the noisy rows.
  unfoldable pub changed_lines :
      List (DeltaRow f) → List (DeltaRow f) → List (DeltaRow f) → List Text
  unfolding table join_with part_of tally
  changed_lines slow fast quiet = elim (slow ++ fast) [
    | [] ↦
        (codes "No significant changes ("
          ++ (tally yellow quiet (codes " within noise") ++ codes ").\n"))
        ∷ []
    | row ∷ more ↦
        (join_with (codes " · ") (
            part_of slow (tally red slow (codes " slower"))
            ++ (part_of fast (tally green fast (codes " faster"))
                ++ (tally yellow quiet (codes " within noise") ∷ [])))
          ++ codes ".\n")
        ∷ (table (row ∷ more) ++ ([] ∷ []))
  ]

  unfoldable pub quiet_lines : List (DeltaRow f) → List Text
  unfolding table tally
  quiet_lines [] = []
  quiet_lines (row ∷ more) =
      (codes "<details><summary>"
        ++ (tally yellow (row ∷ more) (codes " benchmark(s) within noise") ++ codes "</summary>\n"))
      ∷ (table (row ∷ more) ++ (codes "\n</details>" ∷ []))

  -- The paragraph on the colours and the noise.
  unfoldable pub legend : Text → Thresholds f → f.F → Text
  legend what t drift =
      what
      ++ (codes ", main vs this PR (same runner). "
          ++ (green
              ++ (codes " faster · "
                  ++ (red
                      ++ (codes " slower · "
                          ++ (yellow
                              ++ (codes
                                    " within noise. A change is colored only when its bootstrap 95% CI excludes 0 and it clears ±"
                                  ++ (f.general t.threshold
                                      ++ (codes "% / "
                                          ++ (f.general t.min_abs_ms
                                              ++ (codes
                                                    "ms. `vs system` is this PR's speedup over system libstdc++, for context -- a regression is less alarming if psychicstd is still far ahead. Median system-time drift (noise proxy): **"
                                                  ++ (f.fixed 1 drift ++ codes "%**.\n"))))))))))))

-- The text that `main` prints for two files; `reproduce` is empty where it is not given.
unfoldable pub diff_text :
    (f : Floats)
    → Random
    → Thresholds f
    → Text
    → Text
    → Text
    → BenchCache f.F
    → BenchCache f.F
    → Text
unfolding rows noise slower faster noisy version_of repetitions_of compiler_text repetitions_lines
    legend changed_lines quiet_lines only_lines bench_names part_of join_lines text_eq text_leb
diff_text f r t title what reproduce base head =
    let all = rows f r base head t in
    join_lines (
      (codes "## " ++ (title ++ codes "\n"))
      ∷ (codes "Compiler: `" ++ (compiler_text (version_of head) (version_of base) ++ codes "`.\n"))
      ∷ (repetitions_lines (repetitions_of base) (repetitions_of head)
          ++ (legend f what t (noise f r base head)
              ∷ (changed_lines f (slower f all) (faster f all) (noisy f all)
                  ++ (quiet_lines f (noisy f all)
                      ++ (only_lines (sort_texts (difference (bench_names head) (bench_names base)))
                            (sort_texts (difference (bench_names base) (bench_names head)))
                          ++ part_of reproduce (
                              codes "\n---\nReproduce this on your machine: `"
                              ++ (reproduce ++ codes "`"))))))))
