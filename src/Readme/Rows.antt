-- ===== src/Readme/Rows.antt =====
-- What is put into the blocks: `_replace_block_rows`, `_extract_realworld_speedup`,
-- `_replace_realworld_rows` and `_replace_realworld_summary` of
-- scripts/update_readme_from_benchmarks.py.
use psychicstd.Base.{
  ℕ, zero, suc, Bool, true, false, not, Option, none, some, inl, inr, ◌⊎◌, List, [], ◌∷◌, ◌++◌,
  Text, codes, Dict, keys, keep, starts_with, split_lines, join_lines, text_eq, nat_eq,
  if◌then◌else◌, ◌==◌,
}
use psychicstd.Readme.Blocks.{
  Problem, malformed, rows_missing, rows_ambiguous, report_missing, no_report_rows, no_speedup_row,
  no_speedups, and_then, find_marker_match, body_text, fill, drop_blank_end,
  coerce_marker_body_lines,
}
use psychicstd.Readme.Patterns.{
  Link, compile_speedup_row, report_link, readme_speedup_row, is_summary,
}

-- The indices of the lines that start with the key, counted from the number given.
unfoldable pub row_indices : Text → ℕ → List Text → List ℕ
unfolding starts_with
row_indices key n [] = []
row_indices key n (line ∷ lines) =
    let rest = row_indices key (suc n) lines in if starts_with line key then n ∷ rest else rest

-- `out_lines[index] = replacement`
unfoldable pub put_line : ℕ → Text → List Text → List Text
put_line n line' [] = []
put_line zero line' (line ∷ lines) = line' ∷ lines
put_line (suc n) line' (line ∷ lines) = line ∷ put_line n line' lines

unfoldable pub is_missing : List Text → Text → Bool
unfolding row_indices
is_missing lines key = elim (row_indices key 0 lines) [ [] ↦ true | _ ∷ _ ↦ false ]

unfoldable pub is_ambiguous : List Text → Text → Bool
unfolding row_indices
is_ambiguous lines key = elim (row_indices key 0 lines) [
  | [] ↦ false
  | _ ∷ [] ↦ false
  | _ ∷ _ ∷ _ ↦ true
]

-- The loop over the replacements; the rows are those of the lines before it.
unfoldable pub put_rows : List Text → Dict Text Text → List Text → List Text
unfolding row_indices put_line
put_rows lines [] out_lines = out_lines
put_rows lines ((key, replacement) ∷ rows) out_lines = elim (row_indices key 0 lines) [
  | [] ↦ put_rows lines rows out_lines
  | n ∷ _ ↦ put_rows lines rows (put_line n replacement out_lines)
]

-- The lines with the rows replaced, or what is wrong with the keys.
unfoldable pub replaced_rows : Text → Dict Text Text → List Text → Problem ⊎ List Text
unfolding is_missing is_ambiguous put_rows
replaced_rows marker rows lines = elim (keep (is_missing lines) (keys rows)) [
  | key ∷ more ↦ inl (rows_missing marker (key ∷ more))
  | [] ↦ elim (keep (is_ambiguous lines) (keys rows)) [
    | key ∷ more ↦ inl (rows_ambiguous marker (key ∷ more))
    | [] ↦ inr (put_rows lines rows lines)
  ]
]

-- What the functions share: the lines of the marker's block are replaced.
unfoldable pub edit_block : Text → Text → (List Text → Problem ⊎ List Text) → Problem ⊎ Text
unfolding find_marker_match coerce_marker_body_lines body_text fill join_lines and_then
edit_block readme marker edit = elim (find_marker_match readme marker) [
  | none ↦ inl (malformed marker)
  | some b ↦
      and_then (edit (coerce_marker_body_lines (body_text b)))
        λ lines. inr (fill b (join_lines lines))
]

-- `_replace_block_rows`
unfoldable pub replace_block_rows : Text → Text → Dict Text Text → Problem ⊎ Text
unfolding edit_block replaced_rows
replace_block_rows readme marker rows = edit_block readme marker (replaced_rows marker rows)

-- `line.startswith("### ")` and the heading of the build type; then whether the lines that follow
-- are of that type.
unfoldable pub speedup_in : Text → Bool → List Text → Option Text
unfolding starts_with compile_speedup_row text_eq
speedup_in heading inside [] = none
speedup_in heading inside (line ∷ lines) =
    let if_other = speedup_in heading inside lines in
    let if_heading = speedup_in heading (line == heading) lines in
    if starts_with line (codes "### ")
    then if_heading
    else if inside
    then elim (compile_speedup_row line) [
      | some number ↦ some (number ++ codes "x")
      | none ↦ if_other
    ]
    else if_other

-- `_extract_realworld_speedup`, of the headings of the build types
unfoldable pub extract_realworld_speedup : List Text → Text → Problem ⊎ Text
unfolding speedup_in split_lines
extract_realworld_speedup [] report = inl no_speedup_row
extract_realworld_speedup (heading ∷ headings) report =
    let rest = extract_realworld_speedup headings report in
    elim (speedup_in heading false (split_lines false report)) [
      | some speedup ↦ inr speedup
      | none ↦ rest
    ]

unfoldable pub report_headings : List Text
report_headings = codes "### Debug" ∷ codes "### Release" ∷ []

-- A row with the speedup of its report; `reports` gives the text of the file, if there is one.
unfoldable pub updated_row : (Text → Option Text) → Link → Problem ⊎ Text
unfolding extract_realworld_speedup report_headings and_then
updated_row reports link = elim (reports link.path) [
  | none ↦ inl (report_missing link.path)
  | some report ↦ and_then (extract_realworld_speedup report_headings report) λ speedup. inr (
      link.before
      ++ (codes "[" ++ (speedup ++ (codes "](" ++ (link.path ++ (codes ")" ++ link.after))))))
]

-- The loop over the lines, with the count of the changed ones.
unfoldable pub updated_rows : (Text → Option Text) → List Text → Problem ⊎ (ℕ × List Text)
unfolding report_link updated_row and_then
updated_rows reports [] = inr (0, [])
updated_rows reports (line ∷ lines) = elim (report_link line) [
  | none ↦ and_then (updated_rows reports lines) λ (changed, rows). inr (changed, line ∷ rows)
  | some link ↦
      and_then (updated_row reports link) λ row.
        and_then (updated_rows reports lines) λ (changed, rows). inr (suc changed, row ∷ rows)
]

unfoldable pub realworld_rows : (Text → Option Text) → Text → List Text → Problem ⊎ List Text
unfolding updated_rows and_then
realworld_rows reports marker lines =
    and_then (updated_rows reports lines)
      λ (changed, rows). elim changed [ zero ↦ inl (no_report_rows marker) | suc _ ↦ inr rows ]

-- `_replace_realworld_rows`
unfoldable pub replace_realworld_rows : (Text → Option Text) → Text → Text → Problem ⊎ Text
unfolding edit_block realworld_rows
replace_realworld_rows reports readme marker =
    edit_block readme marker (realworld_rows reports marker)

-- The captured numbers of the rows.
unfoldable pub row_speedups : List Text → List Text
unfolding readme_speedup_row
row_speedups [] = []
row_speedups (line ∷ lines) =
    let rest = row_speedups lines in
    elim (readme_speedup_row line) [ none ↦ rest | some number ↦ number ∷ rest ]

-- The lines of the block without the summary.
unfoldable pub without_summary : List Text → List Text
unfolding is_summary drop_blank_end
without_summary lines = drop_blank_end (keep (λ line. not (is_summary line)) lines)

module _ (geometric_mean median : List Text → Text) where
  -- The means of the numbers that the texts write, with two places, are parameters.
  unfoldable pub summary_line : List Text → Text
  summary_line speedups =
      codes "Across the listed workloads, the geometric-mean compile-time speedup is **"
      ++ (geometric_mean speedups
          ++ (codes "x** and the median speedup is **" ++ (median speedups ++ codes "x**.")))

  unfoldable pub with_summary : Text → List Text → Problem ⊎ List Text
  unfolding without_summary row_speedups
  with_summary marker lines =
      let rows = without_summary lines in
      elim (row_speedups rows) [
        | [] ↦ inl (no_speedups marker)
        | number ∷ numbers ↦ inr (rows ++ ([] ∷ summary_line (number ∷ numbers) ∷ [] ∷ []))
      ]

  -- `_replace_realworld_summary`
  unfoldable pub replace_realworld_summary : Text → Text → Problem ⊎ Text
  unfolding edit_block
  replace_realworld_summary readme marker = edit_block readme marker (with_summary marker)
