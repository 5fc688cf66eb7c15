-- ===== src/Diff/Report.antt =====
-- The markdown lines that `main` of tools/compliance_diff.py prints.
use psychicstd.Base.{ℕ, Bool, true, false, Option, none, some, ℤ, pos, negsuc, zero, suc, ltb}
use psychicstd.Base.{
  List, [], ◌∷◌, ◌++◌, map, Text, codes, decimal, int_decimal, count_if, length, if◌then◌else◌,
}
use psychicstd.Diff.{RawCache, Row, delta, changed_rows, unchanged_rows}

-- `delta > 0` and `delta < 0`
abbrev pub is_gain : Row → Bool
is_gain r = elim (delta r) [ pos n ↦ ltb 0 n | negsuc n ↦ false ]

abbrev pub is_loss : Row → Bool
is_loss r = elim (delta r) [ pos n ↦ false | negsuc n ↦ true ]

unfoldable pub delta_emoji : ℤ → Text
delta_emoji (pos zero) = codes "⬜"
delta_emoji (pos (suc n)) = codes "🟢"
delta_emoji (negsuc n) = codes "🔴"

signed : ℤ → Text
unfolding int_decimal
signed (pos zero) = codes "0"
signed (pos (suc n)) = codes "+" ++ int_decimal (pos (suc n))
signed (negsuc n) = int_decimal (negsuc n)

fraction : ℕ → ℕ → Text
unfolding decimal
fraction a b = decimal a ++ (codes "/" ++ decimal b)

changed_line : Row → Text
unfolding fraction delta_emoji signed
changed_line r =
    codes "| `"
    ++ (r.header
        ++ (codes "` | "
            ++ (fraction r.before_pass r.before_n
                ++ (codes " | "
                    ++ (fraction r.after_pass r.after_n
                        ++ (codes " | "
                            ++ (delta_emoji (delta r)
                                ++ (codes " " ++ (signed (delta r) ++ codes " |")))))))))

unchanged_line : Row → Text
unfolding fraction
unchanged_line r =
    codes "| `" ++ (r.header ++ (codes "` | " ++ (fraction r.after_pass r.after_n ++ codes " |")))

-- `", ".join(parts) + ".\n"` for the counts of losses and gains.
headline : ℕ → ℕ → Text
unfolding decimal
headline losses gains =
    let lost = codes "🔴 " ++ (decimal losses ++ codes " header(s) regressed") in
    let gained = codes "🟢 " ++ (decimal gains ++ codes " header(s) improved") in
    (if ltb 0 losses
      then if ltb 0 gains then lost ++ (codes ", " ++ gained) else lost
      else if ltb 0 gains
      then gained
      else [])
    ++ codes ".\n"

changed_lines : List Row → List Text
unfolding headline changed_line
changed_lines [] = codes "No changes detected.\n" ∷ []
changed_lines (r ∷ rows) =
    headline (count_if is_loss (r ∷ rows)) (count_if is_gain (r ∷ rows))
    ∷ codes "| header | before | after | Δ |"
    ∷ codes "|--------|--------|-------|---|"
    ∷ (map changed_line (r ∷ rows) ++ ([] ∷ []))

unchanged_lines : List Row → List Text
unfolding decimal unchanged_line
unchanged_lines [] = []
unchanged_lines (r ∷ rows) =
    (codes "<details><summary>"
      ++ (decimal (length (r ∷ rows)) ++ codes " header(s) unchanged</summary>\n"))
    ∷ codes "| header | passes/sampled |"
    ∷ codes "|--------|----------------|"
    ∷ (map unchanged_line (r ∷ rows) ++ (codes "\n</details>" ∷ []))

reproduce_lines : Option Text → List Text
reproduce_lines none = []
reproduce_lines (some []) = []
reproduce_lines (some (c ∷ s)) =
    (codes "\n---\nReproduce this on your machine: `" ++ ((c ∷ s) ++ codes "`")) ∷ []

-- The list `lines` of `main`, which is printed joined by newlines.
unfoldable pub report_lines : Text → Option Text → RawCache → RawCache → List Text
unfolding changed_lines unchanged_lines reproduce_lines changed_rows unchanged_rows
report_lines title reproduce base head =
    (codes "## " ++ (title ++ codes "\n"))
    ∷ (changed_lines (changed_rows base head)
        ++ (unchanged_lines (unchanged_rows base head) ++ reproduce_lines reproduce))
