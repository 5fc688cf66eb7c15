-- ===== src/Readme/Reports.antt =====
-- The reading of the reports: `_parse_compile_time_report`, `_parse_mib`, `_reduction` and
-- `_parse_startup_speedup` of scripts/update_readme_from_benchmarks.py.
use psychicstd.Base.{
  Bool, true, false, not, ◌||◌, ◌&&◌, Option, none, some, inl, inr, ◌⊎◌, List, [], ◌∷◌, reverse,
  Text, codes, newline, Dict, lookup, insert, map, after_prefix, starts_with, strip, span, is_space,
  split_lines, text_eq, nat_eq, if◌then◌else◌, ◌==◌,
}
use psychicstd.Readme.Blocks.{Problem, report_missing, nothing_parsed, no_speedup_row, extend_part}
use psychicstd.Readme.Patterns.{number_at}

pub record Metrics : Type 0 where
  pub system_rss : Text
  pub psychicstd_rss : Text
  pub speedup : Text

-- `s.split("|")`
unfoldable pub split_cells : Text → List Text
unfolding extend_part nat_eq
split_cells [] = [] ∷ []
split_cells (c ∷ s) = if c == 124 then [] ∷ split_cells s else extend_part c (split_cells s)

unfoldable pub drop_bars : Text → Text
unfolding nat_eq
drop_bars [] = []
drop_bars (c ∷ s) = if c == 124 then drop_bars s else c ∷ s

-- `[cell.strip() for cell in line.strip().strip("|").split("|")]`
unfoldable pub row_cells : Text → List Text
unfolding split_cells drop_bars strip
row_cells line = map strip (split_cells (reverse (drop_bars (reverse (drop_bars (strip line))))))

-- The name, the mode and the metrics of a row of nine cells.
unfoldable pub metrics_of : List Text → Option (Text × (Text × Metrics))
metrics_of (_ ∷ name ∷ mode ∷ _ ∷ _ ∷ speedup ∷ _ ∷ system_rss ∷ psychicstd_rss ∷ []) = some (
  name,
  (mode, record { system_rss = system_rss; psychicstd_rss = psychicstd_rss; speedup = speedup }),
)
metrics_of _ = none

-- What a line adds to the rows, if it passes the guards of the loop.
unfoldable pub report_row : Text → Option (Text × (Text × Metrics))
unfolding starts_with row_cells metrics_of text_eq
report_row line =
    if starts_with line (codes "| ") && not (starts_with line (codes "| | name |"))
    then elim (metrics_of (row_cells line)) [
      | none ↦ none
      | some (name, (mode, metrics)) ↦
          if (mode == codes "strict") || (mode == codes "drop-in")
          then some (name, (mode, metrics))
          else none
    ]
    else none

abbrev pub CompileTimes : Type 0
CompileTimes = Dict Text (Dict Text Metrics)

-- `rows.setdefault(name, {})[mode] = metrics`
unfoldable pub add_metrics : Text → Text → Metrics → CompileTimes → CompileTimes
unfolding text_eq
add_metrics name mode metrics rows =
    insert name (insert mode metrics (elim (lookup name rows) [ none ↦ [] | some modes ↦ modes ]))
      rows

unfoldable pub report_rows : List Text → CompileTimes → CompileTimes
unfolding report_row add_metrics
report_rows [] rows = rows
report_rows (line ∷ lines) rows = elim (report_row line) [
  | none ↦ report_rows lines rows
  | some (name, (mode, metrics)) ↦ report_rows lines (add_metrics name mode metrics rows)
]

-- `_parse_compile_time_report`, of the text of the report where it is a file
unfoldable pub parse_compile_time_report : Option Text → Problem ⊎ CompileTimes
unfolding report_rows split_lines
parse_compile_time_report none = inl (report_missing (codes "compile_time.md"))
parse_compile_time_report (some report) = elim (report_rows (split_lines false report) []) [
  | [] ↦ inl (nothing_parsed (codes "compile_time.md"))
  | row ∷ rows ↦ inr (row ∷ rows)
]

-- The number of `_parse_mib`, as it is written.
unfoldable pub parse_mib : Text → Option Text
unfolding number_at text_eq
parse_mib value = elim (number_at value) [
  | none ↦ none
  | some (number, rest) ↦ if rest == codes " MiB" then some number else none
]

-- `float(number) == 0`
unfoldable pub is_zero : Text → Bool
unfolding nat_eq
is_zero [] = true
is_zero (c ∷ s) = ((c == 48) || (c == 46)) && is_zero s

-- `_reduction`, where `percent` formats the share that the second number is below the first
unfoldable pub reduction : (Text → Text → Text) → Text → Text → Text
unfolding parse_mib is_zero
reduction percent base improved = elim (parse_mib base) [
  | none ↦ codes "n/a"
  | some base_value ↦ elim (parse_mib improved) [
    | none ↦ codes "n/a"
    | some improved_value ↦
        if is_zero base_value then codes "n/a" else percent base_value improved_value
  ]
]

-- `Speedup:\s+\*\*(?P<speedup>[^*]+)\*\*\s+\(95% CI:` at the start of a text
unfoldable pub startup_at : Text → Option Text
unfolding after_prefix span is_space starts_with nat_eq
startup_at s = elim (after_prefix (codes "Speedup:") s) [
  | none ↦ none
  | some rest ↦
      let (spaces, marked) = span is_space rest in
      elim spaces [
        | [] ↦ none
        | _ ∷ _ ↦ elim (after_prefix (codes "**") marked) [
          | none ↦ none
          | some bold ↦
              let (speedup, closed) = span (λ c. not (c == 42)) bold in
              elim speedup [
                | [] ↦ none
                | c ∷ cs ↦ elim (after_prefix (codes "**") closed) [
                  | none ↦ none
                  | some end ↦
                      let (gap, interval) = span is_space end in
                      elim gap [
                        | [] ↦ none
                        | _ ∷ _ ↦
                            if starts_with interval (codes "(95% CI:") then some (c ∷ cs) else none
                      ]
                ]
              ]
        ]
      ]
]

-- `re.search` at the lines of the text: the flag says that a line begins here.
unfoldable pub startup_search : Bool → Text → Option Text
unfolding startup_at nat_eq
startup_search begins [] = none
startup_search begins (c ∷ s) =
    let later = startup_search (c == newline) s in
    if begins
    then elim (startup_at (c ∷ s)) [ some speedup ↦ some speedup | none ↦ later ]
    else later

-- `_parse_startup_speedup`
unfoldable pub parse_startup_speedup : Option Text → Problem ⊎ Text
unfolding startup_search
parse_startup_speedup none = inl (report_missing (codes "startup.md"))
parse_startup_speedup (some report) = elim (startup_search true report) [
  | none ↦ inl no_speedup_row
  | some speedup ↦ inr speedup
]
