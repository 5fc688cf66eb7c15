-- ===== src/Readme/Patterns.antt =====
-- The regular expressions of scripts/update_readme_from_benchmarks.py, as functions on code points.
-- Where a class does not have the character that follows it, its run is the longest one.
use psychicstd.Base.{
  ℕ, Bool, not, ◌||◌, ◌&&◌, Option, none, some, [], ◌∷◌, ◌++◌, Text, codes, after_prefix,
  starts_with, ends_with, span, lstrip, leb, nat_eq, text_eq, if◌then◌else◌, ◌==◌, length,
}

-- `[0-9]`
unfoldable pub is_digit : ℕ → Bool
is_digit c = leb 48 c && leb c 57

-- `[0-9]+(?:\.[0-9]+)?` at the front, and what follows.
unfoldable pub number_at : Text → Option (Text × Text)
unfolding span is_digit
number_at s =
    let (digits, rest) = span is_digit s in
    elim digits [
      | [] ↦ none
      | c ∷ more ↦ elim (after_prefix (codes ".") rest) [
        | none ↦ some (c ∷ more, rest)
        | some fraction ↦
            let (places, after) = span is_digit fraction in
            elim places [
              | [] ↦ some (c ∷ more, rest)
              | d ∷ decimals ↦ some ((c ∷ more) ++ (codes "." ++ (d ∷ decimals)), after)
            ]
      ]
    ]

-- `([0-9]+(?:\.[0-9]+)?)x(?: |\|)`
unfoldable pub compile_speedup_at : Text → Option Text
unfolding number_at starts_with
compile_speedup_at s = elim (number_at s) [
  | none ↦ none
  | some (number, rest) ↦
      if starts_with rest (codes "x ") || starts_with rest (codes "x|") then some number else none
]

-- `[^|]*?` before it
unfoldable pub compile_cell : Text → Option Text
unfolding compile_speedup_at nat_eq
compile_cell [] = none
compile_cell (c ∷ s) =
    let later = compile_cell s in
    elim (compile_speedup_at (c ∷ s)) [
      | some number ↦ some number
      | none ↦ if c == 124 then none else later
    ]

-- `.*?\|` before that
unfoldable pub compile_cells : Text → Option Text
unfolding compile_cell nat_eq
compile_cells [] = none
compile_cells (c ∷ s) =
    let later = compile_cells s in
    if c == 124 then elim (compile_cell s) [ some number ↦ some number | none ↦ later ] else later

-- Group 1 of `COMPILE_SPEEDUP_ROW.match`
unfoldable pub compile_speedup_row : Text → Option Text
unfolding after_prefix compile_cells
compile_speedup_row line = elim (after_prefix (codes "| compile |") line) [
  | none ↦ none
  | some rest ↦ compile_cells rest
]

-- A link to a report in a line.
pub record Link : Type 0 where
  pub before : Text
  pub path : Text
  pub after : Text

-- `(?P<project>[^/)]+)_speed_report\.md`
unfoldable pub is_report_name : Text → Bool
unfolding ends_with nat_eq
is_report_name name = ends_with name (codes "_speed_report.md") && leb 17 (length name)

-- `(?P<path>use_on_realworld_projects/(?P<project>[^/)]+)_speed_report\.md)\)`
unfoldable pub report_path_at : Text → Option (Text × Text)
unfolding span is_report_name nat_eq
report_path_at s = elim (after_prefix (codes "use_on_realworld_projects/") s) [
  | none ↦ none
  | some rest ↦
      let (name, more) = span (λ c. not ((c == 47) || (c == 41))) rest in
      elim (after_prefix (codes ")") more) [
        | none ↦ none
        | some after ↦
            if is_report_name name
            then some (codes "use_on_realworld_projects/" ++ name, after)
            else none
      ]
]

-- `\[(?P<speed>[^]]+)\]\(` and the path
unfoldable pub report_link_at : Text → Option (Text × Text)
unfolding span nat_eq report_path_at
report_link_at s = elim (after_prefix (codes "[") s) [
  | none ↦ none
  | some rest ↦
      let (speed, more) = span (λ c. not (c == 93)) rest in
      elim speed [
        | [] ↦ none
        | _ ∷ _ ↦ elim (after_prefix (codes "](") more) [
          | none ↦ none
          | some target ↦ report_path_at target
        ]
      ]
]

-- `REALWORLD_REPORT_LINK.search`
unfoldable pub report_link : Text → Option Link
unfolding report_link_at
report_link [] = none
report_link (c ∷ s) =
    let later = report_link s in
    elim (report_link_at (c ∷ s)) [
      | some (path, after) ↦ some (record { before = []; path = path; after = after })
      | none ↦ elim later [
        | none ↦ none
        | some link ↦
            some (record { before = c ∷ link.before; path = link.path; after = link.after })
      ]
    ]

-- `\s*\[([0-9]+(?:\.[0-9]+)?)x\]\([^)]*\)\s*\|`
unfoldable pub readme_speedup_at : Text → Option Text
unfolding lstrip number_at span nat_eq starts_with
readme_speedup_at s = elim (after_prefix (codes "[") (lstrip s)) [
  | none ↦ none
  | some rest ↦ elim (number_at rest) [
    | none ↦ none
    | some (number, more) ↦ elim (after_prefix (codes "x](") more) [
      | none ↦ none
      | some target ↦ elim (after_prefix (codes ")") (span (λ c. not (c == 41)) target).1) [
        | none ↦ none
        | some end ↦ if starts_with (lstrip end) (codes "|") then some number else none
      ]
    ]
  ]
]

-- `.*?\|` before it
unfoldable pub readme_cells : Text → Option Text
unfolding readme_speedup_at nat_eq
readme_cells [] = none
readme_cells (c ∷ s) =
    let later = readme_cells s in
    if c == 124
    then elim (readme_speedup_at s) [ some number ↦ some number | none ↦ later ]
    else later

-- Group 1 of `README_SPEEDUP_ROW.match`
unfoldable pub readme_speedup_row : Text → Option Text
unfolding after_prefix readme_cells
readme_speedup_row line = elim (after_prefix (codes "|") line) [
  | none ↦ none
  | some rest ↦ readme_cells rest
]

unfoldable pub summary_start : Text
summary_start = codes "Across the listed workloads, the geometric-mean compile-time speedup is "

-- `REALWORLD_SUMMARY.match`
unfoldable pub is_summary : Text → Bool
unfolding summary_start starts_with
is_summary line = starts_with line summary_start
