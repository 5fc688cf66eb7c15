-- ===== src/Diff/Tests.antt =====
-- Two caches with one regression, and the theorems there.
use mathlib.Core.List.{Perm}
use psychicstd.Base.{◌≤◌, ◌≡◌, refl, ◌&&◌, not, none, some, sub_ℕ, IsSorted, All, true, false}
use psychicstd.Base.{
  [], ◌∷◌, ◌++◌, map, Text, codes, Dict, keys, keep_keys, contains, intersection, count_if, text_eq,
  ℕ_discrete,
}
use psychicstd.Compliance.Results.{Entry, entry_of, pass, rfail}
use psychicstd.Diff.{
  RawCache, RawHeader, delta, psychic_passed, row_of, header_row, all_headers, changed_rows,
  unchanged_rows,
}
use psychicstd.Diff.Report.{report_lines}
use psychicstd.Diff.Rows.{
  row_of-delta, row_of-common, header_row_swap, rows_of_all_headers, is_even, worse_first,
}

abbrev raw : Dict Text Entry → RawHeader
raw tests = record {
  tests = some tests;
  lines = none;
  eligible = none;
  ignored = none;
  standard = none;
}

abbrev before : Dict Text Entry
before = (codes "/m/libcxx/test/a", entry_of (pass, pass)) ∷ (codes "b", entry_of (pass, pass)) ∷ []

abbrev after : Dict Text Entry
after = (codes "/n/libcxx/test/a", entry_of (pass, rfail)) ∷ (codes "c", entry_of (pass, pass)) ∷ []

abbrev base : RawCache
base = (codes "map", raw before) ∷ []

abbrev head : RawCache
head = (codes "map", raw after) ∷ (codes "set", raw []) ∷ []

changed_run :
    changed_rows base head
    ≡ record { header = codes "map"; before_pass = 1; before_n = 1; after_pass = 0; after_n = 1 }
      ∷ []
unfolding changed_rows text_eq ℕ_discrete pass rfail
changed_run = refl

report_run :
    report_lines (codes "T") none base head
    ≡ codes "## T\n"
      ∷ codes "🔴 1 header(s) regressed.\n"
      ∷ codes "| header | before | after | Δ |"
      ∷ codes "|--------|--------|-------|---|"
      ∷ codes "| `map` | 1/1 | 0/1 | 🔴 -1 |"
      ∷ []
      ∷ codes "<details><summary>1 header(s) unchanged</summary>\n"
      ∷ codes "| header | passes/sampled |"
      ∷ codes "|--------|----------------|"
      ∷ codes "| `set` | 0/0 |"
      ∷ codes "\n</details>"
      ∷ []
unfolding report_lines text_eq ℕ_discrete pass rfail
report_run = refl

row_of-delta_example :
    let r = row_of (codes "map") before after in
    let corpus = intersection (keys before) (keys after) in
    let gained = count_if (λ t. psychic_passed after t && not (psychic_passed before t)) corpus in
    let lost = count_if (λ t. psychic_passed before t && not (psychic_passed after t)) corpus in
    (delta r ≡ sub_ℕ gained lost) × (r.before_n ≡ r.after_n) × (r.after_pass ≤ r.after_n)
row_of-delta_example = row_of-delta (codes "map") before after

row_of-common_example :
    row_of
      (codes "map")
      (keep_keys (contains (keys after)) before)
      (keep_keys (contains (keys before)) after)
    ≡ row_of (codes "map") before after
row_of-common_example = row_of-common (codes "map") before after

header_row_swap_example :
    let r = header_row base head (codes "map") in
    header_row head base (codes "map") ≡ record {
      header = codes "map";
      before_pass = r.after_pass;
      before_n = r.after_n;
      after_pass = r.before_pass;
      after_n = r.before_n;
    }
header_row_swap_example = header_row_swap base head (codes "map")

rows_of_all_headers_example :
    Perm
      (changed_rows base head ++ unchanged_rows base head)
      (map (header_row base head) (all_headers base head))
    × All (λ r. is_even r ≡ false) (changed_rows base head)
    × All (λ r. is_even r ≡ true) (unchanged_rows base head)
    × IsSorted worse_first (changed_rows base head)
rows_of_all_headers_example = rows_of_all_headers base head
