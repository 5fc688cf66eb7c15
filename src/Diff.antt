-- ===== src/Diff.antt =====
-- tools/compliance_diff.py: two compliance caches compared, header by header.
pub mod Rows
pub mod Report
mod Tests
use psychicstd.Base.{ℕ, Bool, true, false, not, Option, none, some, ℤ, pos, negsuc, sub_ℕ, int_leb}
use psychicstd.Base.{
  List, [], ◌∷◌, ◌++◌, map, Text, Dict, keys, lookup, insert_all, text_eq, text_leb,
}
use psychicstd.Base.{
  if◌then◌else◌, intersection, union, sort, sort_texts, count_if, length, keep, nat_eq, ◌==◌,
}
use psychicstd.Compliance.Results.{Entry, pass, has_status}
use psychicstd.Compliance.Baseline.{test_id}

-- A header's value in a cache file: each key may be missing. Where it is there it has the type that
-- `save_cache` of the conformance script writes.
pub record RawHeader : Type 0 where
  pub tests : Option (Dict Text Entry)
  pub lines : Option ℕ
  pub eligible : Option ℕ
  pub ignored : Option ℕ
  pub standard : Option ℕ

-- A cache file as `load` reads it.
abbrev pub RawCache : Type 0
RawCache = Dict Text RawHeader

-- `cache.get(header, {}).get("tests", {})`
header_tests : RawCache → Text → Dict Text Entry
header_tests cache header = elim (lookup header cache) [
  | none ↦ []
  | some raw ↦ elim raw.tests [ none ↦ [] | some tests ↦ tests ]
]

-- `test_results`: the results by test id. Where two paths have one id, the later result counts.
unfoldable pub test_results : RawCache → Text → Dict Text Entry
unfolding header_tests test_id
test_results cache header =
    insert_all (map (λ (path, result). (test_id path, result)) (header_tests cache header)) []

-- `tests[test].get("psy") == "pass"`
unfoldable pub psychic_passed : Dict Text Entry → Text → Bool
psychic_passed tests test = elim (lookup test tests) [
  | none ↦ false
  | some e ↦ has_status pass e.psy
]

-- `passes`
unfoldable pub passes : Dict Text Entry → List Text → ℕ × ℕ
unfolding psychic_passed
passes tests corpus = (count_if (psychic_passed tests) corpus, length corpus)

-- A header's line: the tuple of `changed`, without its delta, which the numbers give.
pub record Row : Type 0 where
  pub header : Text
  pub before_pass : ℕ
  pub before_n : ℕ
  pub after_pass : ℕ
  pub after_n : ℕ

-- `delta = after_pass - before_pass`
abbrev pub delta : Row → ℤ
delta r = sub_ℕ r.after_pass r.before_pass

-- One round of the loop of `main`, on the results of a header in the two caches.
unfoldable pub row_of : Text → Dict Text Entry → Dict Text Entry → Row
unfolding passes
row_of header before after =
    let corpus = intersection (keys before) (keys after) in
    let (before_pass, before_n) = passes before corpus in
    let (after_pass, after_n) = passes after corpus in
    record {
      header = header;
      before_pass = before_pass;
      before_n = before_n;
      after_pass = after_pass;
      after_n = after_n;
    }

unfoldable pub header_row : RawCache → RawCache → Text → Row
unfolding row_of test_results
header_row base head h = row_of h (test_results base h) (test_results head h)

unfoldable pub all_headers : RawCache → RawCache → List Text
unfolding text_leb
all_headers base head = sort_texts (union (keys base) (keys head))

unfoldable pub is_changed : Row → Bool
unfolding nat_eq
is_changed r = not (r.after_pass == r.before_pass)

unfoldable pub delta_leb : Row → Row → Bool
delta_leb r s = int_leb (delta r) (delta s)

-- The list `changed`, after its sort, and the headers of `unchanged` with what is printed of them.
unfoldable pub changed_rows : RawCache → RawCache → List Row
unfolding header_row all_headers is_changed delta_leb
changed_rows base head =
    sort delta_leb (keep is_changed (map (header_row base head) (all_headers base head)))

unfoldable pub unchanged_rows : RawCache → RawCache → List Row
unfolding header_row all_headers is_changed
unchanged_rows base head =
    keep (λ r. not (is_changed r)) (map (header_row base head) (all_headers base head))
