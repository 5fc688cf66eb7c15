-- ===== src/Diff/Rows.antt =====
-- What the numbers of a header's row mean, and how the rows are distributed.
use mathlib.Core.List.{Perm, perm_middle}
use mathlib.Core.List.Perm
use psychicstd.Base.{
  suc, ◌+◌, ◌≤◌, ◌≡◌, refl, ap, Bool, true, false, ◌&&◌, ◌==◌, leb, not, inl, inr, arith,
}
use psychicstd.Base.{sub_ℕ, List, [], ◌∷◌, ◌++◌, map, Text, Dict, keys, text_eq, nat_eq}
use psychicstd.Base.{
  contains, NoDupKeys, Bool-cases, keep-congr, keep-keep, keep-NoDup, count_if-congr, count_if-same,
  contains-keep, keys-keep_keys, contains-keys-keep_keys, lookup-keep_keys, insert_all-NoDupKeys,
  count_if-le-length, intersection, keep, keep_keys, IsOrder, IsSorted, sort-IsSorted, sort-perm,
  All, All-sort, count_if, length,
}
use psychicstd.Compliance.Results.{Entry}
use psychicstd.Diff.{
  RawCache, Row, delta, header_tests, test_results, psychic_passed, row_of, header_row, all_headers,
  is_changed, delta_leb, changed_rows, unchanged_rows,
}
use psychicstd.Compliance.Baseline.{test_id}

count_if-split :
    (p q : Text → Bool) (xs : List Text)
    → count_if q xs + count_if (λ t. p t && not (q t)) xs
      ≡ count_if p xs + count_if (λ t. q t && not (p t)) xs
count_if-split p q [] = refl
count_if-split p q (x ∷ xs) = ground (arith, count_if-split p q xs)

count_if-true : (xs : List Text) → count_if (λ t. true) xs ≡ length xs
count_if-true [] = refl
count_if-true (x ∷ xs) = ap suc (count_if-true xs)

-- The delta of a header is the number of the tests that only pass after less that of the tests that
-- only passed before, among the tests of both caches; both sides count the same tests.
pub row_of-delta :
    (header : Text) (before after : Dict Text Entry)
    → let r = row_of header before after in
      let corpus = intersection (keys before) (keys after) in
      let gained = count_if (λ t. psychic_passed after t && not (psychic_passed before t)) corpus in
      let lost = count_if (λ t. psychic_passed before t && not (psychic_passed after t)) corpus in
      (delta r ≡ sub_ℕ gained lost) × (r.before_n ≡ r.after_n) × (r.after_pass ≤ r.after_n)
unfolding row_of
row_of-delta header before after =
    let corpus = intersection (keys before) (keys after) in
    (
      ground (arith, count_if-split (psychic_passed before) (psychic_passed after) corpus),
      refl,
      count_if-le-length (psychic_passed after) corpus,
    )

-- The two results, each without the tests that the other one lacks.
pub row_of-common :
    (header : Text) (before after : Dict Text Entry)
    → row_of header
        (keep_keys (contains (keys after)) before)
        (keep_keys (contains (keys before)) after)
      ≡ row_of header before after
unfolding row_of
row_of-common header before after =
    let kb = keys before in
    let ka = keys after in
    let before' = keep_keys (contains ka) before in
    let after' = keep_keys (contains kb) after in
    let corpus : intersection (keys before') (keys after') ≡ intersection kb ka =
      rw (keys-keep_keys (contains ka) before, keep-keep (contains ka) (contains (keys after')) kb)
        (keep-congr _ _ kb
          (λ t m. ground (arith, contains-keys-keep_keys (contains kb) t after))) in
    let passed_before : count_if (psychic_passed before') (intersection kb ka)
        ≡ count_if (psychic_passed before) (intersection kb ka) =
      count_if-congr _ _ (intersection kb ka) (λ t m.
        unfold psychic_passed in
        ground
          (arith, lookup-keep_keys (contains ka) t before, contains-keep (contains ka) t kb)) in
    let passed_after : count_if (psychic_passed after') (intersection kb ka)
        ≡ count_if (psychic_passed after) (intersection kb ka) =
      count_if-congr _ _ (intersection kb ka) (λ t m.
        unfold psychic_passed in
        ground (arith, lookup-keep_keys (contains kb) t after, contains-keep (contains ka) t kb)) in
    rw (corpus, passed_before, passed_after) refl

test_results-NoDupKeys : (cache : RawCache) (h : Text) → NoDupKeys (test_results cache h)
unfolding test_results
test_results-NoDupKeys cache h =
    insert_all-NoDupKeys (map (λ (path, result). (test_id path, result)) (header_tests cache h)) []
      tt

-- With the caches swapped, a header's row has its two sides swapped.
pub header_row_swap :
    (base head : RawCache) (h : Text)
    → let r = header_row base head h in
      header_row head base h ≡ record {
        header = h;
        before_pass = r.after_pass;
        before_n = r.after_n;
        after_pass = r.before_pass;
        after_n = r.before_n;
      }
unfolding header_row row_of
header_row_swap base head h =
    let b = test_results base h in
    let a = test_results head h in
    let ab = intersection (keys a) (keys b) in
    let ba = intersection (keys b) (keys a) in
    let da = keep-NoDup (contains (keys b)) (keys a) (test_results-NoDupKeys head h) in
    let db = keep-NoDup (contains (keys a)) (keys b) (test_results-NoDupKeys base h) in
    let same = λ (t : Text).
      let e : contains ab t ≡ contains ba t = ground (
        arith,
        contains-keep (contains (keys b)) t (keys a),
        contains-keep (contains (keys a)) t (keys b),
      ) in
      e in
    ground (
      arith,
      count_if-same (psychic_passed a) ab ba da db same,
      count_if-same (psychic_passed b) ab ba da db same,
      count_if-same (λ t. true) ab ba da db same,
      count_if-true ab,
      count_if-true ba,
    )

keep-append-perm {ℓ} :
    {A : Type ℓ} (p : A → Bool) (xs : List A) → Perm (keep p xs ++ keep (λ x. not (p x)) xs) xs
keep-append-perm p [] = Perm.refl []
keep-append-perm p (x ∷ xs) = elim (Bool-cases (p x)) [
  | inl e ↦ rw e (Perm.cons x (keep-append-perm p xs))
  | inr e ↦ rw e (
      Perm.trans (perm_middle (keep p xs) (keep (λ y. not (p y)) xs))
        (Perm.cons x (keep-append-perm p xs)))
]

-- The first row changes for the worse, or both by the same number of passes.
abbrev pub worse_first : Row → Row → Bool
worse_first r s = leb (r.after_pass + s.before_pass) (s.after_pass + r.before_pass)

delta_leb-IsOrder : IsOrder delta_leb
unfolding delta_leb
delta_leb-IsOrder = record { total = λ a b h. ground arith; trans = λ a b c h k. ground arith }

All-worse_first :
    (r : Row) (rows : List Row)
    → All (λ s. delta_leb r s ≡ true) rows
    → All (λ s. worse_first r s ≡ true) rows
unfolding delta_leb
All-worse_first r [] h = tt
All-worse_first r (s ∷ rows) h = (ground (arith, h.0), All-worse_first r rows h.1)

worse_first-IsSorted : (rows : List Row) → IsSorted delta_leb rows → IsSorted worse_first rows
worse_first-IsSorted [] h = tt
worse_first-IsSorted (r ∷ rows) h = (All-worse_first r rows h.0, worse_first-IsSorted rows h.1)

-- Whether a row has as many passes after as before.
abbrev pub is_even : Row → Bool
is_even r = r.after_pass == r.before_pass

All-changed : (rows : List Row) → All (λ r. is_even r ≡ false) (keep is_changed rows)
unfolding is_changed
All-changed [] = tt
All-changed (r ∷ rows) = ground (arith, All-changed rows)

All-unchanged :
    (rows : List Row) → All (λ r. is_even r ≡ true) (keep (λ r. not (is_changed r)) rows)
unfolding is_changed
All-unchanged [] = tt
All-unchanged (r ∷ rows) = ground (arith, All-unchanged rows)

-- The rows are those of all headers, each once. Those of the first list have another number of
-- passes after than before, those of the second the same, and in the first list a row whose passes
-- go down by more, or go up by less, stands before one with a better change.
pub rows_of_all_headers :
    (base head : RawCache)
    → Perm
        (changed_rows base head ++ unchanged_rows base head)
        (map (header_row base head) (all_headers base head))
      × All (λ r. is_even r ≡ false) (changed_rows base head)
      × All (λ r. is_even r ≡ true) (unchanged_rows base head)
      × IsSorted worse_first (changed_rows base head)
unfolding changed_rows unchanged_rows
rows_of_all_headers base head =
    let rows = map (header_row base head) (all_headers base head) in
    (
      Perm.trans
          (Perm.append_right (unchanged_rows base head)
            (sort-perm delta_leb (keep is_changed rows)))
          (keep-append-perm is_changed rows),
      All-sort delta_leb (λ r. is_even r ≡ false) (keep is_changed rows) (All-changed rows),
      All-unchanged rows,
      worse_first-IsSorted (changed_rows base head)
          (sort-IsSorted delta_leb delta_leb-IsOrder (keep is_changed rows)),
    )
