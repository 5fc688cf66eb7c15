-- ===== src/Compliance/Results/Tally.antt =====
-- Each test with a psychicstd result falls into exactly one of the four columns.
use psychicstd.Base.{ℕ, ◌+◌, ◌≤◌, ◌≡◌, Bool, true, false, ◌&&◌, none, some, arith}
use psychicstd.Base.{List, [], ◌∷◌, Text, values, text_eq, count_if}
use psychicstd.Compliance.Results.{
  Entry, Counts, pass, has_status, zero_counts, count_result, count_from, result_counts,
  HeaderCache, summary_from_cache,
}

-- The test has a result under psychicstd.
abbrev pub is_tested : Entry → Bool
is_tested e = elim e.psy [ none ↦ false | some _ ↦ true ]

abbrev pub system_passes : Entry → Bool
system_passes e = has_status pass e.sys

abbrev pub psychic_passes : Entry → Bool
psychic_passes e = has_status pass e.psy

abbrev total : Counts → ℕ
total c = c.both_pass + c.system_only + c.psychic_only + c.both_fail

count_from-total :
    (c : Counts) (es : List Entry) → total (count_from c es) ≡ total c + count_if is_tested es
unfolding count_from count_result
count_from-total c [] = omega arith
count_from-total c (e ∷ es) = ground (arith, count_from-total (count_result c e) es)

count_from-psychic :
    (c : Counts) (es : List Entry)
    → (count_from c es).both_pass + (count_from c es).psychic_only
      ≡ c.both_pass + c.psychic_only + count_if psychic_passes es
unfolding count_from count_result
count_from-psychic c [] = omega arith
count_from-psychic c (e ∷ es) = ground (arith, count_from-psychic (count_result c e) es)

count_from-both :
    (c : Counts) (es : List Entry)
    → (count_from c es).both_pass
      ≡ c.both_pass + count_if (λ e. system_passes e && psychic_passes e) es
unfolding count_from count_result
count_from-both c [] = omega arith
count_from-both c (e ∷ es) = ground (arith, count_from-both (count_result c e) es)

count_from-system :
    (c : Counts) (es : List Entry)
    → (count_from c es).both_pass + (count_from c es).system_only
      ≡ c.both_pass + c.system_only + count_if (λ e. system_passes e && is_tested e) es
unfolding count_from count_result
count_from-system c [] = omega arith
count_from-system c (e ∷ es) = ground (arith, count_from-system (count_result c e) es)

-- The counts of a header agree with four independent counts over its tests: the tests with a
-- psychicstd result make up the total, those that psychicstd passes, those that the system library
-- passes among the tested ones, and those that both pass.
pub summary_from_cache-counts :
    (header : Text) (hc : HeaderCache)
    → let s = summary_from_cache header hc in
      let es = values hc.tests in
      (s.tested ≡ count_if is_tested es)
      × (s.psychic_passes ≡ count_if psychic_passes es)
      × (s.counts.both_pass + s.counts.system_only
          ≡ count_if (λ e. system_passes e && is_tested e) es)
      × (s.counts.both_pass ≡ count_if (λ e. system_passes e && psychic_passes e) es)
unfolding summary_from_cache result_counts
summary_from_cache-counts header hc =
    let es = values hc.tests in
    (
      omega (arith, count_from-total zero_counts es),
      omega (arith, count_from-psychic zero_counts es),
      omega (arith, count_from-system zero_counts es),
      omega (arith, count_from-both zero_counts es),
    )

pub count_if-psychic-le : (es : List Entry) → count_if psychic_passes es ≤ count_if is_tested es
count_if-psychic-le [] = omega arith
count_if-psychic-le (e ∷ es) = ground (arith, count_if-psychic-le es)
