-- ===== src/Compliance/Header/Progress.antt =====
-- Repeated runs of `check_header` test every eligible test.
use psychicstd.Base.{
  ℕ, zero, suc, ◌+◌, ◌*◌, ◌-◌, ◌≤◌, min, ◌≡◌, refl, sym, ap, ◌∙◌, Bool, true, false, ◌&&◌, not,
  arith,
}
use psychicstd.Base.{
  List, [], ◌∷◌, Text, text_eq, Dict, keys, values, keep_keys, NoDup, NoDupKeys, length,
}
use psychicstd.Base.{
  contains, if◌then◌else◌, keep-congr, keep-keep, keep, difference, length-difference, keep-NoDup,
  keep-eq-nil, length-keep, count_if-le-length, contains-keep, lookup-keep_keys, count_if,
  length-le_of_Within,
}
use psychicstd.Compliance.Results.{Entry, entry_of, HeaderCache, summary_from_cache}
use psychicstd.Compliance.Results.Tally.{is_tested, summary_from_cache-counts}
use psychicstd.Compliance.Header.{
  Corpus, IsSample, is_uncached, chosen_tests, updated_tests, collect_tests, check_header,
}
use psychicstd.Compliance.Header.Bounds.{
  lookup-run_tests, chosen_tests-uncached, chosen_tests-NoDup, length-chosen_tests,
  collect_tests-NoDup, check_header-bounds,
}

-- How many of the relevant tests have no result.
abbrev pending : List Text → Dict Text Entry → ℕ
pending relevant cached = length (keep (is_uncached cached) relevant)

-- The keys of the tests that have a result.
tested_keys : Dict Text Entry → List Text
tested_keys [] = []
tested_keys ((p, e) ∷ d) = if is_tested e then p ∷ tested_keys d else tested_keys d

length-tested_keys : (d : Dict Text Entry) → length (tested_keys d) ≡ count_if is_tested (values d)
unfolding tested_keys
length-tested_keys [] = refl
length-tested_keys ((p, e) ∷ d) = ground (arith, length-tested_keys d)

contains-tested_keys-keys :
    (p : Text) (d : Dict Text Entry)
    → contains (tested_keys d) p ≡ true
    → contains (keys d) p ≡ true
unfolding tested_keys
contains-tested_keys-keys p [] h = h
contains-tested_keys-keys p ((q, e) ∷ d) h = ground (arith, contains-tested_keys-keys p d)

tested_keys-NoDup : (d : Dict Text Entry) → NoDupKeys d → NoDup (tested_keys d)
unfolding tested_keys
tested_keys-NoDup [] h = tt
tested_keys-NoDup ((p, e) ∷ d) h =
    ground (arith, tested_keys-NoDup d h.1, contains-tested_keys-keys p d)

contains-tested_keys :
    (p : Text) (d : Dict Text Entry) → is_uncached d p ≡ false → contains (tested_keys d) p ≡ true
unfolding tested_keys is_uncached
contains-tested_keys p [] h = cc
contains-tested_keys p ((q, e) ∷ d) h = ground (arith, contains-tested_keys p d)

length-zero : (xs : List Text) → length xs ≡ 0 → xs ≡ []
length-zero [] h = refl
length-zero (x ∷ xs) h = absurd (omega arith)

module _ (sample : ℕ → ℕ → List Text → List Text) (is_sample : IsSample sample)
    (outcome : Text → Text × Text) (corpus : Corpus) where
  abbrev test_one : Text → Entry
  test_one p = entry_of (outcome p)

  is_uncached-updated :
      (relevant : List Text) (n : ℕ) (old : Dict Text Entry) (p : Text)
      → NoDup relevant
      → contains relevant p ≡ true
      → let cached = keep_keys (contains relevant) old in
        is_uncached (updated_tests sample test_one corpus relevant n old false) p
        ≡ (is_uncached cached p && not (contains (chosen_tests sample relevant n cached) p))
  unfolding updated_tests is_uncached
  is_uncached-updated relevant n old p d m =
      let cached = keep_keys (contains relevant) old in
      let chosen = chosen_tests sample relevant n cached in
      ground (
        arith,
        lookup-run_tests test_one p chosen cached
            (chosen_tests-NoDup sample is_sample relevant n cached d),
      )

  is_uncached-keep_keys :
      (relevant : List Text) (old : Dict Text Entry) (p : Text)
      → contains relevant p ≡ true
      → is_uncached (keep_keys (contains relevant) old) p ≡ is_uncached old p
  unfolding is_uncached
  is_uncached-keep_keys relevant old p m =
      ground (arith, lookup-keep_keys (contains relevant) p old)

  -- A run tests as many new tests as it may, or all that are left.
  pending-updated :
      (relevant : List Text) (n : ℕ) (old : Dict Text Entry)
      → NoDup relevant
      → pending relevant (updated_tests sample test_one corpus relevant n old false)
          + min n (pending relevant old)
        ≡ pending relevant old
  pending-updated relevant n old d =
      let cached = keep_keys (contains relevant) old in
      let chosen = chosen_tests sample relevant n cached in
      let pool = keep (is_uncached cached) relevant in
      let left : keep (is_uncached (updated_tests sample test_one corpus relevant n old false))
            relevant
          ≡ difference pool chosen =
        keep-congr _ _ relevant (λ p m. is_uncached-updated relevant n old p d m)
        ∙ sym (keep-keep (is_uncached cached) (λ p. not (contains chosen p)) relevant) in
      let same : pool ≡ keep (is_uncached old) relevant =
        keep-congr _ _ relevant (λ p m. is_uncached-keep_keys relevant old p m) in
      omega (
        arith,
        ap length left,
        ap length same,
        length-chosen_tests sample is_sample relevant n cached,
        length-difference pool chosen (keep-NoDup (is_uncached cached) relevant d)
            (chosen_tests-NoDup sample is_sample relevant n cached d)
            (λ p m.
              let u = chosen_tests-uncached sample is_sample relevant n cached p m in
              ground (arith, u, contains-keep (is_uncached cached) p relevant)),
      )

  module _ (wide_word : ℕ → Bool) (header : Text) (dirs : List Text) (n_sample : ℕ) where
    abbrev relevant_tests : List Text
    relevant_tests = (collect_tests wide_word corpus dirs).0

    -- `k` runs of the tool in normal mode, each on the cache that the last one left.
    pub check_rounds : ℕ → HeaderCache → HeaderCache
    check_rounds zero hc = hc
    check_rounds (suc k) hc =
        check_header sample test_one corpus wide_word header dirs n_sample (check_rounds k hc) false

    pending-check_rounds :
        (k : ℕ) (hc : HeaderCache)
        → pending relevant_tests (check_rounds k hc).tests
          ≤ pending relevant_tests hc.tests - k * n_sample
    unfolding check_rounds check_header
    pending-check_rounds zero hc = omega arith
    pending-check_rounds (suc k) hc = omega (
      arith,
      pending-updated relevant_tests n_sample (check_rounds k hc).tests
          (collect_tests-NoDup wide_word corpus dirs),
      pending-check_rounds k hc,
    )

    check_rounds-NoDupKeys :
        (k : ℕ) (hc : HeaderCache) → NoDupKeys hc.tests → NoDupKeys (check_rounds k hc).tests
    unfolding check_rounds
    check_rounds-NoDupKeys zero hc d = d
    check_rounds-NoDupKeys (suc k) hc d =
        (check_header-bounds sample test_one corpus is_sample wide_word header dirs n_sample
          (check_rounds k hc) false (check_rounds-NoDupKeys k hc d)).2

    tested-le :
        (k : ℕ) (hc : HeaderCache)
        → NoDupKeys hc.tests
        → (summary_from_cache header (check_rounds (suc k) hc)).tested ≤ length relevant_tests
    unfolding check_rounds check_header summary_from_cache
    tested-le k hc d =
        (check_header-bounds sample test_one corpus is_sample wide_word header dirs n_sample
          (check_rounds k hc) false (check_rounds-NoDupKeys k hc d)).1

    length-le-pending :
        (relevant : List Text) (d : Dict Text Entry)
        → NoDup relevant
        → NoDupKeys d
        → pending relevant d ≡ 0
        → length relevant ≤ count_if is_tested (values d)
    length-le-pending relevant d u v h = omega (
      arith,
      length-tested_keys d,
      length-le_of_Within relevant (tested_keys d) u (tested_keys-NoDup d v) (λ p m.
          contains-tested_keys p d
            ((keep-eq-nil (is_uncached d) relevant).0 (length-zero _ h) p m)),
    )

    -- Once the sample size times the number of runs reaches the number of relevant tests, every one
    -- of them is counted as tested. The first cache has each test once, `sample` does what is
    -- documented of `random.sample`, and the test suite does not change between the runs.
    pub check_rounds_complete :
        (k : ℕ) (hc : HeaderCache)
        → NoDupKeys hc.tests
        → length relevant_tests ≤ suc k * n_sample
        → (summary_from_cache header (check_rounds (suc k) hc)).tested ≡ length relevant_tests
    check_rounds_complete k hc d h =
        let now = check_rounds (suc k) hc in
        let counts = summary_from_cache-counts header now in
        let none_left : pending relevant_tests now.tests ≡ 0 = omega (
          arith,
          pending-check_rounds (suc k) hc,
          length-keep (is_uncached hc.tests) relevant_tests,
          count_if-le-length (is_uncached hc.tests) relevant_tests,
        ) in
        omega (
          arith,
          length-le-pending relevant_tests now.tests (collect_tests-NoDup wide_word corpus dirs)
              (check_rounds-NoDupKeys (suc k) hc d) none_left,
          counts.0,
          tested-le k hc d,
        )
