-- ===== src/Compliance/Header/Bounds.antt =====
-- The cache of a header stays within its eligible tests, so nothing is counted that is not relevant.
use psychicstd.Base.{
  ℕ, ◌+◌, ◌≤◌, min, ◌≡◌, refl, sym, ap, ◌∙◌, Bool, true, false, ◌||◌, some, arith,
}
use psychicstd.Base.{
  List, [], ◌∷◌, map, Text, text_eq, Dict, keys, values, lookup, keep_keys, NoDup, NoDupKeys,
  Within, length,
}
use psychicstd.Base.{
  contains, if◌then◌else◌, sort, lookup-insert_all, insert_all-NoDupKeys, contains-keys-insert_all,
  keep_keys-NoDupKeys, contains-keys-keep_keys,
}
use psychicstd.Base.{
  contains-keep, keep-NoDup, contains-sort, sort-NoDup, length-sort, to_set-NoDup, to_set,
  length-values, length-le_of_Within, count_if-le-length, keep,
}
use psychicstd.Compliance.Results.{Entry, HeaderCache, summary_from_cache}
use psychicstd.Compliance.Results.Tally.{summary_from_cache-counts, count_if-psychic-le, is_tested}
use psychicstd.Compliance.Header.{
  Corpus, IsSample, is_uncached, chosen_tests, rechecked_tests, run_tests, updated_tests,
  collect_tests, check_header, path_leb, seed, found, kind_is, is_eligible,
}

module _ (test_one : Text → Entry) where
  pub keys-pairs : (paths : List Text) → keys (map (λ path. (path, test_one path)) paths) ≡ paths
  keys-pairs [] = refl
  keys-pairs (p ∷ ps) = ap (◌∷◌ p) (keys-pairs ps)

  pub lookup-pairs :
      (p : Text) (paths : List Text)
      → contains paths p ≡ true
      → lookup p (map (λ path. (path, test_one path)) paths) ≡ some (test_one p)
  lookup-pairs p [] h = cc
  lookup-pairs p (q ∷ qs) h = ground (arith, lookup-pairs p qs)

  pub pairs-NoDupKeys :
      (paths : List Text) → NoDup paths → NoDupKeys (map (λ path. (path, test_one path)) paths)
  pairs-NoDupKeys paths d = rw (keys-pairs paths) d

  pub contains-keys-run_tests :
      (p : Text) (paths : List Text) (cached : Dict Text Entry)
      → contains (keys (run_tests test_one paths cached)) p
        ≡ (contains paths p || contains (keys cached) p)
  unfolding run_tests
  contains-keys-run_tests p paths cached =
      contains-keys-insert_all p (map (λ path. (path, test_one path)) paths) cached
      ∙ ap (λ (l : List Text). contains l p || contains (keys cached) p) (keys-pairs paths)

  pub lookup-run_tests :
      (p : Text) (paths : List Text) (cached : Dict Text Entry)
      → NoDup paths
      → lookup p (run_tests test_one paths cached)
        ≡ (if contains paths p then some (test_one p) else lookup p cached)
  unfolding run_tests
  lookup-run_tests p paths cached d =
      let pairs = map (λ path. (path, test_one path)) paths in
      let e = lookup-insert_all p pairs cached (pairs-NoDupKeys paths d) in
      ground
        (arith, e, ap (λ (l : List Text). contains l p) (keys-pairs paths), lookup-pairs p paths)

  run_tests-NoDupKeys :
      (paths : List Text) (cached : Dict Text Entry)
      → NoDupKeys cached
      → NoDupKeys (run_tests test_one paths cached)
  unfolding run_tests
  run_tests-NoDupKeys paths cached d =
      insert_all-NoDupKeys (map (λ path. (path, test_one path)) paths) cached d

module _ (sample : ℕ → ℕ → List Text → List Text) (is_sample : IsSample sample) where
  pub chosen_tests-uncached :
      (eligible : List Text) (n : ℕ) (cached : Dict Text Entry) (p : Text)
      → contains (chosen_tests sample eligible n cached) p ≡ true
      → (contains eligible p ≡ true) × (is_uncached cached p ≡ true)
  unfolding chosen_tests
  chosen_tests-uncached eligible n cached p h =
      let pool = keep (is_uncached cached) eligible in
      let m =
        is_sample.members (seed + length (keys cached)) (min n (length (sort path_leb pool)))
          (sort path_leb pool) p (omega arith) (sym (contains-sort path_leb p _) ∙ h) in
      ground
        (arith, m, contains-sort path_leb p pool, contains-keep (is_uncached cached) p eligible)

  pub chosen_tests-NoDup :
      (eligible : List Text) (n : ℕ) (cached : Dict Text Entry)
      → NoDup eligible
      → NoDup (chosen_tests sample eligible n cached)
  unfolding chosen_tests
  chosen_tests-NoDup eligible n cached d =
      let pool = sort path_leb (keep (is_uncached cached) eligible) in
      sort-NoDup path_leb (sample (seed + length (keys cached)) (min n (length pool)) pool) (
        is_sample.distinct (seed + length (keys cached)) (min n (length pool)) pool (omega arith) (
          sort-NoDup path_leb (keep (is_uncached cached) eligible)
            (keep-NoDup (is_uncached cached) eligible d)))

  pub length-chosen_tests :
      (eligible : List Text) (n : ℕ) (cached : Dict Text Entry)
      → length (chosen_tests sample eligible n cached)
        ≡ min n (length (keep (is_uncached cached) eligible))
  unfolding chosen_tests
  length-chosen_tests eligible n cached =
      let pool = keep (is_uncached cached) eligible in
      omega (
        arith,
        length-sort path_leb (
            sample (seed + length (keys cached)) (min n (length (sort path_leb pool)))
              (sort path_leb pool)),
        is_sample.picks (seed + length (keys cached)) (min n (length (sort path_leb pool)))
            (sort path_leb pool) (omega arith),
        length-sort path_leb pool,
      )

pub collect_tests-NoDup :
    (wide_word : ℕ → Bool) (corpus : Corpus) (dirs : List Text)
    → NoDup (collect_tests wide_word corpus dirs).0
unfolding collect_tests
collect_tests-NoDup wide_word corpus dirs =
    let tests = to_set (found wide_word corpus dirs) in
    let test = kind_is wide_word corpus (is_eligible wide_word corpus) in
    sort-NoDup path_leb (keep test tests)
      (keep-NoDup test tests (to_set-NoDup (found wide_word corpus dirs)))

module _ (sample : ℕ → ℕ → List Text → List Text) (test_one : Text → Entry) (corpus : Corpus)
    (is_sample : IsSample sample) where
  updated_tests-NoDupKeys :
      (eligible : List Text) (n : ℕ) (old : Dict Text Entry) (recheck : Bool)
      → NoDupKeys old
      → NoDupKeys (updated_tests sample test_one corpus eligible n old recheck)
  unfolding updated_tests
  updated_tests-NoDupKeys eligible n old true d =
      run_tests-NoDupKeys test_one (rechecked_tests corpus (keep_keys (contains eligible) old)) []
        tt
  updated_tests-NoDupKeys eligible n old false d =
      let cached = keep_keys (contains eligible) old in
      run_tests-NoDupKeys test_one (chosen_tests sample eligible n cached) cached
        (keep_keys-NoDupKeys (contains eligible) old d)

  updated_tests-Within :
      (eligible : List Text) (n : ℕ) (old : Dict Text Entry) (recheck : Bool)
      → Within (keys (updated_tests sample test_one corpus eligible n old recheck)) eligible
  unfolding updated_tests
  updated_tests-Within eligible n old true p h =
      let cached = keep_keys (contains eligible) old in
      unfold rechecked_tests in
      ground (
        arith,
        contains-keys-run_tests test_one p (rechecked_tests corpus cached) [],
        contains-sort path_leb p (keep corpus.exists (keys cached)),
        contains-keep corpus.exists p (keys cached),
        contains-keys-keep_keys (contains eligible) p old,
      )
  updated_tests-Within eligible n old false p h =
      let cached = keep_keys (contains eligible) old in
      ground (
        arith,
        contains-keys-run_tests test_one p (chosen_tests sample eligible n cached) cached,
        chosen_tests-uncached sample is_sample eligible n cached p,
        contains-keys-keep_keys (contains eligible) p old,
      )

  -- The summary of a checked header never counts more passes than tested tests, nor more tested
  -- tests than eligible ones, whatever the old cache held, in both modes, and its cache has each
  -- test once. The old cache has each test once, and `sample` does what is documented of
  -- `random.sample`.
  pub check_header-bounds :
      (wide_word : ℕ → Bool) (header : Text) (dirs : List Text) (n_sample : ℕ) (hc : HeaderCache)
      (recheck : Bool)
      → NoDupKeys hc.tests
      → let updated =
          check_header sample test_one corpus wide_word header dirs n_sample hc recheck in
        let s = summary_from_cache header updated in
        (s.psychic_passes ≤ s.tested) × (s.tested ≤ s.eligible) × NoDupKeys updated.tests
  unfolding check_header summary_from_cache
  check_header-bounds wide_word header dirs n_sample hc recheck d =
      let relevant = (collect_tests wide_word corpus dirs).0 in
      let tests = updated_tests sample test_one corpus relevant n_sample hc.tests recheck in
      let distinct = updated_tests-NoDupKeys relevant n_sample hc.tests recheck d in
      let counts =
        summary_from_cache-counts header
          (check_header sample test_one corpus wide_word header dirs n_sample hc recheck) in
      let within : length (keys tests) ≤ length relevant =
        length-le_of_Within (keys tests) relevant distinct
          (collect_tests-NoDup wide_word corpus dirs)
          (updated_tests-Within relevant n_sample hc.tests recheck) in
      (
        omega (arith, counts.0, counts.1, count_if-psychic-le (values tests)),
        omega (
          arith,
          counts.0,
          count_if-le-length is_tested (values tests),
          length-values tests,
          within,
        ),
        distinct,
      )
