-- ===== src/Compliance/Header/Modes.antt =====
-- What the two modes of `check_header` leave of each test's result.
use psychicstd.Base.{
  ℕ, min, ◌≡◌, ap, ◌∙◌, length, count_if, Bool, true, false, ◌&&◌, none, some, arith,
}
use psychicstd.Base.{
  List, [], Text, text_eq, Dict, keys, lookup, keep_keys, keep_keys-NoDupKeys, lookup-keep_keys,
  NoDupKeys, NoDup, contains, if◌then◌else◌,
}
use psychicstd.Base.{
  contains-sort, contains-keep, contains-keys-keep_keys, keep, keep-NoDup, sort-NoDup, length-keep,
}
use psychicstd.Compliance.Results.{Entry, HeaderCache}
use psychicstd.Compliance.Header.{
  Corpus, IsSample, is_uncached, chosen_tests, rechecked_tests, updated_tests, collect_tests,
  check_header, path_leb,
}
use psychicstd.Compliance.Header.Bounds.{
  lookup-run_tests, chosen_tests-NoDup, chosen_tests-uncached, collect_tests-NoDup,
  length-chosen_tests,
}

module _ (sample : ℕ → ℕ → List Text → List Text) (test_one : Text → Entry) (corpus : Corpus)
    (is_sample : IsSample sample) where
  -- Every test with a result that is still relevant.
  abbrev pub kept : List Text → Dict Text Entry → Dict Text Entry
  kept relevant old = keep_keys (contains relevant) old

  lookup-recheck :
      (relevant : List Text) (n : ℕ) (old : Dict Text Entry) (p : Text)
      → NoDupKeys old
      → lookup p (updated_tests sample test_one corpus relevant n old true) ≡ (
          if contains relevant p && (contains (keys old) p && corpus.exists p)
          then some (test_one p)
          else none)
  unfolding updated_tests rechecked_tests
  lookup-recheck relevant n old p d =
      let cached = kept relevant old in
      let paths = keep corpus.exists (keys cached) in
      ground (
        arith,
        lookup-run_tests test_one p (rechecked_tests corpus cached) [] (
            sort-NoDup path_leb paths (
              keep-NoDup corpus.exists (keys cached)
                (keep_keys-NoDupKeys (contains relevant) old d))),
        contains-sort path_leb p paths,
        contains-keep corpus.exists p (keys cached),
        contains-keys-keep_keys (contains relevant) p old,
      )

  -- What a normal run leaves, where `chosen` are the tests that it runs.
  pub record IsTopUp (relevant : List Text) (n : ℕ) (old new : Dict Text Entry) (chosen : List Text)
      : Type 0 where
    pub distinct : NoDup chosen
    pub picked : length chosen ≡ min n (count_if (is_uncached (kept relevant old)) relevant)
    pub untested :
        (p : Text)
        → contains chosen p ≡ true
        → (contains relevant p ≡ true) × (is_uncached (kept relevant old) p ≡ true)
    pub result :
        (p : Text)
        → lookup p new ≡ (
            if contains chosen p
            then some (test_one p)
            else if contains relevant p
            then lookup p old
            else none)

  updated_tests-IsTopUp :
      (relevant : List Text) (n : ℕ) (old : Dict Text Entry)
      → NoDup relevant
      → IsTopUp relevant n old
          (updated_tests sample test_one corpus relevant n old false)
          (chosen_tests sample relevant n (kept relevant old))
  unfolding updated_tests
  updated_tests-IsTopUp relevant n old u =
      let cached = kept relevant old in
      record {
        distinct = chosen_tests-NoDup sample is_sample relevant n cached u;
        picked =
            length-chosen_tests sample is_sample relevant n cached
            ∙ ap (min n) (length-keep (is_uncached cached) relevant);
        untested = chosen_tests-uncached sample is_sample relevant n cached;
        result = λ p. ground (
          arith,
          lookup-run_tests test_one p (chosen_tests sample relevant n cached) cached
              (chosen_tests-NoDup sample is_sample relevant n cached u),
          lookup-keep_keys (contains relevant) p old,
        );
      }

  -- A recheck holds exactly the cached tests that are still relevant and whose file exists, each
  -- with a result of this run. A normal run runs tests that are relevant and have no psychicstd
  -- result among those kept, each at most once: `n_sample` of them, or all where there are fewer.
  -- It leaves these with a result of this run, the other relevant tests as they were cached, and no
  -- other test. The old cache has each test once.
  pub check_header-modes :
      (wide_word : ℕ → Bool) (header : Text) (dirs : List Text) (n_sample : ℕ) (hc : HeaderCache)
      → NoDupKeys hc.tests
      → let run = check_header sample test_one corpus wide_word header dirs n_sample hc in
        let relevant = (collect_tests wide_word corpus dirs).0 in
        ((p : Text)
          → lookup p (run true).tests ≡ (
              if contains relevant p && (contains (keys hc.tests) p && corpus.exists p)
              then some (test_one p)
              else none))
        × ((chosen : List Text) × IsTopUp relevant n_sample hc.tests (run false).tests chosen)
  unfolding check_header
  check_header-modes wide_word header dirs n_sample hc d =
      let relevant = (collect_tests wide_word corpus dirs).0 in
      (
        λ p. lookup-recheck relevant n_sample hc.tests p d,
        (
          chosen_tests sample relevant n_sample (kept relevant hc.tests),
          updated_tests-IsTopUp relevant n_sample hc.tests
              (collect_tests-NoDup wide_word corpus dirs),
        ),
      )
