-- ===== src/Compliance/Gate/Regressions.antt =====
-- When the sanitizer gate fails, and what it lists.
use mathlib.Core.Path.{subst}
use psychicstd.Base.{suc, ◌≡◌, refl, ap, sym, ◌∙◌, Bool, true, ◌&&◌, not, ◌↔◌, some, arith}
use psychicstd.Base.{
  List, [], ◌∷◌, Text, Dict, contains, difference, intersection, text_eq, All, sort_texts, text_leb,
}
use psychicstd.Base.{
  keep-eq-nil, contains-to_set, contains-append, contains-keep, contains-sort, length-sort, length,
}
use psychicstd.Base.{
  NoDup, sort-NoDup, keep-NoDup, to_set-NoDup, IsSorted, sort-IsSorted, text_order, Bool-cases, inl,
  inr,
}
use psychicstd.Compliance.Results.{Entry, HeaderCache}
use psychicstd.Compliance.Baseline.{test_id, load_baseline, save_baseline}
use psychicstd.Compliance.Baseline.Lines.{IsClean, load_baseline-save_baseline}
use psychicstd.Compliance.Gate.{
  is_failing, ids_of_tests, ids_of, failing_ids, ran_ids, exit_status, gate,
}

-- `P path e` for every test of a header, and of every header of the cache.
abbrev pub AllTests : (Text → Entry → Type 0) → Dict Text Entry → Type 0
AllTests P [] = Unit
AllTests P ((path, e) ∷ tests) = P path e × AllTests P tests

abbrev pub AllCached : (Text → Entry → Type 0) → Dict Text HeaderCache → Type 0
AllCached P [] = Unit
AllCached P ((header, hc) ∷ cache) = AllTests P hc.tests × AllCached P cache

module _ (p : Entry → Bool) (Q : Text → Type 0) where
  abbrev Holds : Text → Entry → Type 0
  Holds path e = p e ≡ true → Q (test_id path)

  AllTests-of_ids :
      (tests : Dict Text Entry)
      → ((id : Text) → contains (ids_of_tests p tests) id ≡ true → Q id)
      → AllTests Holds tests
  unfolding ids_of_tests
  AllTests-of_ids [] h = tt
  AllTests-of_ids ((path, e) ∷ tests) h =
      (λ pe. h (test_id path) (ground arith), AllTests-of_ids tests (λ id m. h id (ground arith)))

  AllCached-of_ids :
      (cache : Dict Text HeaderCache)
      → ((id : Text) → contains (ids_of p cache) id ≡ true → Q id)
      → AllCached Holds cache
  unfolding ids_of
  AllCached-of_ids [] h = tt
  AllCached-of_ids ((header, hc) ∷ cache) h = (
    AllTests-of_ids hc.tests (λ id m.
        h id (ground (arith, contains-append id (ids_of_tests p hc.tests) (ids_of p cache)))),
    AllCached-of_ids cache (λ id m.
        h id (ground (arith, contains-append id (ids_of_tests p hc.tests) (ids_of p cache)))),
  )

  AllTests-ids :
      (tests : Dict Text Entry) (id : Text)
      → AllTests Holds tests
      → contains (ids_of_tests p tests) id ≡ true
      → Q id
  unfolding ids_of_tests
  AllTests-ids [] id h m = absurd (ground arith)
  AllTests-ids ((path, e) ∷ tests) id h m = elim (Bool-cases (p e)) [
    | inl pe ↦ elim (text_eq.dec id (test_id path)) [
      | yes same ↦ subst Q (sym same) (h.0 pe)
      | no other ↦ AllTests-ids tests id h.1 (ground arith)
    ]
    | inr skipped ↦ AllTests-ids tests id h.1 (ground arith)
  ]

  AllCached-ids :
      (cache : Dict Text HeaderCache) (id : Text)
      → AllCached Holds cache
      → contains (ids_of p cache) id ≡ true
      → Q id
  unfolding ids_of
  AllCached-ids [] id h m = absurd (ground arith)
  AllCached-ids ((header, hc) ∷ cache) id h m =
      elim (Bool-cases (contains (ids_of_tests p hc.tests) id)) [
        | inl here ↦ AllTests-ids hc.tests id h.0 here
        | inr later ↦
            AllCached-ids cache id h.1
              (ground (arith, contains-append id (ids_of_tests p hc.tests) (ids_of p cache)))
      ]

exit_status-sort : (ids : List Text) → exit_status (sort_texts ids) ≡ 0 → ids ≡ []
unfolding exit_status
exit_status-sort [] h = refl
exit_status-sort (id ∷ ids) h =
    absurd (go (sort_texts (id ∷ ids)) (length-sort text_leb (id ∷ ids)) h)
  where
    go : (l : List Text) → length l ≡ suc (length ids) → exit_status l ≡ 0 → ⊥
    go [] e h = omega arith
    go (x ∷ xs) e h = omega arith

module _ (cache : Dict Text HeaderCache) (baseline : List Text) where
  -- The gate lets a run pass exactly when every cached test that the system library passes and
  -- that fails at run time under psychicstd has its id in the baseline.
  pub gate-status_iff :
      ((gate cache baseline).status ≡ 0)
      ↔ AllCached (λ path e. is_failing e ≡ true → contains baseline (test_id path) ≡ true) cache
  unfolding gate
  gate-status_iff = (
    λ h.
        AllCached-of_ids is_failing (λ id. contains baseline id ≡ true) cache
          (λ id m. ground (
            arith,
            (keep-eq-nil (λ x. not (contains baseline x)) (failing_ids cache)).0
                (exit_status-sort _ h) id (unfold failing_ids in (contains-to_set id _ ∙ m)),
          )),
    λ h.
        rw
          ((keep-eq-nil (λ x. not (contains baseline x)) (failing_ids cache)).1 (λ id m. ap not (
            AllCached-ids is_failing (λ id. contains baseline id ≡ true) cache id h
              (unfold failing_ids in (sym (contains-to_set id _) ∙ m)))))
          refl,
  )

  -- The three lists are sorted, and `known` and `new` are without duplicates. `known` holds exactly
  -- the failing tests that are in the baseline, `new` exactly those that are not, and `fixed`
  -- exactly the baselined tests that ran and do not fail.
  pub gate-lists :
      let v = gate cache baseline in
      (IsSorted text_leb v.known × IsSorted text_leb v.new × IsSorted text_leb v.fixed)
      × (NoDup v.known × NoDup v.new)
      × ((id : Text)
          → contains v.known id ≡ (contains baseline id && contains (failing_ids cache) id))
      × ((id : Text)
          → contains v.new id ≡ (not (contains baseline id) && contains (failing_ids cache) id))
      × ((id : Text)
          → contains v.fixed id ≡ (
              contains baseline id
              && contains (ran_ids cache) id
              && not (contains (failing_ids cache) id)))
  unfolding gate
  gate-lists = (
    (
      sort-IsSorted text_leb text_order (intersection (failing_ids cache) baseline),
      sort-IsSorted text_leb text_order (difference (failing_ids cache) baseline),
      sort-IsSorted text_leb text_order
          (difference (intersection baseline (ran_ids cache)) (failing_ids cache)),
    ),
    (
      sort-NoDup text_leb _ (keep-NoDup (contains baseline) (failing_ids cache) failing-NoDup),
      sort-NoDup text_leb _
          (keep-NoDup (λ x. not (contains baseline x)) (failing_ids cache) failing-NoDup),
    ),
    known,
    new,
    λ id. ground (arith, fixed id),
  )
    where
      failing-NoDup : NoDup (failing_ids cache)
      failing-NoDup = unfold failing_ids in to_set-NoDup (ids_of is_failing cache)

      known :
          (id : Text)
          → contains (gate cache baseline).known id
            ≡ (contains baseline id && contains (failing_ids cache) id)
      known id =
          contains-sort text_leb id _ ∙ contains-keep (contains baseline) id (failing_ids cache)

      new :
          (id : Text)
          → contains (gate cache baseline).new id
            ≡ (not (contains baseline id) && contains (failing_ids cache) id)
      new id =
          contains-sort text_leb id _
          ∙ contains-keep (λ x. not (contains baseline x)) id (failing_ids cache)

      fixed :
          (id : Text)
          → contains (gate cache baseline).fixed id ≡ (
              not (contains (failing_ids cache) id)
              && (contains (ran_ids cache) id && contains baseline id))
      fixed id =
          contains-sort text_leb id _
          ∙ contains-keep (λ x. not (contains (failing_ids cache) x)) id _
          ∙ ap (λ b. not (contains (failing_ids cache) id) && b)
              (contains-keep (contains (ran_ids cache)) id baseline)

-- After `--update-baseline` the same results pass the gate, nothing is new and nothing counts as
-- fixed, if the id of each failing test is one trimmed, non-empty line that does not start with `#`.
pub gate-save_baseline :
    (cache : Dict Text HeaderCache)
    → All IsClean (failing_ids cache)
    → let v = gate cache (load_baseline (some (save_baseline (failing_ids cache)))) in
      (v.status ≡ 0) × (v.new ≡ []) × (v.fixed ≡ [])
unfolding gate
gate-save_baseline cache clean =
    let loaded = load_baseline (some (save_baseline (failing_ids cache))) in
    let same = λ (id : Text). load_baseline-save_baseline (failing_ids cache) id clean in
    let no_new : difference (failing_ids cache) loaded ≡ [] =
      (keep-eq-nil (λ x. not (contains loaded x)) (failing_ids cache)).1
        (λ id m. ap not (same id ∙ m)) in
    let no_fixed : difference (intersection loaded (ran_ids cache)) (failing_ids cache) ≡ [] =
      (keep-eq-nil (λ x. not (contains (failing_ids cache) x))
          (intersection loaded (ran_ids cache))).1
        (λ id m. ground (arith, same id, contains-keep (contains (ran_ids cache)) id loaded)) in
    (rw no_new refl, rw no_new refl, rw no_fixed refl)
