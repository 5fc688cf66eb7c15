-- ===== src/Compliance/Header/Tests.antt =====
-- `check_header` on a suite of three files, and its theorems there.
use psychicstd.Base.{ℕ, zero, suc, ap, ◌≤◌, ◌≡◌, refl, Bool, true, false, ◌&&◌, none, some, arith}
use psychicstd.Base.{
  List, [], ◌∷◌, Text, codes, keys, lookup, contains, if◌then◌else◌, NoDup, NoDupKeys, take, length,
  text_eq, ◌==◌,
}
use psychicstd.Compliance.Results.{
  Entry, entry_of, HeaderCache, empty_header_cache, pass, cfail, summary_from_cache,
}
use psychicstd.Compliance.Classify.{classify_test}
use psychicstd.Compliance.Header.{Corpus, IsSample, collect_tests, check_header}
use psychicstd.Compliance.Header.Bounds.{check_header-bounds}
use psychicstd.Compliance.Header.Modes.{check_header-modes, IsTopUp}
use psychicstd.Compliance.Header.Progress.{check_rounds, check_rounds_complete}

abbrev ascii : ℕ → Bool
ascii c = false

abbrev suite : Corpus
suite = record {
  tree = λ d. some (
      codes "/s/b.pass.cpp"
      ∷ codes "/s/a.pass.cpp"
      ∷ codes "/s/c.verify.cpp"
      ∷ codes "/s/d.compile.pass.cpp"
      ∷ []);
  text = λ p. if p == codes "/s/d.compile.pass.cpp" then codes "// REQUIRES: libcpp-x\n" else [];
  exists = λ p. true;
  header_lines = λ h. 7;
}

-- The first `k` members, for every seed.
abbrev front : ℕ → ℕ → List Text → List Text
front s k xs = take k xs

take-length : (k : ℕ) (xs : List Text) → k ≤ length xs → length (take k xs) ≡ k
take-length zero xs h = refl
take-length (suc k) [] h = absurd (omega arith)
take-length (suc k) (x ∷ xs) h = ap suc (take-length k xs (omega arith))

take-members :
    (k : ℕ) (xs : List Text) (a : Text) → contains (take k xs) a ≡ true → contains xs a ≡ true
take-members zero xs a h = absurd (ground arith)
take-members (suc k) [] a h = h
take-members (suc k) (x ∷ xs) a h = ground (arith, take-members k xs a)

take-NoDup : (k : ℕ) (xs : List Text) → NoDup xs → NoDup (take k xs)
take-NoDup zero xs d = tt
take-NoDup (suc k) [] d = tt
take-NoDup (suc k) (x ∷ xs) d = ground (arith, take-NoDup k xs d.1, take-members k xs x)

front-IsSample : IsSample front
front-IsSample = record {
  picks = λ s k xs h. take-length k xs h;
  members = λ s k xs a h m. take-members k xs a m;
  distinct = λ s k xs h d. take-NoDup k xs d;
}

abbrev outcome : Text → Text × Text
outcome p = (pass, cfail)

abbrev test_one : Text → Entry
test_one p = entry_of (outcome p)

abbrev dirs : List Text
dirs = codes "containers/map" ∷ []

abbrev old : HeaderCache
old = record empty_header_cache { tests = (codes "/s/a.pass.cpp", entry_of (pass, pass)) ∷ [] }

normal_run :
    (check_header front test_one suite ascii (codes "map") dirs 5 old false).tests
    ≡ (codes "/s/a.pass.cpp", entry_of (pass, pass))
      ∷ (codes "/s/b.pass.cpp", entry_of (pass, cfail))
      ∷ []
unfolding check_header text_eq classify_test
normal_run = refl

check_header-bounds_example :
    let updated = check_header front test_one suite ascii (codes "map") dirs 5 old false in
    let s = summary_from_cache (codes "map") updated in
    (s.psychic_passes ≤ s.tested) × (s.tested ≤ s.eligible) × NoDupKeys updated.tests
check_header-bounds_example =
    check_header-bounds front test_one suite front-IsSample ascii (codes "map") dirs 5 old false
      (refl, tt)

check_header-modes_example :
    let run = check_header front test_one suite ascii (codes "map") dirs 5 old in
    let relevant = (collect_tests ascii suite dirs).0 in
    ((p : Text)
      → lookup p (run true).tests ≡ (
          if contains relevant p && (contains (keys old.tests) p && suite.exists p)
          then some (test_one p)
          else none))
    × ((chosen : List Text) × IsTopUp front test_one suite front-IsSample relevant 5 old.tests
          (run false).tests
          chosen)
check_header-modes_example =
    check_header-modes front test_one suite front-IsSample ascii (codes "map") dirs 5 old (refl, tt)

check_rounds_complete_example :
    (summary_from_cache
      (codes "map")
      (check_rounds front front-IsSample outcome suite ascii (codes "map") dirs 1 2 old)).tested
    ≡ length (collect_tests ascii suite dirs).0
unfolding collect_tests text_eq classify_test
check_rounds_complete_example =
    check_rounds_complete front front-IsSample outcome suite ascii (codes "map") dirs 1 1 old
      (refl, tt) (omega arith)
