-- ===== src/Compliance/Header.antt =====
-- `collect_tests` and `check_header`: which tests of a header run, and what its cache holds then.
pub mod Bounds
pub mod Progress
pub mod Modes
mod Tests
use psychicstd.Base.{ℕ, ◌+◌, ◌≤◌, ◌≡◌, min, NoDup, Bool, true, false, ◌||◌, not, Option, none, some}
use psychicstd.Base.{List, [], ◌∷◌, ◌++◌, map, Text, Dict, keys, lookup, keep_keys, insert_all}
use psychicstd.Base.{
  if◌then◌else◌, ◌==◌, nat_eq, text_eq, contains, to_set, keep, count_if, length, sort, text_leb,
}
use psychicstd.Compliance.Classify.{
  Kind, eligible, libcpp_specific, irrelevant, classify_test, language_standard,
}
use psychicstd.Compliance.Results.{Entry, HeaderCache, Summary, summary_from_cache}

extend_part : ℕ → List Text → List Text
extend_part c [] = (c ∷ []) ∷ []
extend_part c (part ∷ parts) = (c ∷ part) ∷ parts

-- The parts of a path, between its slashes.
path_parts : Text → List Text
unfolding extend_part nat_eq
path_parts [] = [] ∷ []
path_parts (c ∷ s) = let rest = path_parts s in if c == b'/' then [] ∷ rest else extend_part c rest

parts_leb : List Text → List Text → Bool
unfolding text_leb text_eq
parts_leb [] ys = true
parts_leb (x ∷ xs) [] = false
parts_leb (x ∷ xs) (y ∷ ys) = let rest = parts_leb xs ys in if x == y then rest else text_leb x y

-- The order of `Path`s: part by part.
unfoldable pub path_leb : Text → Text → Bool
unfolding path_parts parts_leb
path_leb p q = parts_leb (path_parts p) (path_parts q)

-- What the file system shows while a header is checked.
pub record Corpus : Type 0 where
  -- `(LIBCXX_TEST / "std" / d).rglob("*.cpp")`; `none` where the directory is missing
  pub tree : Text → Option (List Text)
  -- `path.read_text(errors="replace")`
  pub text : Text → Text
  -- `Path(p).exists()`
  pub exists : Text → Bool
  -- `header_lines`, 0 for a file that cannot be read
  pub header_lines : Text → ℕ

module _ (wide_word : ℕ → Bool) (corpus : Corpus) where
  found : List Text → List Text
  found [] = []
  found (d ∷ dirs) = elim (corpus.tree d) [ none ↦ found dirs | some paths ↦ paths ++ found dirs ]

  kind_is : (Kind → Bool) → Text → Bool
  kind_is test path = test (classify_test wide_word path (corpus.text path))

  abbrev is_eligible : Kind → Bool
  is_eligible k = elim k [ eligible ↦ true | _ ↦ false ]

  abbrev is_specific : Kind → Bool
  is_specific k = elim k [ libcpp_specific ↦ true | _ ↦ false ]

  -- `collect_tests`: the eligible tests and the number of the ignored ones.
  unfoldable pub collect_tests : List Text → List Text × ℕ
  unfolding found kind_is path_leb
  collect_tests dirs =
      let tests = to_set (found dirs) in
      (sort path_leb (keep (kind_is is_eligible) tests), count_if (kind_is is_specific) tests)

-- A test that the cache has no psychicstd result for.
unfoldable pub is_uncached : Dict Text Entry → Text → Bool
is_uncached cached path = elim (lookup path cached) [
  | none ↦ true
  | some e ↦ elim e.psy [ none ↦ true | some _ ↦ false ]
]

-- `SEED`
abbrev pub seed : ℕ
seed = 42

-- `sample s k population` stands for `random.Random(s).sample(population, k)`.
module _ (sample : ℕ → ℕ → List Text → List Text) where
  -- The tests that run in normal mode.
  unfoldable pub chosen_tests : List Text → ℕ → Dict Text Entry → List Text
  unfolding is_uncached path_leb
  chosen_tests relevant n_sample cached =
      let uncached = sort path_leb (keep (is_uncached cached) relevant) in
      sort path_leb (sample (seed + length (keys cached)) (min n_sample (length uncached)) uncached)

-- The tests that run again with `recheck`.
unfoldable pub rechecked_tests : Corpus → Dict Text Entry → List Text
unfolding path_leb
rechecked_tests corpus cached = sort path_leb (keep corpus.exists (keys cached))

-- `test_one path` stands for the entry that `_test_one` returns in this run.
module _ (test_one : Text → Entry) where
  -- The results of the pool, in the order of submission.
  unfoldable pub run_tests : List Text → Dict Text Entry → Dict Text Entry
  run_tests paths cached = insert_all (map (λ path. (path, test_one path)) paths) cached

module _ (sample : ℕ → ℕ → List Text → List Text) (test_one : Text → Entry) (corpus : Corpus) where
  unfoldable pub updated_tests : List Text → ℕ → Dict Text Entry → Bool → Dict Text Entry
  unfolding chosen_tests rechecked_tests run_tests
  updated_tests relevant n_sample old recheck =
      let cached = keep_keys (contains relevant) old in
      if recheck
      then run_tests test_one (rechecked_tests corpus cached) []
      else run_tests test_one (chosen_tests sample relevant n_sample cached) cached

  -- `check_header`, without its summary: that is `summary_from_cache header` of the result.
  unfoldable pub check_header : (ℕ → Bool) → Text → List Text → ℕ → HeaderCache → Bool → HeaderCache
  unfolding updated_tests collect_tests
  check_header wide_word header dirs n_sample header_cache recheck =
      let (relevant, ignored) = collect_tests wide_word corpus dirs in
      record {
        tests = updated_tests relevant n_sample header_cache.tests recheck;
        lines = corpus.header_lines header;
        eligible = length relevant;
        ignored = ignored;
        standard = language_standard;
      }

-- What is documented of `random.sample`: `k` members of the population, none picked twice.
pub record IsSample (sample : ℕ → ℕ → List Text → List Text) : Type 0 where
  pub picks : (s k : ℕ) (xs : List Text) → k ≤ length xs → length (sample s k xs) ≡ k
  pub members :
      (s k : ℕ) (xs : List Text) (a : Text)
      → k ≤ length xs
      → contains (sample s k xs) a ≡ true
      → contains xs a ≡ true
  pub distinct : (s k : ℕ) (xs : List Text) → k ≤ length xs → NoDup xs → NoDup (sample s k xs)
