-- ===== src/Compliance/Gate.antt =====
-- The end of `main` in sanitizer mode: failures are held against the baseline.
pub mod Regressions
mod Tests
use psychicstd.Base.{ℕ, Bool, true, false, ◌&&◌, ◌||◌, not, List, [], ◌∷◌, ◌++◌, Text, Dict}
use psychicstd.Base.{if◌then◌else◌, ◌==◌, text_eq, contains, to_set, intersection, difference}
use psychicstd.Base.{sort_texts, text_leb, length}
use psychicstd.Compliance.Results.{Entry, HeaderCache, pass, rfail, has_status}
use psychicstd.Compliance.Baseline.{test_id}

-- psychicstd fails at run time where the system library passes.
unfoldable pub is_failing : Entry → Bool
is_failing e = has_status pass e.sys && has_status rfail e.psy

-- The test ran to an end under psychicstd, and the system library passes.
unfoldable pub is_ran : Entry → Bool
is_ran e = has_status pass e.sys && (has_status pass e.psy || has_status rfail e.psy)

-- `test_id(path) for path, e in tests.items() if p(e)`
unfoldable pub ids_of_tests : (Entry → Bool) → Dict Text Entry → List Text
ids_of_tests p [] = []
ids_of_tests p ((path, e) ∷ tests) =
    let rest = ids_of_tests p tests in if p e then test_id path ∷ rest else rest

-- The same over `for hc in cache.values()`.
unfoldable pub ids_of : (Entry → Bool) → Dict Text HeaderCache → List Text
unfolding ids_of_tests
ids_of p [] = []
ids_of p ((header, hc) ∷ cache) = ids_of_tests p hc.tests ++ ids_of p cache

unfoldable pub failing_ids : Dict Text HeaderCache → List Text
unfolding ids_of is_failing
failing_ids cache = to_set (ids_of is_failing cache)

unfoldable pub ran_ids : Dict Text HeaderCache → List Text
unfolding ids_of is_ran
ran_ids cache = to_set (ids_of is_ran cache)

pub record Verdict : Type 0 where
  pub known : List Text
  pub fixed : List Text
  pub new : List Text
  pub status : ℕ

exit_status : List Text → ℕ
exit_status [] = 0
exit_status (id ∷ ids) = 1

-- The three lists that are printed and the status that `main` ends with.
unfoldable pub gate : Dict Text HeaderCache → List Text → Verdict
unfolding failing_ids ran_ids exit_status text_leb
gate cache baseline =
    let failing = failing_ids cache in
    let new = sort_texts (difference failing baseline) in
    record {
      known = sort_texts (intersection failing baseline);
      fixed = sort_texts (difference (intersection baseline (ran_ids cache)) failing);
      new = new;
      status = exit_status new;
    }
