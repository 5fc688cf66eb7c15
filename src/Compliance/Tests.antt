-- ===== src/Compliance/Tests.antt =====
-- Runs of tools/compliance.py on small inputs, and the theorems at concrete data.
use psychicstd.Base.{ℕ, ◌≡◌, refl, Bool, false, none, some, [], ◌∷◌, Text, codes}
use psychicstd.Base.{Dict, values, count_if, text_eq, ◌&&◌, ◌+◌}
use psychicstd.Compliance.Results.{
  Entry, entry_of, HeaderCache, summary_from_cache, result_counts, pass, rfail,
}
use psychicstd.Compliance.Results.Tally.{
  is_tested, psychic_passes, system_passes, summary_from_cache-counts,
}
use psychicstd.Base.{inr, ℕ_discrete}
use psychicstd.Compliance.Results.Cache.{
  Json, null, number, string, object, Members, CacheFile, nil, member, header_value, test_value,
  written, load_cache, save_cache,
}
use psychicstd.Compliance.Results.Cache.Saved.{cache_value, load_cache-save_cache}
use psychicstd.Compliance.Classify.{classify_test, eligible, libcpp_specific}

abbrev ascii : ℕ → Bool
ascii c = false

eligible_run :
    classify_test ascii (codes "/a/b.c/x.pass.cpp") (codes "// X\n// UNSUPPORTED: c++03, c++11\n")
    ≡ eligible
unfolding classify_test
eligible_run = refl

unsupported_run :
    classify_test ascii
      (codes "/a/b.c/x.compile.pass.cpp")
      (codes "// X\n// UNSUPPORTED: c++03, c++20\n")
    ≡ libcpp_specific
unfolding classify_test
unsupported_run = refl

minimum_run :
    classify_test ascii (codes "/a/b.c/x.pass.cpp") (codes "// REQUIRES: std-at-least-c++23\n")
    ≡ libcpp_specific
unfolding classify_test
minimum_run = refl

exact_run :
    classify_test ascii (codes "/a/b.c/x.pass.cpp") (codes "// REQUIRES: c++20 || c++23\n")
    ≡ eligible
unfolding classify_test
exact_run = refl

abbrev entries : Dict Text Entry
entries =
    (codes "a", entry_of (pass, pass))
    ∷ (codes "b", entry_of (pass, rfail))
    ∷ (codes "c", record { sys = some pass; psy = none })
    ∷ []

abbrev vector_cache : HeaderCache
vector_cache = record { tests = entries; lines = 3; eligible = 9; ignored = 0; standard = 20 }

summary_from_cache-counts_example :
    let s = summary_from_cache (codes "vector") vector_cache in
    let es = values entries in
    (s.tested ≡ count_if is_tested es)
    × (s.psychic_passes ≡ count_if psychic_passes es)
    × (s.counts.both_pass + s.counts.system_only
        ≡ count_if (λ e. system_passes e && is_tested e) es)
    × (s.counts.both_pass ≡ count_if (λ e. system_passes e && psychic_passes e) es)
summary_from_cache-counts_example = summary_from_cache-counts (codes "vector") vector_cache

tested_run : (summary_from_cache (codes "vector") vector_cache).tested ≡ 2
unfolding summary_from_cache result_counts text_eq pass rfail
tested_run = refl

-- A header without its line count is dropped, and what else a result holds is not kept.
abbrev old_value : Json
old_value = object (
    member (codes "map") (object (member (codes "tests") (object nil) nil)) (
      member (codes "set")
        (header_value
          (member (codes "a")
            (object
              (member (codes "psy") (string (codes "pass")) (member (codes "ms") (number 7) nil)))
            nil)
          (number 1) (number 2) (number 3) (number 20))
        nil))

old_run :
    load_cache (λ value. value) some (written old_value)
    ≡ inr (
        member
          (codes "set")
          (header_value
            (member (codes "a") (test_value null (string (codes "pass"))) nil)
            (number 1)
            (number 2)
            (number 3)
            (number 20))
          nil)
unfolding load_cache header_value test_value text_eq ℕ_discrete
old_run = refl

abbrev kept_value : Members
kept_value =
    member (codes "set")
      (header_value (member (codes "a") (test_value null (string (codes "pass"))) nil) (number 1)
        (number 2) (number 3) (number 20))
      nil

abbrev text_of : CacheFile Json → Json
text_of (written text) = text
text_of _ = null

load_cache-save_cache_example :
    load_cache
      (λ value. value)
      some
      (save_cache (λ value. value) some (cache_value ((codes "vector", vector_cache) ∷ [])))
    ≡ inr (cache_value ((codes "vector", vector_cache) ∷ []))
unfolding text_eq ℕ_discrete
load_cache-save_cache_example =
    load_cache-save_cache (λ value. value) some ((codes "vector", vector_cache) ∷ [])
      (λ value d. refl) (refl, tt) ((refl, (refl, (refl, tt))), tt)
