-- ===== src/Compliance/Results/Cache/Saved.antt =====
-- A cache as the value that is saved, and what is loaded again.
use psychicstd.Base.{ℕ, ◌≡◌, refl, false, Option, none, some, inr, arith}
use psychicstd.Base.{
  [], ◌∷◌, Text, Dict, keys, values, All, NoDupKeys, contains, text_eq, ℕ_discrete,
}
use psychicstd.Compliance.Results.{Entry, HeaderCache}
use psychicstd.Compliance.Results.Cache.{
  Json, null, number, string, object, Members, nil, member, get, test_value, header_value,
  load_header, load_data, load_cache, save_cache, load_test, load_tests, load_items, load_headers,
  build_header,
}

status_value : Option Text → Json
status_value none = null
status_value (some status) = string status

-- The results by path, as `_test_one` builds them.
unfoldable pub tests_value : Dict Text Entry → Members
unfolding test_value status_value
tests_value [] = nil
tests_value ((path, e) ∷ tests) =
    member path (test_value (status_value e.sys) (status_value e.psy)) (tests_value tests)

-- The cache, with the dictionaries that `check_header` builds.
unfoldable pub cache_value : Dict Text HeaderCache → Members
unfolding tests_value header_value
cache_value [] = nil
cache_value ((header, hc) ∷ cache) =
    member header
      (header_value (tests_value hc.tests) (number hc.lines) (number hc.eligible)
        (number hc.ignored) (number hc.standard))
      (cache_value cache)

-- Every dictionary of the value has each key once.
unfoldable mutual
  pub IsDict : Json → Type 0
  IsDict (object members) = AreDicts members
  IsDict _ = Unit

  pub AreDicts : Members → Type 0
  AreDicts nil = Unit
  AreDicts (member key value more) = (get key more ≡ none) × IsDict value × AreDicts more

status_value-IsDict : (status : Option Text) → IsDict (status_value status)
unfolding IsDict status_value
status_value-IsDict none = tt
status_value-IsDict (some s) = tt

pub test_value-IsDict :
    (system psychic : Json) → IsDict system → IsDict psychic → IsDict (test_value system psychic)
unfolding IsDict test_value get text_eq ℕ_discrete
test_value-IsDict system psychic s p = (refl, s, (refl, p, tt))

get-tests_value :
    (path : Text) (tests : Dict Text Entry)
    → contains (keys tests) path ≡ false
    → get path (tests_value tests) ≡ none
unfolding get tests_value
get-tests_value path [] h = refl
get-tests_value path ((other, e) ∷ tests) h = ground (arith, h, get-tests_value path tests)

tests_value-AreDicts : (tests : Dict Text Entry) → NoDupKeys tests → AreDicts (tests_value tests)
unfolding IsDict tests_value
tests_value-AreDicts [] d = tt
tests_value-AreDicts ((path, e) ∷ tests) d = (
  get-tests_value path tests d.0,
  test_value-IsDict _ _ (status_value-IsDict e.sys) (status_value-IsDict e.psy),
  tests_value-AreDicts tests d.1,
)

header_value-IsDict :
    (tests : Members) (lines eligible ignored standard : ℕ)
    → AreDicts tests
    → IsDict
        (header_value tests (number lines) (number eligible) (number ignored) (number standard))
unfolding IsDict header_value get text_eq ℕ_discrete
header_value-IsDict tests lines eligible ignored standard d =
    (refl, d, (refl, tt, (refl, tt, (refl, tt, (refl, tt, tt)))))

get-cache_value :
    (header : Text) (cache : Dict Text HeaderCache)
    → contains (keys cache) header ≡ false
    → get header (cache_value cache) ≡ none
unfolding get cache_value
get-cache_value header [] h = refl
get-cache_value header ((other, hc) ∷ cache) h = ground (arith, h, get-cache_value header cache)

cache_value-AreDicts :
    (cache : Dict Text HeaderCache)
    → NoDupKeys cache
    → All (λ hc. NoDupKeys hc.tests) (values cache)
    → AreDicts (cache_value cache)
unfolding IsDict cache_value
cache_value-AreDicts [] d ds = tt
cache_value-AreDicts ((header, hc) ∷ cache) d ds = (
  get-cache_value header cache d.0,
  header_value-IsDict (tests_value hc.tests) hc.lines hc.eligible hc.ignored hc.standard
      (tests_value-AreDicts hc.tests ds.0),
  cache_value-AreDicts cache d.1 ds.1,
)

pub load_test-test_value :
    (system psychic : Json)
    → load_test (test_value system psychic) ≡ inr (test_value system psychic)
unfolding load_test test_value get text_eq ℕ_discrete
load_test-test_value system psychic = refl

load_tests-tests_value :
    (tests : Dict Text Entry) → load_tests (tests_value tests) ≡ inr (tests_value tests)
unfolding load_tests tests_value
load_tests-tests_value [] = refl
load_tests-tests_value ((path, e) ∷ tests) = ground (
  arith,
  load_test-test_value (status_value e.sys) (status_value e.psy),
  load_tests-tests_value tests,
)

-- A header with all its keys and readable tests is kept.
pub load_header-header_value :
    (tests : Members) (lines eligible ignored standard : Json)
    → load_tests tests ≡ inr tests
    → load_header (header_value tests lines eligible ignored standard)
      ≡ inr (some (header_value tests lines eligible ignored standard))
unfolding load_header header_value build_header load_items get text_eq ℕ_discrete
load_header-header_value tests lines eligible ignored standard h = ground (arith, h)

load_headers-cache_value :
    (cache : Dict Text HeaderCache) → load_headers (cache_value cache) ≡ inr (cache_value cache)
unfolding load_headers cache_value
load_headers-cache_value [] = refl
load_headers-cache_value ((header, hc) ∷ cache) = ground (
  arith,
  load_header-header_value (tests_value hc.tests) (number hc.lines) (number hc.eligible)
      (number hc.ignored) (number hc.standard) (load_tests-tests_value hc.tests),
  load_headers-cache_value cache,
)

-- A cache that was saved is loaded unchanged, all its headers and test results with it, if
-- `json.loads` reads every value back that `json.dumps` writes of dictionaries with each key once.
-- The cache has each header once, and each header's results have each path once.
pub load_cache-save_cache :
    {File : Type 0} (dumps : Json → File) (loads : File → Option Json)
    (cache : Dict Text HeaderCache)
    → ((value : Json) → IsDict value → loads (dumps value) ≡ some value)
    → NoDupKeys cache
    → All (λ hc. NoDupKeys hc.tests) (values cache)
    → load_cache dumps loads (save_cache dumps loads (cache_value cache)) ≡ inr (cache_value cache)
unfolding load_cache save_cache load_data IsDict
load_cache-save_cache dumps loads cache reads d ds =
    rw (reads (object (cache_value cache)) (cache_value-AreDicts cache d ds))
      (load_headers-cache_value cache)
