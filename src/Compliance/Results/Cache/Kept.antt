-- ===== src/Compliance/Results/Cache/Kept.antt =====
-- What `load_cache` keeps of a header, and that it is loaded unchanged.
use mathlib.Core.Path.{subst}
use psychicstd.Base.{
  ◌≡◌, refl, Bool, true, false, Option, none, some, ◌⊎◌, inl, inr, arith, Text, codes, text_eq,
  ℕ_discrete, ◌==◌,
}
use psychicstd.Compliance.Results.Cache.{
  Json, null, number, string, object, Members, nil, member, get, test_value, header_value,
  load_header, load_test, load_tests, load_items, build_header, or_else,
}
use psychicstd.Compliance.Results.Cache.Saved.{
  IsDict, AreDicts, test_value-IsDict, load_test-test_value, load_header-header_value,
}

get-IsDict :
    (key : Text) (members : Members) (value : Json)
    → AreDicts members
    → get key members ≡ some value
    → IsDict value
unfolding get IsDict
get-IsDict key nil value d e = ground (arith, e)
get-IsDict key (member other v more) value d e =
    go (other == key) refl (λ k. get-IsDict key more value d.2 k)
  where
    go : (b : Bool) → (other == key) ≡ b → (get key more ≡ some value → IsDict value) → IsDict value
    go true k later = let same : v ≡ value = ground (arith, e, k) in subst IsDict same d.1
    go false k later = later (ground (arith, e, k))

-- What is kept of a dictionary: it is loaded unchanged and has its keys once, and no other key.
pub record IsKept (load : Members → Text ⊎ Members) (old new : Members) : Type 0 where
  pub again : load new ≡ inr new
  pub dicts : AreDicts new
  pub missing : (key : Text) → get key old ≡ none → get key new ≡ none

or_else-IsDict :
    (default' : Json) (key : Text) (members : Members)
    → IsDict default'
    → AreDicts members
    → IsDict (or_else default' (get key members))
unfolding or_else
or_else-IsDict default' key members b d = go (get key members) refl
  where
    go : (found : Option Json) → get key members ≡ found → IsDict (or_else default' found)
    go none e = b
    go (some value) e = get-IsDict key members value d e

-- A test's value that was loaded is loaded unchanged.
load_test-again :
    (value new : Json)
    → IsDict value
    → load_test value ≡ inr new
    → (load_test new ≡ inr new) × IsDict new
unfolding load_test IsDict
load_test-again null new d e = absurd (ground (arith, e))
load_test-again (number n) new d e = absurd (ground (arith, e))
load_test-again (string s) new d e = absurd (ground (arith, e))
load_test-again (object test) new d e =
    let system = or_else null (get (codes "sys") test) in
    let psychic = or_else null (get (codes "psy") test) in
    let same : test_value system psychic ≡ new = ground (arith, e) in
    subst (λ v. (load_test v ≡ inr v) × IsDict v) same
      (
        load_test-test_value system psychic,
        test_value-IsDict system psychic (or_else-IsDict null (codes "sys") test tt d)
            (or_else-IsDict null (codes "psy") test tt d),
      )

load_tests-IsKept :
    (old new : Members) → AreDicts old → load_tests old ≡ inr new → IsKept load_tests old new
unfolding load_tests IsDict get
load_tests-IsKept nil new d e =
    let same : nil ≡ new = ground (arith, e) in
    subst (IsKept load_tests nil) same
      (record { again = refl; dicts = tt; missing = λ key absent. refl })
load_tests-IsKept (member path test more) new d e =
    go (load_test test) refl (load_tests more) refl (λ rest k. load_tests-IsKept more rest d.2 k)
  where
    go :
        (r : Text ⊎ Json)
        → load_test test ≡ r
        → (s : Text ⊎ Members) → load_tests more ≡ s
        → ((rest : Members) → load_tests more ≡ inr rest → IsKept load_tests more rest)
        → IsKept load_tests (member path test more) new
    go (inl f) k s l ih = absurd (ground (arith, e, k))
    go (inr t) k (inl f) l ih = absurd (ground (arith, e, k, l))
    go (inr t) k (inr rest) l ih =
        let kept = ih rest l in
        let (fixed, sound) = load_test-again test t d.1 k in
        let same : member path t rest ≡ new = ground (arith, e, k, l) in
        subst (IsKept load_tests (member path test more)) same (record {
          again = ground (arith, fixed, kept.again);
          dicts = (kept.missing path d.0, sound, kept.dicts);
          missing = λ key absent. ground (arith, absent, kept.missing key);
        })

parts-IsDict :
    (tests : Members) (lines eligible ignored standard : Json)
    → AreDicts tests
    → IsDict lines
    → IsDict eligible
    → IsDict ignored
    → IsDict standard
    → IsDict (header_value tests lines eligible ignored standard)
unfolding IsDict header_value get text_eq ℕ_discrete
parts-IsDict tests lines eligible ignored standard t l e i s =
    (refl, t, (refl, l, (refl, e, (refl, i, (refl, s, tt)))))

load_items-object :
    (tests : Json) (ts : Members)
    → IsDict tests
    → load_items tests ≡ inr ts
    → (load_tests ts ≡ inr ts) × AreDicts ts
unfolding load_items IsDict
load_items-object null ts d e = absurd (ground (arith, e))
load_items-object (number n) ts d e = absurd (ground (arith, e))
load_items-object (string s) ts d e = absurd (ground (arith, e))
load_items-object (object tests) ts d e =
    let kept = load_tests-IsKept tests ts d e in (kept.again, kept.dicts)

-- What is kept of a header.
abbrev pub Kept : Json → Type 0
Kept new = (load_header new ≡ inr (some new)) × IsDict new

build_header-again :
    (value : Members) (tests lines eligible standard new : Json)
    → AreDicts value
    → IsDict tests
    → IsDict lines
    → IsDict eligible
    → IsDict standard
    → build_header value tests lines eligible standard ≡ inr (some new)
    → Kept new
unfolding build_header
build_header-again value tests lines eligible standard new d t l g s e = go (load_items tests) refl
  where
    go : (r : Text ⊎ Members) → load_items tests ≡ r → Kept new
    go (inl f) k = absurd (ground (arith, e, k))
    go (inr ts) k =
        let (fixed, sound) = load_items-object tests ts t k in
        let ignored = or_else (number 0) (get (codes "ignored") value) in
        let same : header_value ts lines eligible ignored standard ≡ new = ground (arith, e, k) in
        subst Kept same (
          load_header-header_value ts lines eligible ignored standard fixed,
          parts-IsDict ts lines eligible ignored standard sound l g
              (or_else-IsDict (number 0) (codes "ignored") value (unfold IsDict in tt) d) s,
        )

pub load_header-again :
    (value new : Json) → IsDict value → load_header value ≡ inr (some new) → Kept new
unfolding load_header IsDict
load_header-again null new d e = absurd (ground (arith, e))
load_header-again (number n) new d e = absurd (ground (arith, e))
load_header-again (string s) new d e = absurd (ground (arith, e))
load_header-again (object m) new d e =
    go (get (codes "tests") m) refl (get (codes "lines") m) refl (get (codes "eligible") m) refl
      (get (codes "standard") m) refl
  where
    go :
        (t : Option Json)
        → get (codes "tests") m ≡ t
        → (l : Option Json) → get (codes "lines") m ≡ l
        → (g : Option Json) → get (codes "eligible") m ≡ g
        → (s : Option Json) → get (codes "standard") m ≡ s
        → Kept new
    go none a l b g c s k = absurd (ground (arith, e, a))
    go (some t) a none b g c s k = absurd (ground (arith, e, a, b))
    go (some t) a (some l) b none c s k = absurd (ground (arith, e, a, b, c))
    go (some t) a (some l) b (some g) c none k = absurd (ground (arith, e, a, b, c, k))
    go (some t) a (some l) b (some g) c (some s) k =
        let built : build_header m t l g s ≡ inr (some new) = ground (arith, e, a, b, c, k) in
        build_header-again m t l g s new d (get-IsDict _ m t d a) (get-IsDict _ m l d b)
          (get-IsDict _ m g d c) (get-IsDict _ m s d k) built
