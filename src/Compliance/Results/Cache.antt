-- ===== src/Compliance/Results/Cache.antt =====
-- `load_cache` and `save_cache`: the cache as the JSON value that the file holds.
pub mod Again
pub mod Kept
pub mod Saved
use psychicstd.Base.{
  ℕ, ◌≡◌, refl, Bool, true, false, ◌&&◌, Option, none, some, ◌⊎◌, inl, inr, arith, ap, ◌∙◌, not,
}
use psychicstd.Base.{
  List, [], ◌∷◌, Text, codes, Dict, keys, values, All, NoDupKeys, contains, text_eq, ℕ_discrete,
  if◌then◌else◌, ◌==◌,
}
use psychicstd.Compliance.Results.{Entry, HeaderCache}

-- The values of the cache file; it has no arrays, fractions and truth values.
mutual
  pub data Json : Type 0 where
    null : Json
    number : ℕ → Json
    string : Text → Json
    object : Members → Json

  pub data Members : Type 0 where
    nil : Members
    member : Text → Json → Members → Members

-- `d.get(k)`, where `none` is a missing key
unfoldable pub get : Text → Members → Option Json
unfolding text_eq
get k nil = none
get k (member j value more) = let rest = get k more in if j == k then some value else rest

-- What `d.get(k, default)` makes of it.
or_else : Json → Option Json → Json
or_else default' none = default'
or_else default' (some value) = value

-- `{"sys": system, "psy": psychic}`
unfoldable pub test_value : Json → Json → Json
test_value system psychic = object (member (codes "sys") system (member (codes "psy") psychic nil))

-- `{"sys": test.get("sys"), "psy": test.get("psy")}`
pub load_test : Json → Text ⊎ Json
unfolding test_value get or_else
load_test (object test) =
    inr (test_value (or_else null (get (codes "sys") test)) (or_else null (get (codes "psy") test)))
load_test _ = inl (codes "AttributeError")

-- The comprehension over the tests of a header.
pub load_tests : Members → Text ⊎ Members
unfolding load_test
load_tests nil = inr nil
load_tests (member path test more) =
    let rest = load_tests more in
    elim (load_test test) [
      | inl e ↦ inl e
      | inr t ↦ elim rest [ inl e ↦ inl e | inr ts ↦ inr (member path t ts) ]
    ]

-- `value["tests"].items()` and what is made of them.
pub load_items : Json → Text ⊎ Members
unfolding load_tests
load_items (object tests) = load_tests tests
load_items _ = inl (codes "AttributeError")

-- The value of a header, as `load_cache` and `check_header` build it.
unfoldable pub header_value : Members → Json → Json → Json → Json → Json
header_value tests lines eligible ignored standard = object (
    member (codes "tests") (object tests) (
      member (codes "lines") lines (
        member (codes "eligible") eligible
          (member (codes "ignored") ignored (member (codes "standard") standard nil)))))

-- The value of the comprehension for a header that has these four keys.
build_header : Members → Json → Json → Json → Json → Text ⊎ Option Json
unfolding header_value get or_else load_items
build_header value tests lines eligible standard = elim (load_items tests) [
  | inl e ↦ inl e
  | inr ts ↦ inr (
      some (
        header_value ts lines eligible (or_else (number 0) (get (codes "ignored") value)) standard))
]

-- A header of the file: what is kept of it, or `none` where `_CACHE_KEYS.issubset` fails. A text is
-- a sequence of characters, and none of them is a key.
unfoldable pub load_header : Json → Text ⊎ Option Json
unfolding build_header get
load_header (object value) = elim (get (codes "tests") value) [
  | none ↦ inr none
  | some tests ↦ elim (get (codes "lines") value) [
    | none ↦ inr none
    | some lines ↦ elim (get (codes "eligible") value) [
      | none ↦ inr none
      | some eligible ↦ elim (get (codes "standard") value) [
        | none ↦ inr none
        | some standard ↦ build_header value tests lines eligible standard
      ]
    ]
  ]
]
load_header (string s) = inr none
load_header _ = inl (codes "TypeError")

pub load_headers : Members → Text ⊎ Members
unfolding load_header
load_headers nil = inr nil
load_headers (member header value more) =
    let rest = load_headers more in
    elim (load_header value) [
      | inl e ↦ inl e
      | inr kept ↦ elim rest [
        | inl e ↦ inl e
        | inr headers ↦ elim kept [ none ↦ inr headers | some v ↦ inr (member header v headers) ]
      ]
    ]

-- The comprehension of `load_cache` on what `json.loads` gives.
unfoldable pub load_data : Json → Text ⊎ Members
unfolding load_headers
load_data (object headers) = load_headers headers
load_data _ = inl (codes "AttributeError")

-- The cache file, with the text that it holds.
pub data CacheFile (File : Type 0) : Type 0 where
  absent : CacheFile File
  -- `read_text` raises an `OSError`
  unreadable : CacheFile File
  -- `read_text` raises a `UnicodeDecodeError`
  undecodable : CacheFile File
  written : File → CacheFile File

-- `dumps` and `loads` are those of `json`; `none` is the `JSONDecodeError`.
module _ {File : Type 0} (dumps : Json → File) (loads : File → Option Json) where
  -- `load_cache`: the dictionary, or the exception that escapes.
  unfoldable pub load_cache : CacheFile File → Text ⊎ Members
  unfolding load_data
  load_cache absent = inr nil
  load_cache unreadable = inr nil
  load_cache undecodable = inl (codes "UnicodeDecodeError")
  load_cache (written file) = elim (loads file) [ none ↦ inr nil | some value ↦ load_data value ]

  -- `save_cache`
  unfoldable pub save_cache : Members → CacheFile File
  save_cache cache = written (dumps (object cache))
