-- ===== src/Compliance/Classify.antt =====
-- `classify_test`: which drivers of the libc++ suite count for the report.
use psychicstd.Base.{ℕ, Bool, true, false, ◌||◌, ◌&&◌, not, Option, none, some}
use psychicstd.Base.{
  List, [], ◌∷◌, reverse, Text, codes, after_prefix, span, starts_with, ends_with,
}
use psychicstd.Base.{if◌then◌else◌, ◌==◌, nat_eq, text_eq, contains, any, leb, ltb}
use psychicstd.Compliance.Markers.{groups, tokens, unsupported_word, requires_word}

pub data Kind : Type 0 where
  eligible libcpp_specific irrelevant : Kind

-- `path.name`: what follows the last slash.
unfoldable pub base_name : Text → Text
unfolding span nat_eq
base_name path = let (name, rest) = span (λ c. not (c == b'/')) (reverse path) in reverse name

-- `path.stem` and `path.suffix`: the name is cut at its last dot, unless the dot is its first or
-- last character.
unfoldable pub stem_suffix : Text → Text × Text
unfolding base_name span nat_eq
stem_suffix path =
    let name = base_name path in
    let (extension, rest) = span (λ c. not (c == b'.')) (reverse name) in
    elim rest [
      | [] ↦ (name, [])
      | dot ∷ [] ↦ (name, [])
      | dot ∷ c ∷ front ↦ elim extension [
        | [] ↦ (name, [])
        | d ∷ e ↦ (reverse (c ∷ front), b'.' ∷ reverse (d ∷ e))
      ]
    ]

-- `LANGUAGE_STANDARD`
abbrev pub language_standard : ℕ
language_standard = 20

-- `(03|11|14|17|20|23|26)` at the front of a text: the number, and the rest.
pick : List (Text × ℕ) → Text → Option (ℕ × Text)
unfolding after_prefix
pick [] s = none
pick ((digits, n) ∷ more) s =
    let next = pick more s in elim (after_prefix digits s) [ some r ↦ some (n, r) | none ↦ next ]

unfoldable pub standard_number : Text → Option (ℕ × Text)
unfolding pick
standard_number = pick (
    (codes "03", 3)
    ∷ (codes "11", 11)
    ∷ (codes "14", 14)
    ∷ (codes "17", 17)
    ∷ (codes "20", 20)
    ∷ (codes "23", 23)
    ∷ (codes "26", 26)
    ∷ [])

-- All of `findall` with a pattern that starts with a character which it has only there, or that
-- cannot overlap itself: each position is tried, with the character in front of it.
scan : (Option ℕ → Text → Option ℕ) → Option ℕ → Text → List ℕ
scan at before [] = []
scan at before (c ∷ s) =
    let rest = scan at (some c) s in elim (at before (c ∷ s)) [ none ↦ rest | some n ↦ n ∷ rest ]

minimum_at : Option ℕ → Text → Option ℕ
unfolding after_prefix standard_number
minimum_at before s = elim (after_prefix (codes "std-at-least-c++") s) [
  | none ↦ none
  | some r ↦ elim (standard_number r) [ none ↦ none | some (n, u) ↦ some n ]
]

-- `_RE_MINIMUM_STANDARD.findall`
unfoldable pub minimum_standards : Text → List ℕ
unfolding scan minimum_at
minimum_standards = scan minimum_at none

no_numbers : List ℕ → Bool
no_numbers [] = true
no_numbers (n ∷ ns) = false

-- `wide_word c` says whether a code point beyond ASCII belongs to the class `\w`.
module _ (wide_word : ℕ → Bool) where
  -- `[\w-]`
  unfoldable pub is_word_or_dash : ℕ → Bool
  unfolding nat_eq
  is_word_or_dash c =
      (leb b'a' c && leb c b'z')
      || ((leb b'A' c && leb c b'Z')
          || ((leb b'0' c && leb c b'9')
              || ((c == b'_') || ((c == b'-') || (leb 128 c && wide_word c)))))

  clear_before : Option ℕ → Bool
  clear_before none = true
  clear_before (some c) = not (is_word_or_dash c)

  clear_after : Text → Bool
  clear_after [] = true
  clear_after (c ∷ s) = not (is_word_or_dash c)

  exact_at : Option ℕ → Text → Option ℕ
  unfolding after_prefix standard_number clear_before clear_after is_word_or_dash
  exact_at before s = elim (after_prefix (codes "c++") s) [
    | none ↦ none
    | some r ↦ elim (standard_number r) [
      | none ↦ none
      | some (n, u) ↦ if clear_before before && clear_after u then some n else none
    ]
  ]

  -- `_RE_EXACT_STANDARD.findall`
  unfoldable pub exact_standards : Text → List ℕ
  unfolding scan exact_at
  exact_standards = scan exact_at none

  -- `_requires_other_standard`
  unfoldable pub requires_other_standard : Text → Bool
  unfolding exact_standards minimum_standards no_numbers nat_eq
  requires_other_standard expression =
      let exact = exact_standards expression in
      if not (no_numbers exact) && not (contains exact language_standard)
      then true
      else any (λ value. ltb language_standard value) (minimum_standards expression)

  requires_irrelevant : List Text → Bool
  unfolding requires_other_standard tokens starts_with
  requires_irrelevant =
      any (λ g. requires_other_standard g || any (λ t. starts_with t (codes "libcpp-")) (tokens g))

  -- `classify_test`
  unfoldable pub classify_test : Text → Text → Kind
  unfolding stem_suffix ends_with groups tokens requires_irrelevant text_eq
  classify_test path text =
      let (stem, suffix) = stem_suffix path in
      if ends_with stem (codes ".verify") || ends_with stem (codes ".fail")
      then irrelevant
      else if not (suffix == codes ".cpp")
      then irrelevant
      else if not (ends_with stem (codes ".pass") || ends_with stem (codes ".compile.pass"))
      then irrelevant
      else if any (λ g. contains (tokens g) (codes "c++20")) (groups unsupported_word text)
      then libcpp_specific
      else if requires_irrelevant (groups requires_word text)
      then libcpp_specific
      else eligible

  -- `should_skip`
  unfoldable pub should_skip : Text → Text → Bool
  unfolding classify_test
  should_skip path text = elim (classify_test path text) [ eligible ↦ false | _ ↦ true ]
