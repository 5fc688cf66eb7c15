-- ===== src/Compliance/Markers.antt =====
-- The lit marker comments of a libc++ test: the regular expressions of tools/compliance.py,
-- as functions on the code points of the text.
use mathlib.Core.List.{flatten}
use psychicstd.Base.{ℕ, zero, suc, ◌-◌, Bool, true, false, ◌||◌, not, Option, none, some}
use psychicstd.Base.{List, [], ◌∷◌, map, Text, codes, newline, is_space, after_prefix, span, strip}
use psychicstd.Base.{if◌then◌else◌, ◌==◌, nat_eq, text_eq, keep, length}

-- What `(.+)$` takes at the front of a text that does not start with a newline: `.` takes all
-- but a newline, and `$` matches in front of the next one or at the end.
unfoldable pub to_line_end : Text → Text
unfolding span nat_eq
to_line_end s = let (line, rest) = span (λ c. not (c == newline)) s in line

-- The last white character that is no newline. `\s*(.+)$` gives back that much where nothing but
-- white space is left up to the end of the text.
unfoldable pub last_blank : Text → Option ℕ
unfolding nat_eq
last_blank [] = none
last_blank (c ∷ s) = elim (last_blank s) [
  | some d ↦ some d
  | none ↦ if c == newline then none else some c
]

-- `\s*(.+)$` at the front of a text: the group, and what follows the match.
unfoldable pub capture : Text → Option (Text × Text)
unfolding span is_space last_blank to_line_end
capture s =
    let (white, rest) = span is_space s in
    elim rest [
      | [] ↦ elim (last_blank white) [ none ↦ none | some c ↦ some (c ∷ [], []) ]
      | c ∷ r ↦ let (line, after) = span (λ d. not (d == newline)) (c ∷ r) in some (line, after)
    ]

-- `//\s*WORD\s*(.+)$`, where WORD starts with a letter and ends in a colon.
unfoldable pub match_marker : Text → Text → Option (Text × Text)
unfolding after_prefix span is_space capture
match_marker word s = elim (after_prefix (codes "//") s) [
  | none ↦ none
  | some r ↦
      let (white, t) = span is_space r in
      elim (after_prefix word t) [ none ↦ none | some u ↦ capture u ]
]

-- `finditer` under MULTILINE: a match is tried at each start of a line, and the search goes on
-- behind a match. `skip` counts the code points that the last match still covers.
unfoldable pub find_markers : Text → ℕ → Bool → Text → List Text
unfolding match_marker nat_eq
find_markers word skip start [] = []
find_markers word (suc skip) start (c ∷ s) = find_markers word skip (c == newline) s
find_markers word zero start (c ∷ s) =
    let here = if start then match_marker word (c ∷ s) else none in
    elim here [
      | none ↦ find_markers word zero (c == newline) s
      | some (group, after) ↦ group ∷ find_markers word (length s - length after) (c == newline) s
    ]

-- The groups of all matches.
unfoldable pub groups : Text → Text → List Text
unfolding find_markers
groups word text = find_markers word 0 true text

unfoldable pub is_separator : ℕ → Bool
unfolding is_space nat_eq
is_separator c = c == b',' || is_space c

cons_head : ℕ → List Text → List Text
cons_head c [] = (c ∷ []) ∷ []
cons_head c (word ∷ words) = (c ∷ word) ∷ words

-- `re.split(r"[,\s]+", line)`: a run of separators ends a piece.
unfoldable pub split_runs : Bool → Text → List Text
unfolding is_separator cons_head
split_runs inside [] = [] ∷ []
split_runs inside (c ∷ s) =
    let rest = split_runs (is_separator c) s in
    if is_separator c then if inside then rest else [] ∷ rest else cons_head c rest

is_empty : Text → Bool
is_empty [] = true
is_empty (c ∷ s) = false

-- `_tokens`
unfoldable pub tokens : Text → List Text
unfolding split_runs strip is_empty
tokens line = keep (λ t. not (is_empty t)) (map strip (split_runs false line))

-- `str.split()`: split_runs on white space only, without the empty pieces.
white_pieces : Text → List Text
unfolding is_space cons_head
white_pieces [] = [] ∷ []
white_pieces (c ∷ s) =
    let rest = white_pieces s in if is_space c then [] ∷ rest else cons_head c rest

unfoldable pub split_white : Text → List Text
unfolding white_pieces is_empty
split_white s = keep (λ t. not (is_empty t)) (white_pieces s)

abbrev pub unsupported_word : Text
unsupported_word = codes "UNSUPPORTED:"

abbrev pub requires_word : Text
requires_word = codes "REQUIRES:"

abbrev pub flags_word : Text
flags_word = codes "ADDITIONAL_COMPILE_FLAGS:"

-- `extra_flags`
unfoldable pub extra_flags : Text → List Text
unfolding split_white flatten groups
extra_flags text = flatten (map split_white (groups flags_word text))
