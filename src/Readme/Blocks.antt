-- ===== src/Readme/Blocks.antt =====
-- The marked blocks of README.md: `_find_marker_match`, `_replace_block` and
-- `_coerce_marker_body_lines` of scripts/update_readme_from_benchmarks.py. The expression's ^ and $
-- stand at newlines only, so the file is taken as its parts between newlines.
use psychicstd.Base.{
  ℕ, Bool, true, false, ◌||◌, ◌&&◌, Option, none, some, List, [], ◌∷◌, ◌++◌, Text, codes, newline,
  after_prefix, strip, split_lines, reverse, nat_eq, text_eq, if◌then◌else◌, ◌==◌, inl, inr, ◌⊎◌,
}

-- What a step of the synchronisation raises.
pub data Problem : Type 0 where
  malformed : (marker : Text) → Problem
  rows_missing : (marker : Text) → (keys : List Text) → Problem
  rows_ambiguous : (marker : Text) → (keys : List Text) → Problem
  report_missing : (path : Text) → Problem
  no_report_rows : (marker : Text) → Problem
  no_speedup_row : Problem
  no_speedups : (marker : Text) → Problem
  nothing_parsed : (path : Text) → Problem

unfoldable pub and_then {ℓ κ} :
    {A : Type ℓ} {B : Type κ} → Problem ⊎ A → (A → Problem ⊎ B) → Problem ⊎ B
and_then (inl p) f = inl p
and_then (inr a) f = f a

unfoldable pub extend_part : ℕ → List Text → List Text
extend_part c [] = (c ∷ []) ∷ []
extend_part c (part ∷ parts) = (c ∷ part) ∷ parts

-- `text.split("\n")`
unfoldable pub split_parts : Text → List Text
unfolding nat_eq
split_parts [] = [] ∷ []
split_parts (c ∷ s) = if c == newline then [] ∷ split_parts s else extend_part c (split_parts s)

-- `[ \t]*$` on what is left of a line
unfoldable pub is_blank_end : Text → Bool
unfolding nat_eq
is_blank_end [] = true
is_blank_end (c ∷ s) = ((c == 32) || (c == 9)) && is_blank_end s

-- A line with the text at its start and nothing but spaces and tabs behind it.
unfoldable pub is_marker_line : Text → Text → Bool
unfolding after_prefix is_blank_end
is_marker_line mark line = elim (after_prefix mark line) [
  | none ↦ false
  | some rest ↦ is_blank_end rest
]

unfoldable pub start_mark : Text → Text
start_mark marker = codes "<!-- README_BENCHMARK:" ++ (marker ++ codes ":start -->")

unfoldable pub end_mark : Text → Text
end_mark marker = codes "<!-- README_BENCHMARK:" ++ (marker ++ codes ":end -->")

-- A match, with what stands before it and after it. The groups "start" and "end" are lines, and
-- "body" is the lines between them with the newlines around each.
pub record Block : Type 0 where
  pub before : List Text
  pub start : Text
  pub body : List Text
  pub finish : Text
  pub after : List Text

-- The lines up to the first that matches, that line, and the lines behind it.
unfoldable pub split_at : Text → List Text → Option (List Text × (Text × List Text))
unfolding is_marker_line
split_at mark [] = none
split_at mark (line ∷ lines) =
    let rest = split_at mark lines in
    if is_marker_line mark line
    then some ([], (line, lines))
    else elim rest [ none ↦ none | some (front, back) ↦ some (line ∷ front, back) ]

-- `_find_marker_match`, where `none` is the error that it raises
unfoldable pub find_marker_match : Text → Text → Option Block
unfolding split_at start_mark end_mark split_parts
find_marker_match readme marker = elim (split_at (start_mark marker) (split_parts readme)) [
  | none ↦ none
  | some (before, (start, rest)) ↦ elim (split_at (end_mark marker) rest) [
    | none ↦ none
    | some (body, (finish, after)) ↦
        some
          (record { before = before; start = start; body = body; finish = finish; after = after })
  ]
]

-- Each line, with a newline behind it.
unfoldable pub ended : List Text → Text
ended [] = []
ended (line ∷ lines) = line ++ (newline ∷ ended lines)

-- Each line, with a newline before it.
unfoldable pub begun : List Text → Text
begun [] = []
begun (line ∷ lines) = newline ∷ (line ++ begun lines)

-- `match.group("body")`
unfoldable pub body_text : Block → Text
unfolding ended
body_text b = newline ∷ ended b.body

-- What the functions return with a new text between the marker's lines.
unfoldable pub fill : Block → Text → Text
unfolding ended begun
fill b text =
    ended b.before ++ (b.start ++ (newline ∷ (text ++ (newline ∷ (b.finish ++ begun b.after)))))

unfoldable pub drop_newlines : Text → Text
unfolding nat_eq
drop_newlines [] = []
drop_newlines (c ∷ s) = if c == newline then drop_newlines s else c ∷ s

-- `replacement.strip("\n")`
unfoldable pub strip_newlines : Text → Text
unfolding drop_newlines
strip_newlines s = reverse (drop_newlines (reverse (drop_newlines s)))

-- `_replace_block`
unfoldable pub replace_block : Text → Text → Text → Problem ⊎ Text
unfolding find_marker_match fill strip_newlines
replace_block readme marker replacement = elim (find_marker_match readme marker) [
  | none ↦ inl (malformed marker)
  | some b ↦ inr (fill b (strip_newlines replacement))
]

-- `while lines and not lines[0].strip(): lines.pop(0)`
unfoldable pub drop_blank : List Text → List Text
unfolding strip text_eq
drop_blank [] = []
drop_blank (line ∷ lines) = if strip line == [] then drop_blank lines else line ∷ lines

-- `while lines and not lines[-1].strip(): lines.pop()`
unfoldable pub drop_blank_end : List Text → List Text
unfolding strip text_eq
drop_blank_end [] = []
drop_blank_end (line ∷ lines) = elim (drop_blank_end lines) [
  | [] ↦ if strip line == [] then [] else line ∷ []
  | next ∷ more ↦ line ∷ next ∷ more
]

-- `_coerce_marker_body_lines`
unfoldable pub coerce_marker_body_lines : Text → List Text
unfolding split_lines drop_blank drop_blank_end
coerce_marker_body_lines body = drop_blank_end (drop_blank (split_lines false body))
