-- ===== src/Readme/Again.antt =====
-- An edit of a block that is done once.
use mathlib.Core.Path.{subst}
use psychicstd.Base.{
  ◌≡◌, sym, ap, ◌∙◌, false, some, inr, ◌⊎◌, List, [], ◌∷◌, Text, All, strip, join_lines, IsLine,
  is_line_break, arith, ◌==◌, text_eq, nat_eq, ℕ_discrete,
}
use psychicstd.Readme.Blocks.{
  Problem, and_then, Block, find_marker_match, split_parts, body_text, fill, drop_blank_end,
  coerce_marker_body_lines,
}
use psychicstd.Readme.Parts.{IsPart, split_parts-append, split_parts-part}
use psychicstd.Readme.Lens.{NoEnd, find_marker_match-fill}
use psychicstd.Readme.Rows.{edit_block}
use psychicstd.Readme.Blank.{coerce-fill}

pub edit_block-found :
    (readme marker : Text) (edit : List Text → Problem ⊎ List Text) (b : Block)
    → find_marker_match readme marker ≡ some b
    → edit_block readme marker edit
      ≡ and_then
          (edit (coerce_marker_body_lines (body_text b)))
          (λ lines. inr (fill b (join_lines lines)))
unfolding edit_block
edit_block-found readme marker edit b found = ground (arith, found)

IsLine-IsPart : (line : Text) → IsLine line → IsPart line
unfolding is_line_break ℕ_discrete
IsLine-IsPart [] h = tt
IsLine-IsPart (c ∷ line) h = (ground (arith, h.0), IsLine-IsPart line h.1)

split_parts-join_lines :
    (line : Text) (lines : List Text)
    → All IsLine (line ∷ lines)
    → split_parts (join_lines (line ∷ lines)) ≡ line ∷ lines
unfolding join_lines
split_parts-join_lines line [] h = split_parts-part line (IsLine-IsPart line h.0)
split_parts-join_lines line (next ∷ lines) h =
    split_parts-append line (join_lines (next ∷ lines))
    ∙ simp (split_parts-part line (IsLine-IsPart line h.0), split_parts-join_lines next lines h.1)

-- An edit that keeps the lines it gave, but for those at the end that are blank, is done once.
pub edit_block-again :
    (readme marker : Text) (edit : List Text → Problem ⊎ List Text) (b : Block) (line : Text)
    (lines : List Text)
    → find_marker_match readme marker ≡ some b
    → All IsLine (line ∷ lines)
    → NoEnd marker (line ∷ lines)
    → (strip line == []) ≡ false
    → edit (drop_blank_end (line ∷ lines)) ≡ inr (line ∷ lines)
    → edit_block (fill b (join_lines (line ∷ lines))) marker edit
      ≡ inr (fill b (join_lines (line ∷ lines)))
unfolding and_then fill
edit_block-again readme marker edit b line lines found lined clean solid same =
    let text = join_lines (line ∷ lines) in
    let b' = record b { body = split_parts text } in
    let again : find_marker_match (fill b text) marker ≡ some b' =
      find_marker_match-fill readme marker b text found
        (subst (NoEnd marker) (sym (split_parts-join_lines line lines lined)) clean) in
    edit_block-found (fill b text) marker edit b' again
    ∙ ap (λ o. and_then o (λ ls. inr (fill b' (join_lines ls))))
        (ap edit (coerce-fill b line lines lined solid) ∙ same)
