-- ===== src/Readme/Assignment.antt =====
-- Replacing a block as an assignment to what is found.
use mathlib.Core.Path.{subst}
use psychicstd.Base.{
  ◌≡◌, refl, sym, ap, ◌∙◌, Option, none, some, inl, inr, ◌⊎◌, ◌∷◌, ◌++◌, Text, newline, nat_eq,
  arith,
}
use psychicstd.Readme.Blocks.{
  Problem, malformed, Block, split_parts, find_marker_match, ended, begun, body_text, fill,
  strip_newlines, replace_block,
}
use psychicstd.Readme.Parts.{join_parts, join_parts-split_parts, join_parts-append, begun-append}
use psychicstd.Readme.Lens.{NoEnd, find_marker_match-IsFound, find_marker_match-fill}

-- Where a block is found, its groups with the lines before and behind them are the whole text.
pub find_marker_match-text :
    (readme marker : Text) (b : Block)
    → find_marker_match readme marker ≡ some b
    → ended b.before ++ (b.start ++ (body_text b ++ (b.finish ++ begun b.after))) ≡ readme
unfolding body_text begun
find_marker_match-text readme marker b e =
    let found = find_marker_match-IsFound readme marker b e in
    sym (
      sym (join_parts-split_parts readme)
      ∙ ap join_parts found.whole
      ∙ join_parts-append b.before b.start _
      ∙ ap (λ t. ended b.before ++ (b.start ++ t))
          (begun-append b.body b.finish b.after
            ∙ ap (λ t. newline ∷ t) (join_parts-append b.body b.finish b.after)))

-- Putting a text into a block that was already replaced is putting it into the first README: what
-- was there before leaves no trace. The text put there first does not itself end the block.
pub replace_block_twice :
    (readme marker first second r : Text)
    → NoEnd marker (split_parts (strip_newlines first))
    → replace_block readme marker first ≡ inr r
    → replace_block r marker second ≡ replace_block readme marker second
unfolding replace_block
replace_block_twice readme marker first second r clean e =
    go (find_marker_match readme marker) refl e
  where
    go :
        (o : Option Block)
        → find_marker_match readme marker ≡ o
        → (let made : Problem ⊎ Text = elim o [
          | none ↦ inl (malformed marker)
          | some b ↦ inr (fill b (strip_newlines first))
        ] in
            made ≡ inr r)
        → replace_block r marker second ≡ replace_block readme marker second
    go none same h = ground (arith, h)
    go (some b) same h =
        let again = find_marker_match-fill readme marker b (strip_newlines first) same clean in
        let filled : fill b (strip_newlines first) ≡ r = ground (arith, h) in
        subst (λ t. replace_block t marker second ≡ replace_block readme marker second) filled
          (ground (arith, same, again))

-- `_replace_block` is an assignment to the found block: the text that it returns has the same block
-- with its lines replaced by those of the text, and everything else as it was. The text does not
-- itself end the block.
pub replace_block-refines :
    (readme marker text : Text) (b : Block)
    → find_marker_match readme marker ≡ some b
    → NoEnd marker (split_parts (strip_newlines text))
    → (r : Text) × (replace_block readme marker text ≡ inr r)
      × (find_marker_match r marker ≡ some (record b { body = split_parts (strip_newlines text) }))
unfolding replace_block
replace_block-refines readme marker text b same clean = (
  fill b (strip_newlines text),
  ground (arith, same),
  find_marker_match-fill readme marker b (strip_newlines text) same clean,
)
