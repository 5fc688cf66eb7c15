-- ===== src/Readme/Blank.antt =====
-- The lines that `_coerce_marker_body_lines` takes from a block.
use mathlib.Core.Path.{subst}
use psychicstd.Base.{
  ◌≡◌, refl, sym, ap, ◌∙◌, Bool, true, false, List, [], ◌∷◌, ◌++◌, Text, newline, keep, All, strip,
  lstrip, rstrip, split_lines, split_lines-join_lines, split_lines-cons, join_lines, IsLine,
  is_line_break, arith, if◌then◌else◌, ◌==◌, text_eq, nat_eq, ℕ_discrete,
}
use psychicstd.Readme.Blocks.{
  Block, split_parts, ended, body_text, drop_blank, drop_blank_end, coerce_marker_body_lines,
}
use psychicstd.Readme.Parts.{ended-split_parts}

-- The lines of a block that is filled with lines: a first line that is not blank stays.
pub coerce-fill :
    (b : Block) (line : Text) (lines : List Text)
    → All IsLine (line ∷ lines)
    → (strip line == []) ≡ false
    → coerce_marker_body_lines
        (body_text (record b { body = split_parts (join_lines (line ∷ lines)) }))
      ≡ drop_blank_end (line ∷ lines)
unfolding coerce_marker_body_lines body_text split_lines is_line_break ℕ_discrete drop_blank strip
    lstrip rstrip text_eq
coerce-fill b line lines clean first =
    ap (λ t. drop_blank_end (drop_blank (split_lines false (newline ∷ t))))
      (ended-split_parts (join_lines (line ∷ lines)))
    ∙ ap (λ ls. drop_blank_end (drop_blank ([] ∷ ls))) (split_lines-join_lines line lines clean)
    ∙ ground (arith, first)

-- The lines at the end that are blank are dropped once.
pub drop_blank_end-blank :
    (rows lines : List Text) (line : Text)
    → drop_blank_end lines ≡ []
    → (strip line == []) ≡ false
    → drop_blank_end (rows ++ (line ∷ lines)) ≡ rows ++ (line ∷ [])
unfolding drop_blank_end
drop_blank_end-blank [] lines line e h = ground (arith, e, h)
drop_blank_end-blank (row ∷ rows) lines line e h =
    go rows (drop_blank_end-blank rows lines line e h)
  where
    go :
        (rows : List Text)
        → drop_blank_end (rows ++ (line ∷ lines)) ≡ rows ++ (line ∷ [])
        → drop_blank_end (row ∷ (rows ++ (line ∷ lines))) ≡ row ∷ (rows ++ (line ∷ []))
    go [] ih = ground (arith, ih)
    go (next ∷ more) ih = ground (arith, ih)

pub drop_blank_end_idem :
    (lines : List Text) → drop_blank_end (drop_blank_end lines) ≡ drop_blank_end lines
unfolding drop_blank_end
drop_blank_end_idem [] = refl
drop_blank_end_idem (line ∷ lines) =
    go (drop_blank_end lines) (drop_blank_end_idem lines) (strip line == []) refl
  where
    go :
        (rest : List Text)
        → drop_blank_end rest ≡ rest
        → (b : Bool) → (strip line == []) ≡ b
        → let kept : List Text = elim rest [
          | [] ↦ if b then [] else line ∷ []
          | next ∷ more ↦ line ∷ next ∷ more
        ] in
          drop_blank_end kept ≡ kept
    go [] ih true e = refl
    go [] ih false e = ground (arith, e)
    go (next ∷ more) ih b e = ground (arith, ih)

pub drop_blank_end-nil :
    (lines : List Text) → drop_blank_end (lines ++ ([] ∷ [])) ≡ drop_blank_end lines
unfolding drop_blank_end strip lstrip rstrip text_eq
drop_blank_end-nil [] = refl
drop_blank_end-nil (line ∷ lines) = ground (arith, drop_blank_end-nil lines)

module _ (P : Text → Type 0) where
  All-drop_blank : (lines : List Text) → All P lines → All P (drop_blank lines)
  unfolding drop_blank
  All-drop_blank [] h = tt
  All-drop_blank (line ∷ lines) h = go (strip line == []) (All-drop_blank lines h.1)
    where
      go :
          (b : Bool)
          → All P (drop_blank lines)
          → All P (if b then drop_blank lines else line ∷ lines)
      go true ih = ih
      go false ih = h

  pub All-drop_blank_end : (lines : List Text) → All P lines → All P (drop_blank_end lines)
  unfolding drop_blank_end
  All-drop_blank_end [] h = tt
  All-drop_blank_end (line ∷ lines) h =
      go (drop_blank_end lines) (All-drop_blank_end lines h.1) (strip line == [])
    where
      go :
          (rest : List Text)
          → All P rest
          → (b : Bool)
          → let kept : List Text = elim rest [
            | [] ↦ if b then [] else line ∷ []
            | next ∷ more ↦ line ∷ next ∷ more
          ] in
            All P kept
      go [] ih true = tt
      go [] ih false = (h.0, tt)
      go (next ∷ more) ih b = (h.0, ih)

  pub All-keep : (p : Text → Bool) (lines : List Text) → All P lines → All P (keep p lines)
  All-keep p [] h = tt
  All-keep p (line ∷ lines) h = go (p line) (All-keep p lines h.1)
    where
      go :
          (b : Bool)
          → All P (keep p lines)
          → All P (if b then line ∷ keep p lines else keep p lines)
      go true ih = (h.0, ih)
      go false ih = ih

  pub All-append : (xs ys : List Text) → All P xs → All P ys → All P (xs ++ ys)
  All-append [] ys h k = k
  All-append (x ∷ xs) ys h k = (h.0, All-append xs ys h.1 k)

pub All-keep-holds : (p : Text → Bool) (lines : List Text) → All (λ l. p l ≡ true) (keep p lines)
All-keep-holds p [] = tt
All-keep-holds p (line ∷ lines) = ground (arith, All-keep-holds p lines)

pub keep-All :
    (p : Text → Bool) (lines : List Text) → All (λ l. p l ≡ true) lines → keep p lines ≡ lines
keep-All p [] h = refl
keep-All p (line ∷ lines) h = ground (arith, h.0, keep-All p lines h.1)

pub keep-append : (p : Text → Bool) (xs ys : List Text) → keep p (xs ++ ys) ≡ keep p xs ++ keep p ys
keep-append p [] ys = refl
keep-append p (x ∷ xs) ys = ground (arith, keep-append p xs ys)

split_lines-ended : (lines : List Text) → All IsLine lines → split_lines false (ended lines) ≡ lines
unfolding ended split_lines
split_lines-ended [] h = refl
split_lines-ended (line ∷ lines) h =
    split_lines-cons line (ended lines) h.0 ∙ ap (λ ls. line ∷ ls) (split_lines-ended lines h.1)

-- What holds of the lines of the block and of an empty one holds of the lines that are taken.
pub coerce-All :
    (P : Text → Type 0) (b : Block)
    → All IsLine b.body
    → P []
    → All P b.body
    → All P (coerce_marker_body_lines (body_text b))
unfolding coerce_marker_body_lines body_text split_lines is_line_break ℕ_discrete
coerce-All P b clean empty all =
    All-drop_blank_end P (drop_blank ([] ∷ split_lines false (ended b.body))) (
      All-drop_blank P ([] ∷ split_lines false (ended b.body))
        (subst (λ ls. All P ([] ∷ ls)) (sym (split_lines-ended b.body clean)) (empty, all)))
