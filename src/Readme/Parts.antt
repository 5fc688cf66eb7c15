-- ===== src/Readme/Parts.antt =====
-- A text and its parts between newlines.
use mathlib.Core.List.{append_assoc, append-nil}
use psychicstd.Base.{
  ℕ, Bool, true, false, ◌≡◌, refl, sym, ap, ◌∙◌, List, [], ◌∷◌, ◌++◌, Text, newline, All, nat_eq,
  ℕ_discrete, arith, if◌then◌else◌, ◌==◌,
}
use psychicstd.Readme.Blocks.{extend_part, split_parts, ended, begun}

-- A text without a newline.
abbrev pub IsPart : Text → Type 0
IsPart part = All (λ c. (c == newline) ≡ false) part

IsPart-extend_part :
    (c : ℕ) (parts : List Text)
    → (c == newline) ≡ false
    → All IsPart parts
    → All IsPart (extend_part c parts)
unfolding extend_part
IsPart-extend_part c [] h all = ((h, tt), tt)
IsPart-extend_part c (part ∷ parts) h all = ((h, all.0), all.1)

pub split_parts-IsPart : (s : Text) → All IsPart (split_parts s)
unfolding split_parts
split_parts-IsPart [] = (tt, tt)
split_parts-IsPart (c ∷ s) = go (c == newline) refl (split_parts-IsPart s)
  where
    go :
        (b : Bool)
        → (c == newline) ≡ b
        → All IsPart (split_parts s)
        → All IsPart (if b then [] ∷ split_parts s else extend_part c (split_parts s))
    go true e h = (tt, h)
    go false e h = IsPart-extend_part c (split_parts s) e h

split_parts-cons : (s : Text) → (part : Text) × (parts : List Text) × (split_parts s ≡ part ∷ parts)
unfolding split_parts extend_part
split_parts-cons [] = ([], [], refl)
split_parts-cons (c ∷ s) = go (c == newline) (split_parts-cons s)
  where
    go :
        (b : Bool)
        → ((part : Text) × (parts : List Text) × (split_parts s ≡ part ∷ parts))
        → (part : Text) × (parts : List Text) × ((if b
              then [] ∷ split_parts s
              else extend_part c (split_parts s))
            ≡ part ∷ parts)
    go true h = ([], split_parts s, refl)
    go false (part, parts, e) = (c ∷ part, parts, ap (extend_part c) e)

-- A newline parts what stands before it from what stands behind it.
pub split_parts-append :
    (s t : Text) → split_parts (s ++ (newline ∷ t)) ≡ split_parts s ++ split_parts t
unfolding split_parts extend_part ℕ_discrete
split_parts-append [] t = refl
split_parts-append (c ∷ s) t =
    let (part, parts, e) = split_parts-cons s in
    let ih : split_parts (s ++ (newline ∷ t)) ≡ (part ∷ parts) ++ split_parts t =
      split_parts-append s t ∙ ap (λ ps. ps ++ split_parts t) e in
    ground (arith, e, ih)

pub split_parts-part : (part : Text) → IsPart part → split_parts part ≡ part ∷ []
unfolding split_parts extend_part
split_parts-part [] h = refl
split_parts-part (c ∷ part) h = ground (arith, h.0, split_parts-part part h.1)

pub split_parts-ended :
    (lines : List Text) (t : Text)
    → All IsPart lines
    → split_parts (ended lines ++ t) ≡ lines ++ split_parts t
unfolding ended
split_parts-ended [] t h = refl
split_parts-ended (line ∷ lines) t h =
    ap split_parts (append_assoc line (newline ∷ ended lines) t)
    ∙ split_parts-append line (ended lines ++ t)
    ∙ simp (split_parts-part line h.0, split_parts-ended lines t h.1)

pub split_parts-begun :
    (line : Text) (lines : List Text)
    → IsPart line
    → All IsPart lines
    → split_parts (line ++ begun lines) ≡ line ∷ lines
unfolding begun
split_parts-begun line [] h hs = simp (append-nil, split_parts-part line h)
split_parts-begun line (next ∷ lines) h hs =
    split_parts-append line (next ++ begun lines)
    ∙ simp (split_parts-part line h, split_parts-begun next lines hs.0 hs.1)

pub All-append-front : (P : Text → Type 0) (xs ys : List Text) → All P (xs ++ ys) → All P xs
All-append-front P [] ys h = tt
All-append-front P (x ∷ xs) ys h = (h.0, All-append-front P xs ys h.1)

pub All-append-back : (P : Text → Type 0) (xs ys : List Text) → All P (xs ++ ys) → All P ys
All-append-back P [] ys h = h
All-append-back P (x ∷ xs) ys h = All-append-back P xs ys h.1

-- The parts with the newlines between them.
unfoldable pub join_parts : List Text → Text
unfolding begun
join_parts [] = []
join_parts (line ∷ lines) = line ++ begun lines

pub join_parts-split_parts : (s : Text) → join_parts (split_parts s) ≡ s
unfolding split_parts extend_part join_parts begun
join_parts-split_parts [] = refl
join_parts-split_parts (c ∷ s) =
    let (part, parts, e) = split_parts-cons s in
    let ih : part ++ begun parts ≡ s = sym (ap join_parts e) ∙ join_parts-split_parts s in
    ground (arith, e, ih)

pub begun-append :
    (xs : List Text) (y : Text) (ys : List Text)
    → begun (xs ++ (y ∷ ys)) ≡ newline ∷ join_parts (xs ++ (y ∷ ys))
unfolding begun join_parts
begun-append [] y ys = refl
begun-append (x ∷ xs) y ys = refl

pub join_parts-append :
    (xs : List Text) (y : Text) (ys : List Text)
    → join_parts (xs ++ (y ∷ ys)) ≡ ended xs ++ (y ++ begun ys)
unfolding join_parts ended
join_parts-append [] y ys = refl
join_parts-append (x ∷ xs) y ys =
    ap (λ t. x ++ t) (begun-append xs y ys ∙ ap (λ t. newline ∷ t) (join_parts-append xs y ys))
    ∙ sym (append_assoc x (newline ∷ ended xs) (y ++ begun ys))

ended-join_parts :
    (part : Text) (parts : List Text)
    → ended (part ∷ parts) ≡ join_parts (part ∷ parts) ++ (newline ∷ [])
unfolding ended join_parts begun
ended-join_parts part [] = simp append-nil
ended-join_parts part (next ∷ parts) =
    ap (λ t. part ++ (newline ∷ t)) (ended-join_parts next parts) ∙ simp append_assoc

pub ended-split_parts : (s : Text) → ended (split_parts s) ≡ s ++ (newline ∷ [])
ended-split_parts s =
    let (part, parts, e) = split_parts-cons s in
    ap ended e
    ∙ ended-join_parts part parts
    ∙ ap (λ t. t ++ (newline ∷ [])) (sym (ap join_parts e) ∙ join_parts-split_parts s)
