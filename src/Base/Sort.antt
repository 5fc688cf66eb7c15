-- ===== src/Base/Sort.antt =====
-- `sorted(xs, key=...)`: insertion sort by a Boolean order, which is stable.
use Prim.Native.Nat.{suc}
use mathlib.Core.Path.{◌≡◌, refl, ◌∙◌}
use mathlib.Core.Logic.{inl, inr}
use mathlib.Core.Bool.{Bool, true, false}
use mathlib.Core.List.{List, [], ◌∷◌, Perm}
use mathlib.Core.List.Perm
use native.Mathlib.Omega.{arith}
use psychicstd.Base.Tests.{if◌then◌else◌, Eq, contains, ltb, Bool-cases}
use psychicstd.Base.Lists.{length, All, count_if}
use psychicstd.Base.Sets.{NoDup}
use psychicstd.Base.Strings.{Text}

-- The order of texts: by code point, a prefix first.
unfoldable pub text_leb : Text → Text → Bool
text_leb [] t = true
text_leb (x ∷ s) [] = false
text_leb (x ∷ s) (y ∷ t) =
    let rest = text_leb s t in if ltb x y then true else if ltb y x then false else rest

module _ {ℓ} {A : Type ℓ} (leq : A → A → Bool) where
  abbrev place : A → List A → List A
  place a [] = a ∷ []
  place a (x ∷ xs) = if leq a x then a ∷ x ∷ xs else x ∷ place a xs

  abbrev pub sort : List A → List A
  sort [] = []
  sort (x ∷ xs) = place x (sort xs)

  abbrev pub IsSorted : List A → Type ℓ
  IsSorted [] = Unit
  IsSorted (x ∷ xs) = All (λ y. leq x y ≡ true) xs × IsSorted xs

  length-place : (a : A) (xs : List A) → length (place a xs) ≡ suc (length xs)
  length-place a [] = refl
  length-place a (x ∷ xs) = ground (arith, length-place a xs)

  pub length-sort : (xs : List A) → length (sort xs) ≡ length xs
  length-sort [] = refl
  length-sort (x ∷ xs) = omega (arith, length-place x (sort xs), length-sort xs)

  place-perm : (a : A) (xs : List A) → Perm (place a xs) (a ∷ xs)
  place-perm a [] = Perm.refl (a ∷ [])
  place-perm a (x ∷ xs) = elim (Bool-cases (leq a x)) [
    | inl h ↦ rw h (Perm.refl _)
    | inr h ↦ rw h (Perm.trans (Perm.cons x (place-perm a xs)) (Perm.swap a x xs))
  ]

  pub sort-perm : (xs : List A) → Perm (sort xs) xs
  sort-perm [] = Perm.refl []
  sort-perm (x ∷ xs) = Perm.trans (place-perm x (sort xs)) (Perm.cons x (sort-perm xs))

  count_if-place :
      (p : A → Bool) (a : A) (xs : List A) → count_if p (place a xs) ≡ count_if p (a ∷ xs)
  count_if-place p a [] = refl
  count_if-place p a (x ∷ xs) = ground (arith, count_if-place p a xs)

  pub count_if-sort : (p : A → Bool) (xs : List A) → count_if p (sort xs) ≡ count_if p xs
  count_if-sort p [] = refl
  count_if-sort p (x ∷ xs) = ground (arith, count_if-place p x (sort xs), count_if-sort p xs)

  All-of_place {κ} : (P : A → Type κ) (a : A) (xs : List A) → P a → All P xs → All P (place a xs)
  All-of_place P a [] h hs = (h, tt)
  All-of_place P a (x ∷ xs) h hs = elim (Bool-cases (leq a x)) [
    | inl e ↦ rw e (h, hs)
    | inr e ↦ rw e (hs.0, All-of_place P a xs h hs.1)
  ]

  pub All-sort {κ} : (P : A → Type κ) (xs : List A) → All P xs → All P (sort xs)
  All-sort P [] h = tt
  All-sort P (x ∷ xs) h = All-of_place P x (sort xs) h.0 (All-sort P xs h.1)

  -- The order laws that `sorted` relies on.
  pub record IsOrder : Type ℓ where
    pub total : (a b : A) → leq a b ≡ false → leq b a ≡ true
    pub trans : (a b c : A) → leq a b ≡ true → leq b c ≡ true → leq a c ≡ true

  module _ (o : IsOrder) where
    All-below :
        (a x : A) (xs : List A)
        → leq a x ≡ true
        → All (λ y. leq x y ≡ true) xs
        → All (λ y. leq a y ≡ true) xs
    All-below a x [] h hs = tt
    All-below a x (y ∷ ys) h hs = (o.trans a x y h hs.0, All-below a x ys h hs.1)

    All-place :
        (x a : A) (xs : List A)
        → leq x a ≡ true
        → All (λ y. leq x y ≡ true) xs
        → All (λ y. leq x y ≡ true) (place a xs)
    All-place x a [] h hs = (h, tt)
    All-place x a (y ∷ ys) h hs = ground (arith, All-place x a ys h hs.1)

    place-IsSorted : (a : A) (xs : List A) → IsSorted xs → IsSorted (place a xs)
    place-IsSorted a [] h = (tt, tt)
    place-IsSorted a (x ∷ xs) h =
        ground (arith, place-IsSorted a xs h.1, All-below a x xs, o.total a x, All-place x a xs)

    pub sort-IsSorted : (xs : List A) → IsSorted (sort xs)
    sort-IsSorted [] = tt
    sort-IsSorted (x ∷ xs) = place-IsSorted x (sort xs) (sort-IsSorted xs)

module _ {ℓ} {A : Type ℓ} ⦃e : Eq A⦄ (leq : A → A → Bool) where
  contains-place : (b a : A) (xs : List A) → contains (place leq a xs) b ≡ contains (a ∷ xs) b
  contains-place b a [] = refl
  contains-place b a (x ∷ xs) = ground (arith, contains-place b a xs)

  pub contains-sort : (b : A) (xs : List A) → contains (sort leq xs) b ≡ contains xs b
  contains-sort b [] = refl
  contains-sort b (x ∷ xs) = ground (arith, contains-place b x (sort leq xs), contains-sort b xs)

  place-NoDup : (a : A) (xs : List A) → contains xs a ≡ false → NoDup xs → NoDup (place leq a xs)
  place-NoDup a [] h d = (h, tt)
  place-NoDup a (x ∷ xs) h d = ground (arith, place-NoDup a xs, contains-place x a xs)

  pub sort-NoDup : (xs : List A) → NoDup xs → NoDup (sort leq xs)
  sort-NoDup [] d = tt
  sort-NoDup (x ∷ xs) d = place-NoDup x (sort leq xs) (contains-sort x xs ∙ d.0) (sort-NoDup xs d.1)

text_leb-total : (s t : Text) → text_leb s t ≡ false → text_leb t s ≡ true
unfolding text_leb
text_leb-total [] t h = cc
text_leb-total (x ∷ s) [] h = refl
text_leb-total (x ∷ s) (y ∷ t) h = ground (arith, text_leb-total s t)

text_leb_trans : (s t u : Text) → text_leb s t ≡ true → text_leb t u ≡ true → text_leb s u ≡ true
unfolding text_leb
text_leb_trans [] t u h k = refl
text_leb_trans (x ∷ s) [] u h k = cc
text_leb_trans (x ∷ s) (y ∷ t) [] h k = cc
text_leb_trans (x ∷ s) (y ∷ t) (z ∷ u) h k = ground (arith, text_leb_trans s t u)

pub text_order : IsOrder text_leb
text_order = record { total = text_leb-total; trans = text_leb_trans }

-- `sorted(texts)`
abbrev pub sort_texts : List Text → List Text
sort_texts = sort text_leb
