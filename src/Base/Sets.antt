-- ===== src/Base/Sets.antt =====
-- Python's `set`: a list without duplicates. Its order is never observed: the code sorts a set
-- before it walks it.
use Prim.Native.Nat.{suc, ◌+◌, ◌≤◌}
use mathlib.Core.Path.{◌≡◌, refl, ap, sym, subst}
use mathlib.Core.Logic.{◌↔◌}
use mathlib.Core.Bool.{Bool, true, false, not, ◌&&◌, ◌||◌}
use mathlib.Core.List.{List, [], ◌∷◌, ◌++◌}
use native.Mathlib.Omega.{arith}
use psychicstd.Base.Tests.{if◌then◌else◌, Eq, ◌==◌, contains}
use psychicstd.Base.Lists.{length, keep, count_if, All, length-keep}

module _ {ℓ} {A : Type ℓ} ⦃e : Eq A⦄ where
  -- `{*xs}`
  abbrev pub to_set : List A → List A
  to_set [] = []
  to_set (x ∷ xs) = let rest = to_set xs in if contains rest x then rest else x ∷ rest

  -- `s & t`, `s - t`
  abbrev pub intersection : List A → List A → List A
  intersection s t = keep (contains t) s

  abbrev pub difference : List A → List A → List A
  difference s t = keep (λ x. not (contains t x)) s

  -- `s | t`
  abbrev pub union : List A → List A → List A
  union [] t = t
  union (x ∷ s) t = let rest = union s t in if contains rest x then rest else x ∷ rest

  abbrev pub NoDup : List A → Type 0
  NoDup [] = Unit
  NoDup (x ∷ xs) = (contains xs x ≡ false) × NoDup xs

  -- Every member of the first is one of the second.
  abbrev pub Within : List A → List A → Type ℓ
  Within s t = (a : A) → contains s a ≡ true → contains t a ≡ true

  pub contains-to_set : (a : A) (xs : List A) → contains (to_set xs) a ≡ contains xs a
  contains-to_set a [] = refl
  contains-to_set a (x ∷ xs) = ground (arith, contains-to_set a xs, contains-to_set x xs)

  pub contains-append :
      (a : A) (xs ys : List A) → contains (xs ++ ys) a ≡ (contains xs a || contains ys a)
  contains-append a [] ys = refl
  contains-append a (x ∷ xs) ys = ground (arith, contains-append a xs ys)

  pub keep-eq-nil :
      (p : A → Bool) (xs : List A)
      → (keep p xs ≡ []) ↔ ((a : A) → contains xs a ≡ true → p a ≡ false)
  keep-eq-nil p [] = (λ h a m. cc, λ h. refl)
  keep-eq-nil p (x ∷ xs) = (
    λ h a m. ground (arith, (keep-eq-nil p xs).0, (keep-eq-nil p xs).0 (ground arith) a),
    λ h. ground (arith, h x, (keep-eq-nil p xs).1 (λ a m. h a (ground arith))),
  )

  pub All-contains {κ} :
      (P : A → Type κ) (xs : List A) (a : A) → All P xs → contains xs a ≡ true → P a
  All-contains P (x ∷ xs) a h m = elim (e.dec a x) [
    | yes p ↦ subst P (sym p) h.0
    | no n ↦ All-contains P xs a h.1 (ground arith)
  ]
  All-contains P [] a h m = absurd (ground arith)

  pub All-of_contains {κ} :
      (P : A → Type κ) (xs : List A) → ((a : A) → contains xs a ≡ true → P a) → All P xs
  All-of_contains P [] h = tt
  All-of_contains P (x ∷ xs) h =
      (h x (ground arith), All-of_contains P xs (λ a m. h a (ground arith)))

  pub to_set-NoDup : (xs : List A) → NoDup (to_set xs)
  to_set-NoDup [] = tt
  to_set-NoDup (x ∷ xs) = ground (arith, to_set-NoDup xs)

  pub contains-keep :
      (p : A → Bool) (a : A) (xs : List A) → contains (keep p xs) a ≡ (p a && contains xs a)
  contains-keep p a [] = ground arith
  contains-keep p a (x ∷ xs) = ground (arith, contains-keep p a xs)

  pub contains-union :
      (a : A) (s t : List A) → contains (union s t) a ≡ (contains s a || contains t a)
  contains-union a [] t = refl
  contains-union a (x ∷ s) t = ground (arith, contains-union a s t, contains-union x s t)

  pub union-NoDup : (s t : List A) → NoDup t → NoDup (union s t)
  union-NoDup [] t h = h
  union-NoDup (x ∷ s) t h = ground (arith, union-NoDup s t h)

  pub keep-NoDup : (p : A → Bool) (xs : List A) → NoDup xs → NoDup (keep p xs)
  keep-NoDup p [] h = tt
  keep-NoDup p (x ∷ xs) h = ground (arith, keep-NoDup p xs h.1, contains-keep p x xs)

  -- Removal of one member, for counting.
  abbrev without : A → List A → List A
  without a xs = keep (λ x. not (x == a)) xs

  without_absent : (a : A) (xs : List A) → contains xs a ≡ false → without a xs ≡ xs
  without_absent a [] h = refl
  without_absent a (x ∷ xs) h = ground (arith, without_absent a xs)

  length-without :
      (a : A) (xs : List A)
      → NoDup xs
      → contains xs a ≡ true
      → suc (length (without a xs)) ≡ length xs
  length-without a [] d h = cc
  length-without a (x ∷ xs) d h = ground (arith, length-without a xs d.1, without_absent a xs)

  -- A set within another is no larger.
  pub length-le_of_Within : (s t : List A) → NoDup s → NoDup t → Within s t → length s ≤ length t
  length-le_of_Within [] t d u h = omega arith
  length-le_of_Within (x ∷ s) t d u h =
      let m : contains t x ≡ true = h x (ground arith) in
      let ih : length s ≤ length (without x t) =
        length-le_of_Within s (without x t) d.1 (keep-NoDup (λ y. not (y == x)) t u)
          (λ a k. ground (arith, contains-keep (λ y. not (y == x)) a t, h a)) in
      omega (arith, length-without x t u m)

  difference-nil : (s : List A) → difference s [] ≡ s
  difference-nil [] = refl
  difference-nil (x ∷ s) = ap (◌∷◌ x) (difference-nil s)

  difference-cons : (x : A) (s t : List A) → difference s (x ∷ t) ≡ without x (difference s t)
  difference-cons x [] t = refl
  difference-cons x (y ∷ s) t = ground (arith, difference-cons x s t)

  -- What is taken away and what is left make up the whole.
  pub length-difference :
      (s t : List A)
      → NoDup s
      → NoDup t
      → Within t s
      → length (difference s t) + length t ≡ length s
  length-difference s [] d u h = rw difference-nil (omega arith)
  length-difference s (x ∷ t) d u h =
      let ih = length-difference s t d u.1 (λ a m. h a (ground arith)) in
      let rest = difference s t in
      let kept : contains rest x ≡ true =
        ground (arith, contains-keep (λ y. not (contains t y)) x s, h x, u.0) in
      omega (
        arith,
        ap length (difference-cons x s t),
        length-without x rest (keep-NoDup (λ y. not (contains t y)) s d) kept,
        ih,
      )

  pub keep-congr :
      (p q : A → Bool) (xs : List A)
      → ((a : A) → contains xs a ≡ true → p a ≡ q a)
      → keep p xs ≡ keep q xs
  keep-congr p q [] h = refl
  keep-congr p q (x ∷ xs) h = ground (arith, h x, keep-congr p q xs (λ a m. h a (ground arith)))

  pub count_if-congr :
      (p q : A → Bool) (xs : List A)
      → ((a : A) → contains xs a ≡ true → p a ≡ q a)
      → count_if p xs ≡ count_if q xs
  count_if-congr p q [] h = refl
  count_if-congr p q (x ∷ xs) h =
      ground (arith, h x, count_if-congr p q xs (λ a m. h a (ground arith)))

  -- Two sets with the same members have as many that pass a test.
  pub count_if-same :
      (p : A → Bool) (s t : List A)
      → NoDup s
      → NoDup t
      → ((a : A) → contains s a ≡ contains t a)
      → count_if p s ≡ count_if p t
  count_if-same p s t d u h = omega (
    arith,
    length-keep p s,
    length-keep p t,
    length-le_of_Within (keep p s) (keep p t) (keep-NoDup p s d) (keep-NoDup p t u)
        (λ a m. ground (arith, contains-keep p a s, contains-keep p a t, h a)),
    length-le_of_Within (keep p t) (keep p s) (keep-NoDup p t u) (keep-NoDup p s d)
        (λ a m. ground (arith, contains-keep p a s, contains-keep p a t, h a)),
  )

pub keep-keep {ℓ} :
    {A : Type ℓ} (p q : A → Bool) (xs : List A) → keep q (keep p xs) ≡ keep (λ a. p a && q a) xs
keep-keep p q [] = refl
keep-keep p q (x ∷ xs) = ground (arith, keep-keep p q xs)
