-- ===== src/Stats/Floats.antt =====
-- Floating-point numbers and a random generator as parameters, and Python's `statistics.median`.
use psychicstd.Base.{
  ℕ, zero, suc, ◌-◌, ◌/◌, ◌%◌, ◌<◌, Bool, false, not, Option, none, some, List, [], ◌∷◌, Text,
  length, sort, IsOrder, if◌then◌else◌, ◌==◌, nat_eq,
}

-- Finite floating-point numbers: their order, their arithmetic, and the formats `.nf`, `+.nf` and
-- `g`. What is asked is that the order is total and transitive.
pub record Floats : Type 1 where
  pub F : Type 0
  pub leb : F → F → Bool
  pub of_ℕ : ℕ → F
  pub add : F → F → F
  pub sub : F → F → F
  pub mul : F → F → F
  pub div : F → F → F
  pub fixed : ℕ → F → Text
  pub signed : ℕ → F → Text
  pub general : F → Text
  pub order : IsOrder leb

-- `random.Random(seed)`: `below n` gives an index below `n` and the state behind it.
pub record Random : Type 1 where
  pub State : Type 0
  pub seeded : State
  pub below : ℕ → State → ℕ × State
  pub below-lt : (n : ℕ) (s : State) → (below (suc n) s).0 < suc n

-- `xs[n]`
abbrev pub item {ℓ} : {A : Type ℓ} → ℕ → List A → Option A
item n [] = none
item zero (x ∷ xs) = some x
item (suc n) (x ∷ xs) = item n xs

module _ (f : Floats) where
  -- `x < y`
  unfoldable pub is_less : f.F → f.F → Bool
  is_less x y = not (f.leb y x)

  -- `not x`
  unfoldable pub is_zero : f.F → Bool
  is_zero x = if f.leb x (f.of_ℕ 0) then f.leb (f.of_ℕ 0) x else false

  unfoldable pub abs : f.F → f.F
  unfolding is_less
  abs x = if is_less x (f.of_ℕ 0) then f.sub (f.of_ℕ 0) x else x

  -- `statistics.median`, which fails on no numbers
  unfoldable pub median : List f.F → Option f.F
  unfolding nat_eq
  median xs =
      let sorted = sort f.leb xs in
      let n = length xs in
      if n % 2 == 1 then item (n / 2) sorted else elim (item ((n / 2) - 1) sorted) [
        | none ↦ none
        | some below ↦ elim (item (n / 2) sorted) [
          | none ↦ none
          | some above ↦ some (f.div (f.add below above) (f.of_ℕ 2))
        ]
      ]
