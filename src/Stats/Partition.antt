-- ===== src/Stats/Partition.antt =====
-- What the rows of the comparison say.
use mathlib.Core.Path.{subst}
use psychicstd.Base.{
  ◌+◌, ◌≡◌, refl, sym, ap, Bool, true, false, Option, none, some, inl, inr, ◌⊎◌, List, [], ◌∷◌,
  Text, codes, All, count_if, count_if-sort, keep, text_leb, text_eq, ℕ_discrete, nat_eq, arith,
  if◌then◌else◌, ◌==◌,
}
use psychicstd.Stats.Floats.{Floats, Random, is_less, is_zero}
use psychicstd.Stats.Speed.{green, red, yellow}
use psychicstd.Stats.Delta.{
  BenchCache, DeltaRow, Thresholds, samples, medians, delta_ci, percent_change, is_real,
  delta_color, speedup_over, delta_row, delta_rows, common_names, rows, slower, faster, noisy,
}

abbrev HasColor : Text → Type 0
HasColor c = (c ≡ red) ⊎ ((c ≡ green) ⊎ (c ≡ yellow))

delta_color-HasColor :
    (f : Floats) (real : Bool) (delta : f.F) → HasColor (delta_color f real delta)
unfolding delta_color
delta_color-HasColor f false delta = inr (inr refl)
delta_color-HasColor f true delta = go (is_less f (f.of_ℕ 0) delta)
  where
    go : (b : Bool) → HasColor (if b then red else green)
    go true = inl refl
    go false = inr (inl refl)

module _ (f : Floats) (p : DeltaRow f → Bool) where
  count_if-colors :
      (all : List (DeltaRow f))
      → All (λ row. HasColor row.color) all
      → count_if p all
        ≡ count_if p (keep (λ row. row.color == red) all)
          + (count_if p (keep (λ row. row.color == green) all)
              + count_if p (keep (λ row. row.color == yellow) all))
  unfolding text_eq ℕ_discrete
  count_if-colors [] h = refl
  count_if-colors (row ∷ all) h = go h.0 (count_if-colors all h.1)
    where
      go :
          HasColor row.color
          → count_if p all
            ≡ count_if p (keep (λ row. row.color == red) all)
              + (count_if p (keep (λ row. row.color == green) all)
                  + count_if p (keep (λ row. row.color == yellow) all))
          → count_if p (row ∷ all)
            ≡ count_if p (keep (λ row. row.color == red) (row ∷ all))
              + (count_if p (keep (λ row. row.color == green) (row ∷ all))
                  + count_if p (keep (λ row. row.color == yellow) (row ∷ all)))
      go (inl e) ih =
          let is_red : (row.color == red) ≡ true = ap (λ c. c == red) e in
          let not_green : (row.color == green) ≡ false = ap (λ c. c == green) e in
          let not_yellow : (row.color == yellow) ≡ false = ap (λ c. c == yellow) e in
          ground (arith, is_red, not_green, not_yellow, ih)
      go (inr (inl e)) ih =
          let not_red : (row.color == red) ≡ false = ap (λ c. c == red) e in
          let is_green : (row.color == green) ≡ true = ap (λ c. c == green) e in
          let not_yellow : (row.color == yellow) ≡ false = ap (λ c. c == yellow) e in
          ground (arith, not_red, is_green, not_yellow, ih)
      go (inr (inr e)) ih =
          let not_red : (row.color == red) ≡ false = ap (λ c. c == red) e in
          let not_green : (row.color == green) ≡ false = ap (λ c. c == green) e in
          let is_yellow : (row.color == yellow) ≡ true = ap (λ c. c == yellow) e in
          ground (arith, not_red, not_green, is_yellow, ih)

module _ (f : Floats) (r : Random) (base head : BenchCache f.F) (t : Thresholds f) where
  -- The fields of a row, from the samples of its benchmark.
  pub record IsRowOf (name : Text) (row : DeltaRow f) : Type 0 where
    pub named : row.name ≡ name
    pub measured :
        medians f
          (samples f base name (codes "psychicstd"))
          (samples f head name (codes "psychicstd"))
        ≡ some (row.base, row.head)
    pub nonzero : is_zero f row.base ≡ false
    pub changed : row.delta ≡ percent_change f row.base row.head
    pub bounded :
        row.ci
        ≡ delta_ci f r
            (samples f base name (codes "psychicstd"))
            (samples f head name (codes "psychicstd"))
    pub colored :
        row.color
        ≡ delta_color f
            (is_real f t.threshold t.min_abs_ms row.ci row.delta row.base row.head)
            row.delta

  pub delta_row-IsRowOf :
      (name : Text) (row : DeltaRow f)
      → delta_row f r base head t name ≡ some row
      → IsRowOf name row
  unfolding delta_row
  delta_row-IsRowOf name row e = go (medians f b_s h_s) refl e
    where
      b_s : Option (List f.F)
      b_s = samples f base name (codes "psychicstd")

      h_s : Option (List f.F)
      h_s = samples f head name (codes "psychicstd")

      made : f.F → f.F → DeltaRow f
      made b h =
          let delta = percent_change f b h in
          let ci = delta_ci f r b_s h_s in
          record {
            name = name;
            base = b;
            head = h;
            delta = delta;
            ci = ci;
            color = delta_color f (is_real f t.threshold t.min_abs_ms ci delta b h) delta;
            speedup = speedup_over f (samples f head name (codes "system")) h;
          }

      go :
          (o : Option (f.F × f.F))
          → medians f b_s h_s ≡ o
          → (let shown : Option (DeltaRow f) = elim o [
            | none ↦ none
            | some (b, h) ↦ if is_zero f b then none else some (made b h)
          ] in
              shown ≡ some row)
          → IsRowOf name row
      go none same shown = ground (arith, shown)
      go (some (b, h)) same shown =
          let same_row : made b h ≡ row = ground (arith, shown) in
          let nonzero : is_zero f b ≡ false = ground (arith, shown) in
          subst (IsRowOf name) same_row (record {
            named = refl;
            measured = same;
            nonzero = nonzero;
            changed = refl;
            bounded = refl;
            colored = refl;
          })

  pub delta_rows-All :
      (P : DeltaRow f → Type 0)
      → ((name : Text) (row : DeltaRow f) → delta_row f r base head t name ≡ some row → P row)
      → (names : List Text) → All P (delta_rows f r base head t names)
  unfolding delta_rows
  delta_rows-All P each [] = tt
  delta_rows-All P each (name ∷ names) =
      go (delta_row f r base head t name) refl (delta_rows-All P each names)
    where
      go :
          (o : Option (DeltaRow f))
          → delta_row f r base head t name ≡ o
          → All P (delta_rows f r base head t names)
          → let shown : List (DeltaRow f) = elim o [
            | none ↦ delta_rows f r base head t names
            | some row ↦ row ∷ delta_rows f r base head t names
          ] in
            All P shown
      go none e ih = ih
      go (some row) e ih = (each name row e, ih)

  -- Each row stands once in one of the three tables: what holds of some of the rows holds of as
  -- many in the slower, the faster and the noisy ones together.
  pub rows-partition :
      (p : DeltaRow f → Bool)
      → let all = rows f r base head t in
        count_if p all
        ≡ count_if p (slower f all) + (count_if p (faster f all) + count_if p (noisy f all))
  unfolding rows slower faster noisy
  rows-partition p =
      let all = rows f r base head t in
      let colors =
        delta_rows-All (λ row. HasColor row.color)
          (λ name row e.
            subst HasColor (sym (delta_row-IsRowOf name row e).colored)
              (delta_color-HasColor f _ row.delta))
          (common_names f r base head) in
      omega (
        arith,
        count_if-colors f p all colors,
        count_if-sort (λ a b. f.leb b.delta a.delta) p (keep (λ row. row.color == red) all),
        count_if-sort (λ a b. f.leb a.delta b.delta) p (keep (λ row. row.color == green) all),
        count_if-sort (λ a b. text_leb a.name b.name) p (keep (λ row. row.color == yellow) all),
      )
