-- ===== src/Stats/Significance.antt =====
-- When a change is coloured, and that a file has none against itself.
use mathlib.Core.Path.{subst}
use psychicstd.Base.{
  ℕ, ◌+◌, ◌*◌, ◌≤◌, ◌≡◌, refl, sym, ap, ◌∙◌, Bool, true, false, Option, none, some, inl, inr, ◌⊎◌,
  List, [], ◌∷◌, Text, codes, All, count_if, length, text_eq, ℕ_discrete, nat_eq, arith, ◌==◌,
}
use psychicstd.Stats.Floats.{Floats, Random, is_less, is_zero, abs, median}
use psychicstd.Stats.Bootstrap.{figures, rounds, bootstrap_delta_ci, delta_of}
use psychicstd.Stats.Intervals.{IsInterval, lies_in, bootstrap-IsInterval}
use psychicstd.Stats.Speed.{yellow}
use psychicstd.Stats.Delta.{
  BenchCache, DeltaRow, Thresholds, samples, medians, delta_ci, percent_change, is_real,
  crosses_zero, delta_color, delta_row, rows, common_names,
}
use psychicstd.Stats.Partition.{IsRowOf, delta_row-IsRowOf, delta_rows-All}

count_if_mono :
    {A : Type 0} (p q : A → Bool) (xs : List A)
    → ((x : A) → p x ≡ true → q x ≡ true)
    → count_if p xs ≤ count_if q xs
count_if_mono p q [] h = omega arith
count_if_mono p q (x ∷ xs) h = ground (arith, h x, count_if_mono p q xs h)

-- Almost all of the figures pass the test: at least 0.95 n - 0.9 of n.
abbrev pub NearlyAll : {A : Type 0} → (A → Bool) → List A → Type 0
NearlyAll p xs = 19 * length xs ≤ 20 * count_if p xs + 18

-- The interval lies on one side of zero, which it may end in, and so do almost all of the figures,
-- where zero counts to either side.
abbrev pub OneSided : (f : Floats) → List f.F → Option (f.F × f.F) → Type 0
OneSided f found ci =
    let zero' = f.of_ℕ 0 in
    (lo : f.F) × (hi : f.F) × (ci ≡ some (lo, hi))
    × (((f.leb zero' lo ≡ true) × NearlyAll (f.leb zero') found)
        ⊎ ((f.leb hi zero' ≡ true) × NearlyAll (λ x. f.leb x zero') found))

module _ (f : Floats) where
  -- An interval without zero strictly inside has nearly all figures on one side of it.
  interval-OneSided :
      (found : List f.F) (ci : Option (f.F × f.F)) (lo hi : f.F)
      → ci ≡ some (lo, hi)
      → IsInterval f found lo hi
      → crosses_zero f (some (lo, hi)) ≡ false
      → OneSided f found ci
  unfolding crosses_zero is_less
  interval-OneSided found ci lo hi given good h =
      (lo, hi, given, go (f.leb (f.of_ℕ 0) lo) refl (f.leb hi (f.of_ℕ 0)) refl)
    where
      go :
          (above : Bool)
          → f.leb (f.of_ℕ 0) lo ≡ above
          → (below : Bool) → f.leb hi (f.of_ℕ 0) ≡ below
          → ((f.leb (f.of_ℕ 0) lo ≡ true) × NearlyAll (f.leb (f.of_ℕ 0)) found)
            ⊎ ((f.leb hi (f.of_ℕ 0) ≡ true) × NearlyAll (λ x. f.leb x (f.of_ℕ 0)) found)
      go true e below k = inl (
        e,
        omega (
          arith,
          good.covers,
          count_if_mono (lies_in f lo hi) (f.leb (f.of_ℕ 0)) found
              (λ x inside. f.order.trans (f.of_ℕ 0) lo x e (ground (arith, inside))),
        ),
      )
      go false e true k = inr (
        k,
        omega (
          arith,
          good.covers,
          count_if_mono (lies_in f lo hi) (λ x. f.leb x (f.of_ℕ 0)) found
              (λ x inside. f.order.trans x hi (f.of_ℕ 0) (ground (arith, inside)) k),
        ),
      )
      go false e false k = ground (arith, h, e, k)

module _ (f : Floats) (r : Random) where
  bootstrap_delta_ci-OneSided :
      (b_s h_s : List f.F)
      → crosses_zero f (bootstrap_delta_ci f r b_s h_s) ≡ false
      → OneSided f
          (figures f r (delta_of f) rounds b_s h_s r.seeded)
          (bootstrap_delta_ci f r b_s h_s)
  unfolding bootstrap_delta_ci crosses_zero
  bootstrap_delta_ci-OneSided b_s h_s h = elim (bootstrap-IsInterval f r (delta_of f) b_s h_s) [
    | inl missing ↦ absurd (ground (arith, h, missing.0))
    | inr (lo, hi, given, many_base, many_head, some_figures, good) ↦
        interval-OneSided f _ _ lo hi given good (sym (ap (crosses_zero f) given) ∙ h)
  ]

-- A benchmark is coloured only where its change clears both thresholds and its interval does not
-- have zero strictly inside: the interval, which may end in zero, and of the n bootstrapped changes
-- at least 0.95 n - 0.9 are on one side of zero, where zero counts to either side.
pub delta_row-significant :
    (f : Floats) (r : Random) (base head : BenchCache f.F) (t : Thresholds f) (name : Text)
    (row : DeltaRow f) (b_s h_s : List f.F)
    → samples f base name (codes "psychicstd") ≡ some b_s
    → samples f head name (codes "psychicstd") ≡ some h_s
    → delta_row f r base head t name ≡ some row
    → (row.color == yellow) ≡ false
    → (f.leb t.threshold (abs f row.delta) ≡ true)
      × (f.leb t.min_abs_ms (abs f (f.sub row.head row.base)) ≡ true)
      × OneSided f (figures f r (delta_of f) rounds b_s h_s r.seeded) row.ci
unfolding delta_color is_real delta_ci text_eq ℕ_discrete
delta_row-significant f r base head t name row b_s h_s from_base from_head made shown =
    let is_row = delta_row-IsRowOf f r base head t name row made in
    let ci : row.ci ≡ bootstrap_delta_ci f r b_s h_s =
      is_row.bounded
      ∙ ap (λ o. delta_ci f r o (samples f head name (codes "psychicstd"))) from_base
      ∙ ap (delta_ci f r (some b_s)) from_head in
    go (is_real f t.threshold t.min_abs_ms row.ci row.delta row.base row.head) refl is_row.colored
      ci
  where
    go :
        (real : Bool)
        → is_real f t.threshold t.min_abs_ms row.ci row.delta row.base row.head ≡ real
        → row.color
          ≡ delta_color f
              (is_real f t.threshold t.min_abs_ms row.ci row.delta row.base row.head)
              row.delta
        → row.ci ≡ bootstrap_delta_ci f r b_s h_s
        → (f.leb t.threshold (abs f row.delta) ≡ true)
          × (f.leb t.min_abs_ms (abs f (f.sub row.head row.base)) ≡ true)
          × OneSided f (figures f r (delta_of f) rounds b_s h_s r.seeded) row.ci
    go false e colored ci =
        let noisy : row.color ≡ yellow = colored ∙ ap (λ real. delta_color f real row.delta) e in
        absurd (ground (arith, shown, ap (λ c. c == yellow) noisy))
    go true e colored ci =
        let off_zero : crosses_zero f row.ci ≡ false = ground (arith, e) in
        (
          ground (arith, e),
          ground (arith, e),
          subst (OneSided f (figures f r (delta_of f) rounds b_s h_s r.seeded)) (sym ci)
              (bootstrap_delta_ci-OneSided f r b_s h_s (sym (ap (crosses_zero f) ci) ∙ off_zero)),
        )

medians_self :
    (f : Floats) (o : Option (List f.F)) (b h : f.F) → medians f o o ≡ some (b, h) → b ≡ h
unfolding medians
medians_self f none b h e = ground (arith, e)
medians_self f (some xs) b h e = go (median f xs) refl
  where
    go : (o : Option f.F) → median f xs ≡ o → b ≡ h
    go none same = ground (arith, e, same)
    go (some x) same = ground (arith, e, same)

abs_zero : (f : Floats) → abs f (f.of_ℕ 0) ≡ f.of_ℕ 0
unfolding abs is_less
abs_zero f = ground (arith, f.order.total (f.of_ℕ 0) (f.of_ℕ 0))

-- A file compared with itself has no coloured row, if the threshold is above zero: a number less
-- itself is zero, and so are a share and a multiple of zero.
pub rows_self :
    (f : Floats) (r : Random) (cache : BenchCache f.F) (t : Thresholds f)
    → ((x : f.F) → f.sub x x ≡ f.of_ℕ 0)
    → ((x : f.F) → is_zero f x ≡ false → f.div (f.of_ℕ 0) x ≡ f.of_ℕ 0)
    → ((n : ℕ) → f.mul (f.of_ℕ 0) (f.of_ℕ n) ≡ f.of_ℕ 0)
    → f.leb t.threshold (f.of_ℕ 0) ≡ false
    → All (λ row. row.color ≡ yellow) (rows f r cache cache t)
unfolding rows percent_change is_real delta_color
rows_self f r cache t sub_self zero_div zero_mul positive =
    delta_rows-All f r cache cache t (λ row. row.color ≡ yellow)
      (λ name row e. yellow_row name row (delta_row-IsRowOf f r cache cache t name row e))
      (common_names f r cache cache)
  where
    yellow_row :
        (name : Text) (row : DeltaRow f) → IsRowOf f r cache cache t name row → row.color ≡ yellow
    yellow_row name row is_row =
        let same =
          medians_self f (samples f cache name (codes "psychicstd")) row.base row.head
            is_row.measured in
        let no_change : f.sub row.head row.base ≡ f.of_ℕ 0 =
          ap (λ x. f.sub x row.base) (sym same) ∙ sub_self row.base in
        let delta : row.delta ≡ f.of_ℕ 0 =
          is_row.changed
          ∙ ap (λ x. f.mul (f.div x row.base) (f.of_ℕ 100)) no_change
          ∙ ap (λ x. f.mul x (f.of_ℕ 100)) (zero_div row.base is_row.nonzero)
          ∙ zero_mul 100 in
        let below : f.leb t.threshold (abs f row.delta) ≡ false =
          ap (λ x. f.leb t.threshold (abs f x)) delta
          ∙ ap (f.leb t.threshold) (abs_zero f)
          ∙ positive in
        ground (arith, is_row.colored, below)
