-- ===== src/Stats/Delta.antt =====
-- The comparison of two benchmark files: scripts/_benchmark_diff.py up to the rows that it shows.
use psychicstd.Base.{
  ℕ, Bool, true, not, ◌&&◌, Option, none, some, List, [], ◌∷◌, ◌++◌, Text, codes, Dict, keys,
  lookup, keep, sort, sort_texts, text_leb, intersection, starts_with, text_eq, if◌then◌else◌, ◌==◌,
}
use psychicstd.Stats.Floats.{Floats, Random, is_less, is_zero, abs, median}
use psychicstd.Stats.Bootstrap.{bootstrap_delta_ci}
use psychicstd.Stats.Speed.{green, red, yellow}

-- A field of an entry.
pub data Value (F : Type 0) : Type 0 where
  number : (x : F) → Value F
  whole : (n : ℕ) → Value F
  numbers : (xs : List F) → Value F
  words : (t : Text) → Value F
  null : Value F

abbrev pub Entry : Type 0 → Type 0
Entry F = Dict Text (Value F)

abbrev pub BenchCache : Type 0 → Type 0
BenchCache F = Dict Text (Entry F)

-- `bench_names`
unfoldable pub bench_names : {F : Type 0} → BenchCache F → List Text
unfolding starts_with
bench_names cache = keep (λ k. not (starts_with k (codes "__"))) (keys cache)

-- `cache.get(name, {}).get(key)`
unfoldable pub field : {F : Type 0} → BenchCache F → Text → Text → Option (Value F)
unfolding text_eq
field cache name key = elim (lookup name cache) [ none ↦ none | some entry ↦ lookup key entry ]

module _ (f : Floats) where
  -- The single point of an older result file.
  unfoldable pub single_sample : Option (Value f.F) → Option (List f.F)
  single_sample none = none
  single_sample (some (number x)) = some (x ∷ [])
  single_sample (some (whole n)) = some (f.of_ℕ n ∷ [])
  single_sample (some (numbers xs)) = none
  single_sample (some (words t)) = none
  single_sample (some null) = none

  -- `samples`
  unfoldable pub samples : BenchCache f.F → Text → Text → Option (List f.F)
  unfolding field single_sample
  samples cache name key =
      let single = single_sample (field cache name (key ++ codes "_ms")) in
      elim (field cache name (key ++ codes "_samples")) [
        | some (numbers (x ∷ xs)) ↦ some (x ∷ xs)
        | _ ↦ single
      ]

  -- `crosses_zero`
  unfoldable pub crosses_zero : Option (f.F × f.F) → Bool
  unfolding is_less
  crosses_zero none = true
  crosses_zero (some (lo, hi)) = is_less f lo (f.of_ℕ 0) && is_less f (f.of_ℕ 0) hi

  pub record DeltaRow : Type 0 where
    pub name : Text
    pub base : f.F
    pub head : f.F
    pub delta : f.F
    pub ci : Option (f.F × f.F)
    pub color : Text
    pub speedup : Option f.F

-- `b_s and h_s`, with their medians
unfoldable pub medians : (f : Floats) → Option (List f.F) → Option (List f.F) → Option (f.F × f.F)
unfolding median
medians f none h_s = none
medians f (some b_s) none = none
medians f (some b_s) (some h_s) = elim (median f b_s) [
  | none ↦ none
  | some b ↦ elim (median f h_s) [ none ↦ none | some h ↦ some (b, h) ]
]

-- `bootstrap_delta_ci(b_s, h_s)`
unfoldable pub delta_ci :
    (f : Floats) → Random → Option (List f.F) → Option (List f.F) → Option (f.F × f.F)
unfolding bootstrap_delta_ci
delta_ci f r none h_s = none
delta_ci f r (some b_s) none = none
delta_ci f r (some b_s) (some h_s) = bootstrap_delta_ci f r b_s h_s

module _ (f : Floats) where
  unfoldable pub percent_change : f.F → f.F → f.F
  percent_change b h = f.mul (f.div (f.sub h b) b) (f.of_ℕ 100)

  -- `statistics.median(h_sys_s) / h if h_sys_s and h else None`
  unfoldable pub speedup_over : Option (List f.F) → f.F → Option f.F
  unfolding median is_zero
  speedup_over none h = none
  speedup_over (some h_sys_s) h = elim (median f h_sys_s) [
    | none ↦ none
    | some m ↦ if is_zero f h then none else some (f.div m h)
  ]

  -- `real`, at the thresholds
  unfoldable pub is_real : f.F → f.F → Option (f.F × f.F) → f.F → f.F → f.F → Bool
  unfolding crosses_zero abs
  is_real thr min_abs ci delta b h =
      not (crosses_zero f ci) && (f.leb thr (abs f delta) && f.leb min_abs (abs f (f.sub h b)))

  -- `color`
  unfoldable pub delta_color : Bool → f.F → Text
  unfolding is_less
  delta_color real delta =
      if real then (if is_less f (f.of_ℕ 0) delta then red else green) else yellow

  pub record Thresholds : Type 0 where
    pub threshold : f.F
    pub min_abs_ms : f.F

module _ (f : Floats) (r : Random) (base head : BenchCache f.F) where
  -- The row of a benchmark, if the loop gives it one.
  unfoldable pub delta_row : Thresholds f → Text → Option (DeltaRow f)
  unfolding samples medians delta_ci is_zero percent_change is_real delta_color speedup_over
  delta_row t name =
      let b_s = samples f base name (codes "psychicstd") in
      let h_s = samples f head name (codes "psychicstd") in
      elim (medians f b_s h_s) [
        | none ↦ none
        | some (b, h) ↦
            let delta = percent_change f b h in
            let ci = delta_ci f r b_s h_s in
            let real = is_real f t.threshold t.min_abs_ms ci delta b h in
            if is_zero f b
            then none
            else some (record {
              name = name;
              base = b;
              head = h;
              delta = delta;
              ci = ci;
              color = delta_color f real delta;
              speedup = speedup_over f (samples f head name (codes "system")) h;
            })
      ]

  unfoldable pub delta_rows : Thresholds f → List Text → List (DeltaRow f)
  unfolding delta_row
  delta_rows t [] = []
  delta_rows t (name ∷ names) =
      let rest = delta_rows t names in
      elim (delta_row t name) [ none ↦ rest | some row ↦ row ∷ rest ]

  -- `common`
  unfoldable pub common_names : List Text
  unfolding bench_names text_leb text_eq
  common_names = sort_texts (intersection (bench_names base) (bench_names head))

  -- `sys_drift`
  unfoldable pub drifts : List Text → List f.F
  unfolding samples medians is_zero abs
  drifts [] = []
  drifts (name ∷ names) =
      let rest = drifts names in
      elim (medians f (samples f base name (codes "system"))
        (samples f head name (codes "system"))) [
          | none ↦ rest
          | some (b, h) ↦
              if is_zero f b then rest else f.mul (f.div (abs f (f.sub h b)) b) (f.of_ℕ 100) ∷ rest
        ]

  -- `noise`
  unfoldable pub noise : f.F
  unfolding drifts common_names median
  noise = elim (median f (drifts common_names)) [ none ↦ f.of_ℕ 0 | some m ↦ m ]

  unfoldable pub rows : Thresholds f → List (DeltaRow f)
  unfolding delta_rows common_names
  rows t = delta_rows t common_names

module _ (f : Floats) where
  unfoldable pub slower : List (DeltaRow f) → List (DeltaRow f)
  unfolding text_eq
  slower all = sort (λ a b. f.leb b.delta a.delta) (keep (λ row. row.color == red) all)

  unfoldable pub faster : List (DeltaRow f) → List (DeltaRow f)
  unfolding text_eq
  faster all = sort (λ a b. f.leb a.delta b.delta) (keep (λ row. row.color == green) all)

  unfoldable pub noisy : List (DeltaRow f) → List (DeltaRow f)
  unfolding text_eq text_leb
  noisy all = sort (λ a b. text_leb a.name b.name) (keep (λ row. row.color == yellow) all)
