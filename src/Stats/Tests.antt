-- ===== src/Stats/Tests.antt =====
-- Instances of the theorems on statistics, with whole numbers and a generator that counts.
use psychicstd.Base.{
  ℕ, suc, ◌+◌, ◌-◌, ◌*◌, ◌/◌, ◌≤◌, ◌<◌, ◌≡◌, refl, true, none, some, ◌⊎◌, List, [], ◌∷◌, codes, All,
  length, count_if, decimal, leb, arith, IsOrder, text_eq, nat_eq, ℕ_discrete,
}
use psychicstd.Stats.Floats.{Floats, Random, is_less, is_zero, abs, median}
use psychicstd.Stats.Bootstrap.{
  figures, rounds, bootstrap, bootstrap_delta_ci, delta_of, resampled, choices, interval,
}
use psychicstd.Stats.Intervals.{IsInterval, bootstrap-IsInterval}
use psychicstd.Stats.Speed.{red, yellow}
use psychicstd.Stats.Delta.{
  BenchCache, numbers, DeltaRow, Thresholds, samples, medians, delta_ci, percent_change, is_real,
  crosses_zero, delta_color, delta_row, rows, slower, faster, noisy, field, single_sample,
  speedup_over,
}
use psychicstd.Base.{Dict, Text, false}
use psychicstd.Stats.Delta.{null, whole}
use psychicstd.Comparison.Refs.{side, side_entries, side_meta}
use psychicstd.Comparison.Sides.{samples-side}
use psychicstd.Stats.Partition.{rows-partition}
use psychicstd.Stats.Significance.{OneSided, delta_row-significant, rows_self}

leb_order : IsOrder leb
leb_order = record { total = λ a b h. ground (arith, h); trans = λ a b c h k. ground (arith, h, k) }

abbrev whole_numbers : Floats
whole_numbers = record {
  F = ℕ;
  leb = leb;
  of_ℕ = λ n. n;
  add = λ x y. x + y;
  sub = λ x y. x - y;
  mul = λ x y. x * y;
  div = λ x y. x / y;
  fixed = λ places x. decimal x;
  signed = λ places x. decimal x;
  general = decimal;
  order = leb_order;
}

-- The first index, always.
abbrev steady : Random
steady = record { State = ℕ; seeded = 0; below = λ n s. (0, suc s); below-lt = λ n s. omega arith }

abbrev pairs : List ℕ
pairs = 10 ∷ 10 ∷ []

abbrev slow_pairs : List ℕ
slow_pairs = 20 ∷ 20 ∷ []

bootstrap-IsInterval_example :
    let found = figures whole_numbers steady (delta_of whole_numbers) rounds pairs slow_pairs 0 in
    ((bootstrap whole_numbers steady (delta_of whole_numbers) pairs slow_pairs ≡ none)
      × ((length pairs ≤ 1) ⊎ ((length slow_pairs ≤ 1) ⊎ (found ≡ []))))
    ⊎ ((lo : ℕ) × (hi : ℕ) × (bootstrap whole_numbers steady
            (delta_of whole_numbers)
            pairs
            slow_pairs
          ≡ some (lo, hi))
        × (1 < length pairs)
        × (1 < length slow_pairs)
        × (0 < length found)
        × IsInterval whole_numbers found lo hi)
bootstrap-IsInterval_example =
    bootstrap-IsInterval whole_numbers steady (delta_of whole_numbers) pairs slow_pairs

abbrev base_file : BenchCache ℕ
base_file = (codes "a", (codes "psychicstd_samples", numbers pairs) ∷ []) ∷ []

abbrev head_file : BenchCache ℕ
head_file = (codes "a", (codes "psychicstd_samples", numbers slow_pairs) ∷ []) ∷ []

abbrev limits : Thresholds whole_numbers
limits = record { threshold = 5; min_abs_ms = 3 }

rows-partition_example :
    let all = rows whole_numbers steady base_file head_file limits in
    count_if (λ row. leb 50 row.delta) all
    ≡ count_if (λ row. leb 50 row.delta) (slower whole_numbers all)
      + (count_if (λ row. leb 50 row.delta) (faster whole_numbers all)
          + count_if (λ row. leb 50 row.delta) (noisy whole_numbers all))
rows-partition_example =
    rows-partition whole_numbers steady base_file head_file limits (λ row. leb 50 row.delta)

rows_self_example :
    All (λ row. row.color ≡ yellow) (rows whole_numbers steady base_file base_file limits)
rows_self_example =
    rows_self whole_numbers steady base_file limits (λ x. omega arith) (λ x h. omega arith)
      (λ n. omega arith) refl

abbrev slow_row : DeltaRow whole_numbers
slow_row = record {
  name = codes "a";
  base = 10;
  head = 20;
  delta = 100;
  ci = some (100, 100);
  color = red;
  speedup = none;
}

-- A change whose interval begins at zero counts as real, and is coloured.
touching_zero :
    (is_real whole_numbers 5 3 (some (0, 100)) 100 10 20 ≡ true)
    × (is_real whole_numbers 5 3 none 100 10 20 ≡ false)
unfolding is_real crosses_zero abs is_less
touching_zero = (refl, refl)

delta_row-significant_example :
    (leb 5 100 ≡ true)
    × (leb 3 10 ≡ true)
    × OneSided whole_numbers
        (figures whole_numbers steady (delta_of whole_numbers) rounds pairs slow_pairs 0)
        (some (100, 100))
unfolding delta_row samples medians delta_ci is_zero percent_change is_real delta_color speedup_over
    field single_sample median bootstrap_delta_ci bootstrap figures rounds resampled choices
    interval delta_of crosses_zero abs is_less text_eq nat_eq ℕ_discrete
delta_row-significant_example =
    delta_row-significant whole_numbers steady base_file head_file limits (codes "a") slow_row pairs
      slow_pairs refl refl refl refl

-- The two variants of a comparison, with a time that was taken twice.
abbrev two_variants : Dict Text (Dict Text (List ℕ))
two_variants =
    (codes "system_base", (codes "compile", 7 ∷ 9 ∷ []) ∷ [])
    ∷ (codes "ref", (codes "compile", 3 ∷ 4 ∷ []) ∷ [])
    ∷ []

abbrev base_side : BenchCache ℕ
base_side =
    (
      codes "compile",
      (codes "system_samples", numbers (7 ∷ 9 ∷ []))
          ∷ (codes "psychicstd_samples", numbers (3 ∷ 4 ∷ []))
          ∷ [],
    )
    ∷ (codes "__meta__", (codes "compiler_version", null) ∷ (codes "repetitions", whole 2) ∷ [])
    ∷ []

samples-side_example :
    (samples whole_numbers base_side (codes "compile") (codes "system") ≡ some (7 ∷ 9 ∷ []))
    × (samples whole_numbers base_side (codes "compile") (codes "psychicstd") ≡ some (3 ∷ 4 ∷ []))
unfolding side side_entries side_meta text_eq nat_eq ℕ_discrete
samples-side_example =
    samples-side whole_numbers two_variants (codes "system_base") (codes "ref") none
      (codes "compile" ∷ []) 2 base_side (codes "compile") ((codes "compile", 7 ∷ 9 ∷ []) ∷ [])
      ((codes "compile", 3 ∷ 4 ∷ []) ∷ []) 7 3 (9 ∷ []) (4 ∷ []) refl refl refl refl refl refl refl
