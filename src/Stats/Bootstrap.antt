-- ===== src/Stats/Bootstrap.antt =====
-- The bootstrap intervals of scripts/_benchmark_diff.py, scripts/benchmark_realworld.py and
-- scripts/benchmark_compile_time.py. The products 0.025 * n and 0.975 * n, cut to an integer, are
-- the quotients n / 40 and 39 * n / 40 for every n below 2000.
use psychicstd.Base.{
  ℕ, zero, suc, ◌-◌, ◌*◌, ◌/◌, Option, none, some, List, [], ◌∷◌, length, sort, leb, ◌||◌,
  if◌then◌else◌,
}
use psychicstd.Stats.Floats.{Floats, Random, item, is_zero, median}

-- `iters`
unfoldable pub rounds : ℕ
rounds = 2000

module _ (f : Floats) where
  -- The figures at the two ends of the interval, of those found.
  unfoldable pub interval : List f.F → Option (f.F × f.F)
  interval [] = none
  interval (c ∷ cs) =
      let sorted = sort f.leb (c ∷ cs) in
      let last = length (c ∷ cs) - 1 in
      elim (item (last / 40) sorted) [
        | none ↦ none
        | some lo ↦ elim (item ((39 * last) / 40) sorted) [ none ↦ none | some hi ↦ some (lo, hi) ]
      ]

  -- `(h - b) / b * 100.0`, if `b` is not zero
  unfoldable pub delta_of : f.F → f.F → Option f.F
  unfolding is_zero
  delta_of b h = if is_zero f b then none else some (f.mul (f.div (f.sub h b) b) (f.of_ℕ 100))

  -- `s / p`, if `p` is not zero
  unfoldable pub ratio_of : f.F → f.F → Option f.F
  unfolding is_zero
  ratio_of s p = if is_zero f p then none else some (f.div s p)

  -- `(baseline - improved) / baseline * 100`, if `baseline` is not zero
  unfoldable pub reduction_of : f.F → f.F → Option f.F
  unfolding is_zero
  reduction_of baseline improved =
      if is_zero f baseline
      then none
      else some (f.mul (f.div (f.sub baseline improved) baseline) (f.of_ℕ 100))

module _ (f : Floats) (r : Random) where
  -- `[rnd.choice(xs) for _ in range(n)]`, where `none` is an index out of range
  unfoldable pub choices : ℕ → List f.F → r.State → Option (List f.F) × r.State
  choices zero xs s = (some [], s)
  choices (suc n) xs s =
      let (index, s') = r.below (length xs) s in
      let (rest, s'') = choices n xs s' in
      (
        elim (item index xs) [
          | none ↦ none
          | some x ↦ elim rest [ none ↦ none | some chosen ↦ some (x ∷ chosen) ]
        ],
        s'',
      )

  -- The median of as many choices as there are samples.
  unfoldable pub resampled : List f.F → r.State → Option f.F × r.State
  unfolding choices median
  resampled xs s =
      let (chosen, s') = choices (length xs) xs s in
      (elim chosen [ none ↦ none | some ys ↦ median f ys ], s')

  -- The rounds of the loop: what `figure` makes of the two medians, if it makes anything.
  unfoldable pub figures : (f.F → f.F → Option f.F) → ℕ → List f.F → List f.F → r.State → List f.F
  unfolding resampled
  figures figure zero xs ys s = []
  figures figure (suc iters) xs ys s =
      let (x, s') = resampled xs s in
      let (y, s'') = resampled ys s' in
      let rest = figures figure iters xs ys s'' in
      elim x [
        | none ↦ rest
        | some a ↦ elim y [
          | none ↦ rest
          | some b ↦ elim (figure a b) [ none ↦ rest | some c ↦ c ∷ rest ]
        ]
      ]

  unfoldable pub bootstrap : (f.F → f.F → Option f.F) → List f.F → List f.F → Option (f.F × f.F)
  unfolding figures interval
  bootstrap figure xs ys =
      let found = interval f (figures figure rounds xs ys r.seeded) in
      if leb (length xs) 1 || leb (length ys) 1 then none else found

  -- `bootstrap_delta_ci` of scripts/_benchmark_diff.py
  unfoldable pub bootstrap_delta_ci : List f.F → List f.F → Option (f.F × f.F)
  unfolding bootstrap delta_of
  bootstrap_delta_ci base_s head_s = bootstrap (delta_of f) base_s head_s

  -- `bootstrap_speedup_ci` of scripts/benchmark_realworld.py and scripts/benchmark_compile_time.py
  unfoldable pub bootstrap_speedup_ci : List f.F → List f.F → Option (f.F × f.F)
  unfolding bootstrap ratio_of
  bootstrap_speedup_ci sys_samples psy_samples = bootstrap (ratio_of f) sys_samples psy_samples

  -- `bootstrap_reduction_ci` of scripts/benchmark_compile_time.py
  unfoldable pub bootstrap_reduction_ci : List f.F → List f.F → Option (f.F × f.F)
  unfolding bootstrap reduction_of
  bootstrap_reduction_ci baseline_samples improved_samples =
      bootstrap (reduction_of f) baseline_samples improved_samples
