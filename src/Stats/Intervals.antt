-- ===== src/Stats/Intervals.antt =====
-- What the bootstrap intervals hold.
use mathlib.Core.Path.{subst}
use psychicstd.Base.{
  ℕ, zero, suc, ◌+◌, ◌-◌, ◌*◌, ◌/◌, ◌≤◌, ◌<◌, ◌≡◌, refl, Bool, true, false, ◌&&◌, Option, none,
  some, inl, inr, ◌⊎◌, List, [], ◌∷◌, All, length, count_if, count_if-sort, sort, sort-IsSorted,
  length-sort, IsSorted, leb, arith, nat_eq,
}
use psychicstd.Stats.Floats.{Floats, Random, item}
use psychicstd.Stats.Bootstrap.{figures, interval, bootstrap, rounds}

pub item-some {ℓ} :
    {A : Type ℓ} (n : ℕ) (xs : List A) → n < length xs → (x : A) × (item n xs ≡ some x)
item-some n [] h = ground (arith, h)
item-some zero (x ∷ xs) h = (x, refl)
item-some (suc n) (x ∷ xs) h = item-some n xs (omega (arith, h))

All-item {ℓ κ} :
    {A : Type ℓ} (P : A → Type κ) (n : ℕ) (xs : List A) (x : A)
    → All P xs
    → item n xs ≡ some x
    → P x
All-item P n [] x h e = ground (arith, e)
All-item P zero (y ∷ ys) x h e = subst P (ground (arith, e)) h.0
All-item P (suc n) (y ∷ ys) x h e = All-item P n ys x h.1 e

module _ (f : Floats) where
  -- Whether a number lies between two.
  abbrev pub lies_in : f.F → f.F → f.F → Bool
  lies_in lo hi x = f.leb lo x && f.leb x hi

  leb_refl : (x : f.F) → f.leb x x ≡ true
  leb_refl x = go (f.leb x x) refl
    where
      go : (b : Bool) → f.leb x x ≡ b → f.leb x x ≡ true
      go true e = e
      go false e = f.order.total x x e

  count_if-above :
      (lo hi : f.F) (j : ℕ) (s : List f.F)
      → All (λ y. f.leb lo y ≡ true) s
      → IsSorted f.leb s
      → item j s ≡ some hi
      → j + 1 ≤ count_if (lies_in lo hi) s
  count_if-above lo hi j [] above sorted e = ground (arith, e)
  count_if-above lo hi zero (x ∷ xs) above sorted e = ground (arith, above.0, leb_refl x, e)
  count_if-above lo hi (suc j) (x ∷ xs) above sorted e = ground (
    arith,
    above.0,
    All-item (λ y. f.leb x y ≡ true) j xs hi sorted.0 e,
    count_if-above lo hi j xs above.1 sorted.1 e,
  )

  count_if-between :
      (lo hi : f.F) (i j : ℕ) (s : List f.F)
      → IsSorted f.leb s
      → i ≤ j
      → item i s ≡ some lo
      → item j s ≡ some hi
      → j + 1 ≤ i + count_if (lies_in lo hi) s
  count_if-between lo hi i j [] sorted le e k = ground (arith, e)
  count_if-between lo hi zero j (x ∷ xs) sorted le e k =
      let same : x ≡ lo = ground (arith, e) in
      let above = subst (λ y. All (λ z. f.leb y z ≡ true) (x ∷ xs)) same (leb_refl x, sorted.0) in
      omega (arith, count_if-above lo hi j (x ∷ xs) above sorted k)
  count_if-between lo hi (suc i) zero (x ∷ xs) sorted le e k = ground (arith, le)
  count_if-between lo hi (suc i) (suc j) (x ∷ xs) sorted le e k =
      let ih = count_if-between lo hi i j xs sorted.1 (omega (arith, le)) e k in ground (arith, ih)

  item_ordered :
      (i j : ℕ) (s : List f.F) (lo hi : f.F)
      → IsSorted f.leb s
      → i ≤ j
      → item i s ≡ some lo
      → item j s ≡ some hi
      → f.leb lo hi ≡ true
  item_ordered i j [] lo hi sorted le e k = ground (arith, e)
  item_ordered zero zero (x ∷ xs) lo hi sorted le e k =
      subst (λ y. f.leb lo y ≡ true) (ground (arith, e, k)) (leb_refl lo)
  item_ordered zero (suc j) (x ∷ xs) lo hi sorted le e k =
      subst (λ y. f.leb y hi ≡ true) (ground (arith, e))
        (All-item (λ y. f.leb x y ≡ true) j xs hi sorted.0 k)
  item_ordered (suc i) zero (x ∷ xs) lo hi sorted le e k = ground (arith, le)
  item_ordered (suc i) (suc j) (x ∷ xs) lo hi sorted le e k =
      item_ordered i j xs lo hi sorted.1 (omega (arith, le)) e k

  -- The two ends, and how much lies between them.
  pub record IsInterval (found : List f.F) (lo hi : f.F) : Type 0 where
    pub ends_ordered : f.leb lo hi ≡ true
    pub covers : 19 * length found ≤ 20 * count_if (lies_in lo hi) found + 18

  quotients : (n : ℕ) → (n / 40 ≤ (39 * n) / 40) × ((39 * n) / 40 < suc n)
  quotients n = (omega arith, omega arith)

  quotients_apart : (n c : ℕ) → (39 * n) / 40 + 1 ≤ n / 40 + c → 19 * suc n ≤ 20 * c + 18
  quotients_apart n c h = omega (arith, h)

  -- Some numbers have an interval.
  interval-some :
      (c : f.F) (cs : List f.F)
      → (lo : f.F) × (hi : f.F) × (interval f (c ∷ cs) ≡ some (lo, hi)) × IsInterval (c ∷ cs) lo hi
  unfolding interval
  interval-some c cs =
      let sorted = sort f.leb (c ∷ cs) in
      let last = length (c ∷ cs) - 1 in
      let (low, high) = quotients (length cs) in
      let size : length sorted ≡ suc (length cs) = length-sort f.leb (c ∷ cs) in
      let (lo, at_lo) = item-some (last / 40) sorted (omega (arith, low, high, size)) in
      let (hi, at_hi) = item-some ((39 * last) / 40) sorted (omega (arith, low, high, size)) in
      let ordered = sort-IsSorted f.leb f.order (c ∷ cs) in
      let between =
        count_if-between lo hi (last / 40) ((39 * last) / 40) sorted ordered (omega (arith, low))
          at_lo at_hi in
      (
        lo,
        hi,
        ground (arith, at_lo, at_hi),
        record {
          ends_ordered = item_ordered _ _ sorted lo hi ordered (omega (arith, low)) at_lo at_hi;
          covers =
              quotients_apart (length cs) (count_if (lies_in lo hi) (c ∷ cs))
                (omega (arith, between, count_if-sort f.leb (lies_in lo hi) (c ∷ cs)));
        },
      )

module _ (f : Floats) (r : Random) where
  -- A bootstrap interval is missing exactly where a side has fewer than two samples or no round
  -- gave a figure. Otherwise its ends are in order, and of the n figures at least 0.95 n - 0.9 lie
  -- between them.
  pub bootstrap-IsInterval :
      (figure : f.F → f.F → Option f.F) (xs ys : List f.F)
      → let found = figures f r figure rounds xs ys r.seeded in
        ((bootstrap f r figure xs ys ≡ none) × ((length xs ≤ 1) ⊎ ((length ys ≤ 1) ⊎ (found ≡ []))))
        ⊎ ((lo : f.F) × (hi : f.F) × (bootstrap f r figure xs ys ≡ some (lo, hi))
            × (1 < length xs)
            × (1 < length ys)
            × (0 < length found)
            × IsInterval f found lo hi)
  unfolding bootstrap
  bootstrap-IsInterval figure xs ys =
      go (leb (length xs) 1) refl (leb (length ys) 1) refl
        (figures f r figure rounds xs ys r.seeded) refl
    where
      go :
          (few_xs : Bool)
          → leb (length xs) 1 ≡ few_xs
          → (few_ys : Bool) → leb (length ys) 1 ≡ few_ys
          → (found : List f.F) → figures f r figure rounds xs ys r.seeded ≡ found
          → ((bootstrap f r figure xs ys ≡ none)
              × ((length xs ≤ 1) ⊎ ((length ys ≤ 1) ⊎ (found ≡ []))))
            ⊎ ((lo : f.F) × (hi : f.F) × (bootstrap f r figure xs ys ≡ some (lo, hi))
                × (1 < length xs)
                × (1 < length ys)
                × (0 < length found)
                × IsInterval f found lo hi)
      go true e few_ys k found same = inl (ground (arith, e), inl (ground (arith, e)))
      go false e true k found same = inl (ground (arith, e, k), inr (inl (ground (arith, k))))
      go false e false k [] same = inl (ground (arith, e, k, same), inr (inr refl))
      go false e false k (c ∷ cs) same =
          let (lo, hi, given, good) = interval-some f c cs in
          inr (
            lo,
            hi,
            ground (arith, e, k, same, given),
            ground (arith, e),
            ground (arith, k),
            omega arith,
            good,
          )
