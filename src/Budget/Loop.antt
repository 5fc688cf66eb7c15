-- ===== src/Budget/Loop.antt =====
-- The invariant of the planning loop, and its end.
use psychicstd.Base.{
  ℕ, zero, suc, ◌+◌, ◌-◌, ◌*◌, ◌≤◌, ◌<◌, max, ◌≡◌, refl, sym, ◌∙◌, true, ◌&&◌, some, arith,
}
use psychicstd.Base.{
  List, [], ◌∷◌, Text, Dict, lookup, insert, keys, text_eq, if◌then◌else◌, ltb, keep, contains, ◌⊎◌,
  inl, inr, Option-cases,
}
use psychicstd.Base.{contains-keep, keep-eq-nil, contains-keys-insert, contains-keys_iff}
use psychicstd.Budget.{value_of, least, is_candidate, plan_loop}

-- What the repetitions cost together.
abbrev pub total_cost : (Text → ℕ) → Dict Text ℕ → ℕ
total_cost cost [] = 0
total_cost cost ((p, r) ∷ d) = r * cost p + total_cost cost d

-- How many additions are left.
abbrev pub slack : ℕ → Dict Text ℕ → ℕ
slack max_reps [] = 0
slack max_reps ((p, r) ∷ d) = (max_reps - r) + slack max_reps d

-- Each project runs at least once, and at most `max_reps` times, or once.
abbrev pub InRange : ℕ → Dict Text ℕ → Type 0
InRange max_reps [] = Unit
InRange max_reps ((p, r) ∷ d) = (1 ≤ r) × (r ≤ max 1 max_reps) × InRange max_reps d

module _ (cost : Text → ℕ) (max_reps : ℕ) where
  total_cost-insert :
      (p : Text) (r : ℕ) (d : Dict Text ℕ)
      → lookup p d ≡ some r
      → total_cost cost (insert p (suc r) d) ≡ total_cost cost d + cost p
  total_cost-insert p r [] h = cc
  total_cost-insert p r ((q, s) ∷ d) h = grind (arith, total_cost-insert p r d)

  slack-insert :
      (p : Text) (r : ℕ) (d : Dict Text ℕ)
      → lookup p d ≡ some r
      → r < max_reps
      → suc (slack max_reps (insert p (suc r) d)) ≡ slack max_reps d
  slack-insert p r [] h lt = cc
  slack-insert p r ((q, s) ∷ d) h lt = ground (arith, slack-insert p r d)

  InRange-insert :
      (p : Text) (r : ℕ) (d : Dict Text ℕ)
      → r < max_reps
      → InRange max_reps d
      → InRange max_reps (insert p (suc r) d)
  InRange-insert p r [] lt h = omega arith
  InRange-insert p r ((q, s) ∷ d) lt h = ground (arith, InRange-insert p r d lt h.2)

least-contains :
    (weight : Text → ℕ) (best : Text) (names : List Text)
    → contains (best ∷ names) (least weight best names) ≡ true
unfolding least
least-contains weight best [] = ground arith
least-contains weight best (n ∷ names) =
    ground (arith, least-contains weight (if ltb (weight n) (weight best) then n else best) names)

module _ (projects : List Text) (cost : Text → ℕ) (max_reps : ℕ) (budget : ℕ) where
  -- What holds at the head of the loop.
  pub record Invariant (reps : Dict Text ℕ) (remaining : ℕ) : Type 0 where
    pub spent : total_cost cost reps + remaining ≡ budget
    pub in_range : InRange max_reps reps
    pub planned : (p : Text) → contains projects p ≡ true → contains (keys reps) p ≡ true

  -- What holds when no project can be added.
  pub record Final (reps : Dict Text ℕ) (remaining : ℕ) : Type 0 where
    pub spent : total_cost cost reps + remaining ≡ budget
    pub in_range : InRange max_reps reps
    pub planned : (p : Text) → contains projects p ≡ true → contains (keys reps) p ≡ true
    pub full :
        (p : Text)
        → contains projects p ≡ true
        → (max_reps ≤ value_of reps p) ⊎ (remaining < cost p)

  Invariant-step :
      (p : Text) (reps : Dict Text ℕ) (remaining : ℕ)
      → Invariant reps remaining
      → contains projects p ≡ true
      → is_candidate projects cost max_reps reps remaining p ≡ true
      → Invariant (insert p (suc (value_of reps p)) reps) (remaining - cost p)
        × (slack max_reps (insert p (suc (value_of reps p)) reps) < slack max_reps reps)
  unfolding is_candidate
  Invariant-step p reps remaining inv m c = elim (Option-cases (lookup p reps)) [
    | inl e ↦ absurd (ground (arith, inv.planned p m, contains-keys_iff p reps))
    | inr (r, e) ↦
        let v : value_of reps p ≡ r = rw (e, value_of) refl in
        rw v (
          record {
            spent = ground (arith, total_cost-insert cost max_reps p r reps e, inv.spent);
            in_range = InRange-insert cost max_reps p r reps (ground arith) inv.in_range;
            planned = λ q k. ground (arith, contains-keys-insert q p (suc r) reps, inv.planned q k);
          },
          ground (arith, slack-insert cost max_reps p r reps e),
        )
  ]

  abbrev Ends : ℕ → Dict Text ℕ → ℕ → Type 0
  Ends fuel reps remaining =
      (final : Dict Text ℕ) × (left : ℕ) × (plan_loop projects cost max_reps fuel reps remaining
        ≡ some (final, left))
      × Final final left

  -- A round, from the rounds behind it.
  plan_loop-step :
      (fuel : ℕ) (reps : Dict Text ℕ) (remaining : ℕ) (found : List Text)
      → keep (is_candidate projects cost max_reps reps remaining) projects ≡ found
      → Invariant reps remaining
      → ((reps' : Dict Text ℕ) (remaining' : ℕ)
          → Invariant reps' remaining'
          → slack max_reps reps' < slack max_reps reps
          → Ends fuel reps' remaining')
      → Ends (suc fuel) reps remaining
  unfolding plan_loop
  plan_loop-step fuel reps remaining [] e inv next = (
    reps,
    remaining,
    rw (e, plan_loop) refl,
    record {
      spent = inv.spent;
      in_range = inv.in_range;
      planned = inv.planned;
      full = λ p m.
          unfold is_candidate in
          ground (
            arith,
            (keep-eq-nil (is_candidate projects cost max_reps reps remaining) projects).0 e p m,
          );
    },
  )
  plan_loop-step fuel reps remaining (p ∷ ps) e inv next =
      let best = least (λ name. value_of reps name * cost name) p ps in
      let chosen : contains (keep (is_candidate projects cost max_reps reps remaining) projects)
            best
          ≡ true =
        rw e (least-contains (λ name. value_of reps name * cost name) p ps) in
      let ok : (is_candidate projects cost max_reps reps remaining best && contains projects best)
          ≡ true =
        sym (contains-keep (is_candidate projects cost max_reps reps remaining) best projects)
        ∙ chosen in
      let (inv', less) = Invariant-step best reps remaining inv (ground arith) (ground arith) in
      let (final, left, eq, fin) = next _ _ inv' less in (final, left, rw (e, plan_loop) eq, fin)

  -- With more fuel than there are additions left, the loop ends, and nothing more fits.
  pub plan_loop-Final :
      (fuel : ℕ) (reps : Dict Text ℕ) (remaining : ℕ)
      → Invariant reps remaining
      → slack max_reps reps < fuel
      → (final : Dict Text ℕ) × (left : ℕ) × (plan_loop projects cost max_reps fuel reps remaining
          ≡ some (final, left))
        × Final final left
  plan_loop-Final zero reps remaining inv h = elim h [ ]
  plan_loop-Final (suc fuel) reps remaining inv h =
      plan_loop-step fuel reps remaining _ refl inv
        (λ reps' remaining' inv' less. plan_loop-Final fuel reps' remaining' inv' (omega arith))
