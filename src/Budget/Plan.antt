-- ===== src/Budget/Plan.antt =====
-- The plan keeps within the budget, and uses it up.
use psychicstd.Base.{ℕ, suc, ◌-◌, ◌*◌, ◌≤◌, ◌≡◌, refl, sym, ap, ◌∙◌, true, ◌||◌, arith}
use psychicstd.Base.{
  List, [], ◌∷◌, map, Text, Dict, lookup, insert, values, keys, text_eq, sum, contains, inl, inr,
}
use psychicstd.Base.{Option-cases, NoDupKeys, insert-NoDupKeys, contains-keys-insert}
use psychicstd.Budget.{Spec, repetition_cost, plan, value_of, project_costs, once_each, budget_plan}
use psychicstd.Budget.Loop.{total_cost, slack, InRange, Invariant, Final, plan_loop-Final}

abbrev AllOnes : Dict Text ℕ → Type 0
AllOnes [] = Unit
AllOnes ((p, r) ∷ d) = (r ≡ 1) × AllOnes d

insert-AllOnes : (p : Text) (d : Dict Text ℕ) → AllOnes d → AllOnes (insert p 1 d)
insert-AllOnes p [] h = (refl, tt)
insert-AllOnes p ((q, r) ∷ d) h = ground (arith, insert-AllOnes p d h.1)

once_each-AllOnes : (ps : List Text) (d : Dict Text ℕ) → AllOnes d → AllOnes (once_each ps d)
unfolding once_each
once_each-AllOnes [] d h = h
once_each-AllOnes (p ∷ ps) d h = once_each-AllOnes ps (insert p 1 d) (insert-AllOnes p d h)

once_each-planned :
    (ps : List Text) (d : Dict Text ℕ) (q : Text)
    → contains (keys (once_each ps d)) q ≡ (contains ps q || contains (keys d) q)
unfolding once_each
once_each-planned [] d q = refl
once_each-planned (p ∷ ps) d q =
    ground (arith, once_each-planned ps (insert p 1 d) q, contains-keys-insert q p 1 d)

keys-insert_same :
    (p : Text) (v w : ℕ) (d e : Dict Text ℕ)
    → keys d ≡ keys e
    → keys (insert p v d) ≡ keys (insert p w e)
keys-insert_same p v w [] [] h = refl
keys-insert_same p v w [] (_ ∷ e) h = cc
keys-insert_same p v w (_ ∷ d) [] h = cc
keys-insert_same p v w ((i, x) ∷ d) ((j, y) ∷ e) h = ground (arith, keys-insert_same p v w d e)

-- The costs have the keys of the repetitions, each once.
project_costs-keys :
    (specs : Dict Text Spec) (build_types ps : List Text) (acc costs reps : Dict Text ℕ)
    → project_costs specs build_types ps acc ≡ inr costs
    → keys acc ≡ keys reps
    → NoDupKeys acc
    → (keys costs ≡ keys (once_each ps reps)) × NoDupKeys costs
unfolding project_costs once_each
project_costs-keys specs build_types [] acc costs reps h same d = ground arith
project_costs-keys specs build_types (p ∷ ps) acc costs reps h same d =
    elim (Option-cases (lookup p specs)) [
      | inl e ↦ absurd (ground arith)
      | inr (spec, e) ↦ elim (Option-cases (repetition_cost spec build_types)) [
        | inl f ↦ absurd (ground arith)
        | inr (c, f) ↦
            let rest : project_costs specs build_types ps (insert p c acc) ≡ inr costs =
              ground arith in
            project_costs-keys specs build_types ps (insert p c acc) costs (insert p 1 reps) rest
              (keys-insert_same p c 1 acc reps same) (insert-NoDupKeys p c acc d)
      ]
    ]

total_cost_ones :
    (cost : Text → ℕ) (d : Dict Text ℕ) → AllOnes d → total_cost cost d ≡ sum (map cost (keys d))
total_cost_ones cost [] h = refl
total_cost_ones cost ((p, r) ∷ d) h = ground (arith, total_cost_ones cost d h.1)

sum-congr :
    (f g : Text → ℕ) (xs : List Text)
    → ((a : Text) → contains xs a ≡ true → f a ≡ g a)
    → sum (map f xs) ≡ sum (map g xs)
sum-congr f g [] h = refl
sum-congr f g (x ∷ xs) h =
    omega (arith, h x (ground arith), sum-congr f g xs (λ a m. h a (ground arith)))

sum-values : (d : Dict Text ℕ) → NoDupKeys d → sum (map (value_of d) (keys d)) ≡ sum (values d)
sum-values [] h = refl
sum-values ((p, v) ∷ d) h =
    let rest : sum (map (value_of ((p, v) ∷ d)) (keys d)) ≡ sum (map (value_of d) (keys d)) =
      sum-congr _ _ (keys d) (λ a m. ground arith) in
    ground (arith, rest, sum-values d h.1)

InRange-ones : (max_reps : ℕ) (d : Dict Text ℕ) → AllOnes d → InRange max_reps d
InRange-ones max_reps [] h = tt
InRange-ones max_reps ((p, r) ∷ d) h = ground (arith, InRange-ones max_reps d h.1)

slack_ones :
    (max_reps : ℕ) (d : Dict Text ℕ) → AllOnes d → slack max_reps d ≤ sum (values d) * max_reps
slack_ones max_reps [] h = omega arith
slack_ones max_reps ((p, r) ∷ d) h = grind (arith, slack_ones max_reps d h.1)

module _ (specs : Dict Text Spec) (projects build_types : List Text) (budget max_reps : ℕ)
    (costs : Dict Text ℕ) (known : project_costs specs build_types projects [] ≡ inr costs) where
  start-Invariant :
      sum (values costs) ≤ budget
      → Invariant projects
          (value_of costs)
          max_reps
          budget
          (once_each projects [])
          (budget - sum (values costs))
  start-Invariant enough =
      let reps = once_each projects [] in
      let ones = once_each-AllOnes projects [] tt in
      let (same, distinct) =
        project_costs-keys specs build_types projects [] costs [] known refl tt in
      let minimum : total_cost (value_of costs) reps ≡ sum (values costs) =
        total_cost_ones (value_of costs) reps ones
        ∙ ap (λ (l : List Text). sum (map (value_of costs) l)) (sym same)
        ∙ sum-values costs distinct in
      record {
        spent = omega (arith, minimum);
        in_range = InRange-ones max_reps reps ones;
        planned = λ p m. ground (arith, once_each-planned projects [] p);
      }

  -- If one repetition of every project fits into the budget, there is a plan. It runs each of the
  -- given projects, each at least once and not more than `max_reps` times (or once), its cost and
  -- what is left make up the budget, and no project that could still be repeated fits into what
  -- is left. Each given project is known, with an estimate for each build type.
  pub budget_plan-fits :
      sum (values costs) ≤ budget
      → (final : Dict Text ℕ) × (left : ℕ) × (budget_plan specs projects build_types budget max_reps
          ≡ plan final costs)
        × Final projects (value_of costs) max_reps budget final left
  unfolding budget_plan
  budget_plan-fits enough =
      let reps = once_each projects [] in
      let fuel = suc (sum (values reps) * max_reps) in
      let (final, left, e, fin) =
        plan_loop-Final projects (value_of costs) max_reps budget fuel reps
          (budget - sum (values costs)) (start-Invariant enough)
          (omega (arith, slack_ones max_reps reps (once_each-AllOnes projects [] tt))) in
      (final, left, ground (arith, known, e), fin)
