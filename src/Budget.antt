-- ===== src/Budget.antt =====
-- How many repetitions of each project's benchmark fit into a time budget: `_repetition_cost` and
-- `_budget_plan` of scripts/generate_realworld_benchmark_reports.py and `_budget_repetitions` of
-- scripts/compare_realworld_to_ref.py. Times are whole seconds, as all estimates are.
pub mod Loop
pub mod Plan
mod Tests
use psychicstd.Base.{
  ℕ, zero, suc, ◌+◌, ◌-◌, ◌*◌, ◌/◌, min, max, Bool, true, false, ◌&&◌, Option, none, some, ◌⊎◌, inl,
  inr,
}
use psychicstd.Base.{
  List, [], ◌∷◌, Text, Dict, lookup, insert, values, keys, text_eq, if◌then◌else◌, ltb, leb, keep,
  sum,
}

-- The fields of a `Project` that the planning reads.
pub record Spec : Type 0 where
  pub expected_seconds : Dict Text ℕ
  pub expected_jobs : ℕ

-- `sum(spec.expected_seconds[mode] for mode in build_types)`; `none` is a missing key.
sum_modes : Dict Text ℕ → List Text → Option ℕ
sum_modes seconds [] = some 0
sum_modes seconds (mode ∷ modes) =
    let rest = sum_modes seconds modes in
    elim (lookup mode seconds) [
      | none ↦ none
      | some s ↦ elim rest [ none ↦ none | some t ↦ some (s + t) ]
    ]

-- `_repetition_cost`; `none` is the `ValueError`.
unfoldable pub repetition_cost : Spec → List Text → Option ℕ
unfolding sum_modes
repetition_cost spec build_types = elim (sum_modes spec.expected_seconds build_types) [
  | none ↦ none
  | some t ↦ some (2 * t)
]

-- What stops a plan, or the plan: the repetitions and the cost of one, by project.
pub data PlanResult : Type 0 where
  -- `rw.PROJECTS[project]` raises
  unknown_project : Text → PlanResult
  no_estimate : Text → PlanResult
  over_budget : ℕ → PlanResult
  out_of_fuel : PlanResult
  plan : Dict Text ℕ → Dict Text ℕ → PlanResult

-- `d[k]` where the key is there.
abbrev pub value_of : Dict Text ℕ → Text → ℕ
value_of d k = elim (lookup k d) [ none ↦ 0 | some n ↦ n ]

-- `min(names, key=weight)`: the first of the least.
unfoldable pub least : (Text → ℕ) → Text → List Text → Text
least weight best [] = best
least weight best (name ∷ names) =
    least weight (if ltb (weight name) (weight best) then name else best) names

module _ (projects : List Text) (cost : Text → ℕ) (max_reps : ℕ) where
  unfoldable pub is_candidate : Dict Text ℕ → ℕ → Text → Bool
  is_candidate reps remaining p = ltb (value_of reps p) max_reps && leb (cost p) remaining

  -- The `while True` loop, on fuel.
  unfoldable pub plan_loop : ℕ → Dict Text ℕ → ℕ → Option (Dict Text ℕ × ℕ)
  unfolding least is_candidate
  plan_loop zero reps remaining = none
  plan_loop (suc fuel) reps remaining = elim (keep (is_candidate reps remaining) projects) [
    | [] ↦ some (reps, remaining)
    | p ∷ ps ↦
        let best = least (λ name. value_of reps name * cost name) p ps in
        plan_loop fuel (insert best (suc (value_of reps best)) reps) (remaining - cost best)
  ]

-- `{project: _repetition_cost(project, build_types) for project in projects}`, or what it raises.
unfoldable pub project_costs :
    Dict Text Spec → List Text → List Text → Dict Text ℕ → PlanResult ⊎ Dict Text ℕ
unfolding repetition_cost
project_costs specs build_types [] costs = inr costs
project_costs specs build_types (p ∷ projects) costs = elim (lookup p specs) [
  | none ↦ inl (unknown_project p)
  | some spec ↦ elim (repetition_cost spec build_types) [
    | none ↦ inl (no_estimate p)
    | some c ↦ project_costs specs build_types projects (insert p c costs)
  ]
]

-- `dict.fromkeys(projects, 1)`
unfoldable pub once_each : List Text → Dict Text ℕ → Dict Text ℕ
once_each [] reps = reps
once_each (p ∷ projects) reps = once_each projects (insert p 1 reps)

-- `_budget_plan`. The loop makes at most `max_reps` additions for each project.
unfoldable pub budget_plan : Dict Text Spec → List Text → List Text → ℕ → ℕ → PlanResult
unfolding project_costs once_each plan_loop
budget_plan specs projects build_types budget max_reps =
    elim (project_costs specs build_types projects []) [
      | inl failure ↦ failure
      | inr costs ↦
          let minimum = sum (values costs) in
          let reps = once_each projects [] in
          let fuel = suc (sum (values (once_each projects [])) * max_reps) in
          let result : PlanResult =
            elim (plan_loop projects (value_of costs) max_reps fuel reps (budget - minimum)) [
              | none ↦ out_of_fuel
              | some (final, remaining) ↦ plan final costs
            ] in
          if ltb budget minimum then over_budget minimum else result
    ]

-- `_budget_repetitions`, its first component: `budget // (4 * seconds * expected_jobs / jobs)` is
-- the quotient by whole numbers below.
unfoldable pub budget_repetitions : ℕ → ℕ → ℕ → ℕ → ℕ → ℕ
budget_repetitions seconds expected_jobs budget max_reps jobs =
    max 1 (min max_reps (budget * jobs / (4 * seconds * expected_jobs)))
