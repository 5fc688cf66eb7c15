-- ===== src/Budget/Tests.antt =====
-- A plan for two projects, and the theorems there.
use psychicstd.Base.{ℕ, ◌≡◌, refl, List, [], ◌∷◌, Text, codes, Dict, arith, text_eq, inr}
use psychicstd.Budget.{Spec, plan, value_of, project_costs, budget_plan}
use psychicstd.Budget.Loop.{Final}
use psychicstd.Budget.Plan.{budget_plan-fits}

abbrev specs : Dict Text Spec
specs =
    (codes "fmt", record { expected_seconds = (codes "debug", 12) ∷ []; expected_jobs = 20 })
    ∷ (codes "date", record { expected_seconds = (codes "debug", 15) ∷ []; expected_jobs = 20 })
    ∷ []

abbrev projects : List Text
projects = codes "fmt" ∷ codes "date" ∷ []

abbrev modes : List Text
modes = codes "debug" ∷ []

abbrev costs : Dict Text ℕ
costs = (codes "fmt", 24) ∷ (codes "date", 30) ∷ []

known : project_costs specs modes projects [] ≡ inr costs
unfolding project_costs text_eq
known = refl

plan_run :
    budget_plan specs projects modes 120 5 ≡ plan ((codes "fmt", 2) ∷ (codes "date", 2) ∷ []) costs
unfolding budget_plan text_eq
plan_run = refl

budget_plan-fits_example :
    (final : Dict Text ℕ) × (left : ℕ) × (budget_plan specs projects modes 120 5 ≡ plan final costs)
    × Final projects (value_of costs) 5 120 final left
budget_plan-fits_example = budget_plan-fits specs projects modes 120 5 costs known (omega arith)
