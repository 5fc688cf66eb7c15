-- ===== src/Comparison/Matrix.antt =====
-- The samples of a comparison: `_build_matrix`, `measure_project`, `check_project` and `_side` of
-- scripts/compare_realworld_to_ref.py.
use psychicstd.Base.{
  ℕ, zero, suc, Bool, Option, none, some, List, [], ◌∷◌, ◌++◌, Text, codes, Dict, lookup, insert,
  insert_all, map, text_eq,
}
use psychicstd.Recipes.World.{Action, ◌>>=◌, done, raise}
use psychicstd.Recipes.Core.{Toolchain, Timings, Project}
use psychicstd.Comparison.Runtime.{sys_tc, psy_tc}

-- The milliseconds of each phase, the first repetition first.
abbrev pub Row : Type 0
Row = Dict Text (List ℕ)

abbrev pub Samples : Type 0
Samples = Dict Text Row

-- `{p: [] for p in phases}`
unfoldable pub empty_row : List Text → Row
unfolding text_eq
empty_row phases = insert_all (map (λ p. (p, [])) phases) []

unfoldable pub empty_samples : List Text → Dict Text Toolchain → Samples
unfolding text_eq empty_row
empty_samples phases variants = insert_all (map (λ v. (v.0, empty_row phases)) variants) []

-- `for p in phases: row[p].append(t[p])`; `none` is a `KeyError`.
unfoldable pub append_times : Timings → List Text → Row → Option Row
unfolding text_eq
append_times t [] row = some row
append_times t (p ∷ phases) row = elim (lookup p t) [
  | none ↦ none
  | some ms ↦ elim (lookup p row) [
    | none ↦ none
    | some sofar ↦ append_times t phases (insert p (sofar ++ (ms ∷ [])) row)
  ]
]

-- The samples with the times of one build of the variant.
unfoldable pub add_build : List Text → Text → Timings → Samples → Option Samples
unfolding text_eq append_times
add_build phases name t samples = elim (lookup name samples) [
  | none ↦ none
  | some row ↦ elim (append_times t phases row) [
    | none ↦ none
    | some row' ↦ some (insert name row' samples)
  ]
]

unfoldable pub or_key_error {ℓ} : {A : Type ℓ} → Option A → Action A
or_key_error none = raise (codes "KeyError")
or_key_error (some a) = done a

module _ (build : Toolchain → Action Timings) (phases : List Text) where
  -- One repetition: each variant is built once.
  unfoldable pub build_variants : Dict Text Toolchain → Samples → Action Samples
  build_variants [] samples = done samples
  build_variants ((name, tc) ∷ variants) samples = do
    t ← build tc
    samples' ← or_key_error (add_build phases name t samples)
    build_variants variants samples'

  unfoldable pub build_rounds : ℕ → Dict Text Toolchain → Samples → Action Samples
  build_rounds zero variants samples = done samples
  build_rounds (suc reps) variants samples = do
    samples' ← build_variants variants samples
    build_rounds reps variants samples'

-- `phases or rw.PROJECTS[project].phases`
unfoldable pub chosen_phases : Option (List Text) → Project → List Text
chosen_phases none p = p.phases
chosen_phases (some []) p = p.phases
chosen_phases (some (phase ∷ phases)) p = phase ∷ phases

-- `_build_matrix`
unfoldable pub build_matrix :
    Dict Text Toolchain
    → (Toolchain → Action Timings)
    → ℕ
    → Project
    → Option (List Text)
    → Action Samples
build_matrix variants build reps p given =
    let phases = chosen_phases given p in
    build_rounds build phases reps variants (empty_samples phases variants)

-- `measure_project`
unfoldable pub measure_project : Project → Text → Text → Text → ℕ → Text → Bool → ℕ → Action Samples
measure_project p platform compiler build_type reps include enable_ccache jobs = do
  psy ← psy_tc platform compiler include build_type enable_ccache jobs
  build_matrix
      ((codes "system", sys_tc compiler build_type enable_ccache jobs)
        ∷ (codes "psychicstd", psy)
        ∷ [])
      p.build reps p none

-- `check_project`
unfoldable pub check_project : Project → Text → Text → Text → Text → Bool → ℕ → Action Samples
check_project p platform compiler build_type include enable_ccache jobs = do
  psy ← psy_tc platform compiler include build_type enable_ccache jobs
  build_matrix ((codes "psychicstd", psy) ∷ []) p.build 1 p none
