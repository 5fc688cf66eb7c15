-- ===== src/Comparison/Projects.antt =====
-- The matrix of the builds of a modelled project.
use mathlib.Core.Path.{subst}
use psychicstd.Base.{
  ℕ, ◌≡◌, refl, sym, ap, ◌∙◌, Bool, true, not, ◌&&◌, Option, none, some, inl, inr, ◌⊎◌, List, [],
  ◌∷◌, Text, Dict, lookup, values, contains, text_eq, ℕ_discrete, All, NoDup, NoDupKeys, arith,
}
use psychicstd.Recipes.World.{World, Host}
use psychicstd.Recipes.Core.{Toolchain, Timings, Project}
use psychicstd.Recipes.Returns.{Covers, all_exited_0}
use psychicstd.Recipes.Cmake.{catch2, date, ctre, flatbuffers, fmt, zancle}
use psychicstd.Recipes.Wrapped.{googletest, godot, cmake, cppcheck, harfbuzz}
use psychicstd.Recipes.Suites.{simdutf, strong_type, trompeloeil, rdfind}
use psychicstd.Recipes.Single.{single_source_project, pocketfft, inipp, nlohmann}
use psychicstd.Recipes.Registry.{modelled_projects, All-lookup}
use psychicstd.Recipes.Performance.{performance_build_of, performance_phases_of, performance-phases}
use psychicstd.Comparison.Matrix.{Samples, build_matrix, build_rounds, empty_samples, chosen_phases}
use psychicstd.Comparison.Counts.{IsFull}
use psychicstd.Comparison.Total.{EndsIn, build_matrix-Filled}

are_distinct : List Text → Bool
unfolding text_eq
are_distinct [] = true
are_distinct (x ∷ xs) = not (contains xs x) && are_distinct xs

are_distinct-NoDup : (xs : List Text) → are_distinct xs ≡ true → NoDup xs
unfolding are_distinct
are_distinct-NoDup [] h = tt
are_distinct-NoDup (x ∷ xs) h = (ground (arith, h), are_distinct-NoDup xs (ground (arith, h)))

All-distinct : All (λ p. are_distinct (performance_phases_of p) ≡ true) (values modelled_projects)
unfolding are_distinct modelled_projects performance_phases_of single_source_project text_eq
    ℕ_discrete catch2 cmake cppcheck ctre date flatbuffers fmt godot googletest harfbuzz inipp
    nlohmann pocketfft rdfind simdutf strong_type trompeloeil zancle
All-distinct = (
  refl,
  (
    refl,
    (
      refl,
      (
        refl,
        (
          refl,
          (
            refl,
            (
              refl,
              (
                refl,
                (
                  refl,
                  (
                    refl,
                    (
                      refl,
                      (
                        refl,
                        (
                          refl,
                          (
                            refl,
                            (
                              refl,
                              (refl, (refl, (refl, (refl, (refl, (refl, (refl, (refl, tt)))))))),
                            ),
                          ),
                        ),
                      ),
                    ),
                  ),
                ),
              ),
            ),
          ),
        ),
      ),
    ),
  ),
)

-- The phases that a project reports are those that are chosen for the matrix.
chosen_phases-performance :
    (p : Project) → chosen_phases (some (performance_phases_of p)) p ≡ performance_phases_of p
unfolding performance_phases_of chosen_phases
chosen_phases-performance p = go p.phases p.performance_phases
  where
    go :
        (own : List Text) (given : Option (List Text))
        → let phases : List Text = elim given [
          | none ↦ own
          | some [] ↦ own
          | some (phase ∷ more) ↦ phase ∷ more
        ] in
          chosen_phases (some phases) (record p { phases = own }) ≡ phases
    go [] none = refl
    go (phase ∷ more) none = refl
    go [] (some []) = refl
    go (phase ∷ more) (some []) = refl
    go own (some (phase ∷ more)) = refl

-- Where the matrix of a modelled project's builds returns, each variant has exactly one sample of
-- each reported phase for each repetition, and every command exited with 0, if those did that were
-- logged before it.
pub build_matrix-modelled :
    (name : Text) (p : Project) (variants : Dict Text Toolchain) (reps : ℕ) (h : Host)
    (w w' : World) (samples : Samples)
    → lookup name modelled_projects ≡ some p
    → NoDupKeys variants
    → all_exited_0 w.log ≡ true
    → build_matrix variants (performance_build_of p) reps p (some (performance_phases_of p)) h w
      ≡ (inr samples, w')
    → IsFull reps (performance_phases_of p) variants samples × (all_exited_0 w'.log ≡ true)
unfolding build_matrix
build_matrix-modelled name p variants reps h w w' samples found distinct clean returned =
    let phases = performance_phases_of p in
    let nodup : NoDup phases =
      are_distinct-NoDup phases (All-lookup _ name p modelled_projects All-distinct found) in
    let filled =
      build_matrix-Filled h (λ e. Unit) (λ v. all_exited_0 v.log ≡ true) (performance_build_of p)
        phases nodup
        (λ tc. record { ends = λ v ok. end tc v ok (performance_build_of p tc h v) refl }) variants
        reps distinct in
    let good =
      subst (EndsIn (λ e. Unit) (λ v. all_exited_0 v.log ≡ true) (IsFull reps phases variants))
        (sym (
            ap
              (λ ps.
                build_rounds (performance_build_of p) ps reps variants (empty_samples ps variants) h
                  w)
              (chosen_phases-performance p))
          ∙ returned)
        (filled.ends w clean) in
    (good.1, good.0)
  where
    end :
        (tc : Toolchain) (v : World)
        → all_exited_0 v.log ≡ true
        → (o : (Text ⊎ Timings) × World) → performance_build_of p tc h v ≡ o
        → EndsIn (λ e. Unit) (λ u. all_exited_0 u.log ≡ true) (Covers (performance_phases_of p)) o
    end tc v ok (inl e, u) same = tt
    end tc v ok (inr timings, u) same =
        let (covers, clean') = performance-phases name p tc h v u timings found ok same in
        (clean', covers)
