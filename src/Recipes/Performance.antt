-- ===== src/Recipes/Performance.antt =====
-- What scripts/compare_realworld_to_ref.py builds and reports for a project.
use mathlib.Core.Path.{subst}
use psychicstd.Base.{
  text_eq, codes, false, ◌≡◌, true, none, some, inr, List, [], ◌∷◌, Text, lookup, values, All,
}
use psychicstd.Recipes.World.{World, Host, Action}
use psychicstd.Recipes.Core.{Toolchain, Project, Timings}
use psychicstd.Recipes.Returns.{Returns, IsGood, Covers, all_exited_0}
use psychicstd.Recipes.Cmake.{catch2, date, ctre, flatbuffers, fmt, zancle}
use psychicstd.Recipes.Wrapped.{googletest, godot, cmake, cppcheck, harfbuzz}
use psychicstd.Recipes.Suites.{simdutf, strong_type, trompeloeil, rdfind}
use psychicstd.Recipes.Single.{single_source_project, pocketfft, inipp, nlohmann}
use psychicstd.Recipes.Registry.{modelled_projects, All-lookup}
use psychicstd.Recipes.Phases.{
  TimesItsPhases, catch2-TimesItsPhases, cmake-TimesItsPhases, ctre-TimesItsPhases,
  date-TimesItsPhases, flatbuffers-TimesItsPhases, fmt-TimesItsPhases, godot-TimesItsPhases,
  googletest-TimesItsPhases, harfbuzz-TimesItsPhases, inipp-TimesItsPhases, nlohmann-TimesItsPhases,
  pocketfft-TimesItsPhases, rdfind-TimesItsPhases, simdutf-TimesItsPhases,
  strong_type-TimesItsPhases, trompeloeil-TimesItsPhases, zancle-TimesItsPhases,
  cppcheck-performance,
}

-- `project.performance_build or project.build`
unfoldable pub performance_build_of : Project → Toolchain → Action Timings
performance_build_of p = elim p.performance_build [ none ↦ p.build | some b ↦ b ]

-- `project.performance_phases or project.phases`, where an empty tuple counts as none.
unfoldable pub performance_phases_of : Project → List Text
performance_phases_of p = elim p.performance_phases [
  | none ↦ p.phases
  | some [] ↦ p.phases
  | some (phase ∷ phases) ↦ phase ∷ phases
]

TimesPerformance : Project → Type 0
TimesPerformance p =
    (tc : Toolchain) → Returns (Covers (performance_phases_of p)) (performance_build_of p tc)

All-TimesPerformance : All TimesPerformance (values modelled_projects)
unfolding modelled_projects TimesPerformance TimesItsPhases performance_build_of
    performance_phases_of single_source_project catch2 cmake cppcheck ctre date flatbuffers fmt
    godot googletest harfbuzz inipp nlohmann pocketfft rdfind simdutf strong_type trompeloeil zancle
All-TimesPerformance = (
  catch2-TimesItsPhases,
  (
    cmake-TimesItsPhases false,
    (
      cmake-TimesItsPhases true,
      (
        cppcheck-performance,
        (
          ctre-TimesItsPhases,
          (
            date-TimesItsPhases,
            (
              flatbuffers-TimesItsPhases,
              (
                fmt-TimesItsPhases,
                (
                  godot-TimesItsPhases,
                  (
                    googletest-TimesItsPhases false,
                    (
                      googletest-TimesItsPhases true,
                      (
                        harfbuzz-TimesItsPhases,
                        (
                          inipp-TimesItsPhases,
                          (
                            nlohmann-TimesItsPhases false,
                            (
                              nlohmann-TimesItsPhases true,
                              (
                                pocketfft-TimesItsPhases false,
                                (
                                  pocketfft-TimesItsPhases true,
                                  (
                                    rdfind-TimesItsPhases,
                                    (
                                      simdutf-TimesItsPhases false (codes "drop-in"),
                                      (
                                        simdutf-TimesItsPhases true (codes "strict"),
                                        (
                                          strong_type-TimesItsPhases,
                                          (trompeloeil-TimesItsPhases, (zancle-TimesItsPhases, tt)),
                                        ),
                                      ),
                                    ),
                                  ),
                                ),
                              ),
                            ),
                          ),
                        ),
                      ),
                    ),
                  ),
                ),
              ),
            ),
          ),
        ),
      ),
    ),
  ),
)

-- Where the build that the comparison with another revision runs for a modelled project returns,
-- it has timed every phase that the comparison reports, and every command exited with 0, if those
-- did that were logged before it.
pub performance-phases :
    (name : Text) (p : Project) (tc : Toolchain) (h : Host) (w w' : World) (timings : Timings)
    → lookup name modelled_projects ≡ some p
    → all_exited_0 w.log ≡ true
    → performance_build_of p tc h w ≡ (inr timings, w')
    → Covers (performance_phases_of p) timings × (all_exited_0 w'.log ≡ true)
unfolding TimesPerformance
performance-phases name p tc h w w' timings found clean returned =
    let good : IsGood (Covers (performance_phases_of p)) (inr timings, w') =
      subst (IsGood (Covers (performance_phases_of p))) returned (
        (All-lookup TimesPerformance name p modelled_projects All-TimesPerformance found tc).ends h
          w clean) in
    (good.1, good.0)
