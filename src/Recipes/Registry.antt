-- ===== src/Recipes/Registry.antt =====
-- The registry of the modelled projects: those of `PROJECTS` whose recipes stand in the modules
-- beside this one, by the same names.
use std.Path.{subst}
use psychicstd.Base.{
  ◌≡◌, Bool, true, false, Option, none, some, inr, text_eq, if◌then◌else◌, ◌==◌, arith, ap,
}
use psychicstd.Base.{[], ◌∷◌, Text, codes, Dict, lookup, values, All}
use psychicstd.Recipes.World.{World, Host}
use psychicstd.Recipes.Core.{Toolchain, Project, Timings}
use psychicstd.Recipes.Returns.{IsGood, Covers, all_exited_0}
use psychicstd.Recipes.Cmake.{catch2, date, ctre, flatbuffers, fmt, zancle}
use psychicstd.Recipes.Wrapped.{googletest, godot, cmake, cppcheck, harfbuzz}
use psychicstd.Recipes.Suites.{simdutf, strong_type, trompeloeil, rdfind}
use psychicstd.Recipes.Single.{pocketfft, inipp, nlohmann}
use psychicstd.Recipes.Phases.{
  TimesItsPhases, catch2-TimesItsPhases, cmake-TimesItsPhases, cppcheck-TimesItsPhases,
  ctre-TimesItsPhases, date-TimesItsPhases, flatbuffers-TimesItsPhases, fmt-TimesItsPhases,
  godot-TimesItsPhases, googletest-TimesItsPhases, harfbuzz-TimesItsPhases, inipp-TimesItsPhases,
  nlohmann-TimesItsPhases, pocketfft-TimesItsPhases, rdfind-TimesItsPhases, simdutf-TimesItsPhases,
  strong_type-TimesItsPhases, trompeloeil-TimesItsPhases, zancle-TimesItsPhases,
}

-- The projects whose factories are modelled, by their names in `PROJECTS` and in its order.
unfoldable pub modelled_projects : Dict Text Project
modelled_projects =
    (codes "catch2", catch2)
    ∷ (codes "cmake", cmake false)
    ∷ (codes "cmake-full", cmake true)
    ∷ (codes "cppcheck", cppcheck)
    ∷ (codes "ctre", ctre)
    ∷ (codes "date", date)
    ∷ (codes "flatbuffers", flatbuffers)
    ∷ (codes "fmt", fmt)
    ∷ (codes "godot", godot)
    ∷ (codes "googletest", googletest false)
    ∷ (codes "googletest-full", googletest true)
    ∷ (codes "harfbuzz", harfbuzz)
    ∷ (codes "inipp", inipp)
    ∷ (codes "nlohmann", nlohmann false)
    ∷ (codes "nlohmann-full", nlohmann true)
    ∷ (codes "pocketfft", pocketfft false)
    ∷ (codes "pocketfft-full", pocketfft true)
    ∷ (codes "rdfind", rdfind)
    ∷ (codes "simdutf-dropin", simdutf false (codes "drop-in"))
    ∷ (codes "simdutf", simdutf true (codes "strict"))
    ∷ (codes "strong-type", strong_type)
    ∷ (codes "trompeloeil", trompeloeil)
    ∷ (codes "zancle", zancle)
    ∷ []

value_or {ℓ} : {V : Type ℓ} → V → Option V → V
value_or v none = v
value_or v (some w) = w

pub All-lookup {ℓ κ} :
    {V : Type ℓ} (P : V → Type κ) (k : Text) (v : V) (d : Dict Text V)
    → All P (values d)
    → lookup k d ≡ some v
    → P v
unfolding value_or
All-lookup P k v [] all e = ground arith
All-lookup P k v ((j, w) ∷ d) all e = go (j == k) e (λ f. All-lookup P k v d all.1 f)
  where
    go :
        (b : Bool) → (if b then some w else lookup k d) ≡ some v → (lookup k d ≡ some v → P v) → P v
    go true f later = subst P (ap (value_or w) f) all.0
    go false f later = later f

All-TimesItsPhases : All TimesItsPhases (values modelled_projects)
unfolding modelled_projects
All-TimesItsPhases = (
  catch2-TimesItsPhases,
  (
    cmake-TimesItsPhases false,
    (
      cmake-TimesItsPhases true,
      (
        cppcheck-TimesItsPhases,
        (
          ctre-TimesItsPhases,
          (
            date-TimesItsPhases,
            (
              flatbuffers-TimesItsPhases,
              (
                fmt-TimesItsPhases,
                (
                  godot-TimesItsPhases,
                  (
                    googletest-TimesItsPhases false,
                    (
                      googletest-TimesItsPhases true,
                      (
                        harfbuzz-TimesItsPhases,
                        (
                          inipp-TimesItsPhases,
                          (
                            nlohmann-TimesItsPhases false,
                            (
                              nlohmann-TimesItsPhases true,
                              (
                                pocketfft-TimesItsPhases false,
                                (
                                  pocketfft-TimesItsPhases true,
                                  (
                                    rdfind-TimesItsPhases,
                                    (
                                      simdutf-TimesItsPhases false _,
                                      (
                                        simdutf-TimesItsPhases true _,
                                        (
                                          strong_type-TimesItsPhases,
                                          (trompeloeil-TimesItsPhases, (zancle-TimesItsPhases, tt)),
                                        ),
                                      ),
                                    ),
                                  ),
                                ),
                              ),
                            ),
                          ),
                        ),
                      ),
                    ),
                  ),
                ),
              ),
            ),
          ),
        ),
      ),
    ),
  ),
)

-- Where the build of a modelled project returns, it has timed every phase that the project
-- reports, and every command exited with 0, if those did that were logged before it.
pub modelled_projects-phases :
    (name : Text) (p : Project) (tc : Toolchain) (h : Host) (w w' : World) (timings : Timings)
    → lookup name modelled_projects ≡ some p
    → all_exited_0 w.log ≡ true
    → p.build tc h w ≡ (inr timings, w')
    → Covers p.phases timings × (all_exited_0 w'.log ≡ true)
unfolding TimesItsPhases
modelled_projects-phases name p tc h w w' timings found clean returned =
    let good : IsGood (Covers p.phases) (inr timings, w') =
      subst (IsGood (Covers p.phases)) returned (
        (All-lookup TimesItsPhases name p modelled_projects All-TimesItsPhases found tc).ends h w
          clean) in
    (good.1, good.0)
