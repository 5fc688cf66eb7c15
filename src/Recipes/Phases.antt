-- ===== src/Recipes/Phases.antt =====
-- What the recipes return: the phases that their projects declare.
use mathlib.Core.Bool.{cond}
use psychicstd.Base.{Text, [], ◌∷◌, codes, refl, ℕ, Bool, true, false, text_eq, ℕ_discrete, nat_eq}
use psychicstd.Recipes.Laws.{
  with_source-Returns, env_with-measure, timed-Returns, compiler_wrapper-Returns,
  split_words-Returns, env_with-Returns, measure-Covers,
}
use psychicstd.Recipes.Returns.{
  Returns, Covers, Anything, then-Returns, done-Returns, ask-Returns, read_files-Returns,
  write_files-Returns, read_text-Returns, write_content-Returns,
}
use psychicstd.Recipes.Core.{Toolchain, Project}
use psychicstd.Recipes.Cmake.{
  catch2, catch2_build, date, date_build, ctre, ctre_build, flatbuffers, flatbuffers_build, fmt,
  fmt_build, zancle, zancle_build, on_darwin,
}
use psychicstd.Recipes.Wrapped.{
  googletest, googletest_build, godot, godot_build, cmake, cmake_build, cppcheck,
  cppcheck_build_impl, harfbuzz, harfbuzz_build,
}
use psychicstd.Recipes.Suites.{
  simdutf, simdutf_build, strong_type, strong_type_build, trompeloeil, trompeloeil_build, rdfind,
  rdfind_build,
}
use psychicstd.Recipes.Single.{
  Sources, single_source_project, single_source_build, run_prepare, pocketfft, inipp, nlohmann,
  nlohmann_build, nlohmann_full_phases,
}
use psychicstd.Recipes.Steps.{
  require-Returns, with_catch_header-Returns, timed_sum-Returns, timed_many-Returns,
  rdfind_flag-Returns, compile_each-Returns, inipp_prepare-Returns,
}

-- For every toolchain, `build` gives a time for each phase that the project reports, and returns
-- only if every command exited with 0.
unfoldable pub TimesItsPhases : Project → Type 0
TimesItsPhases p = (tc : Toolchain) → Returns (Covers p.phases) (p.build tc)

pub catch2-TimesItsPhases : TimesItsPhases catch2
unfolding catch2 catch2_build text_eq ℕ_discrete TimesItsPhases
catch2-TimesItsPhases tc = with_source-Returns _ _ _ _ _ _ _ (λ work.
    env_with-measure catch2.phases _ _ _ (λ env. (
      (timed-Returns _ _ _, (timed-Returns _ _ _, (timed-Returns _ _ _, tt))),
      (refl, (refl, tt)),
    )))

pub date-TimesItsPhases : TimesItsPhases date
unfolding date date_build text_eq ℕ_discrete TimesItsPhases
date-TimesItsPhases tc = with_source-Returns _ _ _ _ _ _ _ (λ work.
    then-Returns _ _ _ (read_files-Returns) (λ x. then-Returns _ _ _ (write_files-Returns _) (λ x.
      then-Returns _ _ _ (read_text-Returns _) (λ x.
        then-Returns _ _ _ (write_content-Returns _ _) (λ x.
          env_with-measure date.phases _ _ _ (λ env. (
            (timed-Returns _ _ _, (timed-Returns _ _ _, (timed-Returns _ _ _, tt))),
            (refl, (refl, tt)),
          )))))))

pub ctre-TimesItsPhases : TimesItsPhases ctre
unfolding ctre ctre_build text_eq ℕ_discrete TimesItsPhases
ctre-TimesItsPhases tc = with_source-Returns _ _ _ _ _ _ _ (λ work.
    env_with-measure ctre.phases _ _ _
      (λ env. ((timed-Returns _ _ _, (timed-Returns _ _ _, tt)), (refl, tt))))

pub flatbuffers-TimesItsPhases : TimesItsPhases flatbuffers
unfolding flatbuffers flatbuffers_build text_eq ℕ_discrete TimesItsPhases
flatbuffers-TimesItsPhases tc = with_source-Returns _ _ _ _ _ _ _ (λ work.
    then-Returns _ _ _ (read_text-Returns _) (λ x.
      then-Returns _ _ _ (write_content-Returns _ _) (λ x.
        env_with-measure flatbuffers.phases _ _ _ (λ env. (
          (timed-Returns _ _ _, (timed-Returns _ _ _, (timed-Returns _ _ _, tt))),
          (refl, (refl, (refl, tt))),
        )))))

pub fmt-TimesItsPhases : TimesItsPhases fmt
unfolding fmt fmt_build text_eq ℕ_discrete TimesItsPhases on_darwin
fmt-TimesItsPhases tc = with_source-Returns _ _ _ _ _ _ _ (λ work.
    then-Returns _ _ _ (ask-Returns _) (λ x. env_with-measure fmt.phases _ _ _ (λ env. (
      (timed-Returns _ _ _, (timed-Returns _ _ _, (timed-Returns _ _ _, tt))),
      (refl, (refl, tt)),
    ))))

pub zancle-TimesItsPhases : TimesItsPhases zancle
unfolding zancle zancle_build text_eq ℕ_discrete TimesItsPhases
zancle-TimesItsPhases tc = with_source-Returns _ _ _ _ _ _ _ (λ work.
    then-Returns _ _ _ (write_content-Returns _ _) (λ x.
      env_with-measure zancle.phases _ _ _
        (λ env. ((timed-Returns _ _ _, (timed-Returns _ _ _, tt)), (refl, tt)))))

pub godot-TimesItsPhases : TimesItsPhases godot
unfolding godot godot_build text_eq ℕ_discrete TimesItsPhases
godot-TimesItsPhases tc = with_source-Returns _ _ _ _ _ _ _ (λ work.
    then-Returns _ _ _ (split_words-Returns _) (λ x.
      then-Returns _ _ _ (compiler_wrapper-Returns _ _ _) (λ x.
        env_with-measure godot.phases _ _ _ (λ env. ((timed-Returns _ _ _, tt), (refl, tt))))))

pub strong_type-TimesItsPhases : TimesItsPhases strong_type
unfolding strong_type strong_type_build text_eq ℕ_discrete TimesItsPhases
strong_type-TimesItsPhases tc = with_catch_header-Returns _ _ _ _ _ _ _ _ _ _ _ (λ work src.
    env_with-measure strong_type.phases _ _ _ (λ env. (
      (timed-Returns _ _ _, (timed-Returns _ _ _, (timed-Returns _ _ _, tt))),
      (refl, (refl, (refl, tt))),
    )))

pub googletest-TimesItsPhases : (full : Bool) → TimesItsPhases (googletest full)
unfolding googletest googletest_build text_eq ℕ_discrete TimesItsPhases
googletest-TimesItsPhases full tc = with_source-Returns _ _ _ _ _ _ _ (λ work.
    then-Returns _ _ _ (compiler_wrapper-Returns _ _ _) (λ x.
      env_with-measure (googletest full).phases _ _ _ (λ env. (
        (timed-Returns _ _ _, (timed-Returns _ _ _, (timed-Returns _ _ _, tt))),
        (refl, (refl, (refl, tt))),
      ))))

pub cmake-TimesItsPhases : (full : Bool) → TimesItsPhases (cmake full)
unfolding cmake cmake_build text_eq ℕ_discrete TimesItsPhases
cmake-TimesItsPhases full tc = with_source-Returns _ _ _ _ _ _ _ (λ work.
    then-Returns _ _ _ (read_text-Returns _) (λ x. then-Returns _ _ _ (require-Returns _) (λ x.
      then-Returns _ _ _ (write_content-Returns _ _) (λ x.
        then-Returns _ _ _ (read_text-Returns _) (λ x.
          then-Returns _ _ _ (write_content-Returns _ _) (λ x.
            then-Returns _ _ _ (compiler_wrapper-Returns _ _ _) (λ x.
              env_with-measure (cmake full).phases _ _ _ (λ env. (
                (timed-Returns _ _ _, (timed-Returns _ _ _, (timed-Returns _ _ _, tt))),
                (refl, (refl, (refl, tt))),
              )))))))))

pub simdutf-TimesItsPhases : (strict : Bool) (label : Text) → TimesItsPhases (simdutf strict label)
unfolding simdutf simdutf_build text_eq ℕ_discrete TimesItsPhases on_darwin
simdutf-TimesItsPhases strict label tc = with_source-Returns _ _ _ _ _ _ _ (λ work.
    then-Returns _ _ _ (ask-Returns _) (λ x.
      env_with-measure (simdutf strict label).phases _ _ _ (λ env. (
        (timed-Returns _ _ _, (timed-Returns _ _ _, (timed-Returns _ _ _, tt))),
        (refl, (refl, tt)),
      ))))

pub cppcheck-TimesItsPhases : TimesItsPhases cppcheck
unfolding cppcheck cppcheck_build_impl text_eq ℕ_discrete TimesItsPhases
cppcheck-TimesItsPhases tc = with_source-Returns _ _ _ _ _ _ _ (λ work.
    then-Returns _ _ _ (compiler_wrapper-Returns _ _ _) (λ x.
      env_with-measure cppcheck.phases _ _ _
        (λ env. ((timed-Returns _ _ _, (timed-Returns _ _ _, tt)), (refl, (refl, tt))))))

-- The smaller build of cppcheck times the phases of a performance comparison.
pub cppcheck-performance :
    (tc : Toolchain) → Returns (Covers (codes "compile" ∷ [])) (cppcheck_build_impl false tc)
unfolding cppcheck_build_impl text_eq ℕ_discrete
cppcheck-performance tc = with_source-Returns _ _ _ _ _ _ _ (λ work.
    then-Returns _ _ _ (compiler_wrapper-Returns _ _ _) (λ x.
      env_with-measure (codes "compile" ∷ []) _ _ _
        (λ env. ((timed-Returns _ _ _, tt), (refl, tt)))))

pub harfbuzz-TimesItsPhases : TimesItsPhases harfbuzz
unfolding harfbuzz harfbuzz_build text_eq ℕ_discrete TimesItsPhases
harfbuzz-TimesItsPhases tc = with_source-Returns _ _ _ _ _ _ _ (λ work.
    then-Returns _ _ _ (compiler_wrapper-Returns _ _ _) (λ x.
      env_with-measure harfbuzz.phases _ _ _ (λ env. (
        (timed-Returns _ _ _, (timed-Returns _ _ _, (timed-Returns _ _ _, tt))),
        (refl, (refl, tt)),
      ))))

pub trompeloeil-TimesItsPhases : TimesItsPhases trompeloeil
unfolding trompeloeil trompeloeil_build text_eq ℕ_discrete TimesItsPhases
trompeloeil-TimesItsPhases tc = with_catch_header-Returns _ _ _ _ _ _ _ _ _ _ _ (λ work src.
    env_with-measure trompeloeil.phases _ _ _ (λ env. (
      (timed-Returns _ _ _, (timed-Returns _ _ _, (timed_sum-Returns _ _ _, tt))),
      (refl, (refl, (refl, tt))),
    )))

pub rdfind-TimesItsPhases : TimesItsPhases rdfind
unfolding rdfind rdfind_build text_eq ℕ_discrete TimesItsPhases
rdfind-TimesItsPhases tc = with_source-Returns _ _ _ _ _ _ _ (λ work.
    then-Returns _ _ _ (rdfind_flag-Returns _) (λ opt_flag.
      then-Returns _ _ _ (env_with-Returns _ _) (λ env.
        then-Returns _ _ _ (timed-Returns _ _ _) (λ ms.
          measure-Covers rdfind.phases _
            (timed-Returns _ _ _, (timed-Returns _ _ _, (timed-Returns _ _ _, tt)))
            (refl, (refl, (refl, tt)))))))

single-Covers :
    (run_binary : Bool) (compile_ms run_ms : ℕ)
    → Covers
        (codes "compile" ∷ cond run_binary (codes "run tests" ∷ []) [])
        ((codes "compile", compile_ms) ∷ cond run_binary ((codes "run tests", run_ms) ∷ []) [])
unfolding text_eq ℕ_discrete
single-Covers true compile_ms run_ms = (refl, (refl, tt))
single-Covers false compile_ms run_ms = (refl, tt)

-- A project of single sources times its phases, if its preparation starts no command that fails.
pub single_source_project-TimesItsPhases :
    (name version url checksum : Text) (s : Sources) (debug release : ℕ)
    → ((src : Text) → Returns Anything (run_prepare s.prepare src))
    → TimesItsPhases (single_source_project name version url checksum s debug release)
unfolding single_source_project single_source_build TimesItsPhases
single_source_project-TimesItsPhases name version url checksum s debug release prepared tc =
    with_source-Returns _ _ _ _ _ _ _ (λ work. then-Returns _ _ _ (prepared _) (λ x.
      then-Returns _ _ _ (env_with-Returns _ _) (λ env.
        then-Returns _ _ _ (compile_each-Returns s tc _ _ _ _ s.source_files)
          (λ times. done-Returns _ _ (single-Covers s.run_binary times.0 times.1)))))

pub pocketfft-TimesItsPhases : (full : Bool) → TimesItsPhases (pocketfft full)
unfolding pocketfft run_prepare
pocketfft-TimesItsPhases full =
    single_source_project-TimesItsPhases _ _ _ _ _ _ _ (λ src. done-Returns _ _ tt)

pub inipp-TimesItsPhases : TimesItsPhases inipp
unfolding inipp run_prepare
inipp-TimesItsPhases =
    single_source_project-TimesItsPhases _ _ _ _ _ _ _ (λ src. inipp_prepare-Returns src)

pub nlohmann-TimesItsPhases : (full : Bool) → TimesItsPhases (nlohmann full)
unfolding nlohmann nlohmann_build nlohmann_full_phases text_eq ℕ_discrete TimesItsPhases
nlohmann-TimesItsPhases true tc = with_source-Returns _ _ _ _ _ _ _ (λ work.
    env_with-measure (nlohmann true).phases _ _ _ (λ env. (
      (
        timed-Returns _ _ _,
        (
          timed-Returns _ _ _,
          (
            timed-Returns _ _ _,
            (then-Returns _ _ _ read_files-Returns (λ files. timed_many-Returns _ _ _ _), tt),
          ),
        ),
      ),
      (refl, (refl, (refl, (refl, tt)))),
    )))
nlohmann-TimesItsPhases false tc = with_source-Returns _ _ _ _ _ _ _ (λ work.
    env_with-measure (nlohmann false).phases _ _ _
      (λ env. ((timed-Returns _ _ _, (timed-Returns _ _ _, tt)), (refl, (refl, tt)))))
