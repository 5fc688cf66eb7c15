-- ===== src/Recipes/Suites.antt =====
-- More recipes: those with their own test programs, several downloads or an autoconf build.
use mathlib.Core.Bool.{cond}
use psychicstd.Base.{true, ℕ, ◌+◌, Bool, none, some, ◌==◌, text_eq}
use psychicstd.Base.{List, [], ◌∷◌, ◌++◌, Text, codes, Dict, lookup}
use psychicstd.Recipes.World.{
  Action, NoneType, ◌>>=◌, ◌>>◌, ask, done, raise, read_files, write_content, ◌/◌,
}
use psychicstd.Recipes.Core.{
  Toolchain, Timings, Project, project, standard_phases, timed, measure, with_source, env_with,
  jobs_flag, flag, args, fetch, within, extract,
}
use psychicstd.Recipes.Cmake.{build_type_flag, toolchain_flags, on_darwin}
use psychicstd.Recipes.Wrapped.{choose}

-- `build` of `_simdutf`
unfoldable pub simdutf_build : Bool → Toolchain → Action Timings
simdutf_build strict tc =
    with_source true (codes "simdutf-f542909a257bb3a9947f8e9fcaaba68a3e1f3b8b.tar.gz")
      (codes
        "https://github.com/simdutf/simdutf/archive/f542909a257bb3a9947f8e9fcaaba68a3e1f3b8b.tar.gz")
      (codes "fc6053688d67dc6b90f4dfaea12c06d8fd8254fc56fe62b9ef00942ef19cdf33")
      (codes "rw-simdutf-")
      (λ work. do
        let src = work / codes "simdutf-f542909a257bb3a9947f8e9fcaaba68a3e1f3b8b"
        libs ← on_darwin (codes " -liconv") tc.libs
        env ← env_with [] tc
        let level = choose strict (codes "0") (codes "2")
        let configure =
            args "cmake -S . -B build-with-psychic -GNinja"
            ++ (build_type_flag tc
                ∷ codes "-DSIMDUTF_FAST_TESTS=On"
                ∷ codes "-DSIMDUTF_TOOLS=On"
                ∷ flag "-DCMAKE_CXX_COMPILER=" tc.cxx
                ∷ codes "-DSIMDUTF_CXX_STANDARD=20"
                ∷ flag "-DCMAKE_CXX_FLAGS="
                    (tc.cxxflags ++ (codes " -D_PSYCHICSTD_COMPATIBILITY_LEVEL=" ++ level))
                ∷ flag "-DCMAKE_EXE_LINKER_FLAGS=" tc.ldflags
                ∷ flag "-DCMAKE_CXX_STANDARD_LIBRARIES=" libs
                ∷ args "-DCMAKE_TRY_COMPILE_TARGET_TYPE=STATIC_LIBRARY -DBUILD_SHARED_LIBS=OFF")
        let jobs = jobs_flag tc ∷ []
        measure (
            (codes "configure", timed configure src env)
            ∷ (codes "compile", timed (args "cmake --build build-with-psychic" ++ jobs) src env)
            ∷ (
              codes "run tests",
              timed (args "ctest --test-dir build-with-psychic --output-on-failure" ++ jobs) src
                  env,
            )
            ∷ []))

unfoldable pub simdutf : Bool → Text → Project
simdutf strict strict_label =
    project (codes "master260724 (" ++ (strict_label ++ codes ")")) (simdutf_build strict) 27 20
      (codes "compile" ∷ codes "run tests" ∷ [])

-- `shutil.copyfile`
unfoldable pub copy_file : Text → Text → Action NoneType
unfolding text_eq
copy_file from to = do
  files ← read_files
  elim (lookup from files) [ none ↦ raise from | some content ↦ write_content to content ]

-- The frame of the recipes that also fetch Catch2's single header and put it below `src`.
unfoldable pub with_catch_header :
    Text
    → Text
    → Text
    → Text
    → Text
    → Text
    → Text
    → Text
    → Text
    → (Text → Text → Action Timings)
    → Action Timings
with_catch_header file url checksum prefix source_dir catch_file catch_url catch_checksum bundled
      body =
    do
      rw_dir ← ask (λ h. h.rw_dir)
      fetch url (rw_dir / file) checksum
      fetch catch_url (rw_dir / catch_file) catch_checksum
      within true prefix (λ work. do
        extract (rw_dir / file) work
        copy_file (rw_dir / catch_file) (work / source_dir / bundled)
        body work (work / source_dir))

-- `build` of `_strong_type`
unfoldable pub strong_type_build : Toolchain → Action Timings
strong_type_build tc =
    with_catch_header (codes "strong-type-v16.tar.gz")
      (codes "https://github.com/rollbear/strong_type/archive/refs/tags/v16.tar.gz")
      (codes "b0582ff8ebff7a909464216e4686cdba90a5924dc261672aa6ed0407cd53f5f1")
      (codes "rw-strong-type-") (codes "strong_type-16") (codes "catch2-v2.13.9.hpp")
      (codes "https://github.com/catchorg/Catch2/releases/download/v2.13.9/catch.hpp")
      (codes "27da57c7a06d09be8dd81fab7246b79e7892b6ae7e4e49ba8631f1d5a955e3fc")
      (codes "build/test/catch/catch2/catch.hpp")
      (λ work src. do
        env ← env_with [] tc
        let configure =
            args "cmake -S . -B build -GNinja"
            ++ (build_type_flag tc
                ∷ (toolchain_flags tc tc.cxxflags tc.libs
                    ++ args
                        "-DCMAKE_CXX_STANDARD=20 -DCMAKE_DISABLE_FIND_PACKAGE_fmt=ON -DSTRONG_TYPE_UNIT_TEST=ON"))
        measure (
            (codes "configure", timed configure src env)
            ∷ (
              codes "compile",
              timed (args "cmake --build build --target self_test" ++ (jobs_flag tc ∷ [])) src env,
            )
            ∷ (codes "run tests", timed ((src / codes "build/test/self_test") ∷ []) src env)
            ∷ []))

unfoldable pub strong_type : Project
strong_type = project (codes "v16") strong_type_build 12 12 standard_phases

-- `sum(_timed(command, src, env) for command in commands)`
unfoldable pub timed_sum : List (List Text) → Text → Dict Text Text → Action ℕ
timed_sum [] cwd env = done 0
timed_sum (command ∷ commands) cwd env = do
  ms ← timed command cwd env
  rest ← timed_sum commands cwd env
  done (ms + rest)

-- `build` of `_trompeloeil`
unfoldable pub trompeloeil_build : Toolchain → Action Timings
trompeloeil_build tc =
    with_catch_header (codes "trompeloeil-v49.tar.gz")
      (codes "https://github.com/rollbear/trompeloeil/archive/refs/tags/v49.tar.gz")
      (codes "2523571fb7920b2813cbc23b46e60294aba8ead7eba434bfec69c24408615593")
      (codes "rw-trompeloeil-") (codes "trompeloeil-49") (codes "catch2-v2.13.7.hpp")
      (codes "https://github.com/catchorg/Catch2/releases/download/v2.13.7/catch.hpp")
      (codes "ea379c4a3cb5799027b1eb451163dff065a3d641aaba23bf4e24ee6b536bd9bc")
      (codes "build/test/catch/catch2/catch.hpp")
      (λ work src. do
        env ← env_with [] tc
        let configure =
            args "cmake -S . -B build -GNinja"
            ++ (build_type_flag tc
                ∷ (toolchain_flags tc (tc.cxxflags ++ codes " -include limits") tc.libs
                    ++ args
                        "-DCXX_STANDARD=20 -DTROMPELOEIL_BUILD_TESTS=ON -DTROMPELOEIL_INSTALL_TARGETS=OFF"))
        let compile_command =
            args "cmake --build build --target self_test thread_terror custom_recursive_mutex"
            ++ (jobs_flag tc ∷ [])
        let test_commands =
            ((src / codes "build/test/self_test") ∷ [])
            ∷ ((src / codes "build/test/thread_terror") ∷ [])
            ∷ ((src / codes "build/test/custom_recursive_mutex") ∷ [])
            ∷ []
        measure (
            (codes "configure", timed configure src env)
            ∷ (codes "compile", timed compile_command src env)
            ∷ (codes "run tests", timed_sum test_commands src env)
            ∷ []))

unfoldable pub trompeloeil : Project
trompeloeil = project (codes "v49") trompeloeil_build 25 25 standard_phases

rdfind_opt_flag : Dict Text Text
rdfind_opt_flag = (codes "debug", codes "-O0") ∷ (codes "release", codes "-O2") ∷ []

-- `_RDFIND_OPT_FLAG[tc.build_type]`
unfoldable pub rdfind_flag : Toolchain → Action Text
unfolding text_eq rdfind_opt_flag
rdfind_flag tc = elim (lookup tc.build_type rdfind_opt_flag) [
  | none ↦ raise (codes "KeyError")
  | some f ↦ done f
]

-- `build` of `_rdfind`, whose `fromcommit` is always true.
unfoldable pub rdfind_build : Toolchain → Action Timings
unfolding text_eq
rdfind_build tc =
    with_source true (codes "rdfind-cac59ade85de364074a5ef1898096117c21570cc.tar.gz")
      (codes
        "https://github.com/pauldreik/rdfind/archive/cac59ade85de364074a5ef1898096117c21570cc.tar.gz")
      (codes "49d2b1458e91168aea5540d438ac91ca0d97f651d587632d21aca3c91fae1202")
      (codes "rw-rdfind-")
      (λ work. do
        let src = work / codes "rdfind-cac59ade85de364074a5ef1898096117c21570cc"
        opt_flag ← rdfind_flag tc
        env ←
            env_with
              ((codes "CXX", tc.cxx)
                ∷ (
                  codes "CXXFLAGS",
                  tc.cxxflags
                      ++ (codes " " ++ (opt_flag ++ codes " -D_PSYCHICSTD_COMPATIBILITY_LEVEL=0")),
                )
                ∷ [])
              tc
        timed (args "./bootstrap.sh") src env
        let configure =
            args "./configure"
            ++ (cond (tc.build_type == codes "release") (args "--disable-assert") []
                ++ (cond (tc.ldflags == []) [] (flag "LDFLAGS=" tc.ldflags ∷ [])
                    ++ cond (tc.libs == []) [] (flag "LIBS=" tc.libs ∷ [])))
        measure (
            (codes "configure", timed configure src env)
            ∷ (codes "compile", timed (codes "make" ∷ jobs_flag tc ∷ []) src env)
            ∷ (codes "run tests", timed (args "make check") src env)
            ∷ []))

unfoldable pub rdfind : Project
rdfind = project (codes "commit cac59ade85de") rdfind_build 6 4 standard_phases
