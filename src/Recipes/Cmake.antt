-- ===== src/Recipes/Cmake.antt =====
-- The recipes that are configured by CMake with the toolchain's flags on the command line.
use psychicstd.Base.{
  true, keep, ◌&&◌, ◌||◌, Bool, false, not, if◌then◌else◌, ◌==◌, text_eq, ends_with,
}
use psychicstd.Base.{List, [], ◌∷◌, ◌++◌, Text, codes, decimal}
use psychicstd.Recipes.World.{
  Action, Content, text, wrapper, ◌>>=◌, ◌>>◌, ask, read_files, write_files, read_text, write_text,
  ◌/◌, replace, occurs, is_under,
}
use psychicstd.Recipes.Core.{
  Toolchain, Timings, Project, project, standard_phases, timed, measure, with_source, env_with,
  jobs_flag, capitalize, flag, args,
}

-- `-DCMAKE_CXX_COMPILER` and the flags behind it, in their usual order.
unfoldable pub toolchain_flags : Toolchain → Text → Text → List Text
toolchain_flags tc cxxflags libs =
    flag "-DCMAKE_CXX_COMPILER=" tc.cxx
    ∷ flag "-DCMAKE_CXX_FLAGS=" cxxflags
    ∷ flag "-DCMAKE_EXE_LINKER_FLAGS=" tc.ldflags
    ∷ flag "-DCMAKE_CXX_STANDARD_LIBRARIES=" libs
    ∷ codes "-DCMAKE_TRY_COMPILE_TARGET_TYPE=STATIC_LIBRARY"
    ∷ []

unfoldable pub build_type_flag : Toolchain → Text
build_type_flag tc = flag "-DCMAKE_BUILD_TYPE=" (capitalize tc.build_type)

-- `build` of `_catch2`
unfoldable pub catch2_build : Toolchain → Action Timings
catch2_build tc =
    with_source true (codes "Catch2-v3.8.0.tar.gz")
      (codes "https://github.com/catchorg/Catch2/archive/refs/tags/v3.8.0.tar.gz")
      (codes "1ab2de20460d4641553addfdfe6acd4109d871d5531f8f519a52ea4926303087")
      (codes "rw-catch2-")
      (λ work. do
        let src = work / codes "Catch2-3.8.0"
        env ← env_with [] tc
        let configure =
            args "cmake -B build --preset basic-tests -GNinja"
            ++ (build_type_flag tc
                ∷ (toolchain_flags tc tc.cxxflags tc.libs
                    ++ args "-DCATCH_ENABLE_WERROR=OFF -DBUILD_SHARED_LIBS=OFF"))
        let jobs = jobs_flag tc ∷ []
        measure (
            (codes "configure", timed configure src env)
            ∷ (codes "compile", timed (args "cmake --build build" ++ jobs) src env)
            ∷ (
              codes "run tests",
              timed (args "ctest --test-dir build --output-on-failure -E ApprovalTests" ++ jobs) src
                  env,
            )
            ∷ []))

unfoldable pub catch2 : Project
catch2 = project (codes "3.8.0") catch2_build 10 13 (codes "compile" ∷ codes "run tests" ∷ [])

-- The tests that `build` of `_date` deletes.
pub is_dropped_test : Text → Text × Content → Bool
unfolding is_under ends_with occurs text_eq
is_dropped_test src (path, wrapper c f l) = false
is_dropped_test src (path, text contents) =
    is_under (src / codes "test") path
    && (ends_with path (codes ".cpp")
        && (occurs (codes "using namespace std::chrono") contents
            || ends_with path (codes "/custom_clock.pass.cpp")))

-- `build` of `_date`
unfoldable pub date_build : Toolchain → Action Timings
date_build tc =
    with_source false (codes "date-v3.0.4.tar.gz")
      (codes "https://github.com/HowardHinnant/date/archive/refs/tags/v3.0.4.tar.gz")
      (codes "56e05531ee8994124eeb498d0e6a5e1c3b9d4fccbecdf555fe266631368fb55f") (codes "rw-date-")
      (λ work. do
        let src = work / codes "date-3.0.4"
        files ← read_files
        write_files (keep (λ f. not (is_dropped_test src f)) files)
        contents ← read_text (src / codes "CMakeLists.txt")
        write_text (src / codes "CMakeLists.txt") (
            replace (codes "add_custom_target( testit COMMAND ${CMAKE_CTEST_COMMAND} )")
              (codes "add_custom_target( testit )") contents)
        env ← env_with [] tc
        let configure =
            args "cmake -S . -B build -GNinja"
            ++ (build_type_flag tc
                ∷ (flag "-DCMAKE_CXX_COMPILER=" tc.cxx
                    ∷ flag "-DCMAKE_CXX_FLAGS=" tc.cxxflags
                    ∷ flag "-DCMAKE_EXE_LINKER_FLAGS=" tc.ldflags
                    ∷ flag "-DCMAKE_CXX_STANDARD_LIBRARIES=" tc.libs
                    ∷ codes "-DCMAKE_CXX_STANDARD=20"
                    ∷ codes "-DCMAKE_TRY_COMPILE_TARGET_TYPE=STATIC_LIBRARY"
                    ∷ args
                        "-DBUILD_SHARED_LIBS=OFF -DBUILD_TZ_LIB=ON -DCOMPILE_WITH_C_LOCALE=ON -DENABLE_DATE_TESTING=ON -DUSE_SYSTEM_TZ_DB=ON"))
        let jobs = jobs_flag tc ∷ []
        measure (
            (codes "configure", timed configure src env)
            ∷ (codes "compile", timed (args "cmake --build build --target testit" ++ jobs) src env)
            ∷ (
              codes "run tests",
              timed (args "ctest --test-dir build --output-on-failure" ++ jobs) src env,
            )
            ∷ []))

unfoldable pub date : Project
date = project (codes "3.0.4") date_build 15 15 (codes "compile" ∷ codes "run tests" ∷ [])

-- `build` of `_ctre`
unfoldable pub ctre_build : Toolchain → Action Timings
ctre_build tc =
    with_source true (codes "ctre-v3.11.0.tar.gz")
      (codes
        "https://github.com/hanickadot/compile-time-regular-expressions/archive/refs/tags/v3.11.0.tar.gz")
      (codes "7d4b30d0bdd8864a47cceb2ab8e7c4d1846f0ec62383f8c45122435d32f19530") (codes "rw-ctre-")
      (λ work. do
        let src = work / codes "compile-time-regular-expressions-3.11.0"
        env ← env_with [] tc
        let configure =
            args "cmake -S . -B build -GNinja"
            ++ (build_type_flag tc
                ∷ (toolchain_flags tc (tc.cxxflags ++ codes " -D_PSYCHICSTD_COMPATIBILITY_LEVEL=0")
                      tc.libs
                    ++ args "-DCTRE_BUILD_TESTS=ON -DCTRE_BUILD_PACKAGE=OFF"))
        measure (
            (codes "configure", timed configure src env)
            ∷ (
              codes "compile",
              timed (args "cmake --build build --target ctre-test" ++ (jobs_flag tc ∷ [])) src env,
            )
            ∷ []))

unfoldable pub ctre : Project
ctre = project (codes "3.11.0") ctre_build 5 5 (codes "compile" ∷ [])

-- `build` of `_flatbuffers`
unfoldable pub flatbuffers_build : Toolchain → Action Timings
flatbuffers_build tc =
    with_source true (codes "flatbuffers-v25.12.19.tar.gz")
      (codes "https://github.com/google/flatbuffers/archive/refs/tags/v25.12.19.tar.gz")
      (codes "f81c3162b1046fe8b84b9a0dbdd383e24fdbcf88583b9cb6028f90d04d90696a")
      (codes "rw-flatbuffers-")
      (λ work. do
        let src = work / codes "flatbuffers-25.12.19"
        let sample = src / codes "samples/sample_binary.cpp"
        contents ← read_text sample
        write_text sample (codes "#include <cstdio>\n" ++ contents)
        env ← env_with [] tc
        let configure =
            args "cmake -S . -B build -GNinja"
            ++ (build_type_flag tc
                ∷ (toolchain_flags tc tc.cxxflags tc.libs
                    ++ args
                        "-DFLATBUFFERS_CPP_STD=20 -DFLATBUFFERS_BUILD_TESTS=ON -DFLATBUFFERS_BUILD_GRPCTEST=OFF -DFLATBUFFERS_BUILD_BENCHMARKS=OFF -DFLATBUFFERS_BUILD_SHAREDLIB=OFF -DFLATBUFFERS_INSTALL=OFF"))
        let jobs = jobs_flag tc ∷ []
        measure (
            (codes "configure", timed configure src env)
            ∷ (codes "compile", timed (args "cmake --build build" ++ jobs) src env)
            ∷ (
              codes "run tests",
              timed (args "ctest --test-dir build --output-on-failure" ++ jobs) src env,
            )
            ∷ []))

unfoldable pub flatbuffers : Project
flatbuffers = project (codes "25.12.19") flatbuffers_build 30 30 standard_phases

-- What `flags` is on the system, with the addition for Darwin.
unfoldable pub on_darwin : Text → Text → Action Text
unfolding text_eq
on_darwin extra flags = ask (λ h. if h.sysname == codes "Darwin" then flags ++ extra else flags)

-- `build` of `_fmt`
unfoldable pub fmt_build : Toolchain → Action Timings
fmt_build tc =
    with_source true (codes "fmt-12.1.0.tar.gz")
      (codes "https://github.com/fmtlib/fmt/archive/refs/tags/12.1.0.tar.gz")
      (codes "ea7de4299689e12b6dddd392f9896f08fb0777ac7168897a244a6d6085043fea") (codes "rw-fmt-")
      (λ work. do
        let src = work / codes "fmt-12.1.0"
        cxxflags ← on_darwin (codes " -Wno-invalid-specialization") tc.cxxflags
        env ← env_with [] tc
        let configure =
            args "cmake -S . -B build -GNinja"
            ++ (build_type_flag tc
                ∷ (toolchain_flags tc cxxflags tc.libs
                    ++ args
                        "-DFMT_DOC=OFF -DFMT_TEST=ON -DFMT_INSTALL=OFF -DBUILD_SHARED_LIBS=OFF"))
        measure (
            (codes "configure", timed configure src env)
            ∷ (codes "compile", timed (args "cmake --build build" ++ (jobs_flag tc ∷ [])) src env)
            ∷ (
              codes "run tests",
              timed (args "ctest --test-dir build --output-on-failure -j" ++ (decimal tc.jobs ∷ []))
                  src env,
            )
            ∷ []))

unfoldable pub fmt : Project
fmt = project (codes "12.1.0") fmt_build 12 25 (codes "compile" ∷ codes "run tests" ∷ [])

-- `build` of `_zancle`
unfoldable pub zancle_build : Toolchain → Action Timings
zancle_build tc =
    with_source true (codes "zancle-9c272d6.tar.gz")
      (codes
        "https://github.com/vittorioromeo/zancle/archive/9c272d60134d568f35fbad9891f3b436de87cc28.tar.gz")
      (codes "f1e868c458d0c422df6d84d11b2e60718bbae10913e4c6182505eac8307461dd")
      (codes "rw-zancle-")
      (λ work. do
        let src = work / codes "zancle-9c272d60134d568f35fbad9891f3b436de87cc28"
        write_text (src / codes "include/SFML/Base/InitializerList.hpp")
            (codes "#pragma once\n#include <initializer_list>\n")
        env ← env_with [] tc
        let configure =
            args "cmake -S . -B build -GNinja"
            ++ (build_type_flag tc
                ∷ (toolchain_flags tc tc.cxxflags tc.libs
                    ++ args
                        "-DBUILD_SHARED_LIBS=OFF -DSFML_BUILD_GLUTILS=OFF -DSFML_BUILD_WINDOW=OFF -DSFML_BUILD_GRAPHICS=OFF -DSFML_BUILD_IMGUI=OFF -DSFML_BUILD_AUDIO=OFF -DSFML_BUILD_NETWORK=OFF -DSFML_BUILD_EXAMPLES=OFF -DSFML_BUILD_TEST_SUITE=OFF -DSFML_ENABLE_STACK_TRACES=OFF -DSFML_ENABLE_LIFETIME_TRACKING=OFF -DSFML_INSTALL_PKGCONFIG_FILES=OFF"))
        measure (
            (codes "configure", timed configure src env)
            ∷ (
              codes "compile",
              timed (args "cmake --build build --target sfml-system" ++ (jobs_flag tc ∷ [])) src
                  env,
            )
            ∷ []))

unfoldable pub zancle : Project
zancle = project (codes "9c272d6") zancle_build 4 4 (codes "compile" ∷ [])
