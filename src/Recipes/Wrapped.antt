-- ===== src/Recipes/Wrapped.antt =====
-- The recipes that call the compiler through the wrapper of `_compiler_wrapper`.
use mathlib.Core.Bool.{cond}
use psychicstd.Base.{Bool, true, false, some, if◌then◌else◌, ◌==◌, text_eq, nat_eq, any}
use psychicstd.Base.{List, [], ◌∷◌, ◌++◌, Text, codes, insert, span, reverse, not}
use psychicstd.Recipes.World.{Action, ◌>>=◌, ◌>>◌, read_text, write_text, ◌/◌, replace, occurs}
use psychicstd.Recipes.Core.{
  Toolchain, Timings, Project, project, standard_phases, timed, measure, with_source, env_with,
  jobs_flag, flag, args, on_off, compiler_wrapper, split_words, require,
}
use psychicstd.Recipes.Cmake.{build_type_flag}

-- `f"{version} (full)" if full else version`
abbrev pub full_version : Text → Bool → Text
full_version version full = if full then version ++ codes " (full)" else version

abbrev pub choose : Bool → Text → Text → Text
choose b yes_text no_text = if b then yes_text else no_text

-- `build` of `_googletest`
unfoldable pub googletest_build : Bool → Toolchain → Action Timings
googletest_build full tc =
    with_source true (codes "googletest-1.16.0.tar.gz")
      (codes "https://github.com/google/googletest/archive/refs/tags/v1.16.0.tar.gz")
      (codes "78c676fc63881529bf97bf9d45948d905a66833fbfa5318ea2cd7478cb98f399")
      (choose full (codes "rw-googletest-full-") (codes "rw-googletest-"))
      (λ work. do
        let src = work / codes "googletest-1.16.0"
        wrapper ← compiler_wrapper (work / codes "cxx") tc (args "-DGTEST_HAS_CXXABI_H_=1")
        env ← env_with [] tc
        let configure =
            args "cmake -S . -B build -GNinja"
            ++ (build_type_flag tc
                ∷ flag "-DCMAKE_CXX_COMPILER=" wrapper
                ∷ codes "-DCMAKE_TRY_COMPILE_TARGET_TYPE=STATIC_LIBRARY"
                ∷ codes "-Dgtest_build_tests=ON"
                ∷ flag "-Dgtest_build_samples=" (on_off full)
                ∷ flag "-DBUILD_GMOCK=" (on_off full)
                ∷ flag "-Dgmock_build_tests=" (on_off full)
                ∷ codes "-DINSTALL_GTEST=OFF"
                ∷ [])
        let jobs = jobs_flag tc ∷ []
        measure (
            (codes "configure", timed configure src env)
            ∷ (codes "compile", timed (args "cmake --build build" ++ jobs) src env)
            ∷ (
              codes "run tests",
              timed (args "ctest --test-dir build --output-on-failure" ++ jobs) src env,
            )
            ∷ []))

unfoldable pub googletest : Bool → Project
googletest full =
    project (full_version (codes "1.16.0") full) (googletest_build full) (if full then 90 else 32)
      (if full then 150 else 69) standard_phases

-- `Path(arg).name`
path_name : Text → Text
unfolding nat_eq
path_name path = reverse (span (λ c. not (c == 47)) (reverse path)).0

-- The name by which SCons recognises the compiler.
unfoldable pub godot_wrapper_name : List Text → Text
unfolding path_name occurs
godot_wrapper_name compiler =
    choose (any (λ arg. occurs (codes "clang++") (path_name arg)) compiler) (codes "clang++")
      (codes "cxx")

-- `build` of `_godot`
unfoldable pub godot_build : Toolchain → Action Timings
godot_build tc =
    with_source true (codes "godot-4.6.3-stable.tar.gz")
      (codes "https://github.com/godotengine/godot/archive/refs/tags/4.6.3-stable.tar.gz")
      (codes "fa22b5f974125057087c9ef725eae582dbc5e39385dc377e8d5dbc295b367e1c") (codes "rw-godot-")
      (λ work. do
        let src = work / codes "godot-4.6.3-stable"
        compiler ← split_words tc.cxx
        let wrapper_name = godot_wrapper_name compiler
        wrapper ← compiler_wrapper (work / wrapper_name) tc []
        let target =
            choose (tc.build_type == codes "debug") (codes "template_debug")
              (codes "template_release")
        let suffix =
            codes "linuxbsd."
            ++ (target
                ++ (codes ".x86_64" ++ choose (wrapper_name == codes "clang++") (codes ".llvm") []))
        env ← env_with [] tc
        let command =
            codes "scons"
            ∷ jobs_flag tc
            ∷ codes "platform=linuxbsd"
            ∷ codes "arch=x86_64"
            ∷ flag "target=" target
            ∷ (args
                  "debug_symbols=no modules_enabled_by_default=no disable_3d=yes vulkan=no opengl3=no x11=no wayland=no sdl=no accesskit=no alsa=no pulseaudio=no dbus=no speechd=no fontconfig=no udev=no use_static_cpp=no progress=no import_env_vars=CCACHE_DIR,CCACHE_TEMPDIR,CCACHE_DISABLE"
                ++ (flag "CXX=" wrapper
                    ∷ (codes "bin/obj/core/libcore." ++ (suffix ++ codes ".a"))
                    ∷ []))
        measure ((codes "compile", timed command src env) ∷ []))

unfoldable pub godot : Project
godot = project (codes "4.6.3-stable") godot_build 120 120 (codes "compile" ∷ [])

-- The targets that `_cmake` builds.
unfoldable pub cmake_targets : Bool → List Text
cmake_targets true =
    args
      "cmake ctest cpack CMakeLibTests cmsysTestsCxx testEncoding exit_code print_stdin pseudo_llvm-rc"
cmake_targets false = args "cmsysTestsCxx testEncoding cmjsoncpp cmstd CMakeLib"

-- The tests that `_cmake` runs and leaves out, as regular expressions of `ctest`.
unfoldable pub cmake_tests : Bool → List Text
cmake_tests true =
    codes "-R"
    ∷ codes
        "^(CMakeLib\\.|CMakeOnly\\.|CMake\\.|RunCMake\\.(CommandLine|cmake_language|configure_file|execute_process|file|if|list|math|string)$)"
    ∷ codes "-E"
    ∷ codes "^CMakeLib\\.testUVProcessChain$"
    ∷ []
cmake_tests false =
    codes "-R"
    ∷ codes
        "^kwsys\\.test(Configure|Status|SystemTools|CommandLineArguments1?|Directory|Encoding|SystemInformation)$"
    ∷ codes "-E"
    ∷ codes "$^"
    ∷ []

-- `build` of `_cmake`; an assertion that fails raises.
unfoldable pub cmake_build : Bool → Toolchain → Action Timings
unfolding occurs
cmake_build full tc =
    with_source true (codes "cmake-4.4.2.tar.gz")
      (codes "https://cmake.org/files/v4.4/cmake-4.4.2.tar.gz")
      (codes "1db9e61e60b6e0874c86386340b910382f3c5e75b9fbfb44d122063129a2789d")
      (choose full (codes "rw-cmake-full-") (codes "rw-cmake-"))
      (λ work. do
        let src = work / codes "cmake-4.4.2"
        let allocator_header = src / codes "Utilities/cmjsoncpp/include/json/allocator.h"
        contents ← read_text allocator_header
        let marker = codes "#include <cstring>\n"
        require (occurs marker contents)
        write_text allocator_header
            (replace marker (marker ++ codes "#include <utility>\n") contents)
        let json_reader = src / codes "Utilities/cmjsoncpp/src/lib_json/json_reader.cpp"
        reader ← read_text json_reader
        write_text json_reader (codes "#include <iterator>\n" ++ reader)
        wrapper ←
            compiler_wrapper (work / codes "cxx") tc (args "-D_PSYCHICSTD_COMPATIBILITY_LEVEL=0")
        env ← env_with [] tc
        let configure =
            args "cmake -S . -B build -GNinja"
            ++ (build_type_flag tc
                ∷ flag "-DCMAKE_CXX_COMPILER=" wrapper
                ∷ codes "-DCMAKE_CXX_STANDARD=20"
                ∷ flag "-DCMAKE_USE_OPENSSL=" (on_off full)
                ∷ args "-DCMake_ENABLE_DEBUGGER=OFF -DBUILD_TESTING=ON")
        let jobs = jobs_flag tc
        measure (
            (codes "configure", timed configure src env)
            ∷ (
              codes "compile",
              timed (args "cmake --build build --target" ++ (cmake_targets full ++ (jobs ∷ []))) src
                  env,
            )
            ∷ (
              codes "run tests",
              timed (args "ctest --test-dir build --output-on-failure" ++ (jobs ∷ cmake_tests full))
                  src env,
            )
            ∷ []))

unfoldable pub cmake : Bool → Project
cmake full =
    project (full_version (codes "4.4.2") full) (cmake_build full) (if full then 180 else 65)
      (if full then 180 else 70) standard_phases

-- `build_impl` of `_cppcheck`
unfoldable pub cppcheck_build_impl : Bool → Toolchain → Action Timings
cppcheck_build_impl run_tests tc =
    with_source true (codes "cppcheck-2.21.0.tar.gz")
      (codes "https://github.com/cppcheck-opensource/cppcheck/archive/refs/tags/2.21.0.tar.gz")
      (codes "f028ff75ca5372738f3737c8b3e8611426a6526b6aea2ef01301ab0f5902f044")
      (codes "rw-cppcheck-")
      (λ work. do
        let src = work / codes "cppcheck-2.21.0"
        wrapper ← compiler_wrapper (work / codes "cxx") tc []
        env ← env_with [] tc
        let cppflags =
            codes
              "-Ilib -Ifrontend -Icli -isystem externals -isystem externals/picojson -isystem externals/simplecpp -isystem externals/tinyxml2 -DHAVE_EXECINFO_H=1"
        let make_args =
            jobs_flag tc
            ∷ flag "CXX=" wrapper
            ∷ flag "CPPFLAGS=" cppflags
            ∷ codes "CXXFLAGS="
            ∷ codes "FILESDIR=/usr/local/share/Cppcheck"
            ∷ flag "LDFLAGS=" tc.ldflags
            ∷ flag "LIBS=" tc.libs
            ∷ []
        measure (
            (codes "compile", timed (args "make all" ++ make_args) src env)
            ∷ cond run_tests
                ((
                  codes "run tests",
                  timed (args "./testrunner -x TestSymbolDatabase::getVariableFromVarIdBoundsCheck")
                      src env,
                )
                  ∷ [])
                []))

unfoldable pub cppcheck : Project
cppcheck =
    record (project (codes "2.21.0") (cppcheck_build_impl true) 15 15
      (codes "compile" ∷ codes "run tests" ∷ [])) {
        performance_build = some (cppcheck_build_impl false);
        performance_phases = some (codes "compile" ∷ []);
      }

-- `build` of `_harfbuzz`
unfoldable pub harfbuzz_build : Toolchain → Action Timings
unfolding text_eq
harfbuzz_build tc =
    with_source true (codes "harfbuzz-14.2.1.tar.gz")
      (codes "https://github.com/harfbuzz/harfbuzz/archive/refs/tags/14.2.1.tar.gz")
      (codes "3c2a9006a7e1bf58737e557014d7882c554c628fb379a9f00008f5ea53dbbdfb")
      (codes "rw-harfbuzz-")
      (λ work. do
        let src = work / codes "harfbuzz-14.2.1"
        wrapper ←
            compiler_wrapper (work / codes "cxx") tc (args "-D_PSYCHICSTD_COMPATIBILITY_LEVEL=0")
        base ← env_with [] tc
        let env = insert (codes "CXX") wrapper base
        let configure =
            args "meson setup build"
            ++ (flag "--buildtype=" tc.build_type
                ∷ args
                    "--default-library=static -Dcpp_std=c++20 -Dauto_features=disabled -Dsubset=enabled -Dtests=enabled -Dutilities=disabled")
        measure (
            (codes "configure", timed configure src env)
            ∷ (codes "compile", timed (args "ninja -C build" ++ (jobs_flag tc ∷ [])) src env)
            ∷ (
              codes "run tests",
              timed (args "meson test -C build --print-errorlogs --no-rebuild") src env,
            )
            ∷ []))

unfoldable pub harfbuzz : Project
harfbuzz = project (codes "14.2.1") harfbuzz_build 20 22 (codes "compile" ∷ codes "run tests" ∷ [])
