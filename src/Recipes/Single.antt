-- ===== src/Recipes/Single.antt =====
-- The recipes of small header-only projects, and nlohmann JSON.
use mathlib.Core.Bool.{cond}
use psychicstd.Base.{
  false, ℕ, zero, suc, ◌+◌, ◌-◌, Bool, true, ◌&&◌, not, Option, none, some, if◌then◌else◌, ◌==◌,
  nat_eq, text_eq, ends_with,
}
use psychicstd.Base.{
  List, [], ◌∷◌, ◌++◌, Text, codes, decimal, Dict, keys, keep, map, sort_texts, contains, drop,
  length, take, span, reverse, starts_with,
}
use psychicstd.Recipes.World.{
  Action, Files, NoneType, ◌>>=◌, ◌>>◌, done, raise, read_files, read_text, write_text, ◌/◌,
  is_under, words, replace,
}
use psychicstd.Recipes.Core.{
  Toolchain, Timings, Project, project, timed, timed_many, measure, with_source, env_with,
  jobs_flag, args,
}
use psychicstd.Recipes.Cmake.{build_type_flag, toolchain_flags}
use psychicstd.Recipes.Wrapped.{full_version}

-- What the parameters of `_single_source_project` say of the sources.
pub record Sources : Type 0 where
  pub source_dir : Text
  pub source_files : List Text
  pub include_dirs : List Text
  pub run_args : List Text
  pub extra_cxxflags : List Text
  pub run_binary : Bool
  pub prepare : Option (Text → Action NoneType)

-- `path.parent`
unfoldable pub parent : Text → Text
unfolding nat_eq
parent path = reverse (drop 1 (span (λ c. not (c == 47)) (reverse path)).1)

-- `str(src / d)`, where a dot adds nothing to a path.
unfoldable pub include_dir : Text → Text → Text
unfolding text_eq
include_dir src d = if d == codes "." then src else src / d

-- The command that compiles one source.
unfoldable pub compile_source : Sources → Toolchain → Text → Text → Text → List Text
compile_source s tc src source binary =
    tc.cxx
    ∷ (words tc.cxxflags
        ++ (s.extra_cxxflags
            ++ (map (λ d. codes "-I" ++ include_dir src d) s.include_dirs
                ++ (source ∷ (words tc.ldflags ++ (words tc.libs ++ (codes "-o" ∷ binary ∷ [])))))))

-- The loop over the sources from the one of this index: the milliseconds of compiling and running.
unfoldable pub compile_each :
    Sources → Toolchain → Text → Text → Dict Text Text → ℕ → List Text → Action (ℕ × ℕ)
compile_each s tc work src env index [] = done (0, 0)
compile_each s tc work src env index (relative ∷ more) = do
  let binary = work / (codes "example-" ++ decimal index)
  let source = src / relative
  compile_ms ← timed (compile_source s tc src source binary) src env
  run_ms ← if s.run_binary then timed (binary ∷ s.run_args) (parent source) env else done 0
  rest ← compile_each s tc work src env (suc index) more
  done (compile_ms + rest.0, run_ms + rest.1)

unfoldable pub run_prepare : Option (Text → Action NoneType) → Text → Action NoneType
run_prepare none src = done tt
run_prepare (some prepare) src = prepare src

-- `build` of `_single_source_project`
unfoldable pub single_source_build :
    Text → Text → Text → Text → Sources → Toolchain → Action Timings
single_source_build name version url checksum s tc =
    with_source false (name ++ (codes "-" ++ (version ++ codes ".tar.gz"))) url checksum
      (codes "rw-" ++ (name ++ codes "-"))
      (λ work. do
        let src = work / s.source_dir
        run_prepare s.prepare src
        env ← env_with [] tc
        times ← compile_each s tc work src env 0 s.source_files
        done
            ((codes "compile", times.0) ∷ cond s.run_binary ((codes "run tests", times.1) ∷ []) []))

unfoldable pub single_source_project : Text → Text → Text → Text → Sources → ℕ → ℕ → Project
single_source_project name version url checksum s debug release =
    project version (single_source_build name version url checksum s) debug release
      (codes "compile" ∷ cond s.run_binary (codes "run tests" ∷ []) [])

-- `_pocketfft`
unfoldable pub pocketfft : Bool → Project
pocketfft full =
    single_source_project (codes "pocketfft") (codes "c90e55b3d529")
      (codes
        "https://github.com/mreineck/pocketfft/archive/c90e55b3d529f8efa40ed01a20de22405f45fc65.tar.gz")
      (codes "2d90016da31a8cc1dd0ac0c89c1f2fb55df8f4ccc3f0386dcfbad09ac6d1c3ba")
      (record {
        source_dir = codes "pocketfft-c90e55b3d529f8efa40ed01a20de22405f45fc65";
        source_files = codes "pocketfft_demo.cc" ∷ [];
        include_dirs = codes "." ∷ [];
        run_args = [];
        extra_cxxflags = codes "-D_PSYCHICSTD_COMPATIBILITY_LEVEL=0" ∷ [];
        run_binary = full;
        prepare = none;
      })
      (if full then 210 else 10) (if full then 30 else 10)

-- `text.count(old)`, where `skip` counts the characters of the occurrence being counted.
count_from : Text → ℕ → Text → ℕ
unfolding starts_with
count_from old skip [] = 0
count_from old (suc skip) (c ∷ s) = count_from old skip s
count_from old zero (c ∷ s) =
    if starts_with (c ∷ s) old
    then suc (count_from old (length (drop 1 old)) s)
    else count_from old 0 s

-- The loop over the replacements of `_inipp`; `none` is the `RuntimeError`.
unfoldable pub replace_once : List (Text × Text) → Text → Option Text
unfolding count_from nat_eq replace
replace_once [] s = some s
replace_once ((old, new) ∷ more) s =
    let rest = replace_once more (replace old new s) in
    if count_from old 0 s == 1 then rest else none

inipp_replacements : List (Text × Text)
inipp_replacements =
    (
      codes "\tvoid WriteMessage(const char *msg) {\n\t\tstd::wcout << msg;\n\t}\n",
      codes "\tvoid WriteMessage(const char *msg) {\n\t\tstd::cout << msg;\n\t}\n",
    )
    ∷ (codes "\n\tvoid WriteMessage(const wchar_t *msg) {\n\t\tstd::wcout << msg;\n\t}\n", [])
    ∷ (
      codes
          "\n\t\tTEST_METHOD(TestParseGenerate1W)\n\t\t{\n\t\t\tstd::basic_ostringstream<wchar_t> os;\n\t\t\tAssert::IsTrue(runtest<wchar_t>(\"test1.ini\", \"test1.output\", os));\n\t\t\tLogger::WriteMessage(os.str().c_str());\n\t\t}\n",
      [],
    )
    ∷ (
      codes
          "\n\t\tTEST_METHOD(TestParseGenerate2W)\n\t\t{\n\t\t\tstd::basic_ostringstream<wchar_t> os;\n\t\t\tAssert::IsTrue(runtest<wchar_t>(\"test2.ini\", \"test2.output\", os));\n\t\t\tLogger::WriteMessage(os.str().c_str());\n\t\t}\n",
      [],
    )
    ∷ (codes "\ttest.TestParseGenerate1W();\n", [])
    ∷ (codes "\ttest.TestParseGenerate2W();\n", [])
    ∷ []

-- `prepare` of `_inipp`
unfoldable pub inipp_prepare : Text → Action NoneType
unfolding replace_once inipp_replacements
inipp_prepare src = do
  let source = src / codes "unittest/unittest.cpp"
  contents ← read_text source
  elim (replace_once inipp_replacements contents) [
    | none ↦ raise (codes "unexpected inipp unit-test source")
    | some s ↦ write_text source s
  ]

-- `_inipp`
unfoldable pub inipp : Project
inipp =
    single_source_project (codes "inipp") (codes "1.0.13")
      (codes "https://github.com/mcmtroffaes/inipp/archive/refs/tags/1.0.13.tar.gz")
      (codes "656c5d82db48f4da8ed70482839ad0da95ea1d576a3c890c272e9b9e0fb89571")
      (record {
        source_dir = codes "inipp-1.0.13";
        source_files = args "unittest/headertest.cpp unittest/unittest.cpp";
        include_dirs = codes "inipp" ∷ [];
        run_args = [];
        extra_cxxflags = [];
        run_binary = true;
        prepare = some inipp_prepare;
      })
      10 10

abbrev nlohmann_test_exclude : Text
nlohmann_test_exclude = codes "unicode|cbor|msgpack|algorithms|cmake_fetch|cmake_import"

-- `sorted(directory.glob("*.cpp"))`, the paths behind the directory.
unfoldable pub cpp_files : Text → Files → List Text
unfolding is_under ends_with text_eq nat_eq
cpp_files directory files = sort_texts (
    map (drop (suc (length directory))) (
      keep
        (λ path.
          is_under directory path
          && (ends_with path (codes ".cpp")
              && not (contains (drop (suc (length directory)) path) 47)))
        (keys files)))

-- The command that compiles one of the documented examples.
unfoldable pub example_command : Toolchain → Text → Text → Text → Text → List Text
example_command tc work src directory name =
    let stem = take (length name - 4) name in
    tc.cxx
    ∷ (words tc.cxxflags
        ++ (codes "-I"
            ∷ (src / codes "include")
            ∷ (directory / name)
            ∷ (words tc.ldflags
                ++ (words tc.libs ++ (codes "-o" ∷ (work / (stem ++ codes "_bin")) ∷ [])))))

-- The phases of `_nlohmann` that only the full project has.
unfoldable pub nlohmann_full_phases :
    Toolchain → Text → Text → Dict Text Text → Dict Text (Action ℕ)
nlohmann_full_phases tc work src env =
    (
      codes "run tests",
      timed
          (args "ctest --test-dir build --output-on-failure -E"
            ++ (nlohmann_test_exclude ∷ jobs_flag tc ∷ []))
          src env,
    )
    ∷ (
      codes "examples",
      (do
        let directory = src / codes "docs/mkdocs/docs/examples"
        files ← read_files
        timed_many (map (example_command tc work src directory) (cpp_files directory files)) src env
            tc.jobs),
    )
    ∷ []

-- `build` of `_nlohmann`
unfoldable pub nlohmann_build : Bool → Toolchain → Action Timings
nlohmann_build full tc =
    with_source true (codes "nlohmann-3.12.0.tar.gz")
      (codes "https://github.com/nlohmann/json/archive/refs/tags/v3.12.0.tar.gz")
      (codes "4b92eb0c06d10683f7447ce9406cb97cd4b453be18d7279320f7b2f025c10187")
      (codes "rw-nlohmann-")
      (λ work. do
        let src = work / codes "json-3.12.0"
        env ← env_with [] tc
        let configure =
            args "cmake -S . -B build -GNinja"
            ++ (build_type_flag tc
                ∷ (toolchain_flags tc (tc.cxxflags ++ codes " -D_PSYCHICSTD_COMPATIBILITY_LEVEL=0")
                      tc.libs
                    ++ args "-DBUILD_SHARED_LIBS=OFF -DJSON_TestStandards=20 -DJSON_BuildTests=ON"))
        measure (
            (codes "configure", timed configure src env)
            ∷ (codes "compile", timed (args "cmake --build build" ++ (jobs_flag tc ∷ [])) src env)
            ∷ cond full (nlohmann_full_phases tc work src env) []))

unfoldable pub nlohmann : Bool → Project
nlohmann full =
    project (full_version (codes "3.12.0") full) (nlohmann_build full) (if full then 57 else 20)
      (if full then 60 else 35)
      (codes "configure"
        ∷ codes "compile"
        ∷ cond full (codes "run tests" ∷ codes "examples" ∷ []) [])
