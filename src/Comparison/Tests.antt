-- ===== src/Comparison/Tests.antt =====
-- Runs of the comparison, and instances of the theorems on it.
use psychicstd.Base.{
  ℕ, ◌≡◌, refl, true, false, some, inr, ◌⊎◌, List, map, [], ◌∷◌, ◌++◌, Text, codes, Dict, text_eq,
  nat_eq, ◌==◌, ℕ_discrete, span, split_lines, strip, starts_with, if◌then◌else◌,
}
use psychicstd.Recipes.World.{
  World, Host, Action, remove_tree, is_occupied, ◌>>=◌, done, raise, ask, read_files, write_files,
  write_content, read_text, text,
}
use psychicstd.Recipes.Core.{
  Toolchain, Timings, timed, measure, read_bytes, retrieve_missing, fetch, work_directory,
  empty_directory, clean_up, within, extract, place, env_with, with_source,
}
use psychicstd.Recipes.Returns.{all_exited_0}
use psychicstd.Recipes.Cmake.{ctre, ctre_build}
use psychicstd.Recipes.Single.{parent}
use psychicstd.Recipes.Performance.{performance_build_of, performance_phases_of}
use psychicstd.Recipes.Registry.{modelled_projects}
use psychicstd.Comparison.Runtime.{
  runtime_sources, manifest_names, runtime_library, build_library, compile_objects, checked,
  make_directory, object_command, archive_path, archive_command, sys_tc,
}
use psychicstd.Comparison.Matrix.{
  Samples, build_matrix, build_rounds, build_variants, add_build, append_times, empty_row,
  empty_samples, or_key_error, chosen_phases,
}
use psychicstd.Comparison.Counts.{IsFull}
use psychicstd.Comparison.Total.{build_matrix-total}
use psychicstd.Comparison.Archive.{runtime_library-archive, exited_0}
use psychicstd.Comparison.Projects.{build_matrix-modelled}
use psychicstd.Base.{lookup, after_prefix, none, nat_eq}
use psychicstd.Recipes.World.{is_under}
use psychicstd.Comparison.Refs.{
  Request, refs_matrix, refs_samples, worktree_add, worktree_remove, compare_to_ref,
}
use psychicstd.Comparison.Sides.{compare_to_ref_cleans}

-- Each download is its own checksum, the archives are empty, and each command takes 5 ms.
abbrev calm_host : Host
calm_host = record {
  environ = [];
  sysname = codes "Linux";
  rw_dir = codes "/rw";
  stuck = λ path. false;
  retrieve = λ url. some (codes "7d4b30d0bdd8864a47cceb2ab8e7c4d1846f0ec62383f8c45122435d32f19530");
  sha256 = λ bytes. bytes;
  unpack = λ bytes. some [];
  temp_name = λ prefix files. codes "/tmp/" ++ prefix;
  spawn = λ cmd cwd env files. (0, (5, files));
  elapsed = λ jobs times. 5;
}

abbrev empty_world : World
empty_world = record { files = []; log = [] }

abbrev both : Dict Text Toolchain
both =
    (codes "system", sys_tc (codes "g++") (codes "debug") false 4)
    ∷ (codes "clang", sys_tc (codes "clang++") (codes "debug") false 4)
    ∷ []

-- A build that runs nothing, and takes longer with clang.
abbrev steady : Toolchain → Action Timings
steady tc = done ((codes "compile", if (tc.cxx == codes "g++") then 7 else 9) ∷ [])

abbrev steady_run : (Text ⊎ Samples) × World
steady_run = build_matrix both steady 2 ctre (some (codes "compile" ∷ [])) calm_host empty_world

steady_run-samples :
    steady_run.0
    ≡ inr (
        (codes "system", (codes "compile", 7 ∷ 7 ∷ []) ∷ [])
        ∷ (codes "clang", (codes "compile", 9 ∷ 9 ∷ []) ∷ [])
        ∷ [])
unfolding build_matrix build_rounds build_variants add_build append_times empty_row empty_samples
    or_key_error chosen_phases sys_tc ◌>>=◌ done raise text_eq ℕ_discrete
steady_run-samples = refl

build_matrix-total_example :
    (samples : Samples) × (w' : World) × (build_matrix both steady 2 ctre
        (some (codes "compile" ∷ []))
        calm_host
        empty_world
      ≡ (inr samples, w'))
    × IsFull 2 (codes "compile" ∷ []) both samples
unfolding chosen_phases done text_eq ℕ_discrete
build_matrix-total_example =
    build_matrix-total both steady 2 ctre (some (codes "compile" ∷ [])) calm_host empty_world
      (refl, tt) (refl, (refl, tt))
      (λ tc v.
        (((codes "compile", if (tc.cxx == codes "g++") then 7 else 9) ∷ []), v, refl, (refl, tt)))

-- A tree with a manifest of two sources.
abbrev tree : World
tree = record {
  files =
      (
        codes "/r/cmake/psychicstd-runtime-sources.txt",
        text (codes "# runtime\nsrc/atomic.cpp\n\n  src/ios.cpp\n"),
      )
      ∷ [];
  log = [];
}

abbrev tree_sources : List Text
tree_sources = codes "/r/src/atomic.cpp" ∷ codes "/r/src/ios.cpp" ∷ []

runtime_library-archive_example :
    (codes "/tmp/psychicstd-runtime-/libpsychicstd.a"
      ≡ archive_path (codes "/tmp/psychicstd-runtime-"))
    × ((runtime_library (codes "g++") (codes "/r/include") calm_host tree).1.log
        ≡ exited_0 (
            map
              (object_command (codes "g++") (codes "/r/include") (codes "/tmp/psychicstd-runtime-"))
              tree_sources
            ++ (archive_command (codes "/tmp/psychicstd-runtime-") tree_sources ∷ [])))
unfolding runtime_library runtime_sources manifest_names build_library compile_objects checked
    make_directory archive_path ◌>>=◌ ask done raise read_files read_text parent timed split_lines
    strip starts_with text_eq ℕ_discrete span
runtime_library-archive_example =
    runtime_library-archive (codes "g++") (codes "/r/include") calm_host tree
      (runtime_library (codes "g++") (codes "/r/include") calm_host tree).1
      (codes "/r/src/atomic.cpp") (codes "/r/src/ios.cpp" ∷ [])
      (codes "/tmp/psychicstd-runtime-/libpsychicstd.a") refl refl

abbrev ctre_run : (Text ⊎ Samples) × World
ctre_run =
    build_matrix both (performance_build_of ctre) 2 ctre (some (performance_phases_of ctre))
      calm_host empty_world

abbrev twice : Dict Text (List ℕ)
twice = (codes "compile", 5 ∷ 5 ∷ []) ∷ []

build_matrix-modelled_example :
    IsFull 2
      (performance_phases_of ctre)
      both
      ((codes "system", twice) ∷ (codes "clang", twice) ∷ [])
    × (all_exited_0 ctre_run.1.log ≡ true)
unfolding ctre ctre_build with_source ◌>>=◌ ask fetch retrieve_missing read_files read_bytes done
    raise write_content write_files within work_directory empty_directory clean_up remove_tree
    is_occupied extract place env_with measure timed text_eq ℕ_discrete modelled_projects
    performance_build_of performance_phases_of build_matrix build_rounds build_variants add_build
    append_times empty_row empty_samples or_key_error chosen_phases sys_tc
build_matrix-modelled_example =
    build_matrix-modelled (codes "ctre") ctre both 2 calm_host empty_world ctre_run.1
      ((codes "system", twice) ∷ (codes "clang", twice) ∷ []) refl (refl, (refl, tt)) refl refl

abbrev request : Request
request = record {
  name = codes "ctre";
  project = ctre;
  ref = codes "origin/main";
  compiler = codes "g++";
  build_type = codes "debug";
  reps = 2;
  jobs = 4;
  enable_ccache = false;
  platform = codes "linux";
  repo = codes "/r";
}

abbrev added_world : World
added_world = record {
  files = tree.files;
  log = (worktree_add (codes "/tmp/psychicstd-rw-/ref") (codes "origin/main"), 0) ∷ [];
}

compare_to_ref_cleans_example :
    let worktree = codes "/tmp/psychicstd-rw-/ref" in
    let ran = refs_matrix request worktree calm_host added_world in
    let kept = refs_samples request worktree calm_host tree in
    ((code : ℕ) × (kept.1.log ≡ ran.1.log ++ ((worktree_remove worktree, code) ∷ [])))
    × (kept.0 ≡ ran.0)
    × (lookup
          (codes "/tmp/psychicstd-rw-/base.json")
          (compare_to_ref
            (λ side. [])
            (λ compiler. done none)
            (codes "python3")
            request
            calm_host
            tree).1.files
        ≡ none)
unfolding checked timed ask ◌>>=◌ is_under starts_with after_prefix text_eq nat_eq ℕ_discrete
compare_to_ref_cleans_example =
    compare_to_ref_cleans (λ side. []) (λ compiler. done none) (codes "python3") request
      (codes "/tmp/psychicstd-rw-/ref") (codes "/tmp/psychicstd-rw-/base.json") calm_host tree
      added_world 5 refl refl refl
