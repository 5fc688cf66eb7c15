-- ===== src/Recipes/Tests.antt =====
-- Runs of recipes, and instances of the theorems on them.
use psychicstd.Base.{
  ℕ, ◌*◌, ◌≤◌, ◌≡◌, refl, true, false, some, inr, ◌⊎◌, text_eq, nat_eq, ℕ_discrete,
}
use psychicstd.Base.{[], ◌∷◌, ◌++◌, Text, codes, lookup}
use psychicstd.Recipes.World.{
  World, Host, Action, is_under, remove_tree, is_occupied, ◌>>=◌, ◌>>◌, done, raise, ask,
  read_files, write_files, write_content, text, ◌/◌, shell_words,
}
use psychicstd.Recipes.Core.{
  Toolchain, Timings, timed, measure, read_bytes, retrieve_missing, fetch, work_directory,
  empty_directory, clean_up, within, place, extract, env_with, with_source, wrapper_command,
  capitalize,
}
use psychicstd.Recipes.Parallel.{parallelism_of, parallelism_of-bounds}
use psychicstd.Recipes.Returns.{Covers, all_exited_0}
use psychicstd.Recipes.Cmake.{ctre, ctre_build}
use psychicstd.Recipes.Wrapped.{cppcheck, cppcheck_build_impl}
use psychicstd.Recipes.Performance.{performance_build_of, performance_phases_of, performance-phases}
use psychicstd.Recipes.Core.{compiler_wrapper, split_words}
use psychicstd.Base.{false, starts_with, nat_eq, contains, arith, ◌==◌, inl}
use mathlib.Core.Path.{subst}
use psychicstd.Recipes.World.{is_under}
use psychicstd.Recipes.Registry.{modelled_projects, modelled_projects-phases}
use psychicstd.Recipes.Verified.{modelled_projects-verified, pinned_checksums}
use psychicstd.Recipes.Refusal.{has_failed}

abbrev gcc : Toolchain
gcc = record {
  cxx = codes "g++";
  cxxflags = codes "-std=c++20 -O0";
  ldflags = [];
  libs = [];
  build_type = codes "debug";
  enable_ccache = false;
  jobs = 4;
}

-- Each download is its own checksum, the archives are empty, and each command takes 5 ms.
abbrev calm_host : Host
calm_host = record {
  environ = [];
  sysname = codes "Linux";
  rw_dir = codes "/rw";
  stuck = λ path. false;
  retrieve = λ url. some (codes "7d4b30d0bdd8864a47cceb2ab8e7c4d1846f0ec62383f8c45122435d32f19530");
  sha256 = λ bytes. bytes;
  unpack = λ bytes. some [];
  temp_name = λ prefix files. codes "/tmp/" ++ prefix;
  spawn = λ cmd cwd env files. (0, (5, files));
  elapsed = λ jobs times. 5;
}

-- The same, but each download has been tampered with, whatever was published there.
abbrev tampered_host : Host
tampered_host = record calm_host { retrieve = λ url. some (codes "tampered") }

abbrev empty_world : World
empty_world = record { files = []; log = [] }

abbrev ctre_run : (Text ⊎ Timings) × World
ctre_run = ctre.build gcc calm_host empty_world

ctre_run-times : ctre_run.0 ≡ inr ((codes "configure", 5) ∷ (codes "compile", 5) ∷ [])
unfolding ctre ctre_build with_source ◌>>=◌ ask fetch retrieve_missing read_files read_bytes done
    raise write_content write_files within work_directory empty_directory clean_up remove_tree
    is_occupied extract place env_with measure timed text_eq ℕ_discrete
ctre_run-times = refl

modelled_projects-phases_example :
    Covers (ctre.phases) ((codes "configure", 5) ∷ (codes "compile", 5) ∷ [])
    × (all_exited_0 ctre_run.1.log ≡ true)
unfolding ctre ctre_build with_source ◌>>=◌ ask fetch retrieve_missing read_files read_bytes done
    raise write_content write_files within work_directory empty_directory clean_up remove_tree
    is_occupied extract place env_with measure timed text_eq ℕ_discrete modelled_projects
modelled_projects-phases_example =
    modelled_projects-phases (codes "ctre") ctre gcc calm_host empty_world ctre_run.1
      ((codes "configure", 5) ∷ (codes "compile", 5) ∷ []) refl refl refl

abbrev archive : Text
archive = codes "/rw/ctre-v3.11.0.tar.gz"

-- An archive that was tampered with before.
abbrev old_world : World
old_world = record { files = (archive, text (codes "old")) ∷ []; log = [] }

only_text : (k path t s : Text) → lookup path ((k, text t) ∷ []) ≡ some (text s) → t ≡ s
only_text k path t s e = ground (arith, e)

some_text : (t s : Text) → some t ≡ some s → t ≡ s
some_text t s e = ground (arith, e)

untrusted :
    (contains pinned_checksums (codes "old") ≡ false)
    × (contains pinned_checksums (codes "tampered") ≡ false)
unfolding text_eq ℕ_discrete
untrusted = (refl, refl)

modelled_projects-verified_example :
    ((ctre.build gcc tampered_host old_world).1.log ≡ [])
    × (has_failed (ctre.build gcc tampered_host old_world).0 ≡ true)
unfolding modelled_projects text_eq ℕ_discrete
modelled_projects-verified_example =
    modelled_projects-verified (codes "ctre") ctre gcc tampered_host old_world
      (λ path s e.
        subst (λ t. contains pinned_checksums t ≡ false) (only_text archive path (codes "old") s e)
          untrusted.0)
      (λ url s e.
        subst (λ t. contains pinned_checksums t ≡ false) (some_text (codes "tampered") s e)
          untrusted.1)
      refl

-- A body that leaves a file in the directory and returns.
abbrev untidy : Text → Action ℕ
untidy work = do write_content (work / codes "left") (text []); done 3

abbrev stuck_host : Host
stuck_host = record calm_host { stuck = λ path. path == codes "/tmp/rw-x-/left" }

-- The file that cannot be removed stays, and its error only counts where it is not ignored.
stuck_run :
    (within true (codes "rw-x-") untidy stuck_host empty_world
      ≡ (inr 3, record { files = (codes "/tmp/rw-x-/left", text []) ∷ []; log = [] }))
    × ((within false (codes "rw-x-") untidy stuck_host empty_world).0 ≡ inl (codes "OSError"))
    × (within false (codes "rw-x-") untidy calm_host empty_world ≡ (inr 3, empty_world))
unfolding within work_directory empty_directory clean_up remove_tree is_occupied write_content
    read_files write_files ◌>>=◌ done text_eq nat_eq ℕ_discrete starts_with is_under
stuck_run = (refl, refl, refl)

parallelism_of-bounds_example :
    let p = parallelism_of (some 16) 8589934592 in
    (1 ≤ p.jobs) × ((p.jobs ≤ p.logical_cpus) × ((p.jobs ≡ 1) ⊎ (p.jobs * 1610612736 ≤ 8589934592)))
parallelism_of-bounds_example = parallelism_of-bounds (some 16) 8589934592

-- The flags of the toolchain stay last, and those for linking stay off a compilation.
wrapper_command_compiles :
    wrapper_command (codes "g++" ∷ []) (codes "-O2" ∷ []) (codes "-lm" ∷ []) (codes "-c" ∷ [])
    ≡ (codes "g++" ∷ codes "-c" ∷ codes "-O2" ∷ [])
unfolding wrapper_command text_eq ℕ_discrete
wrapper_command_compiles = refl

shell_words_quotes :
    shell_words (codes "a 'b c'\td") ≡ some (codes "a" ∷ codes "b c" ∷ codes "d" ∷ [])
unfolding shell_words nat_eq ℕ_discrete
shell_words_quotes = refl

capitalize_debug : capitalize (codes "debug") ≡ codes "Debug"
unfolding capitalize
capitalize_debug = refl

-- A host whose downloads are the archive of cppcheck.
abbrev cppcheck_host : Host
cppcheck_host = record calm_host {
  retrieve = λ url. some (codes "f028ff75ca5372738f3737c8b3e8611426a6526b6aea2ef01301ab0f5902f044");
}

abbrev cppcheck_run : (Text ⊎ Timings) × World
cppcheck_run = performance_build_of cppcheck gcc cppcheck_host empty_world

performance-phases_example :
    Covers (performance_phases_of cppcheck) ((codes "compile", 5) ∷ [])
    × (all_exited_0 cppcheck_run.1.log ≡ true)
unfolding performance_build_of cppcheck cppcheck_build_impl with_source ◌>>=◌ ask fetch
    retrieve_missing read_files read_bytes done raise write_content write_files within
    work_directory empty_directory clean_up remove_tree is_occupied extract place env_with
    compiler_wrapper split_words shell_words measure timed text_eq nat_eq ℕ_discrete
    modelled_projects
performance-phases_example =
    performance-phases (codes "cppcheck") cppcheck gcc cppcheck_host empty_world cppcheck_run.1
      ((codes "compile", 5) ∷ []) refl refl refl
