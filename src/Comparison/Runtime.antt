-- ===== src/Comparison/Runtime.antt =====
-- The toolchains of scripts/compare_realworld_to_ref.py and the compiled runtime that psychicstd's
-- needs: `_runtime_sources`, `_runtime_library`, `sys_tc` and `psy_tc`.
use psychicstd.Base.{
  ℕ, Bool, false, ◌&&◌, not, List, [], ◌∷◌, ◌++◌, Text, codes, map, keep, keys, contains,
  starts_with, strip, split_lines, text_eq, if◌then◌else◌, ◌==◌,
}
use psychicstd.Compliance.Classify.{stem_suffix}
use psychicstd.Recipes.World.{Action, ◌>>=◌, ◌>>◌, ask, done, read_files, read_text, ◌/◌}
use psychicstd.Recipes.Core.{Toolchain, timed, args}
use psychicstd.Recipes.Single.{parent}

-- The sources that are looked for where the runtime has no manifest.
unfoldable pub fallback_names : List Text
fallback_names =
    args
      "atomic.cpp cerr.cpp cin.cpp clog.cpp condition_variable.cpp cout.cpp filesystem.cpp ios.cpp istream.cpp iostream.cpp iostream_macos.cpp locale.cpp ostream.cpp random.cpp regex.cpp sstream_instantiations.cpp stdio_streambuf.cpp stdexcept.cpp stop_token.cpp system_error.cpp thread.cpp string.cpp string_instantiations.cpp"

-- The names in a manifest: the lines that are neither blank nor comments.
unfoldable pub manifest_names : Text → List Text
unfolding split_lines strip starts_with text_eq
manifest_names contents =
    keep (λ name. not (name == []) && not (starts_with name (codes "#")))
      (map strip (split_lines false contents))

-- `_runtime_sources`
unfoldable pub runtime_sources : Text → Action (List Text)
unfolding parent text_eq
runtime_sources include = do
  let root = parent include
  let manifest = root / codes "cmake/psychicstd-runtime-sources.txt"
  files ← read_files
  if contains (keys files) manifest
      then (read_text manifest >>= λ contents.
          done (map (λ name. root / name) (manifest_names contents)))
      else done (
          keep (λ path. contains (keys files) path)
            (map (λ name. root / codes "src" / name) fallback_names))

-- `subprocess.run(command, check=True)`, in the directory and the environment of the script.
unfoldable pub checked : List Text → Action ℕ
checked command = do environ ← ask (λ h. h.environ); timed command (codes ".") environ

-- The object file of a source in the directory.
unfoldable pub object_path : Text → Text → Text
object_path work source = work / ((stem_suffix source).0 ++ codes ".o")

unfoldable pub object_command : Text → Text → Text → Text → List Text
object_command compiler include work source =
    compiler
    ∷ codes "-std=c++20"
    ∷ codes "-nostdinc++"
    ∷ codes "-isystem"
    ∷ include
    ∷ codes "-fvisibility=hidden"
    ∷ codes "-fPIC"
    ∷ codes "-c"
    ∷ source
    ∷ codes "-o"
    ∷ object_path work source
    ∷ []

unfoldable pub archive_path : Text → Text
archive_path work = work / codes "libpsychicstd.a"

unfoldable pub archive_command : Text → List Text → List Text
archive_command work sources =
    codes "ar" ∷ codes "rcs" ∷ archive_path work ∷ map (object_path work) sources

-- The loop over the sources.
unfoldable pub compile_objects : Text → Text → Text → List Text → Action ℕ
compile_objects compiler include work [] = done 0
compile_objects compiler include work (source ∷ sources) = do
  checked (object_command compiler include work source)
  compile_objects compiler include work sources

-- What `_runtime_library` does with the sources, in the directory that it makes.
unfoldable pub build_library : Text → Text → Text → List Text → Action Text
build_library compiler include work sources = do
  compile_objects compiler include work sources
  checked (archive_command work sources)
  done (archive_path work)

-- A directory of `tempfile`, which is kept as long as the script runs.
unfoldable pub make_directory : Text → Action Text
make_directory prefix h w = ask (λ host. host.temp_name prefix w.files) h w

-- `_runtime_library`
unfoldable pub runtime_library : Text → Text → Action Text
runtime_library compiler include = do
  sources ← runtime_sources include
  elim sources [
    | [] ↦ done []
    | source ∷ more ↦ make_directory (codes "psychicstd-runtime-") >>= λ work.
        build_library compiler include work (source ∷ more)
  ]

-- `sys_tc`, with the job count that is given or detected
unfoldable pub sys_tc : Text → Text → Bool → ℕ → Toolchain
sys_tc compiler build_type enable_ccache jobs = record {
  cxx = compiler;
  cxxflags = codes "-std=c++20";
  ldflags = [];
  libs = [];
  build_type = build_type;
  enable_ccache = enable_ccache;
  jobs = jobs;
}

-- `PSY_LDFLAGS` and `PSY_LIBS`
unfoldable pub psy_ldflags : Text → Text
unfolding text_eq
psy_ldflags platform =
    if platform == codes "darwin" then codes "-nostdlib++" else codes "-nodefaultlibs"

unfoldable pub psy_libs : Text → Text
unfolding text_eq
psy_libs platform =
    if platform == codes "darwin"
    then codes "-lc++abi"
    else codes "-lsupc++ -latomic -lm -lc -lgcc_s -lgcc"

-- `psy_tc`, on the platform that `sys.platform` names
unfoldable pub psy_tc : Text → Text → Text → Text → Bool → ℕ → Action Toolchain
unfolding text_eq
psy_tc platform compiler include build_type enable_ccache jobs = do
  runtime ← runtime_library compiler include
  done (record {
    cxx = compiler;
    cxxflags = codes "-std=c++20 -nostdinc++ -isystem " ++ include;
    ldflags = psy_ldflags platform;
    libs = if runtime == [] then psy_libs platform else runtime ++ (codes " " ++ psy_libs platform);
    build_type = build_type;
    enable_ccache = enable_ccache;
    jobs = jobs;
  })
