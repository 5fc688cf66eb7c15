-- ===== src/Recipes/Core.antt =====
-- The parts that the recipes of use_on_realworld_projects/realworld_projects.py share: toolchains
-- and projects, commands, downloads, work directories and the compiler wrapper.
use Prim.Native.String.{String}
use psychicstd.Base.{
  ℕ, zero, suc, ◌+◌, ◌-◌, Bool, true, false, ◌&&◌, not, Option, none, some, inl, inr, ◌⊎◌, ltb,
}
use psychicstd.Base.{
  List, [], ◌∷◌, ◌++◌, Text, codes, Dict, lookup, insert, insert_all, text_eq, nat_eq, ◌==◌,
  if◌then◌else◌, starts_with, contains, decimal, keys, any, map,
}
use psychicstd.Recipes.World.{
  World, Host, Action, NoneType, Content, text, wrapper, ◌>>=◌, ◌>>◌, done, raise, ask, read_files,
  write_files, write_content, ◌/◌, remove_tree, is_occupied, shell_words, words,
}

pub record Toolchain : Type 0 where
  pub cxx : Text
  pub cxxflags : Text
  pub ldflags : Text
  pub libs : Text
  pub build_type : Text
  pub enable_ccache : Bool
  pub jobs : ℕ

-- `dict[str, float]`: the milliseconds of each phase.
abbrev pub Timings : Type 0
Timings = Dict Text ℕ

-- The comments, which are only shown, are left out.
pub record Project : Type 0 where
  pub version : Text
  pub build : Toolchain → Action Timings
  pub expected_seconds : Dict Text ℕ
  pub expected_jobs : ℕ
  pub phases : List Text
  pub performance_build : Option (Toolchain → Action Timings)
  pub performance_phases : Option (List Text)

abbrev pub standard_phases : List Text
standard_phases = codes "configure" ∷ codes "compile" ∷ codes "run tests" ∷ []

-- A project with the defaults of the other fields.
abbrev pub project : Text → (Toolchain → Action Timings) → ℕ → ℕ → List Text → Project
project v b debug release phases = record {
  version = v;
  build = b;
  expected_seconds = (codes "debug", debug) ∷ (codes "release", release) ∷ [];
  expected_jobs = 20;
  phases = phases;
  performance_build = none;
  performance_phases = none;
}

-- `_run` and `_timed`: the milliseconds of the command, or the exception for its exit code.
unfoldable pub timed : List Text → Text → Dict Text Text → Action ℕ
timed cmd cwd env h w =
    let (code, ending) = h.spawn cmd cwd env w.files in
    (
      elim code [ zero ↦ inr ending.0 | suc _ ↦ inl (codes "failed command") ],
      record { files = ending.1; log = w.log ++ ((cmd, code) ∷ []) },
    )

-- The commands of `_timed_many`, which have all been started when the pool is left.
unfoldable pub timed_all : List (List Text) → Text → Dict Text Text → Action (List ℕ)
timed_all [] cwd env h w = (inr [], w)
timed_all (cmd ∷ cmds) cwd env h w =
    let (result, w') = timed cmd cwd env h w in
    let (results, w'') = timed_all cmds cwd env h w' in
    (
      elim result [
        | inl e ↦ inl e
        | inr ms ↦ elim results [ inl e ↦ inl e | inr times ↦ inr (ms ∷ times) ]
      ],
      w'',
    )

-- `_timed_many`
unfoldable pub timed_many : List (List Text) → Text → Dict Text Text → ℕ → Action ℕ
timed_many cmds cwd env jobs = do times ← timed_all cmds cwd env; ask (λ h. h.elapsed jobs times)

-- The value of a dict display whose values are actions, which run in its order.
unfoldable pub measure : Dict Text (Action ℕ) → Action Timings
measure [] = done []
measure ((phase, action) ∷ more) = do ms ← action; rest ← measure more; done ((phase, ms) ∷ rest)

-- The bytes of a file; none of those whose bytes are read is a wrapper.
unfoldable pub read_bytes : Text → Action Text
unfolding text_eq
read_bytes path = do
  files ← read_files
  elim (lookup path files) [
    | some (text s) ↦ done s
    | some (wrapper c f l) ↦ raise path
    | none ↦ raise path
  ]

-- `if not dest.exists(): urllib.request.urlretrieve(url, dest)`
unfoldable pub retrieve_missing : Text → Text → Action NoneType
unfolding text_eq
retrieve_missing url dest = do
  files ← read_files
  download ← ask (λ h. h.retrieve url)
  if contains (keys files) dest
      then done tt
      else elim download [ none ↦ raise url | some s ↦ write_content dest (text s) ]

-- `_fetch`
unfoldable pub fetch : Text → Text → Text → Action NoneType
unfolding text_eq
fetch url dest checksum = do
  retrieve_missing url dest
  bytes ← read_bytes dest
  got ← ask (λ h. h.sha256 bytes)
  if got == checksum then done tt else raise (codes "sha256 mismatch for " ++ dest)

abbrev pub work_root : Text
work_root = codes "PSYCHICSTD_REALWORLD_WORK_ROOT"

-- `prefix.rstrip("-")`
pub strip_dashes : Text → Text
unfolding nat_eq
strip_dashes [] = []
strip_dashes (c ∷ s) = elim (strip_dashes s) [
  | [] ↦ if c == 45 then [] else c ∷ []
  | d ∷ r ↦ c ∷ d ∷ r
]

-- The condition under which the stable directory is accepted. A prefix is its own `Path(prefix).name`
-- where it has no slash and is neither empty nor a dot.
unfoldable pub is_valid_work : Text → Text → Bool
unfolding starts_with text_eq strip_dashes nat_eq
is_valid_work root prefix =
    let name = strip_dashes prefix in
    starts_with root (codes "/")
    && (not (name == [])
        && (not (name == codes ".")
            && (not (name == codes "..")
                && (not (contains prefix 47)
                    && (not (prefix == []) && not (prefix == codes "."))))))

-- `shutil.rmtree(work, ignore_errors=True)` and `work.mkdir(parents=True)`
unfoldable pub empty_directory : Text → Action Text
unfolding remove_tree is_occupied
empty_directory work h w =
    let emptied = remove_tree h work w in
    (if is_occupied work emptied then inl (codes "FileExistsError") else inr work, emptied)

-- `_temporary_directory` up to its `yield`: the directory, which is new or where nothing of an
-- earlier run is left.
unfoldable pub work_directory : Text → Action Text
unfolding text_eq is_valid_work strip_dashes empty_directory
work_directory prefix h w = elim (lookup work_root h.environ) [
  | none ↦ (inr (h.temp_name prefix w.files), w)
  | some root ↦
      if is_valid_work root prefix
      then empty_directory (root / strip_dashes prefix) h w
      else (inl (codes "invalid stable real-world work directory"), w)
]

-- The end of the `with` block, however its body ended: an error of the removal counts unless it is
-- ignored, and then hides one of the body.
unfoldable pub clean_up {ℓ} :
    {A : Type ℓ} → Bool → Text → Host → (Text ⊎ A) × World → (Text ⊎ A) × World
unfolding remove_tree is_occupied
clean_up ignore_cleanup_errors work h (result, w) =
    let removed = remove_tree h work w in
    (
      if is_occupied work removed && not ignore_cleanup_errors
          then inl (codes "OSError")
          else result,
      removed,
    )

-- `_temporary_directory` around a body.
unfoldable pub within {ℓ} : {A : Type ℓ} → Bool → Text → (Text → Action A) → Action A
unfolding work_directory clean_up
within ignore_cleanup_errors prefix body h w =
    let (result, ready) = work_directory prefix h w in
    elim result [
      | inl e ↦ (inl e, ready)
      | inr work ↦ clean_up ignore_cleanup_errors work h (body work h ready)
    ]

-- The members of an archive, written below the directory.
unfoldable pub place : Text → Dict Text Text → Dict Text Content → Dict Text Content
unfolding text_eq
place dir [] files = files
place dir ((name, s) ∷ members) files = place dir members (insert (dir / name) (text s) files)

-- `with tarfile.open(tarball) as t: t.extractall(work)`
unfoldable pub extract : Text → Text → Action NoneType
extract tarball work = do
  bytes ← read_bytes tarball
  members ← ask (λ h. h.unpack bytes)
  files ← read_files
  elim members [ none ↦ raise tarball | some ms ↦ write_files (place work ms files) ]

-- `_env`, with the extra variables
unfoldable pub env_with : Dict Text Text → Toolchain → Action (Dict Text Text)
unfolding text_eq
env_with extra tc = do
  environ ← ask (λ h. h.environ)
  let env = insert_all extra environ
  done (if tc.enable_ccache then env else insert (codes "CCACHE_DISABLE") (codes "1") env)

-- `shlex.split`, raising its `ValueError`
unfoldable pub split_words : Text → Action (List Text)
split_words s = elim (shell_words s) [
  | none ↦ raise (codes "No closing quotation")
  | some ws ↦ done ws
]

-- `_compiler_wrapper`, whose value is the path it is given.
unfoldable pub compiler_wrapper : Text → Toolchain → List Text → Action Text
compiler_wrapper path tc extra = do
  compiler ← split_words tc.cxx
  flags ← split_words tc.cxxflags
  ld ← split_words tc.ldflags
  libs ← split_words tc.libs
  write_content path (wrapper compiler (flags ++ extra) (ld ++ libs))
  done path

-- The command line that the wrapper runs for its arguments.
unfoldable pub wrapper_command : List Text → List Text → List Text → List Text → List Text
unfolding text_eq
wrapper_command compiler cxxflags link_flags args =
    let linking =
      not (any (λ flag. contains args flag) (codes "-c" ∷ codes "-E" ∷ codes "-S" ∷ [])) in
    let argv = compiler ++ (args ++ cxxflags) in if linking then argv ++ link_flags else argv

-- `f"-j{tc.jobs}"`
unfoldable pub jobs_flag : Toolchain → Text
unfolding decimal
jobs_flag tc = codes "-j" ++ decimal tc.jobs

-- `tc.build_type.capitalize()`
unfoldable pub capitalize : Text → Text
capitalize [] = []
capitalize (c ∷ s) = upper c ∷ map lower s
  where
    upper : ℕ → ℕ
    upper c = if not (ltb c 97) && ltb c 123 then c - 32 else c

    lower : ℕ → ℕ
    lower c = if not (ltb c 65) && ltb c 91 then c + 32 else c

-- An option with its value, as in `"-DCMAKE_CXX_COMPILER=" + tc.cxx`.
abbrev pub flag : String → Text → Text
flag name value = codes name ++ value

-- Arguments without spaces.
abbrev pub args : String → List Text
args s = words (codes s)

-- `"ON" if b else "OFF"`
abbrev pub on_off : Bool → Text
on_off b = if b then codes "ON" else codes "OFF"

-- The frame of a recipe: the archive is fetched and, in a temporary directory, unpacked for what
-- the recipe does there.
unfoldable pub with_source :
    Bool → Text → Text → Text → Text → (Text → Action Timings) → Action Timings
with_source ignore_cleanup_errors file url checksum prefix body = do
  rw_dir ← ask (λ h. h.rw_dir)
  fetch url (rw_dir / file) checksum
  within ignore_cleanup_errors prefix (λ work. extract (rw_dir / file) work >> body work)

-- `assert condition`
unfoldable pub require : Bool → Action NoneType
require true = done tt
require false = raise (codes "AssertionError")
