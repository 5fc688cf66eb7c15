-- ===== src/Comparison/Refs.antt =====
-- The run of scripts/compare_realworld_to_ref.py: the worktree of the reference, the four variants,
-- and the two files that scripts/_benchmark_diff.py compares. The words of a JSON text, the
-- compiler's version and the Python interpreter are parameters.
use psychicstd.Base.{
  ℕ, Bool, Option, none, some, inl, inr, List, [], ◌∷◌, ◌++◌, Text, codes, Dict, lookup, insert,
  text_eq, decimal, if◌then◌else◌,
}
use psychicstd.Recipes.World.{Action, ◌>>=◌, ◌>>◌, text, write_content, remove_tree, ◌/◌}
use psychicstd.Recipes.Core.{Project}
use psychicstd.Recipes.Performance.{performance_build_of, performance_phases_of}
use psychicstd.Comparison.Runtime.{checked, make_directory, sys_tc, psy_tc}
use psychicstd.Comparison.Matrix.{Samples, build_matrix, or_key_error}
use psychicstd.Stats.Delta.{Entry, BenchCache, numbers, whole, words, null}

-- The entries of `_side` for the phases; `none` is a missing variant or phase.
unfoldable pub side_entries :
    {F : Type 0}
    → Dict Text (List F)
    → Dict Text (List F)
    → List Text
    → BenchCache F
    → Option (BenchCache F)
unfolding text_eq
side_entries system psychicstd [] made = some made
side_entries system psychicstd (p ∷ phases) made = elim (lookup p system) [
  | none ↦ none
  | some system_samples ↦ elim (lookup p psychicstd) [
    | none ↦ none
    | some psychicstd_samples ↦ side_entries system psychicstd phases (
        insert p
          ((codes "system_samples", numbers system_samples)
            ∷ (codes "psychicstd_samples", numbers psychicstd_samples)
            ∷ [])
          made)
  ]
]

unfoldable pub side_meta : {F : Type 0} → Option Text → ℕ → Entry F
side_meta none reps = (codes "compiler_version", null) ∷ (codes "repetitions", whole reps) ∷ []
side_meta (some version) reps =
    (codes "compiler_version", words version) ∷ (codes "repetitions", whole reps) ∷ []

-- `_side`
unfoldable pub side :
    {F : Type 0}
    → Dict Text (Dict Text (List F))
    → Text
    → Text
    → Option Text
    → List Text
    → ℕ
    → Option (BenchCache F)
unfolding side_entries side_meta text_eq
side samples sys_key psy_key cxx_ver phases reps = elim (lookup sys_key samples) [
  | none ↦ none
  | some system ↦ elim (lookup psy_key samples) [
    | none ↦ none
    | some psychicstd ↦ elim (side_entries system psychicstd phases []) [
      | none ↦ none
      | some made ↦ some (insert (codes "__meta__") (side_meta cxx_ver reps) made)
    ]
  ]
]

-- `try: body finally: cleanup`
unfoldable pub finally : {A B : Type 0} → Action A → Action B → Action A
finally body cleanup h w =
    let (result, w') = body h w in
    let (cleaned, w'') = cleanup h w' in (elim cleaned [ inl e ↦ inl e | inr _ ↦ result ], w'')

-- `subprocess.run(command, check=False)`, which gives the exit code
unfoldable pub unchecked : List Text → Action ℕ
unchecked command h w =
    let (code, (ms, files)) = h.spawn command (codes ".") h.environ w.files in
    (inr code, record { files = files; log = w.log ++ ((command, code) ∷ []) })

unfoldable pub worktree_add : Text → Text → List Text
worktree_add worktree ref =
    codes "git"
    ∷ codes "worktree"
    ∷ codes "add"
    ∷ codes "--quiet"
    ∷ codes "--detach"
    ∷ worktree
    ∷ ref
    ∷ []

unfoldable pub worktree_remove : Text → List Text
worktree_remove worktree =
    codes "git" ∷ codes "worktree" ∷ codes "remove" ∷ codes "--force" ∷ worktree ∷ []

-- `with tempfile.TemporaryDirectory(prefix=prefix, ignore_cleanup_errors=True)`
unfoldable pub with_directory : {A : Type 0} → Text → (Text → Action A) → Action A
unfolding make_directory remove_tree
with_directory prefix body = make_directory prefix >>= λ tmp h w.
    let (result, w') = body tmp h w in (result, remove_tree h tmp w')

-- What is asked of a comparison.
pub record Request : Type 0 where
  pub name : Text
  pub project : Project
  pub ref : Text
  pub compiler : Text
  pub build_type : Text
  pub reps : ℕ
  pub jobs : ℕ
  pub enable_ccache : Bool
  pub platform : Text
  pub repo : Text

-- The builds of the four variants, with the reference in the worktree.
unfoldable pub refs_matrix : Request → Text → Action Samples
refs_matrix q worktree = do
  ref ←
      psy_tc q.platform q.compiler (worktree / codes "include") q.build_type q.enable_ccache q.jobs
  head ← psy_tc q.platform q.compiler (q.repo / codes "include") q.build_type q.enable_ccache q.jobs
  let system = sys_tc q.compiler q.build_type q.enable_ccache q.jobs
  build_matrix
      ((codes "system_base", system)
        ∷ (codes "ref", ref)
        ∷ (codes "system_head", system)
        ∷ (codes "head", head)
        ∷ [])
      (performance_build_of q.project) q.reps q.project (some (performance_phases_of q.project))

-- The samples, with the worktree added before and removed behind.
unfoldable pub refs_samples : Request → Text → Action Samples
refs_samples q worktree = do
  checked (worktree_add worktree q.ref)
  finally (refs_matrix q worktree) (unchecked (worktree_remove worktree))

-- `" / ".join(phases)`
unfoldable pub join_phases : List Text → Text
join_phases [] = []
join_phases (p ∷ []) = p
join_phases (p ∷ next ∷ phases) = p ++ (codes " / " ++ join_phases (next ∷ phases))

unfoldable pub diff_command : Text → Request → Text → List Text
unfolding join_phases
diff_command python q tmp =
    python
    ∷ (q.repo / codes "scripts" / codes "_benchmark_diff.py")
    ∷ codes "--base"
    ∷ (tmp / codes "base.json")
    ∷ codes "--head"
    ∷ (tmp / codes "head.json")
    ∷ codes "--title"
    ∷ (q.name
        ++ (codes " build-time diff ("
            ++ (join_phases (performance_phases_of q.project) ++ codes ")")))
    ∷ codes "--what"
    ∷ (q.name ++ codes " build time with psychicstd")
    ∷ codes "--reproduce"
    ∷ (codes "scripts/compare_realworld_to_ref.py "
        ++ (q.name
            ++ (codes " --build-type "
                ++ (q.build_type
                    ++ (codes " --reps "
                        ++ (decimal q.reps
                            ++ (if q.enable_ccache then codes " --enable-ccache" else [])))))))
    ∷ []

module _ (dumps : BenchCache ℕ → Text) (compiler_version : Text → Action (Option Text))
    (python : Text) where
  -- `main`, from the checkout on
  unfoldable pub compare_to_ref : Request → Action ℕ
  compare_to_ref q = with_directory (codes "psychicstd-rw-") λ tmp. do
    let phases = performance_phases_of q.project
    samples ← refs_samples q (tmp / codes "ref")
    ver ← compiler_version q.compiler
    base ← or_key_error (side samples (codes "system_base") (codes "ref") ver phases q.reps)
    write_content (tmp / codes "base.json") (text (dumps base))
    head ← or_key_error (side samples (codes "system_head") (codes "head") ver phases q.reps)
    write_content (tmp / codes "head.json") (text (dumps head))
    checked (diff_command python q tmp)
