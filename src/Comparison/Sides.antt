-- ===== src/Comparison/Sides.antt =====
-- What a comparison with a reference leaves behind, and what the diff reads of its files.
use mathlib.Core.Path.{subst}
use psychicstd.Base.{
  eq→≡, ℕ, Bool, true, false, Option, none, some, inl, inr, ◌⊎◌, List, [], ◌∷◌, ◌++◌, Text, codes,
  Dict, contains, lookup, insert, lookup-insert, text_eq, ℕ_discrete, nat_eq, if◌then◌else◌, ◌==◌,
  ◌≡◌, refl, sym, ap, ◌∙◌, lookup-keep_keys, arith, not, ◌||◌,
}
use psychicstd.Recipes.World.{World, Host, Action, ◌>>=◌, ask, remove_tree, is_under}
use psychicstd.Comparison.Runtime.{checked, make_directory}
use psychicstd.Comparison.Archive.{>>=-step}
use psychicstd.Comparison.Refs.{
  Request, refs_matrix, refs_samples, finally, unchecked, worktree_add, worktree_remove,
  with_directory, compare_to_ref, side_entries, side_meta, side,
}
use psychicstd.Stats.Floats.{Floats}
use psychicstd.Stats.Delta.{BenchCache, Value, numbers, field, samples}

with_directory-lookup :
    {A : Type 0} (prefix : Text) (body : Text → Action A) (h : Host) (w : World) (path : Text)
    → is_under (h.temp_name prefix w.files) path ≡ true
    → h.stuck path ≡ false
    → lookup path (with_directory prefix body h w).1.files ≡ none
unfolding with_directory make_directory ask ◌>>=◌ remove_tree
with_directory-lookup prefix body h w path inside free =
    lookup-keep_keys (λ p. not (is_under (h.temp_name prefix w.files) p) || h.stuck p) path
      (body (h.temp_name prefix w.files) h w).1.files
    ∙ ground (arith, inside, free)

-- Once the worktree of the reference is checked out, it is removed with the last command behind the
-- builds, however they end, and their result is kept; behind the whole comparison no file that
-- can be removed is left in its directory.
pub compare_to_ref_cleans :
    (dumps : BenchCache ℕ → Text) (compiler_version : Text → Action (Option Text)) (python : Text)
    (q : Request) (worktree path : Text) (h : Host) (w w1 : World) (ms : ℕ)
    → checked (worktree_add worktree q.ref) h w ≡ (inr ms, w1)
    → is_under (h.temp_name (codes "psychicstd-rw-") w.files) path ≡ true
    → h.stuck path ≡ false
    → let ran = refs_matrix q worktree h w1 in
      let kept = refs_samples q worktree h w in
      ((code : ℕ) × (kept.1.log ≡ ran.1.log ++ ((worktree_remove worktree, code) ∷ [])))
      × (kept.0 ≡ ran.0)
      × (lookup path (compare_to_ref dumps compiler_version python q h w).1.files ≡ none)
unfolding refs_samples finally unchecked compare_to_ref
compare_to_ref_cleans dumps compiler_version python q worktree path h w w1 ms added inside free =
    let step =
      >>=-step (checked (worktree_add worktree q.ref))
        (λ _. finally (refs_matrix q worktree) (unchecked (worktree_remove worktree))) h w w1 ms
        added in
    (
      (_, ap (λ o. o.1.log) step),
      ap (λ o. o.0) step,
      with_directory-lookup (codes "psychicstd-rw-") _ h w path inside free,
    )

module _ {F : Type 0} (system psychicstd : Dict Text (List F)) where
  -- The entry of a phase, from the samples of the two variants.
  abbrev entry_of : List F → List F → Dict Text (Value F)
  entry_of xs ys =
      (codes "system_samples", numbers xs) ∷ (codes "psychicstd_samples", numbers ys) ∷ []

  side_entries-lookup :
      (phases : List Text) (made out : BenchCache F) (p : Text) (xs ys : List F)
      → side_entries system psychicstd phases made ≡ some out
      → lookup p system ≡ some xs
      → lookup p psychicstd ≡ some ys
      → (contains phases p ≡ true) ⊎ (lookup p made ≡ some (entry_of xs ys))
      → lookup p out ≡ some (entry_of xs ys)
  unfolding side_entries
  side_entries-lookup [] made out p xs ys e at_system at_psychicstd known = elim known [
    | inl h ↦ ground (arith, h)
    | inr h ↦ subst (λ d. lookup p d ≡ some (entry_of xs ys)) (ground (arith, e)) h
  ]
  side_entries-lookup (q ∷ phases) made out p xs ys e at_system at_psychicstd known =
      go (lookup q system) refl (lookup q psychicstd) refl e
        (λ made'. side_entries-lookup phases made' out p xs ys)
    where
      inserted :
          (us vs : List F)
          → lookup q system ≡ some us
          → lookup q psychicstd ≡ some vs
          → (contains phases p ≡ true)
            ⊎ (lookup p (insert q (entry_of us vs) made) ≡ some (entry_of xs ys))
      inserted us vs u v = same (q == p) refl known
        where
          same :
              (b : Bool)
              → (q == p) ≡ b
              → (contains (q ∷ phases) p ≡ true) ⊎ (lookup p made ≡ some (entry_of xs ys))
              → (contains phases p ≡ true)
                ⊎ (lookup p (insert q (entry_of us vs) made) ≡ some (entry_of xs ys))
          same true h k =
              let key = eq→≡ q p h in
              let same_us : us ≡ xs =
                ground (arith, sym u ∙ ap (λ j. lookup j system) key ∙ at_system) in
              let same_vs : vs ≡ ys =
                ground (arith, sym v ∙ ap (λ j. lookup j psychicstd) key ∙ at_psychicstd) in
              let entry : entry_of us vs ≡ entry_of xs ys =
                ap (λ zs. entry_of zs vs) same_us ∙ ap (entry_of xs) same_vs in
              inr (
                lookup-insert p q (entry_of us vs) made
                ∙ ap (λ b. if b then some (entry_of us vs) else lookup p made) h
                ∙ ap some entry)
          same false h (inl k) = inl (ground (arith, h, k))
          same false h (inr k) =
              inr (lookup-insert p q (entry_of us vs) made ∙ ground (arith, h, k))

      go :
          (o : Option (List F))
          → lookup q system ≡ o
          → (o' : Option (List F)) → lookup q psychicstd ≡ o'
          → (let made_of : Option (BenchCache F) = elim o [
            | none ↦ none
            | some us ↦ elim o' [
              | none ↦ none
              | some vs ↦ side_entries system psychicstd phases (insert q (entry_of us vs) made)
            ]
          ] in
              made_of ≡ some out)
          → ((made' : BenchCache F)
              → side_entries system psychicstd phases made' ≡ some out
              → lookup p system ≡ some xs
              → lookup p psychicstd ≡ some ys
              → (contains phases p ≡ true) ⊎ (lookup p made' ≡ some (entry_of xs ys))
              → lookup p out ≡ some (entry_of xs ys))
          → lookup p out ≡ some (entry_of xs ys)
      go none u o' v r ih = ground (arith, r)
      go (some us) u none v r ih = ground (arith, r)
      go (some us) u (some vs) v r ih =
          ih (insert q (entry_of us vs) made) r at_system at_psychicstd (inserted us vs u v)

-- The file that `_side` makes is read back by the diff: for each phase of the comparison that is no
-- reserved name, `samples` gives the samples of the two variants, where there are any.
pub samples-side :
    (f : Floats) (matrix : Dict Text (Dict Text (List f.F))) (sys_key psy_key : Text)
    (ver : Option Text) (phases : List Text) (reps : ℕ) (cache : BenchCache f.F) (p : Text)
    (system psychicstd : Dict Text (List f.F)) (x y : f.F) (xs ys : List f.F)
    → side matrix sys_key psy_key ver phases reps ≡ some cache
    → contains phases p ≡ true
    → (codes "__meta__" == p) ≡ false
    → lookup sys_key matrix ≡ some system
    → lookup psy_key matrix ≡ some psychicstd
    → lookup p system ≡ some (x ∷ xs)
    → lookup p psychicstd ≡ some (y ∷ ys)
    → (samples f cache p (codes "system") ≡ some (x ∷ xs))
      × (samples f cache p (codes "psychicstd") ≡ some (y ∷ ys))
unfolding side samples field text_eq nat_eq ℕ_discrete
samples-side f matrix sys_key psy_key ver phases reps cache p system psychicstd x y xs ys made
      listed unreserved at_sys at_psy at_system at_psychicstd =
    go (side_entries system psychicstd phases []) refl (ground (arith, made, at_sys, at_psy))
  where
    go :
        (o : Option (BenchCache f.F))
        → side_entries system psychicstd phases [] ≡ o
        → (let whole_side : Option (BenchCache f.F) = elim o [
          | none ↦ none
          | some d ↦ some (insert (codes "__meta__") (side_meta ver reps) d)
        ] in
            whole_side ≡ some cache)
        → (samples f cache p (codes "system") ≡ some (x ∷ xs))
          × (samples f cache p (codes "psychicstd") ≡ some (y ∷ ys))
    go none e r = ground (arith, r)
    go (some d) e r =
        let entry =
          side_entries-lookup system psychicstd phases [] d p (x ∷ xs) (y ∷ ys) e at_system
            at_psychicstd (inl listed) in
        let same : insert (codes "__meta__") (side_meta ver reps) d ≡ cache = ground (arith, r) in
        let found : lookup p cache ≡ some (entry_of system psychicstd (x ∷ xs) (y ∷ ys)) =
          ap (lookup p) (sym same)
          ∙ lookup-insert p (codes "__meta__") (side_meta ver reps) d
          ∙ ap (λ b. if b then some (side_meta ver reps) else lookup p d) unreserved
          ∙ entry in
        (ground (arith, found), ground (arith, found))
