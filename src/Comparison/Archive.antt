-- ===== src/Comparison/Archive.antt =====
-- What `_runtime_library` builds.
use mathlib.Core.List.{append_assoc, append-nil}
use psychicstd.Base.{
  ℕ, zero, suc, ◌≡◌, refl, sym, ap, ◌∙◌, inl, inr, ◌⊎◌, List, [], ◌∷◌, ◌++◌, Text, codes, Dict, map,
  arith,
}
use psychicstd.Recipes.World.{World, Host, Action, Files, ◌>>=◌, ask, done}
use psychicstd.Recipes.Core.{timed}
use psychicstd.Comparison.Runtime.{
  runtime_sources, checked, object_command, archive_path, archive_command, compile_objects,
  build_library, make_directory, runtime_library,
}

-- A chain that returned: so did its first action.
>>=-returned {ℓ κ} :
    {A : Type ℓ} {B : Type κ} (m : Action A) (f : A → Action B) (h : Host) (w w' : World) (b : B)
    → (m >>= f) h w ≡ (inr b, w')
    → (a : A) × (v : World) × (m h w ≡ (inr a, v)) × (f a h v ≡ (inr b, w'))
unfolding ◌>>=◌
>>=-returned {A} {B} m f h w w' b e = go (m h w) refl e
  where
    go :
        (o : (Text ⊎ A) × World)
        → m h w ≡ o
        → elim o.0 as (λ _. (Text ⊎ B) × World) [ inl x ↦ (inl x, o.1) | inr a ↦ f a h o.1 ]
          ≡ (inr b, w')
        → (a : A) × (v : World) × (m h w ≡ (inr a, v)) × (f a h v ≡ (inr b, w'))
    go (inl x, v) same r = ground (arith, r)
    go (inr a, v) same r = (a, v, same, r)

-- A chain whose first action returns goes on with what that one returned.
pub >>=-step {ℓ κ} :
    {A : Type ℓ} {B : Type κ} (m : Action A) (f : A → Action B) (h : Host) (w v : World) (a : A)
    → m h w ≡ (inr a, v)
    → (m >>= f) h w ≡ f a h v
unfolding ◌>>=◌
>>=-step {A} {B} m f h w v a e =
    ap (λ o. elim o.0 as (λ _. (Text ⊎ B) × World) [ inl x ↦ (inl x, o.1) | inr b ↦ f b h o.1 ]) e

timed-log :
    (cmd : List Text) (cwd : Text) (env : Dict Text Text) (h : Host) (w w' : World) (ms : ℕ)
    → timed cmd cwd env h w ≡ (inr ms, w')
    → w'.log ≡ w.log ++ ((cmd, 0) ∷ [])
unfolding timed
timed-log cmd cwd env h w w' ms e = go (h.spawn cmd cwd env w.files) e
  where
    go :
        (o : ℕ × (ℕ × Files))
        → ◌≡◌ {A = (Text ⊎ ℕ) × World}
            (
              elim o.0 [ zero ↦ inr o.1.0 | suc _ ↦ inl (codes "failed command") ],
              record { files = o.1.1; log = w.log ++ ((cmd, o.0) ∷ []) },
            )
            (inr ms, w')
        → w'.log ≡ w.log ++ ((cmd, 0) ∷ [])
    go (zero, rest) r = sym (ap (λ p. p.1.log) r)
    go (suc n, rest) r = ground (arith, r)

checked-log :
    (cmd : List Text) (h : Host) (w w' : World) (ms : ℕ)
    → checked cmd h w ≡ (inr ms, w')
    → w'.log ≡ w.log ++ ((cmd, 0) ∷ [])
unfolding checked ◌>>=◌ ask
checked-log cmd h w w' ms e = timed-log cmd (codes ".") h.environ h w w' ms e

-- The log of commands that all exited with 0.
abbrev pub exited_0 : List (List Text) → List (List Text × ℕ)
exited_0 cmds = map (λ cmd. (cmd, 0)) cmds

compile_objects-log :
    (compiler include work : Text) (sources : List Text) (h : Host) (w w' : World) (ms : ℕ)
    → compile_objects compiler include work sources h w ≡ (inr ms, w')
    → w'.log ≡ w.log ++ exited_0 (map (object_command compiler include work) sources)
unfolding compile_objects done
compile_objects-log compiler include work [] h w w' ms e =
    sym (ap (λ p. p.1.log) e) ∙ sym (append-nil w.log)
compile_objects-log compiler include work (source ∷ sources) h w w' ms e =
    let (n, v, first, rest) = >>=-returned _ _ h w w' ms e in
    compile_objects-log compiler include work sources h v w' ms rest
    ∙ simp (checked-log _ h w v n first, append_assoc)

exited_0-append : (xs ys : List (List Text)) → exited_0 (xs ++ ys) ≡ exited_0 xs ++ exited_0 ys
exited_0-append [] ys = refl
exited_0-append (x ∷ xs) ys = ap (λ l. (x, 0) ∷ l) (exited_0-append xs ys)

build_library-log :
    (compiler include work : Text) (sources : List Text) (h : Host) (w w' : World) (path : Text)
    → build_library compiler include work sources h w ≡ (inr path, w')
    → (path ≡ archive_path work)
      × (w'.log
          ≡ w.log
            ++ exited_0 (
                map (object_command compiler include work) sources
                ++ (archive_command work sources ∷ [])))
unfolding build_library done
build_library-log compiler include work sources h w w' path e =
    let (n, v, compiled, r) = >>=-returned _ _ h w w' path e in
    let (k, u, archived, end) = >>=-returned _ _ h v w' path r in
    (
      sym (ground (arith, end)),
      sym (ap (λ p. p.1.log) end)
          ∙ checked-log _ h v u k archived
          ∙ simp (
            compile_objects-log compiler include work sources h w v n compiled,
            exited_0-append,
            append_assoc,
          ),
    )

-- Where `_runtime_library` returns for an include directory with sources, it has compiled each of
-- them once, in their order, and then archived exactly their objects: these are the commands that
-- were run, all of which exited with 0, and the value is the path of that archive.
pub runtime_library-archive :
    (compiler include : Text) (h : Host) (w w' : World) (source : Text) (more : List Text)
    (path : Text)
    → runtime_sources include h w ≡ (inr (source ∷ more), w)
    → runtime_library compiler include h w ≡ (inr path, w')
    → let work = h.temp_name (codes "psychicstd-runtime-") w.files in
      let sources = source ∷ more in
      (path ≡ archive_path work)
      × (w'.log
          ≡ w.log
            ++ exited_0 (
                map (object_command compiler include work) sources
                ++ (archive_command work sources ∷ [])))
unfolding runtime_library make_directory ask
runtime_library-archive compiler include h w w' source more path found e =
    let after = sym (>>=-step _ _ h w w (source ∷ more) found) ∙ e in
    let built =
      sym (>>=-step _ _ h w w (h.temp_name (codes "psychicstd-runtime-") w.files) refl) ∙ after in
    build_library-log compiler include (h.temp_name (codes "psychicstd-runtime-") w.files)
      (source ∷ more) h w w' path built
