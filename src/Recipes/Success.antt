-- ===== src/Recipes/Success.antt =====
-- That builds return: where the download is the pinned archive and no command fails.
use mathlib.Core.Path.{subst}
use psychicstd.Base.{
  true, ℕ, ◌≡◌, refl, ap, ◌∙◌, false, none, some, inl, inr, ◌⊎◌, text_eq, arith, eq_refl, not, ◌||◌,
  Option,
}
use psychicstd.Base.{
  List, [], ◌∷◌, Text, Dict, lookup, values, All, insert, lookup-insert, contains-keys_iff,
  lookup-keep_keys,
}
use psychicstd.Recipes.World.{
  World, Host, Action, Files, text, ◌>>=◌, ask, done, raise, read_files, write_files, write_content,
  is_under, remove_tree, ◌/◌,
}
use psychicstd.Recipes.Core.{
  Toolchain, Timings, fetch, retrieve_missing, read_bytes, with_source, within, extract,
  work_directory, clean_up, work_root, strip_dashes, empty_directory, timed, measure, env_with,
  place,
}
use psychicstd.Recipes.Refusal.{has_failed}

-- Whatever the files, the action returns.
pub record Completes {ℓ} {A : Type ℓ} (h : Host) (m : Action A) : Type 0 where
  pub completes : (w : World) → has_failed (m h w).0 ≡ false

pub >>=-Completes {ℓ κ} :
    {A : Type ℓ} {B : Type κ} (h : Host) (m : Action A) (f : A → Action B)
    → Completes h m
    → ((a : A) → Completes h (f a))
    → Completes h (m >>= f)
unfolding ◌>>=◌
>>=-Completes {A} {B} h m f c d = record { completes = λ w. go (m h w) (c.completes w) }
  where
    go :
        (o : (Text ⊎ A) × World)
        → has_failed o.0 ≡ false
        → let result : (Text ⊎ B) × World = elim o.0 [ inl e ↦ (inl e, o.1) | inr a ↦ f a h o.1 ] in
          has_failed result.0 ≡ false
    go (inl e, w) p = ground (arith, p)
    go (inr a, w) p = (d a).completes w

pub ask-Completes {ℓ} : {A : Type ℓ} (h : Host) (g : Host → A) → Completes h (ask g)
unfolding ask
ask-Completes h g = record { completes = λ w. refl }

ask-returns : (h : Host) (w : World) → ask (λ host. host.rw_dir) h w ≡ (inr h.rw_dir, w)
unfolding ask
ask-returns h w = refl

done-Completes {ℓ} : {A : Type ℓ} (h : Host) (a : A) → Completes h (done a)
unfolding done
done-Completes h a = record { completes = λ w. refl }

pub env_with-Completes :
    (h : Host) (extra : Dict Text Text) (tc : Toolchain) → Completes h (env_with extra tc)
unfolding env_with
env_with-Completes h extra tc =
    >>=-Completes h _ _ (ask-Completes h _) (λ environ. done-Completes h _)

pub timed-Completes :
    (h : Host) (cmd : List Text) (cwd : Text) (env : Dict Text Text)
    → ((files : Files) → (h.spawn cmd cwd env files).0 ≡ 0)
    → Completes h (timed cmd cwd env)
unfolding timed
timed-Completes h cmd cwd env ok = record { completes = λ w. rw (ok w.files) refl }

pub measure-Completes :
    (h : Host) (d : Dict Text (Action ℕ))
    → All (λ m. Completes h m) (values d)
    → Completes h (measure d)
unfolding measure
measure-Completes h [] all = done-Completes h _
measure-Completes h ((phase, m) ∷ d) all =
    >>=-Completes h _ _ all.0
      (λ ms. >>=-Completes h _ _ (measure-Completes h d all.1) (λ rest. done-Completes h _))

-- A missing archive is downloaded and accepted.
fetch-download :
    (h : Host) (w : World) (url dest bytes : Text)
    → lookup dest w.files ≡ none
    → h.retrieve url ≡ some bytes
    → fetch url dest (h.sha256 bytes) h w
      ≡ (inr tt, record w { files = insert dest (text bytes) w.files })
unfolding fetch retrieve_missing read_bytes ◌>>=◌ ask done raise read_files write_files
    write_content
fetch-download h w url dest bytes absent found = ground (
  arith,
  contains-keys_iff dest w.files,
  absent,
  found,
  eq_refl dest,
  eq_refl (h.sha256 bytes),
  lookup-insert dest dest (text bytes) w.files,
)

-- What follows an action that returned.
then-returns {ℓ κ} :
    {A : Type ℓ} {B : Type κ} (h : Host) (w w' : World) (m : Action A) (f : A → Action B) (a : A)
    → m h w ≡ (inr a, w')
    → has_failed (f a h w').0 ≡ false
    → has_failed ((m >>= f) h w).0 ≡ false
unfolding ◌>>=◌
then-returns {A} {B} h w w' m f a e ok =
    ap
      (λ o.
        let result : (Text ⊎ B) × World = elim o.0 [ inl e ↦ (inl e, o.1) | inr a ↦ f a h o.1 ] in
        has_failed result.0)
      e
    ∙ ok

extract-returns :
    (h : Host) (v : World) (tarball work bytes : Text) (members : Dict Text Text)
    → lookup tarball v.files ≡ some (text bytes)
    → h.unpack bytes ≡ some members
    → extract tarball work h v ≡ (inr tt, record v { files = place work members v.files })
unfolding extract read_bytes ◌>>=◌ ask done raise read_files write_files
extract-returns h v tarball work bytes members there unpacked = ground (arith, there, unpacked)

-- What lies elsewhere is not touched when a work directory is made ready.
work_directory-lookup :
    (h : Host) (w ready : World) (prefix work path : Text)
    → work_directory prefix h w ≡ (inr work, ready)
    → is_under work path ≡ false
    → lookup path ready.files ≡ lookup path w.files
unfolding work_directory empty_directory remove_tree
work_directory-lookup h w ready prefix work path made outside = go (lookup work_root h.environ) refl
  where
    go :
        (o : Option Text)
        → lookup work_root h.environ ≡ o
        → lookup path ready.files ≡ lookup path w.files
    go none e = ground (arith, e, made)
    go (some root) e =
        let work' = root / strip_dashes prefix in
        let removed = lookup-keep_keys (λ p. not (is_under work' p) || h.stuck p) path w.files in
        ground (arith, e, made, outside, removed)

within-then :
    {A : Type 0} (h : Host) (w ready : World) (prefix work : Text) (body : Text → Action A)
    → work_directory prefix h w ≡ (inr work, ready)
    → has_failed (body work h ready).0 ≡ false
    → has_failed (within true prefix body h w).0 ≡ false
unfolding within clean_up
within-then h w ready prefix work body made ok = ground (arith, made, ok)

-- The archive is downloaded, has the pinned checksum and can be unpacked in a directory of its own.
pub record IsAvailable (h : Host) (w : World) (file url checksum prefix : Text) : Type 0 where
  pub absent : lookup (h.rw_dir / file) w.files ≡ none
  pub bytes : Text
  pub downloaded : h.retrieve url ≡ some bytes
  pub pinned : h.sha256 bytes ≡ checksum
  pub members : Dict Text Text
  pub unpacked : h.unpack bytes ≡ some members
  pub work : Text
  pub ready : World
  pub allotted :
      work_directory prefix h (record w { files = insert (h.rw_dir / file) (text bytes) w.files })
      ≡ (inr work, ready)
  pub apart : is_under work (h.rw_dir / file) ≡ false

pub with_source-Completes :
    (h : Host) (w : World) (file url checksum prefix : Text) (body : Text → Action Timings)
    → IsAvailable h w file url checksum prefix
    → ((work : Text) → Completes h (body work))
    → has_failed (with_source true file url checksum prefix body h w).0 ≡ false
unfolding with_source
with_source-Completes h w file url checksum prefix body a c =
    let tarball = h.rw_dir / file in
    let w1 : World = record w { files = insert tarball (text a.bytes) w.files } in
    let there : lookup tarball a.ready.files ≡ some (text a.bytes) = ground (
      arith,
      work_directory-lookup h w1 a.ready prefix a.work tarball a.allotted a.apart,
      lookup-insert tarball tarball (text a.bytes) w.files,
      eq_refl tarball,
    ) in
    then-returns h w w _ _ h.rw_dir (ask-returns h w) (
      then-returns h w w1 _ _ tt
        (subst (λ sum. fetch url tarball sum h w ≡ (inr tt, w1)) a.pinned
          (fetch-download h w url tarball a.bytes a.absent a.downloaded))
        (within-then h w1 a.ready prefix a.work _ a.allotted (
          then-returns h a.ready _ _ _ tt
            (extract-returns h a.ready tarball a.work a.bytes a.members there a.unpacked)
            ((c a.work).completes _))))
