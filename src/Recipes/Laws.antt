-- ===== src/Recipes/Laws.antt =====
-- What the pieces of a recipe return.
use psychicstd.Base.{
  lookup, ℕ, zero, suc, ◌≡◌, refl, ap, ◌∙◌, arith, Bool, true, false, Option, none, some, inl, inr,
  ◌⊎◌,
}
use psychicstd.Base.{
  List, [], ◌∷◌, ◌++◌, Text, codes, Dict, keys, values, contains, All, text_eq, ◌==◌, if◌then◌else◌,
}
use psychicstd.Recipes.World.{
  World, Host, Action, NoneType, Files, text, ◌>>=◌, done, raise, ask, write_files, remove_tree,
  write_content, shell_words,
}
use psychicstd.Recipes.Core.{
  Toolchain, Timings, timed, measure, work_directory, retrieve_missing, fetch, within, clean_up,
  work_root, empty_directory, extract, env_with, split_words, place, compiler_wrapper, with_source,
}
use psychicstd.Recipes.Returns.{
  all_exited_0, IsGood, Anything, Covers, Returns, >>=-Returns, then-Returns, done-Returns,
  raise-Returns, ask-Returns, read_files-Returns, write_files-Returns, write_content-Returns,
  read_bytes-Returns,
}

all_exited_0-append :
    (log : List (List Text × ℕ)) (cmd : List Text) (code : ℕ)
    → all_exited_0 log ≡ true
    → code ≡ 0
    → all_exited_0 (log ++ ((cmd, code) ∷ [])) ≡ true
all_exited_0-append [] cmd code e c = rw c refl
all_exited_0-append ((other, zero) ∷ log) cmd code e c = all_exited_0-append log cmd code e c
all_exited_0-append ((other, suc n) ∷ log) cmd code e c = cc

pub timed-Returns :
    (cmd : List Text) (cwd : Text) (env : Dict Text Text) → Returns Anything (timed cmd cwd env)
unfolding timed
timed-Returns cmd cwd env = record { ends = λ h w e. go w.log e (h.spawn cmd cwd env w.files) }
  where
    go :
        (log : List (List Text × ℕ))
        → all_exited_0 log ≡ true
        → (o : ℕ × (ℕ × Files))
        → IsGood Anything (
          elim o.0 [ zero ↦ inr o.1.0 | suc _ ↦ inl (codes "failed command") ],
          record { files = o.1.1; log = log ++ ((cmd, o.0) ∷ []) },
        )
    go log e (zero, rest) = (all_exited_0-append log cmd 0 e refl, tt)
    go log e (suc n, rest) = tt

work_directory-log :
    (prefix : Text) (h : Host) (w : World) → (work_directory prefix h w).1.log ≡ w.log
unfolding work_directory empty_directory remove_tree
work_directory-log prefix h w = go (lookup work_root h.environ) refl
  where
    go :
        (o : Option Text)
        → lookup work_root h.environ ≡ o
        → (work_directory prefix h w).1.log ≡ w.log
    go none e = ground (arith, e)
    go (some root) e = ground (arith, e)

pub within-Returns {ℓ κ} :
    {A : Type ℓ} (P : A → Type κ) (ignore : Bool) (prefix : Text) (body : Text → Action A)
    → ((work : Text) → Returns P (body work))
    → Returns P (within ignore prefix body)
unfolding within clean_up remove_tree
within-Returns {A} P ignore prefix body rb = record {
  ends = λ h w e.
      go h (work_directory prefix h w) (ap all_exited_0 (work_directory-log prefix h w) ∙ e);
}
  where
    end :
        (failed : Bool) (work : Text) (h : Host) (o : (Text ⊎ A) × World)
        → IsGood P o
        → IsGood P (if failed then inl (codes "OSError") else o.0, remove_tree h work o.1)
    end true work h o r = tt
    end false work h (inl e, w') r = tt
    end false work h (inr a, w') r = r

    go :
        (h : Host) (o : (Text ⊎ Text) × World)
        → all_exited_0 o.1.log ≡ true
        → IsGood P (elim o.0 [
          | inl e ↦ (inl e, o.1)
          | inr work ↦ clean_up ignore work h (body work h o.1)
        ])
    go h (inl failed, v) e = tt
    go h (inr work, v) e = end _ work h _ ((rb work).ends h v e)

pub retrieve_missing-Returns : (url dest : Text) → Returns Anything (retrieve_missing url dest)
unfolding retrieve_missing
retrieve_missing-Returns url dest =
    then-Returns _ _ _ read_files-Returns
      (λ files. then-Returns _ _ _ (ask-Returns _) (λ found. go (contains (keys files) dest) found))
  where
    go :
        (b : Bool) (found : Option Text)
        → Returns Anything (
            if b then done tt else elim found as (λ _. Action NoneType) [
              | none ↦ raise url
              | some s ↦ write_content dest (text s)
            ])
    go true found = done-Returns _ _ tt
    go false none = raise-Returns _ _
    go false (some s) = write_content-Returns _ _

pub fetch-Returns : (url dest checksum : Text) → Returns Anything (fetch url dest checksum)
unfolding fetch
fetch-Returns url dest checksum = then-Returns _ _ _ (retrieve_missing-Returns _ _) (λ _.
    then-Returns _ _ _ (read_bytes-Returns _)
      (λ bytes. then-Returns _ _ _ (ask-Returns _) (λ got. go (got == checksum))))
  where
    go :
        (b : Bool)
        → Returns Anything
            (if b then done {A = NoneType} tt else raise (codes "sha256 mismatch for " ++ dest))
    go true = done-Returns _ _ tt
    go false = raise-Returns _ _

pub extract-Returns : (tarball work : Text) → Returns Anything (extract tarball work)
unfolding extract
extract-Returns tarball work = then-Returns _ _ _ (read_bytes-Returns _) (λ bytes.
    then-Returns _ _ _ (ask-Returns _)
      (λ members. then-Returns _ _ _ read_files-Returns (λ files. go members files)))
  where
    go :
        (members : Option (Dict Text Text)) (files : Files)
        → Returns Anything (elim members as (λ _. Action NoneType) [
          | none ↦ raise tarball
          | some ms ↦ write_files (place work ms files)
        ])
    go none files = raise-Returns _ _
    go (some ms) files = write_files-Returns _

pub env_with-Returns :
    (extra : Dict Text Text) (tc : Toolchain) → Returns Anything (env_with extra tc)
unfolding env_with
env_with-Returns extra tc = then-Returns _ _ _ (ask-Returns _) (λ environ. done-Returns _ _ tt)

pub split_words-Returns : (s : Text) → Returns Anything (split_words s)
unfolding split_words
split_words-Returns s = go (shell_words s)
  where
    go :
        (o : Option (List Text))
        → Returns Anything (elim o as (λ _. Action (List Text)) [
          | none ↦ raise (codes "No closing quotation")
          | some ws ↦ done ws
        ])
    go none = raise-Returns _ _
    go (some ws) = done-Returns _ _ tt

pub compiler_wrapper-Returns :
    (path : Text) (tc : Toolchain) (extra : List Text)
    → Returns Anything (compiler_wrapper path tc extra)
unfolding compiler_wrapper
compiler_wrapper-Returns path tc extra = then-Returns _ _ _ (split_words-Returns _) (λ compiler.
    then-Returns _ _ _ (split_words-Returns _) (λ flags.
      then-Returns _ _ _ (split_words-Returns _) (λ ld.
        then-Returns _ _ _ (split_words-Returns _)
          (λ libs. then-Returns _ _ _ (write_content-Returns _ _) (λ _. done-Returns _ _ tt)))))

-- A dict display gives a dict with its keys, in its order.
pub measure-keys :
    (d : Dict Text (Action ℕ))
    → All (λ m. Returns Anything m) (values d)
    → Returns (λ timings. keys timings ≡ keys d) (measure d)
unfolding measure
measure-keys [] all = done-Returns _ _ refl
measure-keys ((phase, m) ∷ d) all = then-Returns _ _ _ all.0 (λ ms.
    >>=-Returns _ _ _ _ (measure-keys d all.1)
      (λ rest e. done-Returns _ _ (ap (λ ks. phase ∷ ks) e)))

-- Every phase that stands in a dict display is timed.
pub measure-Covers :
    (phases : List Text) (d : Dict Text (Action ℕ))
    → All (λ m. Returns Anything m) (values d)
    → All (λ phase. contains (keys d) phase ≡ true) phases
    → Returns (Covers phases) (measure d)
measure-Covers phases d all has = record {
  ends = λ h w e. go (measure d h w) ((measure-keys d all).ends h w e);
}
  where
    covers :
        (timings : Timings) (some_phases : List Text)
        → keys timings ≡ keys d
        → All (λ phase. contains (keys d) phase ≡ true) some_phases
        → Covers some_phases timings
    covers timings [] e has = tt
    covers timings (phase ∷ more) e has = (rw e has.0, covers timings more e has.1)

    go :
        (o : (Text ⊎ Timings) × World)
        → IsGood (λ timings. keys timings ≡ keys d) o
        → IsGood (Covers phases) o
    go (inl e, w') r = tt
    go (inr timings, w') r = (r.0, covers timings phases r.1 has)

pub with_source-Returns {κ} :
    (ignore : Bool) (P : Timings → Type κ) (file url checksum prefix : Text)
    (body : Text → Action Timings)
    → ((work : Text) → Returns P (body work))
    → Returns P (with_source ignore file url checksum prefix body)
unfolding with_source
with_source-Returns ignore P file url checksum prefix body rb =
    then-Returns _ _ _ (ask-Returns _) (λ rw_dir. then-Returns _ _ _ (fetch-Returns _ _ _) (λ _.
      within-Returns _ _ _ _ (λ work. then-Returns _ _ _ (extract-Returns _ _) (λ _. rb work))))

pub ask_then-Returns {ℓ ν} :
    {A : Type ℓ} (Q : Timings → Type ν) (g : Host → A) (f : A → Action Timings)
    → ((a : A) → Returns Q (f a))
    → Returns Q (ask g >>= f)
ask_then-Returns Q g f rf = then-Returns _ _ _ (ask-Returns g) rf

-- Nothing but the environment is read before the phases are timed.
pub env_with-measure :
    (phases : List Text) (extra : Dict Text Text) (tc : Toolchain)
    (d : Dict Text Text → Dict Text (Action ℕ))
    → ((env : Dict Text Text)
        → All (λ m. Returns Anything m) (values (d env))
          × All (λ phase. contains (keys (d env)) phase ≡ true) phases)
    → Returns (Covers phases) (env_with extra tc >>= λ env. measure (d env))
env_with-measure phases extra tc d each =
    then-Returns _ _ _ (env_with-Returns _ _)
      (λ env. measure-Covers phases (d env) (each env).0 (each env).1)
