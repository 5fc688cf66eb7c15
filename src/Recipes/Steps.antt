-- ===== src/Recipes/Steps.antt =====
-- The pieces that only some of the recipes have: what they return.
use psychicstd.Base.{
  if◌then◌else◌, suc, Text, Dict, List, [], ◌∷◌, codes, ℕ, ◌≡◌, Bool, true, false, Option, none,
  some, inl, inr, ◌⊎◌, text_eq, lookup, nat_eq,
}
use psychicstd.Recipes.World.{
  World, Action, Host, NoneType, Content, done, raise, write_text, ◌/◌, write_content,
}
use psychicstd.Recipes.Laws.{timed-Returns, fetch-Returns, within-Returns, extract-Returns}
use psychicstd.Recipes.Returns.{
  Returns, IsGood, Anything, all_exited_0, then-Returns, done-Returns, raise-Returns, ask-Returns,
  read_files-Returns, read_text-Returns, write_content-Returns,
}
use psychicstd.Recipes.Core.{Toolchain, Timings, timed, timed_all, timed_many, require}
use psychicstd.Recipes.Suites.{rdfind_flag, timed_sum, copy_file, with_catch_header}
use psychicstd.Recipes.Single.{Sources, compile_each, inipp_prepare}

pub require-Returns : (b : Bool) → Returns Anything (require b)
unfolding require
require-Returns true = done-Returns _ _ tt
require-Returns false = raise-Returns _ _

pub copy_file-Returns : (from to : Text) → Returns Anything (copy_file from to)
unfolding copy_file
copy_file-Returns from to = then-Returns _ _ _ read_files-Returns (λ files. go (lookup from files))
  where
    go :
        (o : Option Content)
        → Returns Anything (elim o as (λ _. Action NoneType) [
          | none ↦ raise from
          | some content ↦ write_content to content
        ])
    go none = raise-Returns _ _
    go (some content) = write_content-Returns _ _

pub with_catch_header-Returns {κ} :
    (P : Timings → Type κ)
    (file url checksum prefix source_dir catch_file catch_url catch_checksum bundled : Text)
    (body : Text → Text → Action Timings)
    → ((work src : Text) → Returns P (body work src))
    → Returns P (
        with_catch_header file url checksum prefix source_dir catch_file catch_url catch_checksum
          bundled body)
unfolding with_catch_header
with_catch_header-Returns P file url checksum prefix source_dir catch_file catch_url catch_checksum
      bundled body rb =
    then-Returns _ _ _ (ask-Returns _) (λ rw_dir. then-Returns _ _ _ (fetch-Returns _ _ _) (λ _.
      then-Returns _ _ _ (fetch-Returns _ _ _) (λ _. within-Returns _ _ _ _ (λ work.
        then-Returns _ _ _ (extract-Returns _ _)
          (λ _. then-Returns _ _ _ (copy_file-Returns _ _) (λ _. rb work _))))))

pub timed_sum-Returns :
    (cmds : List (List Text)) (cwd : Text) (env : Dict Text Text)
    → Returns Anything (timed_sum cmds cwd env)
unfolding timed_sum
timed_sum-Returns [] cwd env = done-Returns _ _ tt
timed_sum-Returns (cmd ∷ cmds) cwd env =
    then-Returns _ _ _ (timed-Returns _ _ _)
      (λ ms. then-Returns _ _ _ (timed_sum-Returns cmds cwd env) (λ rest. done-Returns _ _ tt))

pub timed_all-Returns :
    (cmds : List (List Text)) (cwd : Text) (env : Dict Text Text)
    → Returns Anything (timed_all cmds cwd env)
unfolding timed_all
timed_all-Returns [] cwd env = record { ends = λ h w e. (e, tt) }
timed_all-Returns (cmd ∷ cmds) cwd env = record {
  ends = λ h w e.
      go h (timed cmd cwd env h w) ((timed-Returns cmd cwd env).ends h w e)
        (λ v c. (timed_all-Returns cmds cwd env).ends h v c);
}
  where
    join :
        (ms : ℕ) (o : (Text ⊎ List ℕ) × World)
        → IsGood Anything o
        → IsGood Anything
            (elim o.0 as (λ _. Text ⊎ List ℕ) [ inl e ↦ inl e | inr times ↦ inr (ms ∷ times) ], o.1)
    join ms (inl e, w) r = tt
    join ms (inr times, w) r = r

    go :
        (h : Host) (o : (Text ⊎ ℕ) × World)
        → IsGood Anything o
        → ((v : World) → all_exited_0 v.log ≡ true → IsGood Anything (timed_all cmds cwd env h v))
        → IsGood Anything (
          elim o.0 as (λ _. Text ⊎ List ℕ) [
            | inl e ↦ inl e
            | inr ms ↦ elim (timed_all cmds cwd env h o.1).0 as (λ _. Text ⊎ List ℕ) [
              | inl e ↦ inl e
              | inr times ↦ inr (ms ∷ times)
            ]
          ],
          (timed_all cmds cwd env h o.1).1,
        )
    go h (inl e, w) r rest = tt
    go h (inr ms, w) r rest = join ms _ (rest w r.0)

pub timed_many-Returns :
    (cmds : List (List Text)) (cwd : Text) (env : Dict Text Text) (jobs : ℕ)
    → Returns Anything (timed_many cmds cwd env jobs)
unfolding timed_many
timed_many-Returns cmds cwd env jobs =
    then-Returns _ _ _ (timed_all-Returns cmds cwd env) (λ times. ask-Returns _)

pub rdfind_flag-Returns : (tc : Toolchain) → Returns Anything (rdfind_flag tc)
unfolding rdfind_flag
rdfind_flag-Returns tc = go _
  where
    go :
        (o : Option Text)
        → Returns Anything
            (elim o as (λ _. Action Text) [ none ↦ raise (codes "KeyError") | some f ↦ done f ])
    go none = raise-Returns _ _
    go (some f) = done-Returns _ _ tt

pub run_binary-Returns :
    (b : Bool) (cmd : List Text) (cwd : Text) (env : Dict Text Text)
    → Returns Anything (if b then timed cmd cwd env else done 0)
run_binary-Returns true cmd cwd env = timed-Returns _ _ _
run_binary-Returns false cmd cwd env = done-Returns _ _ tt

pub compile_each-Returns :
    (s : Sources) (tc : Toolchain) (work src : Text) (env : Dict Text Text) (index : ℕ)
    (files : List Text)
    → Returns Anything (compile_each s tc work src env index files)
unfolding compile_each
compile_each-Returns s tc work src env index [] = done-Returns _ _ tt
compile_each-Returns s tc work src env index (relative ∷ more) =
    then-Returns _ _ _ (timed-Returns _ _ _) (λ compile_ms.
      then-Returns _ _ _ (run_binary-Returns s.run_binary _ _ _) (λ run_ms.
        then-Returns _ _ _ (compile_each-Returns s tc work src env (suc index) more)
          (λ rest. done-Returns _ _ tt)))

pub inipp_prepare-Returns : (src : Text) → Returns Anything (inipp_prepare src)
unfolding inipp_prepare
inipp_prepare-Returns src = then-Returns _ _ _ (read_text-Returns _) (λ contents. go _)
  where
    go :
        (o : Option Text)
        → Returns Anything (elim o as (λ _. Action NoneType) [
          | none ↦ raise (codes "unexpected inipp unit-test source")
          | some s ↦ write_text (src / codes "unittest/unittest.cpp") s
        ])
    go none = raise-Returns _ _
    go (some s) = write_content-Returns _ _
