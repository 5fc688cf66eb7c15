-- ===== src/Recipes/Returns.antt =====
-- What the ends of actions have in common: the value has a property, and all commands exited with 0.
use psychicstd.Base.{ℕ, zero, suc, ◌≡◌, Bool, true, false, Option, none, some, inl, inr, ◌⊎◌}
use psychicstd.Base.{List, [], ◌∷◌, Text, lookup, keys, contains, All, text_eq}
use psychicstd.Recipes.World.{
  World, Host, Action, Files, Content, text, wrapper, ◌>>=◌, done, raise, ask, read_files,
  write_files, read_text, write_content,
}
use psychicstd.Recipes.Core.{Timings, read_bytes}

-- Every command of the log exited with 0.
abbrev pub all_exited_0 : List (List Text × ℕ) → Bool
all_exited_0 [] = true
all_exited_0 ((cmd, zero) ∷ log) = all_exited_0 log
all_exited_0 ((cmd, suc n) ∷ log) = false

-- What is asked of the end of an action: if it returned, every command so far exited with 0, and
-- the value has the property.
abbrev pub IsGood {ℓ κ} : {A : Type ℓ} → (A → Type κ) → (Text ⊎ A) × World → Type κ
IsGood P (inl e, w) = Unit
IsGood P (inr a, w) = (all_exited_0 w.log ≡ true) × P a

abbrev pub Anything {ℓ} : {A : Type ℓ} → A → Type 0
Anything a = Unit

abbrev pub Covers : List Text → Timings → Type 0
Covers phases timings = All (λ phase. contains (keys timings) phase ≡ true) phases

-- Begun where every command has exited with 0, the action ends like this.
pub record Returns {ℓ κ} {A : Type ℓ} (P : A → Type κ) (m : Action A) : Type κ where
  pub ends : (h : Host) (w : World) → all_exited_0 w.log ≡ true → IsGood P (m h w)

pub >>=-Returns {ℓ κ μ ν} :
    {A : Type ℓ} {B : Type κ} (P : A → Type μ) (Q : B → Type ν) (m : Action A) (f : A → Action B)
    → Returns P m
    → ((a : A) → P a → Returns Q (f a))
    → Returns Q (m >>= f)
unfolding ◌>>=◌
>>=-Returns {A} {B} P Q m f rm rf = record { ends = λ h w e. go h (m h w) (rm.ends h w e) }
  where
    go :
        (h : Host) (o : (Text ⊎ A) × World)
        → IsGood P o
        → IsGood Q (elim o.0 [ inl e ↦ (inl e, o.1) | inr a ↦ f a h o.1 ])
    go h (inl e, w') r = tt
    go h (inr a, w') r = (rf a r.1).ends h w' r.0

-- The value of the first action has no part in what is shown of the second one's.
pub then-Returns {ℓ κ ν} :
    {A : Type ℓ} {B : Type κ} (Q : B → Type ν) (m : Action A) (f : A → Action B)
    → Returns Anything m
    → ((a : A) → Returns Q (f a))
    → Returns Q (m >>= f)
then-Returns Q m f rm rf = >>=-Returns Anything Q m f rm (λ a _. rf a)

pub done-Returns {ℓ κ} : {A : Type ℓ} (P : A → Type κ) (a : A) → P a → Returns P (done a)
unfolding done
done-Returns P a p = record { ends = λ h w e. (e, p) }

pub raise-Returns {ℓ κ} : {A : Type ℓ} (P : A → Type κ) (e : Text) → Returns P (raise e)
unfolding raise
raise-Returns P message = record { ends = λ h w e. tt }

pub ask-Returns {ℓ} : {A : Type ℓ} (f : Host → A) → Returns Anything (ask f)
unfolding ask
ask-Returns f = record { ends = λ h w e. (e, tt) }

pub read_files-Returns : Returns Anything read_files
unfolding read_files
read_files-Returns = record { ends = λ h w e. (e, tt) }

pub write_files-Returns : (files : Files) → Returns Anything (write_files files)
unfolding write_files
write_files-Returns files = record { ends = λ h w e. (e, tt) }

pub write_content-Returns : (path : Text) (c : Content) → Returns Anything (write_content path c)
unfolding write_content
write_content-Returns path c =
    then-Returns _ _ _ read_files-Returns (λ files. write_files-Returns _)

-- What a file holds, or an exception.
pub content-Returns :
    (path : Text) (found : Option Content)
    → Returns Anything (elim found as (λ _. Action Text) [
      | some (text s) ↦ done s
      | some (wrapper c f l) ↦ raise path
      | none ↦ raise path
    ])
content-Returns path none = raise-Returns _ _
content-Returns path (some (text s)) = done-Returns _ _ tt
content-Returns path (some (wrapper c f l)) = raise-Returns _ _

pub read_text-Returns : (path : Text) → Returns Anything (read_text path)
unfolding read_text
read_text-Returns path =
    then-Returns _ _ _ read_files-Returns (λ files. content-Returns path (lookup path files))

pub read_bytes-Returns : (path : Text) → Returns Anything (read_bytes path)
unfolding read_bytes
read_bytes-Returns path =
    then-Returns _ _ _ read_files-Returns (λ files. content-Returns path (lookup path files))
