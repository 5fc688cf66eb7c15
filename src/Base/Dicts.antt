-- ===== src/Base/Dicts.antt =====
-- Python's `dict` in insertion order. Proofs elsewhere go by the laws.
use Prim.Native.Nat.{suc}
use mathlib.Core.Path.{◌≡◌, refl, ap}
use mathlib.Core.Bool.{Bool, true, false, cond, ◌||◌}
use mathlib.Core.Option.{Option, none, some}
use mathlib.Core.List.{List, [], ◌∷◌}
use native.Mathlib.Omega.{arith}
use psychicstd.Base.Tests.{if◌then◌else◌, Eq, ◌==◌, contains}
use psychicstd.Base.Lists.{length, keep}
use psychicstd.Base.Sets.{NoDup}

abbrev pub Dict {ℓ κ} : Type ℓ → Type κ → Type (ℓ ⊔ κ)
Dict K V = List (K × V)

module _ {ℓ κ} {K : Type ℓ} {V : Type κ} where
  abbrev pub keys : Dict K V → List K
  keys [] = []
  keys ((k, v) ∷ d) = k ∷ keys d

  abbrev pub values : Dict K V → List V
  values [] = []
  values ((k, v) ∷ d) = v ∷ values d

  -- `{k: v for k, v in d.items() if p(k)}`
  abbrev pub keep_keys : (K → Bool) → Dict K V → Dict K V
  keep_keys p [] = []
  keep_keys p ((k, v) ∷ d) = cond (p k) ((k, v) ∷ keep_keys p d) (keep_keys p d)

module _ {ℓ κ} {K : Type ℓ} {V : Type κ} ⦃e : Eq K⦄ where
  -- `d.get(k)`
  abbrev pub lookup : K → Dict K V → Option V
  lookup k [] = none
  lookup k ((j, v) ∷ d) = if j == k then some v else lookup k d

  -- `d[k] = v`
  abbrev pub insert : K → V → Dict K V → Dict K V
  insert k v [] = (k, v) ∷ []
  insert k v ((j, w) ∷ d) = if j == k then (k, v) ∷ d else (j, w) ∷ insert k v d

  -- The pairs inserted in turn, as a `for` loop does it.
  abbrev pub insert_all : Dict K V → Dict K V → Dict K V
  insert_all [] d = d
  insert_all ((k, v) ∷ more) d = insert_all more (insert k v d)

  abbrev pub NoDupKeys : Dict K V → Type 0
  NoDupKeys d = NoDup (keys d)

  pub lookup-insert :
      (j k : K) (v : V) (d : Dict K V)
      → lookup j (insert k v d) ≡ (if k == j then some v else lookup j d)
  lookup-insert j k v [] = refl
  lookup-insert j k v ((i, w) ∷ d) = ground (arith, lookup-insert j k v d)

  pub contains-keys-insert :
      (j k : K) (v : V) (d : Dict K V)
      → contains (keys (insert k v d)) j ≡ (j == k || contains (keys d) j)
  contains-keys-insert j k v [] = ground arith
  contains-keys-insert j k v ((i, w) ∷ d) = ground (arith, contains-keys-insert j k v d)

  pub insert-NoDupKeys : (k : K) (v : V) (d : Dict K V) → NoDupKeys d → NoDupKeys (insert k v d)
  insert-NoDupKeys k v [] h = ground arith
  insert-NoDupKeys k v ((i, w) ∷ d) h =
      ground (arith, insert-NoDupKeys k v d h.1, contains-keys-insert i k v d)

  pub insert_all-NoDupKeys : (m d : Dict K V) → NoDupKeys d → NoDupKeys (insert_all m d)
  insert_all-NoDupKeys [] d h = h
  insert_all-NoDupKeys ((k, v) ∷ m) d h = insert_all-NoDupKeys m _ (insert-NoDupKeys k v d h)

  pub contains-keys-insert_all :
      (j : K) (m d : Dict K V)
      → contains (keys (insert_all m d)) j ≡ (contains (keys m) j || contains (keys d) j)
  contains-keys-insert_all j [] d = refl
  contains-keys-insert_all j ((k, v) ∷ m) d =
      ground (arith, contains-keys-insert_all j m (insert k v d), contains-keys-insert j k v d)

  -- A key that is inserted is found with what the last insertion gave it.
  pub lookup-insert_all :
      (j : K) (m d : Dict K V)
      → NoDupKeys m
      → lookup j (insert_all m d) ≡ (if contains (keys m) j then lookup j m else lookup j d)
  lookup-insert_all j [] d h = refl
  lookup-insert_all j ((k, v) ∷ m) d h =
      ground (arith, lookup-insert_all j m (insert k v d) h.1, lookup-insert j k v d)

  pub contains-keys_iff :
      (k : K) (d : Dict K V)
      → contains (keys d) k ≡ (elim (lookup k d) [ none ↦ false | some _ ↦ true ])
  contains-keys_iff k [] = refl
  contains-keys_iff k ((j, v) ∷ d) = ground (arith, contains-keys_iff k d)

  pub contains-keys-keep_keys :
      (p : K → Bool) (k : K) (d : Dict K V)
      → contains (keys (keep_keys p d)) k ≡ (if p k then contains (keys d) k else false)
  contains-keys-keep_keys p k [] = ground arith
  contains-keys-keep_keys p k ((j, v) ∷ d) = ground (arith, contains-keys-keep_keys p k d)

  pub keep_keys-NoDupKeys : (p : K → Bool) (d : Dict K V) → NoDupKeys d → NoDupKeys (keep_keys p d)
  keep_keys-NoDupKeys p [] h = tt
  keep_keys-NoDupKeys p ((k, v) ∷ d) h =
      ground (arith, keep_keys-NoDupKeys p d h.1, contains-keys-keep_keys p k d)

  pub lookup-keep_keys :
      (p : K → Bool) (k : K) (d : Dict K V)
      → lookup k (keep_keys p d) ≡ (if p k then lookup k d else none)
  lookup-keep_keys p k [] = ground arith
  lookup-keep_keys p k ((j, v) ∷ d) = ground (arith, lookup-keep_keys p k d)

pub length-keys {ℓ κ} : {K : Type ℓ} {V : Type κ} (d : Dict K V) → length (keys d) ≡ length d
length-keys [] = refl
length-keys ((k, v) ∷ d) = ap suc (length-keys d)

pub length-values {ℓ κ} :
    {K : Type ℓ} {V : Type κ} (d : Dict K V) → length (values d) ≡ length (keys d)
length-values [] = refl
length-values ((k, v) ∷ d) = ap suc (length-values d)

pub keys-keep_keys {ℓ κ} :
    {K : Type ℓ} {V : Type κ} (p : K → Bool) (d : Dict K V) → keys (keep_keys p d) ≡ keep p (keys d)
keys-keep_keys p [] = refl
keys-keep_keys p ((k, v) ∷ d) = ground (arith, keys-keep_keys p d)
