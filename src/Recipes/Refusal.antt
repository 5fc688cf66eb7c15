-- ===== src/Recipes/Refusal.antt =====
-- Actions that raise before they start a command, in a world where no archive has the checksum.
use psychicstd.Base.{
  ◌≡◌, refl, Bool, true, false, Option, none, some, inl, inr, ◌⊎◌, text_eq, ◌==◌, arith,
  contains-keys_iff, lookup-insert, eq_refl,
}
use psychicstd.Base.{Text, lookup}
use psychicstd.Recipes.World.{
  World, Host, Action, Content, text, wrapper, ◌>>=◌, ask, done, raise, read_files, write_files,
  write_content,
}
use psychicstd.Recipes.Core.{fetch, retrieve_missing, read_bytes}

abbrev pub has_failed {ℓ} : {A : Type ℓ} → Text ⊎ A → Bool
has_failed (inl e) = true
has_failed (inr a) = false

-- In this world the action raises, and starts no command.
pub record Refuses {ℓ} {A : Type ℓ} (h : Host) (w : World) (m : Action A) : Type 0 where
  pub refuses : ((m h w).1.log ≡ w.log) × (has_failed (m h w).0 ≡ true)

pub >>=-Refuses {ℓ κ} :
    {A : Type ℓ} {B : Type κ} (h : Host) (w : World) (m : Action A) (f : A → Action B)
    → Refuses h w m
    → Refuses h w (m >>= f)
unfolding ◌>>=◌
>>=-Refuses {A} {B} h w m f r = record { refuses = go (m h w) r.refuses }
  where
    go :
        (o : (Text ⊎ A) × World)
        → (o.1.log ≡ w.log) × (has_failed o.0 ≡ true)
        → let result : (Text ⊎ B) × World = elim o.0 [ inl e ↦ (inl e, o.1) | inr a ↦ f a h o.1 ] in
          (result.1.log ≡ w.log) × (has_failed result.0 ≡ true)
    go (inl e, w') q = q
    go (inr a, w') q = ground (arith, q)

pub ask_then-Refuses {ℓ κ} :
    {A : Type ℓ} {B : Type κ} (h : Host) (w : World) (g : Host → A) (f : A → Action B)
    → Refuses h w (f (g h))
    → Refuses h w (ask g >>= f)
unfolding ◌>>=◌ ask
ask_then-Refuses h w g f r = record { refuses = r.refuses }

-- Neither the file at `dest` nor what the address gives has the checksum.
pub record IsUnmatched (h : Host) (w : World) (url dest checksum : Text) : Type 0 where
  pub on_disk : (s : Text) → lookup dest w.files ≡ some (text s) → (h.sha256 s == checksum) ≡ false
  pub remote : (s : Text) → h.retrieve url ≡ some s → (h.sha256 s == checksum) ≡ false

-- A download is checked with the bytes that `dest` holds, old or new.
pub fetch-Refuses :
    (h : Host) (w : World) (url dest checksum : Text)
    → IsUnmatched h w url dest checksum
    → Refuses h w (fetch url dest checksum)
unfolding fetch retrieve_missing read_bytes read_files write_content write_files ask done raise
    ◌>>=◌
fetch-Refuses h w url dest checksum wrong = record {
  refuses = go (lookup dest w.files) refl (h.retrieve url) refl;
}
  where
    go :
        (found : Option Content)
        → lookup dest w.files ≡ found
        → (download : Option Text) → h.retrieve url ≡ download
        → ((fetch url dest checksum h w).1.log ≡ w.log)
          × (has_failed (fetch url dest checksum h w).0 ≡ true)
    go none e none k = ground (arith, e, k, contains-keys_iff dest w.files)
    go none e (some s) k = ground (
      arith,
      e,
      k,
      contains-keys_iff dest w.files,
      lookup-insert dest dest (text s) w.files,
      eq_refl dest,
      wrong.remote s k,
    )
    go (some (text s)) e download k =
        ground (arith, e, contains-keys_iff dest w.files, wrong.on_disk s e)
    go (some (wrapper c f l)) e download k = ground (arith, e, contains-keys_iff dest w.files)
