-- ===== src/Comparison/Total.antt =====
-- Every sample of `_build_matrix` is taken: it fails only where a build fails.
use mathlib.Core.Path.{subst}
use psychicstd.Base.{
  ℕ, zero, suc, ◌+◌, ◌≡◌, refl, sym, ◌∙◌, false, Option, some, inl, inr, ◌⊎◌, List, [], ◌∷◌, Text,
  Dict, lookup, keys, contains, text_eq, All, NoDup, NoDupKeys, arith, ◌==◌,
}
use psychicstd.Recipes.World.{World, Host, Action, ◌>>=◌, done}
use psychicstd.Recipes.Core.{Toolchain, Timings, Project}
use psychicstd.Recipes.Returns.{Covers}
use psychicstd.Comparison.Matrix.{
  Samples, empty_samples, or_key_error, build_variants, build_rounds, build_matrix, chosen_phases,
}
use psychicstd.Comparison.Counts.{HasRow, add_build-counts, IsFull, empty_samples-counts}

-- What is asked of the end of an action: of the world where it returned, of its value, and of the
-- message where it raised.
abbrev pub EndsIn {ℓ} :
    {A : Type ℓ} → (Text → Type 0) → (World → Type 0) → (A → Type 0) → (Text ⊎ A) × World → Type 0
EndsIn E I P (inl e, w) = E e
EndsIn E I P (inr a, w) = I w × P a

-- On the host, an action ends like this from every world with the invariant.
pub record Ensures {ℓ} {A : Type ℓ} (h : Host) (E : Text → Type 0) (I : World → Type 0)
    (P : A → Type 0) (m : Action A) : Type ℓ where
  pub ends : (w : World) → I w → EndsIn E I P (m h w)

add-zero : (n : ℕ) → n ≡ n + 0
add-zero n = omega arith

zero_add : (n : ℕ) → 0 + n ≡ n
zero_add n = omega arith

add_suc : (n m : ℕ) → suc n + m ≡ n + suc m
add_suc n m = omega arith

module _ (h : Host) (E : Text → Type 0) (I : World → Type 0) where
  done-Ensures {ℓ} : {A : Type ℓ} (P : A → Type 0) (a : A) → P a → Ensures h E I P (done a)
  unfolding done
  done-Ensures P a p = record { ends = λ w i. (i, p) }

  >>=-Ensures {ℓ κ} :
      {A : Type ℓ} {B : Type κ} (P : A → Type 0) (Q : B → Type 0) (m : Action A) (f : A → Action B)
      → Ensures h E I P m
      → ((a : A) → P a → Ensures h E I Q (f a))
      → Ensures h E I Q (m >>= f)
  unfolding ◌>>=◌
  >>=-Ensures {A} {B} P Q m f em ef = record { ends = λ w i. go (m h w) (em.ends w i) }
    where
      go :
          (o : (Text ⊎ A) × World)
          → EndsIn E I P o
          → EndsIn E I Q (elim o.0 [ inl e ↦ (inl e, o.1) | inr a ↦ f a h o.1 ])
      go (inl e, w') r = r
      go (inr a, w') r = (ef a r.1).ends w' r.0

  weaken-Ensures {ℓ} :
      {A : Type ℓ} (P Q : A → Type 0) (m : Action A)
      → Ensures h E I P m
      → ((a : A) → P a → Q a)
      → Ensures h E I Q m
  weaken-Ensures {A} P Q m em f = record { ends = λ w i. go (m h w) (em.ends w i) }
    where
      go : (o : (Text ⊎ A) × World) → EndsIn E I P o → EndsIn E I Q o
      go (inl e, w') r = r
      go (inr a, w') r = (r.0, f a r.1)

  module _ (build : Toolchain → Action Timings) (phases : List Text) (nodup : NoDup phases)
      (builds : (tc : Toolchain) → Ensures h E I (Covers phases) (build tc)) where
    -- Each of the names has `n` samples.
    abbrev Filled : ℕ → List Text → Samples → Type 0
    Filled n names samples = All (λ name. HasRow n phases (lookup name samples)) names

    Filled-same :
        (n : ℕ) (names : List Text) (s s' : Samples) (name : Text)
        → contains names name ≡ false
        → ((other : Text) → name == other ≡ false → lookup other s' ≡ lookup other s)
        → Filled n names s
        → Filled n names s'
    Filled-same n [] s s' name out same has = tt
    Filled-same n (first ∷ names) s s' name out same has = (
      subst (HasRow n phases) (sym (same first (ground arith))) has.0,
      Filled-same n names s s' name (ground arith) same has.1,
    )

    or_key_error-Ensures :
        (P : Samples → Type 0) (o : Option Samples) (s : Samples)
        → o ≡ some s
        → P s
        → Ensures h E I P (or_key_error o)
    unfolding or_key_error
    or_key_error-Ensures P o s e p =
        subst (λ r. Ensures h E I P (or_key_error r)) (sym e) (done-Ensures P s p)

    -- What one repetition makes of samples that have `n` of each phase.
    abbrev After : ℕ → Dict Text Toolchain → Samples → Samples → Type 0
    After n variants samples s' =
        Filled (suc n) (keys variants) s'
        × ((other : Text)
            → contains (keys variants) other ≡ false
            → lookup other s' ≡ lookup other samples)

    build_variants-After :
        (n : ℕ) (variants : Dict Text Toolchain) (samples : Samples)
        → NoDupKeys variants
        → Filled n (keys variants) samples
        → Ensures h E I (After n variants samples) (build_variants build phases variants samples)
    unfolding build_variants
    build_variants-After n [] samples distinct has = done-Ensures _ _ (tt, λ other out. refl)
    build_variants-After n ((name, tc) ∷ variants) samples distinct has =
        >>=-Ensures (Covers phases) (After n ((name, tc) ∷ variants) samples) _ _ (builds tc)
          (λ t covers.
            let (s1, added, now, same) =
              add_build-counts n phases name t samples nodup covers has.0 in
            let rest : Ensures h E I (After n ((name, tc) ∷ variants) samples)
                (build_variants build phases variants s1) =
              weaken-Ensures (After n variants s1) (After n ((name, tc) ∷ variants) samples) _
                (build_variants-After n variants s1 distinct.1
                  (Filled-same n (keys variants) samples s1 name distinct.0 same has.1))
                (λ s' after. (
                  (subst (HasRow (suc n) phases) (sym (after.1 name distinct.0)) now, after.0),
                  λ other out.
                      after.1 other (ground (arith, out)) ∙ same other (ground (arith, out)),
                )) in
            >>=-Ensures (λ s. s ≡ s1) _ _ _ (or_key_error-Ensures _ _ s1 added refl)
              (λ s e.
                subst
                  (λ v.
                    Ensures h E I (After n ((name, tc) ∷ variants) samples)
                      (build_variants build phases variants v))
                  (sym e) rest))

    build_rounds-Filled :
        (reps n : ℕ) (variants : Dict Text Toolchain) (samples : Samples)
        → NoDupKeys variants
        → Filled n (keys variants) samples
        → Ensures h E I
            (Filled (n + reps) (keys variants))
            (build_rounds build phases reps variants samples)
    unfolding build_rounds
    build_rounds-Filled zero n variants samples distinct has =
        done-Ensures _ _ (subst (λ k. Filled k (keys variants) samples) (add-zero n) has)
    build_rounds-Filled (suc reps) n variants samples distinct has =
        >>=-Ensures (After n variants samples) _ _ _
          (build_variants-After n variants samples distinct has)
          (λ s after.
            subst
              (λ k.
                Ensures h E I (Filled k (keys variants))
                  (build_rounds build phases reps variants s))
              (add_suc n reps) (build_rounds-Filled reps (suc n) variants s distinct after.0))

    pub build_matrix-Filled :
        (variants : Dict Text Toolchain) (reps : ℕ)
        → NoDupKeys variants
        → Ensures h E I
            (Filled reps (keys variants))
            (build_rounds build phases reps variants (empty_samples phases variants))
    build_matrix-Filled variants reps distinct =
        subst
          (λ k.
            Ensures h E I (Filled k (keys variants))
              (build_rounds build phases reps variants (empty_samples phases variants)))
          (zero_add reps)
          (build_rounds-Filled reps 0 variants _ distinct
            (empty_samples-counts phases nodup variants distinct))

returned :
    {A : Type 0} {P : A → Type 0} (o : (Text ⊎ A) × World)
    → EndsIn (λ e. ⊥) (λ w. Unit) P o
    → (a : A) × (w' : World) × (o ≡ (inr a, w')) × P a
returned (inl e, w') r = absurd r
returned (inr a, w') r = (a, w', refl, r.1)

-- Where every build of every toolchain returns a time for each of the phases, `_build_matrix`
-- returns too, and each variant has exactly one sample of each phase for each repetition. The
-- phases and the names of the variants are each given once.
pub build_matrix-total :
    (variants : Dict Text Toolchain) (build : Toolchain → Action Timings) (reps : ℕ) (p : Project)
    (given : Option (List Text)) (h : Host) (w : World)
    → NoDup (chosen_phases given p)
    → NoDupKeys variants
    → ((tc : Toolchain) (v : World)
        → (t : Timings) × (v' : World) × (build tc h v ≡ (inr t, v'))
          × Covers (chosen_phases given p) t)
    → (samples : Samples) × (w' : World) × (build_matrix variants build reps p given h w
        ≡ (inr samples, w'))
      × IsFull reps (chosen_phases given p) variants samples
unfolding build_matrix
build_matrix-total variants build reps p given h w nodup distinct builds =
    returned (build_matrix variants build reps p given h w) (
      (build_matrix-Filled h (λ e. ⊥) (λ v. Unit) build (chosen_phases given p) nodup
          (λ tc. record {
            ends = λ v i.
                let (t, v', e, covers) = builds tc v in
                subst (EndsIn (λ m. ⊥) (λ u. Unit) (Covers (chosen_phases given p))) (sym e)
                  (tt, covers);
          })
          variants reps distinct).ends
        w tt)
