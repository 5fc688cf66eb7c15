-- ===== src/Comparison/Counts.antt =====
-- How many samples `_build_matrix` keeps, and that it looks up no missing key.
use mathlib.Core.Path.{subst}
use psychicstd.Base.{
  ℕ, suc, ◌≡◌, refl, sym, ap, ◌∙◌, true, false, Option, none, some, inl, inr, List, [], ◌∷◌, ◌++◌,
  Text, Dict, lookup, insert, insert_all, map, keys, contains, text_eq, length, length-append, All,
  NoDup, NoDupKeys, lookup-insert, lookup-insert_all, All-of_contains, arith, ◌==◌,
  contains-keys_iff, eq→≡, eq_refl, Option-cases,
}
use psychicstd.Recipes.World.{done}
use psychicstd.Recipes.Core.{Toolchain, Timings}
use psychicstd.Recipes.Returns.{Covers}
use psychicstd.Comparison.Matrix.{Row, Samples, empty_row, empty_samples, append_times, add_build}

-- How many samples the row has of the phase.
abbrev pub count_of : Text → Row → Option ℕ
count_of p row = elim (lookup p row) [ none ↦ none | some xs ↦ some (length xs) ]

-- The row has `n` samples of each phase.
abbrev pub HasCounts : ℕ → List Text → Row → Type 0
HasCounts n phases row = All (λ p. count_of p row ≡ some n) phases

-- There is such a row.
abbrev pub HasRow : ℕ → List Text → Option Row → Type 0
HasRow n phases none = ⊥
HasRow n phases (some row) = HasCounts n phases row

-- Each variant has `n` samples of each phase.
abbrev pub IsFull : ℕ → List Text → Dict Text Toolchain → Samples → Type 0
IsFull n phases variants samples =
    All (λ name. HasRow n phases (lookup name samples)) (keys variants)

HasCounts-insert :
    (n : ℕ) (phases : List Text) (p : Text) (xs : List ℕ) (row : Row)
    → contains phases p ≡ false
    → HasCounts n phases row
    → HasCounts n phases (insert p xs row)
HasCounts-insert n [] p xs row out has = tt
HasCounts-insert n (q ∷ phases) p xs row out has = (
  ground (arith, lookup-insert q p xs row, out, has.0),
  HasCounts-insert n phases p xs row (ground arith) has.1,
)

found_of_contains {ℓ} :
    {V : Type ℓ} (k : Text) (d : Dict Text V)
    → contains (keys d) k ≡ true
    → (v : V) × (lookup k d ≡ some v)
found_of_contains k d h = elim (Option-cases (lookup k d)) [
  | inl e ↦ ground (arith, contains-keys_iff k d, e)
  | inr (v, e) ↦ (v, e)
]

row_of_count :
    (p : Text) (n : ℕ) (row : Row)
    → count_of p row ≡ some n
    → (xs : List ℕ) × (lookup p row ≡ some xs) × (length xs ≡ n)
row_of_count p n row h = elim (Option-cases (lookup p row)) [
  | inl e ↦ ground (arith, e)
  | inr (xs, e) ↦ (xs, e, ground (arith, e))
]

-- A dictionary comprehension with one value for all keys.
module _ {A V : Type 0} (f : A → Text) (v : V) where
  keys-map : (xs : List A) → keys (map (λ x. (f x, v)) xs) ≡ map f xs
  keys-map [] = refl
  keys-map (x ∷ xs) = ap (λ ks. f x ∷ ks) (keys-map xs)

  lookup-map :
      (k : Text) (xs : List A)
      → contains (map f xs) k ≡ true
      → lookup k (map (λ x. (f x, v)) xs) ≡ some v
  lookup-map k [] h = cc
  lookup-map k (x ∷ xs) h = ground (arith, lookup-map k xs, eq→≡ k (f x), eq_refl k)

  lookup-constant :
      (k : Text) (xs : List A)
      → NoDup (map f xs)
      → contains (map f xs) k ≡ true
      → lookup k (insert_all (map (λ x. (f x, v)) xs) []) ≡ some v
  lookup-constant k xs distinct h =
      let made = map (λ x. (f x, v)) xs in
      let apart : NoDup (keys made) = subst NoDup (sym (keys-map xs)) distinct in
      let within : contains (keys made) k ≡ true = ap (λ ks. contains ks k) (keys-map xs) ∙ h in
      lookup-insert_all k made [] apart ∙ ground (arith, within, lookup-map k xs h)

-- A build that timed every phase adds one sample to each.
append_times-counts :
    (t : Timings) (n : ℕ) (phases : List Text) (row : Row)
    → NoDup phases
    → Covers phases t
    → HasCounts n phases row
    → (row' : Row) × (append_times t phases row ≡ some row')
      × HasCounts (suc n) phases row'
      × ((q : Text) → contains phases q ≡ false → lookup q row' ≡ lookup q row)
unfolding append_times
append_times-counts t n [] row nodup covers has = (row, refl, tt, λ q out. refl)
append_times-counts t n (p ∷ phases) row nodup covers has =
    let (ms, timed) = found_of_contains p t covers.0 in
    let (xs, there, long) = row_of_count p n row has.0 in
    let grown = xs ++ (ms ∷ []) in
    let (row', done, counts, same) =
      append_times-counts t n phases (insert p grown row) nodup.1 covers.1
        (HasCounts-insert n phases p grown row nodup.0 has.1) in
    (
      row',
      rw (timed, append_times) (rw (there) done),
      (
        ground (
          arith,
          same p nodup.0,
          lookup-insert p p grown row,
          eq_refl p,
          long,
          length-append xs (ms ∷ []),
        ),
        counts,
      ),
      λ q out. ground (arith, same q, lookup-insert q p grown row, eq→≡ q p),
    )

lookup-insert_self :
    (name : Text) (row : Row) (samples : Samples) → lookup name (insert name row samples) ≡ some row
lookup-insert_self name row samples =
    ground (arith, lookup-insert name name row samples, eq_refl name)

-- One build of a variant that has `n` samples of each phase.
pub add_build-counts :
    (n : ℕ) (phases : List Text) (name : Text) (t : Timings) (samples : Samples)
    → NoDup phases
    → Covers phases t
    → HasRow n phases (lookup name samples)
    → (samples' : Samples) × (add_build phases name t samples ≡ some samples')
      × HasRow (suc n) phases (lookup name samples')
      × ((other : Text) → name == other ≡ false → lookup other samples' ≡ lookup other samples)
unfolding add_build
add_build-counts n phases name t samples nodup covers has =
    elim (Option-cases (lookup name samples)) [
      | inl e ↦ absurd (subst (HasRow n phases) e has)
      | inr (row, e) ↦
          let (row', done, counts, _) =
            append_times-counts t n phases row nodup covers (subst (HasRow n phases) e has) in
          (
            insert name row' samples,
            rw (e, add_build) (rw (done) refl),
            subst (HasRow (suc n) phases) (sym (lookup-insert_self name row' samples)) counts,
            λ other differs. ground (arith, lookup-insert other name row' samples, differs),
          )
    ]

map_self : (xs : List Text) → map (λ x. x) xs ≡ xs
map_self [] = refl
map_self (x ∷ xs) = ap (λ ys. x ∷ ys) (map_self xs)

map-keys : {V : Type 0} (d : Dict Text V) → map (λ v. v.0) d ≡ keys d
map-keys [] = refl
map-keys ((k, v) ∷ d) = ap (λ ks. k ∷ ks) (map-keys d)

empty_row-counts : (phases : List Text) → NoDup phases → HasCounts 0 phases (empty_row phases)
unfolding empty_row
empty_row-counts phases nodup = All-of_contains _ phases (λ p h.
    let empty : lookup p (empty_row phases) ≡ some [] =
      lookup-constant (λ x. x) [] p phases (subst NoDup (sym (map_self phases)) nodup)
        (ap (λ ps. contains ps p) (map_self phases) ∙ h) in
    rw (empty, count_of) refl)

-- The samples begin with an empty row of the phases for each variant.
pub empty_samples-counts :
    (phases : List Text)
    → NoDup phases
    → (variants : Dict Text Toolchain) → NoDupKeys variants
    → All (λ name. HasRow 0 phases (lookup name (empty_samples phases variants))) (keys variants)
unfolding empty_samples
empty_samples-counts phases nodup variants distinct = All-of_contains _ (keys variants) (λ name h.
    let there : lookup name (empty_samples phases variants) ≡ some (empty_row phases) =
      lookup-constant (λ v. v.0) (empty_row phases) name variants
        (subst NoDup (sym (map-keys variants)) distinct)
        (ap (λ ks. contains ks name) (map-keys variants) ∙ h) in
    subst (HasRow 0 phases) (sym there) (empty_row-counts phases nodup))
