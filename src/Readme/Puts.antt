-- ===== src/Readme/Puts.antt =====
-- Where the rows of `_replace_block_rows` are put, and what becomes of a line.
use psychicstd.Base.{
  ℕ, suc, ◌+◌, ◌≡◌, refl, ap, ◌∙◌, Bool, true, false, ◌&&◌, Option, none, some, inl, inr, ◌⊎◌, List,
  [], ◌∷◌, Text, Dict, keys, map, length, starts_with, count_if, arith, if◌then◌else◌, ◌==◌,
  text_eq, nat_eq, ℕ_discrete,
}
use psychicstd.Readme.Blocks.{Problem}
use psychicstd.Readme.Rows.{row_indices, put_line, put_rows}

-- Whether exactly one of the lines starts with the key.
abbrev pub is_once : List Text → Text → Bool
is_once lines key = count_if (λ line. starts_with line key) lines == 1

abbrev pub every {ℓ} : {A : Type ℓ} → (A → Bool) → List A → Bool
every p [] = true
every p (x ∷ xs) = p x && every p xs

-- What becomes of a line: the last of the rows whose key it starts with, or what it is.
abbrev pub relined : Dict Text Text → Text → Text → Text
relined [] line current = current
relined ((key, replacement) ∷ rows) line current =
    relined rows line (if starts_with line key then replacement else current)

abbrev pub returned : {A : Type 0} → Problem ⊎ A → Option A
returned (inl p) = none
returned (inr a) = some a

pub length-row_indices :
    (key : Text) (n : ℕ) (lines : List Text)
    → length (row_indices key n lines) ≡ count_if (λ line. starts_with line key) lines
unfolding row_indices
length-row_indices key n [] = refl
length-row_indices key n (line ∷ lines) = ground (arith, length-row_indices key (suc n) lines)

-- With no row for the key, nothing changes.
map-none :
    (key replacement : Text) (n : ℕ) (lines : List Text) (f : Text → Text)
    → row_indices key n lines ≡ []
    → map f lines ≡ map (λ l. if starts_with l key then replacement else f l) lines
unfolding row_indices
map-none key replacement n [] f h = refl
map-none key replacement n (line ∷ lines) f h =
    ground (arith, h, map-none key replacement (suc n) lines f)

-- With one row for the key, that line is replaced.
put_line-map :
    (key replacement : Text) (n m : ℕ) (lines : List Text) (f : Text → Text)
    → row_indices key n lines ≡ m ∷ []
    → (k : ℕ) × (m ≡ n + k)
      × (put_line k replacement (map f lines)
          ≡ map (λ l. if starts_with l key then replacement else f l) lines)
unfolding row_indices put_line
put_line-map key replacement n m [] f h = ground (arith, h)
put_line-map key replacement n m (line ∷ lines) f h =
    go (starts_with line key) refl h (put_line-map key replacement (suc n) m lines f)
  where
    go :
        (b : Bool)
        → starts_with line key ≡ b
        → (if b then n ∷ row_indices key (suc n) lines else row_indices key (suc n) lines) ≡ m ∷ []
        → (row_indices key (suc n) lines ≡ m ∷ []
            → (k : ℕ) × (m ≡ suc n + k)
              × (put_line k replacement (map f lines)
                  ≡ map (λ l. if starts_with l key then replacement else f l) lines))
        → (k : ℕ) × (m ≡ n + k)
          × (put_line k replacement (f line ∷ map f lines)
              ≡ (if starts_with line key then replacement else f line)
                ∷ map (λ l. if starts_with l key then replacement else f l) lines)
    go true same e ih =
        (0, ground (arith, e), ground (arith, same, e, map-none key replacement (suc n) lines f))
    go false same e ih =
        let (k, place, rest) = ih e in (suc k, ground (arith, place), ground (arith, same, rest))

indices-once :
    (key : Text) (lines : List Text)
    → is_once lines key ≡ true
    → (m : ℕ) × (row_indices key 0 lines ≡ m ∷ [])
unfolding ℕ_discrete
indices-once key lines h = go (row_indices key 0 lines) refl (length-row_indices key 0 lines)
  where
    go :
        (indices : List ℕ)
        → row_indices key 0 lines ≡ indices
        → length (row_indices key 0 lines) ≡ count_if (λ line. starts_with line key) lines
        → (m : ℕ) × (row_indices key 0 lines ≡ m ∷ [])
    go [] same e = ground (arith, same, e, h)
    go (m ∷ []) same e = (m, same)
    go (m ∷ k ∷ more) same e = ground (arith, same, e, h)

-- Each key starts one line: then the rows that are put are those of the lines.
pub put_rows-map :
    (lines : List Text) (rows : Dict Text Text) (f : Text → Text)
    → every (is_once lines) (keys rows) ≡ true
    → put_rows lines rows (map f lines) ≡ map (λ l. relined rows l (f l)) lines
unfolding put_rows
put_rows-map lines [] f h = refl
put_rows-map lines ((key, replacement) ∷ rows) f h =
    let (m, found) = indices-once key lines (ground (arith, h)) in
    let (k, place, put) = put_line-map key replacement 0 m lines f found in
    let at : m ≡ k = omega (arith, place) in
    let put' = ap (λ n. put_line n replacement (map f lines)) at ∙ put in
    let rest =
      put_rows-map lines rows (λ l. if starts_with l key then replacement else f l)
        (ground (arith, h)) in
    let chosen : put_rows lines ((key, replacement) ∷ rows) (map f lines)
        ≡ put_rows lines rows (put_line m replacement (map f lines)) =
      ground (arith, found) in
    chosen ∙ ap (put_rows lines rows) put' ∙ rest
