-- ===== src/Readme/Lines.antt =====
-- `_replace_block_rows` and `_replace_realworld_rows`, line by line.
use psychicstd.Base.{
  ℕ, ◌≡◌, refl, sym, ap, ◌∙◌, Bool, true, false, not, none, some, inl, inr, ◌⊎◌, List, [], ◌∷◌,
  Text, Dict, keys, map, keep, length, starts_with, count_if, join_lines, arith, if◌then◌else◌,
  text_eq, nat_eq, ℕ_discrete,
}
use psychicstd.Readme.Blocks.{
  Problem, rows_missing, rows_ambiguous, and_then, Block, find_marker_match, body_text, fill,
  coerce_marker_body_lines,
}
use psychicstd.Readme.Rows.{
  row_indices, is_missing, is_ambiguous, put_rows, replaced_rows, edit_block, replace_block_rows,
}
use psychicstd.Readme.Puts.{is_once, every, relined, returned, length-row_indices, put_rows-map}

map-id : (lines : List Text) → map (λ l. l) lines ≡ lines
map-id [] = refl
map-id (line ∷ lines) = ap (λ ls. line ∷ ls) (map-id lines)

is_once-missing :
    (lines : List Text) (key : Text) → is_missing lines key ≡ true → is_once lines key ≡ false
unfolding is_missing ℕ_discrete
is_once-missing lines key h = go (row_indices key 0 lines) refl (length-row_indices key 0 lines)
  where
    go :
        (indices : List ℕ)
        → row_indices key 0 lines ≡ indices
        → length (row_indices key 0 lines) ≡ count_if (λ line. starts_with line key) lines
        → is_once lines key ≡ false
    go [] same e = ground (arith, same, e)
    go (m ∷ more) same e = ground (arith, same, h)

is_once-ambiguous :
    (lines : List Text) (key : Text)
    → is_missing lines key ≡ false
    → is_once lines key ≡ not (is_ambiguous lines key)
unfolding is_missing is_ambiguous ℕ_discrete
is_once-ambiguous lines key h = go (row_indices key 0 lines) refl (length-row_indices key 0 lines)
  where
    go :
        (indices : List ℕ)
        → row_indices key 0 lines ≡ indices
        → length (row_indices key 0 lines) ≡ count_if (λ line. starts_with line key) lines
        → is_once lines key ≡ not (is_ambiguous lines key)
    go [] same e = ground (arith, same, h)
    go (m ∷ []) same e = ground (arith, same, e)
    go (m ∷ k ∷ more) same e = ground (arith, same, e)

keep-some :
    (p q : Text → Bool) (keys more : List Text) (key : Text)
    → ((k : Text) → p k ≡ true → q k ≡ false)
    → keep p keys ≡ key ∷ more
    → every q keys ≡ false
keep-some p q [] more key h e = ground (arith, e)
keep-some p q (k ∷ keys) more key h e = go (p k) refl e (λ e'. keep-some p q keys more key h e')
  where
    go :
        (b : Bool)
        → p k ≡ b
        → (if b then k ∷ keep p keys else keep p keys) ≡ key ∷ more
        → (keep p keys ≡ key ∷ more → every q keys ≡ false)
        → every q (k ∷ keys) ≡ false
    go true same e' ih = ground (arith, h k same)
    go false same e' ih = ground (arith, ih e')

keep-none :
    (p r q : Text → Bool) (keys : List Text)
    → ((k : Text) → p k ≡ false → q k ≡ not (r k))
    → keep p keys ≡ []
    → keep r keys ≡ []
    → every q keys ≡ true
keep-none p r q [] h e f = refl
keep-none p r q (k ∷ keys) h e f = ground (arith, e, f, h k, keep-none p r q keys h)

keep-ambiguous :
    (p r q : Text → Bool) (keys more : List Text) (key : Text)
    → ((k : Text) → p k ≡ false → q k ≡ not (r k))
    → keep p keys ≡ []
    → keep r keys ≡ key ∷ more
    → every q keys ≡ false
keep-ambiguous p r q [] more key h e f = ground (arith, f)
keep-ambiguous p r q (k ∷ keys) more key h e f =
    ground (arith, e, f, h k, keep-ambiguous p r q keys more key h)

replaced_rows-returned :
    (marker : Text) (rows : Dict Text Text) (lines : List Text)
    → returned (replaced_rows marker rows lines) ≡ (
        if every (is_once lines) (keys rows)
        then some (map (λ l. relined rows l l) lines)
        else none)
unfolding replaced_rows
replaced_rows-returned marker rows lines =
    go (keep (is_missing lines) (keys rows)) refl (keep (is_ambiguous lines) (keys rows)) refl
  where
    go :
        (missing : List Text)
        → keep (is_missing lines) (keys rows) ≡ missing
        → (ambiguous : List Text) → keep (is_ambiguous lines) (keys rows) ≡ ambiguous
        → returned (elim missing as (λ _. Problem ⊎ List Text) [
          | key ∷ more ↦ inl (rows_missing marker (key ∷ more))
          | [] ↦ elim ambiguous [
            | key ∷ more ↦ inl (rows_ambiguous marker (key ∷ more))
            | [] ↦ inr (put_rows lines rows lines)
          ]
        ])
          ≡ (if every (is_once lines) (keys rows)
              then some (map (λ l. relined rows l l) lines)
              else none)
    go (key ∷ more) e ambiguous f =
        ground (arith, keep-some _ (is_once lines) (keys rows) more key (is_once-missing lines) e)
    go [] e (key ∷ more) f = ground (
      arith,
      keep-ambiguous _ _ (is_once lines) (keys rows) more key (is_once-ambiguous lines) e f,
    )
    go [] e [] f =
        let all = keep-none _ _ (is_once lines) (keys rows) (is_once-ambiguous lines) e f in
        let put =
          ap (put_rows lines rows) (sym (map-id lines)) ∙ put_rows-map lines rows (λ l. l) all in
        ground (arith, all, put)

-- Where the block is found, `_replace_block_rows` returns exactly if each key starts exactly one of
-- its lines. Then each line is replaced by the last of the rows whose key it starts with, if there
-- is one, and what stands outside the block is kept.
pub replace_block_rows-lines :
    (readme marker : Text) (rows : Dict Text Text) (b : Block)
    → find_marker_match readme marker ≡ some b
    → returned (replace_block_rows readme marker rows) ≡ (
        let lines = coerce_marker_body_lines (body_text b) in
        if every (is_once lines) (keys rows)
        then some (fill b (join_lines (map (λ l. relined rows l l) lines)))
        else none)
unfolding replace_block_rows edit_block and_then
replace_block_rows-lines readme marker rows b e =
    go (replaced_rows marker rows (coerce_marker_body_lines (body_text b))) refl
      (replaced_rows-returned marker rows (coerce_marker_body_lines (body_text b)))
  where
    go :
        (o : Problem ⊎ List Text)
        → replaced_rows marker rows (coerce_marker_body_lines (body_text b)) ≡ o
        → returned (replaced_rows marker rows (coerce_marker_body_lines (body_text b))) ≡ (
            let lines = coerce_marker_body_lines (body_text b) in
            if every (is_once lines) (keys rows)
            then some (map (λ l. relined rows l l) lines)
            else none)
        → returned (replace_block_rows readme marker rows) ≡ (
            let lines = coerce_marker_body_lines (body_text b) in
            if every (is_once lines) (keys rows)
            then some (fill b (join_lines (map (λ l. relined rows l l) lines)))
            else none)
    go (inl p) same h = ground (arith, e, same, h)
    go (inr out) same h = ground (arith, e, same, h)
