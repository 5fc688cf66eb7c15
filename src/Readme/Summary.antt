-- ===== src/Readme/Summary.antt =====
-- `_replace_realworld_summary` writes the same README when it is run again.
use mathlib.Core.Path.{subst}
use mathlib.Core.List.{append_assoc}
use psychicstd.Base.{
  ℕ, ◌≡◌, refl, sym, ap, ◌∙◌, Bool, true, false, not, some, inl, inr, ◌⊎◌, List, [], ◌∷◌, ◌++◌,
  Text, codes, keep, any, All, strip, lstrip, rstrip, is_space, starts_with, after_prefix,
  join_lines, IsLine, is_line_break, arith, if◌then◌else◌, ◌==◌, text_eq, nat_eq, ℕ_discrete,
}
use psychicstd.Readme.Blocks.{
  Problem, no_speedups, and_then, Block, find_marker_match, is_marker_line, end_mark, body_text,
  fill, drop_blank_end, coerce_marker_body_lines,
}
use psychicstd.Readme.Lens.{find_marker_match-IsFound}
use psychicstd.Readme.Patterns.{is_summary, summary_start}
use psychicstd.Readme.Rows.{
  edit_block, row_speedups, without_summary, summary_line, with_summary, replace_realworld_summary,
}
use psychicstd.Readme.Blank.{
  drop_blank_end-blank, drop_blank_end_idem, drop_blank_end-nil, All-drop_blank_end, All-keep,
  All-append, All-keep-holds, keep-All, keep-append, coerce-All,
}
use psychicstd.Readme.Again.{edit_block-found, edit_block-again}

any-All : (p : ℕ → Bool) (s : Text) → any p s ≡ false → All (λ c. p c ≡ false) s
any-All p [] h = tt
any-All p (c ∷ s) h = (ground (arith, h), any-All p s (ground (arith, h)))

append-IsLine : (s t : Text) → IsLine s → IsLine t → IsLine (s ++ t)
append-IsLine [] t h k = k
append-IsLine (c ∷ s) t h k = (h.0, append-IsLine s t h.1 k)

literal-IsLine : (s t : Text) → any is_line_break s ≡ false → IsLine t → IsLine (s ++ t)
literal-IsLine s t h k = append-IsLine s t (any-All is_line_break s h) k

strip-cons : (c : ℕ) (s : Text) → is_space c ≡ false → (strip (c ∷ s) == []) ≡ false
unfolding strip lstrip rstrip text_eq
strip-cons c s h = go (rstrip s) refl
  where
    go : (rest : Text) → rstrip s ≡ rest → (strip (c ∷ s) == []) ≡ false
    go [] e = ground (arith, h, e)
    go (d ∷ rest) e = ground (arith, h, e)

All-without_summary :
    (P : Text → Type 0) (lines : List Text) → All P lines → All P (without_summary lines)
unfolding without_summary
All-without_summary P lines h =
    All-drop_blank_end P (keep (λ line. not (is_summary line)) lines)
      (All-keep P (λ line. not (is_summary line)) lines h)

module _ (geometric_mean median : List Text → Text) where
  summary_line-IsLine :
      ((numbers : List Text) → IsLine (geometric_mean numbers))
      → ((numbers : List Text) → IsLine (median numbers))
      → (numbers : List Text) → IsLine (summary_line geometric_mean median numbers)
  unfolding summary_line is_line_break ℕ_discrete
  summary_line-IsLine g m numbers =
      literal-IsLine
        (codes "Across the listed workloads, the geometric-mean compile-time speedup is **") _ refl
        (append-IsLine (geometric_mean numbers) _ (g numbers) (
          literal-IsLine (codes "x** and the median speedup is **") _ refl (
            append-IsLine (median numbers) _ (m numbers)
              (any-All is_line_break (codes "x**.") refl))))

  summary_line-is_summary :
      (numbers : List Text) → is_summary (summary_line geometric_mean median numbers) ≡ true
  unfolding summary_line is_summary summary_start starts_with after_prefix nat_eq ℕ_discrete
  summary_line-is_summary numbers = refl

  summary_line-stays :
      (numbers : List Text) → (strip (summary_line geometric_mean median numbers) == []) ≡ false
  unfolding summary_line is_space ℕ_discrete nat_eq
  summary_line-stays numbers = strip-cons 65 _ refl

  -- The rows are found again behind the summary that was added.
  without_summary-again :
      (lines : List Text) (numbers : List Text)
      → let rows = without_summary lines in
        let summary = summary_line geometric_mean median numbers in
        (drop_blank_end (rows ++ ([] ∷ summary ∷ [] ∷ [])) ≡ rows ++ ([] ∷ summary ∷ []))
        × (without_summary (rows ++ ([] ∷ summary ∷ [])) ≡ rows)
  unfolding without_summary
  without_summary-again lines numbers =
      let rows = without_summary lines in
      let summary = summary_line geometric_mean median numbers in
      let others : Text → Bool = λ line. not (is_summary line) in
      let kept : keep others rows ≡ rows = keep-All others rows (
        All-drop_blank_end (λ l. others l ≡ true) (keep others lines)
          (All-keep-holds others lines)) in
      (
        ap drop_blank_end (sym (append_assoc rows ([] ∷ []) (summary ∷ [] ∷ [])))
            ∙ drop_blank_end-blank (rows ++ ([] ∷ [])) ([] ∷ []) summary refl
                (summary_line-stays numbers)
            ∙ append_assoc rows ([] ∷ []) (summary ∷ []),
        ap drop_blank_end (
              keep-append others rows ([] ∷ summary ∷ [])
              ∙ ap (λ ls. ls ++ keep others ([] ∷ summary ∷ [])) kept
              ∙ ap (λ b. rows ++ ([] ∷ (if not b then summary ∷ [] else [])))
                  (summary_line-is_summary numbers))
            ∙ drop_blank_end-nil rows
            ∙ drop_blank_end_idem (keep others lines),
      )

  summary_line-no_end :
      (marker : Text) (numbers : List Text)
      → is_marker_line (end_mark marker) (summary_line geometric_mean median numbers) ≡ false
  unfolding summary_line is_marker_line end_mark after_prefix nat_eq ℕ_discrete
  summary_line-no_end marker numbers = refl

  with_summary-again :
      (marker : Text) (lines : List Text) (first : Text) (rest out : List Text)
      → without_summary lines ≡ first ∷ rest
      → with_summary geometric_mean median marker lines ≡ inr out
      → (numbers : List Text) × (out
          ≡ without_summary lines ++ ([] ∷ summary_line geometric_mean median numbers ∷ [] ∷ []))
        × (with_summary geometric_mean median marker (drop_blank_end out) ≡ inr out)
  unfolding with_summary
  with_summary-again marker lines first rest out shown e =
      go (row_speedups (without_summary lines)) refl e
    where
      go :
          (numbers : List Text)
          → row_speedups (without_summary lines) ≡ numbers
          → (let made : Problem ⊎ List Text = elim numbers [
            | [] ↦ inl (no_speedups marker)
            | number ∷ more ↦ inr (
                without_summary lines
                ++ ([] ∷ summary_line geometric_mean median (number ∷ more) ∷ [] ∷ []))
          ] in
              made ≡ inr out)
          → (numbers : List Text) × (out
              ≡ without_summary lines
                ++ ([] ∷ summary_line geometric_mean median numbers ∷ [] ∷ []))
            × (with_summary geometric_mean median marker (drop_blank_end out) ≡ inr out)
      go [] same h = ground (arith, h)
      go (number ∷ more) same h =
          let written : out
              ≡ without_summary lines
                ++ ([] ∷ summary_line geometric_mean median (number ∷ more) ∷ [] ∷ []) =
            ground (arith, h) in
          let (kept, again) = without_summary-again lines (number ∷ more) in
          let rows : without_summary (drop_blank_end out) ≡ without_summary lines =
            ap (λ ls. without_summary (drop_blank_end ls)) written
            ∙ ap without_summary kept
            ∙ again in
          (number ∷ more, written, ground (arith, same, rows, written))

-- Running `_replace_realworld_summary` on what it returned returns it unchanged. The lines of the
-- block have no other line breaks, its rows do not begin with a blank line, and the formatted
-- means are single lines.
pub replace_realworld_summary_again :
    (geometric_mean median : List Text → Text) (readme marker r : Text) (b : Block) (first : Text)
    (rest : List Text)
    → find_marker_match readme marker ≡ some b
    → All IsLine b.body
    → ((numbers : List Text) → IsLine (geometric_mean numbers))
    → ((numbers : List Text) → IsLine (median numbers))
    → without_summary (coerce_marker_body_lines (body_text b)) ≡ first ∷ rest
    → (strip first == []) ≡ false
    → replace_realworld_summary geometric_mean median readme marker ≡ inr r
    → replace_realworld_summary geometric_mean median r marker ≡ inr r
unfolding replace_realworld_summary and_then is_marker_line end_mark after_prefix fill
replace_realworld_summary_again geometric_mean median readme marker r b first rest found lined g m
      shown solid e =
    go (with_summary geometric_mean median marker (coerce_marker_body_lines (body_text b))) refl
      (sym (edit_block-found readme marker (with_summary geometric_mean median marker) b found) ∙ e)
  where
    go :
        (o : Problem ⊎ List Text)
        → with_summary geometric_mean median marker (coerce_marker_body_lines (body_text b)) ≡ o
        → and_then o (λ lines. inr (fill b (join_lines lines))) ≡ inr r
        → replace_realworld_summary geometric_mean median r marker ≡ inr r
    go (inl p) same h = ground (arith, h)
    go (inr out) same h =
        let lines = coerce_marker_body_lines (body_text b) in
        let (numbers, written, again) =
          with_summary-again geometric_mean median marker lines first rest out shown same in
        let added : List Text = [] ∷ summary_line geometric_mean median numbers ∷ [] ∷ [] in
        let whole : out ≡ first ∷ (rest ++ added) = written ∙ ap (λ ls. ls ++ added) shown in
        let all : (P : Text → Type 0)
            → P []
            → All P b.body
            → P (summary_line geometric_mean median numbers)
            → All P (first ∷ (rest ++ added)) =
          λ P empty body summary.
            subst (λ ls. All P (ls ++ added)) shown
              (All-append P (without_summary lines) added
                (All-without_summary P lines (coerce-All P b lined empty body))
                (empty, (summary, (empty, tt)))) in
        let filled : fill b (join_lines out) ≡ r = ground (arith, h) in
        let twice =
          edit_block-again readme marker (with_summary geometric_mean median marker) b first
            (rest ++ added) found
            (all IsLine tt lined (summary_line-IsLine geometric_mean median g m numbers))
            (all (λ l. is_marker_line (end_mark marker) l ≡ false) refl
              (find_marker_match-IsFound readme marker b found).no_end
              (summary_line-no_end geometric_mean median marker numbers))
            solid
            (subst (λ ls. with_summary geometric_mean median marker (drop_blank_end ls) ≡ inr ls)
              whole again) in
        subst (λ t. edit_block t marker (with_summary geometric_mean median marker) ≡ inr t)
          (ap (λ ls. fill b (join_lines ls)) (sym whole) ∙ filled) twice
