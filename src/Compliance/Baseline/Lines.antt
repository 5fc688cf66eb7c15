-- ===== src/Compliance/Baseline/Lines.antt =====
-- A baseline that was saved is loaded with the same members.
use psychicstd.Base.{◌≡◌, refl, ap, ◌∙◌, true, false, some, List, [], ◌∷◌, ◌++◌}
use psychicstd.Base.{Text, codes, strip, All, contains, contains-to_set, contains-sort, All-sort}
use psychicstd.Base.{
  is_line_break, split_lines, join_lines, split_lines-join_lines, IsLine, ℕ_discrete, sort_texts,
  text_leb, text_eq, nat_eq,
}
use psychicstd.Compliance.Baseline.{
  is_id, baseline_ids, load_baseline, baseline_header, save_baseline,
}

-- An id that stands on a line of its own and is no comment.
pub record IsClean (id : Text) : Type 0 where
  pub one_line : IsLine id
  pub trimmed : strip id ≡ id
  pub named : is_id id ≡ true

baseline_ids_clean : (ids : List Text) → All IsClean ids → baseline_ids ids ≡ ids
unfolding baseline_ids
baseline_ids_clean [] h = refl
baseline_ids_clean (id ∷ ids) h = rw (h.0.trimmed, h.0.named, baseline_ids_clean ids h.1)

header_lines :
    (t : Text)
    → baseline_ids (split_lines false (baseline_header ++ t)) ≡ baseline_ids (split_lines false t)
unfolding split_lines is_line_break baseline_ids strip is_id ℕ_discrete
header_lines t = refl

All-IsLine : (ids : List Text) → All IsClean ids → All IsLine ids
All-IsLine [] h = tt
All-IsLine (id ∷ ids) h = (h.0.one_line, All-IsLine ids h.1)

saved_lines :
    (ids : List Text)
    → All IsClean ids
    → baseline_ids (split_lines false (join_lines ids ++ codes "\n")) ≡ ids
saved_lines [] h = unfold split_lines baseline_ids join_lines in refl
saved_lines (id ∷ ids) h =
    ap baseline_ids (split_lines-join_lines id ids (All-IsLine (id ∷ ids) h))
    ∙ baseline_ids_clean (id ∷ ids) h

-- Loading the file that `save_baseline` wrote gives the same set of ids, if each id is one trimmed,
-- non-empty line that does not start with `#`.
pub load_baseline-save_baseline :
    (ids : List Text) (id : Text)
    → All IsClean ids
    → contains (load_baseline (some (save_baseline ids))) id ≡ contains ids id
unfolding load_baseline save_baseline
load_baseline-save_baseline ids id h =
    contains-to_set id _
    ∙ ap (λ (l : List Text). contains l id)
        (header_lines _ ∙ saved_lines (sort_texts ids) (All-sort text_leb IsClean ids h))
    ∙ contains-sort text_leb id ids
