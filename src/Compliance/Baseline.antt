-- ===== src/Compliance/Baseline.antt =====
-- The baseline file of known sanitizer failures: `test_id`, `load_baseline`, `save_baseline`.
pub mod Lines
use psychicstd.Base.{
  ℕ, zero, suc, ◌-◌, ◌≡◌, refl, Bool, true, false, ◌||◌, ◌&&◌, not, Option, none, some,
}
use psychicstd.Base.{
  List, [], ◌∷◌, ◌++◌, map, Text, codes, strip, split_lines, join_lines, starts_with, after_prefix,
}
use psychicstd.Base.{
  if◌then◌else◌, ◌==◌, nat_eq, text_eq, keep, length, leb, to_set, sort_texts, text_leb,
}

-- The last piece of `path.split(separator)`. `skip` counts what is left of the separator that was
-- found last; `piece` is the current piece.
unfoldable pub last_piece : Text → ℕ → Text → Text → Text
unfolding after_prefix
last_piece separator skip piece [] = piece
last_piece separator (suc skip) piece (c ∷ s) = last_piece separator skip piece s
last_piece separator zero piece (c ∷ s) = elim (after_prefix separator (c ∷ s)) [
  | none ↦ last_piece separator zero (piece ++ (c ∷ [])) s
  | some _ ↦ last_piece separator (length separator - 1) [] s
]

abbrev pub test_root : Text
test_root = codes "/libcxx/test/"

-- `test_id`
unfoldable pub test_id : Text → Text
unfolding last_piece
test_id path = last_piece test_root 0 [] path

unfoldable pub is_id : Text → Bool
unfolding nat_eq
is_id [] = false
is_id (c ∷ s) = not (c == b'#')

unfoldable pub baseline_ids : List Text → List Text
unfolding is_id strip
baseline_ids [] = []
baseline_ids (line ∷ lines) =
    let rest = baseline_ids lines in let s = strip line in if is_id s then s ∷ rest else rest

-- `load_baseline`; `none` is a missing file.
unfoldable pub load_baseline : Option Text → List Text
unfolding split_lines baseline_ids
load_baseline none = []
load_baseline (some text) = to_set (baseline_ids (split_lines false text))

abbrev pub baseline_header : Text
baseline_header =
    codes "# Known sanitizer failures: libcxx tests that pass on libstdc++ but fail\n"
    ++ (codes "# under psychicstd+ASan/UBSan. The sanitizer CI fails only on failures NOT\n"
        ++ (codes "# listed here. Regenerate: tools/compliance.py --sanitize --update-baseline\n"
            ++ codes "\n"))

-- The text that `save_baseline` writes.
unfoldable pub save_baseline : List Text → Text
unfolding join_lines text_leb
save_baseline ids = baseline_header ++ (join_lines (sort_texts ids) ++ codes "\n")
