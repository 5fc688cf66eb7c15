-- ===== src/Base/Breaks.antt =====
-- The lines of a text: Python's `str.splitlines` and `"\n".join`.
use mathlib.Core.List.{append_assoc}
use mathlib.Core.Path.{◌≡◌, refl, ap, ◌∙◌}
use mathlib.Core.Bool.{Bool, false, ◌&&◌, ◌||◌}
use mathlib.Core.List.{List, [], ◌∷◌, ◌++◌}
use native.Mathlib.Decide.{ℕ_discrete}
use native.Mathlib.Omega.{arith}
use Prim.Native.Nat.{ℕ}
use psychicstd.Base.Tests.{leb, if◌then◌else◌, ◌==◌, nat_eq}
use psychicstd.Base.Lists.{All}
use psychicstd.Base.Strings.{Text, codes, newline}

-- The characters at which `str.splitlines` ends a line.
unfoldable pub is_line_break : ℕ → Bool
unfolding nat_eq
is_line_break c =
    (leb 10 c && leb c 13)
    || ((leb 28 c && leb c 30) || ((c == 0x85) || ((c == 0x2028) || (c == 0x2029))))

unfoldable pub extend_line : ℕ → List Text → List Text
extend_line c [] = (c ∷ []) ∷ []
extend_line c (line ∷ lines) = (c ∷ line) ∷ lines

-- `str.splitlines`. The flag says that the character before was a carriage return, which a
-- newline follows without a line between them.
unfoldable pub split_lines : Bool → Text → List Text
unfolding is_line_break extend_line nat_eq
split_lines after_return [] = []
split_lines after_return (c ∷ s) =
    let rest = split_lines (c == 13) s in
    if after_return && c == newline
    then rest
    else if is_line_break c
    then [] ∷ rest
    else extend_line c rest

-- `"\n".join(lines)`
unfoldable pub join_lines : List Text → Text
join_lines [] = []
join_lines (line ∷ []) = line
join_lines (line ∷ next ∷ lines) = line ++ (newline ∷ join_lines (next ∷ lines))

-- A text without a line break.
abbrev pub IsLine : Text → Type 0
IsLine line = All (λ c. is_line_break c ≡ false) line

pub split_lines-cons :
    (line rest : Text)
    → IsLine line
    → split_lines false (line ++ (newline ∷ rest)) ≡ line ∷ split_lines false rest
unfolding split_lines is_line_break ℕ_discrete
split_lines-cons [] rest h = refl
split_lines-cons (c ∷ line) rest h = ground (arith, h.0, split_lines-cons line rest h.1)

-- Lines that are joined, with a newline at the end, are split into themselves.
pub split_lines-join_lines :
    (line : Text) (lines : List Text)
    → All IsLine (line ∷ lines)
    → split_lines false (join_lines (line ∷ lines) ++ codes "\n") ≡ line ∷ lines
unfolding join_lines
split_lines-join_lines line [] h = split_lines-cons line [] h.0 ∙ unfold split_lines in refl
split_lines-join_lines line (next ∷ lines) h =
    rw append_assoc
      (split_lines-cons line _ h.0 ∙ ap (◌∷◌ line) (split_lines-join_lines next lines h.1))
