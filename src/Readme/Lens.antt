-- ===== src/Readme/Lens.antt =====
-- A block of the README as a view of its text: what is found, and what is put in its place.
use mathlib.Core.Path.{subst}
use psychicstd.Base.{
  Bool, true, false, ◌≡◌, refl, ap, ◌∙◌, Option, none, some, List, [], ◌∷◌, ◌++◌, Text, All, nat_eq,
  arith, if◌then◌else◌,
}
use psychicstd.Readme.Blocks.{
  Block, split_parts, is_marker_line, split_at, start_mark, end_mark, find_marker_match, begun,
  fill,
}
use psychicstd.Readme.Parts.{
  IsPart, split_parts-IsPart, split_parts-append, split_parts-part, split_parts-ended,
  split_parts-begun, All-append-front, All-append-back,
}

-- No line of these ends a block of the marker.
abbrev pub NoEnd : Text → List Text → Type 0
NoEnd marker lines = All (λ line. is_marker_line (end_mark marker) line ≡ false) lines

-- What is found: the lines in their order, and that the first marking one is taken.
record IsSplit (mark : Text) (lines front : List Text) (line : Text) (back : List Text)
    : Type 0 where
  whole : lines ≡ front ++ (line ∷ back)
  marks : is_marker_line mark line ≡ true
  first : All (λ l. is_marker_line mark l ≡ false) front

split_at-IsSplit :
    (mark : Text) (lines front : List Text) (line : Text) (back : List Text)
    → split_at mark lines ≡ some (front, (line, back))
    → IsSplit mark lines front line back
unfolding split_at
split_at-IsSplit mark [] front line back e = ground (arith, e)
split_at-IsSplit mark (l ∷ lines) front line back e =
    go (is_marker_line mark l) refl (split_at mark lines) refl (split_at-IsSplit mark lines) e
  where
    go :
        (b : Bool)
        → is_marker_line mark l ≡ b
        → (o : Option (List Text × (Text × List Text))) → split_at mark lines ≡ o
        → ((f : List Text) (m : Text) (k : List Text)
            → split_at mark lines ≡ some (f, (m, k))
            → IsSplit mark lines f m k)
        → (let picked : Option (List Text × (Text × List Text)) =
              if b
              then some ([], (l, lines))
              else elim o [ none ↦ none | some (f, k) ↦ some (l ∷ f, k) ] in
            picked ≡ some (front, (line, back)))
        → IsSplit mark (l ∷ lines) front line back
    go true same o found ih r = record {
      whole = ground (arith, r);
      marks = ground (arith, r, same);
      first = ground (arith, r);
    }
    go false same none found ih r = ground (arith, r)
    go false same (some (f, (m, k))) found ih r =
        let rest = ih f m k found in
        record {
          whole = ground (arith, r, rest.whole);
          marks = ground (arith, r, rest.marks);
          first = ground (arith, r, same, rest.first);
        }

split_at-front :
    (mark : Text) (front : List Text) (line : Text) (back : List Text)
    → is_marker_line mark line ≡ true
    → All (λ l. is_marker_line mark l ≡ false) front
    → split_at mark (front ++ (line ∷ back)) ≡ some (front, (line, back))
unfolding split_at
split_at-front mark [] line back h hs = ground (arith, h)
split_at-front mark (l ∷ front) line back h hs =
    ground (arith, hs.0, split_at-front mark front line back h hs.1)

-- A block as it was found in the text.
pub record IsFound (readme marker : Text) (b : Block) : Type 0 where
  pub whole : split_parts readme ≡ b.before ++ (b.start ∷ (b.body ++ (b.finish ∷ b.after)))
  pub starts : is_marker_line (start_mark marker) b.start ≡ true
  pub no_start : All (λ l. is_marker_line (start_mark marker) l ≡ false) b.before
  pub ends : is_marker_line (end_mark marker) b.finish ≡ true
  pub no_end : NoEnd marker b.body

pub find_marker_match-IsFound :
    (readme marker : Text) (b : Block)
    → find_marker_match readme marker ≡ some b
    → IsFound readme marker b
unfolding find_marker_match
find_marker_match-IsFound readme marker b e =
    go (split_at (start_mark marker) (split_parts readme)) refl e
  where
    inner :
        (before : List Text) (start : Text) (rest : List Text)
        → IsSplit (start_mark marker) (split_parts readme) before start rest
        → (o : Option (List Text × (Text × List Text))) → split_at (end_mark marker) rest ≡ o
        → (let made : Option Block = elim o [
          | none ↦ none
          | some (body, (finish, after)) ↦ some (record {
            before = before;
            start = start;
            body = body;
            finish = finish;
            after = after;
          })
        ] in
            made ≡ some b)
        → IsFound readme marker b
    inner before start rest outer none same r = ground (arith, r)
    inner before start rest outer (some (body, (finish, after))) same r =
        let within = split_at-IsSplit (end_mark marker) rest body finish after same in
        subst (IsFound readme marker) (ground (arith, r)) (record {
          whole = outer.whole ∙ ap (λ ls. before ++ (start ∷ ls)) within.whole;
          starts = outer.marks;
          no_start = outer.first;
          ends = within.marks;
          no_end = within.first;
        })

    go :
        (o : Option (List Text × (Text × List Text)))
        → split_at (start_mark marker) (split_parts readme) ≡ o
        → (let made : Option Block = elim o [
          | none ↦ none
          | some (before, (start, rest)) ↦ elim (split_at (end_mark marker) rest) [
            | none ↦ none
            | some (body, (finish, after)) ↦ some (record {
              before = before;
              start = start;
              body = body;
              finish = finish;
              after = after;
            })
          ]
        ] in
            made ≡ some b)
        → IsFound readme marker b
    go none same r = ground (arith, r)
    go (some (before, (start, rest))) same r =
        inner before start rest (split_at-IsSplit (start_mark marker) _ before start rest same)
          (split_at (end_mark marker) rest) refl r

pub find_marker_match-some :
    (text marker : Text) (b : Block)
    → IsFound text marker b
    → find_marker_match text marker ≡ some b
unfolding find_marker_match
find_marker_match-some text marker b found =
    let outer : split_at (start_mark marker) (split_parts text)
        ≡ some (b.before, (b.start, b.body ++ (b.finish ∷ b.after))) =
      ap (split_at (start_mark marker)) found.whole
      ∙ split_at-front (start_mark marker) b.before b.start _ found.starts found.no_start in
    let inner = split_at-front (end_mark marker) b.body b.finish b.after found.ends found.no_end in
    ground (arith, outer, inner)

-- The lines of the filled text.
fill-IsFound :
    (readme marker : Text) (b : Block) (text : Text)
    → IsFound readme marker b
    → NoEnd marker (split_parts text)
    → IsFound (fill b text) marker (record b { body = split_parts text })
unfolding fill
fill-IsFound readme marker b text found clean =
    let parts = subst (All IsPart) found.whole (split_parts-IsPart readme) in
    let before = All-append-front IsPart b.before _ parts in
    let (start, rest) = All-append-back IsPart b.before _ parts in
    let (finish, after) = All-append-back IsPart b.body _ rest in
    record {
      whole =
          split_parts-ended b.before _ before
          ∙ ap (λ ls. b.before ++ ls)
              (split_parts-append b.start _
                ∙ simp (
                  split_parts-part b.start start,
                  split_parts-append text (b.finish ++ begun b.after),
                  split_parts-begun b.finish b.after finish after,
                ));
      starts = found.starts;
      no_start = found.no_start;
      ends = found.ends;
      no_end = clean;
    }

-- A filled block is found again, with the lines of its new text.
pub find_marker_match-fill :
    (readme marker : Text) (b : Block) (text : Text)
    → find_marker_match readme marker ≡ some b
    → NoEnd marker (split_parts text)
    → find_marker_match (fill b text) marker ≡ some (record b { body = split_parts text })
find_marker_match-fill readme marker b text e clean =
    find_marker_match-some (fill b text) marker _
      (fill-IsFound readme marker b text (find_marker_match-IsFound readme marker b e) clean)
