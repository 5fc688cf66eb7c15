-- ===== src/Stats/Speed.antt =====
-- The cells of the speed report: `_color`, `_speedup_cell`, `_row` and `_table` of
-- scripts/benchmark_realworld.py.
use psychicstd.Base.{
  Option, none, some, List, [], ◌∷◌, ◌++◌, Text, codes, Dict, lookup, text_eq, if◌then◌else◌,
}
use psychicstd.Stats.Floats.{Floats, Random, is_less, is_zero, median}
use psychicstd.Stats.Bootstrap.{bootstrap_speedup_ci}

abbrev pub green : Text
green = codes "🟢"

abbrev pub red : Text
red = codes "🔴"

abbrev pub yellow : Text
yellow = codes "🟡"

module _ (f : Floats) where
  -- `_color`
  unfoldable pub color : Option (f.F × f.F) → Text
  unfolding is_less
  color none = yellow
  color (some (lo, hi)) =
      if is_less f (f.of_ℕ 1) lo then green else if is_less f hi (f.of_ℕ 1) then red else yellow

  -- `f" [{ci[0]:.2f}x, {ci[1]:.2f}x]"`, or nothing
  unfoldable pub ci_text : Option (f.F × f.F) → Text
  ci_text none = []
  ci_text (some (lo, hi)) =
      codes " [" ++ (f.fixed 2 lo ++ (codes "x, " ++ (f.fixed 2 hi ++ codes "x]")))

module _ (f : Floats) (r : Random) where
  -- `_speedup_cell`
  unfoldable pub speedup_cell : List f.F → List f.F → Text
  unfolding median is_zero color ci_text bootstrap_speedup_ci
  speedup_cell sys_samples psy_samples = elim (median f sys_samples) [
    | none ↦ codes "—"
    | some s ↦ elim (median f psy_samples) [
      | none ↦ codes "—"
      | some p ↦
          let ci = bootstrap_speedup_ci f r sys_samples psy_samples in
          if is_zero f s
          then codes "—"
          else if is_zero f p
          then codes "—"
          else color f ci ++ (codes " " ++ (f.fixed 2 (f.div s p) ++ (codes "x" ++ ci_text f ci)))
    ]
  ]

  -- `_row`
  unfoldable pub speed_row : Text → List f.F → List f.F → Text → Text
  unfolding median speedup_cell
  speed_row step sys_samples psy_samples comment = elim (median f sys_samples) [
    | none ↦ codes "| " ++ (step ++ (codes " | — | — | — | " ++ (comment ++ codes " |")))
    | some s_ms ↦ elim (median f psy_samples) [
      | none ↦ codes "| " ++ (step ++ (codes " | — | — | — | " ++ (comment ++ codes " |")))
      | some p_ms ↦
          codes "| "
          ++ (step
              ++ (codes " | "
                  ++ (f.fixed 2 (f.div s_ms (f.of_ℕ 1000))
                      ++ (codes " | "
                          ++ (f.fixed 2 (f.div p_ms (f.of_ℕ 1000))
                              ++ (codes " | "
                                  ++ (speedup_cell sys_samples psy_samples
                                      ++ (codes " | " ++ (comment ++ codes " |")))))))))
    ]
  ]

  -- The rows of `_table`, for the phases: `none` is a missing variant or phase.
  unfoldable pub speed_rows :
      Dict Text Text → Dict Text (List f.F) → Dict Text (List f.F) → List Text → Option (List Text)
  unfolding speed_row text_eq
  speed_rows comments system psychicstd [] = some []
  speed_rows comments system psychicstd (p ∷ phases) =
      let rest = speed_rows comments system psychicstd phases in
      elim (lookup p system) [
        | none ↦ none
        | some sys_samples ↦ elim (lookup p psychicstd) [
          | none ↦ none
          | some psy_samples ↦ elim rest [
            | none ↦ none
            | some rows ↦ some (
                speed_row p sys_samples psy_samples
                  (elim (lookup p comments) [ none ↦ [] | some comment ↦ comment ])
                ∷ rows)
          ]
        ]
      ]

  -- `_table`, of a project's phases and comments
  unfoldable pub speed_table :
      List Text → Dict Text Text → Dict Text (Dict Text (List f.F)) → Option (List Text)
  unfolding speed_rows text_eq
  speed_table phases comments samples = elim (lookup (codes "system") samples) [
    | none ↦ none
    | some system ↦ elim (lookup (codes "psychicstd") samples) [
      | none ↦ none
      | some psychicstd ↦ elim (speed_rows comments system psychicstd phases) [
        | none ↦ none
        | some rows ↦ some (
            (codes "| step | system (s) | psychicstd (s) | speedup | comment |"
              ∷ codes "| --- | ---: | ---: | ---: | --- |"
              ∷ rows)
            ++ ([] ∷ []))
      ]
    ]
  ]
