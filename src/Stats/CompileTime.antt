-- ===== src/Stats/CompileTime.antt =====
-- What scripts/benchmark_compile_time.py makes of the samples of a workload: the medians and
-- intervals, and the rows of compile_time.md.
use psychicstd.Base.{
  not, ◌&&◌, Option, none, some, List, [], ◌∷◌, ◌++◌, Text, codes, keep, sort, sort_texts,
  starts_with, text_eq, text_leb, if◌then◌else◌, ◌==◌,
}
use psychicstd.Stats.Floats.{Floats, Random, is_less, is_zero, median}
use psychicstd.Stats.Bootstrap.{bootstrap_speedup_ci, bootstrap_reduction_ci}

-- The headers that are included of those in the directory.
unfoldable pub public_headers : List Text → List Text
unfolding starts_with text_leb text_eq
public_headers names = sort_texts (
    keep (λ name. not (starts_with name (codes "__psychicstd")) && not (name == codes "cxxabi.h"))
      names)

unfoldable pub include_lines : List Text → Text
include_lines [] = []
include_lines (header ∷ headers) =
    codes "#include <" ++ (header ++ (codes ">\n" ++ include_lines headers))

-- `generate_all_headers_benchmark`, of the names of the files in the directory to the text of the
-- source; `none` is the error that there are no headers.
unfoldable pub generate_all_headers_benchmark : List Text → Option Text
unfolding public_headers include_lines
generate_all_headers_benchmark names = elim (public_headers names) [
  | [] ↦ none
  | header ∷ headers ↦ some (include_lines (header ∷ headers))
]

module _ (f : Floats) where
  unfoldable pub threshold_green : f.F
  threshold_green = f.div (f.of_ℕ 12) (f.of_ℕ 10)

  unfoldable pub threshold_red : f.F
  threshold_red = f.div (f.of_ℕ 8) (f.of_ℕ 10)

  -- `emoji`
  unfoldable pub emoji : f.F → Text
  unfolding is_less threshold_green threshold_red
  emoji ratio =
      if is_less f threshold_green ratio
      then codes "🟢"
      else if f.leb threshold_red ratio
      then codes "🟡"
      else codes "🔴"

  -- `format_ci`
  unfoldable pub format_ci : Option (f.F × f.F) → Text
  format_ci none = codes "n/a"
  format_ci (some (lo, hi)) =
      codes "[" ++ (f.fixed 2 lo ++ (codes "x, " ++ (f.fixed 2 hi ++ codes "x]")))

  -- The elapsed times and the peak sizes of a configuration that compiled.
  pub record Measured : Type 0 where
    pub times : List f.F
    pub peaks : List f.F

  pub record Result : Type 0 where
    pub sys_ms : Option f.F
    pub strict_ms : Option f.F
    pub dropin_ms : Option f.F
    pub sys_rss_kib : Option f.F
    pub strict_rss_kib : Option f.F
    pub dropin_rss_kib : Option f.F
    pub strict_ci : Option (f.F × f.F)
    pub dropin_ci : Option (f.F × f.F)
    pub name : Text

  unfoldable pub median_of : (Measured → List f.F) → Option Measured → Option f.F
  unfolding median
  median_of part none = none
  median_of part (some m) = median f (part m)

  -- `sort(key=lambda r: r[0] if r[0] is not None else 0, reverse=True)`
  unfoldable pub sort_key : Result → f.F
  sort_key result = elim result.sys_ms [ none ↦ f.of_ℕ 0 | some ms ↦ ms ]

  unfoldable pub sorted_results : List Result → List Result
  unfolding sort_key
  sorted_results results = sort (λ a b. f.leb (sort_key b) (sort_key a)) results

  unfoldable pub ms_cell : Option f.F → Text
  ms_cell none = codes "n/a"
  ms_cell (some ms) = f.fixed 1 ms ++ codes "ms"

  unfoldable pub rss_cell : Option f.F → Text
  rss_cell none = codes "n/a"
  rss_cell (some kib) = f.fixed 1 (f.div kib (f.of_ℕ 1024)) ++ codes " MiB"

  -- `icon`, `psy_cell` and `spd_cell`
  unfoldable pub speed_cells : Option f.F → Option f.F → Text × (Text × Text)
  unfolding emoji
  speed_cells none psy_ms = (codes "⬜", (codes "n/a", codes "n/a"))
  speed_cells (some sys_ms) none = (codes "⬜", (codes "n/a", codes "n/a"))
  speed_cells (some sys_ms) (some psy_ms) =
      let ratio = f.div sys_ms psy_ms in
      (emoji ratio, (f.fixed 1 psy_ms ++ codes "ms", f.fixed 2 ratio ++ codes "x"))

  -- Cells between bars.
  unfoldable pub bar_row : List Text → Text
  bar_row [] = codes "|"
  bar_row (cell ∷ cells) = codes "| " ++ (cell ++ (codes " " ++ bar_row cells))

  -- The row of a workload in one of the modes.
  unfoldable pub mode_row : Result → Text → Option f.F → Option f.F → Option (f.F × f.F) → Text
  unfolding speed_cells ms_cell rss_cell format_ci bar_row
  mode_row result mode psy_ms psy_rss_kib speedup_ci =
      let (icon, (psy_cell, spd_cell)) = speed_cells result.sys_ms psy_ms in
      bar_row (
        icon
        ∷ result.name
        ∷ mode
        ∷ ms_cell result.sys_ms
        ∷ psy_cell
        ∷ spd_cell
        ∷ format_ci speedup_ci
        ∷ rss_cell result.sys_rss_kib
        ∷ rss_cell psy_rss_kib
        ∷ [])

  unfoldable pub result_rows : Result → List Text
  unfolding mode_row
  result_rows result =
      mode_row result (codes "strict") result.strict_ms result.strict_rss_kib result.strict_ci
      ∷ mode_row result (codes "drop-in") result.dropin_ms result.dropin_rss_kib result.dropin_ci
      ∷ []

  -- `(base - improved) / base * 100`, if both are given and `base` is not zero
  unfoldable pub reduction_cell : Option f.F → Option f.F → Text
  unfolding is_zero
  reduction_cell none improved = codes "n/a"
  reduction_cell (some base) none = codes "n/a"
  reduction_cell (some base) (some improved) =
      if is_zero f base
      then codes "n/a"
      else f.fixed 1 (f.mul (f.div (f.sub base improved) base) (f.of_ℕ 100)) ++ codes "%"

  unfoldable pub percent_ci : Option (f.F × f.F) → Text
  percent_ci none = codes "n/a"
  percent_ci (some (lo, hi)) =
      codes "[" ++ (f.fixed 1 lo ++ (codes "%, " ++ (f.fixed 1 hi ++ codes "%]")))

module _ (f : Floats) (r : Random) where
  unfoldable pub ci_of : Option (Measured f) → Option (Measured f) → Option (f.F × f.F)
  unfolding bootstrap_speedup_ci
  ci_of none psy = none
  ci_of (some system) none = none
  ci_of (some system) (some psy) = bootstrap_speedup_ci f r system.times psy.times

  -- What is kept of the three configurations of a workload.
  unfoldable pub result_of :
      Option (Measured f) → Option (Measured f) → Option (Measured f) → Text → Result f
  unfolding median_of ci_of
  result_of system strict dropin name = record {
    sys_ms = median_of f (λ m. m.times) system;
    strict_ms = median_of f (λ m. m.times) strict;
    dropin_ms = median_of f (λ m. m.times) dropin;
    sys_rss_kib = median_of f (λ m. m.peaks) system;
    strict_rss_kib = median_of f (λ m. m.peaks) strict;
    dropin_rss_kib = median_of f (λ m. m.peaks) dropin;
    strict_ci = ci_of system strict;
    dropin_ci = ci_of system dropin;
    name = name;
  }

  -- `reduction_ci_cell`, of the two modes; `n/a` where there is no reduction
  unfoldable pub reduction_ci_cell : Option (Measured f) → Option (Measured f) → Text
  unfolding median is_zero percent_ci bootstrap_reduction_ci
  reduction_ci_cell none strict = codes "n/a"
  reduction_ci_cell (some dropin) none = codes "n/a"
  reduction_ci_cell (some dropin) (some strict) = elim (median f dropin.times) [
    | none ↦ codes "n/a"
    | some dropin_ms ↦
        let ci = bootstrap_reduction_ci f r dropin.times strict.times in
        if is_zero f dropin_ms then codes "n/a" else percent_ci f ci
  ]

  -- The row of a workload in the table of the strict mode's improvement.
  unfoldable pub improvement_row : Option (Measured f) → Option (Measured f) → Result f → Text
  unfolding reduction_cell reduction_ci_cell bar_row
  improvement_row strict dropin result = bar_row f (
      result.name
      ∷ reduction_cell f result.dropin_ms result.strict_ms
      ∷ reduction_ci_cell dropin strict
      ∷ reduction_cell f result.dropin_rss_kib result.strict_rss_kib
      ∷ [])
