-- ===== src/Readme/Sync.antt =====
-- `main` of scripts/update_readme_from_benchmarks.py: the README that it writes.
use psychicstd.Base.{
  Option, none, some, ◌⊎◌, List, [], ◌∷◌, ◌++◌, Text, codes, Dict, lookup, text_eq,
}
use psychicstd.Readme.Blocks.{Problem, and_then, replace_block}
use psychicstd.Readme.Rows.{replace_realworld_rows, replace_block_rows, replace_realworld_summary}
use psychicstd.Readme.Reports.{
  Metrics, CompileTimes, parse_compile_time_report, parse_startup_speedup, reduction,
}

-- `compile_time.get(name, {})`
unfoldable pub modes_of : Text → CompileTimes → Dict Text Metrics
unfolding text_eq
modes_of name rows = elim (lookup name rows) [ none ↦ [] | some modes ↦ modes ]

unfoldable pub wordcounter_row : CompileTimes → Text
unfolding modes_of text_eq
wordcounter_row rows =
    let strict_speedup : Text =
      elim (lookup (codes "strict") (modes_of (codes "wordcounter") rows)) [
        | none ↦ codes "n/a"
        | some metrics ↦ metrics.speedup
      ] in
    codes "| [wordcounter](examples/wordcounter.cpp)| ["
    ++ (strict_speedup
        ++ codes
            "](compile_time.md) | Example application using the STL. Counts word occurrences in text files. |")

unfoldable pub peak_row : (Text → Text → Text) → Text → Dict Text Metrics → Text
unfolding reduction text_eq
peak_row percent label modes = elim (lookup (codes "drop-in") modes) [
  | none ↦ codes "| " ++ (label ++ codes " | n/a | n/a | n/a |")
  | some metrics ↦
      codes "| "
      ++ (label
          ++ (codes " | "
              ++ (metrics.system_rss
                  ++ (codes " | "
                      ++ (metrics.psychicstd_rss
                          ++ (codes " | "
                              ++ (reduction percent metrics.system_rss metrics.psychicstd_rss
                                  ++ codes " |")))))))
]

unfoldable pub peak_rows : (Text → Text → Text) → CompileTimes → Dict Text Text
unfolding peak_row modes_of
peak_rows percent rows =
    (
      codes "| [wordcounter]",
      peak_row percent (codes "[wordcounter](examples/wordcounter.cpp)")
          (modes_of (codes "wordcounter") rows),
    )
    ∷ (
      codes "| [`<iostream>` test]",
      peak_row percent (codes "[`<iostream>` test](benchmarks/compile_time/bench_iostream.cpp)")
          (modes_of (codes "iostream") rows),
    )
    ∷ []

unfoldable pub startup_line : Text → Text
startup_line startup_speedup =
    codes
      "Static linking also avoids the `libstdc++.so.6` and `libm.so.6` dependencies. A representative Linux program measured ["
    ++ (startup_speedup
        ++ codes
            " faster exec-to-exit](startup.md), including loading, initialization, and its small fixed workload.")

abbrev pub speedups_marker : Text
speedups_marker = codes "realworld-speedups"

module _ (reports : Text → Option Text) (geometric_mean median : List Text → Text)
    (percent : Text → Text → Text) where
  -- `main`, from the README's text to the one that is written; `reports` gives the text of the
  -- file with a path, if there is one, and the others are the formatted statistics.
  unfoldable pub updated_readme : Text → Problem ⊎ Text
  unfolding and_then replace_realworld_rows replace_block_rows replace_realworld_summary
      replace_block parse_compile_time_report parse_startup_speedup wordcounter_row peak_rows
      startup_line
  updated_readme readme =
      and_then (parse_compile_time_report (reports (codes "compile_time.md"))) λ compile_time.
        and_then (parse_startup_speedup (reports (codes "startup.md"))) λ startup_speedup.
          and_then (replace_realworld_rows reports readme speedups_marker) λ rows.
            and_then
              (replace_block_rows rows speedups_marker
                ((codes "| [wordcounter](", wordcounter_row compile_time) ∷ []))
              λ counted.
                and_then (replace_realworld_summary geometric_mean median counted speedups_marker)
                  λ summed.
                    and_then
                      (replace_block_rows summed (codes "benchmark-peak-rss")
                        (peak_rows percent compile_time))
                      λ peaked.
                        replace_block peaked (codes "startup-speedup")
                          (startup_line startup_speedup)
