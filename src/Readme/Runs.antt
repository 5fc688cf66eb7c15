-- ===== src/Readme/Runs.antt =====
-- Runs of the regular expressions and the readers of the reports.
use psychicstd.Base.{
  ◌≡◌, refl, some, inr, codes, strip, lstrip, rstrip, is_space, text_eq, nat_eq, ℕ_discrete, span,
  starts_with, after_prefix, split_lines, is_line_break, extend_line,
}
use psychicstd.Readme.Blocks.{extend_part}
use psychicstd.Readme.Patterns.{is_digit, number_at}
use psychicstd.Base.{ends_with}
use psychicstd.Readme.Patterns.{
  compile_cell, compile_cells, compile_speedup_at, compile_speedup_row, report_link, report_link_at,
  report_path_at, is_report_name,
}
use psychicstd.Readme.Rows.{extract_realworld_speedup, report_headings, speedup_in}
use psychicstd.Readme.Reports.{
  drop_bars, metrics_of, parse_startup_speedup, report_row, row_cells, split_cells, startup_at,
  startup_search,
}

-- The last bar before a number may be any of the row.
compile_speedup_row_reads :
    compile_speedup_row (codes "| compile | 12.50 | 5.00 | 🟢 2.50x [2.1x, 2.9x] | |")
    ≡ some (codes "2.50")
unfolding compile_speedup_row compile_cells compile_cell compile_speedup_at number_at is_digit span
    starts_with after_prefix nat_eq ℕ_discrete
compile_speedup_row_reads = refl

extract_realworld_speedup_reads :
    extract_realworld_speedup report_headings
      (codes "### Release\n| compile | 1 | 3x |\n### Debug\n| compile | 1 | 2x |\n")
    ≡ inr (codes "2x")
unfolding extract_realworld_speedup report_headings speedup_in compile_speedup_row compile_cells
    compile_cell compile_speedup_at number_at is_digit span starts_with after_prefix split_lines
    is_line_break extend_line text_eq nat_eq ℕ_discrete
extract_realworld_speedup_reads = refl

report_link_reads :
    report_link (codes "| [a](b) | [2x](use_on_realworld_projects/fmt_speed_report.md) |")
    ≡ some (record {
      before = codes "| [a](b) | ";
      path = codes "use_on_realworld_projects/fmt_speed_report.md";
      after = codes " |";
    })
unfolding report_link report_link_at report_path_at is_report_name span ends_with starts_with
    after_prefix nat_eq ℕ_discrete
report_link_reads = refl

report_row_reads :
    report_row
      (codes "| 🟢 | iostream | drop-in | 9.0ms | 3.0ms | 3.00x | n/a | 90.0 MiB | 30.0 MiB |")
    ≡ some (
      codes "iostream",
      (
        codes "drop-in",
        record {
          system_rss = codes "90.0 MiB";
          psychicstd_rss = codes "30.0 MiB";
          speedup = codes "3.00x";
        },
      ),
    )
unfolding report_row row_cells split_cells drop_bars metrics_of extend_part strip lstrip rstrip
    is_space starts_with after_prefix text_eq nat_eq ℕ_discrete
report_row_reads = refl

parse_startup_speedup_reads :
    parse_startup_speedup (some (codes "# T\nSpeedup: **1.9x** (95% CI: [1, 2])\n"))
    ≡ inr (codes "1.9x")
unfolding parse_startup_speedup startup_search startup_at span is_space starts_with after_prefix
    nat_eq ℕ_discrete
parse_startup_speedup_reads = refl
