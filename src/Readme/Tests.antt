-- ===== src/Readme/Tests.antt =====
-- Runs of the synchronisation, and instances of the theorems on it.
use psychicstd.Base.{
  ◌≡◌, refl, none, some, inr, List, [], ◌∷◌, ◌++◌, Text, codes, map, keys, strip, lstrip, rstrip,
  is_space, text_eq, nat_eq, ℕ_discrete, span, starts_with, after_prefix, split_lines,
  is_line_break, extend_line, join_lines, if◌then◌else◌,
}
use psychicstd.Readme.Blocks.{
  Block, begun, body_text, coerce_marker_body_lines, drop_blank, drop_blank_end, drop_newlines,
  end_mark, ended, extend_part, fill, find_marker_match, is_blank_end, is_marker_line,
  replace_block, split_at, split_parts, start_mark, strip_newlines, and_then,
}
use psychicstd.Readme.Patterns.{
  is_digit, is_summary, number_at, readme_cells, readme_speedup_at, readme_speedup_row,
  summary_start,
}
use psychicstd.Readme.Rows.{
  edit_block, replace_block_rows, replace_realworld_summary, row_speedups, summary_line,
  with_summary, without_summary,
}
use psychicstd.Readme.Assignment.{
  find_marker_match-text, replace_block_twice, replace_block-refines,
}
use psychicstd.Readme.Puts.{is_once, every, relined, returned}
use psychicstd.Readme.Lines.{replace_block_rows-lines}
use psychicstd.Readme.Summary.{replace_realworld_summary_again}

abbrev readme : Text
readme =
    codes
      "# T\n<!-- README_BENCHMARK:m:start -->\n\n| [a](b.cpp) | [2.5x](r.md) |\n| none |\n<!-- README_BENCHMARK:m:end --> \nrest\n"

abbrev found_block : Block
found_block = record {
  before = codes "# T" ∷ [];
  start = codes "<!-- README_BENCHMARK:m:start -->";
  body = [] ∷ codes "| [a](b.cpp) | [2.5x](r.md) |" ∷ codes "| none |" ∷ [];
  finish = codes "<!-- README_BENCHMARK:m:end --> ";
  after = codes "rest" ∷ [] ∷ [];
}

find_marker_match-text_example :
    ended found_block.before
      ++ (found_block.start
          ++ (body_text found_block ++ (found_block.finish ++ begun found_block.after)))
    ≡ readme
unfolding find_marker_match split_at split_parts extend_part is_marker_line is_blank_end start_mark
    end_mark after_prefix nat_eq ℕ_discrete
find_marker_match-text_example = find_marker_match-text readme (codes "m") found_block refl

abbrev replaced : Text
replaced =
    codes "# T\n<!-- README_BENCHMARK:m:start -->\nnew\n<!-- README_BENCHMARK:m:end --> \nrest\n"

replace_block_twice_example :
    replace_block replaced (codes "m") (codes "other")
    ≡ replace_block readme (codes "m") (codes "other")
unfolding replace_block find_marker_match split_at split_parts extend_part is_marker_line
    is_blank_end start_mark end_mark after_prefix nat_eq ℕ_discrete fill ended begun strip_newlines
    drop_newlines
replace_block_twice_example =
    replace_block_twice readme (codes "m") (codes "\nnew\n") (codes "other") replaced (refl, tt)
      refl

replace_block-refines_example :
    (r : Text) × (replace_block readme (codes "m") (codes "\nnew\n") ≡ inr r)
    × (find_marker_match r (codes "m")
        ≡ some (record found_block { body = split_parts (strip_newlines (codes "\nnew\n")) }))
unfolding find_marker_match split_at split_parts extend_part is_marker_line is_blank_end start_mark
    end_mark after_prefix nat_eq ℕ_discrete strip_newlines drop_newlines
replace_block-refines_example =
    replace_block-refines readme (codes "m") (codes "\nnew\n") found_block refl (refl, tt)

replace_block_rows-lines_example :
    returned (replace_block_rows readme (codes "m") ((codes "| [a]", codes "| a |") ∷ [])) ≡ (
      let lines = coerce_marker_body_lines (body_text found_block) in
      let rows = (codes "| [a]", codes "| a |") ∷ [] in
      if every (is_once lines) (keys rows)
      then some (fill found_block (join_lines (map (λ l. relined rows l l) lines)))
      else none)
unfolding find_marker_match split_at split_parts extend_part is_marker_line is_blank_end start_mark
    end_mark after_prefix nat_eq ℕ_discrete
replace_block_rows-lines_example =
    replace_block_rows-lines readme (codes "m") ((codes "| [a]", codes "| a |") ∷ []) found_block
      refl

-- One number is its own mean.
abbrev only : List Text → Text
only numbers = codes "2.50"

abbrev summed : Text
summed =
    codes
      "# T\n<!-- README_BENCHMARK:m:start -->\n| [a](b.cpp) | [2.5x](r.md) |\n| none |\n\nAcross the listed workloads, the geometric-mean compile-time speedup is **2.50x** and the median speedup is **2.50x**.\n\n<!-- README_BENCHMARK:m:end --> \nrest\n"

replace_realworld_summary_again_example :
    replace_realworld_summary only only summed (codes "m") ≡ inr summed
unfolding replace_realworld_summary edit_block with_summary without_summary row_speedups
    summary_line readme_speedup_row readme_cells readme_speedup_at number_at is_digit span
    is_summary summary_start starts_with find_marker_match split_at split_parts extend_part
    is_marker_line is_blank_end start_mark end_mark after_prefix nat_eq ℕ_discrete fill ended begun
    body_text coerce_marker_body_lines drop_blank drop_blank_end split_lines is_line_break
    extend_line strip lstrip rstrip is_space join_lines and_then text_eq
replace_realworld_summary_again_example =
    replace_realworld_summary_again only only readme (codes "m") summed found_block
      (codes "| [a](b.cpp) | [2.5x](r.md) |") (codes "| none |" ∷ []) refl
      (
        tt,
        (
          (
            refl,
            (
              refl,
              (
                refl,
                (
                  refl,
                  (
                    refl,
                    (
                      refl,
                      (
                        refl,
                        (
                          refl,
                          (
                            refl,
                            (
                              refl,
                              (
                                refl,
                                (
                                  refl,
                                  (
                                    refl,
                                    (
                                      refl,
                                      (
                                        refl,
                                        (
                                          refl,
                                          (
                                            refl,
                                            (
                                              refl,
                                              (
                                                refl,
                                                (
                                                  refl,
                                                  (
                                                    refl,
                                                    (
                                                      refl,
                                                      (
                                                        refl,
                                                        (
                                                          refl,
                                                          (
                                                            refl,
                                                            (refl, (refl, (refl, (refl, tt)))),
                                                          ),
                                                        ),
                                                      ),
                                                    ),
                                                  ),
                                                ),
                                              ),
                                            ),
                                          ),
                                        ),
                                      ),
                                    ),
                                  ),
                                ),
                              ),
                            ),
                          ),
                        ),
                      ),
                    ),
                  ),
                ),
              ),
            ),
          ),
          ((refl, (refl, (refl, (refl, (refl, (refl, (refl, (refl, tt)))))))), tt),
        ),
      )
      (λ numbers. (refl, (refl, (refl, (refl, tt)))))
      (λ numbers. (refl, (refl, (refl, (refl, tt))))) refl refl refl
