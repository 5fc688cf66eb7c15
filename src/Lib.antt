-- ===== src/Lib.antt =====
-- The Python tooling of psychicstd: the programs that decide whether a change
-- to the library's headers is conforming, and those that plan its benchmarks.
--
-- The parts and how they interact. tools/compliance.py runs the tests of libc++
-- header by header, keeps the result of each test in a JSON cache, and in
-- sanitizer mode compares the cache of the system's library and the one of
-- psychicstd with a file of known failures. tools/compliance_diff.py compares
-- two such caches. scripts/update_readme_from_benchmarks.py copies figures from
-- the benchmark reports into README.md. scripts/generate_realworld_benchmark_reports.py
-- and scripts/compare_realworld_to_ref.py divide a time budget over the
-- projects whose build recipes stand in
-- use_on_realworld_projects/realworld_projects.py. The second builds a project
-- with the headers of a reference and those of the working tree, and has
-- scripts/_benchmark_diff.py compare the samples; scripts/benchmark_realworld.py
-- and scripts/benchmark_compile_time.py report them in tables.
--
-- Files:
--   Base              texts as lists of code points, sets and dictionaries as
--                     lists, lines of a text, stable sorting, decimal numbers.
--   Compliance/Markers, Compliance/Classify
--                     tools/compliance.py: the lit markers at the head of a test
--                     and classify_test. The regular expressions are written out
--                     as functions on code points; `wide_word` stands for \w
--                     beyond ASCII.
--   Compliance/Results
--                     the summary of a header and the result cache.
--   Compliance/Results/Cache
--                     load_cache and save_cache on a data type of JSON values;
--                     json.dumps and json.loads are parameters.
--   Compliance/Header collect_tests and check_header. The file system and
--                     random.sample are the parameters `Corpus` and `sample`;
--                     what is asked of a sample is that it has the asked
--                     number of different elements of the list it is given.
--   Compliance/Exec   try_compile_run and build_runtime_archive as functions of
--                     `spawn`, which gives the outcome of a command, an
--                     exception among them, and the files after it; a run is
--                     the list of the commands with the files that are left.
--                     `can_unlink` says which files os.unlink removes.
--   Compliance/Baseline, Compliance/Gate
--                     the baseline file and the end of main in sanitizer mode.
--   Diff              tools/compliance_diff.py from the two caches to the lines
--                     it prints.
--   Budget            _repetition_cost, _budget_plan and _budget_repetitions.
--                     The while loop of _budget_plan runs on fuel: one more than
--                     max_reps for each project. That is enough, since each
--                     round adds a repetition to a project that has fewer.
--   Recipes/World, Recipes/Core
--                     realworld_projects.py: recipes as actions on a world of
--                     files and logged commands, which return or raise. The
--                     environment, the network, SHA-256, tar and the processes
--                     that run are the record `Host`, which also says which
--                     files cannot be removed.
--   Recipes/Cmake, Recipes/Wrapped, Recipes/Suites, Recipes/Single
--                     the factories such as _catch2, and in `..._build` their
--                     build functions; a formatted string is written out.
--   Recipes/Registry  the entries of PROJECTS whose factories are modelled.
--   Recipes/Unedited  the projects that are built as they are unpacked.
--   Recipes/Performance
--                     the build and the phases that
--                     scripts/compare_realworld_to_ref.py takes of a project.
--   Comparison/Runtime, Comparison/Matrix
--                     the compiled runtime, the toolchains and _build_matrix of
--                     scripts/compare_realworld_to_ref.py, on the same worlds.
--   Comparison/Refs   main of that script from the checkout of the reference on.
--                     The JSON text of a side, the version of the compiler and
--                     the Python interpreter are parameters.
--   Recipes/Parallel  the job count of detect_parallelism.
--   Readme/Blocks, Readme/Patterns, Readme/Rows, Readme/Reports, Readme/Sync
--                     scripts/update_readme_from_benchmarks.py: the marked
--                     blocks, the regular expressions as functions on code
--                     points, what is put into a block, the reading of the
--                     reports, and main from the texts of the files to the text
--                     that is written. Errors are values of `Problem`. The
--                     means, the percentage and their formatting are parameters.
--   Stats/Floats, Stats/Bootstrap, Stats/Speed, Stats/CompileTime, Stats/Delta,
--   Stats/Report
--                     the bootstrap intervals of scripts/_benchmark_diff.py,
--                     scripts/benchmark_realworld.py and
--                     scripts/benchmark_compile_time.py, the table of the speed
--                     report, the rows of compile_time.md, and the rows and the
--                     text of the diff. `Floats` is
--                     floating-point arithmetic without NaN, of which a total
--                     order is asked, and `Random` the generator, which gives
--                     indices in range.
--   Files below these hold the proofs and, in those named Tests or Runs, runs and
--   instances of the theorems.
--
-- Numbers. Python's integers are unbounded, so counts are natural numbers and a
-- delta of tests is an integer. The durations of the benchmark plan are
-- floating-point numbers in the source and natural numbers of seconds here.
--
-- The creation of a temporary file or directory is taken to succeed. A recipe's
-- times are whole milliseconds. Its directories are implied by the paths of the
-- files in them, and a path is kept as the text that Path prints.
--
-- Not modelled: the factories that edit many of the sources they build (abseil,
-- bitcoin, boost, eigen, electron, libcamera, opencv and others) and the comments
-- of projects, which are only shown; the parsing of arguments and the progress
-- that is printed; the thread pool of check_header, whose results are taken in the
-- order of the tests; the loops of the benchmark runners that time compilers; the
-- case studies; and the C++ library itself.

pub mod Base
pub mod Compliance
pub mod Diff
pub mod Budget
pub mod Recipes
pub mod Comparison
pub mod Readme
pub mod Stats
