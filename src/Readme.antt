-- ===== src/Readme.antt =====
-- scripts/update_readme_from_benchmarks.py: the blocks of README.md that are kept up to date with
-- the benchmark reports.
pub mod Blocks
pub mod Patterns
pub mod Rows
pub mod Reports
pub mod Sync
pub mod Parts
pub mod Lens
pub mod Assignment
pub mod Puts
pub mod Lines
pub mod Blank
pub mod Again
pub mod Summary
mod Runs
mod Tests
