-- ===== src/Stats.antt =====
-- The statistics of the benchmark scripts: medians, bootstrap intervals, and what is said of them.
pub mod Floats
pub mod Bootstrap
pub mod Intervals
pub mod Speed
pub mod CompileTime
pub mod Delta
pub mod Report
pub mod Partition
pub mod Significance
mod Tests
