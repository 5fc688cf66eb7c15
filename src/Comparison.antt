-- ===== src/Comparison.antt =====
-- scripts/compare_realworld_to_ref.py: what is built for a comparison, and what is kept of it.
pub mod Runtime
pub mod Matrix
pub mod Counts
pub mod Total
pub mod Archive
pub mod Projects
pub mod Refs
pub mod Sides
mod Tests
