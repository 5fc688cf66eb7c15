-- ===== src/Compliance.antt =====
-- tools/compliance.py
pub mod Markers
pub mod Classify
pub mod Results
pub mod Baseline
pub mod Gate
pub mod Header
pub mod Exec
mod Tests
