-- ===== src/Recipes.antt =====
-- use_on_realworld_projects/realworld_projects.py: the build recipes of real projects.
pub mod World
pub mod Core
pub mod Laws
pub mod Cmake
pub mod Phases
pub mod Wrapped
pub mod Suites
pub mod Single
pub mod Registry
pub mod Verified
pub mod Parallel
mod Tests
pub mod Returns
pub mod Steps
pub mod Refusal
pub mod Performance
pub mod Success
pub mod Unedited
