-- ===== src/Build.antt =====
-- tools/build_core.py: fetching the inputs of a build.
pub mod Download
pub mod Verified
pub mod Tests
