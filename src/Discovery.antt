-- ===== src/Discovery.antt =====
-- tools/check_stable.py with `source_commit` of tools/build_core.py: which upstream version to build,
-- and whether the stable feed already has it.
pub mod Commit
pub mod Feed
pub mod Tests
