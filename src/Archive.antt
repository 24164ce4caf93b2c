-- ===== src/Archive.antt =====
-- tools/artifact_utils.py: checks of the binaries that go into an archive.
pub mod Elf
pub mod Members
pub mod Tests
