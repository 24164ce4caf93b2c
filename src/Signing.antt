-- ===== src/Signing.antt =====
-- tools/release_core.py: what must hold of a build before it is signed.
pub mod Metadata
pub mod Bound
pub mod Core
pub mod Tests
