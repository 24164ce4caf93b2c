-- ===== src/CoreLock.antt =====
-- The lock of a core build: tools/resolve_core.py, and the release identities of tools/build_core.py,
-- tools/prepare_bundle.py and tools/check_stable.py.
pub mod Identity
pub mod Lock
pub mod Sample
pub mod Tests
