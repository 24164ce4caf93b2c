-- ===== src/Publish.antt =====
-- tools/publish_core.py: publishing the immutable release of a core, then moving the stable feed.
pub mod Action
pub mod Descriptor
pub mod Release
pub mod Remote
pub mod Existing
pub mod Main
pub mod Tests
