-- ===== src/Resolve.antt =====
-- `source_requirements`, `published_lock` and `resolve` of tools/resolve_core.py.
pub mod Source
pub mod Check
pub mod Published
pub mod New
pub mod Locked
pub mod Identity
pub mod Resolved
mod Tests
