-- ===== src/Bundle.antt =====
-- `prepare` of tools/prepare_bundle.py.
pub mod Stage
pub mod Prepare
mod Tests
