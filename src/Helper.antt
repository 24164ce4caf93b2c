-- ===== src/Helper.antt =====
-- tools/build_helper.py: the toolchain lock of the router's helper.
pub mod Lock
pub mod Matching
pub mod Prepare
pub mod Tests
