-- ===== src/Toolchain.antt =====
-- tools/toolchain.py: Go versions, the requirements of a source tree, and the toolchain lock.
pub mod Version
pub mod Requirements
pub mod Lock
pub mod Resolve
pub mod Tree
pub mod Install
pub mod Stage
pub mod Provision
pub mod Sample
mod Tests
