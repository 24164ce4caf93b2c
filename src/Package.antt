-- ===== src/Package.antt =====
-- tools/package.py: what goes into the installation archives.
pub mod Installer
pub mod Inputs
mod Tests
