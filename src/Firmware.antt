-- ===== src/Firmware.antt =====
-- tools/firmware_compat.py: finding the file system in a firmware image.
pub mod Squashfs
pub mod Tests
