-- ===== src/Builder.antt =====
-- builder: the tool that downloads the parts of the emulator and patches the ramdisk of its image.
pub mod Download
pub mod Ramdisk
pub mod Selection
mod Tests
