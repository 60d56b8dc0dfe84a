-- ===== src/Display.antt =====
-- agent/server/display.go and agent/util/vpx: the frames of the emulator on their way to a client.
pub mod Image
pub mod Yuv
pub mod Processor
mod Tests
