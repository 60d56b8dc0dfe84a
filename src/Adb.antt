-- ===== src/Adb.antt =====
-- agent/server/adb: the client of the adb server.
pub mod Raw
pub mod Dial
pub mod Text
pub mod Client
pub mod Sync
