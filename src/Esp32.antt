-- ===== src/Esp32.antt =====
-- src/esp32: the I2S reader of the board.
pub mod I2s
pub mod Fs
