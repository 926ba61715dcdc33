-- ===== src/Boot.antt =====
-- How the program starts: src/main.cpp, the boards of src/targets and src/esp32/init.cpp.
pub mod Objects
pub mod Init
pub mod Boards
pub mod Ready
pub mod OnBoard
pub mod Main
pub mod Starts
