-- ===== src/Server.antt =====
-- The RTSP server (src/rtsp_server.h, src/rtsp_server.cpp): the handler of commands, and the loop
-- that serves one connection.
pub mod Output
pub mod Handler
pub mod Connection
pub mod Control
pub mod Threads
pub mod Shared
