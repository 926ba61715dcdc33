-- ===== src/Rtsp.antt =====
-- The RTSP protocol (src/rtsp.h, src/rtsp.cpp): the parser of requests and the session's states.
pub mod Types
pub mod Lines
pub mod Transport
pub mod Headers
pub mod Parser
pub mod Session
