-- ===== src/Rtp.antt =====
-- The RTP side (src/rtp.h, src/rtp.cpp): packet headers and the engine that sends packets.
pub mod Header
pub mod Links
pub mod Engine
