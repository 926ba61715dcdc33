-- ===== src/Tests.antt =====
-- Runs of the model on requests like those of test/rtsp.cpp and on the header bytes of test/rtp.cpp, and
-- the theorems at concrete inputs.
mod Codecs
mod Connection
mod Control
mod Files
mod I2s
mod Replies
mod Requests
mod Packets
mod Audio
mod Led
mod Threads
mod Boot
mod Card
mod Shared
