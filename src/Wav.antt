-- ===== src/Wav.antt =====
-- src/wav_file.cpp: audio files, raw or with a WAV header.
pub mod Header
pub mod Source
pub mod Sink
pub mod Buffered
pub mod RoundTrip
