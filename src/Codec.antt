-- ===== src/Codec.antt =====
-- src/audio_codec.h: what the rest of the program sees of a codec. The codecs are the children.
pub mod Storage
pub mod Pcm
pub mod Opus
pub mod Codec2
pub mod Registry
use wifi_audio.Common.{ℕ, Bool, Bytes, Outcome}

-- The answers of the virtual functions that do not change over a codec's life.
pub record CodecInfo : Type 0 where
  pub sdp_fmt : Bytes
  pub name : Bytes
  pub payload_type : ℕ
  pub network_order : Bool
  pub samples_per_packet : ℕ
  pub num_chans : ℕ
  pub sample_rate : ℕ
  pub sample_size : ℕ
  pub max_payload_size : ℕ

-- A codec with its state: `encode src samples obytes` gives the bytes written to `dst`.
pub record AudioCodec : Type 1 where
  pub State : Type 0
  pub info : CodecInfo
  pub open info use *
  pub encode : State → Bytes → ℕ → ℕ → Outcome (Bytes × State)
