-- ===== src/Rtp/Header/Decode.antt =====
-- The fields of an RTP packet as RFC 3550 section 5.1 lays them out, read back independently of the
-- setters.
use wifi_audio.Common.{ℕ, ◌+◌, ◌*◌, ◌/◌, ◌%◌, ◌<◌, ◌≡◌, Bytes, get_or, length}
use wifi_audio.Rtp.Header.{RtpHeader}

-- The number that `n` bytes from index `i` stand for, the most significant first.
abbrev pub read_u16 : Bytes → ℕ → ℕ
read_u16 head i = get_or head i 0 * 256 + get_or head (i + 1) 0

abbrev pub read_u32 : Bytes → ℕ → ℕ
read_u32 head i = read_u16 head i * 65536 + read_u16 head (i + 2)

pub record Fields : Type 0 where
  pub version : ℕ
  -- padding, extension and CSRC count
  pub flags : ℕ
  pub marker : ℕ
  pub payload_type : ℕ
  pub seq : ℕ
  pub timestamp : ℕ
  pub ssrc : ℕ
  pub audio : Bytes

abbrev pub fields : RtpHeader → Fields
fields p = record {
  version = get_or p.head 0 0 / 64;
  flags = get_or p.head 0 0 % 64;
  marker = get_or p.head 1 0 / 128;
  payload_type = get_or p.head 1 0 % 128;
  seq = read_u16 p.head 2;
  timestamp = read_u32 p.head 4;
  ssrc = read_u32 p.head 8;
  audio = p.audio;
}

-- A header is twelve bytes; the first two are used as bit fields.
pub record IsHeader (p : RtpHeader) : Type 0 where
  pub size : length p.head ≡ 12
  pub first : get_or p.head 0 0 < 256
  pub second : get_or p.head 1 0 < 256
