-- ===== src/Wav/Header.antt =====
-- `struct WavFileHeader` of src/wav_file.cpp, and its 44 bytes on a little-endian machine.
use wifi_audio.Common.{ℕ, ◌+◌, ◌*◌, ◌/◌, ◌%◌, ◌^◌, ◌≡◌, [], ◌∷◌, ◌++◌, Bytes, take, drop, arith}

pub record WavFileHeader : Type 0 where
  pub riff_chunk : Bytes
  pub chunk_size : ℕ
  pub file_format : Bytes
  pub format_chunk : Bytes
  pub format_size : ℕ
  pub pcm_flags : ℕ
  pub channels : ℕ
  pub sample_rate : ℕ
  pub byte_rate : ℕ
  pub block_align : ℕ
  pub bit_depth : ℕ
  pub data_chunk : Bytes
  pub data_size : ℕ

-- The bytes of a uint16_t and of a uint32_t.
abbrev pub le16 : ℕ → Bytes
le16 n = n % 256 ∷ n / 2 ^ 8 % 256 ∷ []

abbrev pub le32 : ℕ → Bytes
le32 n = n % 256 ∷ n / 2 ^ 8 % 256 ∷ n / 2 ^ 16 % 256 ∷ n / 2 ^ 24 % 256 ∷ []

-- The number that bytes stand for, the least significant first.
abbrev pub from_le : Bytes → ℕ
from_le [] = 0
from_le (b ∷ bs) = b + 256 * from_le bs

-- The struct as `fwrite` sees it, and as `fread` fills it.
abbrev pub header_bytes : WavFileHeader → Bytes
header_bytes h =
    h.riff_chunk
    ++ le32 h.chunk_size
    ++ h.file_format
    ++ h.format_chunk
    ++ le32 h.format_size
    ++ le16 h.pcm_flags
    ++ le16 h.channels
    ++ le32 h.sample_rate
    ++ le32 h.byte_rate
    ++ le16 h.block_align
    ++ le16 h.bit_depth
    ++ h.data_chunk
    ++ le32 h.data_size

-- The field of `n` bytes at `i`.
abbrev pub field : ℕ → ℕ → Bytes → Bytes
field i n bytes = take n (drop i bytes)

abbrev pub read_header : Bytes → WavFileHeader
read_header b = record {
  riff_chunk = field 0 4 b;
  chunk_size = from_le (field 4 4 b);
  file_format = field 8 4 b;
  format_chunk = field 12 4 b;
  format_size = from_le (field 16 4 b);
  pcm_flags = from_le (field 20 2 b);
  channels = from_le (field 22 2 b);
  sample_rate = from_le (field 24 4 b);
  byte_rate = from_le (field 28 4 b);
  block_align = from_le (field 32 2 b);
  bit_depth = from_le (field 34 2 b);
  data_chunk = field 36 4 b;
  data_size = from_le (field 40 4 b);
}

pub from_le-le32 : (n : ℕ) → from_le (le32 n) ≡ n % 2 ^ 32
from_le-le32 n = omega arith
