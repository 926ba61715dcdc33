-- ===== src/Rtp/Header.antt =====
-- src/rtp.h: the big-endian field setters and the RTP packet header.
pub mod Bits
pub mod Decode
pub mod RoundTrip
use Prim.Native.Nat.{bit_and, bit_or}
use wifi_audio.Common.{ℕ, ◌+◌, ◌-◌, ◌*◌, ◌/◌, ◌%◌, ◌^◌, Bytes, set, get_or}

-- `*head` is one byte; `~(mask << shift)` is cut to a byte before the `&`.
unfoldable pub set_u8 : ℕ → ℕ → ℕ → ℕ → ℕ
set_u8 head byte mask shift =
    bit_or (bit_and head (255 - mask * 2 ^ shift % 256)) (bit_and byte mask * 2 ^ shift % 256)

-- The bytes of a number from `head[i]` on, the most significant first.
unfoldable pub set_u16 : Bytes → ℕ → ℕ → Bytes
set_u16 head i word = set (set head i (word / 2 ^ 8 % 256)) (i + 1) (word % 256)

unfoldable pub set_u32 : Bytes → ℕ → ℕ → Bytes
set_u32 head i word =
    set
      (set (set (set head i (word / 2 ^ 24 % 256)) (i + 1) (word / 2 ^ 16 % 256)) (i + 2)
        (word / 2 ^ 8 % 256))
      (i + 3) (word % 256)

-- The twelve bytes of the header, and the payload that follows them in the packet.
pub record RtpHeader : Type 0 where
  pub head : Bytes
  pub audio : Bytes

unfoldable pub set_version : RtpHeader → ℕ → RtpHeader
unfolding set_u8
set_version p v = record p { head = set p.head 0 (set_u8 (get_or p.head 0 0) v 0x03 6) }

unfoldable pub set_payload : RtpHeader → ℕ → RtpHeader
unfolding set_u8
set_payload p pt = record p { head = set p.head 1 (set_u8 (get_or p.head 1 0) pt 0x7f 0) }

unfoldable pub set_seq : RtpHeader → ℕ → RtpHeader
unfolding set_u16
set_seq p seq = record p { head = set_u16 p.head 2 seq }

unfoldable pub set_timestamp : RtpHeader → ℕ → RtpHeader
unfolding set_u32
set_timestamp p ts = record p { head = set_u32 p.head 4 ts }

unfoldable pub set_ssrc : RtpHeader → ℕ → RtpHeader
unfolding set_u32
set_ssrc p ssrc = record p { head = set_u32 p.head 8 ssrc }
