-- ===== src/Rtp/Header/RoundTrip.antt =====
-- The setters of src/rtp.h and the decoder of a packet.
use wifi_audio.Common.{ℕ, ◌+◌, ◌*◌, ◌/◌, ◌%◌, ◌<◌, ◌≡◌, arith, get_or, get_or-set, length-set}
use wifi_audio.Rtp.Header.Bits.{
  bit_and_63, bit_and_3, bit_and_128, bit_and_127, bit_or_64, bit_or_128,
}
use wifi_audio.Rtp.Header.Decode.{fields, IsHeader}
use wifi_audio.Rtp.Header.{
  RtpHeader, set_u8, set_version, set_payload, set_seq, set_timestamp, set_ssrc,
}

set_u8_version : (d v : ℕ) → d < 256 → v < 256 → set_u8 d v 3 6 ≡ v % 4 * 64 + d % 64
unfolding set_u8
set_u8_version d v hd hv =
    let x = v % 4 * 64 + d % 64 in
    let low : d % 64 ≡ x % 64 = omega arith in
    let high : v % 4 * 64 % 256 ≡ x / 64 * 64 = omega arith in
    cc (bit_and_63 d hd, bit_and_3 v hv, bit_or_64 x (omega arith), low, high)

set_u8_payload : (d v : ℕ) → d < 256 → v < 256 → set_u8 d v 127 0 ≡ d / 128 * 128 + v % 128
unfolding set_u8
set_u8_payload d v hd hv =
    let x = d / 128 * 128 + v % 128 in
    let low : v % 128 * 1 % 256 ≡ x % 128 = omega arith in
    let high : d / 128 * 128 ≡ x / 128 * 128 = omega arith in
    cc (bit_and_128 d hd, bit_and_127 v hv, bit_or_128 x (omega arith), low, high)

ruleset writes = (get_or-set, length-set)

bytes16 : (n : ℕ) → n / 256 % 256 * 256 + n % 256 ≡ n % 65536
bytes16 n = omega arith

bytes32 :
    (n : ℕ)
    → (n / 16777216 % 256 * 256 + n / 65536 % 256) * 65536 + (n / 256 % 256 * 256 + n % 256)
      ≡ n % 4294967296
bytes32 n = omega arith

-- In a header of twelve bytes: a version of one byte that is set reads back modulo four; no other
-- field changes, nor does the payload.
pub fields-set_version :
    (p : RtpHeader) (v : ℕ)
    → IsHeader p
    → v < 256
    → fields (set_version p v) ≡ record (fields p) { version = v % 4 }
unfolding set_version
fields-set_version p v h hv =
    simp (writes, h.size, set_u8_version (get_or p.head 0 0) v h.first hv) (ground arith)

-- In a header of twelve bytes: a payload type of one byte that is set reads back modulo 128; no other
-- field changes, the marker bit included.
pub fields-set_payload :
    (p : RtpHeader) (pt : ℕ)
    → IsHeader p
    → pt < 256
    → fields (set_payload p pt) ≡ record (fields p) { payload_type = pt % 128 }
unfolding set_payload
fields-set_payload p pt h hp =
    simp (writes, h.size, set_u8_payload (get_or p.head 1 0) pt h.second hp) (ground arith)

-- In a header of twelve bytes: a sequence number that is set reads back modulo 2^16; no other field
-- changes.
pub fields-set_seq :
    (p : RtpHeader) (n : ℕ)
    → IsHeader p
    → fields (set_seq p n) ≡ record (fields p) { seq = n % 65536 }
unfolding set_seq
fields-set_seq p n h = simp (writes, h.size) (rw (bytes16 n))

-- In a header of twelve bytes: a time stamp that is set reads back modulo 2^32; no other field
-- changes.
pub fields-set_timestamp :
    (p : RtpHeader) (n : ℕ)
    → IsHeader p
    → fields (set_timestamp p n) ≡ record (fields p) { timestamp = n % 4294967296 }
unfolding set_timestamp
fields-set_timestamp p n h = simp (writes, h.size) (rw (bytes32 n))

-- In a header of twelve bytes: a source identifier that is set reads back modulo 2^32; no other field
-- changes.
pub fields-set_ssrc :
    (p : RtpHeader) (n : ℕ)
    → IsHeader p
    → fields (set_ssrc p n) ≡ record (fields p) { ssrc = n % 4294967296 }
unfolding set_ssrc
fields-set_ssrc p n h = simp (writes, h.size) (rw (bytes32 n))

-- In a header of twelve bytes, for a version and a payload type of one byte: a version that is set
-- reads back modulo 4, a payload type modulo 128, a sequence number modulo 2^16, a time stamp and a
-- source identifier modulo 2^32; and no setter changes another field.
pub fields_setters :
    (p : RtpHeader) (v pt n t i : ℕ)
    → IsHeader p
    → v < 256
    → pt < 256
    → (fields (set_version p v) ≡ record (fields p) { version = v % 4 })
      × (fields (set_payload p pt) ≡ record (fields p) { payload_type = pt % 128 })
      × (fields (set_seq p n) ≡ record (fields p) { seq = n % 65536 })
      × (fields (set_timestamp p t) ≡ record (fields p) { timestamp = t % 4294967296 })
      × (fields (set_ssrc p i) ≡ record (fields p) { ssrc = i % 4294967296 })
fields_setters p v pt n t i h hv hp = (
  fields-set_version p v h hv,
  fields-set_payload p pt h hp,
  fields-set_seq p n h,
  fields-set_timestamp p t h,
  fields-set_ssrc p i h,
)

pub set_version-IsHeader :
    (p : RtpHeader) (v : ℕ) → IsHeader p → v < 256 → IsHeader (set_version p v)
unfolding set_version
set_version-IsHeader p v h hv = record {
  size = simp (writes, h.size);
  first = simp (writes, h.size, set_u8_version (get_or p.head 0 0) v h.first hv) (omega arith);
  second = simp writes h.second;
}

pub set_payload-IsHeader :
    (p : RtpHeader) (pt : ℕ) → IsHeader p → pt < 256 → IsHeader (set_payload p pt)
unfolding set_payload
set_payload-IsHeader p pt h hp = record {
  size = simp (writes, h.size);
  first = simp writes h.first;
  second =
      simp (writes, h.size, set_u8_payload (get_or p.head 1 0) pt h.second hp)
        (omega (arith, h.second));
}

pub set_seq-IsHeader : (p : RtpHeader) (n : ℕ) → IsHeader p → IsHeader (set_seq p n)
unfolding set_seq
set_seq-IsHeader p n h = record {
  size = simp (writes, h.size);
  first = simp writes h.first;
  second = simp writes h.second;
}

pub set_timestamp-IsHeader : (p : RtpHeader) (n : ℕ) → IsHeader p → IsHeader (set_timestamp p n)
unfolding set_timestamp
set_timestamp-IsHeader p n h = record {
  size = simp (writes, h.size);
  first = simp writes h.first;
  second = simp writes h.second;
}

pub set_ssrc-IsHeader : (p : RtpHeader) (n : ℕ) → IsHeader p → IsHeader (set_ssrc p n)
unfolding set_ssrc
set_ssrc-IsHeader p n h = record {
  size = simp (writes, h.size);
  first = simp writes h.first;
  second = simp writes h.second;
}
