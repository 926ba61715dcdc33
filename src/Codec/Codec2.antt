-- ===== src/Codec/Codec2.antt =====
-- src/audio_codec_codec2.cpp, over the Codec2 library as a parameter.
pub mod Refused
use wifi_audio.Common.{
  ℕ, ◌*◌, ◌/◌, ◌≡◌, Bool, true, false, not, List, [], ◌∷◌, Option, none, some, Bytes, codes, ltb,
  ◌==◌, if◌then◌else◌, length, ℤ, pos, signed32, low_bits, ◌%◌, ◌^◌, Outcome, ret, fault, Fault,
  ◌>>=◌, ◌>>◌, assert, map,
}
use wifi_audio.Codec.Storage.{Storage, IntParam}
use wifi_audio.Codec.{CodecInfo, AudioCodec}
use wifi_audio.Libc.Printf.{Arg, num, str, snprintf}
use wifi_audio.Rtsp.Parser.{Luts}
use wifi_audio.Rtsp.Types.{Lut}

-- The modes and the calls of codec2.h.
pub record Codec2Lib : Type 1 where
  pub Codec : Type 0
  pub mode_3200 : ℕ
  pub mode_2400 : ℕ
  pub mode_1600 : ℕ
  pub mode_1400 : ℕ
  pub mode_1300 : ℕ
  pub mode_1200 : ℕ
  pub mode_700C : ℕ
  pub create : ℤ → Option Codec
  pub samples_per_frame : Codec → ℕ
  pub bytes_per_frame : Codec → ℕ
  pub encode : Codec → Bytes → Bytes × Codec
  pub decode : Codec → Bytes → Bytes × Codec

pub record Codec2Config : Type 0 where
  pub mode : ℕ
  pub fs : ℕ

module _ (lib : Codec2Lib) where
  pub record Codec2 : Type 0 where
    pub codec : lib.Codec
    pub sdp : Option Bytes
    pub mode : ℕ
    pub fs : ℕ

  abbrev pub mode_lut : Lut
  mode_lut =
      (codes "3200", lib.mode_3200)
      ∷ (codes "2400", lib.mode_2400)
      ∷ (codes "1600", lib.mode_1600)
      ∷ (codes "1400", lib.mode_1400)
      ∷ (codes "1300", lib.mode_1300)
      ∷ (codes "1200", lib.mode_1200)
      ∷ (codes "700C", lib.mode_700C)
      ∷ []

  -- The constructor.
  unfoldable pub new_codec2 : ℕ → ℕ → Outcome Codec2
  new_codec2 mode fs = elim (lib.create (signed32 (mode % 2 ^ 32))) [
    | none ↦ fault Fault.assertion
    | some codec ↦ ret (record { codec = codec; sdp = none; mode = mode; fs = fs })
  ]

  unfoldable pub make_sdp : Luts → Codec2 → Bytes
  make_sdp luts c =
      snprintf 1024
        (codes
          "k=clear: Codec2 Encoder\r\nm=audio 0 RTP/AVP %d\r\nc=IN IP4 0.0.0.0\r\na=rtpmap:%d codec2/%d\r\na=fmtp:%d mode=%s\r\n")
        (num (pos 98)
          ∷ num (pos 98)
          ∷ num (signed32 c.fs)
          ∷ num (pos 98)
          ∷ str (luts.lut mode_lut c.mode)
          ∷ [])

  -- The text is made at the first call.
  unfoldable pub get_sdp_fmt : Luts → Codec2 → Bytes × Codec2
  unfolding make_sdp
  get_sdp_fmt luts c = elim c.sdp [
    | none ↦ (make_sdp luts c, record c { sdp = some (make_sdp luts c) })
    | some s ↦ (s, c)
  ]

  unfoldable pub codec2_info : Luts → Codec2 → CodecInfo
  unfolding get_sdp_fmt
  codec2_info luts c = record {
    sdp_fmt = (get_sdp_fmt luts c).0;
    name = codes "codec2";
    payload_type = 98;
    network_order = false;
    samples_per_packet = lib.samples_per_frame c.codec;
    num_chans = 1;
    sample_rate = c.fs;
    sample_size = 2;
    max_payload_size = lib.bytes_per_frame c.codec;
  }

  unfoldable pub encode : Codec2 → Bytes → ℕ → ℕ → Outcome (Bytes × Codec2)
  encode c src samples obytes =
      assert (samples == lib.samples_per_frame c.codec)
      >> assert (obytes == lib.bytes_per_frame c.codec)
      >> (let (out, codec) = lib.encode c.codec src in ret (out, record c { codec = codec }))

  unfoldable pub decode : Codec2 → Bytes → ℕ → Outcome (ℕ × Bytes × Codec2)
  decode c src obytes =
      assert (length src == lib.bytes_per_frame c.codec)
      >> assert (obytes == lib.samples_per_frame c.codec * 2)
      >> (let (out, codec) = lib.decode c.codec src in
          ret (obytes / 2, out, record c { codec = codec }))

  unfoldable pub create_codec2 : Codec2Config → Outcome Codec2
  unfolding new_codec2
  create_codec2 config = new_codec2 config.mode config.fs

  -- As the rest of the program sees it.
  abbrev pub as_codec : Luts → Codec2 → AudioCodec
  as_codec luts c = record { State = Codec2; info = codec2_info luts c; encode = encode }

  abbrev pub modes : List ℤ
  modes = map pos (
      lib.mode_3200 ∷ lib.mode_2400 ∷ lib.mode_1600 ∷ lib.mode_1400 ∷ lib.mode_1300 ∷ lib.mode_1200
      ∷ lib.mode_700C ∷ [])

  abbrev pub mode_param : Storage → IntParam
  mode_param storage = record {
    name = codes "mode";
    value = pos 1;
    validate = λ v. storage.validate_set v modes;
  }

  unfoldable pub make_codec2 : Storage → Outcome Codec2
  unfolding create_codec2
  make_codec2 storage = create_codec2 (record {
    mode = low_bits 32 (storage.get_param (codes "codec2") (mode_param storage));
    fs = 8000;
  })
