-- ===== src/Codec/Opus.antt =====
-- src/audio_codec_opus.cpp, over the Opus library as a parameter.
pub mod Settings
pub mod Params
pub mod Config
use wifi_audio.Common.{
  ℕ, ◌*◌, ◌%◌, ◌^◌, ◌≡◌, ◌≤◌, Bool, true, false, not, ◌&&◌, ◌||◌, List, [], ◌∷◌, Option, none, some,
  Bytes, codes, ltb, leb, ◌==◌, if◌then◌else◌, length, ℤ, pos, negsuc, signed32, low_bits, eq_ℤ,
  Outcome, ret, fault, Fault, ◌>>=◌, ◌>>◌, assert,
}
use wifi_audio.Codec.{CodecInfo, AudioCodec}
use wifi_audio.Codec.Storage.{Storage, IntParam}
use wifi_audio.Libc.Printf.{Arg, num, str, snprintf}

-- The calls of opus.h. A number that is not `ok` is an error.
pub record OpusLib : Type 1 where
  pub Encoder : Type 0
  pub Decoder : Type 0
  pub ok : ℤ
  pub application_audio : ℤ
  pub application_voip : ℤ
  pub encoder_create : ℤ → ℤ → ℤ → Option Encoder × ℤ
  pub set_bitrate : ℕ → Encoder → ℤ × Encoder
  pub set_complexity : ℕ → Encoder → ℤ × Encoder
  -- The number of bytes or an error, the bytes, and the encoder afterwards.
  pub encode : Encoder → Bytes → ℤ → ℤ → ℤ × Bytes × Encoder
  pub decoder_init : ℤ → ℤ → ℤ × Decoder
  pub decode : Decoder → Bytes → ℤ → ℤ → ℤ × Bytes × Decoder
  -- Without an error there is an encoder.
  pub encoder_create-some :
      (fs chans app : ℤ)
      → (encoder_create fs chans app).1 ≡ ok
      → (e : Encoder) × ((encoder_create fs chans app).0 ≡ some e)

pub record OpusConfig : Type 0 where
  pub bit_rate : ℕ
  pub complexity : ℕ
  pub packet_rate : ℕ
  pub fs : ℕ
  pub chans : ℕ
  pub app : ℕ
  pub encode : Bool
  pub decode : Bool

abbrev pub op_audio : ℕ
op_audio = 1

abbrev pub op_voip : ℕ
op_voip = 2

-- A uint32_t or a size_t as an `int`.
abbrev pub as_int : ℕ → ℤ
as_int n = signed32 (n % 2 ^ 32)

-- `opus_alloc_scratch` and `free_scratch`: the size of the scratch area, if there is one. The library asks
-- for one only once.
unfoldable pub opus_alloc_scratch : ℕ → Option ℕ → Outcome (Option ℕ)
opus_alloc_scratch size none = ret (some size)
opus_alloc_scratch size (some _) = fault Fault.assertion

unfoldable pub free_scratch : Option ℕ → Option ℕ
free_scratch scratch = none

module _ (lib : OpusLib) where
  open lib use {Encoder, Decoder}

  pub record OpusCodec : Type 0 where
    pub encoder : Option Encoder
    pub decoder : Option Decoder
    pub sdp_fmt : Option Bytes
    pub samples_per_block : ℕ
    pub config : OpusConfig

  unfoldable pub application : ℕ → Outcome ℤ
  application app =
      if app == op_audio
      then ret lib.application_audio
      else if app == op_voip
      then ret lib.application_voip
      else fault Fault.assertion

  abbrev on_encoder :
      Option Encoder → (Encoder → Outcome (Bool × OpusCodec)) → Outcome (Bool × OpusCodec)
  on_encoder none f = fault Fault.null_pointer
  on_encoder (some e) f = f e

  -- The settings of a new encoder; false if one is refused.
  unfoldable pub set_up : OpusCodec → Encoder → Outcome (Bool × OpusCodec)
  set_up c e =
      let (err, e1) = lib.set_bitrate c.config.bit_rate e in
      let (err2, e2) = lib.set_complexity c.config.complexity e1 in
      if not (eq_ℤ err lib.ok)
      then ret (false, record c { encoder = some e1 })
      else ret (eq_ℤ err2 lib.ok, record c { encoder = some e2 })

  unfoldable pub create_encoder : OpusCodec → ℤ → Outcome (Bool × OpusCodec)
  unfolding set_up
  create_encoder c app =
      let (encoder, err) = lib.encoder_create (as_int c.config.fs) (as_int c.config.chans) app in
      let c1 = record c { encoder = encoder } in
      if not (eq_ℤ err lib.ok) then ret (false, c1) else on_encoder encoder (set_up c1)

  unfoldable pub make_encoder : OpusCodec → Outcome (Bool × OpusCodec)
  unfolding application create_encoder
  make_encoder c = application c.config.app >>= create_encoder c

  unfoldable pub make_decoder : OpusCodec → Bool × OpusCodec
  make_decoder c =
      let (err, decoder) = lib.decoder_init (as_int c.config.fs) (as_int c.config.chans) in
      (eq_ℤ err lib.ok, record c { decoder = some decoder })

  abbrev fmt : Bytes
  fmt =
      codes
        "k=clear: Opus Encoder\r\nv=0\r\no=- %%d %%d IN IP4 %%s\r\ns=Audio Stream\r\nc=IN IP4 0.0.0.0\r\nt=0 0\r\nm=audio 0 RTP/AVP %d\r\na=rtpmap:%d opus/48000/2\r\na=fmtp:%d stereo=%d\r\n"

  unfoldable pub make_sdp_fmt : OpusCodec → OpusCodec
  make_sdp_fmt c = record c {
    sdp_fmt = some (
        snprintf 1024 fmt (
          num (pos 97)
          ∷ num (pos 97)
          ∷ num (pos 97)
          ∷ num (pos (if c.config.chans == 2 then 1 else 0))
          ∷ []));
  }

  -- The text is made at the first call.
  unfoldable pub get_sdp_fmt : OpusCodec → Option Bytes × OpusCodec
  unfolding make_sdp_fmt
  get_sdp_fmt c = elim c.sdp_fmt [
    | none ↦ ((make_sdp_fmt c).sdp_fmt, make_sdp_fmt c)
    | some s ↦ (some s, c)
  ]

  unfoldable pub samples_per_packet : OpusCodec → Outcome ℕ
  samples_per_packet c = assert (not (c.samples_per_block == 0)) >> ret c.samples_per_block

  abbrev pub max_payload_size : ℕ
  max_payload_size = 1275

  -- What the encoder wrote; nothing after an error.
  abbrev encoded : OpusCodec → ℤ × Bytes × Encoder → Bytes × OpusCodec
  encoded c (pos n, out, e) = (if n == 0 then [] else out, record c { encoder = some e })
  encoded c (negsuc n, out, e) = ([], record c { encoder = some e })

  unfoldable pub encode : OpusCodec → Bytes → ℕ → ℕ → Outcome (Bytes × OpusCodec)
  encode c src samples obytes = elim c.encoder [
    | none ↦ fault Fault.assertion
    | some e ↦ ret (encoded c (lib.encode e src (as_int samples) (as_int obytes)))
  ]

  unfoldable pub decode : OpusCodec → Bytes → ℕ → Outcome (ℤ × Bytes × OpusCodec)
  decode c src obytes = elim c.decoder [
    | none ↦ fault Fault.assertion
    | some d ↦
        let (samples, out, d1) = lib.decode d src (as_int (length src)) (as_int obytes) in
        ret (samples, out, record c { decoder = some d1 })
  ]

  unfoldable pub opus_info : OpusCodec → CodecInfo
  unfolding get_sdp_fmt
  opus_info c = record {
    sdp_fmt = elim (get_sdp_fmt c).0 [ none ↦ [] | some s ↦ s ];
    name = codes "opus";
    payload_type = 97;
    network_order = false;
    samples_per_packet = c.samples_per_block;
    num_chans = c.config.chans;
    sample_rate = c.config.fs;
    sample_size = 2;
    max_payload_size = max_payload_size;
  }

  -- As the rest of the program sees it.
  abbrev pub as_codec : OpusCodec → AudioCodec
  as_codec c = record { State = OpusCodec; info = opus_info c; encode = encode }

  abbrev when_made : Bool → Outcome (Bool × OpusCodec) → OpusCodec → Outcome OpusCodec
  when_made true made c = made >>= λ r. ret r.1
  when_made false made c = ret c

  -- The constructor goes on if the encoder cannot be made.
  unfoldable pub new_opus : OpusConfig → Outcome OpusCodec
  unfolding make_encoder make_decoder
  new_opus config =
      let c : OpusCodec = record {
        encoder = none;
        decoder = none;
        sdp_fmt = none;
        samples_per_block = 0;
        config = config;
      } in
      assert (config.encode || config.decode)
      >> when_made config.encode (make_encoder c) c
      >>= λ c1. when_made config.decode (ret (make_decoder c1)) c1 >>= λ c2.
          assert (not (config.packet_rate == 0))
          >> ret (record c2 { samples_per_block = config.packet_rate * 48 % 2 ^ 32 })

  -- `AudioCodec::create(struct OpusConfig *)`
  unfoldable pub create_opus : OpusConfig → Outcome OpusCodec
  unfolding new_opus
  create_opus config =
      assert (leb 6000 config.bit_rate && leb config.bit_rate 510000)
      >> assert (ltb config.complexity 11)
      >> assert (not (config.fs == 0))
      >> assert (ltb 0 config.chans && ltb config.chans 3)
      >> assert (config.app == op_audio || config.app == op_voip)
      >> new_opus config
