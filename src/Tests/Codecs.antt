-- ===== src/Tests/Codecs.antt =====
-- The codecs, over small libraries.
use wifi_audio.Common.{
  ℕ, ◌≡◌, ◌≤◌, ◌⊎◌, inl, inr, refl, Bool, true, false, ◌&&◌, List, [], ◌∷◌, none, some, Bytes,
  codes, ret, fault, Fault, arith, replicate, take, ℤ, pos, negsuc, leb, eq_ℤ, if◌then◌else◌,
  Bool-cases,
}
use wifi_audio.Codec.{CodecInfo}
use wifi_audio.Rtp.Header.Decode.{IsHeader}
use wifi_audio.Codec.Codec2.{Codec2Lib, Codec2, as_codec, codec2_info}
use wifi_audio.Codec.Codec2.Refused.{encode_packet-Codec2}
use wifi_audio.Codec.Opus.{OpusLib}
use wifi_audio.Codec.Opus.Settings.{make_opus}
use wifi_audio.Codec.Opus.Config.{make_opus_lem}
use wifi_audio.Codec.Pcm.{PcmConfig, create_pcm, pcm_info, make_sdp_fmt}
use wifi_audio.Codec.Pcm.Delivered.{encode_packet-pcm}
use wifi_audio.Codec.Registry.{
  Register, registered, make_codec, Latest, NoneNamed, make_codec-Latest,
}
use wifi_audio.Codec.Storage.{Storage, IntParam, one_of}
use wifi_audio.Examples.{fifo, tone_source, example_luts, all_sent}
use wifi_audio.Libc.Printf.{printf}
use wifi_audio.Rtp.Engine.{RtpEngine, create_engine}
use wifi_audio.Rtp.Engine.Blocks.{create_engine-Filled}
use wifi_audio.Rtp.Engine.Send.{Delivered, filled}
use wifi_audio.Rtp.Header.{set_ssrc, set_timestamp, set_payload, set_version}
use wifi_audio.Rtp.Links.{list_links}
use wifi_audio.Utils.{Reader, Copying, encode_packet}

abbrev config : PcmConfig
config = record { bits = 16; chans = 2; freq = 48000 }

sdp_test :
    make_sdp_fmt 16 2 48000
    ≡ codes
        "k=clear: PCM Encoder\r\nv=0\r\no=- %d %d IN IP4 %s\r\ns=Audio Stream\r\nc=IN IP4 0.0.0.0\r\nt=0 0\r\nm=audio 0 RTP/AVP 96\r\na=rtpmap:96 L16/48000/2\r\n"
unfolding make_sdp_fmt printf
sdp_test = refl

abbrev audio : Bytes
audio = replicate 1440 5

abbrev reader : Reader tone_source fifo
reader = record { size = 1440; num_blocks = 1; idx = 0; buffers = audio ∷ []; src = 0; queue = [] }

-- An engine of which block 1 is in use, with a client that plays.
abbrev busy : CodecInfo → RtpEngine list_links
busy info = record (create_engine info 6000 6001 2) { blocks = 0 ∷ []; playing = 7 ∷ [] }

abbrev pcm_copying : Copying tone_source fifo (create_pcm config) list_links
unfolding create_pcm
pcm_copying = record { reader = reader; engine = busy (pcm_info config); codec_state = tt }

busy-IsHeader : IsHeader (pcm_copying.engine.packets 1)
unfolding pcm_info pcm_copying
busy-IsHeader =
    ((create_engine-Filled {k = list_links} (pcm_info config) (omega arith) 6000 6001 2).ready 1
      (omega arith)).header

encode_packet-pcm_example :
    (f : RtpEngine list_links) × (encode_packet all_sent 1 audio pcm_copying
      ≡ ret (true, record pcm_copying { engine = f }))
    × Delivered (filled pcm_copying.engine 1 audio) f 1 1440 360
    × ((f.packets 1).audio ≡ audio)
unfolding create_engine pcm_copying pcm_info set_ssrc set_timestamp set_payload set_version
encode_packet-pcm_example =
    encode_packet-pcm config all_sent 1 audio pcm_copying refl refl
      (record { seq_word = omega arith; time_word = omega arith }) busy-IsHeader refl refl refl

abbrev small_codec2 : Codec2Lib
small_codec2 = record {
  Codec = Unit {0};
  mode_3200 = 0;
  mode_2400 = 1;
  mode_1600 = 2;
  mode_1400 = 3;
  mode_1300 = 4;
  mode_1200 = 5;
  mode_700C = 8;
  create = λ mode. some tt;
  samples_per_frame = λ c. 160;
  bytes_per_frame = λ c. 8;
  encode = λ c src. (take 8 src, c);
  decode = λ c src. (src, c);
}

abbrev codec2 : Codec2 small_codec2
codec2 = record { codec = tt; sdp = none; mode = 0; fs = 8000 }

abbrev codec2_copying :
    Copying tone_source fifo (as_codec small_codec2 example_luts codec2) list_links
codec2_copying = record {
  reader = reader;
  engine = busy (codec2_info small_codec2 example_luts codec2);
  codec_state = codec2;
}

encode_packet-Codec2_example : encode_packet all_sent 1 audio codec2_copying ≡ fault Fault.assertion
unfolding create_engine
encode_packet-Codec2_example =
    encode_packet-Codec2 small_codec2 example_luts all_sent codec2 1 audio codec2_copying refl refl
      (λ e. cc)

-- A library that refuses the complexity.
abbrev small_opus : OpusLib
small_opus = record {
  Encoder = Unit {0};
  Decoder = Unit {0};
  ok = pos 0;
  application_audio = pos 2049;
  application_voip = pos 2048;
  encoder_create = λ fs chans app. (some tt, pos 0);
  set_bitrate = λ rate e. (pos 0, e);
  set_complexity = λ n e. (negsuc 0, e);
  encode = λ e src samples obytes. (pos 1, 0 ∷ [], e);
  decoder_init = λ fs chans. (pos 0, tt);
  decode = λ d src samples obytes. (pos 0, [], d);
  encoder_create-some = λ fs chans app h. (tt, refl);
}

abbrev pub in_range : ℤ → ℤ → ℤ → Bool
in_range (pos v) (pos low) (pos high) = leb low v && leb v high
in_range _ _ _ = false

pub in_range-bounds :
    (v : ℤ) (low high : ℕ)
    → in_range v (pos low) (pos high) ≡ true
    → (n : ℕ) × (v ≡ pos n) × (low ≤ n) × (n ≤ high)
in_range-bounds (pos v) low high h = (v, refl, ground (arith, h), ground (arith, h))
in_range-bounds (negsuc v) low high h = cc

-- A store with this bit rate and no other value.
abbrev pub in_store : ℕ → IntParam → ℤ
in_store rate p =
    if eq_ℤ p.value (pos 96000)
    then (if p.validate (pos rate) then pos rate else p.value)
    else p.value

pub in_store-valid :
    (rate : ℕ) (p : IntParam) → (in_store rate p ≡ p.value) ⊎ (p.validate (in_store rate p) ≡ true)
in_store-valid rate p = elim (Bool-cases (eq_ℤ p.value (pos 96000))) [
  | inl here ↦ elim (Bool-cases (p.validate (pos rate))) [
    | inl ok ↦ inr (simp (here, ok))
    | inr bad ↦ inl (simp (here, bad))
  ]
  | inr away ↦ inl (simp away)
]

abbrev pub store : ℕ → Storage
store rate = record {
  get_param = λ db p. in_store rate p;
  validate_range = in_range;
  validate_set = one_of;
  get = λ db key size. none;
  get_param-valid = λ db p. in_store-valid rate p;
  validate_range-bounds = in_range-bounds;
  validate_set-one_of = λ v set h. h;
}

make_opus_lem_example : make_opus (store 5500) small_opus ≡ fault Fault.assertion
make_opus_lem_example = (make_opus_lem (store 5500) small_opus).0 (omega arith)

abbrev codecs : List (Register ℕ)
codecs =
    record { name = codes "pcm"; maker = 1 }
    ∷ record { name = codes "opus"; maker = 2 }
    ∷ record { name = codes "pcm"; maker = 3 }
    ∷ []

make_codec-Latest_example :
    ((make_codec (store 0) (some (codes "pcm")) (registered codecs) ≡ none)
      × NoneNamed (codes "pcm") codecs)
    ⊎ Latest (codes "pcm") codecs (make_codec (store 0) (some (codes "pcm")) (registered codecs))
make_codec-Latest_example = make_codec-Latest (store 0) (codes "pcm") codecs
