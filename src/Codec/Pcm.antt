-- ===== src/Codec/Pcm.antt =====
-- src/audio_codec_pcm.cpp: the audio as it is.
pub mod Delivered
use wifi_audio.Common.{
  ℕ, ◌*◌, ◌≡◌, Bool, true, List, [], ◌∷◌, Option, Bytes, codes, ltb, leb, if◌then◌else◌, length,
  take, pos, signed32, Outcome, ret, fault, Fault, ◌>>=◌, ◌>>◌, assert,
}
use wifi_audio.Codec.{CodecInfo, AudioCodec}
use wifi_audio.Libc.Printf.{Arg, num, str, snprintf}

pub record PcmConfig : Type 0 where
  pub bits : ℕ
  pub chans : ℕ
  pub freq : ℕ

abbrev pub fmt : Bytes
fmt =
    codes
      "k=clear: PCM Encoder\r\nv=0\r\no=- %%d %%d IN IP4 %%s\r\ns=Audio Stream\r\nc=IN IP4 0.0.0.0\r\nt=0 0\r\nm=audio 0 RTP/AVP %d\r\na=rtpmap:%d L%d/%d/%d\r\n"

unfoldable pub make_sdp_fmt : ℕ → ℕ → ℕ → Bytes
make_sdp_fmt bits chans freq = snprintf 1024 fmt (
    num (pos 96)
    ∷ num (pos 96)
    ∷ num (signed32 bits)
    ∷ num (signed32 freq)
    ∷ num (signed32 chans)
    ∷ [])

unfoldable pub pcm_info : PcmConfig → CodecInfo
unfolding make_sdp_fmt
pcm_info config = record {
  sdp_fmt = make_sdp_fmt config.bits config.chans config.freq;
  name = codes "pcm";
  payload_type = 96;
  network_order = true;
  samples_per_packet = 360;
  num_chans = 2;
  sample_rate = config.freq;
  sample_size = 2;
  max_payload_size = 360 * 2 * 2;
}

-- `memcpy` reads `size` bytes, however many there are.
unfoldable pub encode : Bytes → ℕ → ℕ → Outcome Bytes
encode src samples obytes =
    let size = samples * 2 * 2 in
    assert (leb size obytes)
    >> (if ltb (length src) size then fault Fault.out_of_bounds else ret (take size src))

unfoldable pub decode : Bytes → ℕ → Outcome Bytes
decode src obytes = fault Fault.assertion

-- `AudioCodec::create(struct PcmConfig *)`
unfoldable pub create_pcm : PcmConfig → AudioCodec
unfolding pcm_info encode
create_pcm config = record {
  State = Unit {0};
  info = pcm_info config;
  encode = λ st src samples obytes. encode src samples obytes >>= λ out. ret (out, st);
}

-- The stored values are read into variables that nothing uses.
unfoldable pub make_pcm : AudioCodec
unfolding create_pcm
make_pcm = create_pcm (record { bits = 16; chans = 2; freq = 48000 })
