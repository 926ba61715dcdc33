-- ===== src/Codec/Codec2/Refused.antt =====
-- The Codec2 codec in the loop of src/utils.cpp.
use wifi_audio.Common.{
  ℕ, ◌*◌, ◌≡◌, ◌≢◌, refl, ap, false, ◌==◌, Bytes, fault, Fault, ◌>>=◌, arith, Bool-cases, inl, inr,
}
use wifi_audio.Codec.Codec2.{Codec2Lib, Codec2, codec2_info, as_codec, encode}
use wifi_audio.Codec.{CodecInfo}
use wifi_audio.Rtp.Engine.{SocketSend, rx_bytes}
use wifi_audio.Rtp.Links.{Links}
use wifi_audio.Rtsp.Parser.{Luts}
use wifi_audio.Utils.{AudioSource, Queue, Copying, encode_packet, send_encoded}

encode-refused :
    (lib : Codec2Lib) (d : Codec2 lib) (src : Bytes) (samples obytes : ℕ)
    → obytes ≢ lib.bytes_per_frame d.codec
    → encode lib d src samples obytes ≡ fault Fault.assertion
unfolding encode
encode-refused lib d src samples obytes ne =
    let refused : (obytes == lib.bytes_per_frame d.codec) ≡ false = ground (arith, ne) in
    elim (Bool-cases (samples == lib.samples_per_frame d.codec)) [
      | inl same ↦ rw (same, refused, encode) refl
      | inr other ↦ rw (other, encode) refl
    ]

module _ {source : AudioSource} {q : Queue} {k : Links} (lib : Codec2Lib) (luts : Luts) where
  -- In a loop over the Codec2 codec, whose frames have another number of bytes encoded than as
  -- samples: the packet for any audio, with any block, fails an assertion of the encoder.
  pub encode_packet-Codec2 :
      (socket_send : SocketSend) (codec : Codec2 lib) (b : ℕ) (audio : Bytes)
      (c : Copying source q (as_codec lib luts codec) k)
      → c.engine.codec ≡ codec2_info lib luts codec
      → c.codec_state.codec ≡ codec.codec
      → lib.bytes_per_frame codec.codec ≢ lib.samples_per_frame codec.codec * 2
      → encode_packet socket_send b audio c ≡ fault Fault.assertion
  unfolding encode_packet codec2_info rx_bytes
  encode_packet-Codec2 socket_send codec b audio c same_info same_codec other_size =
      let asked : rx_bytes c.engine ≡ lib.samples_per_frame codec.codec * 1 * 2 =
        ap (λ (i : CodecInfo). i.samples_per_packet * i.num_chans * i.sample_size) same_info in
      let frame : lib.bytes_per_frame c.codec_state.codec ≡ lib.bytes_per_frame codec.codec =
        ap lib.bytes_per_frame same_codec in
      ap (λ m. m >>= send_encoded socket_send b c)
        (encode-refused lib c.codec_state audio c.engine.codec.samples_per_packet
          (rx_bytes c.engine) (λ e. other_size (omega (arith, e, asked, frame))))
