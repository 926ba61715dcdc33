-- ===== src/Codec/Pcm/Delivered.antt =====
-- The PCM codec in the loop of src/utils.cpp.
use wifi_audio.Common.{
  ℕ, ◌*◌, ◌≡◌, refl, sym, ap, ◌∙◌, inl, inr, true, false, Bytes, length, count, take_all, overwrite,
  overwrite_all, ltb, ret, ◌>>=◌, arith,
}
use mathlib.Core.Path.{subst}
use wifi_audio.Codec.Pcm.{PcmConfig, pcm_info, create_pcm, encode}
use wifi_audio.Codec.{CodecInfo, AudioCodec}
use wifi_audio.Rtp.Engine.{RtpEngine, SocketSend, rx_bytes}
use wifi_audio.Rtp.Engine.Send.{filled, filled-IsHeader, IsCounting, Delivered, send_lem}
use wifi_audio.Rtp.Engine.Updates.{update_self}
use wifi_audio.Rtp.Header.Decode.{IsHeader, Fields}
use wifi_audio.Rtp.Header.{RtpHeader}
use wifi_audio.Rtp.Links.{Links}
use wifi_audio.Utils.{AudioSource, Queue, Copying, encode_packet, send_encoded}

encode-all : (audio : Bytes) → length audio ≡ 1440 → encode audio 360 1440 ≡ ret audio
unfolding encode
encode-all audio size =
    let enough : ltb (length audio) 1440 ≡ false = ground (arith, size) in
    rw (enough, take_all 1440 audio (omega (arith, size)), encode) refl

-- What a codec wrote, if it fills the block.
send_encoded-whole :
    {source : AudioSource} {q : Queue} {codec : AudioCodec} {k : Links} (socket_send : SocketSend)
    (b : ℕ) (c : Copying source q codec k) (out : Bytes) (st : codec.State)
    → length out ≡ c.engine.max_payload b
    → length out ≡ length (c.engine.packets b).audio
    → IsCounting c.engine
    → IsHeader (c.engine.packets b)
    → count b (k.items c.engine.blocks) ≡ 0
    → (f : RtpEngine k) × (send_encoded socket_send b c (out, st)
        ≡ ret (true, record c { engine = f; codec_state = st }))
      × Delivered (filled c.engine b out) f b (length out) c.engine.codec.samples_per_packet
unfolding send_encoded
send_encoded-whole socket_send b c out st room packet counting header absent =
    let enough : ltb (c.engine.max_payload b) (length out) ≡ false = ground (arith, room) in
    let whole : overwrite (c.engine.packets b).audio 0 out ≡ out =
      overwrite_all (c.engine.packets b).audio out packet in
    elim (send_lem socket_send (filled c.engine b out) b (length out)
      c.engine.codec.samples_per_packet
      (record { seq_word = counting.seq_word; time_word = counting.time_word })
      (filled-IsHeader c.engine b out header) absent) [
        | inl (fits, (f, eq, h)) ↦ (f, simp (whole, enough, eq), h)
        | inr (over, eq) ↦ absurd (omega (arith, over, room))
      ]

module _ {source : AudioSource} {q : Queue} {k : Links} (config : PcmConfig) where
  -- In a loop over the PCM codec, whatever its settings, for a buffer of 1440 bytes and a block of
  -- that size that is not in the pool, with its header of twelve bytes and counters in range: the
  -- packet is sent, no assertion fails, and its payload is the buffer's audio, byte by byte.
  pub encode_packet-pcm :
      (socket_send : SocketSend) (b : ℕ) (audio : Bytes)
      (c : Copying source q (create_pcm config) k)
      → c.engine.codec ≡ pcm_info config
      → length audio ≡ 1440
      → IsCounting c.engine
      → IsHeader (c.engine.packets b)
      → count b (k.items c.engine.blocks) ≡ 0
      → c.engine.max_payload b ≡ 1440
      → length (c.engine.packets b).audio ≡ 1440
      → (f : RtpEngine k) × (encode_packet socket_send b audio c
          ≡ ret (true, record c { engine = f }))
        × Delivered (filled c.engine b audio) f b 1440 360
        × ((f.packets b).audio ≡ audio)
  unfolding encode_packet create_pcm pcm_info rx_bytes
  encode_packet-pcm socket_send b audio c same_info size counting header absent room packet =
      let samples : c.engine.codec.samples_per_packet ≡ 360 =
        ap (λ (i : CodecInfo). i.samples_per_packet) same_info in
      let asked : rx_bytes c.engine ≡ 1440 =
        ap (λ (i : CodecInfo). i.samples_per_packet * i.num_chans * i.sample_size) same_info in
      let (f, sent, h) =
        send_encoded-whole socket_send b c audio c.codec_state (size ∙ sym room) (size ∙ sym packet)
          counting header absent in
      (
        f,
        ap
              (λ n.
                encode audio n (rx_bytes c.engine)
                >>= (λ out. ret (out, c.codec_state))
                >>= send_encoded socket_send b c)
              samples
            ∙ ap
                (λ n.
                  encode audio 360 n
                  >>= (λ out. ret (out, c.codec_state))
                  >>= send_encoded socket_send b c)
                asked
            ∙ ap (λ m. m >>= (λ out. ret (out, c.codec_state)) >>= send_encoded socket_send b c)
                (encode-all audio size)
            ∙ sent,
        subst (λ n. Delivered (filled c.engine b audio) f b n 360) size
            (subst (λ n. Delivered (filled c.engine b audio) f b (length audio) n) samples h),
        ap (λ (x : Fields). x.audio) h.packet
            ∙ ap (λ (x : RtpHeader). x.audio) (update_self c.engine.packets b _),
      )
