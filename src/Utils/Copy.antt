-- ===== src/Utils/Copy.antt =====
-- The loop of `audio_copy` and the engine's pool of blocks.
use wifi_audio.Common.{
  any_outcome, overwrite, ℕ, ◌≤◌, ◌<◌, ◌≡◌, ◌≢◌, refl, sym, ap, ◌∙◌, inl, inr, Bool, true, false,
  not, [], ◌∷◌, some, Bytes, ltb, ◌==◌, if◌then◌else◌, length, count, get_or, arith, Bool-cases,
  Option-cases, Outcome, ret, Fault, Ensures, returns, stops, Ensures-bind, Ensures-if, ◌>>=◌,
}
use mathlib.Core.Path.{subst}
use wifi_audio.Codec.{AudioCodec}
use wifi_audio.Rtp.Header.Decode.{IsHeader}
use wifi_audio.Rtp.Links.{Links}
use wifi_audio.Rtp.Engine.{
  RtpEngine, SocketSend, update, has_clients, get_free, put_free, send, rx_bytes,
}
use wifi_audio.Rtp.Engine.Blocks.{put_free-get_free}
use wifi_audio.Rtp.Engine.Send.{IsCounting, Delivered, send_lem}
use wifi_audio.Rtp.Engine.Updates.{update_self, update_ne}
use wifi_audio.Utils.Acquire.{IsRing, acquire-Acquired}
use wifi_audio.Utils.{
  AudioSource, Queue, Reader, copy_round, Copying, encode_packet, send_encoded, send_block,
  into_block, copy_block,
}

module _ {k : Links} where
  -- The counters are in range, no block is free twice, and free packets have their headers.
  pub record IsPool (e : RtpEngine k) : Type 0 where
    pub counting : IsCounting e
    pub once : (a : ℕ) → count a (k.items e.blocks) ≤ 1
    pub headers : (a : ℕ) → 0 < count a (k.items e.blocks) → IsHeader (e.packets a)

  -- The engine afterwards has the same free blocks and playing clients, and is still such a pool.
  pub record SamePool (e f : RtpEngine k) : Type 0 where
    pub pool : IsPool f
    pub free : (a : ℕ) → count a (k.items f.blocks) ≡ count a (k.items e.blocks)
    pub playing : f.playing ≡ e.playing

  same_pool : (e : RtpEngine k) → IsPool e → SamePool e e
  same_pool e p = record { pool = p; free = λ a. refl; playing = refl }

  -- After `send` of a block that was taken from the pool of `e`.
  pub sent-SamePool :
      (e d f : RtpEngine k) (b bytes samples : ℕ)
      → IsPool e
      → (d.playing ≡ e.playing)
      → ((a : ℕ) → count a (b ∷ k.items d.blocks) ≡ count a (k.items e.blocks))
      → ((a : ℕ) → a ≢ b → d.packets a ≡ e.packets a)
      → Delivered d f b bytes samples
      → SamePool e f
  sent-SamePool e d f b bytes samples p same counts others h = record {
    pool = record {
      counting = h.counting;
      once = λ a. omega (arith, free a, p.once a);
      headers = header;
    };
    free = free;
    playing = h.playing ∙ same;
  }
    where
      free : (a : ℕ) → count a (k.items f.blocks) ≡ count a (k.items e.blocks)
      free a = h.recycled a ∙ counts a

      header : (a : ℕ) → 0 < count a (k.items f.blocks) → IsHeader (f.packets a)
      header a lt = elim (Bool-cases (a == b)) [
        | inl here ↦
            subst (λ i. IsHeader (f.packets i)) (let same : b ≡ a = ground (arith, here) in same)
              h.header
        | inr away ↦
            let ne : a ≢ b = ground (arith, away) in
            let lt' : 0 < count a (k.items e.blocks) = omega (arith, free a, lt) in
            subst IsHeader (sym (h.other_packets a ne ∙ others a ne)) (p.headers a lt')
      ]

module _ {source : AudioSource} {q : Queue} {codec : AudioCodec} {k : Links} where
  -- What a round of the loop keeps.
  abbrev pub Kept : RtpEngine k → Copying source q codec k → Type 0
  Kept e c = IsRing c.reader × SamePool e c.engine

module _ {source : AudioSource} {q : Queue} {codec : AudioCodec} {k : Links}
    (socket_send : SocketSend) where
  encode_packet-Kept :
      (b : ℕ) (audio : Bytes) (e : RtpEngine k) (c : Copying source q codec k)
      → IsPool e
      → IsRing c.reader
      → IsCounting c.engine
      → c.engine.playing ≡ e.playing
      → IsHeader (c.engine.packets b)
      → count b (k.items c.engine.blocks) ≡ 0
      → ((a : ℕ) → count a (b ∷ k.items c.engine.blocks) ≡ count a (k.items e.blocks))
      → ((a : ℕ) → a ≢ b → c.engine.packets a ≡ e.packets a)
      → Ensures (λ e. Unit {0}) (λ r. Kept e r.1) (encode_packet socket_send b audio c)
  unfolding encode_packet send_encoded
  encode_packet-Kept b audio e c p ring counting same header absent counts others =
      Ensures-bind (send_encoded socket_send b c)
        (any_outcome
          (codec.encode c.codec_state audio c.engine.codec.samples_per_packet (rx_bytes c.engine)))
        (λ r u.
          Ensures-if (ltb (c.engine.max_payload b) (length r.0))
            (stops {e = Fault.out_of_bounds} tt) (after_send r))
    where
      d : Bytes → RtpEngine k
      d out = record c.engine {
        packets =
            update c.engine.packets b
              (record (c.engine.packets b) { audio = overwrite (c.engine.packets b).audio 0 out });
      }

      d-IsHeader : (out : Bytes) → IsHeader ((d out).packets b)
      d-IsHeader out =
          rw
            (update_self c.engine.packets b
              (record (c.engine.packets b) { audio = overwrite (c.engine.packets b).audio 0 out }))
            (record { size = header.size; first = header.first; second = header.second })

      after_send :
          (r : Bytes × codec.State)
          → Ensures
              (λ e. Unit {0})
              (λ (x : Bool × Copying source q codec k). Kept e x.1)
              (send socket_send (d r.0) b (length r.0) c.engine.codec.samples_per_packet >>= λ f.
                ret (true, record c { engine = f; codec_state = r.1 }))
      after_send (out, st) =
          elim (send_lem socket_send (d out) b (length out) c.engine.codec.samples_per_packet
            (record { seq_word = counting.seq_word; time_word = counting.time_word })
            (d-IsHeader out) absent) [
              | inl (fits, (f, eq, h)) ↦ rw eq (
                  returns (
                    ring,
                    sent-SamePool e (d out) f b (length out) c.engine.codec.samples_per_packet p
                        same counts (λ a ne. update_ne c.engine.packets b a _ ne ∙ others a ne) h,
                  ))
              | inr (over, eq) ↦ rw eq (stops tt)
            ]

  -- A block that was taken from the pool of `e`.
  taken-Kept :
      (e rest : RtpEngine k) (b : ℕ) (audio : Bytes) (r : Reader source q) (st : codec.State)
      → IsPool e
      → IsRing r
      → get_free e ≡ (some b, rest)
      → count b (k.items e.blocks) ≡ 1
      → count b (k.items rest.blocks) ≡ 0
      → ((a : ℕ) → count a (k.items (put_free rest b).blocks) ≡ count a (k.items e.blocks))
      → Ensures
          (λ e. Unit {0})
          (λ x. Kept e x.1)
          (encode_packet {codec = codec} socket_send b audio
            (record { reader = r; engine = rest; codec_state = st }))
  unfolding get_free put_free
  taken-Kept e rest b audio r st p ring eq one absent back =
      let packets : rest.packets ≡ e.packets = sym (ap (λ x. x.1.packets) eq) in
      let playing : rest.playing ≡ e.playing = sym (ap (λ x. x.1.playing) eq) in
      let seq : rest.packet_seq ≡ e.packet_seq = sym (ap (λ x. x.1.packet_seq) eq) in
      let time : rest.timestamp ≡ e.timestamp = sym (ap (λ x. x.1.timestamp) eq) in
      encode_packet-Kept b audio e (record { reader = r; engine = rest; codec_state = st }) p ring
        (record {
          seq_word = omega (arith, seq, p.counting.seq_word);
          time_word = omega (arith, time, p.counting.time_word);
        })
        playing (subst (λ f. IsHeader (f b)) (sym packets) (p.headers b (omega (arith, one))))
        absent (λ a. sym (k.count-push a b rest.blocks absent) ∙ back a)
        (λ a ne. ap (λ f. f a) packets)

  send_block-Kept :
      (audio : Bytes) (c : Copying source q codec k)
      → IsRing c.reader
      → IsPool c.engine
      → Ensures (λ e. Unit {0}) (λ x. Kept c.engine x.1) (send_block socket_send audio c)
  unfolding send_block
  send_block-Kept audio c ring p = elim (put_free-get_free c.engine p.once) [
    | inl (eq, empty) ↦
        subst
          (λ x. Ensures (λ e. Unit {0}) (λ y. Kept c.engine y.1) (into_block socket_send audio c x))
          (sym eq) (returns {a = (true, c)} (ring, same_pool c.engine p))
    | inr (b, rest, eq, one, absent, back) ↦
        subst
          (λ x. Ensures (λ e. Unit {0}) (λ y. Kept c.engine y.1) (into_block socket_send audio c x))
          (sym eq)
          (taken-Kept c.engine rest b audio c.reader c.codec_state p ring eq one absent back)
  ]

  pub copy_block-Kept :
      (c : Copying source q codec k)
      → IsRing c.reader
      → IsPool c.engine
      → Ensures (λ e. Unit {0}) (λ x. Kept c.engine x.1) (copy_block socket_send c)
  unfolding copy_block
  copy_block-Kept c ring p = elim (Option-cases (q.get c.reader.queue).0) [
    | inl e ↦ rw (e, copy_block) (returns (ring1, same_pool c.engine p))
    | inr (block, e) ↦
        rw (e, copy_block)
          (Ensures-if (not (has_clients c.engine)) (returns (ring1, same_pool c.engine p)) (
            send_block-Kept (get_or c.reader.buffers block.buffer [])
              (record c { reader = record c.reader { queue = (q.get c.reader.queue).1 } }) ring1 p))
  ]
    where
      ring1 : IsRing (record c.reader { queue = (q.get c.reader.queue).1 })
      ring1 = record { num = ring.num; here = ring.here; full = ring.full }

  -- A round of the loop, polled or not, from a reader whose buffers make a ring and an engine whose
  -- pool is sound (counters in range, no block free twice, headers on the free packets): the round
  -- ends, and unless it faults the ring and the pool are sound again, the same blocks are free as
  -- before, and the same clients play.
  pub copy_round-Kept :
      (poll_reader : Bool) (c : Copying source q codec k)
      → IsRing c.reader
      → IsPool c.engine
      → (out : Outcome (Bool × Copying source q codec k)) × (copy_round socket_send poll_reader c
          ≡ some out)
        × Ensures (λ e. Unit {0}) (λ x. Kept c.engine x.1) out
  unfolding copy_round
  copy_round-Kept false c ring p = (copy_block socket_send c, refl, copy_block-Kept c ring p)
  copy_round-Kept true c ring p =
      let a = acquire-Acquired c.reader ring in
      let c1 = record c { reader = a.after } in
      (
        if not (a.total == 0) then copy_block socket_send c1 else ret (false, c1),
        rw (a.is, copy_round) refl,
        Ensures-if (not (a.total == 0)) (copy_block-Kept c1 a.ring p)
            (returns (a.ring, same_pool c.engine p)),
      )
