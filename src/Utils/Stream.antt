-- ===== src/Utils/Stream.antt =====
-- The packets that leave an engine, one after the other, as the loop of `audio_copy` sends them.
use native.Mathlib.Numerals.{unary_clauses}
use mathlib.Core.Path.{subst}
use wifi_audio.Common.{
  ℕ, suc, ◌+◌, ◌*◌, ◌%◌, ◌^◌, ◌≡◌, refl, sym, ap, ◌∙◌, inl, inr, List, [], ◌∷◌, Option, none, some,
  Bytes, arith, length, count, ret, Ensures, returns, stops, Ensures-eq,
}
use wifi_audio.Rtp.Engine.Blocks.{put_free-get_free}
use wifi_audio.Rtp.Engine.Send.{Delivered, send_lem, filled, filled-IsHeader}
use wifi_audio.Rtp.Engine.Updates.{update_ne}
use wifi_audio.Rtp.Engine.{RtpEngine, SocketSend, get_free, put_free, send}
use wifi_audio.Rtp.Header.Decode.{Fields, fields, IsHeader}
use wifi_audio.Rtp.Links.{Links}
use wifi_audio.Utils.Copy.{IsPool, sent-SamePool}

-- From engine `e` on: a block is taken, filled with audio, and sent, again and again; with the fields of the
-- packets as they left, the latest first.
pub data Stream {k : Links} (socket_send : SocketSend) (samples : ℕ) (e : RtpEngine k)
    : List Fields → RtpEngine k → Type 0 where
  nothing : Stream socket_send samples e [] e
  more :
      {ps : List Fields} {f g h : RtpEngine k} {b : ℕ} (bytes : ℕ) (audio : Bytes)
      → Stream socket_send samples e ps f
      → get_free f ≡ (some b, g)
      → send socket_send (filled g b audio) b bytes samples ≡ ret h
      → Stream socket_send samples e (fields (h.packets b) ∷ ps) h

module _ {k : Links} where
  -- Each packet has the number and the time that follow on those of the packet before it.
  abbrev pub InOrder : ℕ → RtpEngine k → List Fields → Type 0
  InOrder samples e [] = Unit {0}
  InOrder samples e (p ∷ ps) =
      (p.seq ≡ (e.packet_seq + length ps) % 2 ^ 16)
      × (p.timestamp ≡ (e.timestamp + samples * length ps) % 2 ^ 32)
      × InOrder samples e ps

  -- What is known of a block that was taken from the pool of `f`.
  record TakenFrom (f : RtpEngine k) (b : ℕ) (g : RtpEngine k) : Type 0 where
    pub packets : g.packets ≡ f.packets
    pub playing : g.playing ≡ f.playing
    pub seq : g.packet_seq ≡ f.packet_seq
    pub time : g.timestamp ≡ f.timestamp
    pub was_free : count b (k.items f.blocks) ≡ 1
    pub absent : count b (k.items g.blocks) ≡ 0
    pub counts : (a : ℕ) → count a (b ∷ k.items g.blocks) ≡ count a (k.items f.blocks)

  abbrev Taken : RtpEngine k → Option ℕ × RtpEngine k → Type 0
  Taken f (none, g) = Unit {0}
  Taken f (some b, g) = TakenFrom f b g

  get_free-Taken : (f : RtpEngine k) → IsPool f → Taken f (get_free f)
  unfolding get_free put_free
  get_free-Taken f pool = elim (put_free-get_free f pool.once) [
    | inl (eq, empty) ↦ subst (Taken f) (sym eq) tt
    | inr (b, rest, eq, one, absent, back) ↦ subst (Taken f) (sym eq) (record {
      packets = sym (ap (λ x. x.1.packets) eq);
      playing = sym (ap (λ x. x.1.playing) eq);
      seq = sym (ap (λ x. x.1.packet_seq) eq);
      time = sym (ap (λ x. x.1.timestamp) eq);
      was_free = one;
      absent = absent;
      counts = λ a. sym (k.count-push a b rest.blocks absent) ∙ back a;
    })
  ]

  -- What a stream leaves.
  record Streamed (samples : ℕ) (e : RtpEngine k) (ps : List Fields) (f : RtpEngine k)
      : Type 0 where
    pub pool : IsPool f
    pub playing : f.playing ≡ e.playing
    pub seq : f.packet_seq ≡ (e.packet_seq + length ps) % 2 ^ 16
    pub time : f.timestamp ≡ (e.timestamp + samples * length ps) % 2 ^ 32
    pub order : InOrder samples e ps

module _ {k : Links} (socket_send : SocketSend) (samples : ℕ) (e : RtpEngine k) where
  sent-Delivered :
      (f g h : RtpEngine k) (b bytes : ℕ) (audio : Bytes)
      → TakenFrom f b g
      → IsPool f
      → send socket_send (filled g b audio) b bytes samples ≡ ret h
      → Delivered (filled g b audio) h b bytes samples
  sent-Delivered f g h b bytes audio t pool is =
      let word = t.seq in
      let time = t.time in
      Ensures-eq
        (elim (send_lem socket_send (filled g b audio) b bytes samples
          (record {
            seq_word = omega (arith, word, pool.counting.seq_word);
            time_word = omega (arith, time, pool.counting.time_word);
          })
          (filled-IsHeader g b audio (
            subst (λ ps. IsHeader (ps b)) (sym t.packets)
              (pool.headers b (omega (arith, t.was_free)))))
          t.absent) [
            | inl (fits, (x, eq, d)) ↦
                subst
                  (Ensures (λ e. Unit {0}) (λ x. Delivered (filled g b audio) x b bytes samples))
                  (sym eq) (returns d)
            | inr (over, eq) ↦
                subst
                  (Ensures (λ e. Unit {0}) (λ x. Delivered (filled g b audio) x b bytes samples))
                  (sym eq) (stops tt)
          ])
        is

  one_more :
      (ps : List Fields) (f g h : RtpEngine k) (b bytes : ℕ) (audio : Bytes)
      → TakenFrom f b g
      → Streamed samples e ps f
      → send socket_send (filled g b audio) b bytes samples ≡ ret h
      → Streamed samples e (fields (h.packets b) ∷ ps) h
  one_more ps f g h b bytes audio t s is =
      let d = sent-Delivered f g h b bytes audio t s.pool is in
      let same =
        sent-SamePool f (filled g b audio) h b bytes samples s.pool t.playing t.counts
          (λ a ne. update_ne g.packets b a _ ne ∙ ap (λ x. x a) t.packets) d in
      let n = length ps in
      let times : samples * suc n ≡ samples * n + samples = simp unary_clauses (omega arith) in
      record {
        pool = same.pool;
        playing = same.playing ∙ s.playing;
        seq = omega (arith, d.next_seq, t.seq, s.seq);
        time = omega (arith, d.next_time, t.time, s.time, times);
        order = (
          ap (λ (x : Fields). x.seq) d.packet ∙ t.seq ∙ s.seq,
          ap (λ (x : Fields). x.timestamp) d.packet ∙ t.time ∙ s.time,
          s.order,
        );
      }

  on_stream-Streamed :
      (ps : List Fields) (f : RtpEngine k)
      → IsPool e
      → Stream socket_send samples e ps f
      → Streamed samples e ps f
  on_stream-Streamed [] f p Stream.nothing = record {
    pool = p;
    playing = refl;
    seq = omega (arith, p.counting.seq_word);
    time = let z : samples * 0 ≡ 0 = simp unary_clauses in omega (arith, p.counting.time_word, z);
    order = tt;
  }
  on_stream-Streamed _ h p (Stream.more {ps} {f} {g} {b = b} bytes audio s taken is) =
      one_more ps f g h b bytes audio
        (subst (Taken f) taken (get_free-Taken f (on_stream-Streamed ps f p s).pool))
        (on_stream-Streamed ps f p s) is

  -- From an engine whose pool is sound (counters in range, no block free twice, headers on the free
  -- packets), however many packets are sent, each in a block taken from the pool: their sequence
  -- numbers follow on one another modulo 2^16 and their time stamps by the samples of a packet modulo
  -- 2^32, from the engine's own on; the pool is sound again, and the same clients play.
  pub Stream-InOrder :
      (ps : List Fields) (f : RtpEngine k)
      → IsPool e
      → Stream socket_send samples e ps f
      → InOrder samples e ps × IsPool f × (f.playing ≡ e.playing)
  Stream-InOrder ps f p s = let r = on_stream-Streamed ps f p s in (r.order, r.pool, r.playing)
