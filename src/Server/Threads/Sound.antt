-- ===== src/Server/Threads/Sound.antt =====
-- What holds in every state that the threads of `_server` reach, however their steps interleave.
use wifi_audio.Common.{
  ℕ, zero, suc, ◌≤◌, ◌<◌, ◌≡◌, ◌≢◌, refl, sym, ap, ◌∙◌, inl, inr, Bool, not, [], Option, none, some,
  some_inj, ret_inj, Bytes, ltb, ◌==◌, if◌then◌else◌, length, get_or, arith, Bool-cases,
  Option-cases, Outcome, ret, fault, Fault, Ensures, Ensures-ret,
}
use mathlib.Core.Path.{subst}
use wifi_audio.Codec.{CodecInfo, AudioCodec}
use wifi_audio.Rtp.Links.{Links}
use wifi_audio.Rtp.Engine.{RtpEngine, SocketSend, create_engine, play, remove, rx_bytes}
use wifi_audio.Rtp.Engine.Blocks.{create_engine-Filled}
use wifi_audio.Utils.{AudioSource, Queue, Copying, copy_block}
use wifi_audio.Utils.Acquire.{acquire-Acquired}
use wifi_audio.Utils.Copy.{IsPool, Kept, copy_block-Kept}
use wifi_audio.Server.Threads.Invariant.{IsSound, Joined, AllUnused-Later, thread-IsSound}
use wifi_audio.Server.Threads.{
  Waiting, ReaderPc, EncoderPc, ServerPc, ServerDesc, Threads, alloc_buffers, start_server, started,
  with_engine, acquired, reader_at, copied, encoder_at, join_encoder, join_reader, server_at, Step,
  of_reader, of_encoder, of_server, of_play, of_remove, Run, here, next, num_buffers, create_reader,
}

module _ {k : Links} where
  pub play-IsPool : (e : RtpEngine k) (c : Option ℕ) → IsPool e → IsPool (play e c)
  unfolding play
  play-IsPool e none p = p
  play-IsPool e (some c) p = record {
    counting = record { seq_word = p.counting.seq_word; time_word = p.counting.time_word };
    once = p.once;
    headers = p.headers;
  }

  pub remove-IsPool : (e : RtpEngine k) (c : Option ℕ) → IsPool e → IsPool (remove e c)
  unfolding remove
  remove-IsPool e none p = p
  remove-IsPool e (some c) p = record {
    counting = record { seq_word = p.counting.seq_word; time_word = p.counting.time_word };
    once = p.once;
    headers = p.headers;
  }

module _ {k : Links} where
  new_engine-IsPool :
      (info : CodecInfo)
      → info.payload_type < 256
      → (rtp rtcp : ℕ) → IsPool (create_engine {k = k} info rtp rtcp num_buffers)
  unfolding create_engine
  new_engine-IsPool info byte rtp rtcp =
      let made = create_engine-Filled {k = k} info byte rtp rtcp num_buffers in
      record {
        counting = record { seq_word = omega arith; time_word = omega arith };
        once = λ a. once a (made.free a);
        headers = λ a h. (made.ready a (below a (made.free a) h)).header;
      }
    where
      once : {n : ℕ} (a : ℕ) → n ≡ (if ltb a num_buffers then 1 else 0) → n ≤ 1
      once a e = ground arith

      below : {n : ℕ} (a : ℕ) → n ≡ (if ltb a num_buffers then 1 else 0) → 0 < n → a < num_buffers
      below a e h = ground arith

module _ {source : AudioSource} {q : Queue} {codec : AudioCodec} {k : Links} where
  reader_at-IsSound :
      (p : ReaderPc) (s t : Threads source q codec k)
      → s.reader_pc ≡ p
      → reader_at p s ≡ some t
      → IsSound s
      → IsSound t
  unfolding reader_at
  reader_at-IsSound ReaderPc.checking s t at e h = subst IsSound (some_inj.0 e) (
      thread-IsSound s _ (record { encoder = λ f. f; reader = λ f. absurd (cc) }) refl refl h.ring
        h.pool h)
  reader_at-IsSound ReaderPc.acquiring s t at e h =
      let a = acquire-Acquired s.copying.reader h.ring in
      let is : acquired s (some (not (a.total == 0), a.after)) ≡ some t =
        ap (acquired s) (sym a.is) ∙ e in
      subst IsSound (some_inj.0 is) (
        thread-IsSound s _ (record { encoder = λ f. f; reader = λ f. absurd (cc) }) refl refl a.ring
          h.pool h)
  reader_at-IsSound ReaderPc.finished s t at e h = absurd (cc)

  copied-IsSound :
      (s t : Threads source q codec k) (m : Outcome (Bool × Copying source q codec k))
      → s.encoder_pc ≡ EncoderPc.reading
      → Ensures (λ e. Unit {0}) (λ x. Kept s.copying.engine x.1) m
      → copied s m ≡ ret t
      → IsSound s
      → IsSound t
  copied-IsSound s t (ret (more, c)) at kept e h =
      let after = Ensures-ret kept in
      subst IsSound (ret_inj e) (
        thread-IsSound s _ (record { encoder = λ f. absurd (cc); reader = λ f. f }) refl refl
          after.0 after.1.pool h)
  copied-IsSound s t (fault f) at kept e h = absurd (cc)

  encoder_at-IsSound :
      (w : Waiting q) (socket_send : SocketSend) (p : EncoderPc) (s t : Threads source q codec k)
      → s.encoder_pc ≡ p
      → encoder_at w socket_send p s ≡ some (ret t)
      → IsSound s
      → IsSound t
  unfolding encoder_at
  encoder_at-IsSound w socket_send EncoderPc.checking s t at e h =
      subst IsSound (ret_inj (some_inj.0 e)) (
        thread-IsSound s _ (record { encoder = λ f. absurd (cc); reader = λ f. f }) refl refl h.ring
          h.pool h)
  encoder_at-IsSound w socket_send EncoderPc.reading s t at e h =
      elim (Bool-cases (ltb 0 (w.pending s.copying.reader.queue))) [
        | inl more ↦
            copied-IsSound s t (copy_block socket_send s.copying) at
              (copy_block-Kept socket_send s.copying h.ring h.pool)
              (some_inj.0 (sym (rw more refl) ∙ e)) h
        | inr waits ↦ absurd (let no : none ≡ some (ret t) = sym (rw waits refl) ∙ e in cc)
      ]
  encoder_at-IsSound w socket_send EncoderPc.finished s t at e h = absurd (cc)

  join_encoder-IsSound :
      (p : EncoderPc) (s t : Threads source q codec k)
      → s.encoder_pc ≡ p
      → join_encoder p s ≡ some t
      → IsSound s
      → IsSound t
  join_encoder-IsSound EncoderPc.finished s t at e h = subst IsSound (some_inj.0 e) (record {
    ring = h.ring;
    pool = h.pool;
    unused =
        (at, AllUnused-Later s.deleted s _ (record { encoder = λ f. f; reader = λ f. f }) h.unused);
    joined = at;
  })
  join_encoder-IsSound EncoderPc.checking s t at e h = absurd (cc)
  join_encoder-IsSound EncoderPc.reading s t at e h = absurd (cc)

  join_reader-IsSound :
      (p : ReaderPc) (s t : Threads source q codec k)
      → s.reader_pc ≡ p
      → s.encoder_pc ≡ EncoderPc.finished
      → join_reader p s ≡ some t
      → IsSound s
      → IsSound t
  join_reader-IsSound ReaderPc.finished s t at done e h =
      let both : (s.encoder_pc ≡ EncoderPc.finished) × (s.reader_pc ≡ ReaderPc.finished) =
        (done, at) in
      subst IsSound (some_inj.0 e) (record {
        ring = h.ring;
        pool = h.pool;
        unused = (
          both,
          (
            both,
            (
              both,
              (
                at,
                AllUnused-Later s.deleted s _ (record { encoder = λ f. f; reader = λ f. f })
                    h.unused,
              ),
            ),
          ),
        );
        joined = both;
      })
  join_reader-IsSound ReaderPc.checking s t at done e h = absurd (cc)
  join_reader-IsSound ReaderPc.acquiring s t at done e h = absurd (cc)

  server_at-IsSound :
      (p : ServerPc) (s t : Threads source q codec k)
      → s.server ≡ p
      → server_at p s ≡ some t
      → IsSound s
      → IsSound t
  unfolding server_at
  server_at-IsSound ServerPc.serving s t at e h = subst IsSound (some_inj.0 e) (record {
    ring = h.ring;
    pool = h.pool;
    unused = AllUnused-Later s.deleted s _ (record { encoder = λ f. f; reader = λ f. f }) h.unused;
    joined = tt;
  })
  server_at-IsSound ServerPc.joining_encoder s t at e h =
      join_encoder-IsSound s.encoder_pc s t refl e h
  server_at-IsSound ServerPc.joining_reader s t at e h =
      join_reader-IsSound s.reader_pc s t refl (subst (λ p. Joined p s) at h.joined) e h
  server_at-IsSound ServerPc.over s t at e h = absurd (cc)

  -- What a connection does to the playing list.
  pub connection-IsSound :
      (s t : Threads source q codec k) (e : RtpEngine k)
      → t ≡ with_engine s e
      → IsPool e
      → IsSound s
      → IsSound t
  connection-IsSound s t e is pool h =
      subst IsSound (sym is)
        (thread-IsSound s _ (record { encoder = λ f. f; reader = λ f. f }) refl refl h.ring pool h)

  pub Step-IsSound :
      (w : Waiting q) (socket_send : SocketSend) {s t : Threads source q codec k}
      → Step w socket_send s t
      → IsSound s
      → IsSound t
  Step-IsSound w socket_send {s} {t} (of_reader e) h = reader_at-IsSound s.reader_pc s t refl e h
  Step-IsSound w socket_send {s} {t} (of_encoder e) h =
      encoder_at-IsSound w socket_send s.encoder_pc s t refl e h
  Step-IsSound w socket_send {s} {t} (of_server e) h = server_at-IsSound s.server s t refl e h
  Step-IsSound w socket_send {s} {t} (of_play c at e) h =
      connection-IsSound s t _ e (play-IsPool s.copying.engine c h.pool) h
  Step-IsSound w socket_send {s} {t} (of_remove c at e) h =
      connection-IsSound s t _ e (remove-IsPool s.copying.engine c h.pool) h

  pub Run-IsSound :
      (w : Waiting q) (socket_send : SocketSend) {s t : Threads source q codec k} {n : ℕ}
      → Run w socket_send s n t
      → IsSound s
      → IsSound t
  Run-IsSound w socket_send here h = h
  Run-IsSound w socket_send (next r st) h =
      Step-IsSound w socket_send st (Run-IsSound w socket_send r h)

alloc-length : (malloc : ℕ → ℕ → Bytes) (n i size : ℕ) → length (alloc_buffers malloc n i size) ≡ n
unfolding alloc_buffers
alloc-length malloc zero i size = refl
alloc-length malloc (suc n) i size = ap suc (alloc-length malloc n (suc i) size)

alloc-full :
    (malloc : ℕ → ℕ → Bytes) (n i size j : ℕ)
    → ((i size : ℕ) → length (malloc i size) ≡ size)
    → j < n
    → length (get_or (alloc_buffers malloc n i size) j []) ≡ size
unfolding alloc_buffers
alloc-full malloc zero i size j full lt = absurd (omega arith)
alloc-full malloc (suc n) i size zero full lt = full i size
alloc-full malloc (suc n) i size (suc j) full lt =
    alloc-full malloc n (suc i) size j full (omega arith)

module _ {source : AudioSource} {q : Queue} {codec : AudioCodec} {k : Links} (w : Waiting q)
    (malloc : ℕ → ℕ → Bytes) (full : (i size : ℕ) → length (malloc i size) ≡ size)
    (byte : codec.info.payload_type < 256) where
  abbrev new_engine : ServerDesc source codec → RtpEngine k
  new_engine info = create_engine codec.info info.rtp_ports.0 info.rtp_ports.1 num_buffers

  fault-ne-ret : {s : Threads source q codec k} → fault Fault.assertion ≢ ret s
  fault-ne-ret e = cc

  pub start_server-IsSound :
      (info : ServerDesc source codec) (s : Threads source q codec k)
      → start_server w malloc info ≡ ret s
      → IsSound s
  unfolding start_server create_reader
  start_server-IsSound info s e = elim (Option-cases info.codec_state) [
    | inl no_codec ↦ absurd (fault-ne-ret (sym (rw (no_codec, start_server) refl) ∙ e))
    | inr (st, c) ↦ elim (Option-cases info.audio_source) [
      | inl no_source ↦ absurd (fault-ne-ret (sym (rw (c, no_source, start_server) refl) ∙ e))
      | inr (src, a) ↦
          let is : ret (started w malloc (new_engine info) st src) ≡ ret s =
            sym (rw (c, a, start_server) refl) ∙ e in
          subst IsSound (ret_inj is) (record {
            ring = record {
              num = alloc-length malloc 2 0 (rx_bytes (new_engine info));
              here = omega arith;
              full = λ i lt. alloc-full malloc 2 0 (rx_bytes (new_engine info)) i full lt;
            };
            pool = new_engine-IsPool codec.info byte info.rtp_ports.0 info.rtp_ports.1;
            unused = tt;
            joined = tt;
          })
    ]
  ]

  -- Every state of a run from the start.
  pub server_threads-IsSound :
      (socket_send : SocketSend) (info : ServerDesc source codec) {s t : Threads source q codec k}
      {n : ℕ}
      → start_server w malloc info ≡ ret s
      → Run w socket_send s n t
      → IsSound t
  server_threads-IsSound socket_send info started r =
      Run-IsSound w socket_send r (start_server-IsSound info _ started)
