-- ===== src/Server/Threads/Shutdown.antt =====
-- What follows when `_server` sets `dead`: how the threads end, and when they do not.
use wifi_audio.Common.{
  ℕ, ◌+◌, ◌≤◌, ◌<◌, ◌≡◌, ◌≢◌, refl, ap, ◌∙◌, ◌⊎◌, inl, inr, Bool, true, false, some, ltb, arith,
  ltb→lt, Bool-cases, Outcome, ret, fault, Fault,
}
use wifi_audio.Codec.{AudioCodec}
use wifi_audio.Rtp.Links.{Links}
use wifi_audio.Rtp.Engine.{SocketSend}
use wifi_audio.Utils.{AudioSource, Queue, Copying, copy_block}
use wifi_audio.Utils.Acquire.{acquire-Acquired}
use wifi_audio.Server.Threads.Invariant.{IsSound}
use wifi_audio.Server.Threads.Effects.{
  rank, IsStopping, pending_of, Effect, reader_ends, reader_puts, encoder_ends, encoder_gets,
  encoder_joined, reader_joined, Step-Does, Effect-lower, Effect-IsStopping,
}
use wifi_audio.Server.Threads.Sound.{Step-IsSound}
use wifi_audio.Server.Threads.{
  Waiting, ReaderPc, EncoderPc, ServerPc, Threads, acquired, reader_at, copied, encoder_at,
  join_encoder, join_reader, server_at, Step, of_reader, of_encoder, of_server, Run, here, next,
}

module _ {source : AudioSource} {q : Queue} {codec : AudioCodec} {k : Links} (w : Waiting q)
    (socket_send : SocketSend) where
  -- The encoder waits for a message that no thread will put.
  pub record Hangs (t : Threads source q codec k) : Type 0 where
    pub waits : t.encoder_pc ≡ EncoderPc.reading
    pub no_message : w.pending t.copying.reader.queue ≡ 0
    pub no_reader : t.reader_pc ≢ ReaderPc.acquiring

  -- The encoder does not wait, or there is or will be a message for it.
  pub data Ready (t : Threads source q codec k) : Type 0 where
    awake : t.encoder_pc ≢ EncoderPc.reading → Ready t
    has_message : 0 < w.pending t.copying.reader.queue → Ready t
    will_put : t.reader_pc ≡ ReaderPc.acquiring → Ready t

  -- The server has returned, a thread can make a step, or the next round of the encoder faults.
  pub data GoesOn (t : Threads source q codec k) : Type 0 where
    returned : t.server ≡ ServerPc.over → GoesOn t
    steps : {u : Threads source q codec k} → Step w socket_send t u → GoesOn t
    faults :
        {f : Fault}
        → t.encoder_pc ≡ EncoderPc.reading
        → copy_block socket_send t.copying ≡ fault f
        → GoesOn t

  Ready-or-Hangs : (t : Threads source q codec k) → Ready t ⊎ Hangs t
  Ready-or-Hangs t = of_encoder_pc t.encoder_pc refl
    where
      no_message : ltb 0 (pending_of w socket_send t) ≡ false → pending_of w socket_send t ≡ 0
      no_message h = ground (arith, h)

      of_pending :
          t.encoder_pc ≡ EncoderPc.reading → t.reader_pc ≢ ReaderPc.acquiring → Ready t ⊎ Hangs t
      of_pending at ne = elim (Bool-cases (ltb 0 (pending_of w socket_send t))) [
        | inl more ↦ inl (has_message (ltb→lt _ _ more))
        | inr nothing ↦ inr (record { waits = at; no_message = no_message nothing; no_reader = ne })
      ]

      of_reader_pc :
          (p : ReaderPc) → t.reader_pc ≡ p → t.encoder_pc ≡ EncoderPc.reading → Ready t ⊎ Hangs t
      of_reader_pc ReaderPc.acquiring at waits = inl (will_put at)
      of_reader_pc ReaderPc.checking at waits = of_pending waits (λ e. cc)
      of_reader_pc ReaderPc.finished at waits = of_pending waits (λ e. cc)

      of_encoder_pc : (p : EncoderPc) → t.encoder_pc ≡ p → Ready t ⊎ Hangs t
      of_encoder_pc EncoderPc.checking at = inl (awake (λ e. cc))
      of_encoder_pc EncoderPc.finished at = inl (awake (λ e. cc))
      of_encoder_pc EncoderPc.reading at = of_reader_pc t.reader_pc refl at

  Effect-Ready : {s t : Threads source q codec k} → Effect w socket_send s t → Ready s → Ready t
  Effect-Ready (reader_ends a b c d e) (awake n) = awake (λ h. n (cc))
  Effect-Ready (reader_ends a b c d e) (has_message m) = has_message (omega (arith, e, m))
  Effect-Ready (reader_ends a b c d e) (will_put p) = absurd (cc)
  Effect-Ready (reader_puts a b c d e) r = has_message e
  Effect-Ready (encoder_ends a b c d) r = awake (λ h. cc)
  Effect-Ready (encoder_gets a b c d e) r = awake (λ h. ground arith)
  Effect-Ready (encoder_joined a b c d e) r = awake (λ h. cc)
  Effect-Ready (reader_joined a b c d e) (awake n) = awake (λ h. n (cc))
  Effect-Ready (reader_joined a b c d e) (has_message m) = has_message (omega (arith, e, m))
  Effect-Ready (reader_joined a b c d e) (will_put p) = will_put (cc)

  -- The encoder is not joined.
  abbrev Stays : Threads source q codec k → Type 0
  Stays t = Hangs t × (t.server ≡ ServerPc.joining_encoder)

  Effect-Hangs : {s t : Threads source q codec k} → Effect w socket_send s t → Stays s → Stays t
  Effect-Hangs (reader_ends a b c d e) (h, at) =
      (record { waits = c ∙ h.waits; no_message = e ∙ h.no_message; no_reader = λ p. cc }, d ∙ at)
  Effect-Hangs (reader_puts a b c d e) (h, at) = absurd (h.no_reader a)
  Effect-Hangs (encoder_ends a b c d) (h, at) = absurd (let e = h.waits in cc)
  Effect-Hangs (encoder_gets a b c d e) (h, at) = absurd (omega (arith, h.no_message, b))
  Effect-Hangs (encoder_joined a b c d e) (h, at) = absurd (let e = h.waits in cc)
  Effect-Hangs (reader_joined a b c d e) (h, at) = absurd (cc)

  stopping-GoesOn :
      (t : Threads source q codec k) → IsSound t → IsStopping w socket_send t → Ready t → GoesOn t
  unfolding reader_at encoder_at server_at
  stopping-GoesOn t h st r = of_reader_pc t.reader_pc refl
    where
      of_server_pc :
          (p : ServerPc)
          → t.server ≡ p
          → t.reader_pc ≡ ReaderPc.finished
          → t.encoder_pc ≡ EncoderPc.finished
          → GoesOn t
      of_server_pc ServerPc.serving at done ended = absurd (st.stopped at)
      of_server_pc ServerPc.joining_encoder at done ended =
          steps (of_server (ap (λ p. server_at p t) at ∙ ap (λ p. join_encoder p t) ended))
      of_server_pc ServerPc.joining_reader at done ended =
          steps (of_server (ap (λ p. server_at p t) at ∙ ap (λ p. join_reader p t) done))
      of_server_pc ServerPc.over at done ended = returned at

      gets :
          ltb 0 (pending_of w socket_send t) ≡ true
          → encoder_at w socket_send EncoderPc.reading t
            ≡ some (copied t (copy_block socket_send t.copying))
      gets has = rw (has, encoder_at) refl

      of_message :
          (m : Outcome (Bool × Copying source q codec k))
          → copy_block socket_send t.copying ≡ m
          → t.encoder_pc ≡ EncoderPc.reading
          → ltb 0 (pending_of w socket_send t) ≡ true
          → GoesOn t
      of_message (ret (more, c)) is at has = steps (
          of_encoder
            (ap (λ p. encoder_at w socket_send p t) at ∙ gets has ∙ ap (λ m. some (copied t m)) is))
      of_message (fault f) is at has = faults at is

      message :
          Ready t
          → t.encoder_pc ≡ EncoderPc.reading
          → t.reader_pc ≡ ReaderPc.finished
          → ltb 0 (pending_of w socket_send t) ≡ true
      message (awake n) at done = absurd (n at)
      message (has_message m) at done = ground arith
      message (will_put p) at done = absurd (cc)

      of_encoder_pc :
          (p : EncoderPc) → t.encoder_pc ≡ p → t.reader_pc ≡ ReaderPc.finished → GoesOn t
      of_encoder_pc EncoderPc.checking at done =
          steps (of_encoder (ap (λ p. encoder_at w socket_send p t) at))
      of_encoder_pc EncoderPc.reading at done = of_message _ refl at (message r at done)
      of_encoder_pc EncoderPc.finished at done = of_server_pc t.server refl done at

      of_reader_pc : (p : ReaderPc) → t.reader_pc ≡ p → GoesOn t
      of_reader_pc ReaderPc.checking at = steps (of_reader (ap (λ p. reader_at p t) at))
      of_reader_pc ReaderPc.acquiring at =
          let a = acquire-Acquired t.copying.reader h.ring in
          steps (of_reader (ap (λ p. reader_at p t) at ∙ ap (acquired t) a.is))
      of_reader_pc ReaderPc.finished at = of_encoder_pc t.encoder_pc refl at

  -- A run from a state where `dead` is set.
  record Stopped (s t : Threads source q codec k) (n : ℕ) : Type 0 where
    sound : IsSound t
    stopping : IsStopping w socket_send t
    bound : n + rank w socket_send t ≤ rank w socket_send s
    ready : Ready s → Ready t
    hangs : Stays s → Stays t

  run_lem :
      {s t : Threads source q codec k} {n : ℕ}
      → Run w socket_send s n t
      → IsSound s
      → IsStopping w socket_send s
      → Stopped s t n
  run_lem here h st = record {
    sound = h;
    stopping = st;
    bound = omega arith;
    ready = λ r. r;
    hangs = λ r. r;
  }
  run_lem (next r step) h st =
      let before = run_lem r h st in
      let (dead, effect) = Step-Does w socket_send step before.sound before.stopping in
      record {
        sound = Step-IsSound w socket_send step before.sound;
        stopping = Effect-IsStopping w socket_send effect dead before.stopping;
        bound = omega (arith, before.bound, Effect-lower w socket_send effect);
        ready = λ r. Effect-Ready effect (before.ready r);
        hangs = λ r. Effect-Hangs effect (before.hangs r);
      }

  rank-joining :
      (s : Threads source q codec k)
      → s.server ≡ ServerPc.joining_encoder
      → rank w socket_send s ≤ 6
  rank-joining s at = ground arith

  -- From any sound state in which the server has set `dead` and joins the encoder, however the threads
  -- go on: they make six steps at most. If the encoder did not wait for the queue, or a block was
  -- there for it or the reader was inside `acquire`, then at any time the server has returned, or a
  -- thread can make a step, or the encoder's next round faults. If not, the server never gets past
  -- that join.
  pub shutdown_lem :
      {s t : Threads source q codec k} {n : ℕ}
      → IsSound s
      → s.server ≡ ServerPc.joining_encoder
      → s.dead ≡ true
      → Run w socket_send s n t
      → (n ≤ 6) × ((Ready s × GoesOn t) ⊎ (Hangs s × (t.server ≡ ServerPc.joining_encoder)))
  shutdown_lem {s} {t} {n} h at dead r = (
    omega (arith, run.bound, rank-joining s at),
    elim (Ready-or-Hangs s) [
      | inl ready ↦ inl (ready, stopping-GoesOn t run.sound run.stopping (run.ready ready))
      | inr stuck ↦ inr (stuck, (run.hangs (stuck, at)).1)
    ],
  )
    where
      run : Stopped s t n
      run = run_lem r h (record { dead_set = dead; stopped = λ e. cc })
