-- ===== src/Server/Threads/Deleted.antt =====
-- What `_server` deletes and when, with connections that may go on until it does.
use wifi_audio.Common.{
  ℕ, ◌≡◌, ◌≢◌, ◌<◌, refl, sym, ap, ◌∙◌, Bool, true, false, List, [], ◌∷◌, Option, none, some,
  some_inj, ret_inj, if◌then◌else◌, ltb, Bytes, length, Outcome, ret, fault, Fault,
}
use mathlib.Core.Path.{subst}
use wifi_audio.Codec.{AudioCodec}
use wifi_audio.Rtp.Links.{Links}
use wifi_audio.Rtp.Engine.{SocketSend, create_engine, play, remove}
use wifi_audio.Utils.{AudioSource, Queue, Reader, Copying, acquire, copy_block}
use wifi_audio.Server.Threads.{
  ReaderPc, EncoderPc, ServerPc, Object, ServerDesc, Threads, Waiting, Step, of_reader, of_encoder,
  of_server, of_play, of_remove, acquired, copied, reader_at, encoder_at, server_at, join_encoder,
  join_reader, with_engine, start_server, started, num_buffers,
}
use wifi_audio.Server.Threads.Invariant.{IsSound}
use wifi_audio.Server.Threads.Sound.{
  play-IsPool, remove-IsPool, Step-IsSound, connection-IsSound, start_server-IsSound,
}

-- What is deleted where the server stands, the latest first.
abbrev pub deleted_at : ServerPc → List Object
deleted_at ServerPc.serving = []
deleted_at ServerPc.joining_encoder = []
deleted_at ServerPc.joining_reader = Object.encoder_thread ∷ []
deleted_at ServerPc.over =
    Object.codec ∷ Object.engine ∷ Object.reader ∷ Object.i2s_reader ∷ Object.encoder_thread ∷ []

module _ {source : AudioSource} {q : Queue} {codec : AudioCodec} {k : Links} where
  -- A step of the threads, or of a connection, as long as the server has not returned.
  pub data AnyStep (w : Waiting q) (socket_send : SocketSend) (s t : Threads source q codec k)
      : Type 0 where
    of_thread : Step w socket_send s t → AnyStep w socket_send s t
    plays :
        (client : Option ℕ)
        → s.server ≢ ServerPc.over
        → t ≡ with_engine s (play s.copying.engine client)
        → AnyStep w socket_send s t
    removes :
        (client : Option ℕ)
        → s.server ≢ ServerPc.over
        → t ≡ with_engine s (remove s.copying.engine client)
        → AnyStep w socket_send s t

  pub data AnyRun (w : Waiting q) (socket_send : SocketSend) (s : Threads source q codec k)
      : Threads source q codec k → Type 0 where
    here : AnyRun w socket_send s s
    next :
        {t u : Threads source q codec k}
        → AnyRun w socket_send s t
        → AnyStep w socket_send t u
        → AnyRun w socket_send s u

  abbrev IsOnTime : Threads source q codec k → Type 0
  IsOnTime t = t.deleted ≡ deleted_at t.server

  by_reader :
      (p : ReaderPc) (s t : Threads source q codec k)
      → reader_at p s ≡ some t
      → IsOnTime s
      → IsOnTime t
  unfolding reader_at
  by_reader ReaderPc.checking s t e h = subst IsOnTime (some_inj.0 e) h
  by_reader ReaderPc.acquiring s t e h = after (acquire s.copying.reader) e
    where
      after : (o : Option (Bool × Reader source q)) → acquired s o ≡ some t → IsOnTime t
      after none e = absurd (cc)
      after (some (more, r)) e = subst IsOnTime (some_inj.0 e) h
  by_reader ReaderPc.finished s t e h = absurd (cc)

  by_encoder :
      (w : Waiting q) (socket_send : SocketSend) (p : EncoderPc) (s t : Threads source q codec k)
      → encoder_at w socket_send p s ≡ some (ret t)
      → IsOnTime s
      → IsOnTime t
  unfolding encoder_at
  by_encoder w socket_send EncoderPc.checking s t e h = subst IsOnTime (ret_inj (some_inj.0 e)) h
  by_encoder w socket_send EncoderPc.reading s t e h =
      after (ltb 0 (w.pending s.copying.reader.queue)) (copy_block socket_send s.copying) e
    where
      after :
          (b : Bool) (o : Outcome (Bool × Copying source q codec k))
          → (if b then some (copied s o) else none) ≡ some (ret t)
          → IsOnTime t
      after false o e = absurd (cc)
      after true (fault f) e = absurd (cc)
      after true (ret (more, c)) e = subst IsOnTime (ret_inj (some_inj.0 e)) h
  by_encoder w socket_send EncoderPc.finished s t e h = absurd (cc)

  by_server :
      (p : ServerPc) (s t : Threads source q codec k)
      → s.server ≡ p
      → server_at p s ≡ some t
      → IsOnTime s
      → IsOnTime t
  unfolding server_at
  by_server ServerPc.serving s t at e h = subst IsOnTime (some_inj.0 e) (h ∙ ap deleted_at at)
  by_server ServerPc.joining_encoder s t at e h = joined s.encoder_pc e
    where
      joined : (p : EncoderPc) → join_encoder p s ≡ some t → IsOnTime t
      joined EncoderPc.finished e =
          subst IsOnTime (some_inj.0 e)
            (ap (λ os. Object.encoder_thread ∷ os) (h ∙ ap deleted_at at))
      joined EncoderPc.checking e = absurd (cc)
      joined EncoderPc.reading e = absurd (cc)
  by_server ServerPc.joining_reader s t at e h = joined s.reader_pc e
    where
      joined : (p : ReaderPc) → join_reader p s ≡ some t → IsOnTime t
      joined ReaderPc.finished e = subst IsOnTime (some_inj.0 e) (
          ap (λ os. Object.codec ∷ Object.engine ∷ Object.reader ∷ Object.i2s_reader ∷ os)
            (h ∙ ap deleted_at at))
      joined ReaderPc.checking e = absurd (cc)
      joined ReaderPc.acquiring e = absurd (cc)
  by_server ServerPc.over s t at e h = absurd (cc)

  Step-IsOnTime :
      (w : Waiting q) (socket_send : SocketSend) {s t : Threads source q codec k}
      → Step w socket_send s t
      → IsOnTime s
      → IsOnTime t
  Step-IsOnTime w socket_send {s} {t} (of_reader e) h = by_reader s.reader_pc s t e h
  Step-IsOnTime w socket_send {s} {t} (of_encoder e) h =
      by_encoder w socket_send s.encoder_pc s t e h
  Step-IsOnTime w socket_send {s} {t} (of_server e) h = by_server s.server s t refl e h
  Step-IsOnTime w socket_send {s} {t} (of_play c at e) h = subst IsOnTime (sym e) h
  Step-IsOnTime w socket_send {s} {t} (of_remove c at e) h = subst IsOnTime (sym e) h

  AnyRun-kept :
      (w : Waiting q) (socket_send : SocketSend) {s t : Threads source q codec k}
      → AnyRun w socket_send s t
      → IsSound s × IsOnTime s
      → IsSound t × IsOnTime t
  AnyRun-kept w socket_send here h = h
  AnyRun-kept w socket_send (next r (of_thread st)) h =
      let (sound, time) = AnyRun-kept w socket_send r h in
      (Step-IsSound w socket_send st sound, Step-IsOnTime w socket_send st time)
  AnyRun-kept w socket_send (next {t = s} {u = t} r (plays c at e)) h =
      let (sound, time) = AnyRun-kept w socket_send r h in
      (
        connection-IsSound s t _ e (play-IsPool s.copying.engine c sound.pool) sound,
        subst IsOnTime (sym e) time,
      )
  AnyRun-kept w socket_send (next {t = s} {u = t} r (removes c at e)) h =
      let (sound, time) = AnyRun-kept w socket_send r h in
      (
        connection-IsSound s t _ e (remove-IsPool s.copying.engine c sound.pool) sound,
        subst IsOnTime (sym e) time,
      )

module _ {source : AudioSource} {q : Queue} {codec : AudioCodec} {k : Links} (w : Waiting q)
    (malloc : ℕ → ℕ → Bytes) where
  start_server-IsOnTime :
      (info : ServerDesc source codec) (s : Threads source q codec k)
      → start_server w malloc info ≡ ret s
      → IsOnTime s
  unfolding start_server
  start_server-IsOnTime info s e = by_codec info.codec_state info.audio_source e
    where
      by_codec :
          (c : Option codec.State) (a : Option source.State)
          → (elim c [
            | none ↦ fault Fault.assertion
            | some st ↦ elim a [
              | none ↦ fault Fault.assertion
              | some src ↦ ret (
                  started w malloc
                    (create_engine codec.info info.rtp_ports.0 info.rtp_ports.1 num_buffers)
                    st
                    src)
            ]
          ])
            ≡ ret s
          → IsOnTime s
      by_codec none a e = absurd (cc)
      by_codec (some st) none e = absurd (cc)
      by_codec (some st) (some src) e = subst IsOnTime (ret_inj e) refl

  -- For a codec whose payload type is one byte, whatever the memory holds and the sockets do: when the
  -- server's threads are started and then go on, in any interleaving with each other and with
  -- connections whose clients begin and end to play until the server returns, the reader's buffers
  -- make a ring of their size, the engine's pool is sound (counters in range, no block free twice,
  -- headers on the free packets), and an object that was deleted is one that neither the reader's
  -- thread nor the encoder's uses any more; before its joins the server has deleted nothing, after the
  -- first only the encoder's thread, and each of the five objects once when it returns.
  pub server_threads_lem :
      ((i size : ℕ) → length (malloc i size) ≡ size)
      → codec.info.payload_type < 256
      → (socket_send : SocketSend) (info : ServerDesc source codec)
      → {s t : Threads source q codec k} → start_server w malloc info ≡ ret s
      → AnyRun w socket_send s t
      → IsSound t × (t.deleted ≡ deleted_at t.server)
  server_threads_lem full byte socket_send info {s} started r =
      AnyRun-kept w socket_send r (
        start_server-IsSound w malloc full byte info s started,
        start_server-IsOnTime info s started,
      )
