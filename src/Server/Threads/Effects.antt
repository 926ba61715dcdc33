-- ===== src/Server/Threads/Effects.antt =====
-- The steps of the threads when `_server` has set `dead`, by what they change.
use wifi_audio.Common.{
  ℕ, ◌+◌, ◌≤◌, ◌<◌, ◌≡◌, ◌≢◌, refl, sym, ap, ◌∙◌, inl, inr, Bool, true, false, not, none, some,
  some_inj, ret_inj, ltb, ◌==◌, if◌then◌else◌, arith, ltb→lt, Bool-cases, Outcome, ret, fault,
}
use mathlib.Core.Path.{subst}
use wifi_audio.Codec.{AudioCodec}
use wifi_audio.Rtp.Links.{Links}
use wifi_audio.Rtp.Engine.{SocketSend}
use wifi_audio.Utils.{AudioSource, Queue, Copying, copy_block}
use wifi_audio.Utils.Acquire.{acquire-Acquired}
use wifi_audio.Server.Threads.Invariant.{IsSound}
use wifi_audio.Server.Threads.{
  Waiting, ReaderPc, EncoderPc, ServerPc, Threads, acquired, reader_at, copied, encoder_at,
  join_encoder, join_reader, server_at, Step, of_reader, of_encoder, of_server, of_play, of_remove,
}

abbrev pub reader_rank : ReaderPc → ℕ
reader_rank ReaderPc.checking = 1
reader_rank ReaderPc.acquiring = 2
reader_rank ReaderPc.finished = 0

abbrev pub encoder_rank : EncoderPc → ℕ
encoder_rank EncoderPc.checking = 1
encoder_rank EncoderPc.reading = 2
encoder_rank EncoderPc.finished = 0

abbrev pub server_rank : ServerPc → ℕ
server_rank ServerPc.serving = 3
server_rank ServerPc.joining_encoder = 2
server_rank ServerPc.joining_reader = 1
server_rank ServerPc.over = 0

module _ {source : AudioSource} {q : Queue} {codec : AudioCodec} {k : Links} (w : Waiting q)
    (socket_send : SocketSend) where
  -- `_server` has set `dead`.
  pub record IsStopping (t : Threads source q codec k) : Type 0 where
    pub dead_set : t.dead ≡ true
    pub stopped : t.server ≢ ServerPc.serving

  -- The steps that are left, at most.
  abbrev pub rank : Threads source q codec k → ℕ
  rank t = reader_rank t.reader_pc + encoder_rank t.encoder_pc + server_rank t.server

  abbrev pub pending_of : Threads source q codec k → ℕ
  pending_of t = w.pending t.copying.reader.queue

  -- What a step does when `dead` is set.
  pub data Effect (s t : Threads source q codec k) : Type 0 where
    reader_ends :
        s.reader_pc ≡ ReaderPc.checking
        → t.reader_pc ≡ ReaderPc.finished
        → t.encoder_pc ≡ s.encoder_pc
        → t.server ≡ s.server
        → pending_of t ≡ pending_of s
        → Effect s t
    reader_puts :
        s.reader_pc ≡ ReaderPc.acquiring
        → reader_rank t.reader_pc ≤ 1
        → t.encoder_pc ≡ s.encoder_pc
        → t.server ≡ s.server
        → 0 < pending_of t
        → Effect s t
    encoder_ends :
        s.encoder_pc ≡ EncoderPc.checking
        → t.encoder_pc ≡ EncoderPc.finished
        → t.reader_pc ≡ s.reader_pc
        → t.server ≡ s.server
        → Effect s t
    encoder_gets :
        s.encoder_pc ≡ EncoderPc.reading
        → 0 < pending_of s
        → encoder_rank t.encoder_pc ≤ 1
        → t.reader_pc ≡ s.reader_pc
        → t.server ≡ s.server
        → Effect s t
    encoder_joined :
        s.server ≡ ServerPc.joining_encoder
        → s.encoder_pc ≡ EncoderPc.finished
        → t.server ≡ ServerPc.joining_reader
        → t.encoder_pc ≡ s.encoder_pc
        → t.reader_pc ≡ s.reader_pc
        → Effect s t
    reader_joined :
        s.server ≡ ServerPc.joining_reader
        → t.server ≡ ServerPc.over
        → t.encoder_pc ≡ s.encoder_pc
        → t.reader_pc ≡ s.reader_pc
        → pending_of t ≡ pending_of s
        → Effect s t

  -- The step, and that `dead` stays set.
  abbrev pub Does : Threads source q codec k → Threads source q codec k → Type 0
  Does s t = (t.dead ≡ true) × Effect s t

  reader_at-Does :
      (p : ReaderPc) (s t : Threads source q codec k)
      → s.reader_pc ≡ p
      → reader_at p s ≡ some t
      → IsSound s
      → IsStopping s
      → Does s t
  unfolding reader_at
  reader_at-Does ReaderPc.checking s t at e h st =
      subst (Does s) (some_inj.0 e)
        (st.dead_set, reader_ends at (ground (arith, st.dead_set)) refl refl refl)
  reader_at-Does ReaderPc.acquiring s t at e h st =
      let a = acquire-Acquired s.copying.reader h.ring in
      let is : acquired s (some (not (a.total == 0), a.after)) ≡ some t =
        ap (acquired s) (sym a.is) ∙ e in
      subst (Does s) (some_inj.0 is) (
        st.dead_set,
        reader_puts at (left_acquire (not (a.total == 0))) refl refl
            (subst (λ m. 0 < w.pending m) (sym a.queued) (w.put-pending s.copying.reader.queue _)),
      )
    where
      left_acquire :
          (more : Bool) → reader_rank (if more then ReaderPc.checking else ReaderPc.finished) ≤ 1
      left_acquire true = omega arith
      left_acquire false = omega arith
  reader_at-Does ReaderPc.finished s t at e h st = absurd (cc)

  copied-Does :
      (s t : Threads source q codec k) (m : Outcome (Bool × Copying source q codec k))
      → s.encoder_pc ≡ EncoderPc.reading
      → 0 < pending_of s
      → copied s m ≡ ret t
      → IsStopping s
      → Does s t
  copied-Does s t (ret (true, c)) at more e st =
      subst (Does s) (ret_inj e) (st.dead_set, encoder_gets at more (omega arith) refl refl)
  copied-Does s t (ret (false, c)) at more e st =
      subst (Does s) (ret_inj e) (st.dead_set, encoder_gets at more (omega arith) refl refl)
  copied-Does s t (fault f) at more e st = absurd (cc)

  encoder_at-Does :
      (p : EncoderPc) (s t : Threads source q codec k)
      → s.encoder_pc ≡ p
      → encoder_at w socket_send p s ≡ some (ret t)
      → IsStopping s
      → Does s t
  unfolding encoder_at
  encoder_at-Does EncoderPc.checking s t at e st =
      subst (Does s) (ret_inj (some_inj.0 e))
        (st.dead_set, encoder_ends at (ground (arith, st.dead_set)) refl refl)
  encoder_at-Does EncoderPc.reading s t at e st = elim (Bool-cases (ltb 0 (pending_of s))) [
    | inl more ↦
        copied-Does s t (copy_block socket_send s.copying) at (ltb→lt _ _ more)
          (some_inj.0 (sym (rw more refl) ∙ e)) st
    | inr waits ↦ absurd (let no : none ≡ some (ret t) = sym (rw waits refl) ∙ e in cc)
  ]
  encoder_at-Does EncoderPc.finished s t at e st = absurd (cc)

  join_encoder-Does :
      (p : EncoderPc) (s t : Threads source q codec k)
      → s.encoder_pc ≡ p
      → s.server ≡ ServerPc.joining_encoder
      → join_encoder p s ≡ some t
      → IsStopping s
      → Does s t
  join_encoder-Does EncoderPc.finished s t at joins e st =
      subst (Does s) (some_inj.0 e) (st.dead_set, encoder_joined joins at refl refl refl)
  join_encoder-Does EncoderPc.checking s t at joins e st = absurd (cc)
  join_encoder-Does EncoderPc.reading s t at joins e st = absurd (cc)

  join_reader-Does :
      (p : ReaderPc) (s t : Threads source q codec k)
      → s.server ≡ ServerPc.joining_reader
      → join_reader p s ≡ some t
      → IsStopping s
      → Does s t
  join_reader-Does ReaderPc.finished s t joins e st =
      subst (Does s) (some_inj.0 e) (st.dead_set, reader_joined joins refl refl refl refl)
  join_reader-Does ReaderPc.checking s t joins e st = absurd (cc)
  join_reader-Does ReaderPc.acquiring s t joins e st = absurd (cc)

  server_at-Does :
      (p : ServerPc) (s t : Threads source q codec k)
      → s.server ≡ p
      → server_at p s ≡ some t
      → IsStopping s
      → Does s t
  unfolding server_at
  server_at-Does ServerPc.serving s t at e st = absurd (st.stopped at)
  server_at-Does ServerPc.joining_encoder s t at e st =
      join_encoder-Does s.encoder_pc s t refl at e st
  server_at-Does ServerPc.joining_reader s t at e st = join_reader-Does s.reader_pc s t at e st
  server_at-Does ServerPc.over s t at e st = absurd (cc)

  pub Step-Does :
      {s t : Threads source q codec k}
      → Step w socket_send s t
      → IsSound s
      → IsStopping s
      → Does s t
  Step-Does {s} {t} (of_reader e) h st = reader_at-Does s.reader_pc s t refl e h st
  Step-Does {s} {t} (of_encoder e) h st = encoder_at-Does s.encoder_pc s t refl e st
  Step-Does {s} {t} (of_server e) h st = server_at-Does s.server s t refl e st
  Step-Does {s} {t} (of_play c at e) h st = absurd (st.stopped at)
  Step-Does {s} {t} (of_remove c at e) h st = absurd (st.stopped at)

  pub Effect-lower : {s t : Threads source q codec k} → Effect s t → rank t < rank s
  Effect-lower (reader_ends a b c d e) = ground arith
  Effect-lower (reader_puts a b c d e) = ground arith
  Effect-lower (encoder_ends a b c d) = ground arith
  Effect-lower (encoder_gets a b c d e) = ground arith
  Effect-lower (encoder_joined a b c d e) = ground arith
  Effect-lower (reader_joined a b c d e) = ground arith

  pub Effect-IsStopping :
      {s t : Threads source q codec k} → Effect s t → t.dead ≡ true → IsStopping s → IsStopping t
  Effect-IsStopping f dead st = record { dead_set = dead; stopped = left f st.stopped }
    where
      left :
          {s t : Threads source q codec k}
          → Effect s t
          → s.server ≢ ServerPc.serving
          → t.server ≢ ServerPc.serving
      left (reader_ends a b c d e) ne at = ne (cc)
      left (reader_puts a b c d e) ne at = ne (cc)
      left (encoder_ends a b c d) ne at = ne (cc)
      left (encoder_gets a b c d e) ne at = ne (cc)
      left (encoder_joined a b c d e) ne at = cc
      left (reader_joined a b c d e) ne at = cc
