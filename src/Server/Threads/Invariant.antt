-- ===== src/Server/Threads/Invariant.antt =====
-- The invariant of the threads of `_server`, and the steps that leave the server itself alone.
use wifi_audio.Common.{◌≡◌, sym, List, [], ◌∷◌}
use mathlib.Core.Path.{subst}
use wifi_audio.Codec.{AudioCodec}
use wifi_audio.Rtp.Links.{Links}
use wifi_audio.Utils.{AudioSource, Queue}
use wifi_audio.Utils.Acquire.{IsRing}
use wifi_audio.Utils.Copy.{IsPool}
use wifi_audio.Server.Threads.{ReaderPc, EncoderPc, ServerPc, Object, Threads}

module _ {source : AudioSource} {q : Queue} {codec : AudioCodec} {k : Links} where
  -- The threads that use an object have returned.
  abbrev pub Unused : Object → Threads source q codec k → Type 0
  Unused Object.encoder_thread t = t.encoder_pc ≡ EncoderPc.finished
  Unused Object.i2s_reader t = t.reader_pc ≡ ReaderPc.finished
  Unused _ t = (t.encoder_pc ≡ EncoderPc.finished) × (t.reader_pc ≡ ReaderPc.finished)

  abbrev pub AllUnused : List Object → Threads source q codec k → Type 0
  AllUnused [] t = Unit {0}
  AllUnused (o ∷ os) t = Unused o t × AllUnused os t

  -- What `_server` has joined, by where it stands.
  abbrev pub Joined : ServerPc → Threads source q codec k → Type 0
  Joined ServerPc.joining_reader t = t.encoder_pc ≡ EncoderPc.finished
  Joined ServerPc.over t = (t.encoder_pc ≡ EncoderPc.finished) × (t.reader_pc ≡ ReaderPc.finished)
  Joined _ t = Unit {0}

  -- The reader's buffers make a ring of their size, the engine's pool is sound (counters in range, no
  -- block free twice, headers on the free packets), and neither
  -- the reader's thread nor the encoder's, where it runs, uses a deleted object.
  pub record IsSound (t : Threads source q codec k) : Type 0 where
    pub ring : IsRing t.copying.reader
    pub pool : IsPool t.copying.engine
    pub unused : AllUnused t.deleted t
    pub joined : Joined t.server t

  -- A thread that has returned stays so.
  pub record Later (s t : Threads source q codec k) : Type 0 where
    pub encoder : s.encoder_pc ≡ EncoderPc.finished → t.encoder_pc ≡ EncoderPc.finished
    pub reader : s.reader_pc ≡ ReaderPc.finished → t.reader_pc ≡ ReaderPc.finished

  Unused-Later : (o : Object) (s t : Threads source q codec k) → Later s t → Unused o s → Unused o t
  Unused-Later Object.encoder_thread s t l u = l.encoder u
  Unused-Later Object.i2s_reader s t l u = l.reader u
  Unused-Later Object.reader s t l u = (l.encoder u.0, l.reader u.1)
  Unused-Later Object.engine s t l u = (l.encoder u.0, l.reader u.1)
  Unused-Later Object.codec s t l u = (l.encoder u.0, l.reader u.1)

  pub AllUnused-Later :
      (os : List Object) (s t : Threads source q codec k)
      → Later s t
      → AllUnused os s
      → AllUnused os t
  AllUnused-Later [] s t l u = tt
  AllUnused-Later (o ∷ os) s t l u = (Unused-Later o s t l u.0, AllUnused-Later os s t l u.1)

  Joined-Later :
      (p : ServerPc) (s t : Threads source q codec k) → Later s t → Joined p s → Joined p t
  Joined-Later ServerPc.serving s t l j = tt
  Joined-Later ServerPc.joining_encoder s t l j = tt
  Joined-Later ServerPc.joining_reader s t l j = l.encoder j
  Joined-Later ServerPc.over s t l j = (l.encoder j.0, l.reader j.1)

  -- A step of a thread that leaves the server and what is deleted alone.
  pub thread-IsSound :
      (s t : Threads source q codec k)
      → Later s t
      → t.server ≡ s.server
      → t.deleted ≡ s.deleted
      → IsRing t.copying.reader
      → IsPool t.copying.engine
      → IsSound s
      → IsSound t
  thread-IsSound s t l server deleted ring pool h = record {
    ring = ring;
    pool = pool;
    unused = subst (λ os. AllUnused os t) (sym deleted) (AllUnused-Later s.deleted s t l h.unused);
    joined = subst (λ p. Joined p t) (sym server) (Joined-Later s.server s t l h.joined);
  }
