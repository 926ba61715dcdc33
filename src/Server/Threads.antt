-- ===== src/Server/Threads.antt =====
-- The threads of src/server.cpp: `_server`, and the loops of src/utils.cpp that it starts, `run` of
-- `_Reader` and `audio_copy`, as steps that interleave. A step is a look at `dead`, a whole `acquire`,
-- a whole round of the copy loop, or a call of `_server`.
pub mod Invariant
pub mod Sound
pub mod Deleted
pub mod Effects
pub mod Shutdown
use wifi_audio.Common.{
  ℕ, suc, zero, ◌+◌, ◌≤◌, ◌<◌, ◌≡◌, Bool, true, false, List, [], ◌∷◌, Option, none, some, Bytes,
  ltb, if◌then◌else◌, Outcome, ret, fault, Fault, ◌>>=◌,
}
use wifi_audio.Codec.{AudioCodec}
use wifi_audio.Rtp.Links.{Links}
use wifi_audio.Rtp.Engine.{RtpEngine, SocketSend, create_engine, play, remove, rx_bytes}
use wifi_audio.Utils.{AudioSource, Queue, Block, Reader, Copying, acquire, copy_block}

-- What the threads rely on of the panglos queue: `get` waits while there is no message, `put` does not
-- wait, and what it puts can be got.
pub record Waiting (q : Queue) : Type 0 where
  pub create : ℕ → q.Messages
  pub pending : q.Messages → ℕ
  pub put-pending : (m : q.Messages) (b : Block) → 0 < pending (q.put m b)
  pub get-pending : (m : q.Messages) → 0 < pending m → (b : Block) × ((q.get m).0 ≡ some b)

-- Where the threads stand: before a look at `dead`, inside `acquire`, before `get` of the queue, at a
-- `join`.
pub data ReaderPc : Type 0 where
  checking acquiring finished : ReaderPc

pub data EncoderPc : Type 0 where
  checking reading finished : EncoderPc

pub data ServerPc : Type 0 where
  serving joining_encoder joining_reader over : ServerPc

-- What `_server` deletes.
pub data Object : Type 0 where
  encoder_thread i2s_reader reader engine codec : Object

-- `ServerDesc`, as far as `_server` uses it for the audio; none is a null pointer.
pub record ServerDesc (source : AudioSource) (codec : AudioCodec) : Type 0 where
  pub rtp_ports : ℕ × ℕ
  pub codec_state : Option codec.State
  pub audio_source : Option source.State

pub record Threads (source : AudioSource) (q : Queue) (codec : AudioCodec) (k : Links)
    : Type 0 where
  pub server : ServerPc
  pub reader_pc : ReaderPc
  pub encoder_pc : EncoderPc
  pub dead : Bool
  pub copying : Copying source q codec k
  -- The latest first.
  pub deleted : List Object

abbrev pub num_buffers : ℕ
num_buffers = 4

-- The loop of `_Reader`'s constructor, from buffer `i` on: `malloc i size` is what the memory holds.
unfoldable pub alloc_buffers : (ℕ → ℕ → Bytes) → ℕ → ℕ → ℕ → List Bytes
alloc_buffers malloc zero i size = []
alloc_buffers malloc (suc n) i size = malloc i size ∷ alloc_buffers malloc n (suc i) size

module _ {source : AudioSource} {q : Queue} (w : Waiting q) (malloc : ℕ → ℕ → Bytes) where
  -- The constructor of `_Reader`.
  unfoldable pub new_reader : source.State → ℕ → ℕ → Reader source q
  unfolding alloc_buffers
  new_reader src size num_blocks = record {
    size = size;
    num_blocks = num_blocks;
    idx = 0;
    buffers = alloc_buffers malloc num_blocks 0 size;
    src = src;
    queue = w.create num_blocks;
  }

  -- `Reader::create`
  unfoldable pub create_reader : {k : Links} → source.State → RtpEngine k → Reader source q
  unfolding new_reader
  create_reader src rtp = new_reader src (rx_bytes rtp) 2

  abbrev pub started :
      {codec : AudioCodec} {k : Links}
      → RtpEngine k
      → codec.State
      → source.State
      → Threads source q codec k
  started rtp st src = record {
    server = ServerPc.serving;
    reader_pc = ReaderPc.checking;
    encoder_pc = EncoderPc.checking;
    dead = false;
    copying = record { reader = create_reader src rtp; engine = rtp; codec_state = st };
    deleted = [];
  }

  -- `_server`, up to the call of `rtsp_server`, when both threads are started.
  unfoldable pub start_server :
      {codec : AudioCodec} {k : Links}
      → ServerDesc source codec
      → Outcome (Threads source q codec k)
  unfolding create_reader
  start_server {codec} info = elim info.codec_state [
    | none ↦ fault Fault.assertion
    | some st ↦ elim info.audio_source [
      | none ↦ fault Fault.assertion
      | some src ↦
          let rtp = create_engine codec.info info.rtp_ports.0 info.rtp_ports.1 num_buffers in
          ret (started rtp st src)
    ]
  ]

module _ {source : AudioSource} {q : Queue} {codec : AudioCodec} {k : Links} where
  -- What `acquire` leaves; none where its fuel ran out.
  abbrev pub acquired :
      Threads source q codec k → Option (Bool × Reader source q) → Option (Threads source q codec k)
  acquired t none = none
  acquired t (some (more, r)) = some (record t {
    reader_pc = if more then ReaderPc.checking else ReaderPc.finished;
    copying = record t.copying { reader = r };
  })

  -- The next step of `run` of `_Reader`, from where it stands; none when it has returned.
  unfoldable pub reader_at : ReaderPc → Threads source q codec k → Option (Threads source q codec k)
  reader_at ReaderPc.checking t =
      some (record t { reader_pc = if t.dead then ReaderPc.finished else ReaderPc.acquiring })
  reader_at ReaderPc.acquiring t = acquired t (acquire t.copying.reader)
  reader_at ReaderPc.finished t = none

  abbrev pub copied :
      Threads source q codec k
      → Outcome (Bool × Copying source q codec k)
      → Outcome (Threads source q codec k)
  copied t (ret (more, c)) = ret (record t {
    encoder_pc = if more then EncoderPc.checking else EncoderPc.finished;
    copying = c;
  })
  copied t (fault e) = fault e

  -- The next step of `audio_copy`, which does not poll the reader; none when it has returned or waits
  -- for the queue.
  unfoldable pub encoder_at :
      Waiting q
      → SocketSend
      → EncoderPc
      → Threads source q codec k
      → Option (Outcome (Threads source q codec k))
  encoder_at w socket_send EncoderPc.checking t =
      some
        (ret (record t { encoder_pc = if t.dead then EncoderPc.finished else EncoderPc.reading }))
  encoder_at w socket_send EncoderPc.reading t =
      if ltb 0 (w.pending t.copying.reader.queue)
      then some (copied t (copy_block socket_send t.copying))
      else none
  encoder_at w socket_send EncoderPc.finished t = none

  abbrev pub join_encoder : EncoderPc → Threads source q codec k → Option (Threads source q codec k)
  join_encoder EncoderPc.finished t =
      some
        (record t { server = ServerPc.joining_reader; deleted = Object.encoder_thread ∷ t.deleted })
  join_encoder _ t = none

  abbrev pub join_reader : ReaderPc → Threads source q codec k → Option (Threads source q codec k)
  join_reader ReaderPc.finished t = some (record t {
    server = ServerPc.over;
    deleted = Object.codec ∷ Object.engine ∷ Object.reader ∷ Object.i2s_reader ∷ t.deleted;
  })
  join_reader _ t = none

  -- The next step of `_server`: `rtsp_server` returns, or a `join` does; none where it waits or has
  -- returned.
  unfoldable pub server_at : ServerPc → Threads source q codec k → Option (Threads source q codec k)
  server_at ServerPc.serving t = some (record t { server = ServerPc.joining_encoder; dead = true })
  server_at ServerPc.joining_encoder t = join_encoder t.encoder_pc t
  server_at ServerPc.joining_reader t = join_reader t.reader_pc t
  server_at ServerPc.over t = none

  abbrev pub with_engine : Threads source q codec k → RtpEngine k → Threads source q codec k
  with_engine t e = record t { copying = record t.copying { engine = e } }

  -- A step of one of the threads. While the server serves, its connections let clients play and take
  -- them out.
  pub data Step (w : Waiting q) (socket_send : SocketSend) (s t : Threads source q codec k)
      : Type 0 where
    of_reader : reader_at s.reader_pc s ≡ some t → Step w socket_send s t
    of_encoder : encoder_at w socket_send s.encoder_pc s ≡ some (ret t) → Step w socket_send s t
    of_server : server_at s.server s ≡ some t → Step w socket_send s t
    of_play :
        (client : Option ℕ)
        → s.server ≡ ServerPc.serving
        → t ≡ with_engine s (play s.copying.engine client)
        → Step w socket_send s t
    of_remove :
        (client : Option ℕ)
        → s.server ≡ ServerPc.serving
        → t ≡ with_engine s (remove s.copying.engine client)
        → Step w socket_send s t

  -- A number of steps, in any interleaving.
  pub data Run (w : Waiting q) (socket_send : SocketSend) (s : Threads source q codec k)
      : ℕ → Threads source q codec k → Type 0 where
    here : Run w socket_send s zero s
    next :
        {n : ℕ} {t u : Threads source q codec k}
        → Run w socket_send s n t
        → Step w socket_send t u
        → Run w socket_send s (suc n) u
