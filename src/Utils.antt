-- ===== src/Utils.antt =====
-- src/utils.cpp: the reader, which fills a ring of buffers from the audio source, and the loop that
-- encodes and sends what was read. The source, the codec and the queue are parameters.
pub mod Acquire
pub mod Copy
pub mod Ring
pub mod Stream
use wifi_audio.Common.{
  overwrite, ℕ, zero, suc, ◌+◌, ◌-◌, ◌%◌, ◌≤◌, Bool, true, false, not, List, [], ◌∷◌, ◌++◌, Option,
  none, some, Bytes, ltb, ◌==◌, if◌then◌else◌, length, take, drop, set, get_or, Outcome, ret, fault,
  Fault, ◌>>=◌,
}
use wifi_audio.Codec.{AudioCodec}
use wifi_audio.Rtp.Header.{RtpHeader}
use wifi_audio.Rtp.Links.{Links}
use wifi_audio.Rtp.Engine.{RtpEngine, SocketSend, update, has_clients, get_free, send, rx_bytes}

-- `Reader::Block`: the buffer, by its place in the ring, and how much of it was read.
pub record Block : Type 0 where
  pub buffer : ℕ
  pub bytes : ℕ

-- An `AudioSource`: a read gives at most the bytes that it was asked for.
pub record AudioSource : Type 1 where
  pub State : Type 0
  pub read : State → ℕ → ℕ → Bytes × State
  pub max_read_bytes : ℕ
  pub read-bounded : (s : State) (bytes idx : ℕ) → length (read s bytes idx).0 ≤ bytes

-- The queue of panglos. `get` gives none when the wait for a message fails.
pub record Queue : Type 1 where
  pub Messages : Type 0
  pub put : Messages → Block → Messages
  pub get : Messages → Option Block × Messages

pub record Reader (source : AudioSource) (q : Queue) : Type 0 where
  pub size : ℕ
  pub num_blocks : ℕ
  pub idx : ℕ
  pub buffers : List Bytes
  pub src : source.State
  pub queue : q.Messages

module _ (source : AudioSource) where
  -- The buffer, how much of it is read, and the source. None says that the fuel ran out.
  unfoldable pub fill : ℕ → ℕ → Bytes → ℕ → ℕ → source.State → Option (Bytes × ℕ × source.State)
  fill zero size buff total read s = none
  fill (suc fuel) size buff total read s =
      let todo = size - total in
      let block = if ltb source.max_read_bytes todo then source.max_read_bytes else todo in
      let (got, s') = source.read s block read in
      let written = overwrite buff total got in
      let more = fill fuel size written (total + length got) (suc read) s' in
      if ltb total size
      then (if length got == 0 then some (written, total, s') else more)
      else some (buff, total, s)

module _ {source : AudioSource} {q : Queue} where
  -- False if nothing was read. An index outside the ring reads outside of `data`.
  unfoldable pub acquire : Reader source q → Option (Bool × Reader source q)
  unfolding fill
  acquire r = elim (fill source (suc (suc r.size)) r.size (get_or r.buffers r.idx []) 0 0 r.src) [
    | none ↦ none
    | some (buff, total, s) ↦ some (
      not (total == 0),
      record r {
        idx = (r.idx + 1) % r.num_blocks;
        buffers = set r.buffers r.idx buff;
        src = s;
        queue = q.put r.queue (record { buffer = r.idx; bytes = total });
      },
    )
  ]

-- What the loop of `audio_copy` works on.
pub record Copying (source : AudioSource) (q : Queue) (codec : AudioCodec) (k : Links)
    : Type 0 where
  pub reader : Reader source q
  pub engine : RtpEngine k
  pub codec_state : codec.State

module _ {source : AudioSource} {q : Queue} {codec : AudioCodec} {k : Links}
    (socket_send : SocketSend) where
  -- Put what the codec wrote into block `b`, and send it. What it writes behind the packet is outside
  -- of the block.
  unfoldable pub send_encoded :
      ℕ → Copying source q codec k → Bytes × codec.State → Outcome (Bool × Copying source q codec k)
  send_encoded b c (out, st) =
      let e = c.engine in
      let p = e.packets b in
      let filled = record e {
        packets = update e.packets b (record p { audio = overwrite p.audio 0 out });
      } in
      let sent = send socket_send filled b (length out) e.codec.samples_per_packet >>= λ f.
      ret (true, record c { engine = f; codec_state = st }) in
      if ltb (e.max_payload b) (length out) then fault Fault.out_of_bounds else sent

  -- The codec is told that it may write `rx_bytes`.
  unfoldable pub encode_packet :
      ℕ → Bytes → Copying source q codec k → Outcome (Bool × Copying source q codec k)
  unfolding send_encoded
  encode_packet b audio c =
      codec.encode c.codec_state audio c.engine.codec.samples_per_packet (rx_bytes c.engine)
      >>= send_encoded b c

  -- A packet for what was read, if `get_free` gave a block.
  abbrev pub into_block :
      Bytes
      → Copying source q codec k
      → Option ℕ × RtpEngine k
      → Outcome (Bool × Copying source q codec k)
  into_block audio c (none, rest) = ret (true, record c { engine = rest })
  into_block audio c (some b, rest) = encode_packet b audio (record c { engine = rest })

  unfoldable pub send_block :
      Bytes → Copying source q codec k → Outcome (Bool × Copying source q codec k)
  send_block audio c = into_block audio c (get_free c.engine)

  -- A round of the loop, behind the poll: false when the loop ends. The codec gets the whole buffer,
  -- however little of it was read.
  unfoldable pub copy_block : Copying source q codec k → Outcome (Bool × Copying source q codec k)
  unfolding send_block
  copy_block c =
      let r = c.reader in
      let (message, queue) = q.get r.queue in
      let c1 = record c { reader = record r { queue = queue } } in
      elim message [
        | none ↦ ret (false, c1)
        | some block ↦
            if not (has_clients c1.engine)
            then ret (true, c1)
            else send_block (get_or r.buffers block.buffer []) c1
      ]

  -- A whole round: the reader is polled here if no thread of its own runs it.
  unfoldable pub copy_round :
      Bool → Copying source q codec k → Option (Outcome (Bool × Copying source q codec k))
  unfolding acquire copy_block
  copy_round poll_reader c =
      if poll_reader
      then elim (acquire c.reader) [
        | none ↦ none
        | some (more, r) ↦ some (
            if more
            then copy_block (record c { reader = r })
            else ret (false, record c { reader = r }))
      ]
      else some (copy_block c)
