-- ===== src/Server/Connection.antt =====
-- `RtspClient` of src/rtsp_server.cpp: it collects what a connection sends until there is an empty line,
-- and hands that to the session.
pub mod Bounds
pub mod Rule
pub mod Machine
pub mod Whole
pub mod Unlinks
use wifi_audio.Common.{
  ℕ, zero, suc, ◌+◌, ◌-◌, ◌≤◌, ◌≡◌, Bool, true, false, ◌||◌, List, [], ◌∷◌, ◌++◌, Option, none,
  some, Bytes, ◌==◌, if◌then◌else◌, length, take, drop, replicate, overwrite, codes, Outcome, ret,
  fault, Fault, ◌>>=◌,
}
use wifi_audio.Libc.Strings.{c_str, strstr, has_nul}
use wifi_audio.Rtsp.Lines.Safe.{block_end}
use wifi_audio.Rtsp.Types.{RtspCommand, State}

-- `RTSP_Session` with its handler, as the connection uses it. The request is parsed in its buffer:
-- `process` gives what these bytes are afterwards.
pub record SessionOps : Type 1 where
  pub Sessions : Type 0
  pub get_state : Sessions → State
  pub process : Bytes → Sessions → Outcome (RtspCommand × Sessions × Bytes)
  pub terminate : Sessions → Sessions
  pub length-process :
      (bytes : Bytes) (s t : Sessions) (cmd : RtspCommand) (after : Bytes)
      → process bytes s ≡ ret (cmd, t, after)
      → length after ≡ length bytes

-- One call of `Socket::recv`: what it writes into the room it is given. Nothing stands for a result
-- that is not positive.
pub record Recv : Type 0 where
  pub bytes : ℕ → Bytes
  pub fits : (room : ℕ) → length (bytes room) ≤ room

abbrev pub is_kill : RtspCommand → Bool
is_kill RtspCommand.kill = true
is_kill _ = false

abbrev pub is_dead : State → Bool
is_dead State.dead = true
is_dead _ = false

pub record Connection (ops : SessionOps) : Type 0 where
  pub buff : Bytes
  pub idx : ℕ
  pub session : ops.Sessions
  -- Was `ss->kill` called?
  pub killed : Bool
  -- The calls of the status callback, the latest first.
  pub told : List State
  -- The requests that were processed, the latest first: the state before and the command.
  pub served : List (State × RtspCommand)

unfoldable pub size : ℕ
size = 2048

unfoldable pub create_connection : (ops : SessionOps) → ops.Sessions → Connection ops
unfolding size
create_connection ops session = record {
  buff = replicate size 0;
  idx = 0;
  session = session;
  killed = false;
  told = [];
  served = [];
}

-- `strstr` on the buffer, which has no NUL behind its end.
unfoldable pub search : Bytes → Bytes → Outcome (Option ℕ)
search match buff = elim (strstr match (c_str buff)) [
  | some i ↦ ret (some i)
  | none ↦ if has_nul buff then ret none else fault Fault.out_of_bounds
]

module _ {ops : SessionOps} where
  -- Behind `process`; true says that the loop goes on.
  unfoldable pub after_process :
      ℕ → Connection ops → RtspCommand × ops.Sessions × Bytes → Bool × Connection ops
  after_process end c (cmd, session, after) =
      let c1 = record c {
        buff = after ++ drop end c.buff;
        session = session;
        served = (ops.get_state c.session, cmd) ∷ c.served;
      } in
      if is_kill cmd then (false, record c1 { killed = true }) else (true, record c1 { idx = 0 })

  -- A complete request: `end` bytes.
  unfoldable pub serve : ℕ → Connection ops → Outcome (Bool × Connection ops)
  unfolding after_process
  serve end c = ops.process (take end c.buff) c.session >>= λ r. ret (after_process end c r)

  abbrev pub on_content : ℕ → Connection ops → Option ℕ → Outcome (Bool × Connection ops)
  on_content end c none = serve end c
  on_content end c (some at) = fault Fault.assertion

  abbrev pub on_block : ℕ → Connection ops → Option ℕ → Outcome (Bool × Connection ops)
  on_block n c none = ret (true, record c { idx = c.idx + n })
  on_block n c (some block) = search (codes "Content-Length: ") c.buff >>= on_content (block + 4) c

  -- What was received stands in the buffer; `n` is its length.
  unfoldable pub on_bytes : ℕ → Connection ops → Outcome (Bool × Connection ops)
  on_bytes n c = search block_end c.buff >>= on_block n c

  -- A round of the loop, in a session that is not DEAD.
  unfoldable pub step : Recv → Connection ops → Outcome (Bool × Connection ops)
  unfolding on_bytes size
  step recv c =
      let got = recv.bytes (size - c.idx) in
      let more = on_bytes (length got) (record c { buff = overwrite c.buff c.idx got }) in
      if length got == 0 then ret (false, c) else more

  -- Where a round leads, with `next` for the rest of the loop.
  abbrev pub go_on :
      (Connection ops → Outcome (Connection ops)) → Bool × Connection ops → Outcome (Connection ops)
  go_on next (true, c) = next c
  go_on next (false, c) = ret c

  -- The loop, over the results of `recv`; when there are no more, the connection is closed.
  unfoldable pub rounds : List Recv → Connection ops → Outcome (Connection ops)
  unfolding step
  rounds [] c = ret c
  rounds (recv ∷ recvs) c =
      let more = step recv c >>= go_on (rounds recvs) in
      if is_dead (ops.get_state c.session) then ret c else more

  unfoldable pub run : Bool → List Recv → Connection ops → Outcome (Connection ops)
  unfolding rounds
  run cb recvs c = rounds recvs c >>= λ d. ret (record d {
    session = ops.terminate d.session;
    told = if cb then State.dead ∷ d.told else d.told;
  })
