-- ===== src/Rtsp/Session.antt =====
-- `Session` of src/rtsp.cpp: the state of one RTSP session.
pub mod Machine
use wifi_audio.Common.{
  List, [], ◌∷◌, Bytes, Bool, true, false, if◌then◌else◌, Outcome, ret, fault, Fault, ◌>>=◌,
}
use wifi_audio.Rtsp.Types.{RtspCommand, State}
use wifi_audio.Rtsp.Parser.{Luts, Handler, parse}

-- `cb` says that there is a status callback; `notified` is what it was told, the latest first.
pub record Session : Type 0 where
  pub state : State
  pub cb : Bool
  pub notified : List State

unfoldable pub set_state : Session → State → Session
set_state s next = record s {
  state = next;
  notified = if s.cb then next ∷ s.notified else s.notified;
}

unfoldable pub create_session : Bool → Session
unfolding set_state
create_session cb = set_state (record { state = State.init; cb = cb; notified = [] }) State.init

abbrev pub init_commands : List RtspCommand
init_commands = RtspCommand.setup ∷ RtspCommand.options ∷ RtspCommand.describe ∷ []

abbrev pub ready_commands : List RtspCommand
ready_commands =
    RtspCommand.teardown ∷ RtspCommand.setup ∷ RtspCommand.options ∷ RtspCommand.describe
    ∷ RtspCommand.play ∷ RtspCommand.pause ∷ []

unfoldable pub allowable : State → Outcome (List RtspCommand)
allowable State.init = ret init_commands
allowable State.ready = ret ready_commands
allowable State.playing = ret ready_commands
allowable State.dead = fault Fault.assertion

-- The switch over the state, after a command other than KILL and TEARDOWN.
unfoldable pub advance : State → RtspCommand → Session → RtspCommand × Session
unfolding set_state
advance State.init RtspCommand.setup s = (RtspCommand.setup, set_state s State.ready)
advance State.init cmd s = (cmd, s)
advance State.ready RtspCommand.play s = (RtspCommand.play, set_state s State.playing)
advance State.ready cmd s = (cmd, s)
advance State.playing RtspCommand.pause s = (RtspCommand.pause, set_state s State.ready)
advance State.playing cmd s = (cmd, s)
advance State.dead cmd s = (RtspCommand.unknown, set_state s State.dead)

-- What `process` does once the parser has given its command.
unfoldable pub finish : RtspCommand → Session → RtspCommand × Session
unfolding advance set_state
finish RtspCommand.kill s = (RtspCommand.kill, set_state s State.dead)
finish RtspCommand.teardown s = (RtspCommand.unknown, set_state s State.dead)
finish cmd s = advance s.state cmd s

module _ {H : Type 0} (luts : Luts) (handler : Handler H) where
  unfoldable pub process : Bytes → Session → H → Outcome (RtspCommand × Session × H)
  unfolding allowable finish
  process bytes s h = allowable s.state >>= λ cmds.
      parse luts handler cmds bytes h >>= λ r. let (cmd, s') = finish r.0 s in ret (cmd, s', r.1)
