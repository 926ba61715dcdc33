-- ===== src/Server/Connection/Unlinks.antt =====
-- A connection to the handler, and the engine's playing list when the connection ends.
use wifi_audio.Common.{
  ◌≡◌, ◌≢◌, refl, sym, ap, ◌∙◌, ◌⊎◌, inl, inr, Bool, true, false, ◌||◌, List, [], ◌∷◌, arith, Bytes,
  length, Outcome, ret, fault, ◌>>=◌, >>=-eq-ret, Ensures, returns, Ensures-bind, Ensures-weaken,
  any_outcome,
}
use wifi_audio.Rtp.Links.{Links}
use wifi_audio.Rtsp.Types.{RtspCommand, State}
use wifi_audio.Rtsp.Session
use wifi_audio.Rtsp.Session.{Session}
use wifi_audio.Server.Connection.Rule
use wifi_audio.Server.Connection.{SessionOps, Recv, Connection, is_dead, run}
use wifi_audio.Server.Handler.{rtsp_handler}
use wifi_audio.Server.Handler.Invariant.{SessionInv, Unlinked, terminate-Unlinked}
use wifi_audio.Server.Handler.Safety.{process-SessionInv}
use wifi_audio.Server.Output.{Platform, RtspHandler, terminate}

-- Was PLAY processed in the PLAY state?
abbrev pub is_replay : State × RtspCommand → Bool
is_replay (State.playing, RtspCommand.play) = true
is_replay _ = false

abbrev pub replayed : List (State × RtspCommand) → Bool
replayed [] = false
replayed (r ∷ rs) = is_replay r || replayed rs

-- What the parser leaves of the bytes of a request, in which it puts NULs.
pub record Scribble (S : Type 0) : Type 0 where
  pub left : Bytes → S → Bytes
  pub length-left : (b : Bytes) (s : S) → length (left b s) ≡ length b

or_true : (b : Bool) → (b || true) ≡ true
or_true true = refl
or_true false = refl

pub alive : (st : State) → is_dead st ≡ false → st ≢ State.dead
alive st h e = ground (arith, h, e)

module _ {k : Links} (platform : Platform) (scribble : Scribble (Session × RtspHandler k)) where
  -- `RTSP_Session` over `RTSP_Handler`.
  abbrev pub handler_process :
      Bytes → Session × RtspHandler k → Outcome (RtspCommand × (Session × RtspHandler k) × Bytes)
  handler_process bytes s =
      Session.process platform.luts (rtsp_handler platform) bytes s.0 s.1 >>= λ r.
      ret (r.0, (r.1, r.2), scribble.left bytes s)

  pub length-handler_process :
      (bytes : Bytes) (s t : Session × RtspHandler k) (cmd : RtspCommand) (after : Bytes)
      → handler_process bytes s ≡ ret (cmd, t, after)
      → length after ≡ length bytes
  length-handler_process bytes s t cmd after e =
      let (r, p, q) =
        >>=-eq-ret (Session.process platform.luts (rtsp_handler platform) bytes s.0 s.1) _ e in
      ap length (sym (ap left_of q)) ∙ scribble.length-left bytes s
    where
      left_of : Outcome (RtspCommand × (Session × RtspHandler k) × Bytes) → Bytes
      left_of (ret r) = r.2
      left_of (fault e) = []

  abbrev pub handler_session : SessionOps
  handler_session = record {
    Sessions = Session × RtspHandler k;
    get_state = λ s. s.0.state;
    process = handler_process;
    terminate = λ s. (s.0, terminate s.1);
    length-process = length-handler_process;
  }

  -- The client is linked as the session's state says, unless PLAY was processed in the PLAY state.
  abbrev pub Tracked : Session × RtspHandler k → List (State × RtspCommand) → Type 0
  Tracked s served = (replayed served ≡ true) ⊎ SessionInv s.0.state s.1

  processed :
      (st : State) (cmd : RtspCommand) (t : Session × RtspHandler k)
      (served : List (State × RtspCommand))
      → ((cmd ≡ RtspCommand.play) × (st ≡ State.playing)) ⊎ SessionInv t.0.state t.1
      → Tracked t ((st, cmd) ∷ served)
  processed st cmd t served (inl (play, playing)) = inl (rw (play, playing) refl)
  processed st cmd t served (inr l) = inr l

  process-Tracked : Rule.Keeps handler_session Tracked
  process-Tracked bytes s served live (inl old) =
      Ensures-bind (λ r. ret (r.0, (r.1, r.2), scribble.left bytes s))
        (any_outcome (Session.process platform.luts (rtsp_handler platform) bytes s.0 s.1))
        (λ r u. returns (inl (rw old (or_true (is_replay (s.0.state, r.0))))))
  process-Tracked bytes s served live (inr l) =
      Ensures-bind (λ r. ret (r.0, (r.1, r.2), scribble.left bytes s))
        (Ensures-weaken (λ e n. tt) (λ r q. q)
          (process-SessionInv platform bytes s.0 s.1 (alive s.0.state live) l))
        (λ r q. returns (processed s.0.state r.0 (r.1, r.2) served q))

  -- Whatever arrives and however it is cut: when the connection's loop ends without a fault, the
  -- session's client is not in the playing list, or PLAY was processed while the session played
  -- already.
  pub run-Unlinked :
      (cb : Bool) (recvs : List Recv) (c : Connection handler_session)
      → SessionInv c.session.0.state c.session.1
      → Ensures
          (λ e. Unit {0})
          (λ d.
            (replayed d.served ≡ true)
            ⊎ Unlinked d.session.1.rtp_client (k.items d.session.1.engine.playing))
          (run cb recvs c)
  unfolding run
  run-Unlinked cb recvs c l =
      Ensures-bind _ (Rule.rounds-rule Tracked process-Tracked recvs c (inr l))
        λ d q. returns (ended d q)
    where
      ended :
          (d : Connection handler_session)
          → Tracked d.session d.served
          → (replayed d.served ≡ true)
            ⊎ Unlinked
                (terminate d.session.1).rtp_client
                (k.items (terminate d.session.1).engine.playing)
      ended d (inl r) = inl r
      ended d (inr l) = inr (terminate-Unlinked d.session.0.state d.session.1 l)
