-- ===== src/Server/Connection/Machine.antt =====
-- A connection as a run of the RTSP state machine.
use wifi_audio.Common.{
  ◌≡◌, sym, Bytes, ◌≢◌, refl, Bool, List, [], ◌∷◌, ret, Ensures, returns, Ensures-bind, any_result,
}
use wifi_audio.Rtp.Links.{Links}
use wifi_audio.Rtsp.Session
use wifi_audio.Rtsp.Session.{Session}
use wifi_audio.Rtsp.Session.Machine.{Step, returned, commands_in, ErrorsUnknown, process-Step}
use wifi_audio.Rtsp.Parser.{parse}
use mathlib.Core.Path.{subst}
use wifi_audio.Rtsp.Types.{RtspCommand, State}
use wifi_audio.Server.Connection.Rule
use wifi_audio.Server.Connection.Unlinks.{Scribble, handler_session, alive}
use wifi_audio.Server.Connection.{Recv, create_connection, run}
use wifi_audio.Server.Handler.{rtsp_handler, error}
use wifi_audio.Server.Output.{Platform, RtspHandler, terminate}

module _ {k : Links} (platform : Platform) where
  -- What was parsed, and the machine's steps for it, from `s` on, none of them from a DEAD session; with
  -- the state before each request and the command that was returned, the latest first.
  pub data Run (s : Session × RtspHandler k)
      : List (State × RtspCommand) → Session × RtspHandler k → Type 0 where
    start : Run s [] s
    go :
        {served : List (State × RtspCommand)} {t u : Session × RtspHandler k} (bytes : Bytes)
        {cmd : RtspCommand}
        → Run s served t
        → t.0.state ≢ State.dead
        → parse platform.luts (rtsp_handler platform) (commands_in t.0.state) bytes t.1
          ≡ ret (cmd, u.1)
        → Step t.0 cmd u.0
        → Run s ((t.0.state, returned cmd) ∷ served) u

module _ {k : Links} (platform : Platform) (scribble : Scribble (Session × RtspHandler k)) where
  errors_unknown : ErrorsUnknown (rtsp_handler {k = k} platform)
  unfolding error
  errors_unknown code h = refl

  module _ (s : Session × RtspHandler k) where
    process-Run :
        Rule.Keeps (handler_session platform scribble) (λ t served. Run platform s served t)
    process-Run bytes t served live r =
        Ensures-bind (λ r. ret (r.0, (r.1, r.2), scribble.left bytes t))
          (any_result (Session.process platform.luts (rtsp_handler platform) bytes t.0 t.1))
          (λ o e.
            let (cmd, parsed, step, told) =
              process-Step platform.luts (rtsp_handler platform) errors_unknown bytes t.0 o.1 t.1
                o.2 o.0 (alive t.0.state live) e in
            returns (
              subst (λ c. Run platform s ((t.0.state, c) ∷ served) (o.1, o.2)) (sym told)
                (Run.go bytes r (alive t.0.state live) parsed step)))

  -- Whatever arrives, however it is cut, and whatever the handler, its engine and the requests' texts
  -- do: if the connection ends without a fault, then each request that was processed, in their order,
  -- found a session that is not DEAD, and there is a text of which the parser made the handler that
  -- follows and reported a command, for which the session made its step of the RTSP state machine; and
  -- at the end the handler is terminated.
  pub run-Run :
      (cb : Bool) (recvs : List Recv) (s : Session × RtspHandler k)
      → Ensures
          (λ e. Unit {0})
          (λ d.
            (t : Session × RtspHandler k) × Run platform s d.served t
            × (d.session ≡ (t.0, terminate t.1)))
          (run cb recvs (create_connection (handler_session platform scribble) s))
  unfolding run create_connection
  run-Run cb recvs s =
      Ensures-bind _
        (Rule.rounds-rule (λ t served. Run platform s served t) (process-Run s) recvs
          (create_connection (handler_session platform scribble) s) Run.start)
        (λ d r. returns (d.session, r, refl))
