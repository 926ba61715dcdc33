-- ===== src/Tests/Connection.antt =====
-- A connection that gets a request in parts.
use wifi_audio.Common.{
  ◌≡◌, refl, List, [], ◌∷◌, true, Outcome, ret, fault, codes, Bytes, Ensures, ◌⊎◌, ◌++◌, arith,
}
use wifi_audio.Examples.{example_platform, handler}
use wifi_audio.Libc.Strings.{strstr}
use wifi_audio.Libc.Printf.{printf}
use wifi_audio.Rtp.Links.{list_links}
use wifi_audio.Rtsp.Headers.{read_headers}
use wifi_audio.Rtsp.Parser.{parse}
use wifi_audio.Rtsp.Session.{Session, create_session, process}
use wifi_audio.Rtsp.Types.{RtspCommand, State}
use wifi_audio.Server.Connection.{
  SessionOps, Connection, create_connection, rounds, run, search, serve,
}
use wifi_audio.Server.Connection.Bounds.{IsBuffer, rounds-IsBuffer}
use wifi_audio.Server.Connection.Machine.{Run, run-Run}
use wifi_audio.Server.Connection.Unlinks.{Scribble, handler_session, replayed, run-Unlinked}
use wifi_audio.Server.Connection.Whole.{chunk, seen, rounds_parts}
use wifi_audio.Server.Handler.Invariant.{Unlinked}
use wifi_audio.Server.Output.{RtspHandler, terminate}
use wifi_audio.Server.Handler.{command}
use wifi_audio.Tests.Requests.{handler-SessionInv}

abbrev scribble : Scribble (Session × RtspHandler list_links)
scribble = record { left = λ b s. b; length-left = λ b s. refl }

abbrev sessions : SessionOps
sessions = handler_session example_platform scribble

abbrev connection : Connection sessions
connection = create_connection sessions (create_session true, handler)

abbrev first_part : Bytes
first_part = codes "OPTIONS rtsp://x RTSP/1.0\r\nCS"

abbrev second_part : Bytes
second_part = codes "eq: 7\r\n\r\n"

-- What the connection served, and how many replies it sent.
abbrev served_by : Outcome (Connection sessions) → List (State × RtspCommand)
served_by (ret c) = c.served
served_by (fault e) = []

parts_test :
    served_by (rounds (chunk first_part ∷ chunk second_part ∷ []) connection)
    ≡ (State.init, RtspCommand.options) ∷ []
unfolding rounds create_connection process create_session parse read_headers command printf search
    strstr serve
parts_test = refl

rounds_parts_example :
    seen (rounds (chunk first_part ∷ chunk second_part ∷ []) connection)
    ≡ seen (rounds (chunk (first_part ++ second_part) ∷ []) connection)
unfolding create_connection create_session search strstr
rounds_parts_example =
    rounds_parts first_part second_part [] connection refl refl (omega arith) (omega arith)
      (omega arith) refl

connection-IsBuffer : IsBuffer connection
unfolding create_connection
connection-IsBuffer = record { full = refl; within = omega arith }

rounds-IsBuffer_example :
    Ensures (λ e. Unit {0}) IsBuffer (rounds (chunk first_part ∷ chunk second_part ∷ []) connection)
rounds-IsBuffer_example =
    rounds-IsBuffer (chunk first_part ∷ chunk second_part ∷ []) connection connection-IsBuffer

run-Unlinked_example :
    Ensures
      (λ e. Unit {0})
      (λ (d : Connection sessions).
        (replayed d.served ≡ true)
        ⊎ Unlinked d.session.1.rtp_client (list_links.items d.session.1.engine.playing))
      (run true (chunk first_part ∷ chunk second_part ∷ []) connection)
unfolding create_connection
run-Unlinked_example =
    run-Unlinked example_platform scribble true (chunk first_part ∷ chunk second_part ∷ [])
      connection handler-SessionInv

run-Run_example :
    Ensures
      (λ e. Unit {0})
      (λ (d : Connection sessions).
        (t : Session × RtspHandler list_links) × Run example_platform
          (create_session true, handler)
          d.served
          t
        × (d.session ≡ (t.0, terminate t.1)))
      (run true (chunk first_part ∷ chunk second_part ∷ []) connection)
run-Run_example =
    run-Run example_platform scribble true (chunk first_part ∷ chunk second_part ∷ [])
      (create_session true, handler)
