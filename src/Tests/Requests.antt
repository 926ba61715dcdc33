-- ===== src/Tests/Requests.antt =====
-- Whole requests, on a simulated socket.
use wifi_audio.Common.{
  ℕ, ◌≡◌, ◌≢◌, refl, List, [], ◌∷◌, ◌++◌, Option, some, none, true, false, Outcome, ret, fault,
  codes, Bytes, Ensures, NotAssertion, ◌⊎◌, inr,
}
use wifi_audio.Examples.{example_luts, example_platform, handler}
use wifi_audio.Libc.Numbers.{strtoll}
use wifi_audio.Libc.Printf.{printf}
use wifi_audio.Rtp.Links.{list_links}
use wifi_audio.Rtp.Engine.{create_engine, remove, get_server_ports}
use wifi_audio.Rtsp.Types.{RtspCommand, State, zero_addr}
use wifi_audio.Rtsp.Headers.{read_headers}
use wifi_audio.Rtsp.Lines.{getline, line_parser}
use wifi_audio.Rtsp.Lines.Safe.{
  IsBlock, block_end, getline-IsBlock, line_parser_lem, behind_empty, is_empty_first,
}
use wifi_audio.Rtsp.Parser.{parse}
use wifi_audio.Rtsp.Session.{Session, create_session, process, set_state, init_commands}
use wifi_audio.Rtsp.Session.Machine.{ErrorsUnknown, Step, returned, process-Step}
use wifi_audio.Rtsp.Transport.{get_ipaddr, parse_transport_option}
use wifi_audio.Rtsp.Transport.Addresses.{get_ipaddr_lem}
use wifi_audio.Server.Handler.{rtsp_handler, command, error}
use wifi_audio.Server.Handler.Invariant.{SessionInv}
use wifi_audio.Server.Handler.OneReply.{process-one_reply}
use wifi_audio.Server.Handler.Safety.{process-SessionInv}
use wifi_audio.Server.Output.{RtspHandler, create_handler, get_ip}

abbrev options_request : Bytes
options_request = codes "OPTIONS rtsp://x RTSP/1.0\r\nCSeq: 7\r\n\r\n"

abbrev options_reply : Bytes
options_reply =
    codes
      "RTSP/1.0 200 OK\r\nCSeq: 7\r\nPublic: OPTIONS, DESCRIBE, SETUP, PAUSE, PLAY, TEARDOWN\r\n\r\n"

abbrev after_options : RtspHandler list_links
after_options = record handler { replies = options_reply ∷ [] }

options_test :
    process example_luts
      (rtsp_handler example_platform)
      options_request
      (create_session true)
      handler
    ≡ ret (RtspCommand.options, create_session true, after_options)
unfolding process create_session parse read_headers command create_handler printf
options_test = refl

abbrev pub setup_request : Bytes
setup_request =
    codes
      "SETUP rtsp://1.2.3.4:1234/stream RTSP/1.0\r\nCSeq: 312\r\nTransport: RTP/AVP;unicast;client_port=3456-3457\r\n\r\n"

abbrev setup_reply : Bytes
setup_reply =
    codes
      "RTSP/1.0 200 OK\r\nCSeq: 312\r\nSession: 12345\r\nTransport: RTP/AVP;unicast;server_port=6000-6001;session=12345\r\n\r\n"

-- The command, the state of the session, the client and the replies of an outcome.
abbrev seen :
    Outcome (RtspCommand × Session × RtspHandler list_links)
    → Option (RtspCommand × State × Option ℕ × List Bytes)
seen (ret r) = some (r.0, r.1.state, r.2.rtp_client, r.2.replies)
seen (fault e) = none

setup_test :
    seen (
      process example_luts
        (rtsp_handler example_platform)
        setup_request
        (create_session true)
        handler)
    ≡ some (RtspCommand.setup, State.ready, some 1, setup_reply ∷ [])
unfolding process create_session parse read_headers command create_handler printf create_engine
    remove parse_transport_option get_ip get_server_ports
setup_test = refl

abbrev kill_request : Bytes
kill_request = codes "KILL rtsp://x RTSP/1.0\r\nCSeq: 8\r\n\r\n"

kill_test :
    process example_luts (rtsp_handler example_platform) kill_request (create_session true) handler
    ≡ ret (RtspCommand.kill, set_state (create_session true) State.dead, handler)
unfolding process create_session parse read_headers command create_handler printf remove
kill_test = refl

new_session_live : (create_session true).state ≢ State.dead
unfolding create_session
new_session_live e = cc

errors_unknown : ErrorsUnknown (rtsp_handler {k = list_links} example_platform)
unfolding command error
errors_unknown code h = refl

process-Step_example :
    (cmd : RtspCommand) × (parse example_luts
        (rtsp_handler example_platform)
        init_commands
        kill_request
        handler
      ≡ ret (cmd, handler))
    × Step (create_session true) cmd (set_state (create_session true) State.dead)
    × (RtspCommand.kill ≡ returned cmd)
unfolding create_session
process-Step_example =
    process-Step example_luts (rtsp_handler example_platform) errors_unknown kill_request
      (create_session true) (set_state (create_session true) State.dead) handler handler
      RtspCommand.kill new_session_live kill_test

process-one_reply_example :
    ((RtspCommand.options ≡ RtspCommand.kill) × (after_options.replies ≡ handler.replies))
    ⊎ ((RtspCommand.options ≢ RtspCommand.kill)
        × ((r : Bytes) × (after_options.replies ≡ r ∷ handler.replies)))
process-one_reply_example =
    process-one_reply example_platform options_request (create_session true) (create_session true)
      handler after_options RtspCommand.options new_session_live options_test

pub handler-SessionInv : SessionInv (create_session true).state handler
unfolding create_session create_handler create_engine
handler-SessionInv = record { fresh = λ a h. refl; holds = refl }

process-SessionInv_example :
    Ensures NotAssertion
      (λ (r : RtspCommand × Session × RtspHandler list_links).
        ((r.0 ≡ RtspCommand.play) × ((create_session true).state ≡ State.playing))
        ⊎ SessionInv r.1.state r.2)
      (process example_luts
        (rtsp_handler example_platform)
        setup_request
        (create_session true)
        handler)
process-SessionInv_example =
    process-SessionInv example_platform setup_request (create_session true) handler new_session_live
      handler-SessionInv

line_parser_lem_example :
    (n : ℕ) × (r : Bytes) × (line_parser (codes "\r\n\r\nPLAY") ≡ ret r)
    × (codes "\r\n\r\nPLAY" ≡ behind_empty n r)
    × (is_empty_first r ≡ false)
line_parser_lem_example = line_parser_lem (codes "\r\n\r\nPLAY")

getline-IsBlock_example :
    (r : Option Bytes × Bytes) × (getline (codes "PLAY\r\nCSeq: 1" ++ block_end) ≡ ret r)
    × IsBlock r.1
getline-IsBlock_example =
    getline-IsBlock (codes "PLAY\r\nCSeq: 1" ++ block_end) (inr (codes "PLAY\r\nCSeq: 1", refl))

get_ipaddr_lem_example :
    get_ipaddr zero_addr (codes "10.0.0.1")
    ≡ (true, record { octets = 10 ∷ 10 ∷ 10 ∷ 10 ∷ [] }, codes ".0.0.1")
unfolding strtoll
get_ipaddr_lem_example = get_ipaddr_lem zero_addr (codes "10.0.0.1") refl
