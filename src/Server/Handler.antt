-- ===== src/Server/Handler.antt =====
-- The commands of `RTSP_Handler` in src/rtsp_server.cpp.
pub mod Frame
pub mod Invariant
pub mod OneReply
pub mod Replies
pub mod Safety
use wifi_audio.Common.{
  ℕ, zero, suc, ◌+◌, ◌<◌, ◌≡◌, Bool, true, false, not, ◌&&◌, ◌||◌, List, [], ◌∷◌, ◌++◌, Option,
  none, some, Bytes, ◌==◌, if◌then◌else◌, length, codes, ℤ, pos, negsuc, signed32, is_zero, Outcome,
  ret, fault, Fault, ◌>>=◌,
}
use wifi_audio.Codec.{CodecInfo}
use wifi_audio.Libc.Strings.{str_eq}
use wifi_audio.Libc.Printf.{Arg, num, str, printf, snprintf}
use wifi_audio.Rtp.Links.{Links}
use wifi_audio.Rtp.Engine.{RtpEngine, update, new_client}
use wifi_audio.Rtp.Engine
use wifi_audio.Rtsp.Types.{
  RtspCommand, RtspHeader, Transport, Lut, cmd_lut, response_lut, e_ok, e_unsupported_media_type,
  e_unsupported_transport,
}
use wifi_audio.Rtsp.Parser.{Luts}
use wifi_audio.Rtsp.Parser
use wifi_audio.Server.Output.{
  Platform, RtspHandler, get_ip, print, print_bytes, flush, common, send_error, terminate,
}

unfoldable pub is_usable : Transport → Bool
is_usable t =
    t.unicast
    && (t.rtp
        && (str_eq (codes "PLAY") t.mode
            && (str_eq (codes "UDP") t.transport
                && (not (is_zero t.client_port.first) && not (is_zero t.client_port.second)))))

unfoldable pub usable_transport : List Transport → Option Transport
unfolding is_usable
usable_transport [] = none
usable_transport (t ∷ ts) = if is_usable t then some t else usable_transport ts

module _ {k : Links} (platform : Platform) where
  open platform use {luts, open_udp}

  -- The SDP text, cut to the 1024 byte buffer.
  unfoldable pub sdp_text : RtspHandler k → Bytes
  sdp_text h =
      snprintf 1024 h.codec.sdp_fmt
        (num (signed32 h.session_id) ∷ num (pos h.session_version) ∷ str h.ip_addr ∷ [])

  unfoldable pub describe : RtspHeader → RtspHandler k → ℕ × RtspHandler k
  unfolding common print print_bytes flush sdp_text
  describe hdrs h =
      let sdp = sdp_text h in
      let h1 = common platform hdrs false h in
      let h2 = print platform (codes "Content-Type: application/sdp\r\n") [] h1 in
      let h3 = print platform (codes "Content-Length: %d\r\n") (num (pos (length sdp)) ∷ []) h2 in
      let h4 = print platform (codes "\r\n") [] h3 in (e_ok, flush (print_bytes platform sdp h4))

  -- The names of the table, separated by commas.
  unfoldable pub print_names : Lut → Bytes → RtspHandler k → RtspHandler k
  unfolding print
  print_names [] sep h = h
  print_names ((text, v) ∷ t) sep h =
      print_names t (codes ", ") (print platform (codes "%s%s") (str sep ∷ str text ∷ []) h)

  unfoldable pub options : RtspHeader → RtspHandler k → ℕ × RtspHandler k
  unfolding common print print_names flush
  options hdrs h =
      let h1 = print platform (codes "Public: ") [] (common platform hdrs false h) in
      (e_ok, flush (print platform (codes "\r\n\r\n") [] (print_names cmd_lut [] h1)))

  -- The reply of SETUP.
  unfoldable pub setup_reply : RtspHeader → RtspHandler k → RtspHandler k
  unfolding common print flush
  setup_reply hdrs h =
      let (rtp_port, rtcp_port) = Engine.get_server_ports h.engine in
      let h1 =
        print platform (codes "Transport: RTP/AVP;unicast;server_port=%d-%d;session=%d\r\n")
          (num (pos rtp_port) ∷ num (pos rtcp_port) ∷ num (signed32 h.session_id) ∷ [])
          (common platform hdrs true h) in
      flush (print platform (codes "\r\n") [] h1)

  -- A new client, connected to the peer's first port; the client of an earlier SETUP is unlinked.
  unfoldable pub new_rtp_client : Transport → RtspHandler k → RtspHandler k
  new_rtp_client t h =
      let c = h.next_client in
      let e = Engine.remove h.engine h.rtp_client in
      record h {
        engine = record e { clients = update e.clients c new_client };
        rtp_client = some c;
        connects =
            (c, get_ip platform, snprintf 16 (codes "%d") (num t.client_port.first ∷ []))
            ∷ h.connects;
        next_client = suc c;
      }

  unfoldable pub setup : RtspHeader → RtspHandler k → Outcome (ℕ × RtspHandler k)
  unfolding usable_transport send_error setup_reply new_rtp_client
  setup hdrs h = elim (usable_transport hdrs.transport) [
    | none ↦ ret (send_error platform (some hdrs) e_unsupported_transport h)
    | some t ↦
        let h1 = setup_reply hdrs h in
        let port = snprintf 16 (codes "%d") (num (pos (Engine.get_server_ports h.engine).0) ∷ []) in
        if open_udp h.ip_addr port
        then ret (e_ok, new_rtp_client t h1)
        else fault Fault.null_pointer
  ]

  unfoldable pub play_reply : RtspHeader → RtspHandler k → RtspHandler k
  unfolding common print flush
  play_reply hdrs h =
      let h1 =
        print platform (codes "RTP-Info: url=rtsp://%s/media/trackID=0;seq=1;rtptime=0\r\n")
          (str h.ip_addr ∷ []) (common platform hdrs true h) in
      flush (print platform (codes "\r\n") [] h1)

  unfoldable pub play : RtspHeader → RtspHandler k → Outcome (ℕ × RtspHandler k)
  unfolding play_reply
  play hdrs h = elim h.rtp_client [
    | none ↦ fault Fault.assertion
    | some c ↦
        let h1 = play_reply hdrs h in
        ret (e_ok, record h1 { engine = Engine.play h1.engine (some c) })
  ]

  -- PAUSE and TEARDOWN answer and act alike.
  unfoldable pub stop_reply : RtspHeader → RtspHandler k → RtspHandler k
  unfolding common print flush
  stop_reply hdrs h = flush (print platform (codes "\r\n") [] (common platform hdrs true h))

  unfoldable pub teardown : RtspHeader → RtspHandler k → ℕ × RtspHandler k
  unfolding stop_reply
  teardown hdrs h =
      let h1 = stop_reply hdrs h in
      (e_ok, record h1 { engine = Engine.remove h1.engine h1.rtp_client })

  unfoldable pub pause : RtspHeader → RtspHandler k → ℕ × RtspHandler k
  unfolding stop_reply
  pause hdrs h =
      let h1 = stop_reply hdrs h in
      (e_ok, record h1 { engine = Engine.remove h1.engine h1.rtp_client })

  -- The switch of `command`, when there is no error yet.
  unfoldable pub run_command :
      RtspCommand → RtspHeader → RtspHandler k → Outcome (ℕ × RtspHandler k)
  unfolding describe options setup play teardown pause terminate send_error
  run_command RtspCommand.describe hdrs h = ret (
      if hdrs.accept_sdp
      then describe hdrs h
      else send_error platform (some hdrs) e_unsupported_media_type h)
  run_command RtspCommand.options hdrs h = ret (options hdrs h)
  run_command RtspCommand.setup hdrs h = setup hdrs h
  run_command RtspCommand.play hdrs h = play hdrs h
  run_command RtspCommand.pause hdrs h = ret (pause hdrs h)
  run_command RtspCommand.teardown hdrs h = ret (teardown hdrs h)
  run_command RtspCommand.kill hdrs h = ret (e_ok, terminate h)
  run_command RtspCommand.unknown hdrs h = fault Fault.assertion

  unfoldable pub command :
      RtspCommand → Option Bytes → RtspHeader → ℕ → RtspHandler k → Outcome (ℕ × RtspHandler k)
  unfolding run_command send_error
  command cmd uri hdrs error_code h =
      if error_code == e_ok
      then run_command cmd hdrs h
      else ret (send_error platform (some hdrs) error_code h)

  unfoldable pub error : ℕ → RtspHandler k → RtspCommand × RtspHandler k
  unfolding send_error
  error code h = (RtspCommand.unknown, (send_error platform none code h).1)

  -- `RTSP_Handler` as the parser sees it.
  abbrev pub rtsp_handler : Parser.Handler (RtspHandler k)
  rtsp_handler = record { error = error; command = command }
