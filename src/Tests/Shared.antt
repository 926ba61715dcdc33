-- ===== src/Tests/Shared.antt =====
-- Two connections of one server.
use wifi_audio.Common.{◌⊎◌, refl, [], Option, none, some, Outcome, ret, fault, true}
use wifi_audio.Examples.{example_platform, engine}
use wifi_audio.Libc.Printf.{printf}
use wifi_audio.Rtp.Links.{list_links}
use wifi_audio.Rtp.Engine.{create_engine}
use wifi_audio.Rtsp.Headers.{read_headers}
use wifi_audio.Rtsp.Parser.{parse}
use wifi_audio.Rtsp.Transport.{parse_transport_option}
use wifi_audio.Rtsp.Session.{Session, create_session, process}
use wifi_audio.Rtsp.Types.{RtspCommand}
use wifi_audio.Server.Handler.{command}
use wifi_audio.Server.Output.{RtspHandler, create_handler, get_ip}
use wifi_audio.Server.Control.{create_client}
use wifi_audio.Server.Shared.{Shared, connect, request, disconnect, connects, requests, disconnects}
use wifi_audio.Server.Shared.Linked.{AllLinked}
use wifi_audio.Server.Shared.Reach.{Run, here, next, Replayed, new_server, server-AllLinked}
use wifi_audio.Tests.Control.{factory}
use wifi_audio.Tests.Requests.{setup_request}

abbrev Clients : Type 0
Clients = Shared list_links

abbrev empty : Clients
empty = new_server engine factory

abbrev both : Clients
both = connect 1 (connect 0 empty)

abbrev or_new : Option (Session × RtspHandler list_links) → Session × RtspHandler list_links
or_new none = (create_session true, create_handler engine engine.codec [] 0 0)
or_new (some c) = c

abbrev or_both : Outcome (RtspCommand × Clients) → Clients
or_both (ret (cmd, s)) = s
or_both (fault f) = both

abbrev asked : Clients
asked = or_both (request example_platform 1 setup_request (or_new (both.sessions 1)) both)

abbrev left : Clients
left = disconnect 0 (or_new (asked.sessions 0)) asked

run : Run example_platform empty left
unfolding connect request process create_session parse read_headers command create_handler printf
    create_client get_ip create_engine disconnect new_server parse_transport_option
run =
    next
      (next (next (next here (connects 0 refl refl)) (connects 1 refl refl))
        (requests 1 (or_new (both.sessions 1)) setup_request RtspCommand.setup refl refl))
      (disconnects 0 (or_new (asked.sessions 0)) refl refl)

server-AllLinked_example : Replayed run ⊎ AllLinked left
unfolding create_engine
server-AllLinked_example = server-AllLinked example_platform engine factory refl run
