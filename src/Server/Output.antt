-- ===== src/Server/Output.antt =====
-- The state of `RTSP_Handler` (src/rtsp_server.h) and the output functions of src/rtsp_server.cpp. The
-- engine that it shares with the other sessions is part of its state; `new RTP_Client` takes the
-- next number as the address.
use wifi_audio.Common.{
  ℕ, ◌+◌, ◌<◌, ◌≡◌, Bool, List, [], ◌∷◌, ◌++◌, Option, none, some, Bytes, ◌==◌, if◌then◌else◌,
  length, codes, ℤ, pos, negsuc, signed32,
}
use wifi_audio.Codec.{CodecInfo}
use wifi_audio.Libc.Printf.{Arg, num, str, printf}
use wifi_audio.Rtp.Links.{Links}
use wifi_audio.Rtp.Engine.{RtpEngine, update, new_client}
use wifi_audio.Rtp.Engine
use wifi_audio.Rtsp.Types.{RtspHeader, response_lut, e_ok}
use wifi_audio.Rtsp.Parser.{Luts}

-- What the handler uses of panglos and of the sockets.
pub record Platform : Type 0 where
  pub luts : Luts
  -- `FmtOut::printf`
  pub fmt_printf : Bytes → List Arg → Bytes
  pub fmt_printf-printf : (fmt : Bytes) (args : List Arg) → fmt_printf fmt args ≡ printf fmt args
  -- The contents of the 1024 byte `CharOut` after a text is printed to it.
  pub char_out : Bytes → Bytes → Bytes
  pub char_out_fits :
      (out text : Bytes) → length out + length text < 1024 → char_out out text ≡ out ++ text
  -- Does `Socket::open_udp` give a socket for this address and port?
  pub open_udp : Bytes → Bytes → Bool
  pub get_fd : ℤ
  -- The peer's address as text, none if `getpeername` fails.
  pub peer_name : ℤ → Option Bytes

pub record RtspHandler (k : Links) : Type 0 where
  pub engine : RtpEngine k
  pub last_error : ℕ
  pub session_id : ℕ
  pub session_version : ℕ
  pub ip_addr : Bytes
  pub out : Bytes
  pub rtp_client : Option ℕ
  pub codec : CodecInfo
  -- What was sent to the RTSP socket, the latest reply first.
  pub replies : List Bytes
  -- Where each RTP client's socket was connected to: the client, the address and the port.
  pub connects : List (ℕ × Option Bytes × Bytes)
  pub next_client : ℕ

unfoldable pub create_handler :
    {k : Links} → RtpEngine k → CodecInfo → Bytes → ℕ → ℕ → RtspHandler k
create_handler engine codec ip sid next = record {
  engine = engine;
  last_error = e_ok;
  session_id = sid;
  session_version = 1;
  ip_addr = ip;
  out = [];
  rtp_client = none;
  codec = codec;
  replies = [];
  connects = [];
  next_client = next;
}

-- A simulated socket has no descriptor, and gets a made up address.
unfoldable pub get_ip : Platform → Option Bytes
get_ip platform = elim platform.get_fd [
  | pos n ↦ if n == 0 then some (codes "1.2.3.4") else platform.peer_name (pos n)
  | negsuc n ↦ some (codes "1.2.3.4")
]

module _ {k : Links} where
  unfoldable pub flush : RtspHandler k → RtspHandler k
  flush h = record h { replies = h.out ∷ h.replies; out = [] }

  unfoldable pub terminate : RtspHandler k → RtspHandler k
  terminate h = record h { engine = Engine.remove h.engine h.rtp_client }

module _ {k : Links} (platform : Platform) where
  open platform use {luts, char_out, fmt_printf}

  -- `fmt->printf`
  unfoldable pub print : Bytes → List Arg → RtspHandler k → RtspHandler k
  print fmt args h = record h { out = char_out h.out (fmt_printf fmt args) }

  -- `fmt->tx`, for each byte of a text.
  unfoldable pub print_bytes : Bytes → RtspHandler k → RtspHandler k
  print_bytes [] h = h
  print_bytes (c ∷ cs) h = print_bytes cs (record h { out = char_out h.out (c ∷ []) })

  -- The lines that start each successful reply.
  unfoldable pub common : RtspHeader → Bool → RtspHandler k → RtspHandler k
  unfolding print
  common hdrs sid h =
      let h1 =
        print (codes "RTSP/1.0 %d %s\r\n") (num (pos e_ok) ∷ str (luts.lut response_lut e_ok) ∷ [])
          h in
      let h2 = print (codes "CSeq: %d\r\n") (num hdrs.cseq ∷ []) h1 in
      if sid then print (codes "Session: %d\r\n") (num (signed32 h.session_id) ∷ []) h2 else h2

  unfoldable pub send_error : Option RtspHeader → ℕ → RtspHandler k → ℕ × RtspHandler k
  unfolding print flush
  send_error hdrs code h =
      let h1 =
        print (codes "RTSP/1.0 %d %s\r\n") (num (pos code) ∷ str (luts.lut response_lut code) ∷ [])
          h in
      let h2 : RtspHandler k = elim hdrs [
        | none ↦ h1
        | some r ↦ print (codes "CSeq: %d\r\n") (num r.cseq ∷ []) h1
      ] in
      (code, record (flush (print (codes "\r\n") [] h2)) { last_error = code })
