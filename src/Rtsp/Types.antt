-- ===== src/Rtsp/Types.antt =====
-- src/rtsp.h: response codes, commands, states and the parsed header.
use wifi_audio.Common.{ℕ, Bool, false, List, [], ◌∷◌, Bytes, codes, replicate, ℤ, pos}

-- `enum RTSP_ErrorCodes`
abbrev pub e_ok : ℕ
e_ok = 200

abbrev pub e_bad_request : ℕ
e_bad_request = 400

abbrev pub e_unsupported_media_type : ℕ
e_unsupported_media_type = 415

abbrev pub e_method_not_valid : ℕ
e_method_not_valid = 455

abbrev pub e_unsupported_transport : ℕ
e_unsupported_transport = 461

abbrev pub e_not_implemented : ℕ
e_not_implemented = 501

abbrev pub e_version_not_supported : ℕ
e_version_not_supported = 505

pub record IpAddr : Type 0 where
  pub octets : Bytes

-- A pair of numbers, `int values[2]`.
pub record Range : Type 0 where
  pub first : ℤ
  pub second : ℤ

pub record Transport : Type 0 where
  pub transport : Bytes
  pub mode : Bytes
  pub ttl : ℤ
  pub ssrc : ℤ
  pub rtp : Bool
  pub unicast : Bool
  pub rtcp_mux : Bool
  pub client_port : Range
  pub server_port : Range
  pub interleaved : Range
  pub port : Range
  pub destination : IpAddr
  pub source : IpAddr
  pub src_addr : IpAddr × IpAddr
  pub dest_addr : IpAddr × IpAddr

abbrev pub max_transports : ℕ
max_transports = 3

pub record RtspHeader : Type 0 where
  pub cseq : ℤ
  pub session_id : ℕ
  pub accept_sdp : Bool
  pub transport : List Transport

abbrev pub zero_range : Range
zero_range = record { first = pos 0; second = pos 0 }

abbrev pub zero_addr : IpAddr
zero_addr = record { octets = 0 ∷ 0 ∷ 0 ∷ 0 ∷ [] }

-- `= { 0 }`: a null name is the empty text here.
abbrev pub zero_transport : Transport
zero_transport = record {
  transport = [];
  mode = [];
  ttl = pos 0;
  ssrc = pos 0;
  rtp = false;
  unicast = false;
  rtcp_mux = false;
  client_port = zero_range;
  server_port = zero_range;
  interleaved = zero_range;
  port = zero_range;
  destination = zero_addr;
  source = zero_addr;
  src_addr = (zero_addr, zero_addr);
  dest_addr = (zero_addr, zero_addr);
}

abbrev pub zero_header : RtspHeader
zero_header = record {
  cseq = pos 0;
  session_id = 0;
  accept_sdp = false;
  transport = replicate max_transports zero_transport;
}

pub data RtspCommand : Type 0 where
  unknown options describe setup pause play teardown kill : RtspCommand

pub data State : Type 0 where
  init ready playing dead : State

-- The numbers of the enumeration, as the tables of commands hold them.
abbrev pub command_code : RtspCommand → ℕ
command_code unknown = 0
command_code options = 1
command_code describe = 2
command_code setup = 3
command_code pause = 4
command_code play = 5
command_code teardown = 6
command_code kill = 7

-- A table of texts with their values (panglos `LUT`), without the null entry at its end.
abbrev pub Lut : Type 0
Lut = List (Bytes × ℕ)

abbrev pub cmd_lut : Lut
cmd_lut =
    (codes "OPTIONS", 1)
    ∷ (codes "DESCRIBE", 2)
    ∷ (codes "SETUP", 3)
    ∷ (codes "PAUSE", 4)
    ∷ (codes "PLAY", 5)
    ∷ (codes "TEARDOWN", 6)
    ∷ []

abbrev pub cmd_plus_lut : Lut
cmd_plus_lut = (codes "KILL", 7) ∷ []

-- The commands that are valid in RTSP and not supported here.
abbrev pub unsupported_cmds : List Bytes
unsupported_cmds =
    codes "ANNOUNCE"
    ∷ codes "GET_PARAMETER"
    ∷ codes "PLAY_NOTIFY"
    ∷ codes "RECORD"
    ∷ codes "REDIRECT"
    ∷ codes "SET_PARAMETER"
    ∷ []

abbrev pub response_lut : Lut
response_lut =
    (codes "OK", 200)
    ∷ (codes "Continue", 100)
    ∷ (codes "Moved Permanently", 301)
    ∷ (codes "Found", 302)
    ∷ (codes "See Other", 303)
    ∷ (codes "Not Modified", 304)
    ∷ (codes "Use Proxy", 305)
    ∷ (codes "Bad Request", 400)
    ∷ (codes "Unauthorized", 401)
    ∷ (codes "Payment Required", 402)
    ∷ (codes "Forbidden", 403)
    ∷ (codes "Not Found", 404)
    ∷ (codes "Method Not Allowed", 405)
    ∷ (codes "Not Acceptable", 406)
    ∷ (codes "Proxy Authentication Required", 407)
    ∷ (codes "Request Timeout", 408)
    ∷ (codes "Gone", 410)
    ∷ (codes "Precondition Failed", 412)
    ∷ (codes "Request Message Body Too Large", 413)
    ∷ (codes "Request-URI Too Long", 414)
    ∷ (codes "Unsupported Media Type", 415)
    ∷ (codes "Parameter Not Understood", 451)
    ∷ (codes "Not Enough Bandwidth", 453)
    ∷ (codes "Session Not Found", 454)
    ∷ (codes "Method Not Valid in This State", 455)
    ∷ (codes "Header Field Not Valid for Resource", 456)
    ∷ (codes "Invalid Range", 457)
    ∷ (codes "arameter Is Read-Only", 458)
    ∷ (codes "Aggregate Operation Not Allowed", 459)
    ∷ (codes "Only Aggregate Operation Allowed", 460)
    ∷ (codes "Unsupported Transport", 461)
    ∷ (codes "Destination Unreachable", 462)
    ∷ (codes "Destination Prohibited", 463)
    ∷ (codes "Data Transport Not Ready Yet", 464)
    ∷ (codes "Notification Reason Unknown", 465)
    ∷ (codes "Key Management Error", 466)
    ∷ (codes "Connection Authorization Required", 470)
    ∷ (codes "Connection Credentials Not Accepted", 471)
    ∷ (codes "Failure to Establish Secure Connection", 472)
    ∷ (codes "Internal Server Error", 500)
    ∷ (codes "Not Implemented", 501)
    ∷ (codes "Bad Gateway", 502)
    ∷ (codes "Service Unavailable", 503)
    ∷ (codes "Gateway Timeout", 504)
    ∷ (codes "RTSP Version Not Supported", 505)
    ∷ (codes "Option Not Supported", 551)
    ∷ (codes "Proxy Unavailable", 553)
    ∷ []
