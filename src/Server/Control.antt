-- ===== src/Server/Control.antt =====
-- The session identifiers and the statistics command of src/server.cpp, and the `Factory` of
-- src/rtsp_server.cpp.
pub mod Listing
pub mod Identifiers
use wifi_audio.Common.{
  ℕ, zero, suc, ◌+◌, ◌%◌, ◌^◌, Bool, true, false, not, List, [], ◌∷◌, ◌++◌, Option, none, some,
  Bytes, ℤ, if◌then◌else◌,
}
use wifi_audio.Codec.{CodecInfo}
use wifi_audio.Codec.Registry.{Register}
use wifi_audio.Rtp.Engine.{RtpEngine, RtpClient, get_num_clients, get_client}
use wifi_audio.Rtp.Links.{Links}
use wifi_audio.Rtsp.Session.{Session, create_session}
use wifi_audio.Server.Output.{RtspHandler, create_handler}

-- `SID`: the value of its static variable.
unfoldable pub first_sid : ℕ
first_sid = 1111

unfoldable pub generate : ℕ → ℕ × ℕ
generate sid = (sid, (sid + 1) % 2 ^ 32)

-- `sid_gen` is the state of the generator, if there is one.
pub record Factory : Type 0 where
  pub ip : Bytes
  pub codec : CodecInfo
  pub cb : Bool
  pub sid_gen : Option ℕ

abbrev pub next_sid : Option ℕ → ℕ × Option ℕ
next_sid none = (12345, none)
next_sid (some g) = let (sid, g1) = generate g in (sid, some g1)

-- The session and the handler of a new client; `next` is the address of its first RTP client.
unfoldable pub create_client :
    {k : Links} → RtpEngine k → ℕ → Factory → (Session × RtspHandler k) × Factory
unfolding generate
create_client engine next f =
    let (sid, g) = next_sid f.sid_gen in
    ((create_session f.cb, create_handler engine f.codec f.ip sid next), record f { sid_gen = g })

-- What `cmd_rtp` prints: the number of clients, a client with its counters, the I2S counters.
pub data Line : Type 0 where
  client_count : ℕ → Line
  client_stats : ℕ → RtpClient → Line
  i2s_stats : ℤ → ℤ → Line

abbrev pub i2s_lines : Option (ℤ × ℤ) → List Line
i2s_lines none = []
i2s_lines (some (bytes, errors)) = Line.i2s_stats bytes errors ∷ []

module _ {k : Links} where
  -- The loop, from `idx` on; the first argument is the number of rounds that are left.
  unfoldable pub client_lines : ℕ → ℕ → RtpEngine k → List Line
  client_lines zero idx e = []
  client_lines (suc n) idx e =
      let rest = client_lines n (suc idx) e in
      elim (get_client e idx) [ none ↦ rest | some c ↦ Line.client_stats c (e.clients c) ∷ rest ]

  unfoldable pub cmd_rtp : RtpEngine k → Option (ℤ × ℤ) → List Line
  unfolding client_lines
  cmd_rtp e i2s =
      let num = get_num_clients e in Line.client_count num ∷ client_lines num 0 e ++ i2s_lines i2s

-- What `cmd_codec` prints.
pub data CodecLine : Type 0 where
  available_codecs : CodecLine
  codec_name : Bytes → CodecLine
  no_codecs : CodecLine
  installed_codec : Bytes → CodecLine
  none_installed : CodecLine

abbrev installed_line : Option Bytes → CodecLine
installed_line none = CodecLine.none_installed
installed_line (some name) = CodecLine.installed_codec name

module _ {C : Type 0} where
  -- The loop; `found` says that there was a codec before.
  unfoldable pub codec_lines : Bool → List (Register C) → List CodecLine
  codec_lines found [] = if not found then CodecLine.no_codecs ∷ [] else []
  codec_lines found (r ∷ rs) =
      let rest = CodecLine.codec_name r.name ∷ codec_lines true rs in
      if not found then CodecLine.available_codecs ∷ rest else rest

  unfoldable pub cmd_codec : List (Register C) → Option Bytes → List CodecLine
  unfolding codec_lines
  cmd_codec codecs codec = codec_lines false codecs ++ installed_line codec ∷ []
