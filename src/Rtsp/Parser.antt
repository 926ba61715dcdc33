-- ===== src/Rtsp/Parser.antt =====
-- `Parser` of src/rtsp.cpp: one request, from its first line to the call of the handler.
pub mod Rule
use wifi_audio.Common.{
  ℕ, Bool, true, false, not, List, [], ◌∷◌, Option, none, some, Bytes, ◌==◌, if◌then◌else◌, ◌&&◌,
  codes, Outcome, ret, fault, Fault, ◌>>=◌, ◌≡◌,
}
use wifi_audio.Libc.Strings.{strtok, str_eq, str_eq_nocase}
use wifi_audio.Rtsp.Types.{
  RtspCommand, RtspHeader, zero_header, command_code, Lut, cmd_lut, cmd_plus_lut, unsupported_cmds,
  e_ok, e_bad_request, e_method_not_valid, e_not_implemented, e_version_not_supported,
}
use wifi_audio.Rtsp.Lines.{getline, line_parser}
use wifi_audio.Rtsp.Headers.{read_headers}

-- The first entry of a table for a text.
abbrev pub text_value : Lut → Bytes → Option ℕ
text_value [] s = none
text_value ((text, v) ∷ t) s = if str_eq text s then some v else text_value t s

-- The first text of a table for a value.
abbrev pub value_text : Lut → ℕ → Option Bytes
value_text [] v = none
value_text ((text, w) ∷ t) v = if w == v then some text else value_text t v

-- The table functions of the panglos library, which are not part of this repository.
pub record Luts : Type 0 where
  pub lut : Lut → ℕ → Bytes
  pub rlut : Lut → Bytes → ℕ
  pub lut-value_text : (t : Lut) (v : ℕ) (s : Bytes) → value_text t v ≡ some s → lut t v ≡ s
  pub rlut-text_value : (t : Lut) (s : Bytes) (v : ℕ) → text_value t s ≡ some v → rlut t s ≡ v

-- `RTSP_Session::Handler`, over the state `H` of an implementation.
pub record Handler (H : Type 0) : Type 0 where
  pub error : ℕ → H → RtspCommand × H
  pub command : RtspCommand → Option Bytes → RtspHeader → ℕ → H → Outcome (ℕ × H)

abbrev pub command_eq : RtspCommand → RtspCommand → Bool
command_eq a b = command_code a == command_code b

-- The cast of a table's number to the enumeration. Another number, which is in no table of the source and
-- would stop at an ASSERT, is no command here.
abbrev pub to_command : ℕ → RtspCommand
to_command v =
    if v == 1
    then RtspCommand.options
    else if v == 2
    then RtspCommand.describe
    else if v == 3
    then RtspCommand.setup
    else if v == 4
    then RtspCommand.pause
    else if v == 5
    then RtspCommand.play
    else if v == 6
    then RtspCommand.teardown
    else if v == 7
    then RtspCommand.kill
    else RtspCommand.unknown

unfoldable pub unsupported_in : List Bytes → Bytes → Bool
unsupported_in [] cmd = false
unsupported_in (s ∷ rest) cmd = if str_eq_nocase s cmd then true else unsupported_in rest cmd

unfoldable pub unsupported : Bytes → Bool
unfolding unsupported_in
unsupported = unsupported_in unsupported_cmds

unfoldable pub is_allowable : List RtspCommand → RtspCommand → Bool
is_allowable [] cmd = false
is_allowable (c ∷ rest) cmd = if command_eq c cmd then true else is_allowable rest cmd

module _ {H : Type 0} (luts : Luts) (handler : Handler H) where
  -- A refused header is not an error: the command is handled with what was read so far.
  unfoldable pub parse_command :
      Bytes → Option Bytes → RtspCommand → ℕ → H → Outcome (RtspCommand × H)
  parse_command lp uri cmd error_code h = read_headers lp zero_header >>= λ r.
      handler.command cmd uri r.1 error_code h >>= λ c.
      ret (if c.0 == e_ok && error_code == e_ok then cmd else RtspCommand.unknown, c.1)

  abbrev pub bad_request : H → Outcome (RtspCommand × H)
  bad_request h = ret (handler.error e_bad_request h)

  -- The commands of the table, and those of the second table.
  unfoldable pub command_of : Bytes → RtspCommand
  command_of cmd =
      let first = to_command (luts.rlut cmd_lut cmd) in
      if command_eq first RtspCommand.unknown
      then to_command (luts.rlut cmd_plus_lut cmd)
      else first

  -- The switch over the command.
  unfoldable pub dispatch : Bytes → Option Bytes → RtspCommand → ℕ → H → Outcome (RtspCommand × H)
  unfolding parse_command
  dispatch lp uri RtspCommand.kill code h = parse_command lp uri RtspCommand.kill e_ok h
  dispatch lp uri RtspCommand.unknown code h = bad_request h
  dispatch lp uri cmd code h = parse_command lp uri cmd code h

  abbrev pub uri_code : Option Bytes → ℕ → ℕ
  uri_code none code = e_bad_request
  uri_code (some uri) code = code

  abbrev pub version_code : Bytes → ℕ → ℕ
  version_code version code =
      if str_eq version (codes "RTSP/1.0") then code else e_version_not_supported

  -- The version, and with it the final code. A missing version is a null pointer that `strcmp` reads.
  abbrev pub with_version :
      Bytes → RtspCommand → ℕ → Option Bytes → Option Bytes → H → Outcome (RtspCommand × H)
  with_version lp cmd code uri none h = fault Fault.null_pointer
  with_version lp cmd code uri (some version) h = dispatch lp uri cmd (version_code version code) h

  -- The rest of the first line, behind the command.
  unfoldable pub parse_line :
      List RtspCommand → Bytes → RtspCommand → ℕ → Bytes → H → Outcome (RtspCommand × H)
  unfolding is_allowable strtok dispatch
  parse_line allowable lp cmd code save h =
      let code1 =
        if code == e_ok && not (is_allowable allowable cmd) then e_method_not_valid else code in
      let (uri, save1) = strtok b' ' save in
      with_version lp cmd (uri_code uri code1) uri (strtok b' ' save1).0 h

  -- An unknown command is an error at once, unless it is one of those known to be unsupported.
  unfoldable pub parse_first :
      List RtspCommand → Bytes → Bytes → Bytes → H → Outcome (RtspCommand × H)
  unfolding command_of unsupported parse_line
  parse_first allowable lp cmd save h =
      let c = command_of cmd in
      if command_eq c RtspCommand.unknown
      then (if unsupported cmd
          then parse_line allowable lp c e_not_implemented save h
          else bad_request h)
      else parse_line allowable lp c e_ok save h

  -- A first line without a word sends an error and goes on with a null command.
  abbrev pub on_command :
      List RtspCommand → Bytes → Option Bytes × Bytes → H → Outcome (RtspCommand × H)
  on_command allowable lp (none, save) h = fault Fault.null_pointer
  on_command allowable lp (some cmd, save) h = parse_first allowable lp cmd save h

  abbrev pub on_line : List RtspCommand → Option Bytes × Bytes → H → Outcome (RtspCommand × H)
  on_line allowable (none, lp) h = bad_request h
  on_line allowable (some line, lp) h = on_command allowable lp (strtok b' ' line) h

  unfoldable pub parse : List RtspCommand → Bytes → H → Outcome (RtspCommand × H)
  unfolding line_parser getline strtok parse_first
  parse allowable [] h = bad_request h
  parse allowable (b ∷ bytes) h =
      line_parser (b ∷ bytes) >>= λ lp. getline lp >>= λ r. on_line allowable r h
