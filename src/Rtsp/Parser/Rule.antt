-- ===== src/Rtsp/Parser/Rule.antt =====
-- What the parser does to a handler, whatever the request says: a rule for proofs about whole requests.

use wifi_audio.Common.{
  ℕ, ◌≡◌, ◌≢◌, refl, ◌⊎◌, inl, inr, true, not, ◌&&◌, List, [], ◌∷◌, Option, none, some, Bytes,
  arith, ◌==◌, if◌then◌else◌, Outcome, Fault, returns, stops, Ensures-bind, Ensures-if, Ensures,
  NotAssertion, NoAssert, Ensures-weaken,
}
use wifi_audio.Rtsp.Types.{
  RtspCommand, RtspHeader, zero_header, e_ok, e_bad_request, e_not_implemented, e_method_not_valid,
}
use wifi_audio.Libc.Strings.{strtok}
use wifi_audio.Rtsp.Headers.Safe.{read_headers-NoAssert, getline-NoAssert, line_parser-NoAssert}
use wifi_audio.Rtsp.Parser.{
  Luts, Handler, parse, parse_command, parse_first, parse_line, dispatch, is_allowable, bad_request,
  with_version, version_code, uri_code, on_command, on_line,
}

-- A command that runs without an error is in the list, or is KILL.
abbrev pub Permitted : List RtspCommand → RtspCommand → Type 0
Permitted cmds cmd = (cmd ≡ RtspCommand.kill) ⊎ (is_allowable cmds cmd ≡ true)

-- The command that the parser reports.
abbrev pub reported : RtspCommand → ℕ → ℕ → RtspCommand
reported cmd error_code code =
    if code == e_ok && error_code == e_ok then cmd else RtspCommand.unknown

-- What a proof has to show of the handler's two operations: `P` holds before the request, and `R` of
-- the command that is reported and the state after it.
pub record Keeps {H : Type 0} (E : Fault → Type 0) (handler : Handler H) (P : H → Type 0)
    (R : RtspCommand → H → Type 0) (cmds : List RtspCommand) : Type 0 where
  pub on_error : (h : H) (code : ℕ) → P h → R (handler.error code h).0 (handler.error code h).1
  pub on_command :
      (h : H) (cmd : RtspCommand) (uri : Option Bytes) (hdr : RtspHeader) (code : ℕ)
      → P h
      → cmd ≢ RtspCommand.unknown
      → (code ≡ e_ok → Permitted cmds cmd)
      → Ensures E (λ r. R (reported cmd code r.0) r.1) (handler.command cmd uri hdr code h)

module _ {H : Type 0} {E : Fault → Type 0} (weaker : (e : Fault) → NotAssertion e → E e)
    (luts : Luts) (handler : Handler H) (P : H → Type 0) (R : RtspCommand → H → Type 0)
    (cmds : List RtspCommand) (keeps : Keeps E handler P R cmds) where
  abbrev Kept : Outcome (RtspCommand × H) → Type 0
  Kept = Ensures E (λ r. R r.0 r.1)

  allowed : {A : Type 0} {m : Outcome A} → NoAssert m → Ensures E (λ a. Unit {0}) m
  allowed = Ensures-weaken weaker (λ a u. u)

  bad_request-Kept : (h : H) → P h → Kept (bad_request luts handler h)
  bad_request-Kept h p = returns (keeps.on_error h e_bad_request p)

  parse_command-Kept :
      (lp : Bytes) (uri : Option Bytes) (cmd : RtspCommand) (code : ℕ) (h : H)
      → P h
      → cmd ≢ RtspCommand.unknown
      → (code ≡ e_ok → Permitted cmds cmd)
      → Kept (parse_command luts handler lp uri cmd code h)
  unfolding parse_command
  parse_command-Kept lp uri cmd code h p known ok =
      Ensures-bind _ (allowed (read_headers-NoAssert lp zero_header))
        λ r u. Ensures-bind _ (keeps.on_command h cmd uri r.1 code p known ok) λ c q. returns q

  dispatch-Kept :
      (lp : Bytes) (uri : Option Bytes) (cmd : RtspCommand) (code : ℕ) (h : H)
      → P h
      → (code ≡ e_ok → Permitted cmds cmd)
      → Kept (dispatch luts handler lp uri cmd code h)
  unfolding dispatch
  dispatch-Kept lp uri RtspCommand.kill code h p ok =
      parse_command-Kept lp uri RtspCommand.kill e_ok h p (λ e. cc) (λ e. inl refl)
  dispatch-Kept lp uri RtspCommand.unknown code h p ok = bad_request-Kept h p
  dispatch-Kept lp uri cmd code h p ok = parse_command-Kept lp uri cmd code h p (λ e. cc) ok

  parse_line-Kept :
      (lp : Bytes) (cmd : RtspCommand) (code : ℕ) (save : Bytes) (h : H)
      → P h
      → Kept (parse_line luts handler cmds lp cmd code save h)
  unfolding parse_line
  parse_line-Kept lp cmd code save h p =
      finish (strtok b' ' save).0 (strtok b' ' (strtok b' ' save).1).0
    where
      code1 : ℕ
      code1 = if code == e_ok && not (is_allowable cmds cmd) then e_method_not_valid else code

      only_permitted :
          (uri : Option Bytes) (v : Bytes)
          → version_code luts handler v (uri_code luts handler uri code1) ≡ e_ok
          → is_allowable cmds cmd ≡ true
      only_permitted none v e = ground arith
      only_permitted (some u) v e = ground arith

      finish :
          (uri version : Option Bytes)
          → Kept (with_version luts handler lp cmd (uri_code luts handler uri code1) uri version h)
      finish uri none = stops (weaker Fault.null_pointer (λ e. cc))
      finish uri (some v) = dispatch-Kept lp uri cmd _ h p (λ e. inr (only_permitted uri v e))

  parse_first-Kept :
      (lp cmd save : Bytes) (h : H) → P h → Kept (parse_first luts handler cmds lp cmd save h)
  unfolding parse_first
  parse_first-Kept lp cmd save h p =
      Ensures-if _
        (Ensures-if _ (parse_line-Kept lp _ e_not_implemented save h p) (bad_request-Kept h p))
        (parse_line-Kept lp _ e_ok save h p)

  on_command-Kept :
      (lp : Bytes) (w : Option Bytes × Bytes) (h : H)
      → P h
      → Kept (on_command luts handler cmds lp w h)
  on_command-Kept lp (none, save) h p = stops (weaker Fault.null_pointer (λ e. cc))
  on_command-Kept lp (some cmd, save) h p = parse_first-Kept lp cmd save h p

  on_line-Kept : (r : Option Bytes × Bytes) (h : H) → P h → Kept (on_line luts handler cmds r h)
  on_line-Kept (none, lp) h p = bad_request-Kept h p
  on_line-Kept (some line, lp) h p = on_command-Kept lp (strtok b' ' line) h p

  -- Whatever the request says: the handler is called at most once, for an error or for a known
  -- command, and without an error only for KILL or a command that the state permits; no ASSERT of
  -- the parser fails.
  pub parse-Keeps : (bytes : Bytes) (h : H) → P h → Kept (parse luts handler cmds bytes h)
  unfolding parse
  parse-Keeps [] h p = bad_request-Kept h p
  parse-Keeps (b ∷ bytes) h p =
      Ensures-bind _ (allowed (line_parser-NoAssert (b ∷ bytes)))
        λ lp u. Ensures-bind _ (allowed (getline-NoAssert lp)) λ r v. on_line-Kept r h p
