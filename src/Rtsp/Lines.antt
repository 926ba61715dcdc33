-- ===== src/Rtsp/Lines.antt =====
-- `LineParser` of src/rtsp.cpp. Its state is the part of the request that is not read yet.
pub mod Safe
pub mod Printed
use wifi_audio.Common.{
  ℕ, zero, suc, ◌+◌, Bool, true, false, ◌&&◌, List, [], ◌∷◌, Option, none, some, Bytes, ltb, ◌==◌,
  if◌then◌else◌, length, Outcome, ret, fault, Fault, ◌>>=◌,
}
use wifi_audio.Libc.Strings.{c_str, starts_with}

abbrev pub crlf : Bytes
crlf = b'\r' ∷ b'\n' ∷ []

-- A line is found only if a byte follows its CR LF: the loop stops before `size - 2`.
pub record Split : Type 0 where
  pub line : Bytes
  pub rest : Bytes

abbrev pub put_front : ℕ → Option Split → Option Split
put_front c none = none
put_front c (some s) = some (record s { line = c ∷ s.line })

unfoldable pub scan : Bytes → Option Split
scan (c ∷ d ∷ e ∷ more) =
    if c == b'\r' && d == b'\n'
    then some (record { line = []; rest = e ∷ more })
    else put_front c (scan (d ∷ e ∷ more))
scan _ = none

-- One byte makes `size - 2` wrap round, and the loop reads past the end of the buffer.
unfoldable pub getline : Bytes → Outcome (Option Bytes × Bytes)
unfolding scan
getline [] = ret (none, [])
getline (c ∷ []) = fault Fault.out_of_bounds
getline (c ∷ d ∷ more) = elim (scan (c ∷ d ∷ more)) [
  | none ↦ ret (none, c ∷ d ∷ more)
  | some s ↦ ret (some (c_str s.line), s.rest)
]

-- The loop of the constructor, which drops leading empty lines; the fuel bounds the rounds.
unfoldable pub skip_crlfs : ℕ → Bytes → Outcome Bytes
unfolding getline
skip_crlfs zero bytes = fault Fault.out_of_fuel
skip_crlfs (suc fuel) bytes =
    let more = getline bytes >>= λ r. skip_crlfs fuel r.1 in
    if ltb 2 (length bytes) && starts_with crlf bytes then more else ret bytes

unfoldable pub line_parser : Bytes → Outcome Bytes
unfolding skip_crlfs
line_parser bytes = skip_crlfs (suc (length bytes)) bytes
