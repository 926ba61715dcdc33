-- ===== src/Rtsp/Headers/Safe.antt =====
-- The parts of the parser and their assertions, for any bytes.
use wifi_audio.Common.{
  ℕ, zero, suc, inl, inr, Bool, true, false, [], ◌∷◌, Option, none, some, Bytes, Option-cases,
  length, codes, Outcome, returns, stops, Ensures-bind, Ensures-if, NoAssert,
  out_of_bounds-NotAssertion, out_of_fuel-NotAssertion, suc, ltb, ◌&&◌,
}
use wifi_audio.Libc.Strings.{strtok, starts_with, starts_with_nocase}
use wifi_audio.Rtsp.Types.{RtspHeader}
use wifi_audio.Rtsp.Lines.{getline, line_parser, skip_crlfs, scan, crlf}
use wifi_audio.Rtsp.Headers.{
  read_cseq, read_session, accepts_sdp, read_header, behind_header, on_word, on_line, read_lines,
  read_headers,
}
use wifi_audio.Rtsp.Transport.Specs.{parse_transport}

pub getline-NoAssert : (s : Bytes) → NoAssert (getline s)
unfolding getline
getline-NoAssert [] = returns tt
getline-NoAssert (c ∷ []) = stops out_of_bounds-NotAssertion
getline-NoAssert (c ∷ d ∷ more) = elim (Option-cases (scan (c ∷ d ∷ more))) [
  | inl e ↦ rw (e, getline) (returns tt)
  | inr (s, e) ↦ rw (e, getline) (returns tt)
]

skip_crlfs-NoAssert : (fuel : ℕ) (s : Bytes) → NoAssert (skip_crlfs fuel s)
unfolding skip_crlfs
skip_crlfs-NoAssert zero s = stops out_of_fuel-NotAssertion
skip_crlfs-NoAssert (suc fuel) s =
    Ensures-if (ltb 2 (length s) && starts_with crlf s)
      (Ensures-bind _ (getline-NoAssert s) (λ r u. skip_crlfs-NoAssert fuel r.1)) (returns tt)

pub line_parser-NoAssert : (s : Bytes) → NoAssert (line_parser s)
unfolding line_parser
line_parser-NoAssert s = skip_crlfs-NoAssert (suc (length s)) s

parse_transport-NoAssert : (hdr : RtspHeader) (save : Bytes) → NoAssert (parse_transport hdr save)
unfolding parse_transport
parse_transport-NoAssert hdr save =
    Ensures-if (ltb (length save) 4) (stops out_of_bounds-NotAssertion) (returns tt)

read_header-NoAssert :
    (hdr : RtspHeader) (header save : Bytes) → NoAssert (read_header hdr header save)
unfolding read_header
read_header-NoAssert hdr header save =
    let is = λ (name : Bytes). starts_with_nocase name header in
    Ensures-if (is (codes "CSeq:")) (returns {a = read_cseq hdr save} tt) (
      Ensures-if (is (codes "Session:")) (returns {a = read_session hdr save} tt) (
        Ensures-if (is (codes "Accept:"))
          (returns {a = (true, record hdr { accept_sdp = accepts_sdp (suc (length save)) save })}
            tt)
          (Ensures-if (is (codes "Transport:")) (parse_transport-NoAssert hdr save)
            (returns {a = (true, hdr)} tt))))

module _ (loop : Bytes → RtspHeader → Outcome (Bool × RtspHeader))
    (ih : (lp : Bytes) (hdr : RtspHeader) → NoAssert (loop lp hdr)) where
  behind_header-NoAssert :
      (lp : Bytes) (r : Bool × RtspHeader) → NoAssert (behind_header (loop lp) r)
  behind_header-NoAssert lp (true, hdr) = ih lp hdr
  behind_header-NoAssert lp (false, hdr) = returns tt

  on_word-NoAssert :
      (lp : Bytes) (hdr : RtspHeader) (w : Option Bytes × Bytes)
      → NoAssert (on_word (loop lp) hdr w)
  on_word-NoAssert lp hdr (none, save) = returns tt
  on_word-NoAssert lp hdr (some name, save) =
      Ensures-bind _ (read_header-NoAssert hdr name save) (λ r u. behind_header-NoAssert lp r)

  on_line-NoAssert : (hdr : RtspHeader) (r : Option Bytes × Bytes) → NoAssert (on_line loop hdr r)
  on_line-NoAssert hdr (none, lp) = returns tt
  on_line-NoAssert hdr (some line, lp) = on_word-NoAssert lp hdr (strtok b' ' line)

read_lines-NoAssert : (fuel : ℕ) (lp : Bytes) (hdr : RtspHeader) → NoAssert (read_lines fuel lp hdr)
unfolding read_lines
read_lines-NoAssert zero lp hdr = returns tt
read_lines-NoAssert (suc fuel) lp hdr =
    Ensures-bind _ (getline-NoAssert lp)
      (λ r u. on_line-NoAssert (read_lines fuel) (read_lines-NoAssert fuel) hdr r)

pub read_headers-NoAssert : (lp : Bytes) (hdr : RtspHeader) → NoAssert (read_headers lp hdr)
unfolding read_headers
read_headers-NoAssert lp hdr = read_lines-NoAssert (suc (length lp)) lp _
