-- ===== src/Rtsp/Headers.antt =====
-- `Parser::read_headers` of src/rtsp.cpp.
pub mod Safe
pub mod Printed
use wifi_audio.Common.{
  ℕ, zero, suc, Bool, true, false, Option, none, some, Bytes, if◌then◌else◌, codes, length,
  low_bits, Outcome, ret, ◌>>=◌,
}
use wifi_audio.Libc.Strings.{strtok, starts_with_nocase}
use wifi_audio.Rtsp.Types.{RtspHeader}
use wifi_audio.Rtsp.Lines.{getline}
use wifi_audio.Rtsp.Transport.{get_number}
use wifi_audio.Rtsp.Transport.Specs.{parse_transport}

-- The words of an `Accept:` header, until one is the SDP type. The fuel bounds their number.
unfoldable pub accepts_sdp : ℕ → Bytes → Bool
unfolding strtok
accepts_sdp zero save = false
accepts_sdp (suc fuel) save =
    let (word, rest) = strtok b' ' save in
    elim word [
      | none ↦ false
      | some s ↦
          let more = accepts_sdp fuel rest in
          if starts_with_nocase (codes "application/sdp") s then true else more
    ]

unfoldable pub read_cseq : RtspHeader → Bytes → Bool × RtspHeader
unfolding strtok get_number
read_cseq hdr save = elim (get_number (strtok b' ' save).0 10) [
  | none ↦ (false, hdr)
  | some (v, end) ↦ (true, record hdr { cseq = v })
]

unfoldable pub read_session : RtspHeader → Bytes → Bool × RtspHeader
unfolding strtok get_number
read_session hdr save = elim (get_number (strtok b' ' save).0 10) [
  | none ↦ (false, hdr)
  | some (v, end) ↦ (true, record hdr { session_id = low_bits 32 v })
]

-- One header line: its name and the text behind it. A header of another name is skipped.
unfoldable pub read_header : RtspHeader → Bytes → Bytes → Outcome (Bool × RtspHeader)
unfolding read_cseq read_session accepts_sdp parse_transport
read_header hdr header save =
    if starts_with_nocase (codes "CSeq:") header
    then ret (read_cseq hdr save)
    else if starts_with_nocase (codes "Session:") header
    then ret (read_session hdr save)
    else if starts_with_nocase (codes "Accept:") header
    then ret (true, record hdr { accept_sdp = accepts_sdp (suc (length save)) save })
    else if starts_with_nocase (codes "Transport:") header
    then parse_transport hdr save
    else ret (true, hdr)

-- The loop goes on behind a header that was read, and stops at one that is refused.
abbrev pub behind_header :
    (RtspHeader → Outcome (Bool × RtspHeader)) → Bool × RtspHeader → Outcome (Bool × RtspHeader)
behind_header loop (true, hdr) = loop hdr
behind_header loop (false, hdr) = ret (false, hdr)

-- The first word of a line, and the text behind it. A blank line ends the headers.
abbrev pub on_word :
    (RtspHeader → Outcome (Bool × RtspHeader))
    → RtspHeader
    → Option Bytes × Bytes
    → Outcome (Bool × RtspHeader)
on_word loop hdr (none, save) = ret (true, hdr)
on_word loop hdr (some name, save) = read_header hdr name save >>= behind_header loop

abbrev pub on_line :
    (Bytes → RtspHeader → Outcome (Bool × RtspHeader))
    → RtspHeader
    → Option Bytes × Bytes
    → Outcome (Bool × RtspHeader)
on_line loop hdr (none, lp) = ret (true, hdr)
on_line loop hdr (some line, lp) = on_word (loop lp) hdr (strtok b' ' line)

-- The loop over the lines. It ends at the last line, at a blank line, or where a header is refused.
-- The fuel bounds the number of lines.
unfoldable pub read_lines : ℕ → Bytes → RtspHeader → Outcome (Bool × RtspHeader)
unfolding getline strtok read_header
read_lines zero lp hdr = ret (true, hdr)
read_lines (suc fuel) lp hdr = getline lp >>= on_line (read_lines fuel) hdr

unfoldable pub read_headers : Bytes → RtspHeader → Outcome (Bool × RtspHeader)
unfolding read_lines
read_headers lp hdr = read_lines (suc (length lp)) lp (record hdr { accept_sdp = true })
