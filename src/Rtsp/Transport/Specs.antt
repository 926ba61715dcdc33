-- ===== src/Rtsp/Transport/Specs.antt =====
-- `Parser::parse_transport` of src/rtsp.cpp. The header's text is one buffer that the code cuts up by
-- writing NULs; `mem` is that buffer, and a pointer into it is an index.
use wifi_audio.Common.{
  ℕ, zero, suc, ◌+◌, ◌-◌, Bool, true, false, ◌||◌, List, [], ◌∷◌, Option, none, some, Bytes, ltb,
  leb, ◌==◌, if◌then◌else◌, length, drop, set, get_or, codes, Outcome, ret, fault, Fault,
}
use mathlib.Core.List.{reverse}
use wifi_audio.Libc.Strings.{c_str, skip, token_of, str_eq, starts_with}
use wifi_audio.Rtsp.Types.{Transport, RtspHeader, zero_transport, max_transports}
use wifi_audio.Rtsp.Transport.{parse_transport_option}

abbrev pub text_at : Bytes → ℕ → Bytes
text_at mem p = c_str (drop p mem)

pub record Token : Type 0 where
  pub start : Option ℕ
  pub save : ℕ
  pub mem : Bytes

-- `strtok_r` in place, from the token's first byte on: the delimiter behind the token becomes NUL.
abbrev pub cut_at : ℕ → Bytes → ℕ → Bytes → Token
cut_at d mem start [] = record { start = none; save = start; mem = mem }
cut_at d mem start (c ∷ cs) =
    let n = length (token_of d (c ∷ cs)) in
    if n == length (c ∷ cs)
    then record { start = some start; save = start + n; mem = mem }
    else record { start = some start; save = start + n + 1; mem = set mem (start + n) 0 }

unfoldable pub strtok_at : ℕ → Bytes → ℕ → Token
strtok_at d mem save =
    let s = text_at mem save in cut_at d mem (save + (length s - length (skip d s))) (skip d s)

-- Blanks and commas before the next spec become NULs, from `prev[si]` down to `prev[1]`.
unfoldable pub trim_tail : ℕ → ℕ → Bytes → Bytes
trim_tail zero prev mem = mem
trim_tail (suc si) prev mem =
    let c = get_or mem (prev + suc si) 0 in
    let more = trim_tail si prev (set mem (prev + suc si) 0) in
    if c == b' ' || c == b',' then more else mem

abbrev pub trim_last : List ℕ → ℕ → Bytes → Bytes
trim_last [] i mem = mem
trim_last (prev ∷ older) i mem = trim_tail (i - prev - 1) prev mem

-- The loop over `i`, with `n` rounds left; `lines` holds the specs found, the latest first.
unfoldable pub find_specs : ℕ → ℕ → List ℕ → Bytes → List ℕ × Bytes
unfolding trim_tail
find_specs zero i lines mem = (lines, mem)
find_specs (suc n) i lines mem =
    let trimmed = trim_last lines i mem in
    let found = find_specs n (suc i) (i ∷ lines) trimmed in
    let on = find_specs n (suc i) lines mem in
    if starts_with (codes "RTP/") (drop i mem)
    then (if leb max_transports (length lines + 1) then (i ∷ lines, trimmed) else found)
    else on

pub record Parsed : Type 0 where
  pub done : Bool
  pub hdr : Transport
  pub mem : Bytes

-- The options behind the first `;`, until one is refused. The fuel bounds their number.
unfoldable pub read_options : ℕ → Transport → ℕ → Bytes → Parsed
unfolding strtok_at
read_options zero t save mem = record { done = false; hdr = t; mem = mem }
read_options (suc fuel) t save mem =
    let token = strtok_at b';' mem save in
    elim token.start [
      | none ↦ record { done = true; hdr = t; mem = token.mem }
      | some p ↦
          let r = parse_transport_option t (text_at token.mem p) in
          let more = read_options fuel r.1 token.save token.mem in
          if r.0 then more else record { done = false; hdr = r.1; mem = token.mem }
    ]

-- The defaults of a spec.
abbrev pub default_spec : Transport → Transport
default_spec t = record t { transport = codes "UDP"; mode = codes "PLAY"; unicast = false }

-- `protocol/profile/lower-transport`: `rtp` is only ever set, and a missing last part keeps UDP.
abbrev pub is_rtp : Bytes → Option ℕ → Bool
is_rtp mem none = false
is_rtp mem (some p) = str_eq (codes "RTP") (text_at mem p)

abbrev pub lower_transport : Bytes → Option ℕ → Transport → Transport
lower_transport mem none t = t
lower_transport mem (some p) t = record t { transport = text_at mem p }

unfoldable pub read_protocol : Transport → Bytes → ℕ → Transport × Bytes
unfolding strtok_at
read_protocol t mem s =
    let protocol = strtok_at b'/' mem s in
    let profile = strtok_at b'/' protocol.mem protocol.save in
    let transport = strtok_at b'/' profile.mem profile.save in
    let t1 = record t { rtp = is_rtp protocol.mem protocol.start || t.rtp } in
    (lower_transport transport.mem transport.start t1, transport.mem)

unfoldable pub parse_spec : Transport → Bytes → ℕ → Parsed
unfolding read_protocol read_options
parse_spec t mem line =
    let first = strtok_at b';' mem line in
    elim first.start [
      | none ↦ record { done = true; hdr = default_spec t; mem = first.mem }
      | some s ↦
          let (t1, mem1) = read_protocol (default_spec t) first.mem s in
          read_options (suc (length mem1)) t1 first.save mem1
    ]

-- The specs in order, into `transport[0]`, `transport[1]`, …, until one is refused.
unfoldable pub parse_specs : List ℕ → ℕ → List Transport → Bytes → Bool × List Transport
unfolding parse_spec
parse_specs [] idx ts mem = (true, ts)
parse_specs (line ∷ lines) idx ts mem =
    let r = parse_spec (get_or ts idx zero_transport) mem line in
    let written = set ts idx r.hdr in
    let more = parse_specs lines (suc idx) written r.mem in
    if r.done then more else (false, written)

-- A text of less than four bytes makes `strlen(ss) - 4` wrap round: the scan runs past its end.
unfoldable pub parse_transport : RtspHeader → Bytes → Outcome (Bool × RtspHeader)
unfolding find_specs parse_specs
parse_transport hdr save =
    let (lines, mem) = find_specs (length save - 4) 0 [] save in
    let (done, ts) = parse_specs (reverse lines) 0 hdr.transport mem in
    if ltb (length save) 4
    then fault Fault.out_of_bounds
    else ret (done, record hdr { transport = ts })
