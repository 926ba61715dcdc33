-- ===== src/Rtsp/Transport.antt =====
-- `Parser::get_number`, `get_ipaddr` and `parse_transport_option` of src/rtsp.cpp. A result of false
-- comes with what was written before the failure.
pub mod Addresses
pub mod Specs
use wifi_audio.Common.{
  ℕ, zero, suc, ◌+◌, Bool, true, false, List, [], ◌∷◌, Option, none, some, Bytes, ◌==◌,
  if◌then◌else◌, length, drop, set, codes, ℤ, low_bits,
}
use wifi_audio.Libc.Strings.{str_eq, starts_with}
use wifi_audio.Libc.Numbers.{strtoll, to_int}
use wifi_audio.Rtsp.Types.{IpAddr, Range, Transport}

-- The number and where it ends; none for a null line.
unfoldable pub get_number : Option Bytes → ℕ → Option (ℤ × Bytes)
unfolding strtoll
get_number none base = none
get_number (some line) base = let (v, end) = strtoll line base in some (to_int v, end)

-- The loop of `get_ipaddr`: every round reads from the same `s`.
unfoldable pub get_octets : ℕ → ℕ → Bytes → IpAddr → Bytes → Bool × IpAddr × Bytes
unfolding get_number
get_octets zero i s addr end = (true, addr, end)
get_octets (suc n) i s addr end = elim (get_number (some s) 10) [
  | none ↦ (false, addr, end)
  | some (v, stop) ↦
      get_octets n (suc i) s (record { octets = set addr.octets i (low_bits 8 v) }) stop
]

unfoldable pub get_ipaddr : IpAddr → Bytes → Bool × IpAddr × Bytes
unfolding get_octets
get_ipaddr addr s = get_octets 4 0 s addr []

-- What one table of options makes of an option: none if no entry is for it.
abbrev pub Handled : Type 0
Handled = Option (Bool × Transport)

-- An entry of a table: its key, and what it does with the text behind the key.
abbrev pub Entry : Type 0
Entry = Bytes × (Bytes → Bool × Transport)

-- The first entry whose key starts the option.
unfoldable pub by_prefix : List Entry → Bytes → Handled
by_prefix [] option = none
by_prefix ((key, act) ∷ entries) option =
    if starts_with key option
    then some (act (drop (length key) option))
    else by_prefix entries option

unfoldable pub flag_option : Transport → Bytes → Handled
flag_option t option =
    if str_eq (codes "unicast") option
    then some (true, record t { unicast = true })
    else if str_eq (codes "multicast") option
    then some (true, record t { unicast = false })
    else if str_eq (codes "rtcp-mux") option
    then some (true, record t { rtcp_mux = true })
    else none

-- Two numbers with a dash between them; `put` writes the range back.
unfoldable pub read_range : (Range → Transport) → Range → Bytes → Bool × Transport
unfolding get_number
read_range put r option = elim (get_number (some option) 10) [
  | none ↦ (false, put r)
  | some (v, end) ↦
      let r1 = record r { first = v } in
      if starts_with (codes "-") end
      then elim (get_number (some (drop 1 end)) 10) [
        | none ↦ (false, put r1)
        | some (w, stop) ↦ (true, put (record r1 { second = w }))
      ]
      else (false, put r1)
]

unfoldable pub range_option : Transport → Bytes → Handled
unfolding by_prefix read_range
range_option t = by_prefix (
    (codes "client_port=", read_range (λ r. record t { client_port = r }) t.client_port)
    ∷ (codes "server_port=", read_range (λ r. record t { server_port = r }) t.server_port)
    ∷ (codes "interleaved=", read_range (λ r. record t { interleaved = r }) t.interleaved)
    ∷ (codes "port=", read_range (λ r. record t { port = r }) t.port)
    ∷ [])

unfoldable pub text_option : Transport → Bytes → Handled
unfolding by_prefix
text_option t = by_prefix ((codes "mode=", λ option. (true, record t { mode = option })) ∷ [])

-- Both entries of the table write `ttl`.
unfoldable pub read_ttl : Transport → Bytes → Bool × Transport
unfolding get_number
read_ttl t option = elim (get_number (some option) 0) [
  | none ↦ (false, t)
  | some (v, end) ↦ (true, record t { ttl = v })
]

unfoldable pub number_option : Transport → Bytes → Handled
unfolding by_prefix read_ttl
number_option t = by_prefix ((codes "ttl=", read_ttl t) ∷ (codes "ssrc=", read_ttl t) ∷ [])

unfoldable pub address_option : Transport → Bytes → Handled
unfolding by_prefix get_ipaddr
address_option t = by_prefix (
    (
      codes "destination=",
      λ option.
          let (done, addr, end) = get_ipaddr t.destination option in
          (done, record t { destination = addr }),
    )
    ∷ (
      codes "source=",
      λ option.
          let (done, addr, end) = get_ipaddr t.source option in (done, record t { source = addr }),
    )
    ∷ [])

-- Both addresses of a range are read into the first one.
unfoldable pub read_addr_range : (IpAddr → Transport) → IpAddr → Bytes → Bool × Transport
unfolding get_ipaddr
read_addr_range put addr option =
    let (done, first, end) = get_ipaddr addr option in
    if done
    then (if starts_with (codes ",") end
        then (let (again, second, stop) = get_ipaddr first (drop 1 end) in (again, put second))
        else (false, put first))
    else (false, put first)

unfoldable pub addr_range_option : Transport → Bytes → Handled
unfolding by_prefix read_addr_range
addr_range_option t = by_prefix (
    (
      codes "src_addr=",
      read_addr_range (λ a. record t { src_addr = (a, t.src_addr.1) }) t.src_addr.0,
    )
    ∷ (
      codes "dest_addr=",
      read_addr_range (λ a. record t { dest_addr = (a, t.dest_addr.1) }) t.dest_addr.0,
    )
    ∷ [])

infixr 30 ◌or_else◌
abbrev pub ◌or_else◌ : Handled → Handled → Handled
none or_else h = h
some r or_else h = some r

abbrev pub or_unhandled : Transport → Handled → Bool × Transport
or_unhandled t none = (false, t)
or_unhandled t (some r) = r

unfoldable pub parse_transport_option : Transport → Bytes → Bool × Transport
unfolding flag_option range_option text_option number_option address_option addr_range_option
parse_transport_option t option = or_unhandled t (
    flag_option t option
    or_else range_option t option
    or_else text_option t option
    or_else number_option t option
    or_else address_option t option
    or_else addr_range_option t option)
