-- ===== src/Rtsp/Transport/Addresses.antt =====
-- What `get_ipaddr` makes of an address.
use wifi_audio.Common.{◌≡◌, refl, true, [], ◌∷◌, Bytes, length, arith, low_bits}
use wifi_audio.Libc.Numbers.{strtoll, to_int}
use wifi_audio.Rtsp.Types.{IpAddr}
use wifi_audio.Rtsp.Transport.{get_number, get_octets, get_ipaddr}

-- For an address of four octets: every text is taken for an address; its four octets are all the first
-- number of the text, cut to a byte, and the reading ends behind that number.
pub get_ipaddr_lem :
    (addr : IpAddr) (s : Bytes)
    → length addr.octets ≡ 4
    → get_ipaddr addr s ≡ (
      true,
      record {
        octets =
            low_bits 8 (to_int (strtoll s 10).0)
            ∷ low_bits 8 (to_int (strtoll s 10).0)
            ∷ low_bits 8 (to_int (strtoll s 10).0)
            ∷ low_bits 8 (to_int (strtoll s 10).0)
            ∷ [];
      },
      (strtoll s 10).1,
    )
unfolding get_ipaddr get_octets get_number
get_ipaddr_lem addr s h = by_octets addr.octets h
  where
    by_octets :
        (os : Bytes)
        → length os ≡ 4
        → get_ipaddr (record { octets = os }) s ≡ (
          true,
          record {
            octets =
                low_bits 8 (to_int (strtoll s 10).0)
                ∷ low_bits 8 (to_int (strtoll s 10).0)
                ∷ low_bits 8 (to_int (strtoll s 10).0)
                ∷ low_bits 8 (to_int (strtoll s 10).0)
                ∷ [];
          },
          (strtoll s 10).1,
        )
    by_octets (a ∷ b ∷ c ∷ d ∷ []) h = refl
    by_octets os h = absurd (omega arith)
