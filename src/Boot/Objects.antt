-- ===== src/Boot/Objects.antt =====
-- The table of objects of the panglos library, as a record of laws, and what this program puts into it.
use wifi_audio.Common.{◌≡◌, false, List, Option, none, some, Bytes}
use wifi_audio.Codec.{CodecInfo}
use wifi_audio.Esp32.I2s.{Esp32I2s}
use wifi_audio.Libc.Strings.{str_eq}
use wifi_audio.Network.{WiFi, Interface}

pub data Object (w : WiFi) : Type 0 where
  network : List (Interface w) → Object w
  codec : CodecInfo → Object w
  i2s : Esp32I2s → Object w
  leds device event_queue banner app watchdog cli : Object w

-- `get` finds what was added under a name that was not there before.
pub record Objects (w : WiFi) : Type 1 where
  pub Store : Type 0
  pub empty : Store
  pub add : Bytes → Object w → Store → Store
  pub get : Bytes → Store → Option (Object w)
  pub get-empty : (name : Bytes) → get name empty ≡ none
  pub get-add_new :
      (name : Bytes) (x : Object w) (s : Store)
      → get name s ≡ none
      → get name (add name x s) ≡ some x
  pub get-add_other :
      (a b : Bytes) (x : Object w) (s : Store) → str_eq a b ≡ false → get a (add b x s) ≡ get a s

-- The casts of what is found. Under its name there is no object of another kind.
module _ {w : WiFi} where
  abbrev pub as_network : Option (Object w) → Option (List (Interface w))
  as_network (some (Object.network n)) = some n
  as_network _ = none

  abbrev pub as_i2s : Option (Object w) → Option Esp32I2s
  as_i2s (some (Object.i2s i)) = some i
  as_i2s _ = none
