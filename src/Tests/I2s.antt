-- ===== src/Tests/I2s.antt =====
-- The I2S reader.
use wifi_audio.Common.{
  ◌^◌, ◌-◌, ◌≤◌, ◌<◌, ◌≡◌, refl, true, false, List, [], ◌∷◌, none, some, pos, negsuc, ret, arith,
  Bool,
}
use wifi_audio.Esp32.I2s.Counters.{on_events_lem}
use wifi_audio.Esp32.I2s.{
  Call, Config, Esp32I2s, Event, new_i2s, on_events, rx_errors, rx_bytes, create, std_config,
}

-- An overflow before the first read, a read that fails, one that succeeds, and two overflows.
abbrev events : List Event
events =
    Event.overflow
    ∷ Event.reading 100 none
    ∷ Event.reading 100 (some 80)
    ∷ Event.overflow
    ∷ Event.overflow
    ∷ []

on_events_lem_example :
    (s : Esp32I2s) × (on_events events new_i2s ≡ ret s)
    × (rx_errors s ≡ 2)
    × (80 < 2 ^ 31 → rx_bytes s ≡ pos 80)
    × (2 ^ 31 ≤ 80 → 80 < 2 ^ 32 → rx_bytes s ≡ negsuc (2 ^ 32 - 80 - 1))
on_events_lem_example = on_events_lem events (omega arith, (omega arith, tt))

abbrev config : Config
config = record {
  freq = 48000;
  bits = 16;
  slot_bits = 16;
  chans = 2;
  byte_swap = false;
  primary = true;
}

-- A driver that cannot enable the channel, nor disable it then.
abbrev not_enabled : Call → Bool
not_enabled Call.channel_enable = false
not_enabled Call.channel_disable = false
not_enabled _ = true

create_test : create not_enabled config ≡ (
  none,
  Call.channel_disable
      ∷ Call.channel_enable
      ∷ Call.register_event_callback
      ∷ Call.init_std_mode (std_config config)
      ∷ Call.new_channel true
      ∷ [],
)
unfolding create
create_test = refl
