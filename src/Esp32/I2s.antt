-- ===== src/Esp32/I2s.antt =====
-- src/esp32/i2s.cpp, over the I2S driver as a parameter.
pub mod Counters
use wifi_audio.Common.{
  ℕ, ◌+◌, ◌%◌, ◌^◌, ◌≡◌, Bool, true, false, not, List, [], ◌∷◌, Option, none, some, leb, ◌==◌,
  if◌then◌else◌, ℤ, signed32, Outcome, ret, ◌>>=◌, ◌>>◌, assert,
}

-- The settings other than the pins.
pub record Config : Type 0 where
  pub freq : ℕ
  pub bits : ℕ
  pub slot_bits : ℕ
  pub chans : ℕ
  pub byte_swap : Bool
  pub primary : Bool

-- What is written into the driver's `i2s_std_config_t`.
pub record StdConfig : Type 0 where
  pub sample_rate : ℕ
  pub stereo : Bool
  pub big_endian : Bool
  pub data_bit_width : ℕ
  pub slot_bit_width : ℕ
  pub ws_width : ℕ
  -- Is the clock the one of a primary device?
  pub primary_clock : Bool
  pub mclk_multiple : ℕ

unfoldable pub std_config : Config → StdConfig
std_config c = record {
  sample_rate = c.freq;
  stereo = not (c.chans == 1);
  big_endian = c.byte_swap;
  data_bit_width = c.bits;
  slot_bit_width = c.slot_bits;
  ws_width = c.slot_bits;
  primary_clock = c.primary;
  mclk_multiple = if c.slot_bits == 24 then 384 else 512;
}

-- The calls of the driver.
pub data Call : Type 0 where
  new_channel : Bool → Call
  init_std_mode : StdConfig → Call
  register_event_callback : Call
  channel_enable : Call
  channel_disable : Call
  del_channel : Call

-- `handle` says whether there is a channel; `rd_bytes` is the pattern of an `int`.
pub record Esp32I2s : Type 0 where
  pub handle : Bool
  pub errors : ℕ
  pub rd_bytes : ℕ
  pub running : Bool

unfoldable pub new_i2s : Esp32I2s
new_i2s = record { handle = false; errors = 0; rd_bytes = 0; running = false }

-- Do the calls succeed, one after the other? With the calls that were made, the latest first.
unfoldable pub call_all : (Call → Bool) → List Call → List Call → Bool × List Call
call_all ok [] made = (true, made)
call_all ok (c ∷ cs) made = if ok c then call_all ok cs (c ∷ made) else (false, c ∷ made)

unfoldable pub init : (Call → Bool) → Config → Esp32I2s → Bool × Esp32I2s × List Call
unfolding std_config call_all
init ok config s =
    let first = Call.new_channel config.primary in
    let (done, made) =
      call_all ok
        (Call.init_std_mode (std_config config)
          ∷ Call.register_event_callback
          ∷ Call.channel_enable
          ∷ [])
        (first ∷ []) in
    if ok first then (done, record s { handle = true }, made) else (false, s, first ∷ [])

-- The destructor.
unfoldable pub destroy : (Call → Bool) → Esp32I2s → List Call → List Call
unfolding call_all
destroy ok s made =
    if s.handle then (call_all ok (Call.channel_disable ∷ Call.del_channel ∷ []) made).1 else made

-- None for the null pointer.
unfoldable pub create : (Call → Bool) → Config → Option Esp32I2s × List Call
unfolding new_i2s init destroy
create ok config =
    let (done, s, made) = init ok config new_i2s in
    if done then (some s, made) else (none, destroy ok s made)

unfoldable pub max_read_bytes : ℕ
max_read_bytes = 4064

-- `i2s_channel_read` gives a number of bytes, or none with an error.
abbrev after_read : Option ℕ → Esp32I2s → ℕ × Esp32I2s
after_read none s = (0, s)
after_read (some n) s = (n, record s { running = true; rd_bytes = (s.rd_bytes + n) % 2 ^ 32 })

unfoldable pub read : ℕ → Option ℕ → Esp32I2s → Outcome (ℕ × Esp32I2s)
unfolding max_read_bytes
read bytes result s = assert (leb bytes max_read_bytes) >> ret (after_read result s)

-- The driver's receive queue overflows.
unfoldable pub on_rx_error : Esp32I2s → Esp32I2s
on_rx_error s = if not s.running then s else record s { errors = s.errors + 1 }

unfoldable pub rx_errors : Esp32I2s → ℕ
rx_errors s = s.errors

unfoldable pub rx_bytes : Esp32I2s → ℤ
rx_bytes s = signed32 s.rd_bytes

-- What happens to a reader that runs: a read, of a size and with the driver's result, or an overflow.
pub data Event : Type 0 where
  reading : ℕ → Option ℕ → Event
  overflow : Event

unfoldable pub on_event : Event → Esp32I2s → Outcome Esp32I2s
unfolding read on_rx_error
on_event (Event.reading bytes result) s = read bytes result s >>= λ r. ret r.1
on_event Event.overflow s = ret (on_rx_error s)

unfoldable pub on_events : List Event → Esp32I2s → Outcome Esp32I2s
unfolding on_event
on_events [] s = ret s
on_events (e ∷ es) s = on_event e s >>= on_events es
