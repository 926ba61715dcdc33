-- ===== src/Boot/Boards.antt =====
-- src/targets: the boards. One program is built for one board.
use wifi_audio.Common.{
  ℕ, Bool, true, false, [], ◌∷◌, ◌++◌, Option, none, some, codes, Outcome, ret, fault, Fault, ◌>>=◌,
}
use wifi_audio.Codec.Storage.{Storage}
use wifi_audio.Esp32.I2s.{Call}
use wifi_audio.Network.{WiFi}
use wifi_audio.Boot.Objects.{Objects}
use wifi_audio.Boot.Init.{System, Makers, Handler, Event}
use wifi_audio.Boot.Init

pub data Board : Type 0 where
  esp32_s3_dkc1 esp32_s3_dkc2 esp32_dev esp32c3_supermini esp32c3_xiao esp32c6_supermini : Board
  esp32_lora : Board

-- The GPIO numbers of the I2S input, and of the RGB LED if the board has one.
pub record Pins : Type 0 where
  pub sck : ℕ
  pub ws : ℕ
  pub sd : ℕ
  pub rgb : Option ℕ

unfoldable pub s3_pins : Bool → Pins
s3_pins dkc1 = record {
  sck = 42;
  ws = 2;
  sd = 1;
  rgb = some (elim dkc1 [ true ↦ 14 | false ↦ 48 ]);
}

unfoldable pub dev_pins : Pins
dev_pins = record { sck = 12; ws = 13; sd = 14; rgb = some 27 }

unfoldable pub c3_supermini_pins : Pins
c3_supermini_pins = record { sck = 4; ws = 3; sd = 2; rgb = none }

unfoldable pub c3_xiao_pins : Pins
c3_xiao_pins = record { sck = 3; ws = 2; sd = 1; rgb = some 4 }

unfoldable pub c6_supermini_pins : Pins
c6_supermini_pins = record { sck = 12; ws = 13; sd = 14; rgb = some 27 }

unfoldable pub lora_pins : Pins
lora_pins = record { sck = 17; ws = 16; sd = 4; rgb = some 2 }

unfoldable pub pins : Board → Pins
unfolding s3_pins dev_pins c3_supermini_pins c3_xiao_pins c6_supermini_pins lora_pins
pins Board.esp32_s3_dkc1 = s3_pins true
pins Board.esp32_s3_dkc2 = s3_pins false
pins Board.esp32_dev = dev_pins
pins Board.esp32c3_supermini = c3_supermini_pins
pins Board.esp32c3_xiao = c3_xiao_pins
pins Board.esp32c6_supermini = c6_supermini_pins
pins Board.esp32_lora = lora_pins

-- What a board's start uses: the I2S driver's answers, the store, and the registered codecs.
pub record Platform : Type 0 where
  pub i2s_ok : Call → Bool
  pub storage : Storage
  pub codecs : Makers

module _ {w : WiFi} {o : Objects w} (p : Platform) where
  -- Without an LED: `board_init` of the supermini board.
  unfoldable pub plain_init : System o → Outcome (System o)
  plain_init s = Init.board_init p.i2s_ok p.storage p.codecs false s

  abbrev pub add_handlers : System o → System o
  add_handlers s = record s {
    handlers =
        s.handlers ++ (Event.idle, Handler.status_idle) ∷ (Event.init, Handler.net_cli_init) ∷ [];
  }

  -- With the LED "rgb": `board_init` of the other boards, which add their handlers in any case.
  unfoldable pub leds_init : System o → Outcome (System o)
  leds_init s = elim (o.get (codes "rgb") s.objects) [
    | none ↦ fault Fault.assertion
    | some _ ↦ Init.board_init p.i2s_ok p.storage p.codecs true s >>= λ t. ret (add_handlers t)
  ]

  unfoldable pub board_init : Board → System o → Outcome (System o)
  unfolding plain_init leds_init
  board_init Board.esp32c3_supermini s = plain_init s
  board_init _ s = leds_init s
