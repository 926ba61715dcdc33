-- ===== src/Boot/Init.antt =====
-- src/esp32/init.cpp: the codec, the I2S reader and the server of a board whose network is connected. The
-- pins are left out.
use wifi_audio.Common.{
  ℕ, Bool, true, false, not, List, [], ◌∷◌, ◌++◌, Option, none, some, Bytes, codes, ℤ, pos,
  low_bits, is_zero, if◌then◌else◌, Outcome, ret, fault, Fault, ◌>>=◌,
}
use wifi_audio.Codec.{CodecInfo}
use wifi_audio.Codec.Registry.{Register, make_codec}
use wifi_audio.Codec.Storage.{Storage}
use wifi_audio.Esp32.I2s.{Config, Call, Esp32I2s, create}
use wifi_audio.Network.{WiFi, Interface}
use wifi_audio.Boot.Objects.{Object, Objects, as_network, as_i2s}

pub record SystemConfig : Type 0 where
  pub codec : CodecInfo
  -- Is there a status callback?
  pub cb : Bool

-- `info`, the `ServerDesc` that `run_server_thread` is given.
pub record Info : Type 0 where
  pub ip : Bytes
  pub rtsp_port : ℕ
  pub rtp_ports : ℕ × ℕ
  pub codec : CodecInfo
  pub audio_source : Esp32I2s
  pub cb : Bool

pub data Handler : Type 0 where
  rtp_handler : SystemConfig → Handler
  net_cli_init : Handler
  status_idle : Handler

pub data Event : Type 0 where
  init idle : Event

-- The objects, and the event handlers in the order in which they were added.
pub record System {w : WiFi} (o : Objects w) : Type 0 where
  pub objects : o.Store
  pub handlers : List (Event × Handler)

-- What the codec's maker gives: it may stop the program, or give a null pointer.
abbrev pub Makers : Type 0
Makers = List (Register (Outcome (Option CodecInfo)))

-- A setting of `make_i2s`, which has no validator.
abbrev pub i2s_param : Storage → Bytes → ℕ → ℤ
i2s_param storage name value =
    storage.get_param (codes "i2s")
      (record { name = name; value = pos value; validate = λ v. true })

unfoldable pub i2s_config : Storage → CodecInfo → Config
i2s_config storage codec = record {
  freq = low_bits 32 (i2s_param storage (codes "freq") 48000);
  bits = low_bits 32 (i2s_param storage (codes "bits") 16);
  slot_bits = low_bits 32 (i2s_param storage (codes "slot_bits") 16);
  chans = low_bits 32 (i2s_param storage (codes "chans") 2);
  byte_swap = codec.network_order;
  primary = not (is_zero (i2s_param storage (codes "primary") 0));
}

unfoldable pub make_i2s : (Call → Bool) → Storage → CodecInfo → Option Esp32I2s
unfolding i2s_config
make_i2s ok storage codec = (create ok (i2s_config storage codec)).0

abbrev pub has_state : {w : WiFi} → List (Interface w) → Bool
has_state [] = false
has_state (i ∷ _) = elim i.state [ none ↦ false | some _ ↦ true ]

-- None is the null pointer, where no codec of the name is registered.
abbrev pub or_null : Option (Outcome (Option CodecInfo)) → Outcome (Option CodecInfo)
or_null none = ret none
or_null (some made) = made

module _ {w : WiFi} {o : Objects w} where
  unfoldable pub network_running : System o → Bool
  network_running s = elim (as_network (o.get (codes "net") s.objects)) [
    | none ↦ false
    | some n ↦ has_state n
  ]

  -- Behind the making of the reader.
  unfoldable pub on_i2s : Bool → CodecInfo → Option Esp32I2s → System o → System o
  on_i2s cb codec none s = s
  on_i2s cb codec (some i2s) s = record s {
    objects = o.add (codes "i2s") (Object.i2s i2s) s.objects;
    handlers =
        s.handlers ++ (Event.init, Handler.rtp_handler (record { codec = codec; cb = cb })) ∷ [];
  }

  -- Behind the making of the codec.
  unfoldable pub on_codec : (Call → Bool) → Storage → Bool → Option CodecInfo → System o → System o
  unfolding on_i2s
  on_codec ok storage cb none s = s
  on_codec ok storage cb (some codec) s =
      on_i2s cb codec (make_i2s ok storage codec)
        (record s { objects = o.add (codes "codec") (Object.codec codec) s.objects })

  unfoldable pub board_init :
      (Call → Bool) → Storage → Makers → Bool → System o → Outcome (System o)
  unfolding network_running on_codec
  board_init ok storage codecs cb s =
      let made =
        or_null (make_codec storage none codecs) >>= λ c. ret (on_codec ok storage cb c s) in
      if not (network_running s) then ret s else made

  -- What the server's thread is started with.
  unfoldable pub rtp_init : SystemConfig → System o → Outcome Info
  rtp_init config s = elim (as_i2s (o.get (codes "i2s") s.objects)) [
    | none ↦ fault Fault.assertion
    | some i2s ↦ elim (o.get (codes "cli") s.objects) [
      | none ↦ fault Fault.assertion
      | some _ ↦ ret (record {
        ip = codes "0.0.0.0";
        rtsp_port = 554;
        rtp_ports = (6000, 6001);
        codec = config.codec;
        audio_source = i2s;
        cb = config.cb;
      })
    ]
  ]

  -- The servers that an INIT event starts: its handlers run one after the other, since each returns false.
  unfoldable pub on_init : List (Event × Handler) → System o → Outcome (List Info)
  unfolding rtp_init
  on_init [] s = ret []
  on_init ((Event.init, Handler.rtp_handler config) ∷ hs) s =
      rtp_init config s >>= λ info. on_init hs s >>= λ infos. ret (info ∷ infos)
  on_init (_ ∷ hs) s = on_init hs s
