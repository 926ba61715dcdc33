-- ===== src/Boot/Starts.antt =====
-- What the start of the program comes to: when the server is started, and when the program stops.
use wifi_audio.Common.{
  ◌≡◌, refl, sym, ap, ◌∙◌, Bool, true, false, List, [], ◌∷◌, Option, none, some, Bytes, codes,
  Outcome, ret, fault, Fault, ◌>>=◌, ◌>>◌, assert,
}
use mathlib.Core.Path.{subst}
use wifi_audio.Codec.{CodecInfo}
use wifi_audio.Esp32.I2s.{Esp32I2s}
use wifi_audio.Libc.Strings.{str_eq}
use wifi_audio.Network.{WiFi, Interface, start_network}
use wifi_audio.Boot.Objects.{Object, Objects}
use wifi_audio.Boot.Init.{Info, System, make_i2s, has_state, rtp_init, on_init}
use wifi_audio.Boot.Ready.{Fresh, Free, add-Free, made, NotReady}
use wifi_audio.Boot.OnBoard.{
  has_led, config_of, OnBoard, no_rgb, quiet, fails, serving, board-OnBoard,
}
use wifi_audio.Boot.Main.{
  Booted, World, with_object, with_network, run_app, find_app, with_watchdog, on_devices, mdns_name,
  start_app, app_main,
}

-- What `rtp_init` starts the server with.
abbrev pub server_info : CodecInfo → Esp32I2s → Bool → Info
server_info codec i2s cb = record {
  ip = codes "0.0.0.0";
  rtsp_port = 554;
  rtp_ports = (6000, 6001);
  codec = codec;
  audio_source = i2s;
  cb = cb;
}

module _ {w : WiFi} {o : Objects w} (world : World o) where
  -- The table when the devices are made, and the network that is found as "net".
  abbrev pub first_store : o.Store
  first_store = o.add (codes "event_queue") Object.event_queue o.empty

  abbrev pub net : List (Interface w)
  net = start_network w world.platform.storage world.iface_name

  -- The servers that are started when the application has added its command line and sends INIT.
  abbrev pub servers : Booted o → Outcome (List Info)
  servers b = on_init b.system.handlers (with_object world (codes "cli") Object.cli b.system)

  -- What `app_main` comes to; `devices` is the table that `Device::init_devices` leaves.
  pub data Start (devices_ok : Bool) (devices : o.Store) (out : Outcome (Booted o)) : Type 0 where
    no_devices : devices_ok ≡ false → out ≡ fault Fault.assertion → Start devices_ok devices out
    no_leds :
        devices_ok ≡ true
        → has_led world.board ≡ true
        → o.get (codes "rgb") devices ≡ none
        → out ≡ fault Fault.assertion
        → Start devices_ok devices out
    codec_stops :
        (f : Fault)
        → devices_ok ≡ true
        → has_state net ≡ true
        → made world.platform ≡ fault f
        → out ≡ fault f
        → Start devices_ok devices out
    no_server :
        (b : Booted o)
        → devices_ok ≡ true
        → NotReady world.platform net
        → out ≡ ret b
        → servers b ≡ ret []
        → Start devices_ok devices out
    one_server :
        (b : Booted o) (codec : CodecInfo) (i2s : Esp32I2s)
        → devices_ok ≡ true
        → has_state net ≡ true
        → made world.platform ≡ ret (some codec)
        → make_i2s world.platform.i2s_ok world.platform.storage codec ≡ some i2s
        → out ≡ ret b
        → servers b ≡ ret (server_info codec i2s (has_led world.board) ∷ [])
        → Start devices_ok devices out

  -- From `board_init` on.
  abbrev booted : System o → Option Bytes → Booted o
  booted t mdns = with_watchdog world (run_app world (true, t, mdns))

  find_app-booted :
      (t : System o) (mdns : Option Bytes)
      → Free o t.objects
      → find_app world (booted t mdns) ≡ ret (booted t mdns)
  find_app-booted t mdns free =
      ap (λ x. elim x [ none ↦ fault Fault.assertion | some _ ↦ ret (booted t mdns) ])
        (o.get-add_other (codes "app") (codes "watchdog") Object.watchdog _ refl
          ∙ o.get-add_new (codes "app") Object.app _ (
              o.get-add_other (codes "app") (codes "banner") Object.banner t.objects refl
              ∙ free.app))

  -- A name that the later objects do not have.
  get-later :
      (name : Bytes) (t : System o) (mdns : Option Bytes)
      → str_eq name (codes "banner") ≡ false
      → str_eq name (codes "app") ≡ false
      → str_eq name (codes "watchdog") ≡ false
      → o.get name (booted t mdns).system.objects ≡ o.get name t.objects
  get-later name t mdns banner app watchdog =
      o.get-add_other name (codes "watchdog") Object.watchdog _ watchdog
      ∙ o.get-add_other name (codes "app") Object.app _ app
      ∙ o.get-add_other name (codes "banner") Object.banner t.objects banner

  rtp_init-booted :
      (t : System o) (mdns : Option Bytes) (codec : CodecInfo) (i2s : Esp32I2s) (cb : Bool)
      → Free o t.objects
      → o.get (codes "i2s") t.objects ≡ some (Object.i2s i2s)
      → rtp_init
          (config_of codec cb)
          (with_object world (codes "cli") Object.cli (booted t mdns).system)
        ≡ ret (server_info codec i2s cb)
  unfolding rtp_init
  rtp_init-booted t mdns codec i2s cb free found = rw (i2s_there, cli_there, rtp_init) refl
    where
      i2s_there :
          o.get (codes "i2s") (o.add (codes "cli") Object.cli (booted t mdns).system.objects)
          ≡ some (Object.i2s i2s)
      i2s_there =
          o.get-add_other (codes "i2s") (codes "cli") Object.cli _ refl
          ∙ get-later (codes "i2s") t mdns refl refl refl
          ∙ found

      cli_there :
          o.get (codes "cli") (o.add (codes "cli") Object.cli (booted t mdns).system.objects)
          ≡ some Object.cli
      cli_there =
          o.get-add_new (codes "cli") Object.cli _
            (get-later (codes "cli") t mdns refl refl refl ∙ free.cli)

  -- The rest of `app_main`, behind the devices.
  abbrev rest : Outcome (Bool × System o × Option Bytes) → Outcome (Booted o)
  rest m = (m >>= λ r. ret (run_app world r)) >>= λ b. find_app world (with_watchdog world b)

  app_main-rest :
      world.flash_ok ≡ true
      → (ok : Bool) (devices : o.Store) → world.init_devices first_store ≡ (ok, devices)
      → app_main world ≡ rest (on_devices world (ok, devices))
  unfolding app_main
  app_main-rest flash ok devices is =
      ap
        (λ flash.
          assert flash
          >> (start_app world first_store >>= λ b. find_app world (with_watchdog world b)))
        flash
      ∙ ap (λ d. rest (on_devices world d)) is

  no_devices-lem :
      (devices : o.Store)
      → Fresh o devices
      → rest (on_devices world (false, devices)) ≡ fault Fault.assertion
  no_devices-lem devices fresh =
      ap (λ x. elim x [ none ↦ fault Fault.assertion | some _ ↦ ret no_app ])
        (o.get-add_other (codes "app") (codes "watchdog") Object.watchdog devices refl ∙ fresh.app)
    where
      no_app : Booted o
      no_app =
          with_watchdog world
            (run_app world (false, record { objects = devices; handlers = [] }, none))

  abbrev rest_of : o.Store → Outcome (System o) → Outcome (Booted o)
  rest_of devices m = rest (m >>= λ t. ret (true, t, mdns_name world (with_network world devices)))

  on_board :
      (devices : o.Store) (m : Outcome (System o))
      → o.get (codes "rgb") (with_network world devices).objects ≡ o.get (codes "rgb") devices
      → OnBoard world.platform net (has_led world.board) (with_network world devices) m
      → Start true devices (rest_of devices m)
  on_board devices m same (no_rgb led absent is) =
      no_leds refl led (sym same ∙ absent) (ap (rest_of devices) is)
  on_board devices m same (fails f up why is) = codec_stops f refl up why (ap (rest_of devices) is)
  on_board devices m same (quiet t why is none_started free) =
      no_server (booted t mdns) refl why (ap (rest_of devices) is ∙ find_app-booted t mdns free)
        (none_started _)
    where
      mdns : Option Bytes
      mdns = mdns_name world (with_network world devices)
  on_board devices m same (serving t codec i2s up coded read is started found free) =
      one_server (booted t mdns) codec i2s refl up coded read
        (ap (rest_of devices) is ∙ find_app-booted t mdns free)
        (started _ _ (rtp_init-booted t mdns codec i2s (has_led world.board) free found))
    where
      mdns : Option Bytes
      mdns = mdns_name world (with_network world devices)

  -- For any store, codecs, driver and network, on any board, where the flash starts and no device is
  -- named net, i2s, app or cli: the program stops at an assertion if the devices fail or an LED is
  -- missing that the board's start uses; it stops as the codec's maker does; or it gets to the
  -- application. An INIT event then starts one server, with the codec and the reader that were made,
  -- if the first interface is connected and both could be made; and no server if not.
  pub app_main-Start :
      (devices_ok : Bool) (devices : o.Store)
      → world.flash_ok ≡ true
      → world.init_devices first_store ≡ (devices_ok, devices)
      → Fresh o devices
      → Start devices_ok devices (app_main world)
  app_main-Start false devices flash is fresh =
      no_devices refl (app_main-rest flash false devices is ∙ no_devices-lem devices fresh)
  app_main-Start true devices flash is fresh =
      subst (Start true devices) (sym (app_main-rest flash true devices is)) (
        on_board devices _ (o.get-add_other (codes "rgb") (codes "net") network devices refl) (
          board-OnBoard world.platform world.board net (with_network world devices) refl
            (o.get-add_new (codes "net") network devices fresh.net)
            (o.get-add_other (codes "i2s") (codes "net") network devices refl ∙ fresh.i2s)
            (add-Free o (codes "net") network devices refl refl
              (record { app = fresh.app; cli = fresh.cli }))))
    where
      network : Object w
      network = Object.network net
