-- ===== src/Boot/Main.antt =====
-- src/main.cpp: `app_main` up to the call of the application, and the stored commands.
use wifi_audio.Common.{
  ℕ, Bool, true, false, [], Option, none, some, Bytes, codes, Outcome, ret, fault, Fault, assert,
  ◌>>=◌, ◌>>◌,
}
use wifi_audio.Network.{WiFi, start_network}
use wifi_audio.Boot.Objects.{Object, Objects}
use wifi_audio.Boot.Init.{System}
use wifi_audio.Boot.Boards.{Board, Platform, board_init}

-- With the host name that mDNS was started with, and whether the stored commands will be run.
pub record Booted {w : WiFi} (o : Objects w) : Type 0 where
  pub system : System o
  pub mdns : Option Bytes
  pub boot : Bool

-- What the program finds: does the flash start, what `Device::init_devices` makes of the table of objects,
-- the name of the WiFi interface, and is there a blob of commands.
pub record World {w : WiFi} (o : Objects w) : Type 0 where
  pub platform : Platform
  pub board : Board
  pub flash_ok : Bool
  pub init_devices : o.Store → Bool × o.Store
  pub iface_name : Bytes
  pub has_boot : Bool

module _ {w : WiFi} {o : Objects w} (world : World o) where
  abbrev pub with_object : Bytes → Object w → System o → System o
  with_object name x s = record s { objects = o.add name x s.objects }

  -- The table when the network is added.
  abbrev pub with_network : o.Store → System o
  with_network devices = record {
    objects =
        o.add (codes "net")
          (Object.network (start_network w world.platform.storage world.iface_name)) devices;
    handlers = [];
  }

  -- mDNS is started if there is a network and the store has a name.
  abbrev pub mdns_name : System o → Option Bytes
  mdns_name s = elim (o.get (codes "net") s.objects) [
    | none ↦ none
    | some _ ↦ world.platform.storage.get (codes "net") (codes "hostname") 64
  ]

  abbrev pub on_devices : Bool × o.Store → Outcome (Bool × System o × Option Bytes)
  on_devices (false, store) = ret (false, record { objects = store; handlers = [] }, none)
  on_devices (true, store) =
      let s = with_network store in
      board_init world.platform world.board s >>= λ t. ret (true, t, mdns_name s)

  -- The static function `init_devices`; false if the devices fail.
  unfoldable pub start_devices : o.Store → Outcome (Bool × System o × Option Bytes)
  start_devices store = on_devices (world.init_devices store)

  abbrev pub run_app : Bool × System o × Option Bytes → Booted o
  run_app (false, s, mdns) = record { system = s; mdns = mdns; boot = false }
  run_app (true, s, mdns) = record {
    system = with_object (codes "app") Object.app (with_object (codes "banner") Object.banner s);
    mdns = mdns;
    boot = world.has_boot;
  }

  unfoldable pub start_app : o.Store → Outcome (Booted o)
  unfolding start_devices
  start_app store = start_devices store >>= λ r. ret (run_app r)

  abbrev pub find_app : Booted o → Outcome (Booted o)
  find_app b = elim (o.get (codes "app") b.system.objects) [
    | none ↦ fault Fault.assertion
    | some _ ↦ ret b
  ]

  abbrev pub with_watchdog : Booted o → Booted o
  with_watchdog b = record b { system = with_object (codes "watchdog") Object.watchdog b.system }

  -- Up to the call of the application.
  unfoldable pub app_main : Outcome (Booted o)
  unfolding start_app
  app_main =
      assert world.flash_ok
      >> (start_app (o.add (codes "event_queue") Object.event_queue o.empty) >>= λ b.
          find_app (with_watchdog b))

-- `CliBoot::run`: the bytes that are executed. Is there a command line, the size of the blob, and what
-- the second look into the store reads.
unfoldable pub boot_commands : Bool → Option ℕ → Option Bytes → Outcome Bytes
boot_commands false size blob = fault Fault.assertion
boot_commands true none blob = ret []
boot_commands true (some size) none = ret []
boot_commands true (some size) (some blob) = ret blob
