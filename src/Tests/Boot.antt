-- ===== src/Tests/Boot.antt =====
-- The start of the program on a board with an LED, and the commands of its network.
use wifi_audio.Common.{
  ℕ, ◌≡◌, refl, true, false, List, [], ◌∷◌, ◌++◌, Option, none, some, Bytes, codes, if◌then◌else◌,
  ret, arith,
}
use wifi_audio.Examples.{pcm_info}
use wifi_audio.Tests.Codecs.{store}
use wifi_audio.Libc.Printf.{printf}
use wifi_audio.Libc.Strings.{str_eq}
use wifi_audio.Network.{WiFi, Interface, Line, IpState, cli_net, cli_net_ap, start_network}
use wifi_audio.Network.Commands.{Changed, net_ap_lem}
use wifi_audio.Boot.Objects.{Object, Objects}
use wifi_audio.Boot.Boards.{Board, Platform, pins}
use wifi_audio.Boot.Main.{World, app_main, boot_commands}
use wifi_audio.Boot.Starts.{Start, app_main-Start}

abbrev ap_names : List (Bytes × Bytes) → List Bytes
ap_names [] = []
ap_names ((ssid, pw) ∷ aps) = ssid ∷ ap_names aps

abbrev without : Bytes → List (Bytes × Bytes) → List (Bytes × Bytes)
without s [] = []
without s ((ssid, pw) ∷ aps) = if str_eq ssid s then without s aps else (ssid, pw) ∷ without s aps

abbrev address : IpState
address = record { ip = codes "10.0.0.2"; gw = codes "10.0.0.1"; mask = codes "255.0.0.0" }

abbrev join : List (Bytes × Bytes) → Option IpState
join [] = none
join (_ ∷ _) = some address

-- A WiFi interface that connects when it knows an access point.
abbrev radio : WiFi
radio = record {
  Aps = List (Bytes × Bytes);
  create = [];
  add_ap = λ ssid pw aps. aps ++ (ssid, pw) ∷ [];
  del_ap = without;
  ssids = ap_names;
  connect = join;
}

abbrev wired : Interface radio
wired = record { name = codes "eth0"; state = none; wifi = none }

abbrev wlan : Interface radio
wlan = record { name = codes "wlan0"; state = some address; wifi = some [] }

net_test :
    cli_net radio (some (wired ∷ wlan ∷ []))
    ≡ ret (Line.not_connected (codes "eth0") ∷ Line.is_connected (codes "wlan0") address ∷ [])
unfolding cli_net
net_test = refl

net_ap_lem_example :
    (out : List Line × List (Interface radio)) × (cli_net_ap radio
        (codes "home" ∷ codes "pw" ∷ [])
        (some (wired ∷ wlan ∷ []))
      ≡ ret out)
    × Changed radio
        (radio.add_ap (codes "home") (codes "pw"))
        (Line.ap_added (codes "home"))
        (Line.unable_to_add ∷ [])
        (wired ∷ wlan ∷ [])
        out
    × (gone : List Line × List (Interface radio)) × (cli_net_ap radio
          (codes "del" ∷ codes "home" ∷ [])
          (some (wired ∷ wlan ∷ []))
        ≡ ret gone)
    × Changed radio
        (radio.del_ap (codes "home"))
        (Line.ap_deleted (codes "home"))
        []
        (wired ∷ wlan ∷ [])
        gone
net_ap_lem_example = net_ap_lem radio (codes "home") (codes "pw") [] wired (wlan ∷ []) refl

-- A table of objects as an association list.
abbrev find_object : Bytes → List (Bytes × Object radio) → Option (Object radio)
find_object name [] = none
find_object name ((n, x) ∷ s) = if str_eq name n then some x else find_object name s

str_eq_refl : (s : Bytes) → str_eq s s ≡ true
str_eq_refl [] = refl
str_eq_refl (c ∷ cs) = ground (arith, str_eq_refl cs)

find-new :
    (name : Bytes) (x : Object radio) (s : List (Bytes × Object radio))
    → find_object name s ≡ none
    → find_object name ((name, x) ∷ s) ≡ some x
find-new name x s h = rw (str_eq_refl name) refl

find-other :
    (a b : Bytes) (x : Object radio) (s : List (Bytes × Object radio))
    → str_eq a b ≡ false
    → find_object a ((b, x) ∷ s) ≡ find_object a s
find-other a b x s h = rw h refl

abbrev table : Objects radio
table = record {
  Store = List (Bytes × Object radio);
  empty = [];
  add = λ name x s. (name, x) ∷ s;
  get = find_object;
  get-empty = λ name. refl;
  get-add_new = find-new;
  get-add_other = find-other;
}

abbrev text_of : Bytes → Bytes → ℕ → Option Bytes
text_of db name size =
    if str_eq name (codes "codec")
    then some (codes "pcm")
    else if str_eq name (codes "ssid")
    then some (codes "home")
    else if str_eq name (codes "pw")
    then some (codes "secret")
    else none

abbrev platform : Platform
platform = record {
  i2s_ok = λ call. true;
  storage = record (store 0) { get = text_of };
  codecs = record { name = codes "pcm"; maker = ret (some pcm_info) } ∷ [];
}

abbrev devices : List (Bytes × Object radio)
devices = (codes "rgb", Object.leds) ∷ (codes "event_queue", Object.event_queue) ∷ []

abbrev world : World table
world = record {
  platform = platform;
  board = Board.esp32c3_xiao;
  flash_ok = true;
  init_devices = λ s. (true, (codes "rgb", Object.leds) ∷ s);
  iface_name = codes "wlan0";
  has_boot = false;
}

network_test :
    start_network radio platform.storage (codes "wlan0")
    ≡ record wlan { wifi = some ((codes "home", codes "secret") ∷ []) } ∷ []
unfolding start_network printf
network_test = refl

app_main-Start_example : Start world true devices (app_main world)
app_main-Start_example =
    app_main-Start world true devices refl refl
      (record { net = refl; i2s = refl; app = refl; cli = refl })

boot_test : boot_commands true (some 4) (some (codes "net\n")) ≡ ret (codes "net\n")
unfolding boot_commands
boot_test = refl

pins_test : (pins Board.esp32_lora).sck ≡ 17
unfolding pins
pins_test = refl
