-- ===== src/Network.antt =====
-- src/network.cpp: the commands of the network and its start. The interfaces of the panglos library are
-- a parameter; a network is the list of its interfaces, in the order of its iterator.
pub mod Commands
use wifi_audio.Common.{
  ℕ, ◌≡◌, ◌⊎◌, Bool, true, false, List, [], ◌∷◌, ◌++◌, map, Option, none, some, Bytes, codes,
  if◌then◌else◌, Outcome, ret, fault, Fault, assert, ◌>>=◌, ◌>>◌,
}
use wifi_audio.Codec.Storage.{Storage}
use wifi_audio.Libc.Printf.{printf, str}
use wifi_audio.Libc.Strings.{str_eq}

-- The address, the gateway and the mask, as `tostr` prints them.
pub record IpState : Type 0 where
  pub ip : Bytes
  pub gw : Bytes
  pub mask : Bytes

-- `WiFiInterface`, with the access points that it knows.
pub record WiFi : Type 1 where
  pub Aps : Type 0
  pub create : Aps
  pub add_ap : Bytes → Bytes → Aps → Aps
  pub del_ap : Bytes → Aps → Aps
  -- In the order of the iterator.
  pub ssids : Aps → List Bytes
  -- The state when `connect` has returned, if it is connected then.
  pub connect : Aps → Option IpState

-- `wifi` is none for an interface of another kind.
pub record Interface (w : WiFi) : Type 0 where
  pub name : Bytes
  pub state : Option IpState
  pub wifi : Option w.Aps

-- What the commands print.
pub data Line : Type 0 where
  no_interfaces : Line
  is_connected : Bytes → IpState → Line
  not_connected : Bytes → Line
  access_point : Bytes → Bytes → Line
  no_password : Line
  ap_deleted : Bytes → Bytes → Line
  ap_added : Bytes → Bytes → Line
  unable_to_add : Line
  no_interface_found : Line
  disconnecting : Bytes → Line
  connecting : Bytes → Line

abbrev pub state_line : Bytes → Option IpState → Line
state_line name none = Line.not_connected name
state_line name (some s) = Line.is_connected name s

abbrev pub first_arg : List Bytes → Option Bytes
first_arg [] = none
first_arg (a ∷ _) = some a

module _ (w : WiFi) where
  -- The network that is found as "net": none for a null pointer.
  abbrev pub Found : Type 0
  Found = Option (List (Interface w))

  unfoldable pub net_lines : List (Interface w) → List Line
  net_lines [] = []
  net_lines (i ∷ is) = state_line i.name i.state ∷ net_lines is

  -- A null pointer is used here: there is no ASSERT.
  unfoldable pub cli_net : Found → Outcome (List Line)
  unfolding net_lines
  cli_net none = fault Fault.null_pointer
  cli_net (some []) = ret (Line.no_interfaces ∷ [])
  cli_net (some (i ∷ is)) = ret (net_lines (i ∷ is))

  abbrev pub ap_lines : Bytes → Option w.Aps → List Line
  ap_lines name none = []
  ap_lines name (some aps) = map (Line.access_point name) (w.ssids aps)

  unfoldable pub list_aps : List (Interface w) → List Line
  list_aps [] = []
  list_aps (i ∷ is) = ap_lines i.name i.wifi ++ list_aps is

  -- The round of the loop below at an interface; `rest` is what the next ones give.
  abbrev pub edit_at :
      (w.Aps → w.Aps)
      → (Bytes → Line)
      → Interface w
      → List (Interface w)
      → List Line × List (Interface w)
      → Option w.Aps
      → List Line × List (Interface w)
  edit_at edit done i is (lines, js) none = (lines, i ∷ js)
  edit_at edit done i is rest (some aps) =
      (done i.name ∷ [], record i { wifi = some (edit aps) } ∷ is)

  -- Call `edit` on the first WiFi interface, and print `done`; `otherwise` if there is none.
  unfoldable pub edit_wifi :
      (w.Aps → w.Aps)
      → (Bytes → Line)
      → List Line
      → List (Interface w)
      → List Line × List (Interface w)
  edit_wifi edit done otherwise [] = (otherwise, [])
  edit_wifi edit done otherwise (i ∷ is) =
      edit_at edit done i is (edit_wifi edit done otherwise is) i.wifi

  -- `net ap del`, with the arguments behind it.
  unfoldable pub delete_ap : List Bytes → List (Interface w) → List Line × List (Interface w)
  unfolding edit_wifi
  delete_ap [] is = (Line.no_password ∷ [], is)
  delete_ap (ssid ∷ _) is = edit_wifi (w.del_ap ssid) (Line.ap_deleted ssid) [] is

  -- `net ap ssid`, with the arguments behind it.
  unfoldable pub add_password :
      Bytes → List Bytes → List (Interface w) → List Line × List (Interface w)
  unfolding edit_wifi
  add_password ssid [] is = (Line.no_password ∷ [], is)
  add_password ssid (pw ∷ _) is =
      edit_wifi (w.add_ap ssid pw) (Line.ap_added ssid) (Line.unable_to_add ∷ []) is

  abbrev pub ap_command : List Bytes → List (Interface w) → List Line × List (Interface w)
  ap_command [] is = (list_aps is, is)
  ap_command (ssid ∷ args) is =
      if str_eq ssid (codes "del") then delete_ap args is else add_password ssid args is

  unfoldable pub cli_net_ap : List Bytes → Found → Outcome (List Line × List (Interface w))
  unfolding list_aps delete_ap add_password
  cli_net_ap args none = fault Fault.assertion
  cli_net_ap args (some []) = ret (Line.no_interfaces ∷ [], [])
  cli_net_ap args (some (i ∷ is)) = ret (ap_command args (i ∷ is))

  -- `Network::get_interface` by a name, or by none.
  abbrev pub ByName : Type 0
  ByName = Option Bytes → List (Interface w) → Option (Interface w)

  unfoldable pub get_iface :
      ByName → List Bytes → Found → Outcome (List Line × Option (Interface w))
  get_iface by_name args none = fault Fault.assertion
  get_iface by_name args (some is) = elim (by_name (first_arg args) is) [
    | none ↦ ret (Line.no_interface_found ∷ [], none)
    | some i ↦ ret ([], some i)
  ]

  abbrev pub call_iface :
      (Bytes → Line) → List Line × Option (Interface w) → Outcome (List Line × Option (Interface w))
  call_iface says (lines, none) = ret (lines, none)
  call_iface says (lines, some i) = ret (says i.name ∷ [], some i)

  -- What is printed, and the interface that `disconnect` is called on.
  unfoldable pub cli_net_stop :
      ByName → List Bytes → Found → Outcome (List Line × Option (Interface w))
  unfolding get_iface
  cli_net_stop by_name args net = get_iface by_name args net >>= call_iface Line.disconnecting

  -- What is printed, and the interface that `connect` is called on.
  unfoldable pub cli_net_start :
      ByName → List Bytes → Found → Outcome (List Line × Option (Interface w))
  unfolding get_iface
  cli_net_start by_name args net = get_iface by_name args net >>= call_iface Line.connecting

unfoldable pub postfixes : List Bytes
postfixes = [] ∷ codes "2" ∷ codes "3" ∷ codes "4" ∷ []

module _ (w : WiFi) (storage : Storage) where
  -- `add_ap`: the access point of two keys of the store.
  unfoldable pub add_ap : Bytes → Bytes → w.Aps → Bool × w.Aps
  add_ap ssid_key pw_key aps = elim (storage.get (codes "wifi") ssid_key 32) [
    | none ↦ (false, aps)
    | some ssid ↦ elim (storage.get (codes "wifi") pw_key 32) [
      | none ↦ (false, aps)
      | some pw ↦ (true, w.add_ap ssid pw aps)
    ]
  ]

  -- The loop of `start_network`.
  unfoldable pub add_aps : List Bytes → w.Aps → w.Aps
  unfolding add_ap
  add_aps [] aps = aps
  add_aps (pf ∷ pfs) aps =
      add_aps pfs
        (add_ap (printf (codes "ssid%s") (str pf ∷ [])) (printf (codes "pw%s") (str pf ∷ [])) aps).1

  -- The network that is added as "net", when `connect` has returned. `name` is the interface's.
  unfoldable pub start_network : Bytes → List (Interface w)
  unfolding postfixes add_aps
  start_network name =
      let aps = add_aps postfixes w.create in
      record { name = name; state = w.connect aps; wifi = some aps } ∷ []
