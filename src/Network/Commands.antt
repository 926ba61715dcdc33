-- ===== src/Network/Commands.antt =====
-- What `net ap` does to the access points, and what it lists afterwards.
use wifi_audio.Common.{
  ◌≡◌, refl, sym, ap, ◌∙◌, false, List, [], ◌∷◌, ◌++◌, map, Option, none, some, Bytes, codes, ret,
  append_assoc,
}
use wifi_audio.Libc.Strings.{str_eq}
use wifi_audio.Network.{
  WiFi, Interface, Line, ap_lines, list_aps, edit_at, edit_wifi, delete_ap, add_password,
  cli_net_ap,
}

module _ (w : WiFi) where
  abbrev NoneWiFi : List (Interface w) → Type 0
  NoneWiFi [] = Unit {0}
  NoneWiFi (i ∷ is) = (i.wifi ≡ none) × NoneWiFi is

  -- The first WiFi interface of a network.
  pub record FirstWiFi (is : List (Interface w)) : Type 0 where
    pub before : List (Interface w)
    pub first : Interface w
    pub aps : w.Aps
    pub after : List (Interface w)
    pub is_here : is ≡ before ++ first ∷ after
    pub others : NoneWiFi before
    pub wifi_is : first.wifi ≡ some aps

  -- What `edit_wifi` does: it edits the first WiFi interface, or there is none.
  pub data Edited (edit : w.Aps → w.Aps) (done : Bytes → Line) (otherwise : List Line)
      (is : List (Interface w)) (out : List Line × List (Interface w)) : Type 0 where
    nothing : NoneWiFi is → out ≡ (otherwise, is) → Edited edit done otherwise is out
    edited :
        (f : FirstWiFi is)
        → out ≡ (
          done f.first.name ∷ [],
          f.before ++ record f.first { wifi = some (edit f.aps) } ∷ f.after,
        )
        → Edited edit done otherwise is out

  edit_wifi-Edited :
      (edit : w.Aps → w.Aps) (done : Bytes → Line) (otherwise : List Line) (is : List (Interface w))
      → Edited edit done otherwise is (edit_wifi w edit done otherwise is)
  unfolding edit_wifi
  edit_wifi-Edited edit done otherwise [] = nothing tt refl
  edit_wifi-Edited edit done otherwise (i ∷ is) =
      at (edit_wifi-Edited edit done otherwise is) i.wifi refl
    where
      later :
          i.wifi ≡ none
          → Edited edit done otherwise is (edit_wifi w edit done otherwise is)
          → Edited edit done otherwise
              (i ∷ is)
              (edit_at w edit done i is (edit_wifi w edit done otherwise is) none)
      later e (nothing all eq) = nothing (e, all) (ap (λ x. (x.0, i ∷ x.1)) eq)
      later e (edited f eq) =
          edited
            (record {
              before = i ∷ f.before;
              first = f.first;
              aps = f.aps;
              after = f.after;
              is_here = ap (λ is. i ∷ is) f.is_here;
              others = (e, f.others);
              wifi_is = f.wifi_is;
            })
            (ap (λ x. (x.0, i ∷ x.1)) eq)

      at :
          Edited edit done otherwise is (edit_wifi w edit done otherwise is)
          → (p : Option w.Aps) → i.wifi ≡ p
          → Edited edit done otherwise
              (i ∷ is)
              (edit_at w edit done i is (edit_wifi w edit done otherwise is) p)
      at rest none e = later e rest
      at rest (some aps) e =
          edited
            (record {
              before = [];
              first = i;
              aps = aps;
              after = is;
              is_here = refl;
              others = tt;
              wifi_is = e;
            })
            refl

  list_aps-append :
      (is js : List (Interface w)) → list_aps w (is ++ js) ≡ list_aps w is ++ list_aps w js
  unfolding list_aps
  list_aps-append [] js = refl
  list_aps-append (i ∷ is) js =
      ap (λ ls. ap_lines w i.name i.wifi ++ ls) (list_aps-append is js)
      ∙ sym (append_assoc (ap_lines w i.name i.wifi) (list_aps w is) (list_aps w js))

  list_aps-NoneWiFi : (is : List (Interface w)) → NoneWiFi is → list_aps w is ≡ []
  unfolding list_aps
  list_aps-NoneWiFi [] h = refl
  list_aps-NoneWiFi (i ∷ is) h =
      ap (λ wifi. ap_lines w i.name wifi ++ list_aps w is) h.0 ∙ list_aps-NoneWiFi is h.1

  -- `net ap` lists the access points of the first WiFi interface first.
  list_aps-first :
      (before after : List (Interface w)) (i : Interface w) (aps : w.Aps)
      → NoneWiFi before
      → i.wifi ≡ some aps
      → list_aps w (before ++ i ∷ after)
        ≡ map (Line.access_point i.name) (w.ssids aps) ++ list_aps w after
  unfolding list_aps
  list_aps-first before after i aps none_before e =
      list_aps-append before (i ∷ after)
      ∙ ap (λ ls. ls ++ list_aps w (i ∷ after)) (list_aps-NoneWiFi before none_before)
      ∙ ap (λ wifi. ap_lines w i.name wifi ++ list_aps w after) e

  -- The first WiFi interface is edited, and `net ap` lists it as edited and the rest as before; or
  -- there is no WiFi interface, and nothing changes.
  pub data Changed (edit : w.Aps → w.Aps) (done : Bytes → Line) (otherwise : List Line)
      (is : List (Interface w)) (out : List Line × List (Interface w)) : Type 0 where
    unchanged : NoneWiFi is → out ≡ (otherwise, is) → Changed edit done otherwise is out
    changed :
        (f : FirstWiFi is)
        → out ≡ (
          done f.first.name ∷ [],
          f.before ++ record f.first { wifi = some (edit f.aps) } ∷ f.after,
        )
        → (rest : List Line)
        → list_aps w is ≡ map (Line.access_point f.first.name) (w.ssids f.aps) ++ rest
        → list_aps w out.1 ≡ map (Line.access_point f.first.name) (w.ssids (edit f.aps)) ++ rest
        → Changed edit done otherwise is out

  Edited-Changed :
      {edit : w.Aps → w.Aps} {done : Bytes → Line} {otherwise : List Line} {is : List (Interface w)}
      {out : List Line × List (Interface w)}
      → Edited edit done otherwise is out
      → Changed edit done otherwise is out
  Edited-Changed (nothing all eq) = unchanged all eq
  Edited-Changed {edit} (edited f eq) =
      changed f eq (list_aps w f.after)
        (ap (list_aps w) f.is_here
          ∙ list_aps-first f.before f.after f.first f.aps f.others f.wifi_is)
        (ap (λ x. list_aps w x.1) eq
          ∙ list_aps-first f.before f.after (record f.first { wifi = some (edit f.aps) })
              (edit f.aps) f.others refl)

  -- For any network with an interface and an ssid that is not "del": the command with the ssid and a
  -- password adds it to the first WiFi interface, and the one with "del" and the ssid deletes it
  -- there; each prints the interface's name, and the list of access points is as before but for those
  -- of that interface. Without a WiFi interface nothing changes: the first command says so, and the
  -- second prints nothing.
  pub net_ap_lem :
      (ssid pw : Bytes) (args : List Bytes) (i : Interface w) (is : List (Interface w))
      → str_eq ssid (codes "del") ≡ false
      → (out : List Line × List (Interface w)) × (cli_net_ap w (ssid ∷ pw ∷ args) (some (i ∷ is))
          ≡ ret out)
        × Changed (w.add_ap ssid pw) (Line.ap_added ssid) (Line.unable_to_add ∷ []) (i ∷ is) out
        × (gone : List Line × List (Interface w)) × (cli_net_ap w
              (codes "del" ∷ ssid ∷ args)
              (some (i ∷ is))
            ≡ ret gone)
        × Changed (w.del_ap ssid) (Line.ap_deleted ssid) [] (i ∷ is) gone
  unfolding cli_net_ap delete_ap add_password
  net_ap_lem ssid pw args i is other = (
    edit_wifi w (w.add_ap ssid pw) (Line.ap_added ssid) (Line.unable_to_add ∷ []) (i ∷ is),
    rw (other, cli_net_ap) refl,
    Edited-Changed (edit_wifi-Edited _ _ _ (i ∷ is)),
    edit_wifi w (w.del_ap ssid) (Line.ap_deleted ssid) [] (i ∷ is),
    refl,
    Edited-Changed (edit_wifi-Edited _ _ _ (i ∷ is)),
  )
