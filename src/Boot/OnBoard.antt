-- ===== src/Boot/OnBoard.antt =====
-- What `board_init` of a board comes to: the handlers that it leaves, and what they do at an INIT event.
use wifi_audio.Common.{
  ◌≡◌, refl, sym, ap, ◌∙◌, inl, inr, Bool, true, false, List, [], ◌∷◌, ◌++◌, Option, none, some,
  codes, Option-cases, Outcome, ret, fault, Fault, ◌>>=◌,
}
use mathlib.Core.Path.{subst}
use wifi_audio.Codec.{CodecInfo}
use wifi_audio.Esp32.I2s.{Esp32I2s}
use wifi_audio.Network.{WiFi, Interface}
use wifi_audio.Boot.Objects.{Object, Objects}
use wifi_audio.Boot.Init.{
  SystemConfig, Info, System, Handler, Event, make_i2s, has_state, network_running, on_i2s,
  on_codec, or_null, rtp_init, on_init,
}
use wifi_audio.Boot.Init
use wifi_audio.Boot.Boards.{Board, Platform, add_handlers, plain_init, leds_init}
use wifi_audio.Boot.Boards
use wifi_audio.Boot.Ready.{Free, made, NotReady, Inited, idle, stops, ready, init_lem}

abbrev pub has_led : Board → Bool
has_led Board.esp32c3_supermini = false
has_led _ = true

-- The handlers of a board with an LED.
abbrev pub led_handlers : List (Event × Handler)
led_handlers = (Event.idle, Handler.status_idle) ∷ (Event.init, Handler.net_cli_init) ∷ []

abbrev pub config_of : CodecInfo → Bool → SystemConfig
config_of codec cb = record { codec = codec; cb = cb }

module _ {w : WiFi} {o : Objects w} where
  -- An INIT event starts no server.
  abbrev pub Quiet : System o → Type 0
  Quiet t = (s : System o) → on_init t.handlers s ≡ ret []

  -- An INIT event starts the server that `rtp_init` is given.
  abbrev pub Serves : SystemConfig → System o → Type 0
  Serves config t =
      (s : System o) (info : Info)
      → rtp_init config s ≡ ret info
      → on_init t.handlers s ≡ ret (info ∷ [])

  handlers-Serves :
      (config : SystemConfig) (more : List (Event × Handler)) (t : System o)
      → ((s : System o) → on_init more s ≡ ret [])
      → t.handlers ≡ (Event.init, Handler.rtp_handler config) ∷ more
      → Serves config t
  unfolding on_init
  handlers-Serves config more t none_more is s info e =
      ap (λ hs. on_init hs s) is
      ∙ ap (λ m. m >>= λ info. on_init more s >>= λ infos. ret (info ∷ infos)) e
      ∙ ap (λ m. m >>= λ infos. ret (info ∷ infos)) (none_more s)

  led_handlers-quiet : (s : System o) → on_init led_handlers s ≡ ret []
  unfolding on_init
  led_handlers-quiet s = refl

  no_handlers-quiet : (s : System o) → on_init [] s ≡ ret []
  unfolding on_init
  no_handlers-quiet s = refl

module _ {w : WiFi} {o : Objects w} (p : Platform) where
  -- What `board_init` of a board comes to.
  pub data OnBoard (net : List (Interface w)) (led : Bool) (s : System o) (out : Outcome (System o))
      : Type 0 where
    no_rgb :
        led ≡ true
        → o.get (codes "rgb") s.objects ≡ none
        → out ≡ fault Fault.assertion
        → OnBoard net led s out
    quiet :
        (t : System o)
        → NotReady p net
        → out ≡ ret t
        → Quiet t
        → Free o t.objects
        → OnBoard net led s out
    fails :
        (f : Fault)
        → has_state net ≡ true
        → made p ≡ fault f
        → out ≡ fault f
        → OnBoard net led s out
    serving :
        (t : System o) (codec : CodecInfo) (i2s : Esp32I2s)
        → has_state net ≡ true
        → made p ≡ ret (some codec)
        → make_i2s p.i2s_ok p.storage codec ≡ some i2s
        → out ≡ ret t
        → Serves (record { codec = codec; cb = led }) t
        → o.get (codes "i2s") t.objects ≡ some (Object.i2s i2s)
        → Free o t.objects
        → OnBoard net led s out

  plain-OnBoard :
      (net : List (Interface w)) (s : System o)
      → s.handlers ≡ []
      → Inited p net false s (plain_init p s)
      → OnBoard net false s (plain_init p s)
  plain-OnBoard net s new (idle t why is same free) =
      quiet t why is (λ s'. ap (λ hs. on_init hs s') (same ∙ new) ∙ no_handlers-quiet s') free
  plain-OnBoard net s new (stops f up why is) = fails f up why is
  plain-OnBoard net s new (ready t codec i2s up coded read is same found free) =
      serving t codec i2s up coded read is
        (handlers-Serves (config_of codec false) [] t no_handlers-quiet (
          same
          ∙ ap (λ hs. hs ++ (Event.init, Handler.rtp_handler (config_of codec false)) ∷ []) new))
        found free

  leds-OnBoard :
      (net : List (Interface w)) (s : System o)
      → s.handlers ≡ []
      → Inited p net true s (Init.board_init p.i2s_ok p.storage p.codecs true s)
      → OnBoard net true s (leds_init p s)
  unfolding leds_init
  leds-OnBoard net s new inited = elim (Option-cases (o.get (codes "rgb") s.objects)) [
    | inl absent ↦ no_rgb refl absent (ap found_led absent)
    | inr (x, there) ↦ subst (OnBoard net true s) (sym (ap found_led there)) (on_inited inited)
  ]
    where
      add : Outcome (System o) → Outcome (System o)
      add m = m >>= λ t. ret (add_handlers p t)

      found_led : Option (Object w) → Outcome (System o)
      found_led none = fault Fault.assertion
      found_led (some _) = add (Init.board_init p.i2s_ok p.storage p.codecs true s)

      on_inited :
          Inited p net true s (Init.board_init p.i2s_ok p.storage p.codecs true s)
          → OnBoard net true s (add (Init.board_init p.i2s_ok p.storage p.codecs true s))
      on_inited (idle t why is same free) =
          quiet (add_handlers p t) why (ap add is)
            (λ s'. ap (λ hs. on_init (hs ++ led_handlers) s') (same ∙ new) ∙ led_handlers-quiet s')
            (record { app = free.app; cli = free.cli })
      on_inited (stops f up why is) = fails f up why (ap add is)
      on_inited (ready t codec i2s up coded read is same found free) =
          serving (add_handlers p t) codec i2s up coded read (ap add is)
            (handlers-Serves _ (led_handlers) (add_handlers p t) led_handlers-quiet (
              ap (λ hs. hs ++ led_handlers)
                (same
                  ∙ ap (λ hs. hs ++ (Event.init, Handler.rtp_handler (config_of codec true)) ∷ [])
                      new)))
            found (record { app = free.app; cli = free.cli })

  pub board-OnBoard :
      (b : Board) (net : List (Interface w)) (s : System o)
      → s.handlers ≡ []
      → o.get (codes "net") s.objects ≡ some (Object.network net)
      → o.get (codes "i2s") s.objects ≡ none
      → Free o s.objects
      → OnBoard net (has_led b) s (Boards.board_init p b s)
  unfolding Boards.board_init plain_init
  board-OnBoard Board.esp32c3_supermini net s new found fresh free =
      plain-OnBoard net s new (init_lem p net false s found fresh free)
  board-OnBoard b net s new found fresh free =
      leds-OnBoard net s new (init_lem p net true s found fresh free)
