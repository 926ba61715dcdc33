-- ===== src/Boot/Ready.antt =====
-- What `board_init` of src/esp32/init.cpp comes to, and why it may start no server.
use wifi_audio.Common.{
  ◌≡◌, refl, sym, ap, ◌∙◌, inl, inr, Bool, true, false, not, List, [], ◌∷◌, ◌++◌, Option, none,
  some, Bytes, codes, if◌then◌else◌, Bool-cases, Outcome, ret, fault, Fault, ◌>>=◌,
}
use mathlib.Core.Path.{subst}
use wifi_audio.Codec.{CodecInfo}
use wifi_audio.Codec.Registry.{make_codec}
use wifi_audio.Esp32.I2s.{Esp32I2s}
use wifi_audio.Libc.Strings.{str_eq}
use wifi_audio.Network.{WiFi, Interface}
use wifi_audio.Boot.Objects.{Object, Objects, as_network}
use wifi_audio.Boot.Init.{
  SystemConfig, Info, System, Handler, Event, make_i2s, has_state, network_running, on_i2s,
  on_codec, or_null, rtp_init, on_init,
}
use wifi_audio.Boot.Init
use wifi_audio.Boot.Boards.{Platform}

module _ {w : WiFi} (o : Objects w) where
  -- No object has these names yet.
  pub record Fresh (s : o.Store) : Type 0 where
    pub net : o.get (codes "net") s ≡ none
    pub i2s : o.get (codes "i2s") s ≡ none
    pub app : o.get (codes "app") s ≡ none
    pub cli : o.get (codes "cli") s ≡ none

  -- The names that are used when `board_init` has returned.
  pub record Free (s : o.Store) : Type 0 where
    pub app : o.get (codes "app") s ≡ none
    pub cli : o.get (codes "cli") s ≡ none

  pub add-Free :
      (b : Bytes) (x : Object w) (s : o.Store)
      → str_eq (codes "app") b ≡ false
      → str_eq (codes "cli") b ≡ false
      → Free s
      → Free (o.add b x s)
  add-Free b x s app cli f = record {
    app = o.get-add_other (codes "app") b x s app ∙ f.app;
    cli = o.get-add_other (codes "cli") b x s cli ∙ f.cli;
  }

-- The outcome of the codec's maker.
abbrev pub made : Platform → Outcome (Option CodecInfo)
made p = or_null (make_codec p.storage none p.codecs)

-- Why no server is started: no connection, no codec, or no I2S reader.
pub data NotReady {w : WiFi} (p : Platform) (net : List (Interface w)) : Type 0 where
  not_connected : has_state net ≡ false → NotReady p net
  no_codec : made p ≡ ret none → NotReady p net
  no_i2s :
      (codec : CodecInfo)
      → made p ≡ ret (some codec)
      → make_i2s p.i2s_ok p.storage codec ≡ none
      → NotReady p net

module _ {w : WiFi} {o : Objects w} (p : Platform) where
  -- What `board_init` of init.cpp comes to.
  pub data Inited (net : List (Interface w)) (cb : Bool) (s : System o) (out : Outcome (System o))
      : Type 0 where
    idle :
        (t : System o)
        → NotReady p net
        → out ≡ ret t
        → t.handlers ≡ s.handlers
        → Free o t.objects
        → Inited net cb s out
    stops :
        (f : Fault) → has_state net ≡ true → made p ≡ fault f → out ≡ fault f → Inited net cb s out
    ready :
        (t : System o) (codec : CodecInfo) (i2s : Esp32I2s)
        → has_state net ≡ true
        → made p ≡ ret (some codec)
        → make_i2s p.i2s_ok p.storage codec ≡ some i2s
        → out ≡ ret t
        → t.handlers
          ≡ s.handlers ++ (Event.init, Handler.rtp_handler (record { codec = codec; cb = cb })) ∷ []
        → o.get (codes "i2s") t.objects ≡ some (Object.i2s i2s)
        → Free o t.objects
        → Inited net cb s out

  pub init_lem :
      (net : List (Interface w)) (cb : Bool) (s : System o)
      → o.get (codes "net") s.objects ≡ some (Object.network net)
      → o.get (codes "i2s") s.objects ≡ none
      → Free o s.objects
      → Inited net cb s (Init.board_init p.i2s_ok p.storage p.codecs cb s)
  unfolding Init.board_init network_running on_codec on_i2s
  init_lem net cb s found new free = elim (Bool-cases (has_state net)) [
    | inl up ↦ subst (Inited net cb s) (sym (by_running (running ∙ up))) (on_made up (made p) refl)
    | inr down ↦ idle s (not_connected down) (by_running (running ∙ down)) refl free
  ]
    where
      running : network_running s ≡ has_state net
      running = ap (λ x. elim (as_network x) [ none ↦ false | some n ↦ has_state n ]) found

      by_running :
          {b : Bool}
          → network_running s ≡ b
          → Init.board_init p.i2s_ok p.storage p.codecs cb s
            ≡ (if not b then ret s else (made p >>= λ c. ret (on_codec p.i2s_ok p.storage cb c s)))
      by_running e =
          ap
            (λ b.
              if not b then ret s else (made p >>= λ c. ret (on_codec p.i2s_ok p.storage cb c s)))
            e

      with_codec : CodecInfo → System o
      with_codec codec = record s { objects = o.add (codes "codec") (Object.codec codec) s.objects }

      with_codec-Free : (codec : CodecInfo) → Free o (with_codec codec).objects
      with_codec-Free codec =
          add-Free o (codes "codec") (Object.codec codec) s.objects refl refl free

      on_reader :
          (codec : CodecInfo) (r : Option Esp32I2s)
          → has_state net ≡ true
          → made p ≡ ret (some codec)
          → make_i2s p.i2s_ok p.storage codec ≡ r
          → Inited net cb s (ret (on_i2s cb codec r (with_codec codec)))
      on_reader codec none up is fails =
          idle (with_codec codec) (no_i2s codec is fails) refl refl (with_codec-Free codec)
      on_reader codec (some i2s) up is works =
          ready _ codec i2s up is works refl refl
            (o.get-add_new (codes "i2s") (Object.i2s i2s) (with_codec codec).objects (
              o.get-add_other (codes "i2s") (codes "codec") (Object.codec codec) s.objects refl
              ∙ new))
            (add-Free o (codes "i2s") (Object.i2s i2s) (with_codec codec).objects refl refl
              (with_codec-Free codec))

      on_made :
          has_state net ≡ true
          → (m : Outcome (Option CodecInfo)) → made p ≡ m
          → Inited net cb s (m >>= λ c. ret (on_codec p.i2s_ok p.storage cb c s))
      on_made up (fault f) is = stops f up is refl
      on_made up (ret none) is = idle s (no_codec is) refl refl free
      on_made up (ret (some codec)) is =
          on_reader codec (make_i2s p.i2s_ok p.storage codec) up is refl
