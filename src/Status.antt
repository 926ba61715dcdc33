-- ===== src/Status.antt =====
-- src/status.cpp: the callback that shows a session's state on the status LED. The event queue polls
-- `on_idle` in the main thread; `on_state` comes from the server's threads.
pub mod Flash
pub mod Shows
use wifi_audio.Common.{
  ℕ, Bool, true, false, not, ◌&&◌, ◌||◌, List, [], ◌∷◌, Option, none, some, ◌==◌, if◌then◌else◌, ℤ,
  eq_ℤ, pos,
}
use wifi_audio.Rtsp.Types.{State}

pub record Rgb : Type 0 where
  pub r : ℕ
  pub g : ℕ
  pub b : ℕ

abbrev pub off : Rgb
off = record { r = 0; g = 0; b = 0 }

-- The colour of a state; none leaves the LED as it is.
unfoldable pub to_rgb : State → Option Rgb
to_rgb State.init = none
to_rgb State.ready = some (record off { b = 0x40 })
to_rgb State.playing = some (record off { g = 0x40 })
to_rgb State.dead = some off

abbrev pub state_eq : State → State → Bool
state_eq State.init State.init = true
state_eq State.ready State.ready = true
state_eq State.playing State.playing = true
state_eq State.dead State.dead = true
state_eq _ _ = false

-- What a poll finds: whether the object "i2s" is there, its byte count, the time, and `Time::elapsed`.
pub record Poll : Type 0 where
  pub found : Bool
  pub rx_bytes : ℤ
  pub now : ℕ
  pub elapsed : ℕ → ℕ → Bool

-- `shown` lists what was sent to the LED, the latest first.
pub record Callback : Type 0 where
  pub state : State
  pub done : State
  pub toggle : Bool
  pub i2s : Bool
  pub xfer : ℤ
  pub t : ℕ
  pub shown : List Rgb

abbrev pub period : ℕ
period = 50

-- The constructor leaves `t` as it finds it.
unfoldable pub create_callback : ℕ → Callback
create_callback t = record {
  state = State.dead;
  done = State.dead;
  toggle = false;
  i2s = false;
  xfer = pos 0;
  t = t;
  shown = [];
}

unfoldable pub set_state : State → Callback → Callback
unfolding to_rgb
set_state s c = elim (to_rgb s) [ none ↦ c | some rgb ↦ record c { shown = rgb ∷ c.shown } ]

unfoldable pub on_state : State → Callback → Callback
on_state s c = record c { state = s }

-- The LED blinks while audio comes in.
unfoldable pub blink : Poll → Callback → Callback
unfolding set_state
blink p c =
    let c1 = record c { xfer = p.rx_bytes } in
    let toggle = not c.toggle in
    let c2 =
      set_state (if toggle then c.state else State.dead)
        (record c1 { t = p.now; toggle = toggle }) in
    if c.i2s && state_eq c.state State.playing && not (eq_ℤ p.rx_bytes c.xfer)
    then (if p.elapsed c.t period then c2 else c1)
    else c

-- A new state is shown at once.
unfoldable pub settle : Callback → Callback
unfolding set_state
settle c = if state_eq c.state c.done then c else set_state c.state (record c { done = c.state })

unfoldable pub on_idle : Poll → Callback → Callback
unfolding blink settle
on_idle p c = settle (blink p (record c { i2s = c.i2s || p.found }))
