-- ===== src/Status/Flash.antt =====
-- What a poll of src/status.cpp does to the LED before it looks for a new state.
use wifi_audio.Common.{
  ℕ, zero, suc, ◌≡◌, ◌≢◌, refl, inl, inr, Bool, true, false, not, ◌&&◌, ◌||◌, List, [], ◌∷◌,
  if◌then◌else◌, arith, Bool-cases, eq_ℤ, sym, ℤ,
}
use mathlib.Core.Path.{subst}
use wifi_audio.Rtsp.Types.{State}
use wifi_audio.Status.{Rgb, off, to_rgb, state_eq, Poll, Callback, period, set_state, blink, settle}

abbrev pub green : Rgb
green = record off { g = 64 }

abbrev pub blue : Rgb
blue = record off { b = 64 }

-- A number of flashes, from what `toggle` is before them: off and green in turn.
abbrev pub flash : ℕ → Bool → List Rgb → List Rgb
flash zero toggle xs = xs
flash (suc n) toggle xs = flash n (not toggle) ((if toggle then off else green) ∷ xs)

-- Does a poll see new audio, when the reader is known or found?
abbrev pub new_audio : Bool → ℤ → Poll → Bool
new_audio i2s xfer p = (i2s || p.found) && not (eq_ℤ p.rx_bytes xfer)

-- And was the last flash long enough ago?
abbrev pub is_due : Bool → ℤ → ℕ → Poll → Bool
is_due i2s xfer t p = new_audio i2s xfer p && p.elapsed t period

-- How many polls flash while the session plays: those that see new audio in time, since the byte count
-- and the time that are given.
abbrev pub flashes : Bool → ℤ → ℕ → List Poll → ℕ
flashes i2s xfer t [] = 0
flashes i2s xfer t (p ∷ ps) =
    let rest =
      flashes (i2s || p.found) (if new_audio i2s xfer p then p.rx_bytes else xfer)
        (if is_due i2s xfer t p then p.now else t) ps in
    if is_due i2s xfer t p then suc rest else rest

pub same_state : (a b : State) → state_eq a b ≡ true → a ≡ b
same_state State.init State.init h = refl
same_state State.ready State.ready h = refl
same_state State.playing State.playing h = refl
same_state State.dead State.dead h = refl
same_state State.init State.ready h = cc
same_state State.init State.playing h = cc
same_state State.init State.dead h = cc
same_state State.ready State.init h = cc
same_state State.ready State.playing h = cc
same_state State.ready State.dead h = cc
same_state State.playing State.init h = cc
same_state State.playing State.ready h = cc
same_state State.playing State.dead h = cc
same_state State.dead State.init h = cc
same_state State.dead State.ready h = cc
same_state State.dead State.playing h = cc

-- What a poll leaves behind while the session plays, but for the colour of a new state.
pub record Blinked (p : Poll) (c d : Callback) : Type 0 where
  pub state : d.state ≡ c.state
  pub done : d.done ≡ c.done
  pub i2s : d.i2s ≡ (c.i2s || p.found)
  pub xfer : d.xfer ≡ (if new_audio c.i2s c.xfer p then p.rx_bytes else c.xfer)
  pub t : d.t ≡ (if is_due c.i2s c.xfer c.t p then p.now else c.t)
  pub toggle : d.toggle ≡ (if is_due c.i2s c.xfer c.t p then not c.toggle else c.toggle)
  pub shown :
      d.shown
      ≡ (if is_due c.i2s c.xfer c.t p then (if c.toggle then off else green) ∷ c.shown else c.shown)

-- The poll, before it looks for a new state.
abbrev pub blink_first : Poll → Callback → Callback
blink_first p c = blink p (record c { i2s = c.i2s || p.found })

while_playing :
    (st : State) (a b v : Bool)
    → st ≡ State.playing
    → (a && b) ≡ v
    → (a && state_eq st State.playing && b) ≡ v
while_playing st a b v plays e = rw plays (ground (arith, e))

pub set_playing :
    (st : State) (c : Callback)
    → st ≡ State.playing
    → set_state st c ≡ record c { shown = green ∷ c.shown }
unfolding set_state to_rgb
set_playing st c plays = rw (plays, set_state) refl

-- The colour of a flash.
flash_colour :
    (st : State) (toggle : Bool) (c : Callback)
    → st ≡ State.playing
    → set_state (if not toggle then st else State.dead) c
      ≡ record c { shown = (if toggle then off else green) ∷ c.shown }
unfolding set_state to_rgb
flash_colour st true c plays = refl
flash_colour st false c plays = set_playing st c plays

pub blink-Blinked :
    (p : Poll) (c : Callback) → c.state ≡ State.playing → Blinked p c (blink_first p c)
unfolding blink
blink-Blinked p c plays = elim (Bool-cases (new_audio c.i2s c.xfer p)) [
  | inr e ↦
      let is : blink_first p c ≡ record c { i2s = c.i2s || p.found } =
        rw (test false e, blink) refl in
      subst (Blinked p c) (sym is) (record {
        state = refl;
        done = refl;
        i2s = refl;
        xfer = rw e refl;
        t = rw e refl;
        toggle = rw e refl;
        shown = rw e refl;
      })
  | inl e ↦ elim (Bool-cases (p.elapsed c.t period)) [
    | inr f ↦
        let is : blink_first p c ≡ record c { i2s = c.i2s || p.found; xfer = p.rx_bytes } =
          rw (test true e, f, blink) refl in
        subst (Blinked p c) (sym is) (record {
          state = refl;
          done = refl;
          i2s = refl;
          xfer = rw e refl;
          t = rw (e, f) refl;
          toggle = rw (e, f) refl;
          shown = rw (e, f) refl;
        })
    | inl f ↦
        let flashed : Callback = record c {
          i2s = c.i2s || p.found;
          xfer = p.rx_bytes;
          t = p.now;
          toggle = not c.toggle;
        } in
        let is : blink_first p c
            ≡ record flashed { shown = (if c.toggle then off else green) ∷ c.shown } =
          rw (test true e, f, blink) (flash_colour c.state c.toggle flashed plays) in
        subst (Blinked p c) (sym is) (record {
          state = refl;
          done = refl;
          i2s = refl;
          xfer = rw e refl;
          t = rw (e, f) refl;
          toggle = rw (e, f) refl;
          shown = rw (e, f) refl;
        })
  ]
]
  where
    test :
        (v : Bool)
        → new_audio c.i2s c.xfer p ≡ v
        → ((c.i2s || p.found) && state_eq c.state State.playing && not (eq_ℤ p.rx_bytes c.xfer)) ≡ v
    test v e = while_playing c.state (c.i2s || p.found) (not (eq_ℤ p.rx_bytes c.xfer)) v plays e

pub settle_same : (c : Callback) → c.state ≡ c.done → settle c ≡ c
unfolding settle
settle_same c e = rw (same_is c.state c.done e, settle) refl
  where
    same_is : (a b : State) → a ≡ b → state_eq a b ≡ true
    same_is a b e = subst (λ b. state_eq a b ≡ true) e (itself a)
      where
        itself : (a : State) → state_eq a a ≡ true
        itself State.init = refl
        itself State.ready = refl
        itself State.playing = refl
        itself State.dead = refl

-- While another state lasts, `blink` does nothing but look for the reader.
pub blink_idle :
    (p : Poll) (c : Callback)
    → c.state ≢ State.playing
    → blink_first p c ≡ record c { i2s = c.i2s || p.found }
unfolding blink
blink_idle p c other = rw (no_test c.state other, blink) refl
  where
    no_test :
        (st : State)
        → st ≢ State.playing
        → ((c.i2s || p.found) && state_eq st State.playing && not (eq_ℤ p.rx_bytes c.xfer)) ≡ false
    no_test State.init n = ground arith
    no_test State.ready n = ground arith
    no_test State.playing n = absurd (n refl)
    no_test State.dead n = ground arith
