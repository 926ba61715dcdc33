-- ===== src/Status/Shows.antt =====
-- What the LED shows from one change of the session's state to the next.
use wifi_audio.Common.{
  ℕ, suc, ◌≡◌, ◌≢◌, refl, inl, inr, Bool, true, false, not, ◌||◌, List, [], ◌∷◌, if◌then◌else◌,
  Bool-cases, sym, ap, ◌∙◌,
}
use mathlib.Core.Path.{subst}
use wifi_audio.Rtsp.Types.{State}
use wifi_audio.Status.{Rgb, off, to_rgb, state_eq, Poll, Callback, set_state, settle, on_idle}
use wifi_audio.Status.Flash.{
  green, blue, flash, new_audio, is_due, flashes, same_state, Blinked, blink_first, blink-Blinked,
  settle_same, blink_idle, set_playing,
}

-- A number of polls, with no news of the state between them.
unfoldable pub polled : List Poll → Callback → Callback
polled [] c = c
polled (p ∷ ps) c = polled ps (on_idle p c)

flash_first :
    (due : Bool) (rest : ℕ → ℕ) (now t : ℕ) (toggle : Bool) (xs : List Rgb)
    → flash
        (rest (if due then now else t))
        (if due then not toggle else toggle)
        (if due then (if toggle then off else green) ∷ xs else xs)
      ≡ flash (let n = rest (if due then now else t) in if due then suc n else n) toggle xs
flash_first true rest now t toggle xs = refl
flash_first false rest now t toggle xs = refl

-- The polls after the state was settled, while it stays PLAY.
polled_playing :
    (ps : List Poll) (c : Callback)
    → c.state ≡ State.playing
    → c.state ≡ c.done
    → ((polled ps c).done ≡ c.done)
      × ((polled ps c).shown ≡ flash (flashes c.i2s c.xfer c.t ps) c.toggle c.shown)
unfolding polled on_idle
polled_playing [] c plays same = (refl, refl)
polled_playing (p ∷ ps) c plays same =
    let b = blink-Blinked p c plays in
    let is : on_idle p c ≡ blink_first p c =
      settle_same (blink_first p c) (b.state ∙ same ∙ sym b.done) in
    let (done, shown) =
      polled_playing ps (blink_first p c) (b.state ∙ plays) (b.state ∙ same ∙ sym b.done) in
    subst
      (λ d.
        ((polled ps d).done ≡ c.done)
        × ((polled ps d).shown ≡ flash (flashes c.i2s c.xfer c.t (p ∷ ps)) c.toggle c.shown))
      (sym is) (done ∙ b.done, shown ∙ first b)
  where
    first :
        Blinked p c (blink_first p c)
        → (let d = blink_first p c in flash (flashes d.i2s d.xfer d.t ps) d.toggle d.shown)
          ≡ flash (flashes c.i2s c.xfer c.t (p ∷ ps)) c.toggle c.shown
    first b =
        rw (b.i2s, b.xfer, b.t, b.toggle, b.shown)
          (flash_first (is_due c.i2s c.xfer c.t p)
            (λ t.
              flashes (c.i2s || p.found) (if new_audio c.i2s c.xfer p then p.rx_bytes else c.xfer) t
                ps)
            p.now c.t c.toggle c.shown)

polled_idle :
    (ps : List Poll) (c : Callback)
    → c.state ≢ State.playing
    → c.state ≡ c.done
    → ((polled ps c).done ≡ c.done) × ((polled ps c).shown ≡ c.shown)
unfolding polled on_idle
polled_idle [] c other same = (refl, refl)
polled_idle (p ∷ ps) c other same =
    let is : on_idle p c ≡ record c { i2s = c.i2s || p.found } =
      ap settle (blink_idle p c other) ∙ settle_same _ same in
    subst (λ d. ((polled ps d).done ≡ c.done) × ((polled ps d).shown ≡ c.shown)) (sym is)
      (polled_idle ps (record c { i2s = c.i2s || p.found }) other same)

-- What was sent to the LED, the latest first, when a new state is settled by the poll `p` and more polls
-- follow: INIT sends nothing, READY blue, DEAD off; PLAY sends green, and the flashes of the polls behind
-- it and of `p` itself.
abbrev pub trail : State → Poll → List Poll → Callback → List Rgb
trail State.init p ps c = c.shown
trail State.ready p ps c = blue ∷ c.shown
trail State.dead p ps c = off ∷ c.shown
trail State.playing p ps c =
    let d = on_idle p c in
    flash (flashes d.i2s d.xfer d.t ps) d.toggle
      (green ∷ flash (flashes c.i2s c.xfer c.t (p ∷ [])) c.toggle c.shown)

state_ne : (a b : State) → a ≢ b → state_eq a b ≡ false
state_ne a b ne = elim (Bool-cases (state_eq a b)) [
  | inl e ↦ absurd (ne (same_state a b e))
  | inr e ↦ e
]

settled :
    (c : Callback) → c.state ≢ c.done → settle c ≡ set_state c.state (record c { done = c.state })
unfolding settle
settled c new = rw (state_ne c.state c.done new, settle) refl

set_idle-done :
    (st : State) (c : Callback)
    → ((set_state st c).done ≡ c.done) × ((set_state st c).state ≡ c.state)
unfolding set_state to_rgb
set_idle-done State.init c = (refl, refl)
set_idle-done State.ready c = (refl, refl)
set_idle-done State.playing c = (refl, refl)
set_idle-done State.dead c = (refl, refl)

one_flash :
    (due toggle : Bool) (xs : List Rgb)
    → (if due then (if toggle then off else green) ∷ xs else xs)
      ≡ flash (if due then 1 else 0) toggle xs
one_flash true toggle xs = refl
one_flash false toggle xs = refl

-- The poll that settles PLAY.
first_playing :
    (p : Poll) (c : Callback)
    → c.state ≢ c.done
    → c.state ≡ State.playing
    → ((on_idle p c).state ≡ State.playing)
      × ((on_idle p c).done ≡ State.playing)
      × ((on_idle p c).shown ≡ green ∷ flash (flashes c.i2s c.xfer c.t (p ∷ [])) c.toggle c.shown)
unfolding on_idle
first_playing p c new plays =
    let d = blink_first p c in
    let b = blink-Blinked p c plays in
    let is : on_idle p c ≡ record d { done = d.state; shown = green ∷ d.shown } =
      settled d (λ e. new (sym b.state ∙ e ∙ b.done))
      ∙ set_playing d.state (record d { done = d.state }) (b.state ∙ plays) in
    (
      ap (λ d. d.state) is ∙ b.state ∙ plays,
      ap (λ d. d.done) is ∙ b.state ∙ plays,
      ap (λ d. d.shown) is
          ∙ ap (λ xs. green ∷ xs)
              (b.shown ∙ one_flash (is_due c.i2s c.xfer c.t p) c.toggle c.shown),
    )

-- The polls of another state, from the one that settles it on.
first_idle :
    (p : Poll) (ps : List Poll) (c : Callback)
    → c.state ≢ c.done
    → c.state ≢ State.playing
    → ((polled (p ∷ ps) c).done ≡ c.state)
      × ((polled (p ∷ ps) c).shown
          ≡ (set_state c.state (record c { i2s = c.i2s || p.found; done = c.state })).shown)
unfolding polled on_idle
first_idle p ps c new other =
    let c' : Callback = record c { i2s = c.i2s || p.found; done = c.state } in
    let is : on_idle p c ≡ set_state c.state c' =
      ap settle (blink_idle p c other) ∙ settled (record c { i2s = c.i2s || p.found }) new in
    let (done, state) = set_idle-done c.state c' in
    let (d, s) =
      polled_idle ps (set_state c.state c') (λ e. other (sym state ∙ e)) (state ∙ sym done) in
    (ap (λ e. (polled ps e).done) is ∙ d ∙ done, ap (λ e. (polled ps e).shown) is ∙ s)

-- When a new state was told to the callback and polls follow, with no news between them, whatever they
-- find: the callback has settled that state, and what was sent to the LED since then is nothing for
-- INIT, blue for READY, off for DEAD, and for PLAY green and then a flash, off and green in turn as
-- the toggle says, for each later poll that finds new audio when the last flash is long enough ago;
-- the first poll of PLAY may flash once before its green.
pub polled-trail :
    (p : Poll) (ps : List Poll) (c : Callback)
    → c.state ≢ c.done
    → ((polled (p ∷ ps) c).done ≡ c.state) × ((polled (p ∷ ps) c).shown ≡ trail c.state p ps c)
unfolding polled set_state to_rgb
polled-trail p ps c new = by_state c.state refl
  where
    idle :
        (st : State)
        → c.state ≡ st
        → st ≢ State.playing
        → (set_state st (record c { i2s = c.i2s || p.found; done = c.state })).shown
          ≡ trail st p ps c
        → ((polled (p ∷ ps) c).done ≡ c.state) × ((polled (p ∷ ps) c).shown ≡ trail c.state p ps c)
    idle st at n sent =
        let (done, shown) = first_idle p ps c new (λ e. n (sym at ∙ e)) in
        (
          done,
          shown
              ∙ subst
                  (λ st.
                    (set_state st (record c { i2s = c.i2s || p.found; done = c.state })).shown
                    ≡ trail st p ps c)
                  (sym at) sent,
        )

    by_state :
        (st : State)
        → c.state ≡ st
        → ((polled (p ∷ ps) c).done ≡ c.state) × ((polled (p ∷ ps) c).shown ≡ trail c.state p ps c)
    by_state State.init at = idle State.init at (λ q. cc) refl
    by_state State.ready at = idle State.ready at (λ q. cc) refl
    by_state State.dead at = idle State.dead at (λ q. cc) refl
    by_state State.playing at =
        let d = on_idle p c in
        let (state, done, shown) = first_playing p c new at in
        let (after, sent) = polled_playing ps d state (state ∙ sym done) in
        (
          after ∙ done ∙ sym at,
          subst (λ st. (polled ps d).shown ≡ trail st p ps c) (sym at)
              (sent ∙ ap (flash (flashes d.i2s d.xfer d.t ps) d.toggle) shown),
        )
