-- ===== src/Tests/Led.antt =====
-- The status LED.
use wifi_audio.Common.{◌≡◌, refl, true, [], ◌∷◌, pos}
use wifi_audio.Rtsp.Types.{State}
use wifi_audio.Status.{off, Poll, Callback, create_callback, on_state, on_idle}
use wifi_audio.Status.Flash.{green}
use wifi_audio.Status.Shows.{polled, polled-trail}

abbrev quiet_poll : Poll
quiet_poll = record { found = true; rx_bytes = pos 0; now = 100; elapsed = λ t period. true }

abbrev audio_poll : Poll
audio_poll = record { found = true; rx_bytes = pos 360; now = 200; elapsed = λ t period. true }

-- A session that plays: green, green again at the first audio, and off at the next.
blink_test :
    (on_idle
      (record audio_poll { rx_bytes = pos 720 })
      (on_idle audio_poll (on_idle quiet_poll (on_state State.playing (create_callback 0))))).shown
    ≡ off ∷ record off { g = 64 } ∷ record off { g = 64 } ∷ []
unfolding on_idle on_state create_callback
blink_test = refl

abbrev told : Callback
unfolding on_state create_callback
told = on_state State.playing (create_callback 0)

polled-trail_example :
    ((polled (quiet_poll ∷ audio_poll ∷ record audio_poll { rx_bytes = pos 720 } ∷ []) told).done
      ≡ State.playing)
    × ((polled (quiet_poll ∷ audio_poll ∷ record audio_poll { rx_bytes = pos 720 } ∷ []) told).shown
        ≡ off ∷ green ∷ green ∷ [])
unfolding on_idle create_callback on_state
polled-trail_example =
    polled-trail quiet_poll (audio_poll ∷ record audio_poll { rx_bytes = pos 720 } ∷ []) told
      (λ e. cc)
