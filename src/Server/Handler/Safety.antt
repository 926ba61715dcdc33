-- ===== src/Server/Handler/Safety.antt =====
-- The assertions of the handler, and whole requests in each state of the session.
use wifi_audio.Common.{
  ℕ, ◌≡◌, ◌≢◌, refl, sym, ap, ◌⊎◌, inl, inr, true, false, none, some, Bytes, arith, Bool-cases,
  Option-cases, ◌==◌, ◌&&◌, Ensures, NotAssertion, returns, stops, Ensures-if,
  null_pointer-NotAssertion, Ensures-weaken, ◌∙◌,
}
use mathlib.Core.Path.{subst}
use wifi_audio.Rtp.Links.{Links}
use wifi_audio.Rtp.Engine
use wifi_audio.Rtp.Engine.{RtpEngine}
use wifi_audio.Rtsp.Types.{
  RtspCommand, RtspHeader, State, e_ok, e_unsupported_transport, e_unsupported_media_type,
}
use wifi_audio.Rtsp.Parser.{is_allowable}
use wifi_audio.Rtsp.Parser.Rule.{Permitted, Keeps, reported}
use wifi_audio.Rtsp.Session.{Session, process, finish}
use wifi_audio.Rtsp.Session.Machine.{commands_in, next_state, process-rule}
use wifi_audio.Server.Output.{Platform, RtspHandler, send_error, terminate}
use wifi_audio.Server.Handler.{
  rtsp_handler, command, run_command, error, setup, play, pause, teardown, describe, options,
  new_rtp_client, usable_transport, setup_reply, play_reply,
}
use wifi_audio.Server.Handler.Frame.{
  Replied, describe-Replied, options-Replied, setup_reply-Replied, play_reply-Replied,
  stop_reply-Replied, send_error-Replied,
}
use wifi_audio.Server.Handler.Invariant.{
  SessionInv, owned, remove-dead, remove-ready, play-playing, renewed, Replied-SessionInv,
}

-- Where PLAY, PAUSE and TEARDOWN are permitted there is a client.
pub Permitted-client :
    (st : State) (cmd : RtspCommand)
    → st ≢ State.dead
    → (cmd ≡ RtspCommand.play) ⊎ (cmd ≡ RtspCommand.pause)
    → Permitted (commands_in st) cmd
    → (st ≡ State.ready) ⊎ (st ≡ State.playing)
unfolding is_allowable
Permitted-client State.init cmd n c p = absurd (ground arith)
Permitted-client State.ready cmd n c p = inl refl
Permitted-client State.playing cmd n c p = inr refl
Permitted-client State.dead cmd n c p = absurd (n refl)

module _ {k : Links} where
  -- A PLAY in the PLAY state links the client a second time; every other request keeps the invariant.
  abbrev pub After : State → RtspCommand → RtspHandler k → Type 0
  After st cmd h =
      ((cmd ≡ RtspCommand.play) × (st ≡ State.playing)) ⊎ SessionInv (next_state st cmd) h

  module _ (platform : Platform) where
    -- A reply that reports no command leaves the state as it is.
    unreported :
        (st : State) {h g : RtspHandler k}
        → Replied h g
        → SessionInv st h
        → After st RtspCommand.unknown g
    unreported State.init p l = inr (Replied-SessionInv State.init p l)
    unreported State.ready p l = inr (Replied-SessionInv State.ready p l)
    unreported State.playing p l = inr (Replied-SessionInv State.playing p l)
    unreported State.dead p l = inr (Replied-SessionInv State.dead p l)

    setup-After :
        (st : State) (h : RtspHandler k) (hdrs : RtspHeader)
        → st ≢ State.dead
        → SessionInv st h
        → Ensures NotAssertion
            (λ r. After st (reported RtspCommand.setup e_ok r.0) r.1)
            (setup platform hdrs h)
    unfolding setup
    setup-After st h hdrs n l = elim (Option-cases (usable_transport hdrs.transport)) [
      | inl e ↦
          rw (e, setup)
            (returns {a = send_error platform (some hdrs) e_unsupported_transport h}
              (unreported st (send_error-Replied platform (some hdrs) e_unsupported_transport h) l))
      | inr (t, e) ↦
          rw (e, setup)
            (Ensures-if _
              (returns {a = (e_ok, new_rtp_client platform t (setup_reply platform hdrs h))} (
                inr (
                  renewed st (setup_reply platform hdrs h) t platform n
                    (Replied-SessionInv st (setup_reply-Replied platform hdrs h) l))))
              (stops null_pointer-NotAssertion))
    ]

    play-After :
        (st : State) (h : RtspHandler k) (hdrs : RtspHeader)
        → (st ≡ State.ready) ⊎ (st ≡ State.playing)
        → SessionInv st h
        → Ensures NotAssertion
            (λ r. After st (reported RtspCommand.play e_ok r.0) r.1)
            (play platform hdrs h)
    unfolding play
    play-After State.ready h hdrs p l =
        let (i, is, lt, z) = l.holds in
        let f = play_reply-Replied platform hdrs h in
        rw (is, play)
          (returns
            {a = (
              e_ok,
              record (play_reply platform hdrs h) {
                engine = Engine.play (play_reply platform hdrs h).engine (some i);
              },
            )}
            (inr (
              rw (f.rtp_client, f.next_client, f.engine, is)
                (play-playing h.engine i h.next_client lt z l.fresh))))
    play-After State.playing h hdrs p l =
        let (i, is, lt, z) = l.holds in
        rw (is, play)
          (returns
            {a = (
              e_ok,
              record (play_reply platform hdrs h) {
                engine = Engine.play (play_reply platform hdrs h).engine (some i);
              },
            )}
            (inl (refl, refl)))
    play-After State.init h hdrs p l = absurd (ground arith)
    play-After State.dead h hdrs p l = absurd (ground arith)

    pause-After :
        (st : State) (h : RtspHandler k) (hdrs : RtspHeader)
        → (st ≡ State.ready) ⊎ (st ≡ State.playing)
        → SessionInv st h
        → After st RtspCommand.pause (pause platform hdrs h).1
    unfolding pause
    pause-After State.ready h hdrs p l =
        let f = stop_reply-Replied platform hdrs h in
        inr (
          rw (f.rtp_client, f.next_client, f.engine)
            (remove-ready h.engine h.rtp_client h.next_client (owned State.ready p l) l.fresh))
    pause-After State.playing h hdrs p l =
        let f = stop_reply-Replied platform hdrs h in
        inr (
          rw (f.rtp_client, f.next_client, f.engine)
            (remove-ready h.engine h.rtp_client h.next_client (owned State.playing p l) l.fresh))
    pause-After State.init h hdrs p l = absurd (ground arith)
    pause-After State.dead h hdrs p l = absurd (ground arith)

    teardown-After :
        (st : State) (h : RtspHandler k) (hdrs : RtspHeader)
        → st ≢ State.dead
        → SessionInv st h
        → After st RtspCommand.teardown (teardown platform hdrs h).1
    unfolding teardown
    teardown-After st h hdrs n l =
        let f = stop_reply-Replied platform hdrs h in
        inr (rw (f.rtp_client, f.next_client, f.engine) (remove-dead st n l))

    kept :
        (st : State) {h g : RtspHandler k} (cmd : RtspCommand)
        → next_state st cmd ≡ st
        → Replied h g
        → SessionInv st h
        → After st cmd g
    kept st cmd same p l = inr (rw same (Replied-SessionInv st p l))

    run_command-After :
        (st : State) (cmd : RtspCommand) (h : RtspHandler k) (hdrs : RtspHeader)
        → st ≢ State.dead
        → cmd ≢ RtspCommand.unknown
        → Permitted (commands_in st) cmd
        → SessionInv st h
        → Ensures NotAssertion
            (λ r. After st (reported cmd e_ok r.0) r.1)
            (run_command platform cmd hdrs h)
    unfolding run_command terminate
    run_command-After st RtspCommand.describe h hdrs n u p l = elim (Bool-cases hdrs.accept_sdp) [
      | inl e ↦
          rw (e, run_command)
            (returns {a = describe platform hdrs h}
              (kept st RtspCommand.describe (unchanged st) (describe-Replied platform hdrs h) l))
      | inr e ↦
          rw (e, run_command)
            (returns {a = send_error platform (some hdrs) e_unsupported_media_type h} (
              unreported st (send_error-Replied platform (some hdrs) e_unsupported_media_type h) l))
    ]
      where
        unchanged : (st : State) → next_state st RtspCommand.describe ≡ st
        unchanged State.init = refl
        unchanged State.ready = refl
        unchanged State.playing = refl
        unchanged State.dead = refl
    run_command-After st RtspCommand.options h hdrs n u p l =
        returns {a = options platform hdrs h}
          (kept st RtspCommand.options (unchanged st) (options-Replied platform hdrs h) l)
      where
        unchanged : (st : State) → next_state st RtspCommand.options ≡ st
        unchanged State.init = refl
        unchanged State.ready = refl
        unchanged State.playing = refl
        unchanged State.dead = refl
    run_command-After st RtspCommand.setup h hdrs n u p l = setup-After st h hdrs n l
    run_command-After st RtspCommand.play h hdrs n u p l =
        play-After st h hdrs (Permitted-client st RtspCommand.play n (inl refl) p) l
    run_command-After st RtspCommand.pause h hdrs n u p l =
        returns {a = pause platform hdrs h}
          (pause-After st h hdrs (Permitted-client st RtspCommand.pause n (inr refl) p) l)
    run_command-After st RtspCommand.teardown h hdrs n u p l =
        returns {a = teardown platform hdrs h} (teardown-After st h hdrs n l)
    run_command-After st RtspCommand.kill h hdrs n u p l =
        returns {a = (e_ok, terminate h)} (inr (remove-dead st n l))
    run_command-After st RtspCommand.unknown h hdrs n u p l = absurd (u refl)

    -- A request in a state that is not DEAD, as the parser hands it to the handler.
    keeps :
        (st : State)
        → st ≢ State.dead
        → Keeps NotAssertion (rtsp_handler platform) (SessionInv st) (After st) (commands_in st)
    unfolding error command
    keeps st n = record {
      on_error = λ h code l. unreported st (send_error-Replied platform none code h) l;
      on_command = λ h cmd uri hdr code l u ok. elim (Bool-cases (code == e_ok)) [
        | inl e ↦ rw (is_ok e, command) (run_command-After st cmd h hdr n u (ok (is_ok e)) l)
        | inr e ↦
            rw (e, command)
              (returns {a = send_error platform (some hdr) code h} (
                rw (no_code (send_error platform (some hdr) code h).0)
                  (unreported st (send_error-Replied platform (some hdr) code h) l)))
      ];
    }
      where
        no_code : (c : ℕ) → (c == e_ok && false) ≡ false
        no_code c = ground arith

        is_ok : {code : ℕ} → (code == e_ok) ≡ true → code ≡ e_ok
        is_ok e = ground arith

finish-next_state :
    (s : Session) (st : State) (cmd : RtspCommand)
    → s.state ≡ st
    → st ≢ State.dead
    → (finish cmd s).1.state ≡ next_state st cmd
unfolding finish
finish-next_state s State.init RtspCommand.setup e n = rw (e, finish) refl
finish-next_state s State.init RtspCommand.teardown e n = refl
finish-next_state s State.init RtspCommand.kill e n = refl
finish-next_state s State.init cmd e n = rw (e, finish) refl
finish-next_state s State.ready RtspCommand.play e n = rw (e, finish) refl
finish-next_state s State.ready RtspCommand.teardown e n = refl
finish-next_state s State.ready RtspCommand.kill e n = refl
finish-next_state s State.ready cmd e n = rw (e, finish) refl
finish-next_state s State.playing RtspCommand.pause e n = rw (e, finish) refl
finish-next_state s State.playing RtspCommand.teardown e n = refl
finish-next_state s State.playing RtspCommand.kill e n = refl
finish-next_state s State.playing cmd e n = rw (e, finish) refl
finish-next_state s State.dead cmd e n = absurd (n refl)

pub finish_second_play :
    (s : Session) (cmd : RtspCommand)
    → cmd ≡ RtspCommand.play
    → s.state ≡ State.playing
    → (finish cmd s).0 ≡ RtspCommand.play
unfolding finish
finish_second_play s RtspCommand.play p e = rw (e, finish) refl
finish_second_play s _ p e = absurd (ground arith)

module _ {k : Links} (platform : Platform) where
  -- For every request, in a session that is not DEAD and whose client is linked as its state says, no
  -- ASSERT of the handler, the parser or the session fails, PLAY's ASSERT of a client among them; and
  -- if the request does not fault, the client is linked as the new state says, but after a PLAY in the
  -- PLAY state.
  pub process-SessionInv :
      (bytes : Bytes) (s : Session) (h : RtspHandler k)
      → s.state ≢ State.dead
      → SessionInv s.state h
      → Ensures NotAssertion
          (λ r. ((r.0 ≡ RtspCommand.play) × (s.state ≡ State.playing)) ⊎ SessionInv r.1.state r.2)
          (process platform.luts (rtsp_handler platform) bytes s h)
  process-SessionInv bytes s h live l =
      Ensures-weaken (λ e n. n) (λ r q. next r q.0 q.1 q.2)
        (process-rule (λ e n. n) platform.luts (rtsp_handler platform) (SessionInv s.state)
          (After s.state) s live (keeps platform s.state live) bytes h l)
    where
      next :
          (r : RtspCommand × Session × RtspHandler k) (cmd : RtspCommand)
          → After s.state cmd r.2
          → (r.0, r.1) ≡ finish cmd s
          → ((r.0 ≡ RtspCommand.play) × (s.state ≡ State.playing)) ⊎ SessionInv r.1.state r.2
      next (c, t, g) cmd (inl (p, q)) f = inl (ap (λ x. x.0) f ∙ finish_second_play s cmd p q, q)
      next (c, t, g) cmd (inr a) f = inr (
          subst (λ st. SessionInv st g)
            (sym (ap (λ x. x.1.state) f ∙ finish-next_state s s.state cmd refl live)) a)
