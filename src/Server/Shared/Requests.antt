-- ===== src/Server/Shared/Requests.antt =====
-- Whole requests, and the RTP clients of the other connections.
use wifi_audio.Common.{
  ℕ, ◌≤◌, ◌≡◌, ◌≢◌, refl, sym, ap, ◌∙◌, ◌⊎◌, inl, inr, Option, none, some, some_inj, Bytes, arith,
  count, Bool-cases, Option-cases, ◌==◌, Ensures, NotAssertion, returns, ret, fault, Fault, stops,
  Ensures-if, Ensures-weaken, null_pointer-NotAssertion,
}
use mathlib.Core.Path.{subst}
use wifi_audio.Rtp.Links.{Links}
use wifi_audio.Rtp.Engine
use wifi_audio.Rtp.Engine.{RtpEngine}
use wifi_audio.Rtsp.Types.{
  RtspCommand, RtspHeader, State, e_ok, e_unsupported_transport, e_unsupported_media_type,
}
use wifi_audio.Rtsp.Parser.Rule.{Permitted, Keeps, reported}
use wifi_audio.Rtsp.Session.Machine.{commands_in}
use wifi_audio.Server.Output.{Platform, RtspHandler, send_error, terminate}
use wifi_audio.Server.Handler.{
  rtsp_handler, command, run_command, error, setup, play, pause, teardown, describe, options,
  new_rtp_client, usable_transport, setup_reply, play_reply,
}
use wifi_audio.Server.Handler.Frame.{
  describe-Replied, options-Replied, setup_reply-Replied, play_reply-Replied, stop_reply-Replied,
  send_error-Replied,
}
use wifi_audio.Server.Handler.Invariant.{SessionInv, Unlinked}
use wifi_audio.Server.Shared.Frame.{
  Foreign, kept-Foreign, Replied-Foreign, count-removed, unlinked-Foreign, linked-Foreign,
  renewed-Foreign,
}
use wifi_audio.Rtsp.Session.{Session, process, finish}
use wifi_audio.Rtsp.Session.Machine.{process-rule}
use wifi_audio.Server.Handler.Safety.{Permitted-client, finish_second_play}

pub none-ne-some : {i : ℕ} → ◌≡◌ {A = Option ℕ} none (some i) → ⊥
none-ne-some e = cc

module _ {k : Links} where
  pub SessionInv-once :
      (st : State) (h : RtspHandler k)
      → SessionInv st h
      → (a : ℕ) → h.rtp_client ≡ some a
      → count a (k.items h.engine.playing) ≤ 1
  SessionInv-once State.init h l a e = absurd (none-ne-some (sym l.holds ∙ e))
  SessionInv-once State.ready h l a e =
      let (i, is, lt, z) = l.holds in
      let same : i ≡ a = some_inj.0 (sym is ∙ e) in
      subst (λ a. count a (k.items h.engine.playing) ≤ 1) same (omega arith)
  SessionInv-once State.playing h l a e =
      let (i, is, lt, z) = l.holds in
      let same : i ≡ a = some_inj.0 (sym is ∙ e) in
      subst (λ a. count a (k.items h.engine.playing) ≤ 1) same z
  SessionInv-once State.dead h l a e =
      let z : count a (k.items h.engine.playing) ≡ 0 =
        subst (λ c. Unlinked c (k.items h.engine.playing)) e l.holds in
      omega (arith, z)

module _ {k : Links} (platform : Platform) (st : State) where
  -- A PLAY in the PLAY state links the client a second time; every other request leaves the clients of
  -- others alone.
  abbrev Leaves : RtspHandler k → RtspCommand → RtspHandler k → Type 0
  Leaves h cmd g = ((cmd ≡ RtspCommand.play) × (st ≡ State.playing)) ⊎ Foreign h g

  setup-Leaves :
      (h : RtspHandler k) (hdrs : RtspHeader)
      → SessionInv st h
      → Ensures NotAssertion
          (λ r. Leaves h (reported RtspCommand.setup e_ok r.0) r.1)
          (setup platform hdrs h)
  unfolding setup
  setup-Leaves h hdrs l = elim (Option-cases (usable_transport hdrs.transport)) [
    | inl e ↦
        rw (e, setup)
          (returns {a = send_error platform (some hdrs) e_unsupported_transport h} (
            inr (
              Replied-Foreign (send_error-Replied platform (some hdrs) e_unsupported_transport h))))
    | inr (t, e) ↦
        rw (e, setup)
          (Ensures-if _
            (returns {a = (e_ok, new_rtp_client platform t (setup_reply platform hdrs h))} (
              inr (
                renewed-Foreign platform h (setup_reply platform hdrs h) t
                  (setup_reply-Replied platform hdrs h) (SessionInv-once st h l))))
            (stops null_pointer-NotAssertion))
  ]

  play-Leaves :
      (h : RtspHandler k) (hdrs : RtspHeader)
      → (st ≡ State.ready) ⊎ (st ≡ State.playing)
      → SessionInv st h
      → Ensures NotAssertion
          (λ r. Leaves h (reported RtspCommand.play e_ok r.0) r.1)
          (play platform hdrs h)
  unfolding play
  play-Leaves h hdrs p l = by_state p
    where
      played : ℕ → ℕ × RtspHandler k
      played i = (
        e_ok,
        record (play_reply platform hdrs h) {
          engine = Engine.play (play_reply platform hdrs h).engine (some i);
        },
      )

      plays : {i : ℕ} → h.rtp_client ≡ some i → play platform hdrs h ≡ ret (played i)
      plays is = ap (λ c. elim c [ none ↦ fault Fault.assertion | some i ↦ ret (played i) ]) is

      leaves :
          (i : ℕ)
          → h.rtp_client ≡ some i
          → Leaves h RtspCommand.play (played i).1
          → Ensures NotAssertion
              (λ r. Leaves h (reported RtspCommand.play e_ok r.0) r.1)
              (play platform hdrs h)
      leaves i is after =
          subst (Ensures NotAssertion (λ r. Leaves h (reported RtspCommand.play e_ok r.0) r.1))
            (sym (plays is)) (returns {a = played i} after)

      by_state :
          (st ≡ State.ready) ⊎ (st ≡ State.playing)
          → Ensures NotAssertion
              (λ r. Leaves h (reported RtspCommand.play e_ok r.0) r.1)
              (play platform hdrs h)
      by_state (inl e) =
          let (i, is, lt, z) = (subst (λ st. SessionInv st h) e l).holds in
          leaves i is (
            inr (
              linked-Foreign h (play_reply platform hdrs h) i (play_reply-Replied platform hdrs h)
                is z))
      by_state (inr e) =
          let (i, is, lt, z) = (subst (λ st. SessionInv st h) e l).holds in
          leaves i is (inl (refl, e))

  run_command-Leaves :
      (cmd : RtspCommand) (h : RtspHandler k) (hdrs : RtspHeader)
      → st ≢ State.dead
      → cmd ≢ RtspCommand.unknown
      → Permitted (commands_in st) cmd
      → SessionInv st h
      → Ensures NotAssertion
          (λ r. Leaves h (reported cmd e_ok r.0) r.1)
          (run_command platform cmd hdrs h)
  unfolding run_command terminate teardown pause
  run_command-Leaves RtspCommand.describe h hdrs n u p l = elim (Bool-cases hdrs.accept_sdp) [
    | inl e ↦
        rw (e, run_command)
          (returns {a = describe platform hdrs h}
            (inr (Replied-Foreign (describe-Replied platform hdrs h))))
    | inr e ↦
        rw (e, run_command)
          (returns {a = send_error platform (some hdrs) e_unsupported_media_type h} (
            inr (
              Replied-Foreign
                (send_error-Replied platform (some hdrs) e_unsupported_media_type h))))
  ]
  run_command-Leaves RtspCommand.options h hdrs n u p l =
      returns {a = options platform hdrs h}
        (inr (Replied-Foreign (options-Replied platform hdrs h)))
  run_command-Leaves RtspCommand.setup h hdrs n u p l = setup-Leaves h hdrs l
  run_command-Leaves RtspCommand.play h hdrs n u p l =
      play-Leaves h hdrs (Permitted-client st RtspCommand.play n (inl refl) p) l
  run_command-Leaves RtspCommand.pause h hdrs n u p l =
      returns {a = pause platform hdrs h}
        (inr (unlinked-Foreign h _ (stop_reply-Replied platform hdrs h)))
  run_command-Leaves RtspCommand.teardown h hdrs n u p l =
      returns {a = teardown platform hdrs h}
        (inr (unlinked-Foreign h _ (stop_reply-Replied platform hdrs h)))
  run_command-Leaves RtspCommand.kill h hdrs n u p l =
      returns {a = (e_ok, terminate h)}
        (inr (kept-Foreign h _ refl refl (count-removed h.engine h.rtp_client)))
  run_command-Leaves RtspCommand.unknown h hdrs n u p l = absurd (u refl)

  keeps :
      (h : RtspHandler k)
      → st ≢ State.dead
      → SessionInv st h
      → Keeps NotAssertion (rtsp_handler platform) (λ g. g ≡ h) (Leaves h) (commands_in st)
  unfolding error command
  keeps h n l = record {
    on_error = λ g code same.
        subst (λ g. Leaves h (error platform code g).0 (error platform code g).1) (sym same)
          (inr (Replied-Foreign (send_error-Replied platform none code h)));
    on_command = λ g cmd uri hdr code same u ok.
        subst
          (λ g.
            Ensures NotAssertion (λ r. Leaves h (reported cmd code r.0) r.1)
              (command platform cmd uri hdr code g))
          (sym same) (at cmd uri hdr code u ok);
  }
    where
      at :
          (cmd : RtspCommand) (uri : Option Bytes) (hdr : RtspHeader) (code : ℕ)
          → cmd ≢ RtspCommand.unknown
          → (code ≡ e_ok → Permitted (commands_in st) cmd)
          → Ensures NotAssertion
              (λ r. Leaves h (reported cmd code r.0) r.1)
              (command platform cmd uri hdr code h)
      at cmd uri hdr code u ok = elim (Bool-cases (code == e_ok)) [
        | inl e ↦
            let is : code ≡ e_ok = ground (arith, e) in
            rw (is, command) (run_command-Leaves cmd h hdr n u (ok is) l)
        | inr e ↦
            rw (e, command)
              (returns {a = send_error platform (some hdr) code h}
                (inr (Replied-Foreign (send_error-Replied platform (some hdr) code h))))
      ]

-- In a session that is not DEAD: what a request leaves of the other clients, unless it is a PLAY in the
-- PLAY state.
pub process-Foreign :
    {k : Links} (platform : Platform) (bytes : Bytes) (s : Session) (h : RtspHandler k)
    → s.state ≢ State.dead
    → SessionInv s.state h
    → Ensures NotAssertion
        (λ r. ((r.0 ≡ RtspCommand.play) × (s.state ≡ State.playing)) ⊎ Foreign h r.2)
        (process platform.luts (rtsp_handler platform) bytes s h)
process-Foreign {k} platform bytes s h live l =
    Ensures-weaken (λ e n. n) (λ r q. next r q.0 q.1 q.2)
      (process-rule (λ e n. n) platform.luts (rtsp_handler platform) (λ g. g ≡ h)
        (Leaves platform s.state h) s live (keeps platform s.state h live l) bytes h refl)
  where
    next :
        (r : RtspCommand × Session × RtspHandler k) (cmd : RtspCommand)
        → Leaves platform s.state h cmd r.2
        → (r.0, r.1) ≡ finish cmd s
        → ((r.0 ≡ RtspCommand.play) × (s.state ≡ State.playing)) ⊎ Foreign h r.2
    next (c, t, g) cmd (inl (p, q)) f = inl (ap (λ x. x.0) f ∙ finish_second_play s cmd p q, q)
    next (c, t, g) cmd (inr a) f = inr a
