-- ===== src/Server/Shared/Steps.antt =====
-- Every step of the server keeps the clients of all connections linked as their sessions say.
use wifi_audio.Common.{
  ℕ, ◌≡◌, ◌≢◌, refl, sym, ap, ◌∙◌, ◌⊎◌, inl, inr, Option, none, some, some_inj, Bytes, ret, fault,
  Fault, ◌>>=◌, Ensures, Ensures-eq, Ensures-both, NotAssertion, returns, Ensures-bind,
}
use mathlib.Core.Path.{subst}
use wifi_audio.Rtp.Links.{Links}
use wifi_audio.Rtsp.Types.{RtspCommand, State}
use wifi_audio.Rtsp.Session.{Session, create_session}
use wifi_audio.Server.Control.{create_client}
use wifi_audio.Server.Output.{Platform, RtspHandler, create_handler}
use wifi_audio.Server.Handler.{rtsp_handler, error}
use wifi_audio.Server.Handler.Invariant.{SessionInv}
use wifi_audio.Server.Handler.Safety.{process-SessionInv}
use wifi_audio.Server.Shared.Frame.{Foreign}
use wifi_audio.Server.Shared.Requests.{process-Foreign, none-ne-some}
use wifi_audio.Server.Shared.Linked.{session-SessionInv, others_own, AllLinked}
use wifi_audio.Server.Shared.Store.{store-AllLinked}
use wifi_audio.Server.Shared.Frame.{kept-Foreign}
use wifi_audio.Rtsp.Session.Machine.{process_dead}
use wifi_audio.Server.Shared.{
  Shared, with_engine, store, connect, replied, request, Step, connects, requests, disconnects,
  sends,
}
use wifi_audio.Server.Shared.Ends.{disconnect-AllLinked, sends-AllLinked}

module _ {k : Links} where
  connect-AllLinked :
      (i : ℕ) (s : Shared k) → s.sessions i ≡ none → AllLinked s → AllLinked (connect i s)
  unfolding connect create_client create_handler create_session
  connect-AllLinked i s free l =
      let made = create_client s.engine s.next_client s.factory in
      store-AllLinked s i made.1 made.0.1 made.0.1 made.0.0 l
        (kept-Foreign made.0.1 made.0.1 refl refl (λ a ne. refl))
        (record { fresh = l.fresh; holds = refl }) (λ c e. absurd (none-ne-some' (sym free ∙ e)))
        (λ j a c away is owns e. absurd (none-ne-some e)) (λ a e. absurd (none-ne-some e))
    where
      none-ne-some' :
          {c : Session × RtspHandler k}
          → ◌≡◌ {A = Option (Session × RtspHandler k)} none (some c)
          → ⊥
      none-ne-some' e = cc

  request-AllLinked :
      (platform : Platform) (i : ℕ) (bytes : Bytes) (c : Session × RtspHandler k) (s : Shared k)
      → s.sessions i ≡ some c
      → c.0.state ≢ State.dead
      → AllLinked s
      → Ensures NotAssertion
          (λ r. ((r.0 ≡ RtspCommand.play) × (c.0.state ≡ State.playing)) ⊎ AllLinked r.1)
          (request platform i bytes c s)
  unfolding request
  request-AllLinked platform i bytes c s is live l =
      Ensures-bind (replied i s)
        (Ensures-both (process-SessionInv platform bytes c.0 (with_engine s c.1) live inv)
          (process-Foreign platform bytes c.0 (with_engine s c.1) live inv))
        (λ r q. returns (next r q.0 q.1))
    where
      inv : SessionInv c.0.state (with_engine s c.1)
      inv = session-SessionInv s i c l is

      next :
          (r : RtspCommand × Session × RtspHandler k)
          → ((r.0 ≡ RtspCommand.play) × (c.0.state ≡ State.playing)) ⊎ SessionInv r.1.state r.2
          → ((r.0 ≡ RtspCommand.play) × (c.0.state ≡ State.playing))
            ⊎ Foreign (with_engine s c.1) r.2
          → ((r.0 ≡ RtspCommand.play) × (c.0.state ≡ State.playing)) ⊎ AllLinked (store i r.1 r.2 s)
      next r (inl replay) q = inl replay
      next r (inr h) (inl replay) = inl replay
      next (cmd, t, g) (inr h) (inr f) = inr (
          store-AllLinked s i s.factory c.1 g t l f h
            (λ d e. ap (λ d. d.1.rtp_client) (some_inj.0 (sym e ∙ is))) (others_own s i c l is)
            (λ a e. l.given i a c is e))

  -- The step is a PLAY in the PLAY state.
  abbrev pub IsReplay : {platform : Platform} {s t : Shared k} → Step platform s t → Type 0
  IsReplay (requests i c bytes cmd there is) =
      (cmd ≡ RtspCommand.play) × (c.0.state ≡ State.playing)
  IsReplay (connects i free is) = ⊥
  IsReplay (disconnects i c there is) = ⊥
  IsReplay (sends e same is) = ⊥

  -- A session that is DEAD stops at an assertion.
  request-live :
      (platform : Platform) (i : ℕ) (bytes : Bytes) (c : Session × RtspHandler k) (s : Shared k)
      (r : RtspCommand × Shared k)
      → request platform i bytes c s ≡ ret r
      → c.0.state ≢ State.dead
  unfolding request error
  request-live platform i bytes c s r is dead = fault-ne-ret (
      sym (
        ap (λ m. m >>= replied i s)
          (process_dead platform.luts (rtsp_handler platform) (λ code h. refl) bytes c.0
            (with_engine s c.1) dead))
      ∙ is)
    where
      fault-ne-ret : fault Fault.assertion ≢ ret r
      fault-ne-ret e = cc

  pub Step-AllLinked :
      (platform : Platform) {s t : Shared k} (step : Step platform s t)
      → AllLinked s
      → IsReplay step ⊎ AllLinked t
  Step-AllLinked platform {s} {t} (connects i free is) l =
      inr (subst AllLinked (sym is) (connect-AllLinked i s free l))
  Step-AllLinked platform {s} {t} (requests i c bytes cmd there is) l =
      Ensures-eq
        (request-AllLinked platform i bytes c s there
          (request-live platform i bytes c s (cmd, t) is) l)
        is
  Step-AllLinked platform {s} {t} (disconnects i c there is) l =
      inr (subst AllLinked (sym is) (disconnect-AllLinked i c s there l))
  Step-AllLinked platform {s} {t} (sends e same is) l =
      inr (subst AllLinked (sym is) (sends-AllLinked e s same l))
