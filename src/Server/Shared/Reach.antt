-- ===== src/Server/Shared/Reach.antt =====
-- What a server reaches from no connection, in whatever order the steps of its connections come.
use wifi_audio.Common.{◌≡◌, ap, ◌⊎◌, inl, inr, Option, none, some, arith, count, []}
use wifi_audio.Rtp.Links.{Links}
use wifi_audio.Rtp.Engine.{RtpEngine}
use wifi_audio.Rtsp.Session.{Session}
use wifi_audio.Server.Output.{Platform, RtspHandler}
use wifi_audio.Server.Shared.Linked.{AllLinked}
use wifi_audio.Server.Control.{Factory}
use wifi_audio.Server.Shared.Steps.{IsReplay, Step-AllLinked}
use wifi_audio.Server.Shared.{Shared, Step}

module _ {k : Links} where
  -- Steps in any order.
  pub data Run (platform : Platform) (s : Shared k) : Shared k → Type 0 where
    here : Run platform s s
    next : {t u : Shared k} → Run platform s t → Step platform t u → Run platform s u

  abbrev pub Replayed : {platform : Platform} {s t : Shared k} → Run platform s t → Type 0
  Replayed here = ⊥
  Replayed (next r step) = Replayed r ⊎ IsReplay step

  -- A server to which no client is connected.
  unfoldable pub new_server : RtpEngine k → Factory → Shared k
  new_server engine factory = record {
    engine = engine;
    next_client = 0;
    factory = factory;
    sessions = λ i. none;
  }

  new_server-AllLinked :
      (engine : RtpEngine k) (factory : Factory)
      → k.items engine.playing ≡ []
      → AllLinked (new_server engine factory)
  unfolding new_server
  new_server-AllLinked engine factory empty = record {
    fresh = λ a le. ap (count a) empty;
    holds = λ i c e. absurd (nobody e);
    given = λ i a c e. absurd (nobody e);
    own = λ i j a c d e. absurd (nobody e);
    played = λ a lt.
        absurd (
          let z : count a (k.items engine.playing) ≡ 0 = ap (count a) empty in
          omega (arith, z, lt));
  }
    where
      nobody :
          {c : Session × RtspHandler k}
          → ◌≡◌ {A = Option (Session × RtspHandler k)} none (some c)
          → ⊥
      nobody e = cc

  -- From a server with no connection and an empty playing list, whatever steps follow in whatever
  -- order (connections that begin and end, requests of any of them, packets that are sent): each
  -- session's client is in the playing list at most once if the session plays, and not at all if it
  -- does not; no two sessions have one client; each client in the list is that of a session that
  -- plays; and no address that is still to be given out is in it. The exception is a run in which PLAY
  -- was processed for a session in the PLAY state.
  pub server-AllLinked :
      (platform : Platform) (engine : RtpEngine k) (factory : Factory) {t : Shared k}
      → k.items engine.playing ≡ []
      → (r : Run platform (new_server engine factory) t) → Replayed r ⊎ AllLinked t
  server-AllLinked platform engine factory empty here =
      inr (new_server-AllLinked engine factory empty)
  server-AllLinked platform engine factory empty (next r step) =
      elim (server-AllLinked platform engine factory empty r) [
        | inl old ↦ inl (inl old)
        | inr l ↦ elim (Step-AllLinked platform step l) [ inl now ↦ inl (inr now) | inr m ↦ inr m ]
      ]
