-- ===== src/Server/Handler/Invariant.antt =====
-- What links an RTSP session to the engine's playing list, and the calls of the engine that keep it.
use wifi_audio.Common.{
  ℕ, ◌≤◌, ◌<◌, ◌≡◌, ◌≢◌, refl, ◌⊎◌, inl, inr, List, Option, none, some, arith, count,
}
use wifi_audio.Rtp.Links.{Links}
use wifi_audio.Rtp.Engine
use wifi_audio.Rtp.Engine.{RtpEngine}
use wifi_audio.Rtsp.Types.{RtspCommand, Transport, State}
use wifi_audio.Rtsp.Session.Machine.{next_state}
use wifi_audio.Server.Output.{Platform, RtspHandler, terminate}
use wifi_audio.Server.Handler.{new_rtp_client}
use wifi_audio.Server.Handler.Frame.{Replied}

-- A client that is not in a list.
abbrev pub Unlinked : Option ℕ → List ℕ → Type 0
Unlinked none xs = Unit
Unlinked (some i) xs = count i xs ≡ 0

-- The client that a session holds in a state, and how often it is linked.
abbrev pub Holds : State → Option ℕ → ℕ → List ℕ → Type 0
Holds State.init c next xs = c ≡ none
Holds State.ready c next xs = (i : ℕ) × (c ≡ some i) × (i < next) × (count i xs ≡ 0)
Holds State.playing c next xs = (i : ℕ) × (c ≡ some i) × (i < next) × (count i xs ≤ 1)
Holds State.dead c next xs = Unlinked c xs

module _ {k : Links} where
  -- Before SETUP there is no client; in READY it is not linked; in PLAY it is linked at most once; after
  -- the end it is not linked. Addresses not handed out yet are in no list.
  pub record Linked (st : State) (e : RtpEngine k) (c : Option ℕ) (next : ℕ) : Type 0 where
    pub fresh : (a : ℕ) → next ≤ a → count a (k.items e.playing) ≡ 0
    pub holds : Holds st c next (k.items e.playing)

  abbrev pub SessionInv : State → RtspHandler k → Type 0
  SessionInv st h = Linked st h.engine h.rtp_client h.next_client

  -- The client of a session that was set up.
  pub record Owner (e : RtpEngine k) (c : Option ℕ) (next : ℕ) : Type 0 where
    pub id : ℕ
    pub is : c ≡ some id
    pub given : id < next
    pub once : count id (k.items e.playing) ≤ 1

  remove-fresh :
      (e : RtpEngine k) (c : Option ℕ) (next a : ℕ)
      → count a (k.items e.playing) ≡ 0
      → count a (k.items (Engine.remove e c).playing) ≡ 0
  unfolding Engine.remove
  remove-fresh e none next a h = h
  remove-fresh e (some i) next a h = ground (arith, k.count-remove a i e.playing, h)

  remove-Unlinked :
      (e : RtpEngine k) (c : Option ℕ) (next : ℕ)
      → (c ≡ none) ⊎ Owner e c next
      → Unlinked c (k.items (Engine.remove e c).playing)
  unfolding Engine.remove
  remove-Unlinked e none next o = tt
  remove-Unlinked e (some i) next (inl h) = cc
  remove-Unlinked e (some i) next (inr o) =
      ground (arith, k.count-remove i i e.playing, o.is, o.once)

  module _ {e : RtpEngine k} {c : Option ℕ} {next : ℕ} where
    owner : (st : State) → st ≢ State.dead → Linked st e c next → (c ≡ none) ⊎ Owner e c next
    owner State.init n l = inl l.holds
    owner State.ready n l =
        let (i, is, lt, z) = l.holds in
        inr (record { id = i; is = is; given = lt; once = omega arith })
    owner State.playing n l =
        let (i, is, lt, z) = l.holds in inr (record { id = i; is = is; given = lt; once = z })
    owner State.dead n l = absurd (n refl)

    pub owned :
        (st : State)
        → (st ≡ State.ready) ⊎ (st ≡ State.playing)
        → Linked st e c next
        → Owner e c next
    owned State.ready p l =
        let (i, is, lt, z) = l.holds in record { id = i; is = is; given = lt; once = omega arith }
    owned State.playing p l =
        let (i, is, lt, z) = l.holds in record { id = i; is = is; given = lt; once = z }
    owned State.init p l = absurd (ground arith)
    owned State.dead p l = absurd (ground arith)

    -- The end of a session, by TEARDOWN, KILL or a closed connection.
    pub remove-dead :
        (st : State)
        → st ≢ State.dead
        → Linked st e c next
        → Linked State.dead (Engine.remove e c) c next
    remove-dead st n l = record {
      fresh = λ a h. remove-fresh e c next a (l.fresh a h);
      holds = remove-Unlinked e c next (owner st n l);
    }

  -- PAUSE.
  pub remove-ready :
      (e : RtpEngine k) (c : Option ℕ) (next : ℕ)
      → Owner e c next
      → ((a : ℕ) → next ≤ a → count a (k.items e.playing) ≡ 0)
      → Linked State.ready (Engine.remove e c) c next
  remove-ready e none next o f = absurd (none-ne-some o.is)
    where
      none-ne-some : {i : ℕ} → ◌≡◌ {A = Option ℕ} none (some i) → ⊥
      none-ne-some p = cc
  remove-ready e (some i) next o f = record {
    fresh = λ a h. remove-fresh e (some i) next a (f a h);
    holds = (i, refl, ground (arith, o.is, o.given), remove-Unlinked e (some i) next (inr o));
  }

  -- PLAY.
  pub play-playing :
      (e : RtpEngine k) (i next : ℕ)
      → i < next
      → count i (k.items e.playing) ≡ 0
      → ((a : ℕ) → next ≤ a → count a (k.items e.playing) ≡ 0)
      → Linked State.playing (Engine.play e (some i)) (some i) next
  unfolding Engine.play
  play-playing e i next lt z f = record {
    fresh = λ a h. ground (arith, k.count-push a i e.playing z, f a h);
    holds = (i, refl, lt, ground (arith, k.count-push i i e.playing z));
  }

  -- SETUP: a new client takes the place of the old one.
  pub renewed :
      (st : State) (h : RtspHandler k) (t : Transport) (platform : Platform)
      → st ≢ State.dead
      → SessionInv st h
      → SessionInv (next_state st RtspCommand.setup) (new_rtp_client platform t h)
  unfolding new_rtp_client
  renewed st h t platform n l = by_state st n
    where
      gone :
          (a : ℕ)
          → h.next_client ≤ a
          → count a (k.items (Engine.remove h.engine h.rtp_client).playing) ≡ 0
      gone a q = remove-fresh h.engine h.rtp_client h.next_client a (l.fresh a q)

      new_one : count h.next_client (k.items (Engine.remove h.engine h.rtp_client).playing) ≡ 0
      new_one = gone h.next_client (omega arith)

      by_state :
          (st : State)
          → st ≢ State.dead
          → SessionInv (next_state st RtspCommand.setup) (new_rtp_client platform t h)
      by_state State.init n = record {
        fresh = λ a q. gone a (omega arith);
        holds = (h.next_client, refl, omega arith, new_one);
      }
      by_state State.ready n = record {
        fresh = λ a q. gone a (omega arith);
        holds = (h.next_client, refl, omega arith, new_one);
      }
      by_state State.playing n = record {
        fresh = λ a q. gone a (omega arith);
        holds = (h.next_client, refl, omega arith, omega (arith, new_one));
      }
      by_state State.dead n = absurd (n refl)

  pub Replied-SessionInv :
      (st : State) {h g : RtspHandler k} → Replied h g → SessionInv st h → SessionInv st g
  Replied-SessionInv st p l = rw (p.engine, p.rtp_client, p.next_client) l

  remove_again :
      (e : RtpEngine k) (c : Option ℕ)
      → Unlinked c (k.items e.playing)
      → Unlinked c (k.items (Engine.remove e c).playing)
  unfolding Engine.remove
  remove_again e none h = tt
  remove_again e (some i) h = ground (arith, k.count-remove i i e.playing, h)

  -- The end of a connection, in any state.
  pub terminate-Unlinked :
      (st : State) (h : RtspHandler k)
      → SessionInv st h
      → Unlinked (terminate h).rtp_client (k.items (terminate h).engine.playing)
  unfolding terminate
  terminate-Unlinked State.dead h l = remove_again h.engine h.rtp_client l.holds
  terminate-Unlinked State.init h l =
      remove-Unlinked h.engine h.rtp_client h.next_client (owner State.init (λ e. cc) l)
  terminate-Unlinked State.ready h l =
      remove-Unlinked h.engine h.rtp_client h.next_client (owner State.ready (λ e. cc) l)
  terminate-Unlinked State.playing h l =
      remove-Unlinked h.engine h.rtp_client h.next_client (owner State.playing (λ e. cc) l)
