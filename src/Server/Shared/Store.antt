-- ===== src/Server/Shared/Store.antt =====
-- A connection whose session and handler are new: the invariant of all connections.
use wifi_audio.Common.{
  ℕ, ◌<◌, ◌≡◌, ◌≢◌, refl, sym, ap, ◌∙◌, ◌⊎◌, inl, inr, Option, none, some, some_inj, arith, count,
  Bool-cases, ◌==◌,
}
use mathlib.Core.Path.{subst}
use wifi_audio.Rtp.Links.{Links}
use wifi_audio.Rtsp.Types.{State}
use wifi_audio.Rtsp.Session.{Session}
use wifi_audio.Server.Output.{RtspHandler}
use wifi_audio.Server.Handler.Invariant.{Holds, Unlinked, SessionInv}
use wifi_audio.Server.Shared.Frame.{Foreign}
use wifi_audio.Server.Shared.Requests.{none-ne-some}
use wifi_audio.Server.Shared.Linked.{
  Holds-kept, linked, IsPlayed, AllLinked, updated, update_here, update_away,
}
use wifi_audio.Server.Control.{Factory}
use wifi_audio.Server.Shared.{Shared, with_engine, store}

pub same_client : (c : Option ℕ) (a : ℕ) → (c ≡ some a) ⊎ (c ≢ some a)
same_client none a = inr (λ e. cc)
same_client (some n) a = elim (Bool-cases (n == a)) [
  | inl e ↦ inl (let same : n ≡ a = ground (arith, e) in ap some same)
  | inr e ↦ inr (λ same. let eq : n ≡ a = some_inj.0 same in ground (arith, e, eq))
]

module _ {k : Links} (s : Shared k) (i : ℕ) (f : Factory) (h g : RtspHandler k) (t : Session)
    (l : AllLinked s) (foreign : Foreign (with_engine s h) g) (inv : SessionInv t.state g)
    (was : (c : Session × RtspHandler k) → s.sessions i ≡ some c → c.1.rtp_client ≡ h.rtp_client)
    (mine : (j a : ℕ) (c : Session × RtspHandler k)
      → j ≢ i
      → s.sessions j ≡ some c
      → c.1.rtp_client ≡ some a
      → h.rtp_client ≢ some a)
    (old : (a : ℕ) → h.rtp_client ≡ some a → a < s.next_client) where
  abbrev after : Shared k
  after = record (store i t g s) { factory = f }

  after-Holds :
      (j : ℕ) (c : Session × RtspHandler k)
      → after.sessions j ≡ some c
      → Holds c.0.state c.1.rtp_client after.next_client (k.items after.engine.playing)
  after-Holds j c e = elim (updated s i j (some (t, g)) c e) [
    | inl (here, is) ↦
        subst
          (λ (c : Session × RtspHandler k).
            Holds c.0.state c.1.rtp_client g.next_client (k.items g.engine.playing))
          (some_inj.0 is) inv.holds
    | inr (away, is) ↦
        Holds-kept c.0.state c.1.rtp_client s.next_client g.next_client (k.items s.engine.playing)
          (k.items g.engine.playing) foreign.next_le
          (λ a owns. foreign.others a (mine j a c away is owns)) (l.holds j c is)
  ]

  new_given : (a : ℕ) → g.rtp_client ≡ some a → a < g.next_client
  new_given a e = elim (foreign.client a e) [
    | inl same ↦ omega (arith, old a same, foreign.next_le)
    | inr (le, lt) ↦ lt
  ]

  after-given :
      (j a : ℕ) (c : Session × RtspHandler k)
      → after.sessions j ≡ some c
      → c.1.rtp_client ≡ some a
      → a < after.next_client
  after-given j a c e owns = elim (updated s i j (some (t, g)) c e) [
    | inl (here, is) ↦ new_given a (ap (λ c. c.1.rtp_client) (some_inj.0 is) ∙ owns)
    | inr (away, is) ↦ omega (arith, l.given j a c is owns, foreign.next_le)
  ]

  -- The new client is no other session's.
  new_own :
      (j a : ℕ) (d : Session × RtspHandler k)
      → j ≢ i
      → s.sessions j ≡ some d
      → d.1.rtp_client ≡ some a
      → g.rtp_client ≢ some a
  new_own j a d away is owns e = elim (foreign.client a e) [
    | inl same ↦ mine j a d away is owns same
    | inr (le, lt) ↦ omega (arith, l.given j a d is owns, le)
  ]

  after-own :
      (j m a : ℕ) (c d : Session × RtspHandler k)
      → after.sessions j ≡ some c
      → after.sessions m ≡ some d
      → c.1.rtp_client ≡ some a
      → d.1.rtp_client ≡ some a
      → j ≡ m
  after-own j m a c d e e' owns owns' =
      cases (updated s i j (some (t, g)) c e) (updated s i m (some (t, g)) d e')
    where
      cases :
          ((j ≡ i) × (some (t, g) ≡ some c)) ⊎ ((j ≢ i) × (s.sessions j ≡ some c))
          → ((m ≡ i) × (some (t, g) ≡ some d)) ⊎ ((m ≢ i) × (s.sessions m ≡ some d))
          → j ≡ m
      cases (inl (p, x)) (inl (q, y)) = p ∙ sym q
      cases (inr (p, x)) (inr (q, y)) = l.own j m a c d x y owns owns'
      cases (inl (p, x)) (inr (q, y)) =
          absurd (new_own m a d q y owns' (ap (λ c. c.1.rtp_client) (some_inj.0 x) ∙ owns))
      cases (inr (p, x)) (inl (q, y)) =
          absurd (new_own j a c p x owns (ap (λ c. c.1.rtp_client) (some_inj.0 y) ∙ owns'))

  -- A linked client is the new one of a session that plays, or that of another session.
  new_plays :
      (st : State) (a : ℕ)
      → t.state ≡ st
      → Holds st g.rtp_client g.next_client (k.items g.engine.playing)
      → g.rtp_client ≡ some a
      → 0 < count a (k.items g.engine.playing)
      → t.state ≡ State.playing
  new_plays State.init a at none_yet e lt = absurd (none-ne-some (sym none_yet ∙ e))
  new_plays State.ready a at (i, is, given, z) e lt =
      absurd (let same : i ≡ a = some_inj.0 (sym is ∙ e) in ground (arith, same, z, lt))
  new_plays State.playing a at held e lt = at
  new_plays State.dead a at held e lt = absurd (
      let z : count a (k.items g.engine.playing) ≡ 0 =
        subst (λ c. Unlinked c (k.items g.engine.playing)) e held in
      omega (arith, z, lt))

  kept-IsPlayed :
      (a : ℕ) → h.rtp_client ≢ some a → 0 < count a (k.items g.engine.playing) → IsPlayed after a
  kept-IsPlayed a ne lt =
      let p = l.played a (omega (arith, foreign.others a ne, lt)) in
      let away : p.number ≢ i = λ e. ne (
        sym (was p.connection (subst (λ j. s.sessions j ≡ some p.connection) e p.there))
        ∙ p.owns) in
      record {
        number = p.number;
        connection = p.connection;
        there = update_away s i p.number (some (t, g)) away ∙ p.there;
        owns = p.owns;
        plays = p.plays;
      }

  after-IsPlayed : (a : ℕ) → 0 < linked after a → IsPlayed after a
  after-IsPlayed a lt = elim (same_client g.rtp_client a) [
    | inl e ↦ record {
      number = i;
      connection = (t, g);
      there = update_here s i (some (t, g));
      owns = e;
      plays = new_plays t.state a refl inv.holds e lt;
    }
    | inr ne ↦ elim (same_client h.rtp_client a) [
      | inl e ↦ absurd (omega (arith, foreign.replaced a e ne, lt))
      | inr other ↦ kept-IsPlayed a other lt
    ]
  ]

  pub store-AllLinked : AllLinked after
  store-AllLinked = record {
    fresh = inv.fresh;
    holds = after-Holds;
    given = after-given;
    own = after-own;
    played = after-IsPlayed;
  }
