-- ===== src/Server/Shared/Ends.antt =====
-- The end of a connection, and the sending of packets, keep the clients of all connections linked as their
-- sessions say.
use wifi_audio.Common.{
  ℕ, ◌<◌, ◌≡◌, ◌≢◌, sym, ap, ◌∙◌, inl, inr, Option, none, some, some_inj, arith, count,
}
use mathlib.Core.Path.{subst}
use wifi_audio.Rtp.Links.{Links}
use wifi_audio.Rtp.Engine
use wifi_audio.Rtp.Engine.{RtpEngine, update}
use wifi_audio.Rtsp.Session.{Session}
use wifi_audio.Server.Output.{RtspHandler, terminate}
use wifi_audio.Server.Handler.Invariant.{Holds}
use wifi_audio.Server.Shared.Linked.{
  session-SessionInv, others_own, Holds-kept, linked, IsPlayed, AllLinked, updated, update_away,
}
use wifi_audio.Server.Shared.Store.{same_client}
use wifi_audio.Server.Shared.Frame.{count-removed, removed_self}
use wifi_audio.Server.Shared.Requests.{SessionInv-once}
use wifi_audio.Server.Shared.{Shared, with_engine, disconnect}

module _ {k : Links} where
  pub disconnect-AllLinked :
      (i : ℕ) (c : Session × RtspHandler k) (s : Shared k)
      → s.sessions i ≡ some c
      → AllLinked s
      → AllLinked (disconnect i c s)
  unfolding disconnect terminate
  disconnect-AllLinked i c s is l = record {
    fresh = λ a le. elim (same_client c.1.rtp_client a) [
      | inl e ↦ absurd (omega (arith, l.given i a c is e, le))
      | inr ne ↦ count-removed s.engine c.1.rtp_client a ne ∙ l.fresh a le
    ];
    holds = λ j d e.
        let (away, there) = remains j d e in
        Holds-kept d.0.state d.1.rtp_client s.next_client s.next_client (k.items s.engine.playing) _
          (omega arith)
          (λ a owns.
            count-removed s.engine c.1.rtp_client a (others_own s i c l is j a d away there owns))
          (l.holds j d there);
    given = λ j a d e owns. l.given j a d (remains j d e).1 owns;
    own = λ j m a d d' e e' owns owns'.
        l.own j m a d d' (remains j d e).1 (remains m d' e').1 owns owns';
    played = still_played;
  }
    where
      remains :
          (j : ℕ) (d : Session × RtspHandler k)
          → update s.sessions i none j ≡ some d
          → (j ≢ i) × (s.sessions j ≡ some d)
      remains j d e = elim (updated s i j none d e) [
        | inl (here, is) ↦ absurd (none-is-some is)
        | inr there ↦ there
      ]
        where
          none-is-some : ◌≡◌ {A = Option (Session × RtspHandler k)} none (some d) → ⊥
          none-is-some e = cc

      still_played : (a : ℕ) → 0 < linked (disconnect i c s) a → IsPlayed (disconnect i c s) a
      still_played a lt = elim (same_client c.1.rtp_client a) [
        | inl e ↦ absurd (
            let one =
              SessionInv-once c.0.state (with_engine s c.1) (session-SessionInv s i c l is) a e in
            let z : linked (disconnect i c s) a ≡ 0 =
              subst (λ c. count a (k.items (Engine.remove s.engine c).playing) ≡ 0) (sym e)
                (removed_self s.engine a one) in
            omega (arith, z, lt))
        | inr ne ↦
            elsewhere a ne
              (l.played a (omega (arith, count-removed s.engine c.1.rtp_client a ne, lt)))
      ]
        where
          elsewhere :
              (a : ℕ) → c.1.rtp_client ≢ some a → IsPlayed s a → IsPlayed (disconnect i c s) a
          elsewhere a ne p = record {
            number = p.number;
            connection = p.connection;
            there = update_away s i p.number none away ∙ p.there;
            owns = p.owns;
            plays = p.plays;
          }
            where
              away : p.number ≢ i
              away e =
                  let same : c ≡ p.connection =
                    some_inj.0 (sym is ∙ subst (λ j. s.sessions j ≡ some p.connection) e p.there) in
                  ne (ap (λ c. c.1.rtp_client) same ∙ p.owns)

  pub sends-AllLinked :
      (e : RtpEngine k) (s : Shared k)
      → e.playing ≡ s.engine.playing
      → AllLinked s
      → AllLinked (record s { engine = e })
  sends-AllLinked e s same l = record {
    fresh = λ a le. ap (λ p. count a (k.items p)) same ∙ l.fresh a le;
    holds = λ i c is.
        subst (λ p. Holds c.0.state c.1.rtp_client s.next_client (k.items p)) (sym same)
          (l.holds i c is);
    given = l.given;
    own = l.own;
    played = λ a lt.
        let p = l.played a (subst (λ p. 0 < count a (k.items p)) same lt) in
        record {
          number = p.number;
          connection = p.connection;
          there = p.there;
          owns = p.owns;
          plays = p.plays;
        };
  }
