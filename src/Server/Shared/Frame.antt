-- ===== src/Server/Shared/Frame.antt =====
-- What a request does to the RTP clients of the other connections.
use wifi_audio.Common.{
  ℕ, ◌≤◌, ◌<◌, ◌≡◌, ◌≢◌, refl, sym, ap, ◌∙◌, ◌⊎◌, inl, inr, Option, none, some, some_inj, arith,
  count, Bool-cases, ◌==◌,
}
use mathlib.Core.Path.{subst}
use wifi_audio.Rtp.Links.{Links}
use wifi_audio.Rtp.Engine
use wifi_audio.Rtp.Engine.{RtpEngine}
use wifi_audio.Rtsp.Types.{Transport}
use wifi_audio.Server.Output.{Platform, RtspHandler}
use wifi_audio.Server.Handler.{new_rtp_client}
use wifi_audio.Server.Handler.Frame.{Replied}

module _ {k : Links} where
  -- From `h` to `g`: a new client has a new address, and the clients of other handlers are linked as
  -- often as before.
  pub record Foreign (h g : RtspHandler k) : Type 0 where
    pub next_le : h.next_client ≤ g.next_client
    pub client :
        (a : ℕ)
        → g.rtp_client ≡ some a
        → (h.rtp_client ≡ some a) ⊎ ((h.next_client ≤ a) × (a < g.next_client))
    pub others :
        (a : ℕ)
        → h.rtp_client ≢ some a
        → count a (k.items g.engine.playing) ≡ count a (k.items h.engine.playing)
    pub replaced :
        (a : ℕ)
        → h.rtp_client ≡ some a
        → g.rtp_client ≢ some a
        → count a (k.items g.engine.playing) ≡ 0

  -- A step that keeps the client.
  pub kept-Foreign :
      (h g : RtspHandler k)
      → g.next_client ≡ h.next_client
      → g.rtp_client ≡ h.rtp_client
      → ((a : ℕ)
          → h.rtp_client ≢ some a
          → count a (k.items g.engine.playing) ≡ count a (k.items h.engine.playing))
      → Foreign h g
  kept-Foreign h g next client others = record {
    next_le = omega (arith, next);
    client = λ a e. inl (sym client ∙ e);
    others = others;
    replaced = λ a e ne. absurd (ne (client ∙ e));
  }

  pub Replied-Foreign : {h g : RtspHandler k} → Replied h g → Foreign h g
  Replied-Foreign {h} {g} p =
      kept-Foreign h g p.next_client p.rtp_client
        (λ a ne. ap (λ (e : RtpEngine k). count a (k.items e.playing)) p.engine)

  pub count-removed :
      (e : RtpEngine k) (c : Option ℕ) (a : ℕ)
      → c ≢ some a
      → count a (k.items (Engine.remove e c).playing) ≡ count a (k.items e.playing)
  unfolding Engine.remove
  count-removed e none a ne = refl
  count-removed e (some i) a ne = elim (Bool-cases (a == i)) [
    | inl same ↦ absurd (ne (let e : i ≡ a = ground (arith, same) in ap some e))
    | inr other ↦ ground (arith, k.count-remove a i e.playing, other)
  ]

  pub removed_self :
      (e : RtpEngine k) (a : ℕ)
      → count a (k.items e.playing) ≤ 1
      → count a (k.items (Engine.remove e (some a)).playing) ≡ 0
  unfolding Engine.remove
  removed_self e a one = ground (arith, k.count-remove a a e.playing, one)

  -- A reply, and the client is unlinked.
  pub unlinked-Foreign :
      (h g : RtspHandler k)
      → Replied h g
      → Foreign h (record g { engine = Engine.remove g.engine g.rtp_client })
  unlinked-Foreign h g p =
      kept-Foreign h (record g { engine = Engine.remove g.engine g.rtp_client }) p.next_client
        p.rtp_client
        (λ a ne.
          count-removed g.engine g.rtp_client a (λ e. ne (sym p.rtp_client ∙ e))
          ∙ ap (λ (e : RtpEngine k). count a (k.items e.playing)) p.engine)

  -- A reply, and the client is linked, which was not.
  pub linked-Foreign :
      (h g : RtspHandler k) (i : ℕ)
      → Replied h g
      → h.rtp_client ≡ some i
      → count i (k.items h.engine.playing) ≡ 0
      → Foreign h (record g { engine = Engine.play g.engine (some i) })
  unfolding Engine.play
  linked-Foreign h g i p is none_there =
      kept-Foreign h (record g { engine = Engine.play g.engine (some i) }) p.next_client
        p.rtp_client
        (λ a ne.
          pushed a (λ e. ne (is ∙ ap some (sym e)))
          ∙ ap (λ (e : RtpEngine k). count a (k.items e.playing)) p.engine)
    where
      absent : count i (k.items g.engine.playing) ≡ 0
      absent = ap (λ (e : RtpEngine k). count i (k.items e.playing)) p.engine ∙ none_there

      pushed :
          (a : ℕ)
          → a ≢ i
          → count a (k.items (k.push i g.engine.playing)) ≡ count a (k.items g.engine.playing)
      pushed a ne = ground (arith, k.count-push a i g.engine.playing absent, ne)

  -- SETUP, where the client is linked once at most.
  pub renewed-Foreign :
      (platform : Platform) (h g : RtspHandler k) (t : Transport)
      → Replied h g
      → ((a : ℕ) → h.rtp_client ≡ some a → count a (k.items h.engine.playing) ≤ 1)
      → Foreign h (new_rtp_client platform t g)
  unfolding new_rtp_client
  renewed-Foreign platform h g t p once = record {
    next_le = omega (arith, p.next_client);
    client = λ a e. inr (
        let same : g.next_client ≡ a = some_inj.0 e in
        (omega (arith, same, p.next_client), omega (arith, same)));
    others = λ a ne.
        count-removed g.engine g.rtp_client a (λ e. ne (sym p.rtp_client ∙ e))
        ∙ ap (λ (e : RtpEngine k). count a (k.items e.playing)) p.engine;
    replaced = λ a e ne.
        subst (λ c. count a (k.items (Engine.remove g.engine c).playing) ≡ 0)
          (sym (p.rtp_client ∙ e)) (gone a (once a e));
  }
    where
      gone :
          (a : ℕ)
          → count a (k.items h.engine.playing) ≤ 1
          → count a (k.items (Engine.remove g.engine (some a)).playing) ≡ 0
      gone a one =
          let same : count a (k.items g.engine.playing) ≡ count a (k.items h.engine.playing) =
            ap (λ (e : RtpEngine k). count a (k.items e.playing)) p.engine in
          removed_self g.engine a (omega (arith, same, one))
