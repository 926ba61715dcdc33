-- ===== src/Server/Shared/Linked.antt =====
-- What holds of the clients of all connections together.
use wifi_audio.Common.{
  ℕ, ◌≤◌, ◌<◌, ◌≡◌, ◌≢◌, refl, sym, ◌∙◌, ◌⊎◌, inl, inr, List, Option, none, some, arith, count,
  Bool-cases, ◌==◌,
}
use wifi_audio.Rtp.Links.{Links}
use wifi_audio.Rtp.Engine.{update}
use wifi_audio.Rtsp.Types.{State}
use wifi_audio.Rtsp.Session.{Session}
use wifi_audio.Server.Output.{RtspHandler}
use wifi_audio.Server.Handler.Invariant.{Holds, SessionInv}
use wifi_audio.Server.Shared.{Shared, with_engine}

-- What another session holds is kept where its client is linked as often as before.
pub Holds-kept :
    (st : State) (c : Option ℕ) (next next' : ℕ) (xs ys : List ℕ)
    → next ≤ next'
    → ((a : ℕ) → c ≡ some a → count a ys ≡ count a xs)
    → Holds st c next xs
    → Holds st c next' ys
Holds-kept State.init c next next' xs ys le same h = h
Holds-kept State.ready c next next' xs ys le same (i, is, lt, z) =
    (i, is, omega arith, same i is ∙ z)
Holds-kept State.playing c next next' xs ys le same (i, is, lt, z) =
    (i, is, omega arith, omega (arith, same i is, z))
Holds-kept State.dead none next next' xs ys le same h = tt
Holds-kept State.dead (some a) next next' xs ys le same h = same a refl ∙ h

module _ {k : Links} where
  abbrev pub linked : Shared k → ℕ → ℕ
  linked s a = count a (k.items s.engine.playing)

  -- The client is that of a session that plays.
  pub record IsPlayed (s : Shared k) (a : ℕ) : Type 0 where
    pub number : ℕ
    pub connection : Session × RtspHandler k
    pub there : s.sessions number ≡ some connection
    pub owns : connection.1.rtp_client ≡ some a
    pub plays : connection.0.state ≡ State.playing

  -- Each session's client is linked as its state says, no two sessions have one client, and the playing
  -- list has only the clients of sessions that play.
  pub record AllLinked (s : Shared k) : Type 0 where
    pub fresh : (a : ℕ) → s.next_client ≤ a → linked s a ≡ 0
    pub holds :
        (i : ℕ) (c : Session × RtspHandler k)
        → s.sessions i ≡ some c
        → Holds c.0.state c.1.rtp_client s.next_client (k.items s.engine.playing)
    pub given :
        (i a : ℕ) (c : Session × RtspHandler k)
        → s.sessions i ≡ some c
        → c.1.rtp_client ≡ some a
        → a < s.next_client
    pub own :
        (i j a : ℕ) (c d : Session × RtspHandler k)
        → s.sessions i ≡ some c
        → s.sessions j ≡ some d
        → c.1.rtp_client ≡ some a
        → d.1.rtp_client ≡ some a
        → i ≡ j
    pub played : (a : ℕ) → 0 < linked s a → IsPlayed s a

  -- A connection of the table after an update.
  pub updated :
      (s : Shared k) (i j : ℕ) (v : Option (Session × RtspHandler k)) (c : Session × RtspHandler k)
      → update s.sessions i v j ≡ some c
      → ((j ≡ i) × (v ≡ some c)) ⊎ ((j ≢ i) × (s.sessions j ≡ some c))
  updated s i j v c e = elim (Bool-cases (j == i)) [
    | inl here ↦ inl (ground (arith, here), sym (rw here refl) ∙ e)
    | inr away ↦ inr (ground (arith, away), sym (rw away refl) ∙ e)
  ]

  pub update_here :
      (s : Shared k) (i : ℕ) (v : Option (Session × RtspHandler k)) → update s.sessions i v i ≡ v
  update_here s i v = ground arith

  pub update_away :
      (s : Shared k) (i j : ℕ) (v : Option (Session × RtspHandler k))
      → j ≢ i
      → update s.sessions i v j ≡ s.sessions j
  update_away s i j v ne = ground arith

  -- What one session knows of its own client.
  pub session-SessionInv :
      (s : Shared k) (i : ℕ) (c : Session × RtspHandler k)
      → AllLinked s
      → s.sessions i ≡ some c
      → SessionInv c.0.state (with_engine s c.1)
  session-SessionInv s i c l is = record { fresh = l.fresh; holds = l.holds i c is }

  -- No other session has its client.
  pub others_own :
      (s : Shared k) (i : ℕ) (c : Session × RtspHandler k)
      → AllLinked s
      → s.sessions i ≡ some c
      → (j a : ℕ) (d : Session × RtspHandler k) → j ≢ i
      → s.sessions j ≡ some d
      → d.1.rtp_client ≡ some a
      → c.1.rtp_client ≢ some a
  others_own s i c l is j a d away there owns e = away (l.own j i a d c there is owns e)
