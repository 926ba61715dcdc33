-- ===== src/Server/Control/Identifiers.antt =====
-- The session identifiers of the connections that one factory makes.
use wifi_audio.Common.{ℕ, zero, suc, ◌+◌, ◌%◌, ◌^◌, ◌<◌, ◌≡◌, ◌≢◌, ap, ◌∙◌, some, arith}
use wifi_audio.Rtp.Engine.{RtpEngine}
use wifi_audio.Rtp.Links.{Links}
use wifi_audio.Server.Control.{Factory, create_client, generate, first_sid, next_sid}
use wifi_audio.Server.Output.{create_handler}

module _ {k : Links} (engine : RtpEngine k) where
  -- The factory after `n` connections.
  unfoldable pub after_clients : ℕ → Factory → Factory
  unfolding create_client
  after_clients zero f = f
  after_clients (suc n) f = (create_client engine 0 (after_clients n f)).1

  -- The identifier of the connection after these.
  unfoldable pub sid_after : ℕ → Factory → ℕ
  unfolding after_clients create_client
  sid_after n f = (create_client engine 0 (after_clients n f)).0.1.session_id

  after_clients-sid_gen :
      (n : ℕ) (f : Factory)
      → f.sid_gen ≡ some first_sid
      → (after_clients n f).sid_gen ≡ some ((1111 + n) % 2 ^ 32)
  unfolding after_clients create_client generate first_sid
  after_clients-sid_gen zero f h = h
  after_clients-sid_gen (suc n) f h =
      let next : ((1111 + n) % 2 ^ 32 + 1) % 2 ^ 32 ≡ (1111 + suc n) % 2 ^ 32 = omega arith in
      ap (λ o. (next_sid o).1) (after_clients-sid_gen n f h) ∙ ap some next

  sid_after_lem :
      (n : ℕ) (f : Factory) → f.sid_gen ≡ some first_sid → sid_after n f ≡ (1111 + n) % 2 ^ 32
  unfolding sid_after create_client generate create_handler
  sid_after_lem n f h = ap (λ o. (next_sid o).0) (after_clients-sid_gen n f h)

  -- Connections of a factory with a new generator that are made less than 2^32 apart have different
  -- session identifiers.
  pub sid_after-distinct :
      (m n : ℕ) (f : Factory)
      → f.sid_gen ≡ some first_sid
      → m < n
      → n < m + 2 ^ 32
      → sid_after m f ≢ sid_after n f
  sid_after-distinct m n f h later near same =
      omega (arith, later, near, sid_after_lem m f h, sid_after_lem n f h, same)
