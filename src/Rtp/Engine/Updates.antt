-- ===== src/Rtp/Engine/Updates.antt =====
-- Writes to the memory that the engine's pointers lead to.
use wifi_audio.Common.{ℕ, ◌≡◌, ◌≢◌, arith}
use wifi_audio.Rtp.Engine.{update}

pub update_self {ℓ} : {A : Type ℓ} (f : ℕ → A) (i : ℕ) (v : A) → update f i v i ≡ v
update_self f i v = ground arith

pub update_ne {ℓ} : {A : Type ℓ} (f : ℕ → A) (i j : ℕ) (v : A) → j ≢ i → update f i v j ≡ f j
update_ne f i j v h = ground arith
