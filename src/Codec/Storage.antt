-- ===== src/Codec/Storage.antt =====
-- `Storage` of the panglos library, as the codecs and the board code use it: a parameter.
use wifi_audio.Common.{
  ℕ, ◌≤◌, ◌≡◌, ◌⊎◌, Bool, true, false, ◌||◌, List, [], ◌∷◌, Option, Bytes, ℤ, pos, eq_ℤ,
}

-- `Storage::IntParam`: the name, what the variable holds before, and the validator.
pub record IntParam : Type 0 where
  pub name : Bytes
  pub value : ℤ
  pub validate : ℤ → Bool

abbrev pub one_of : ℤ → List ℤ → Bool
one_of v [] = false
one_of v (w ∷ ws) = eq_ℤ v w || one_of v ws

pub record Storage : Type 0 where
  -- What `get_params` leaves in the variable of a parameter, in the named store.
  pub get_param : Bytes → IntParam → ℤ
  pub validate_range : ℤ → ℤ → ℤ → Bool
  pub validate_set : ℤ → List ℤ → Bool
  -- `get` into a buffer of `size` bytes: none if there is no such value.
  pub get : Bytes → Bytes → ℕ → Option Bytes
  -- A value is taken from the store only if the validator accepts it.
  pub get_param-valid :
      (db : Bytes) (p : IntParam)
      → (get_param db p ≡ p.value) ⊎ (p.validate (get_param db p) ≡ true)
  pub validate_range-bounds :
      (v : ℤ) (low high : ℕ)
      → validate_range v (pos low) (pos high) ≡ true
      → (n : ℕ) × (v ≡ pos n) × (low ≤ n) × (n ≤ high)
  pub validate_set-one_of : (v : ℤ) (set : List ℤ) → validate_set v set ≡ true → one_of v set ≡ true
