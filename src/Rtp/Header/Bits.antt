-- ===== src/Rtp/Header/Bits.antt =====
-- The bit masks of src/rtp.h as remainders, checked over all bytes.
use Prim.Native.Nat.{bit_and, bit_or}
use native.Mathlib.Decide.{dec_lt}
use wifi_audio.Common.{ℕ, zero, suc, ◌*◌, ◌/◌, ◌%◌, ◌<◌, ◌≡◌, refl, Bool, true, ◌&&◌, arith, ◌==◌}

-- Do two functions agree at the numbers below a bound?
agree : (f g : ℕ → ℕ) → ℕ → Bool
agree f g zero = true
agree f g (suc bound) = f bound == g bound && agree f g bound

-- An equation between two functions of a byte holds if it holds at each of the 256 values.
by_table : (f g : ℕ → ℕ) → agree f g 256 ≡ true → (x : ℕ) → x < 256 → f x ≡ g x
unfolding agree
by_table f g table = up_to 256 table
  where
    up_to : (bound : ℕ) → agree f g bound ≡ true → (byte : ℕ) → byte < bound → f byte ≡ g byte
    up_to zero all byte small = elim small [ ]
    up_to (suc bound) all byte small = elim (dec_lt byte bound) [
      | yes below ↦ up_to bound (ground arith) byte below
      | no last ↦
          let here : byte ≡ bound = omega arith in
          let same : f bound ≡ g bound = ground arith in rw here same
    ]

pub bit_and_63 : (x : ℕ) → x < 256 → bit_and x 63 ≡ x % 64
unfolding agree
bit_and_63 = by_table (λ x. bit_and x 63) (λ x. x % 64) refl

pub bit_and_3 : (x : ℕ) → x < 256 → bit_and x 3 ≡ x % 4
unfolding agree
bit_and_3 = by_table (λ x. bit_and x 3) (λ x. x % 4) refl

pub bit_and_128 : (x : ℕ) → x < 256 → bit_and x 128 ≡ x / 128 * 128
unfolding agree
bit_and_128 = by_table (λ x. bit_and x 128) (λ x. x / 128 * 128) refl

pub bit_and_127 : (x : ℕ) → x < 256 → bit_and x 127 ≡ x % 128
unfolding agree
bit_and_127 = by_table (λ x. bit_and x 127) (λ x. x % 128) refl

pub bit_or_64 : (x : ℕ) → x < 256 → bit_or (x % 64) (x / 64 * 64) ≡ x
unfolding agree
bit_or_64 = by_table (λ x. bit_or (x % 64) (x / 64 * 64)) (λ x. x) refl

pub bit_or_128 : (x : ℕ) → x < 256 → bit_or (x / 128 * 128) (x % 128) ≡ x
unfolding agree
bit_or_128 = by_table (λ x. bit_or (x / 128 * 128) (x % 128)) (λ x. x) refl
