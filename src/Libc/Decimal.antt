-- ===== src/Libc/Decimal.antt =====
-- Numbers that `printf` prints, read by `strtoll`.
use wifi_audio.Common.{
  ℕ, zero, suc, ◌+◌, ◌-◌, ◌*◌, ◌/◌, ◌%◌, ◌^◌, ◌≤◌, ◌<◌, ◌≡◌, refl, ap, ◌∙◌, inl, inr, true, false,
  [], ◌∷◌, Bytes, arith, Bool-cases, ltb, leb, ◌==◌, ℤ, pos, negsuc, signed32, low_bits, some,
}
use wifi_audio.Libc.Numbers.{
  strtoll, read_digits, digit_value, has_digit, skip_space, skip_sign, is_negative, to_int,
}
use wifi_audio.Libc.Printf.{digits_of, decimal, print_int}
use wifi_audio.Libc.Strings.{strtok, token_of, rest_of}

-- Digits, and perhaps a sign.
abbrev pub IsNumeral : Bytes → Type 0
IsNumeral [] = Unit {0}
IsNumeral (c ∷ cs) = (45 ≤ c) × (c ≤ 57) × IsNumeral cs

-- A digit in front.
abbrev StartsDigit : Bytes → Type 0
StartsDigit [] = ⊥
StartsDigit (c ∷ cs) = (48 ≤ c) × (c ≤ 57)

digits_of-IsNumeral : (f n : ℕ) (acc : Bytes) → IsNumeral acc → IsNumeral (digits_of f n acc)
unfolding digits_of
digits_of-IsNumeral zero n acc h = h
digits_of-IsNumeral (suc f) n acc h = elim (Bool-cases (ltb n 10)) [
  | inl last ↦ rw (last, digits_of) (omega arith, omega arith, h)
  | inr more ↦
      rw (more, digits_of)
        (digits_of-IsNumeral f (n / 10) ((48 + n % 10) ∷ acc) (omega arith, omega arith, h))
]

digits_of-StartsDigit : (f n : ℕ) (acc : Bytes) → n < f → StartsDigit (digits_of f n acc)
unfolding digits_of
digits_of-StartsDigit zero n acc h = absurd (omega arith)
digits_of-StartsDigit (suc f) n acc h = elim (Bool-cases (ltb n 10)) [
  | inl last ↦ rw (last, digits_of) (omega arith, omega arith)
  | inr more ↦
      let smaller : n / 10 < f = ground (arith, more, h) in
      rw (more, digits_of) (digits_of-StartsDigit f (n / 10) ((48 + n % 10) ∷ acc) smaller)
]

digit_value_digit : (k : ℕ) → k < 10 → digit_value (48 + k) ≡ k
digit_value_digit k h = ground arith

read_digit :
    (a k : ℕ) (acc : Bytes)
    → k < 10
    → read_digits 10 a ((48 + k) ∷ acc) ≡ read_digits 10 (a * 10 + k) acc
unfolding read_digits
read_digit a k acc h =
    let small : ltb k 10 ≡ true = ground (arith, h) in
    simp (digit_value_digit k h, small, read_digits)

read_digits-digits_of :
    (f n : ℕ) (acc : Bytes) → n < f → read_digits 10 0 (digits_of f n acc) ≡ read_digits 10 n acc
unfolding digits_of
read_digits-digits_of zero n acc h = absurd (omega arith)
read_digits-digits_of (suc f) n acc h = elim (Bool-cases (ltb n 10)) [
  | inl last ↦
      let same : 0 * 10 + n % 10 ≡ n = ground (arith, last) in
      rw (last, digits_of)
        (read_digit 0 (n % 10) acc (omega arith) ∙ ap (λ m. read_digits 10 m acc) same)
  | inr more ↦
      let smaller : n / 10 < f = ground (arith, more, h) in
      let same : n / 10 * 10 + n % 10 ≡ n = omega arith in
      rw (more, digits_of)
        (read_digits-digits_of f (n / 10) ((48 + n % 10) ∷ acc) smaller
          ∙ read_digit (n / 10) (n % 10) acc (omega arith)
          ∙ ap (λ m. read_digits 10 m acc) same)
]

read_digits-decimal : (n : ℕ) → read_digits 10 0 (decimal n) ≡ (n, [])
unfolding decimal read_digits
read_digits-decimal n = read_digits-digits_of (suc n) n [] (omega arith)

pub print_int-IsNumeral : (v : ℤ) → IsNumeral (print_int v)
unfolding print_int decimal
print_int-IsNumeral (pos n) = digits_of-IsNumeral (suc n) n [] tt
print_int-IsNumeral (negsuc n) =
    (omega arith, omega arith, digits_of-IsNumeral (suc (suc n)) (suc n) [] tt)

-- The integers of an `int`.
abbrev pub IsInt : ℤ → Type 0
IsInt (pos n) = n < 2 ^ 31
IsInt (negsuc n) = n < 2 ^ 31

pub to_int-IsInt : (v : ℤ) → IsInt v → to_int v ≡ v
to_int-IsInt (pos n) h =
    let w : n % 2 ^ 32 ≡ n = omega (arith, h) in
    let small : ltb n (2 ^ 31) ≡ true = ground (arith, h) in simp (w, small)
to_int-IsInt (negsuc n) h =
    let w : 2 ^ 32 - 1 - n % 2 ^ 32 ≡ 2 ^ 32 - 1 - n = omega (arith, h) in
    let big : ltb (2 ^ 32 - 1 - n) (2 ^ 31) ≡ false = ground (arith, h) in
    let back : 2 ^ 32 - (2 ^ 32 - 1 - n) - 1 ≡ n = omega (arith, h) in simp (w, big, back)

pub signed32-IsInt : (w : ℕ) → w < 2 ^ 32 → IsInt (signed32 w)
signed32-IsInt w h = elim (Bool-cases (ltb w (2 ^ 31))) [
  | inl small ↦ rw small (let e : w < 2 ^ 31 = ground (arith, small) in e)
  | inr big ↦ rw big (let e : 2 ^ 32 - w - 1 < 2 ^ 31 = ground (arith, big) in e)
]

pub low_bits-signed32 : (w : ℕ) → w < 2 ^ 32 → low_bits 32 (signed32 w) ≡ w
low_bits-signed32 w h = elim (Bool-cases (ltb w (2 ^ 31))) [
  | inl small ↦ rw small (let e : w % 2 ^ 32 ≡ w = omega (arith, h) in e)
  | inr big ↦ rw big (let e : 2 ^ 32 - 1 - (2 ^ 32 - w - 1) % 2 ^ 32 ≡ w = omega (arith, h) in e)
]

digit_value-StartsDigit : (s : Bytes) → StartsDigit s → has_digit 10 s ≡ true
digit_value-StartsDigit [] d = absurd d
digit_value-StartsDigit (c ∷ cs) (low, high) = ground arith

no_sign :
    (s : Bytes) → StartsDigit s → (skip_space s ≡ s) × (is_negative s ≡ false) × (skip_sign s ≡ s)
no_sign [] d = absurd d
no_sign (c ∷ cs) (low, high) = (ground arith, ground arith, ground arith)

strtoll-digits :
    (s : Bytes) (n : ℕ)
    → StartsDigit s
    → read_digits 10 0 s ≡ (n, [])
    → n < 2 ^ 63
    → strtoll s 10 ≡ (pos n, [])
unfolding strtoll
strtoll-digits s n d e h =
    let (space, sign, digits) = no_sign s d in
    let small : ltb n (2 ^ 63) ≡ true = ground (arith, h) in
    simp (space, sign, digits, digit_value-StartsDigit s d, e, small)

strtoll-minus :
    (s : Bytes) (n : ℕ)
    → StartsDigit s
    → read_digits 10 0 s ≡ (suc n, [])
    → n < 2 ^ 31
    → strtoll (b'-' ∷ s) 10 ≡ (negsuc n, [])
unfolding strtoll
strtoll-minus s n d e h =
    let positive : (suc n == 0) ≡ false = ground arith in
    let small : leb (suc n) (2 ^ 63) ≡ true = ground (arith, h) in
    let same : suc n - 1 ≡ n = omega arith in
    simp (digit_value-StartsDigit s d, e, positive, small, same)

decimal-StartsDigit : (n : ℕ) → StartsDigit (decimal n)
unfolding decimal
decimal-StartsDigit n = digits_of-StartsDigit (suc n) n [] (omega arith)

pub strtoll-print_int : (v : ℤ) → IsInt v → strtoll (print_int v) 10 ≡ (v, [])
unfolding print_int
strtoll-print_int (pos n) h =
    strtoll-digits (decimal n) n (decimal-StartsDigit n) (read_digits-decimal n) (omega (arith, h))
strtoll-print_int (negsuc n) h =
    strtoll-minus (decimal (suc n)) n (decimal-StartsDigit (suc n)) (read_digits-decimal (suc n)) h

token_of-IsNumeral : (s : Bytes) → IsNumeral s → token_of b' ' s ≡ s
token_of-IsNumeral [] h = refl
token_of-IsNumeral (c ∷ cs) (low, high, others) =
    let other : (c == b' ') ≡ false = ground (arith, low) in
    rw other (ap (λ t. c ∷ t) (token_of-IsNumeral cs others))

rest_of-IsNumeral : (s : Bytes) → IsNumeral s → rest_of b' ' s ≡ []
rest_of-IsNumeral [] h = refl
rest_of-IsNumeral (c ∷ cs) (low, high, others) =
    let other : (c == b' ') ≡ false = ground (arith, low) in rw other (rest_of-IsNumeral cs others)

strtok-IsNumeral :
    (c : ℕ) (cs : Bytes) → IsNumeral (c ∷ cs) → strtok b' ' (c ∷ cs) ≡ (some (c ∷ cs), [])
unfolding strtok
strtok-IsNumeral c cs (low, high, others) =
    let other : (c == b' ') ≡ false = ground (arith, low) in
    simp (other, token_of-IsNumeral cs others, rest_of-IsNumeral cs others)

-- A printed number is one word.
pub strtok-print_int : (v : ℤ) → strtok b' ' (print_int v) ≡ (some (print_int v), [])
unfolding print_int
strtok-print_int (negsuc n) =
    strtok-IsNumeral b'-' (decimal (suc n)) (print_int-IsNumeral (negsuc n))
strtok-print_int (pos n) =
    by_bytes (decimal n) (decimal-StartsDigit n) (print_int-IsNumeral (pos n))
  where
    by_bytes : (s : Bytes) → StartsDigit s → IsNumeral s → strtok b' ' s ≡ (some s, [])
    by_bytes [] d h = absurd d
    by_bytes (c ∷ cs) d h = strtok-IsNumeral c cs h
