-- ===== src/Libc/Numbers.antt =====
-- stdlib.h: `strtoll`, and the conversion of its result to `int`.
use wifi_audio.Common.{
  ℕ, ◌+◌, ◌-◌, ◌*◌, ◌^◌, Bool, true, false, ◌&&◌, ◌||◌, [], ◌∷◌, Bytes, ltb, leb, ◌==◌,
  if◌then◌else◌, drop, ℤ, pos, negsuc, signed32, low_bits,
}

-- `isspace`
abbrev pub is_space : ℕ → Bool
is_space c = c == b' ' || leb 9 c && leb c 13

abbrev pub skip_space : Bytes → Bytes
skip_space [] = []
skip_space (c ∷ cs) = if is_space c then skip_space cs else c ∷ cs

-- The value of a digit; 99 for a byte that is none in any base.
abbrev pub digit_value : ℕ → ℕ
digit_value c =
    if leb b'0' c && leb c b'9'
    then c - b'0'
    else if leb b'a' c && leb c b'z'
    then c - b'a' + 10
    else if leb b'A' c && leb c b'Z'
    then c - b'A' + 10
    else 99

abbrev pub has_digit : ℕ → Bytes → Bool
has_digit base [] = false
has_digit base (c ∷ cs) = ltb (digit_value c) base

-- The number that the leading digits spell on from `acc`, and what follows them.
unfoldable pub read_digits : ℕ → ℕ → Bytes → ℕ × Bytes
read_digits base acc [] = (acc, [])
read_digits base acc (c ∷ cs) =
    if ltb (digit_value c) base
    then read_digits base (acc * base + digit_value c) cs
    else (acc, c ∷ cs)

abbrev pub is_negative : Bytes → Bool
is_negative [] = false
is_negative (c ∷ cs) = c == b'-'

abbrev pub skip_sign : Bytes → Bytes
skip_sign [] = []
skip_sign (c ∷ cs) = if c == b'-' || c == b'+' then cs else c ∷ cs

abbrev pub is_hex : Bytes → Bool
is_hex (c ∷ d ∷ rest) = c == b'0' && (d == b'x' || d == b'X') && has_digit 16 rest
is_hex _ = false

abbrev pub is_octal : Bytes → Bool
is_octal [] = false
is_octal (c ∷ cs) = c == b'0'

-- Base 0 is read off the prefix.
abbrev pub choose_base : ℕ → Bytes → ℕ × Bytes
choose_base base s =
    if base == 0
    then (if is_hex s then (16, drop 2 s) else if is_octal s then (8, s) else (10, s))
    else (base, s)

-- The range of `long long`.
abbrev pub saturate : Bool → ℕ → ℤ
saturate false n = if ltb n (2 ^ 63) then pos n else pos (2 ^ 63 - 1)
saturate true n =
    if n == 0 then pos 0 else if leb n (2 ^ 63) then negsuc (n - 1) else negsuc (2 ^ 63 - 1)

-- The number, and where it ends; with no digits, zero and the whole string.
unfoldable pub strtoll : Bytes → ℕ → ℤ × Bytes
unfolding read_digits
strtoll s base =
    let t = skip_space s in
    let (b, digits) = choose_base base (skip_sign t) in
    let (n, end) = read_digits b 0 digits in
    if has_digit b digits then (saturate (is_negative t) n, end) else (pos 0, s)

-- `(int) val`
abbrev pub to_int : ℤ → ℤ
to_int v = signed32 (low_bits 32 v)
