-- ===== src/Libc/Printf.antt =====
-- stdio.h: formatted output with `%d`, `%s` and `%%`, the only conversions that the modelled code uses.
use wifi_audio.Common.{
  ℕ, zero, suc, ◌+◌, Bool, true, false, ◌/◌, ◌%◌, List, [], ◌∷◌, ◌++◌, Bytes, ltb, ◌==◌,
  if◌then◌else◌, take, ℤ, pos, negsuc, codes, ◌≡◌, refl,
}

pub data Arg : Type 0 where
  num : ℤ → Arg
  str : Bytes → Arg

-- The decimal digits of a number, in front of `acc`. Fuel above the number is enough.
unfoldable pub digits_of : ℕ → ℕ → Bytes → Bytes
digits_of zero n acc = acc
digits_of (suc f) n acc =
    let more = digits_of f (n / 10) ((b'0' + n % 10) ∷ acc) in
    if ltb n 10 then (b'0' + n % 10) ∷ acc else more

unfoldable pub decimal : ℕ → Bytes
unfolding digits_of
decimal n = digits_of (suc n) n []

unfoldable pub print_int : ℤ → Bytes
unfolding decimal
print_int (pos n) = decimal n
print_int (negsuc n) = b'-' ∷ decimal (suc n)

unfoldable pub print_arg : Arg → Bytes
unfolding print_int
print_arg (num v) = print_int v
print_arg (str s) = s

abbrev first_arg : List Arg → Bytes
first_arg [] = []
first_arg (a ∷ args) = print_arg a

abbrev later_args : List Arg → List Arg
later_args [] = []
later_args (a ∷ args) = args

-- The flag says that a `%` has been read.
unfoldable pub printf_from : Bool → Bytes → List Arg → Bytes
unfolding print_arg
printf_from percent [] args = []
printf_from true (c ∷ cs) args = elim (c == b'%') [
  | true ↦ b'%' ∷ printf_from false cs args
  | false ↦ first_arg args ++ printf_from false cs (later_args args)
]
printf_from false (c ∷ cs) args = elim (c == b'%') [
  | true ↦ printf_from true cs args
  | false ↦ c ∷ printf_from false cs args
]

unfoldable pub printf : Bytes → List Arg → Bytes
unfolding printf_from
printf = printf_from false

-- `snprintf(buff, size, …)`: at most `size - 1` bytes are kept.
abbrev pub snprintf : ℕ → Bytes → List Arg → Bytes
snprintf zero fmt args = []
snprintf (suc n) fmt args = take n (printf fmt args)

test_printf :
    printf (codes "RTSP/1.0 %d %s%%\r\n") (num (pos 200) ∷ str (codes "OK") ∷ [])
    ≡ codes "RTSP/1.0 200 OK%\r\n"
unfolding printf
test_printf = refl
