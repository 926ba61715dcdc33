-- ===== src/Libc/Strings.antt =====
-- string.h: comparisons and `strtok_r`. A C string is the list of its bytes, without the NUL.
use wifi_audio.Common.{
  ℕ, ◌+◌, ◌≤◌, ◌<◌, ◌≡◌, Bool, true, false, ◌&&◌, ◌||◌, [], ◌∷◌, Option, none, some, arith, Bytes,
  leb, ◌==◌, if◌then◌else◌, length,
}
use mathlib.Core.Option

-- The C string that starts a buffer: the bytes before the first NUL.
abbrev pub c_str : Bytes → Bytes
c_str [] = []
c_str (c ∷ cs) = if c == 0 then [] else c ∷ c_str cs

-- `!strcmp(a, b)`
abbrev pub str_eq : Bytes → Bytes → Bool
str_eq [] [] = true
str_eq [] (d ∷ ds) = false
str_eq (c ∷ cs) [] = false
str_eq (c ∷ cs) (d ∷ ds) = c == d && str_eq cs ds

-- `!strncmp(p, s, strlen(p))`
abbrev pub starts_with : Bytes → Bytes → Bool
starts_with [] s = true
starts_with (c ∷ cs) [] = false
starts_with (c ∷ cs) (d ∷ ds) = c == d && starts_with cs ds

-- Is there a NUL in these bytes?
abbrev pub has_nul : Bytes → Bool
has_nul [] = false
has_nul (c ∷ cs) = c == 0 || has_nul cs

-- `strstr(s, p)`: where the first occurrence starts.
unfoldable pub strstr : Bytes → Bytes → Option ℕ
strstr p [] = if starts_with p [] then some 0 else none
strstr p (c ∷ cs) = if starts_with p (c ∷ cs) then some 0 else Option.map (λ i. i + 1) (strstr p cs)

abbrev pub to_lower : ℕ → ℕ
to_lower c = if leb b'A' c && leb c b'Z' then c + 32 else c

-- `!strcasecmp(a, b)`
abbrev pub str_eq_nocase : Bytes → Bytes → Bool
str_eq_nocase [] [] = true
str_eq_nocase [] (d ∷ ds) = false
str_eq_nocase (c ∷ cs) [] = false
str_eq_nocase (c ∷ cs) (d ∷ ds) = to_lower c == to_lower d && str_eq_nocase cs ds

-- `!strncasecmp(p, s, strlen(p))`
abbrev pub starts_with_nocase : Bytes → Bytes → Bool
starts_with_nocase [] s = true
starts_with_nocase (c ∷ cs) [] = false
starts_with_nocase (c ∷ cs) (d ∷ ds) = to_lower c == to_lower d && starts_with_nocase cs ds

abbrev pub skip : ℕ → Bytes → Bytes
skip d [] = []
skip d (c ∷ cs) = if c == d then skip d cs else c ∷ cs

-- The bytes before the first delimiter, and those after it.
abbrev pub token_of : ℕ → Bytes → Bytes
token_of d [] = []
token_of d (c ∷ cs) = if c == d then [] else c ∷ token_of d cs

abbrev pub rest_of : ℕ → Bytes → Bytes
rest_of d [] = []
rest_of d (c ∷ cs) = if c == d then cs else rest_of d cs

abbrev pub cut : ℕ → Bytes → Option Bytes × Bytes
cut d [] = (none, [])
cut d (c ∷ cs) = (some (token_of d (c ∷ cs)), rest_of d (c ∷ cs))

-- `strtok_r` with one delimiter byte: from the saved string, the next token and the new saved string.
unfoldable pub strtok : ℕ → Bytes → Option Bytes × Bytes
strtok d save = cut d (skip d save)

length-rest_of : (d : ℕ) (s : Bytes) → length (rest_of d s) ≤ length s
length-rest_of d [] = omega arith
length-rest_of d (c ∷ cs) = ground (arith, length-rest_of d cs)

length-skip : (d : ℕ) (s : Bytes) → length (skip d s) ≤ length s
length-skip d [] = omega arith
length-skip d (c ∷ cs) = ground (arith, length-skip d cs)

cut_shorter : (d : ℕ) (s : Bytes) {t : Bytes} → (cut d s).0 ≡ some t → length (cut d s).1 < length s
cut_shorter d [] h = cc
cut_shorter d (c ∷ cs) h = ground (arith, length-rest_of d cs)

-- A token that is found uses up some of the string.
pub strtok_shorter :
    (d : ℕ) (s : Bytes) {t : Bytes} → (strtok d s).0 ≡ some t → length (strtok d s).1 < length s
unfolding strtok
strtok_shorter d s h = omega (arith, cut_shorter d (skip d s) h, length-skip d s)
