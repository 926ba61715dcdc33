-- ===== src/Libc/Files.antt =====
-- stdio.h: binary streams. A stream has the bytes of its file, and what its device can do.
use wifi_audio.Common.{
  ℕ, ◌+◌, ◌-◌, ◌≤◌, ◌≡◌, ap, ◌∙◌, Bool, false, ◌||◌, ◌++◌, [], Bytes, ltb, if◌then◌else◌, length,
  take, drop, replicate, overwrite, arith, take_all, append-nil,
}

-- The device of a stream: how many bytes a file may have on it, and which calls succeed.
pub record Device : Type 0 where
  pub room : ℕ
  pub seeks : Bool
  pub flushes : Bool
  pub closes : Bool

pub record File : Type 0 where
  pub content : Bytes
  pub at : ℕ
  -- The end-of-file indicator.
  pub eof : Bool
  pub device : Device

-- `fopen(path, "wb")` and `fopen(path, "rb")`, where they succeed.
abbrev pub create_file : Device → File
create_file device = record { content = []; at = 0; eof = false; device = device }

abbrev pub open_file : Device → Bytes → File
open_file device content = record { content = content; at = 0; eof = false; device = device }

-- `fread` of single bytes.
unfoldable pub fread : ℕ → File → Bytes × File
fread n f =
    let got = take n (drop f.at f.content) in
    (got, record f { at = f.at + length got; eof = ltb (length got) n || f.eof })

-- What is written behind the end leaves a gap of zeros.
abbrev pub padded : ℕ → Bytes → Bytes
padded at content = content ++ replicate (at - length content) 0

-- `fwrite` of single bytes: how many were written. A full device takes only some.
unfoldable pub fwrite : Bytes → File → ℕ × File
fwrite bytes f =
    let some_bytes = take (f.device.room - f.at) bytes in
    (
      length some_bytes,
      record f {
        content = overwrite (padded f.at f.content) f.at some_bytes;
        at = f.at + length some_bytes;
      },
    )

-- `fseek(f, at, SEEK_SET)` and `fseek(f, 0, SEEK_END)`
unfoldable pub fseek_set : ℕ → File → Bool × File
fseek_set at f = (f.device.seeks, if f.device.seeks then record f { at = at; eof = false } else f)

unfoldable pub fseek_end : File → Bool × File
fseek_end f =
    (f.device.seeks, if f.device.seeks then record f { at = length f.content; eof = false } else f)

padded_inside : (at : ℕ) (content : Bytes) → at ≤ length content → padded at content ≡ content
padded_inside at content h =
    ap (λ n. content ++ replicate n 0) (let e : at - length content ≡ 0 = omega arith in e)
    ∙ append-nil content

-- Where there is room, and not behind the end, all of the bytes are written.
pub fwrite_room :
    (bytes : Bytes) (f : File)
    → f.at ≤ length f.content
    → f.at + length bytes ≤ f.device.room
    → fwrite bytes f ≡ (
      length bytes,
      record f { content = overwrite f.content f.at bytes; at = f.at + length bytes },
    )
unfolding fwrite
fwrite_room bytes f inside room =
    let all : take (f.device.room - f.at) bytes ≡ bytes =
      take_all (f.device.room - f.at) bytes (omega arith) in
    simp (all, padded_inside f.at f.content inside)
