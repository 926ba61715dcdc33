-- ===== src/Wav/Sink.antt =====
-- `RawSink` and `WavSink` of src/wav_file.cpp.
use wifi_audio.Common.{
  ℕ, ◌+◌, ◌-◌, ◌%◌, ◌*◌, ◌^◌, Bool, true, false, [], ◌∷◌, List, Option, none, some, Bytes, codes,
  ◌==◌, if◌then◌else◌, length, Outcome, ret, fault, Fault, ◌>>=◌,
}
use wifi_audio.Libc.Files.{File, Device, create_file, fwrite, fseek_set, fseek_end}
use wifi_audio.Wav.Header.{WavFileHeader, header_bytes, le32}

pub record RawSink : Type 0 where
  pub written : ℕ
  pub file : Option File
  -- What the file that was closed last has in it.
  pub saved : Bytes

unfoldable pub create_sink : RawSink
create_sink = record { written = 0; file = none; saved = [] }

-- A method on the stream, which is null if there is none.
abbrev pub with_file {ℓ} : {A : Type ℓ} → RawSink → (File → Outcome A) → Outcome A
with_file s f = elim s.file [ none ↦ fault Fault.null_pointer | some file ↦ f file ]

unfoldable pub write : Bytes → RawSink → Outcome (Bool × RawSink)
write bytes s = with_file s λ f.
    let (n, f1) = fwrite bytes f in
    ret (
      if n == length bytes
      then (true, record s { written = s.written + n; file = some f1 })
      else (false, record s { file = some f1 }))

-- `RawSink::open`; none if `fopen` fails.
unfoldable pub open_raw_sink : Option Device → RawSink → Bool × RawSink
open_raw_sink none s = (false, record s { file = none })
open_raw_sink (some device) s = (true, record s { file = some (create_file device) })

-- `RawSink::close`
unfoldable pub close_raw : RawSink → Bool × RawSink
close_raw s = elim s.file [
  | none ↦ (true, s)
  | some f ↦
      if f.device.closes then (true, record s { file = none; saved = f.content }) else (false, s)
]

-- The destructor: in the base class, `close` is `RawSink::close`.
unfoldable pub destroy_sink : RawSink → RawSink
unfolding close_raw
destroy_sink s = (close_raw s).1

-- What `WavSink::open` writes; the sizes are zero then.
abbrev pub wav_header : ℕ → ℕ → WavFileHeader
wav_header chunk_size data_size = record {
  riff_chunk = codes "RIFF";
  chunk_size = chunk_size;
  file_format = codes "WAVE";
  format_chunk = codes "fmt ";
  format_size = 16;
  pcm_flags = 1;
  channels = 2;
  sample_rate = 48000;
  byte_rate = 48000 * 2 * 2;
  block_align = 4;
  bit_depth = 16;
  data_chunk = codes "data";
  data_size = data_size;
}

abbrev start_wav : RawSink → Option File → Bool × RawSink
start_wav s none = (false, s)
start_wav s (some f) =
    let (n, f1) = fwrite (header_bytes (wav_header 0 0)) f in (n == 44, record s { file = some f1 })

-- `WavSink::open`
unfoldable pub open_wav_sink : Option Device → RawSink → Bool × RawSink
unfolding open_raw_sink
open_wav_sink path s = let s1 = (open_raw_sink path s).1 in start_wav s1 s1.file

-- `WavSink::write_header`
unfoldable pub write_header : ℕ → ℕ → File → Bool × File
write_header offset value f =
    let (found, f1) = fseek_set offset f in
    let (n, f2) = fwrite (le32 value) f1 in if found then (n == 4, f2) else (false, f1)

-- The two sizes, and back to the end of the file.
unfoldable pub patch : ℕ → File → Bool × File
unfolding write_header
patch written f =
    let (one, f1) = write_header 4 ((written + 44 - 8) % 2 ^ 32) f in
    let (two, f2) = write_header 40 (written % 2 ^ 32) f1 in
    if one then (if two then fseek_end f2 else (false, f2)) else (false, f1)

abbrev finish : RawSink → Bool × File → Bool × RawSink
finish s (true, f) = close_raw (record s { file = some f })
finish s (false, f) = (false, record s { file = some f })

-- `WavSink::close`
unfoldable pub close_wav : RawSink → Bool × RawSink
unfolding patch close_raw
close_wav s = elim s.file [
  | none ↦ (true, s)
  | some f ↦ if f.device.flushes then finish s (patch s.written f) else (false, s)
]

-- Write one part after the other, as long as that succeeds.
abbrev pub next_part :
    (RawSink → Outcome (Bool × RawSink)) → Bool × RawSink → Outcome (Bool × RawSink)
next_part rest (true, s) = rest s
next_part rest (false, s) = ret (false, s)

unfoldable pub write_all : List Bytes → RawSink → Outcome (Bool × RawSink)
unfolding write
write_all [] s = ret (true, s)
write_all (part ∷ parts) s = write part s >>= next_part (write_all parts)
