-- ===== src/Wav/Source.antt =====
-- `RawSource` and `WavSource` of src/wav_file.cpp.
use wifi_audio.Common.{
  ℕ, ◌+◌, ◌*◌, Bool, true, false, ◌&&◌, Option, none, some, Bytes, codes, ◌==◌, if◌then◌else◌,
  length, Outcome, ret, fault, Fault,
}
use wifi_audio.Libc.Files.{File, Device, open_file, fread}
use wifi_audio.Libc.Strings.{str_eq}
use wifi_audio.Wav.Header.{WavFileHeader, read_header}

-- What a path leads to: what `stat` says of its size, if it succeeds, and what `fopen` reads, if it does.
pub record Found : Type 0 where
  pub stat : Option ℕ
  pub content : Option Bytes
  pub device : Device

pub record RawSource : Type 0 where
  pub size : ℕ
  pub file : Option File
  -- Is `on_done` set? And how often was it called?
  pub on_done : Bool
  pub told : ℕ

unfoldable pub create_source : RawSource
create_source = record { size = 0; file = none; on_done = false; told = 0 }

unfoldable pub set_on_done : Bool → RawSource → RawSource
set_on_done fn s = record s { on_done = fn }

unfoldable pub destroy_source : RawSource → RawSource
destroy_source s = record s { file = none }

abbrev open_at : Device → Option Bytes → RawSource → Bool × RawSource
open_at device none s = (false, record s { file = none })
open_at device (some content) s = (true, record s { file = some (open_file device content) })

-- `RawSource::open`
unfoldable pub open_raw : Found → RawSource → Bool × RawSource
open_raw found s = elim found.stat [
  | none ↦ (false, s)
  | some size ↦ open_at found.device found.content (record s { size = size })
]

unfoldable pub done : RawSource → Bool
done s = elim s.file [ none ↦ true | some f ↦ f.eof ]

-- `read`, from this stream.
unfoldable pub read_from : ℕ → File → RawSource → Bytes × RawSource
unfolding done
read_from bytes f s =
    let s1 = if s.on_done && done s then record s { told = s.told + 1 } else s in
    let (got, f1) = fread bytes f in (got, record s1 { file = some f1 })

unfoldable pub read : ℕ → RawSource → Outcome (Bytes × RawSource)
unfolding read_from
read bytes s = elim s.file [ none ↦ fault Fault.null_pointer | some f ↦ ret (read_from bytes f s) ]

unfoldable pub max_read_bytes : RawSource → ℕ
max_read_bytes s = s.size

-- The tests on the header: pcm 16/48000/2.
unfoldable pub accepts : WavFileHeader → Bool
accepts h =
    str_eq (codes "RIFF") h.riff_chunk
    && str_eq (codes "WAVE") h.file_format
    && str_eq (codes "fmt ") h.format_chunk
    && str_eq (codes "data") h.data_chunk
    && h.format_size == 16
    && h.channels == 2
    && h.sample_rate == 48000
    && h.byte_rate == 4 * 48000
    && h.pcm_flags == 1
    && h.bit_depth == 16

abbrev read_wav : RawSource → Option File → Bool × RawSource
read_wav s none = (false, s)
read_wav s (some f) =
    let (got, f1) = fread 44 f in
    let s1 = record s { file = some f1 } in
    (if length got == 44 then accepts (read_header got) else false, s1)

-- `WavSource::open`
unfoldable pub open_wav : Found → RawSource → Bool × RawSource
unfolding open_raw fread accepts
open_wav found s =
    let (opened, s1) = open_raw found s in if opened then read_wav s1 s1.file else (false, s1)
