-- ===== src/Tests/Files.antt =====
-- A WAV file.
use wifi_audio.Common.{
  ℕ, ◌≡◌, refl, List, [], ◌∷◌, some, true, false, Bytes, ret, arith, length, drop, zero, suc,
  get_or, ◌<◌,
}
use wifi_audio.Libc.Files.{Device, fwrite}
use wifi_audio.Examples.{fifo}
use wifi_audio.Utils.{Reader, acquire}
use wifi_audio.Utils.Acquire.{IsRing}
use wifi_audio.Wav.Buffered.{OpenSource, file_source, unread, acquire-file_source}
use wifi_audio.Wav.RoundTrip.{wav_bytes, Plays, joined, recorded-Plays, destroyed-sizes}
use wifi_audio.Wav.Header.{read_header}
use wifi_audio.Wav.Sink.{RawSink, create_sink, open_wav_sink, write_all, close_wav, destroy_sink}
use wifi_audio.Wav.Source.{create_source, open_wav}

abbrev device : Device
device = record { room = 60; seeks = true; flushes = true; closes = true }

-- A device without room for the header.
abbrev small_device : Device
small_device = record { room = 40; seeks = true; flushes = true; closes = true }

abbrev parts : List Bytes
parts = (1 ∷ 2 ∷ 3 ∷ 4 ∷ []) ∷ [] ∷ (5 ∷ 6 ∷ []) ∷ []

recorded-Plays_example :
    (s : RawSink) × ((open_wav_sink (some device) create_sink).0 ≡ true)
    × (write_all parts (open_wav_sink (some device) create_sink).1 ≡ ret (true, s))
    × ((close_wav s).0 ≡ true)
    × Plays (close_wav s).1.saved (joined parts)
recorded-Plays_example = recorded-Plays device parts refl refl refl (omega arith)

abbrev source : OpenSource
unfolding open_wav create_source
source = record {
  source =
      (open_wav
        (record { stat = some 50; content = some (wav_bytes 42 6 (joined parts)); device = device })
        create_source).1;
  file = record { content = wav_bytes 42 6 (joined parts); at = 44; eof = false; device = device };
  is_open = refl;
}

-- Two buffers of four bytes.
abbrev reader : Reader (file_source 3) fifo
reader = record {
  size = 4;
  num_blocks = 2;
  idx = 0;
  buffers = (0 ∷ 0 ∷ 0 ∷ 0 ∷ []) ∷ (9 ∷ 9 ∷ 9 ∷ 9 ∷ []) ∷ [];
  src = source;
  queue = [];
}

reader-IsRing : IsRing reader
reader-IsRing = record { num = refl; here = omega arith; full = by_place }
  where
    by_place : (i : ℕ) → i < 2 → length (get_or reader.buffers i []) ≡ 4
    by_place zero h = refl
    by_place (suc zero) h = refl
    by_place (suc (suc i)) h = absurd (omega arith)

acquire-file_source_example :
    (after : OpenSource) × (acquire reader
      ≡ some (
        true,
        record reader {
          idx = 1;
          buffers = (1 ∷ 2 ∷ 3 ∷ 4 ∷ []) ∷ (9 ∷ 9 ∷ 9 ∷ 9 ∷ []) ∷ [];
          src = after;
          queue = record { buffer = 0; bytes = 4 } ∷ [];
        },
      ))
    × (unread after ≡ 5 ∷ 6 ∷ [])
unfolding source
acquire-file_source_example = acquire-file_source 3 reader reader-IsRing (omega arith)

destroyed-sizes_example :
    (s : RawSink) × (write_all parts (open_wav_sink (some device) create_sink).1 ≡ ret (true, s))
    × (drop 44 (destroy_sink s).saved ≡ joined parts)
    × ((read_header (destroy_sink s).saved).chunk_size ≡ 0)
    × ((read_header (destroy_sink s).saved).data_size ≡ 0)
destroyed-sizes_example = destroyed-sizes device parts refl (omega arith)

small_device_test : (open_wav_sink (some small_device) create_sink).0 ≡ false
unfolding open_wav_sink create_sink fwrite
small_device_test = refl

other_file_test :
    (open_wav
      (record { stat = some 3; content = some (1 ∷ 2 ∷ 3 ∷ []); device = device })
      create_source).0
    ≡ false
unfolding open_wav create_source
other_file_test = refl
