-- ===== src/Wav/RoundTrip.antt =====
-- A file that `WavSink` writes, read by `WavSource`.
use wifi_audio.Common.{
  ℕ, ◌+◌, ◌-◌, ◌%◌, ◌^◌, ◌≤◌, ◌≡◌, refl, sym, ap, ◌∙◌, true, false, List, [], ◌∷◌, ◌++◌, some, none,
  Bytes, arith, append-nil, append_assoc, length, length-append, take, drop, overwrite,
  overwrite_end, ret, ◌>>=◌, ◌==◌,
}
use mathlib.Core.Path.{subst}
use wifi_audio.Libc.Files.{
  File, Device, create_file, fwrite, fwrite_room, fseek_set, fseek_end, fread,
}
use wifi_audio.Wav.Header.{header_bytes, read_header, le32}
use wifi_audio.Wav.Sink.{
  RawSink, create_sink, open_raw_sink, open_wav_sink, wav_header, write, write_all, next_part,
  write_header, patch, close_raw, close_wav, destroy_sink,
}
use wifi_audio.Wav.Source.{RawSource, create_source, open_raw, open_wav, accepts, read, done}

-- The parts in a row.
abbrev pub joined : List Bytes → Bytes
joined [] = []
joined (part ∷ parts) = part ++ joined parts

-- A WAV file with these sizes in its header.
abbrev pub wav_bytes : ℕ → ℕ → Bytes → Bytes
wav_bytes chunk_size data_size audio = header_bytes (wav_header chunk_size data_size) ++ audio

module _ (device : Device) where
  abbrev end_of : Bytes → File
  end_of audio = record {
    content = wav_bytes 0 0 audio;
    at = 44 + length audio;
    eof = false;
    device = device;
  }

  abbrev recording : Bytes → RawSink → RawSink
  recording audio s = record s { written = length audio; file = some (end_of audio) }

  open-recording :
      (s : RawSink)
      → s.written ≡ 0
      → 44 ≤ device.room
      → open_wav_sink (some device) s ≡ (true, recording [] s)
  unfolding open_wav_sink open_raw_sink
  open-recording s fresh room =
      simp
        (fwrite_room (header_bytes (wav_header 0 0)) (create_file device) (omega arith) room, fresh)

  fwrite-end_of :
      (audio part : Bytes)
      → 44 + (length audio + length part) ≤ device.room
      → fwrite part (end_of audio) ≡ (length part, end_of (audio ++ part))
  fwrite-end_of audio part room =
      let n : 44 + length audio + length part ≡ 44 + length (audio ++ part) =
        omega (arith, length-append audio part) in
      fwrite_room part (end_of audio) (omega arith) (omega arith)
      ∙ ap
          (λ c. (
            length part,
            record (end_of audio) { content = c; at = 44 + length audio + length part },
          ))
          (overwrite_end (wav_bytes 0 0 audio) part (44 + length audio) (omega arith))
      ∙ ap (λ i. (length part, record (end_of (audio ++ part)) { at = i })) n

  write-recording :
      (audio part : Bytes) (s : RawSink)
      → 44 + (length audio + length part) ≤ device.room
      → write part (recording audio s) ≡ ret (true, recording (audio ++ part) s)
  unfolding write
  write-recording audio part s room =
      let same : (length part == length part) ≡ true = ground arith in
      simp (fwrite-end_of audio part room, same, length-append audio part)

  write_header_lem :
      (offset value : ℕ) (f : File)
      → f.device.seeks ≡ true
      → offset ≤ length f.content
      → offset + 4 ≤ f.device.room
      → write_header offset value f ≡ (
        true,
        record f {
          content = overwrite f.content offset (le32 value);
          at = offset + 4;
          eof = false;
        },
      )
  unfolding write_header fseek_set
  write_header_lem offset value f seeks inside room =
      simp (seeks, fwrite_room (le32 value) (record f { at = offset; eof = false }) inside room)

  patch-end_of :
      (audio : Bytes)
      → device.seeks ≡ true
      → 44 + length audio ≤ device.room
      → patch (length audio) (end_of audio) ≡ (
        true,
        record (end_of audio) {
          content = wav_bytes ((length audio + 44 - 8) % 2 ^ 32) (length audio % 2 ^ 32) audio;
        },
      )
  unfolding patch fseek_end
  patch-end_of audio seeks room =
      let chunk_size = (length audio + 44 - 8) % 2 ^ 32 in
      let content = wav_bytes chunk_size (length audio % 2 ^ 32) audio in
      let size : length content ≡ 44 + length audio = omega arith in
      simp
        (
          write_header_lem 4 chunk_size (end_of audio) seeks (omega arith) (omega arith),
          write_header_lem 40 (length audio % 2 ^ 32)
              (record (end_of audio) { content = wav_bytes chunk_size 0 audio; at = 8 }) seeks
              (omega arith) (omega arith),
          seeks,
        )
        (ap (λ i. (true, record (end_of audio) { content = content; at = i })) size)

  close-recording :
      (audio : Bytes) (s : RawSink)
      → device.seeks ≡ true
      → device.flushes ≡ true
      → device.closes ≡ true
      → 44 + length audio ≤ device.room
      → close_wav (recording audio s) ≡ (
        true,
        record {
          written = length audio;
          file = none;
          saved = wav_bytes ((length audio + 44 - 8) % 2 ^ 32) (length audio % 2 ^ 32) audio;
        },
      )
  unfolding close_wav close_raw
  close-recording audio s seeks flushes closes room =
      simp (flushes, patch-end_of audio seeks room, closes)

  write_all-recording :
      (audio : Bytes) (parts : List Bytes) (s : RawSink)
      → 44 + (length audio + length (joined parts)) ≤ device.room
      → write_all parts (recording audio s) ≡ ret (true, recording (audio ++ joined parts) s)
  unfolding write_all
  write_all-recording audio [] s room = ap (λ a. ret (true, recording a s)) (sym (append-nil audio))
  write_all-recording audio (part ∷ parts) s room =
      let size = length-append part (joined parts) in
      let size' = length-append audio part in
      ap (λ m. m >>= next_part (write_all parts))
        (write-recording audio part s (omega (arith, size)))
      ∙ write_all-recording (audio ++ part) parts s (omega (arith, size, size'))
      ∙ ap (λ a. ret (true, recording a s)) (append_assoc audio part (joined parts))

-- `WavSource` opens a file with these bytes, and what is read then are these bytes of audio, the file's
-- sizes being in its header.
pub record Plays (bytes audio : Bytes) : Type 0 where
  pub chunk_size : (read_header bytes).chunk_size ≡ (length bytes - 8) % 2 ^ 32
  pub data_size : (read_header bytes).data_size ≡ length audio % 2 ^ 32
  pub opened : Device → RawSource
  pub opens :
      (device : Device)
      → open_wav
          (record { stat = some (length bytes); content = some bytes; device = device })
          create_source
        ≡ (true, opened device)
  pub reads :
      (device : Device) (n : ℕ)
      → (later : RawSource) × (read n (opened device) ≡ ret (take n audio, later))

wav_bytes-Plays :
    (audio : Bytes)
    → Plays (wav_bytes ((length audio + 44 - 8) % 2 ^ 32) (length audio % 2 ^ 32) audio) audio
unfolding open_wav open_raw fread accepts create_source read done
wav_bytes-Plays audio = record {
  chunk_size = omega arith;
  data_size = omega arith;
  opened = λ device. record {
    size = length (wav_bytes ((length audio + 44 - 8) % 2 ^ 32) (length audio % 2 ^ 32) audio);
    file = some (record {
      content = wav_bytes ((length audio + 44 - 8) % 2 ^ 32) (length audio % 2 ^ 32) audio;
      at = 44;
      eof = false;
      device = device;
    });
    on_done = false;
    told = 0;
  };
  opens = λ device. refl;
  reads = λ device n. (_, refl);
}

-- On a device whose calls succeed and that has room for the header and the parts: the sink opens,
-- takes every part, and closes; the file it leaves is one that the source opens, its header has the
-- size of the file less eight and that of the audio, modulo 2^32, and the source reads the parts in a
-- row.
pub recorded-Plays :
    (device : Device) (parts : List Bytes)
    → device.seeks ≡ true
    → device.flushes ≡ true
    → device.closes ≡ true
    → 44 + length (joined parts) ≤ device.room
    → (s : RawSink) × ((open_wav_sink (some device) create_sink).0 ≡ true)
      × (write_all parts (open_wav_sink (some device) create_sink).1 ≡ ret (true, s))
      × ((close_wav s).0 ≡ true)
      × Plays (close_wav s).1.saved (joined parts)
unfolding create_sink
recorded-Plays device parts seeks flushes closes room =
    let audio = joined parts in
    let start = open-recording device create_sink refl (omega (arith, room)) in
    let end = close-recording device audio create_sink seeks flushes closes room in
    (
      recording device audio create_sink,
      ap (λ r. r.0) start,
      ap (λ r. write_all parts r.1) start
          ∙ write_all-recording device [] parts create_sink (omega (arith, room)),
      ap (λ r. r.0) end,
      subst (λ r. Plays r.1.saved audio) (sym end) (wav_bytes-Plays audio),
    )

-- On a device that closes its files and that has room for the header and the parts: a WAV sink that is
-- destroyed with its file open leaves all of the audio, behind a header whose two sizes are zero.
pub destroyed-sizes :
    (device : Device) (parts : List Bytes)
    → device.closes ≡ true
    → 44 + length (joined parts) ≤ device.room
    → (s : RawSink) × (write_all parts (open_wav_sink (some device) create_sink).1 ≡ ret (true, s))
      × (drop 44 (destroy_sink s).saved ≡ joined parts)
      × ((read_header (destroy_sink s).saved).chunk_size ≡ 0)
      × ((read_header (destroy_sink s).saved).data_size ≡ 0)
unfolding create_sink destroy_sink close_raw
destroyed-sizes device parts closes room =
    let s = recording device (joined parts) create_sink in
    let end : (destroy_sink s).saved ≡ wav_bytes 0 0 (joined parts) = rw closes refl in
    (
      s,
      ap (λ r. write_all parts r.1) (open-recording device create_sink refl (omega (arith, room)))
          ∙ write_all-recording device [] parts create_sink (omega (arith, room)),
      ap (drop 44) end,
      ap (λ b. (read_header b).chunk_size) end,
      ap (λ b. (read_header b).data_size) end,
    )
