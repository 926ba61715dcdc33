-- ===== src/Wav/Buffered.antt =====
-- A file as the source of the reader of src/utils.cpp.
use wifi_audio.Common.{
  ℕ, zero, suc, ◌+◌, ◌-◌, ◌%◌, ◌<◌, ◌≤◌, ◌≡◌, refl, sym, ap, ◌∙◌, inl, inr, not, [], ◌++◌, Option,
  some, none, Bytes, arith, Bool-cases, ltb, ◌==◌, if◌then◌else◌, length, take, drop, drop-drop,
  take-length-take, take-split, length-take, length-append, get_or, set, overwrite,
  overwrite-overwrite, length-overwrite, ret, fault, Fault, length-nil, overwrite-nil, take_nil,
  drop-nil, ltb→lt,
}
use wifi_audio.Libc.Files.{File, fread}
use wifi_audio.Utils.{AudioSource, Queue, Reader, fill, acquire}
use wifi_audio.Utils.Acquire.{IsRing}
use wifi_audio.Wav.Source.{RawSource, read, read_from}

-- A source with its open file.
pub record OpenSource : Type 0 where
  pub source : RawSource
  pub file : File
  pub is_open : source.file ≡ some file

-- What is left to read.
abbrev pub unread : OpenSource → Bytes
unread s = drop s.file.at s.file.content

abbrev pub read_on : ℕ → OpenSource → OpenSource
unfolding read_from
read_on n s = record {
  source = (read_from n s.file s.source).1;
  file = (fread n s.file).1;
  is_open = refl;
}

-- This is `RawSource::read`.
read-read_on :
    (n : ℕ) (s : OpenSource) → read n s.source ≡ ret ((fread n s.file).0, (read_on n s).source)
unfolding read fread
read-read_on n s =
    ap
      (λ (o : Option File). elim o [
        | none ↦ fault Fault.null_pointer
        | some f ↦ ret (read_from n f s.source)
      ])
      s.is_open

pub read-bounded : (n : ℕ) (s : OpenSource) → length (fread n s.file).0 ≤ n
unfolding fread
read-bounded n s = omega (arith, length-take n (unread s))

abbrev pub file_source : ℕ → AudioSource
file_source max_read = record {
  State = OpenSource;
  read = λ s n idx. ((fread n s.file).0, read_on n s);
  max_read_bytes = max_read;
  read-bounded = λ s n idx. read-bounded n s;
}

unread-read_on :
    (n : ℕ) (s : OpenSource) → unread (read_on n s) ≡ drop (length (take n (unread s))) (unread s)
unfolding fread read_on
unread-read_on n s = sym (drop-drop s.file.at (length (take n (unread s))) s.file.content)

module _ (max_read : ℕ) where
  -- The rest of the buffer is filled with what is unread.
  abbrev Filled : ℕ → Bytes → ℕ → OpenSource → Option (Bytes × ℕ × OpenSource) → Type 0
  Filled size buff total s out =
      (after : OpenSource) × (out
        ≡ some (
          overwrite buff total (take (size - total) (unread s)),
          total + length (take (size - total) (unread s)),
          after,
        ))
      × (unread after ≡ drop (size - total) (unread s))

  -- What a round asks for.
  abbrev asked : ℕ → ℕ
  asked room = if ltb max_read room then max_read else room

  asked-positive : (room : ℕ) → 0 < max_read → 0 < room → 0 < asked room
  asked-positive room p q = ground arith

  asked-bounded : (room : ℕ) → asked room ≤ room
  asked-bounded room = ground arith

  -- A round that got nothing.
  end-Filled :
      (size : ℕ) (buff : Bytes) (total : ℕ) (s : OpenSource)
      → 0 < asked (size - total)
      → length (take (asked (size - total)) (unread s)) ≡ 0
      → Filled size buff total s (
          some (
            overwrite buff total (take (asked (size - total)) (unread s)),
            total,
            read_on (asked (size - total)) s,
          ))
  unfolding fread
  end-Filled size buff total s some_bytes h =
      let n = asked (size - total) in
      let nothing : unread s ≡ [] =
        length-nil (unread s) (omega (arith, h, length-take n (unread s))) in
      let z : total + 0 ≡ total = omega arith in
      (
        read_on n s,
        simp (nothing, take_nil) (ap (λ t. some (overwrite buff total [], t, read_on n s)) (sym z)),
        unread-read_on n s ∙ simp (nothing, take_nil, drop-nil),
      )

  -- A round that got some bytes, and what the others make of it.
  more-Filled :
      (size : ℕ) (buff : Bytes) (total : ℕ) (s : OpenSource) (out : Option (Bytes × ℕ × OpenSource))
      → total ≤ size
      → total ≤ length buff
      → Filled size
          (overwrite buff total (take (asked (size - total)) (unread s)))
          (total + length (take (asked (size - total)) (unread s)))
          (read_on (asked (size - total)) s)
          out
      → Filled size buff total s out
  more-Filled size buff total s out small inside (after, is, left) =
      let m = size - total in
      let n = asked m in
      let got = take n (unread s) in
      let rest = take (size - (total + length got)) (unread (read_on n s)) in
      let bound : length got ≤ m = omega (arith, length-take n (unread s), asked-bounded m) in
      let room : size - (total + length got) ≡ m - length got = omega arith in
      let whole : got ++ rest ≡ take m (unread s) =
        ap (λ r. got ++ take r (unread (read_on n s))) room
        ∙ ap (λ u. got ++ take (m - length got) u) (unread-read_on n s)
        ∙ ap (λ g. g ++ take (m - length got) (drop (length got) (unread s)))
            (sym (take-length-take n (unread s)))
        ∙ take-split (length got) m (unread s) bound in
      let size_of : total + length got + length rest ≡ total + length (take m (unread s)) =
        omega (arith, length-append got rest, ap length whole) in
      let all : length got + (m - length got) ≡ m = omega arith in
      (
        after,
        is
            ∙ ap (λ b. some (b, total + length got + length rest, after))
                (overwrite-overwrite buff got rest total inside ∙ ap (overwrite buff total) whole)
            ∙ ap (λ t. some (overwrite buff total (take m (unread s)), t, after)) size_of,
        left
            ∙ ap (λ r. drop r (unread (read_on n s))) room
            ∙ ap (drop (m - length got)) (unread-read_on n s)
            ∙ drop-drop (length got) (m - length got) (unread s)
            ∙ ap (λ k. drop k (unread s)) all,
      )

  fill-Filled :
      (fuel size : ℕ) (buff : Bytes) (total k : ℕ) (s : OpenSource)
      → 0 < max_read
      → length buff ≡ size
      → total ≤ size
      → size < total + fuel
      → Filled size buff total s (fill (file_source max_read) fuel size buff total k s)
  unfolding fill fread
  fill-Filled zero size buff total k s some_bytes len small enough = absurd (omega arith)
  fill-Filled (suc fuel) size buff total k s some_bytes len small enough =
      let n = asked (size - total) in
      let got = (fread n s.file).0 in
      let fits : total + length got ≤ size =
        omega (arith, small, read-bounded n s, asked-bounded (size - total)) in
      elim (Bool-cases (ltb total size)) [
        | inr full ↦
            let z : size - total ≡ 0 = ground (arith, full) in
            let same : total ≡ total + 0 = omega arith in
            rw (full, fill)
              (
                s,
                simp (z, overwrite-nil) (ap (λ t. some (buff, t, s)) same),
                ap (λ n. drop n (unread s)) (sym z),
              )
        | inl more ↦ elim (Bool-cases (length got == 0)) [
          | inl none_left ↦
              rw (more, none_left, fill)
                (end-Filled size buff total s
                  (asked-positive (size - total) some_bytes (omega (arith, ltb→lt total size more)))
                  (let e : length got ≡ 0 = ground (arith, none_left) in e))
          | inr some_left ↦
              rw (more, some_left, fill)
                (more-Filled size buff total s _ small (omega (arith, len)) (
                  fill-Filled fuel size (overwrite buff total got) (total + length got) (suc k)
                    (read_on n s) some_bytes
                    (length-overwrite buff got total (omega (arith, len, fits)) ∙ len) fits
                    (let p : 0 < length got = ground (arith, some_left) in
                      omega (arith, enough, p))))
        ]
      ]

module _ (max_read : ℕ) {q : Queue} where
  -- For a ring of buffers of the reader's size, and a file that can be read at least a byte at a time:
  -- acquire has the effect of one read of a whole buffer, however many reads it takes. The next buffer
  -- starts with the file's next bytes, as many as it holds or as there are, and keeps what else it
  -- had; their number is queued, and the file goes on behind them.
  pub acquire-file_source :
      (r : Reader (file_source max_read) q)
      → IsRing r
      → 0 < max_read
      → (after : OpenSource) × (acquire r
          ≡ some (
            not (length (take r.size (unread r.src)) == 0),
            record r {
              idx = (r.idx + 1) % r.num_blocks;
              buffers =
                  set r.buffers r.idx
                    (overwrite (get_or r.buffers r.idx []) 0 (take r.size (unread r.src)));
              src = after;
              queue =
                  q.put r.queue
                    (record { buffer = r.idx; bytes = length (take r.size (unread r.src)) });
            },
          ))
        × (unread after ≡ drop r.size (unread r.src))
  unfolding acquire
  acquire-file_source r ring some_bytes =
      let (after, is, left) =
        fill-Filled max_read (suc (suc r.size)) r.size (get_or r.buffers r.idx []) 0 0 r.src
          some_bytes (ring.full r.idx ring.here) (omega arith) (omega arith) in
      let whole : r.size - 0 ≡ r.size = omega arith in
      let n : 0 + length (take r.size (unread r.src)) ≡ length (take r.size (unread r.src)) =
        omega arith in
      let clean =
        is
        ∙ ap
            (λ m. some (
              overwrite (get_or r.buffers r.idx []) 0 (take m (unread r.src)),
              0 + length (take m (unread r.src)),
              after,
            ))
            whole
        ∙ ap
            (λ t.
              some (overwrite (get_or r.buffers r.idx []) 0 (take r.size (unread r.src)), t, after))
            n in
      (after, rw (clean, acquire) refl, left ∙ ap (λ n. drop n (unread r.src)) whole)
