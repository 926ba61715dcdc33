-- ===== src/Utils/Acquire.antt =====
-- What `_Reader::acquire` does to the ring of buffers.
use wifi_audio.Common.{
  ℕ, zero, suc, ◌+◌, ◌-◌, ◌%◌, ◌≤◌, ◌<◌, ◌≡◌, ◌≢◌, refl, ◌∙◌, Bool, false, not, List, [], ◌∷◌,
  Option, some, Bytes, ltb, ◌==◌, if◌then◌else◌, length, set, get_or, arith, Bool-cases,
  length-overwrite, overwrite, length-set, get_or-set, inl, inr,
}
use wifi_audio.Utils.{AudioSource, Queue, Reader, fill, acquire}

unwritten :
    (xs : List Bytes) (i j : ℕ) (v : Bytes) → j ≢ i → get_or (set xs i v) j [] ≡ get_or xs j []
unwritten xs i j v ne = get_or-set xs i j v [] ∙ rw (other i j ne)
  where
    other : (i j : ℕ) → j ≢ i → (i == j) ≡ false
    other i j ne = ground arith

written_size :
    {size : ℕ} (xs : List Bytes) (i j : ℕ) (v : Bytes)
    → length v ≡ size
    → length (get_or xs j []) ≡ size
    → length (get_or (set xs i v) j []) ≡ size
written_size [] i j v p q = q
written_size (x ∷ xs) zero zero v p q = p
written_size (x ∷ xs) zero (suc j) v p q = q
written_size (x ∷ xs) (suc i) zero v p q = q
written_size (x ∷ xs) (suc i) (suc j) v p q = written_size xs i j v p q

module _ (source : AudioSource) where
  -- A buffer that was filled up to a point.
  pub record IsFilled (size : ℕ) (out : Option (Bytes × ℕ × source.State)) : Type 0 where
    pub buff : Bytes
    pub total : ℕ
    pub src : source.State
    pub is : out ≡ some (buff, total, src)
    pub within : total ≤ size
    pub same_size : length buff ≡ size

  -- The bytes that a round asks for, and what it gets.
  abbrev asked : ℕ → ℕ → ℕ
  asked size total =
      if ltb source.max_read_bytes (size - total) then source.max_read_bytes else size - total

  abbrev got : ℕ → ℕ → ℕ → source.State → Bytes
  got size total read s = (source.read s (asked size total) read).0

  got-fits :
      (size total read : ℕ) (s : source.State)
      → total ≤ size
      → total + length (got size total read s) ≤ size
  got-fits size total read s small = ground (arith, source.read-bounded s (asked size total) read)

  fill-IsFilled :
      (fuel size : ℕ) (buff : Bytes) (total read : ℕ) (s : source.State)
      → length buff ≡ size
      → total ≤ size
      → size < total + fuel
      → IsFilled size (fill source fuel size buff total read s)
  unfolding fill
  fill-IsFilled zero size buff total read s len small enough = absurd (omega arith)
  fill-IsFilled (suc fuel) size buff total read s len small enough =
      elim (Bool-cases (ltb total size)) [
        | inr done ↦
            rw (done, fill)
              (record {
                buff = buff;
                total = total;
                src = s;
                is = refl;
                within = small;
                same_size = len;
              })
        | inl more ↦
            let fits = got-fits size total read s small in
            let len' : length (overwrite buff total (got size total read s)) ≡ size =
              length-overwrite buff (got size total read s) total (omega (arith, fits, len))
              ∙ len in
            elim (Bool-cases (length (got size total read s) == 0)) [
              | inl nothing ↦
                  rw (more, nothing, fill)
                    (record {
                      buff = overwrite buff total (got size total read s);
                      total = total;
                      src = (source.read s (asked size total) read).1;
                      is = refl;
                      within = small;
                      same_size = len';
                    })
              | inr some_bytes ↦
                  rw (more, some_bytes, fill)
                    (fill-IsFilled fuel size (overwrite buff total (got size total read s))
                      (total + length (got size total read s)) (suc read)
                      (source.read s (asked size total) read).1 len' fits (goes_on some_bytes))
            ]
      ]
    where
      goes_on :
          (length (got size total read s) == 0) ≡ false
          → size < total + length (got size total read s) + fuel
      goes_on h =
          let some_bytes : 0 < length (got size total read s) = ground (arith, h) in
          omega (arith, enough, some_bytes)

module _ {source : AudioSource} {q : Queue} where
  -- A ring of `num_blocks` buffers of `size` bytes.
  pub record IsRing (r : Reader source q) : Type 0 where
    pub num : length r.buffers ≡ r.num_blocks
    pub here : r.idx < r.num_blocks
    pub full : (i : ℕ) → i < r.num_blocks → length (get_or r.buffers i []) ≡ r.size

  -- After `acquire`: `total` bytes were read into the next buffer, and no other buffer was written.
  pub record Acquired (r : Reader source q) (out : Option (Bool × Reader source q)) : Type 0 where
    pub total : ℕ
    pub after : Reader source q
    pub is : out ≡ some (not (total == 0), after)
    pub within : total ≤ r.size
    pub queued : after.queue ≡ q.put r.queue (record { buffer = r.idx; bytes = total })
    pub next : after.idx ≡ (r.idx + 1) % r.num_blocks
    pub blocks : after.num_blocks ≡ r.num_blocks
    pub others : (i : ℕ) → i ≢ r.idx → get_or after.buffers i [] ≡ get_or r.buffers i []
    pub ring : IsRing after

  -- In a ring of buffers that all have the reader's size, and for a source that never gives more than
  -- it is asked for: acquire ends, fills no more than the buffer, queues that buffer with the number
  -- of bytes read and returns whether there are any, goes on to the next buffer of the ring, writes to
  -- no other buffer, and leaves a ring again.
  pub acquire-Acquired : (r : Reader source q) → IsRing r → Acquired r (acquire r)
  unfolding acquire
  acquire-Acquired r h =
      let f =
        fill-IsFilled source (suc (suc r.size)) r.size (get_or r.buffers r.idx []) 0 0 r.src
          (h.full r.idx h.here) (omega arith) (omega arith) in
      record {
        total = f.total;
        after = record r {
          idx = (r.idx + 1) % r.num_blocks;
          buffers = set r.buffers r.idx f.buff;
          src = f.src;
          queue = q.put r.queue (record { buffer = r.idx; bytes = f.total });
        };
        is = rw (f.is, acquire) refl;
        within = f.within;
        queued = refl;
        next = refl;
        blocks = refl;
        others = λ i ne. unwritten r.buffers r.idx i f.buff ne;
        ring = record {
          num = length-set r.buffers r.idx f.buff ∙ h.num;
          here = omega (arith, h.here);
          full = λ i lt. written_size r.buffers r.idx i f.buff f.same_size (h.full i lt);
        };
      }
