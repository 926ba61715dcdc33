-- ===== src/Esp32/I2s/Counters.antt =====
-- The counters of the I2S reader.
use wifi_audio.Common.{
  ℕ, ◌+◌, ◌-◌, ◌%◌, ◌^◌, ◌≤◌, ◌<◌, ◌≡◌, refl, ap, ◌∙◌, Bool, true, false, List, [], ◌∷◌, none, some,
  arith, leb, ltb, if◌then◌else◌, pos, negsuc, signed32, inl, inr, Bool-cases, Outcome, ret, ◌>>=◌,
}
use wifi_audio.Esp32.I2s.{
  Esp32I2s, Event, new_i2s, max_read_bytes, read, on_rx_error, on_event, on_events, rx_errors,
  rx_bytes,
}

-- No read is larger than the driver's buffer.
abbrev pub AllFit : List Event → Type 0
AllFit [] = Unit {0}
AllFit (Event.reading bytes result ∷ es) = (bytes ≤ 4064) × AllFit es
AllFit (Event.overflow ∷ es) = AllFit es

-- The bytes that were read.
abbrev pub total : List Event → ℕ
total [] = 0
total (Event.reading bytes (some n) ∷ es) = n + total es
total (_ ∷ es) = total es

abbrev pub overflows : List Event → ℕ
overflows [] = 0
overflows (Event.overflow ∷ es) = 1 + overflows es
overflows (Event.reading bytes result ∷ es) = overflows es

-- Those behind the first read that succeeds.
abbrev pub late_overflows : List Event → ℕ
late_overflows [] = 0
late_overflows (Event.reading bytes (some n) ∷ es) = overflows es
late_overflows (_ ∷ es) = late_overflows es

-- What the counters of `s` become.
record Counted (s : Esp32I2s) (es : List Event) (out : Outcome Esp32I2s) : Type 0 where
  pub after : Esp32I2s
  pub is : out ≡ ret after
  pub bytes : after.rd_bytes ≡ (s.rd_bytes + total es) % 2 ^ 32
  pub errors : after.errors ≡ s.errors + (if s.running then overflows es else late_overflows es)

zero_if : (b : Bool) (n : ℕ) → n ≡ n + (if b then 0 else 0)
zero_if true n = omega arith
zero_if false n = omega arith

-- One event in front of others.
on_event-Counted :
    (e : Event) (es : List Event) (s t : Esp32I2s)
    → on_event e s ≡ ret t
    → (t.rd_bytes + total es) % 2 ^ 32 ≡ (s.rd_bytes + total (e ∷ es)) % 2 ^ 32
    → t.errors + (if t.running then overflows es else late_overflows es)
      ≡ s.errors + (if s.running then overflows (e ∷ es) else late_overflows (e ∷ es))
    → Counted t es (on_events es t)
    → Counted s (e ∷ es) (on_events (e ∷ es) s)
unfolding on_events
on_event-Counted e es s t is bytes errors c = record {
  after = c.after;
  is = ap (λ m. m >>= on_events es) is ∙ c.is;
  bytes = c.bytes ∙ bytes;
  errors = c.errors ∙ errors;
}

on_events-Counted :
    (es : List Event) (s : Esp32I2s)
    → AllFit es
    → s.rd_bytes < 2 ^ 32
    → Counted s es (on_events es s)
unfolding on_events on_event read on_rx_error max_read_bytes
on_events-Counted [] s fit word = record {
  after = s;
  is = refl;
  bytes = omega (arith, word);
  errors = zero_if s.running s.errors;
}
on_events-Counted (Event.reading n none ∷ es) s (small, fit) word =
    let asked : leb n 4064 ≡ true = ground (arith, small) in
    on_event-Counted (Event.reading n none) es s s (rw (asked, on_event) refl) refl refl
      (on_events-Counted es s fit word)
on_events-Counted (Event.reading n (some k) ∷ es) s (small, fit) word =
    let asked : leb n 4064 ≡ true = ground (arith, small) in
    let t = record s { running = true; rd_bytes = (s.rd_bytes + k) % 2 ^ 32 } in
    on_event-Counted (Event.reading n (some k)) es s t (rw (asked, on_event) refl) (omega arith)
      (same s.running) (on_events-Counted es t fit (omega arith))
  where
    same :
        (b : Bool) → s.errors + overflows es ≡ s.errors + (if b then overflows es else overflows es)
    same true = refl
    same false = refl
on_events-Counted (Event.overflow ∷ es) s fit word = elim (Bool-cases s.running) [
  | inl on ↦
      on_event-Counted Event.overflow es s (record s { errors = s.errors + 1 })
        (rw (on, on_event) refl) refl (rw on (omega arith))
        (on_events-Counted es (record s { errors = s.errors + 1 }) fit word)
  | inr off ↦
      on_event-Counted Event.overflow es s s (rw (off, on_event) refl) refl (rw off refl)
        (on_events-Counted es s fit word)
]

-- For any reads and overflows of a new reader, in any order, none of the reads larger than the
-- driver's buffer: no assertion fails; the overflows that are counted are those behind the first read
-- that succeeds; and the bytes that are reported are those read while they are less than 2^31, and
-- from there on to 2^32 they are less than zero.
pub on_events_lem :
    (es : List Event)
    → AllFit es
    → (s : Esp32I2s) × (on_events es new_i2s ≡ ret s)
      × (rx_errors s ≡ late_overflows es)
      × (total es < 2 ^ 31 → rx_bytes s ≡ pos (total es))
      × (2 ^ 31 ≤ total es → total es < 2 ^ 32 → rx_bytes s ≡ negsuc (2 ^ 32 - total es - 1))
unfolding new_i2s rx_errors rx_bytes
on_events_lem es fit =
    let c = on_events-Counted es new_i2s fit (omega arith) in
    (
      c.after,
      c.is,
      omega (arith, c.errors),
      few c.after.rd_bytes (c.bytes),
      many c.after.rd_bytes (c.bytes),
    )
  where
    few : (w : ℕ) → w ≡ (0 + total es) % 2 ^ 32 → total es < 2 ^ 31 → signed32 w ≡ pos (total es)
    few w e h =
        let same : w ≡ total es = omega (arith, e, h) in
        let small : ltb (total es) (2 ^ 31) ≡ true = ground (arith, h) in simp (same, small)

    many :
        (w : ℕ)
        → w ≡ (0 + total es) % 2 ^ 32
        → 2 ^ 31 ≤ total es
        → total es < 2 ^ 32
        → signed32 w ≡ negsuc (2 ^ 32 - total es - 1)
    many w e h h' =
        let same : w ≡ total es = omega (arith, e, h, h') in
        let big : ltb (total es) (2 ^ 31) ≡ false = ground (arith, h) in simp (same, big)
