-- ===== src/Tests/Audio.antt =====
-- A reader and a loop over concrete parameters.
use wifi_audio.Common.{
  fault, Bytes, ℕ, zero, suc, ◌≡◌, ◌<◌, refl, Bool, true, [], ◌∷◌, some, Outcome, ret, arith,
  Ensures, length, replicate, get_or,
}
use wifi_audio.Examples.{copy_codec, tone_source, all_sent, fifo, engine, pcm_info}
use wifi_audio.Rtp.Engine.{RtpEngine, get_free, put_free, send, create_engine}
use wifi_audio.Rtp.Engine.Blocks.{create_engine-Filled}
use wifi_audio.Rtp.Links.{list_links}
use wifi_audio.Utils.{AudioSource, Reader, Copying, acquire, copy_round}
use wifi_audio.Utils.Ring.{run, IsKept, acquired-IsKept}
use wifi_audio.Common.{Option, none, false, ◌+◌, length-replicate}
use wifi_audio.Utils.Acquire.{IsRing, Acquired, acquire-Acquired}
use wifi_audio.Rtp.Engine.Send.{filled}
use wifi_audio.Rtp.Header.Decode.{fields}
use wifi_audio.Utils.Stream.{Stream, InOrder, Stream-InOrder}
use wifi_audio.Utils.Copy.{IsPool, Kept, copy_round-Kept}

abbrev reader : Reader tone_source fifo
reader = record {
  size = 5;
  num_blocks = 2;
  idx = 1;
  buffers = replicate 2 (replicate 5 0);
  src = 0;
  queue = [];
}

reader_full : (i : ℕ) → i < 2 → length (get_or reader.buffers i []) ≡ 5
reader_full zero h = refl
reader_full (suc zero) h = refl
reader_full (suc (suc i)) h = absurd (omega arith)

reader-IsRing : IsRing reader
reader-IsRing = record { num = refl; here = omega arith; full = reader_full }

acquire_test :
    acquire reader
    ≡ some (
      true,
      record reader {
        idx = 0;
        buffers = replicate 5 0 ∷ replicate 5 7 ∷ [];
        queue = record { buffer = 1; bytes = 5 } ∷ [];
      },
    )
unfolding acquire
acquire_test = refl

acquire-Acquired_example : Acquired reader (acquire reader)
acquire-Acquired_example = acquire-Acquired reader reader-IsRing

abbrev copying : Copying tone_source fifo copy_codec list_links
copying = record { reader = reader; engine = record engine { playing = 7 ∷ [] }; codec_state = 0 }

copying-IsPool : IsPool copying.engine
unfolding create_engine
copying-IsPool = record {
  counting = record { seq_word = omega arith; time_word = omega arith };
  once = λ a. ground arith;
  headers = λ a h.
      let below : a < 2 = ground (arith, h) in
      ((create_engine-Filled {k = list_links} pcm_info (omega arith) 6000 6001 2).ready a
        below).header;
}

copy_round-Kept_example :
    (out : Outcome (Bool × Copying tone_source fifo copy_codec list_links)) × (copy_round all_sent
        true copying
      ≡ some out)
    × Ensures (λ e. Unit {0}) (λ x. Kept copying.engine x.1) out
copy_round-Kept_example = copy_round-Kept all_sent true copying reader-IsRing copying-IsPool

-- Two packets of that engine.
abbrev or_same : RtpEngine list_links → Outcome (RtpEngine list_links) → RtpEngine list_links
or_same e (ret f) = f
or_same e (fault _) = e

abbrev tone : Bytes
tone = replicate 10 7

abbrev send_tone : RtpEngine list_links → RtpEngine list_links
send_tone e = or_same e (send all_sent (filled (get_free e).1 1 tone) 1 10 360)

abbrev twice : RtpEngine list_links
twice = send_tone (send_tone copying.engine)

two_packets :
    Stream all_sent 360 copying.engine
      (fields (twice.packets 1) ∷ fields ((send_tone copying.engine).packets 1) ∷ [])
      twice
unfolding create_engine get_free send put_free
two_packets = Stream.more 10 tone (Stream.more 10 tone Stream.nothing refl refl) refl refl

Stream-InOrder_example :
    InOrder 360 copying.engine
      (fields (twice.packets 1) ∷ fields ((send_tone copying.engine).packets 1) ∷ [])
    × IsPool twice
    × (twice.playing ≡ copying.engine.playing)
Stream-InOrder_example =
    Stream-InOrder all_sent 360 copying.engine _ twice copying-IsPool two_packets

-- A source whose reads give one number each.
abbrev counting : AudioSource
counting = record {
  State = ℕ;
  read = λ s bytes idx. (replicate bytes s, s + 1);
  max_read_bytes = 5;
  read-bounded = λ s bytes idx. omega (arith, length-replicate {A = ℕ} bytes s);
}

abbrev counted : Reader counting fifo
counted = record {
  size = 5;
  num_blocks = 2;
  idx = 1;
  buffers = replicate 2 (replicate 5 0);
  src = 1;
  queue = [];
}

abbrev one_read : Reader counting fifo
one_read = record counted {
  idx = 0;
  buffers = replicate 5 0 ∷ replicate 5 1 ∷ [];
  src = 2;
  queue = record { buffer = 1; bytes = 5 } ∷ [];
}

counted-IsRing : IsRing counted
counted-IsRing = record { num = refl; here = omega arith; full = reader_full }

acquired-IsKept_example : IsKept 1 one_read (run (false ∷ []) one_read)
unfolding acquire
acquired-IsKept_example =
    acquired-IsKept (false ∷ []) counted one_read true counted-IsRing refl (omega arith)

abbrev buffer_of : ℕ → Option (Reader counting fifo) → Bytes
buffer_of b none = []
buffer_of b (some r) = get_or r.buffers b []

-- With one round more the queued block's buffer is written again.
overrun_test : buffer_of 1 (run (false ∷ false ∷ []) one_read) ≡ replicate 5 3
unfolding run acquire
overrun_test = refl
