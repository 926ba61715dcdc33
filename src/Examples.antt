-- ===== src/Examples.antt =====
-- Concrete parameters and inputs: they meet the assumptions, and the tests and examples run on them.
use wifi_audio.Common.{
  length, ◌<◌, ret, take, length-append, replicate, length-replicate, arith, ℕ, List, ◌∷◌, ◌≡◌,
  refl, Option, none, some, [], ◌++◌, Bytes, true, codes, pos,
}
use wifi_audio.Codec.{CodecInfo, AudioCodec}
use wifi_audio.Libc.Printf.{printf}
use wifi_audio.Rtp.Links.{list_links}
use wifi_audio.Rtp.Engine.{RtpEngine, SocketSend, create_engine}
use wifi_audio.Rtsp.Parser.{Luts, text_value, value_text}
use wifi_audio.Utils.{AudioSource, Block, Queue}
use wifi_audio.Server.Threads.{Waiting}
use wifi_audio.Server.Output.{Platform, RtspHandler, create_handler}

abbrev pub or_zero : Option ℕ → ℕ
or_zero none = 0
or_zero (some v) = v

abbrev pub or_empty : Option Bytes → Bytes
or_empty none = []
or_empty (some s) = s

pub or_empty-some : (o : Option Bytes) (s : Bytes) → o ≡ some s → or_empty o ≡ s
or_empty-some none s h = cc
or_empty-some (some t) s h = cc

pub or_zero-some : (o : Option ℕ) (v : ℕ) → o ≡ some v → or_zero o ≡ v
or_zero-some none v h = cc
or_zero-some (some w) v h = cc

abbrev pub example_luts : Luts
example_luts = record {
  lut = λ t v. or_empty (value_text t v);
  rlut = λ t s. or_zero (text_value t s);
  lut-value_text = λ t v s h. or_empty-some (value_text t v) s h;
  rlut-text_value = λ t s v h. or_zero-some (text_value t s) v h;
}

abbrev pub example_platform : Platform
example_platform = record {
  luts = example_luts;
  fmt_printf = printf;
  fmt_printf-printf = λ fmt args. refl;
  char_out = λ out text. out ++ text;
  char_out_fits = λ out text h. refl;
  open_udp = λ ip port. true;
  get_fd = pos 0;
  peer_name = λ fd. none;
}

abbrev pub first_block : List Block → Option Block × List Block
first_block [] = (none, [])
first_block (b ∷ bs) = (some b, bs)

abbrev pub fifo : Queue
fifo = record { Messages = List Block; put = λ bs b. bs ++ b ∷ []; get = first_block }

-- The PCM codec's numbers.
abbrev pub pcm_info : CodecInfo
pcm_info = record {
  sdp_fmt = codes "v=0\r\no=- %d %d IN IP4 %s\r\n";
  name = codes "pcm";
  payload_type = 96;
  network_order = true;
  samples_per_packet = 360;
  num_chans = 2;
  sample_rate = 48000;
  sample_size = 2;
  max_payload_size = 1440;
}

abbrev pub engine : RtpEngine list_links
engine = create_engine pcm_info 6000 6001 2

abbrev pub handler : RtspHandler list_links
handler = create_handler engine pcm_info (codes "127.0.0.1") 12345 1

abbrev pub all_sent : SocketSend
all_sent sent client bytes = pos (length bytes)

-- A source that gives as many bytes as it is asked for.
abbrev pub tone_source : AudioSource
tone_source = record {
  State = ℕ;
  read = λ s bytes idx. (replicate bytes 7, s);
  max_read_bytes = 2;
  read-bounded = λ s bytes idx. omega (arith, length-replicate {A = ℕ} bytes 7);
}

-- A codec that copies.
abbrev pub copy_codec : AudioCodec
copy_codec = record {
  State = ℕ;
  info = pcm_info;
  encode = λ st src samples obytes. ret (take obytes src, st);
}

pub waits_for : (m : List Block) → 0 < length m → (b : Block) × ((first_block m).0 ≡ some b)
waits_for [] h = elim h [ ]
waits_for (b ∷ bs) h = (b, refl)

pub put_waits : (m : List Block) (b : Block) → 0 < length (m ++ b ∷ [])
put_waits m b = omega (arith, length-append m (b ∷ []))

-- The threads' queue.
abbrev pub fifo_waiting : Waiting fifo
fifo_waiting = record {
  create = λ n. [];
  pending = length;
  put-pending = put_waits;
  get-pending = waits_for;
}
