-- ===== src/Rtp/Engine/Blocks.antt =====
-- The pool of packet buffers: the constructor, the destructor, and taking and returning a block.
use wifi_audio.Common.{
  ℕ, zero, suc, ◌+◌, ◌%◌, ◌≤◌, ◌<◌, ◌≡◌, ◌≢◌, refl, ap, sym, ◌⊎◌, inl, inr, List, [], ◌∷◌, none,
  some, arith, count, length, ltb, if◌then◌else◌, replicate,
}
use mathlib.Core.Path.{subst}
use native.Mathlib.Decide.{dec_lt}
use wifi_audio.Codec.{CodecInfo}
use wifi_audio.Rtp.Header.Decode.{Fields, fields, IsHeader}
use wifi_audio.Rtp.Header.RoundTrip.{
  fields-set_version, fields-set_payload, fields-set_timestamp, fields-set_ssrc,
  set_version-IsHeader, set_payload-IsHeader, set_timestamp-IsHeader, set_ssrc-IsHeader,
}
use wifi_audio.Rtp.Header.{RtpHeader, set_version, set_payload, set_timestamp}
use wifi_audio.Rtp.Links.{Links}
use wifi_audio.Rtp.Engine.Updates.{update_self, update_ne}
use wifi_audio.Rtp.Engine.{
  RtpEngine, update, blank_packet, init_packet, add_blocks, create_engine, free_blocks, get_free,
  put_free,
}

blank_packet-IsHeader : (n : ℕ) → IsHeader (blank_packet n)
blank_packet-IsHeader n = record { size = refl; first = omega arith; second = omega arith }

-- What a packet reads as once the constructor has set it up.
abbrev pub initial_fields : CodecInfo → Fields
initial_fields codec = record {
  version = 2;
  flags = 0;
  marker = 0;
  payload_type = codec.payload_type % 128;
  seq = 0;
  timestamp = 0;
  ssrc = 0;
  audio = replicate codec.max_payload_size 0;
}

module _ (codec : CodecInfo) (byte : codec.payload_type < 256) where
  pub init_packet_lem :
      (fields (init_packet codec (blank_packet codec.max_payload_size)) ≡ initial_fields codec)
      × IsHeader (init_packet codec (blank_packet codec.max_payload_size))
  unfolding init_packet
  init_packet_lem =
      let p = blank_packet codec.max_payload_size in
      let h0 = blank_packet-IsHeader codec.max_payload_size in
      let p1 = set_version p 2 in
      let h1 = set_version-IsHeader p 2 h0 (omega arith) in
      let p2 = set_payload p1 codec.payload_type in
      let h2 = set_payload-IsHeader p1 codec.payload_type h1 byte in
      let p3 = set_timestamp p2 0 in
      let h3 = set_timestamp-IsHeader p2 0 h2 in
      (
        cc (
          fields-set_version p 2 h0 (omega arith),
          fields-set_payload p1 codec.payload_type h1 byte,
          fields-set_timestamp p2 0 h2,
          fields-set_ssrc p3 0 h3,
        ),
        set_ssrc-IsHeader p3 0 h3,
      )

-- A packet that is set up, in a block of full size.
pub record IsReady (codec : CodecInfo) (packet : RtpHeader) (max_payload : ℕ) : Type 0 where
  pub reads : fields packet ≡ initial_fields codec
  pub header : IsHeader packet
  pub room : max_payload ≡ codec.max_payload_size

fresh-IsReady :
    (codec c : CodecInfo)
    → codec.payload_type < 256
    → c ≡ codec
    → IsReady codec (init_packet c (blank_packet c.max_payload_size)) c.max_payload_size
fresh-IsReady codec c byte e =
    subst (λ c. IsReady codec (init_packet c (blank_packet c.max_payload_size)) c.max_payload_size)
      (sym e)
      (record {
        reads = (init_packet_lem codec byte).0;
        header = (init_packet_lem codec byte).1;
        room = refl;
      })

module _ {k : Links} (codec : CodecInfo) where
  -- The blocks below `n` are made and free.
  pub record Filled (n : ℕ) (e : RtpEngine k) : Type 0 where
    pub codec_is : e.codec ≡ codec
    pub free : (a : ℕ) → count a (k.items e.blocks) ≡ (if ltb a n then 1 else 0)
    pub ready : (a : ℕ) → a < n → IsReady codec (e.packets a) (e.max_payload a)

  abbrev one_more : ℕ → RtpEngine k → RtpEngine k
  one_more idx e = record e {
    packets = update e.packets idx (init_packet e.codec (blank_packet e.codec.max_payload_size));
    max_payload = update e.max_payload idx e.codec.max_payload_size;
    blocks = k.push idx e.blocks;
  }

  module _ (byte : codec.payload_type < 256) where
    one_more-IsReady :
        (idx : ℕ) (e : RtpEngine k)
        → Filled idx e
        → (a : ℕ) → a < suc idx
        → IsReady codec ((one_more idx e).packets a) ((one_more idx e).max_payload a)
    one_more-IsReady idx e h a lt = elim (dec_lt a idx) [
      | yes old ↦
          let ne : a ≢ idx = omega arith in
          rw (update_ne e.packets idx a _ ne, update_ne e.max_payload idx a _ ne) (h.ready a old)
      | no new ↦
          let here : a ≡ idx = omega arith in
          rw (here, update_self e.packets idx _, update_self e.max_payload idx _)
            (fresh-IsReady codec e.codec byte h.codec_is)
    ]

    one_more-Filled : (idx : ℕ) (e : RtpEngine k) → Filled idx e → Filled (suc idx) (one_more idx e)
    one_more-Filled idx e h = record {
      codec_is = h.codec_is;
      free = λ a.
          let absent : count idx (k.items e.blocks) ≡ 0 = ground (arith, h.free idx) in
          ground (arith, k.count-push a idx e.blocks absent, h.free a);
      ready = one_more-IsReady idx e h;
    }

    add_blocks-Filled :
        (n idx m : ℕ) (e : RtpEngine k) → idx + n ≡ m → Filled idx e → Filled m (add_blocks n idx e)
    unfolding add_blocks
    add_blocks-Filled zero idx m e eq h = let same : idx ≡ m = omega arith in rw (← same) h
    add_blocks-Filled (suc n) idx m e eq h =
        add_blocks-Filled n (suc idx) m (one_more idx e) (omega arith) (one_more-Filled idx e h)

    -- For a payload type of one byte: the constructor makes the given number of blocks, each of them
    -- free exactly once; each packet reads as version 2 with the codec's payload type and zeros
    -- elsewhere, and its block has room for the codec's largest payload.
    pub create_engine-Filled : (rtp rtcp n : ℕ) → Filled n (create_engine {k = k} codec rtp rtcp n)
    unfolding create_engine
    create_engine-Filled rtp rtcp n = add_blocks-Filled n 0 n _ (omega arith) (record {
      codec_is = refl;
      free = λ a. ground (arith, ap (count a) k.items-empty);
      ready = λ a lt. elim lt [ ];
    })

-- With more rounds than there are free blocks, the destructor's loop ends, and it frees each block of
-- the list as often as it stands there.
pub free_blocks_all :
    (k : Links) (fuel : ℕ) (c : k.Chain) (freed : List ℕ)
    → length (k.items c) < fuel
    → (out : List ℕ) × (free_blocks k fuel c freed ≡ some out)
      × ((a : ℕ) → count a out ≡ count a (k.items c) + count a freed)
unfolding free_blocks
free_blocks_all k zero c freed h = elim h [ ]
free_blocks_all k (suc fuel) c freed h = elim (k.pop_cases c) [
  | inl (empty, e) ↦ (freed, rw (e, free_blocks), λ a. ground (arith, ap (count a) empty))
  | inr (x, d, e, counts, len) ↦
      let (out, f, g) = free_blocks_all k fuel d (x ∷ freed) (omega arith) in
      (out, ground (arith, e, f), λ a. ground (arith, g a, counts a))
]

module _ {k : Links} (e : RtpEngine k) where
  -- Where each block is free at most once, a block that is taken from the pool is no longer free, and
  -- putting it back restores the pool; only an empty pool gives none.
  pub put_free-get_free :
      ((a : ℕ) → count a (k.items e.blocks) ≤ 1)
      → ((get_free e ≡ (none, e)) × (k.items e.blocks ≡ []))
        ⊎ ((b : ℕ) × (rest : RtpEngine k) × (get_free e ≡ (some b, rest))
            × (count b (k.items e.blocks) ≡ 1)
            × (count b (k.items rest.blocks) ≡ 0)
            × ((a : ℕ) → count a (k.items (put_free rest b).blocks) ≡ count a (k.items e.blocks)))
  unfolding get_free put_free
  put_free-get_free once = elim (k.pop_cases e.blocks) [
    | inl (empty, p) ↦ inl (rw (p, get_free), empty)
    | inr (b, d, p, counts, len) ↦
        let absent : count b (k.items d) ≡ 0 = ground (arith, counts b, once b) in
        inr (
          b,
          record e { blocks = d },
          rw (p, get_free),
          ground (arith, counts b),
          absent,
          λ a. ground (arith, counts a, k.count-push a b d absent),
        )
  ]
