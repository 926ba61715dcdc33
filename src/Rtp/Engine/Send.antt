-- ===== src/Rtp/Engine/Send.antt =====
-- `RTP_Engine::send` as one step: the packet, the clients, the counters and the block.
use mathlib.Core.List.{reverse}
use native.Mathlib.Decide.{dec_lt}
use wifi_audio.Common.{
  ℕ, ◌+◌, ◌%◌, ◌^◌, ◌≤◌, ◌<◌, ◌≡◌, ◌≢◌, ◌⊎◌, inl, inr, refl, ap, ◌∙◌, ◌∷◌, ◌++◌, map, arith, Bytes,
  count, take, ret, fault, Fault,
}
use wifi_audio.Rtp.Header.Decode.{fields, IsHeader}
use wifi_audio.Rtp.Header.RoundTrip.{
  fields-set_seq, fields-set_timestamp, set_seq-IsHeader, set_timestamp-IsHeader,
}
use wifi_audio.Rtp.Header.{RtpHeader, set_seq}
use wifi_audio.Rtp.Links.{Links}
use wifi_audio.Rtp.Engine.Updates.{update_self, update_ne}
use wifi_audio.Rtp.Engine.Visit.{visited, visited-num_packets, visited-sent}
use wifi_audio.Rtp.Engine.{RtpEngine, SocketSend, Wire, send, stamp, update}

-- The bytes of a packet on the wire, for a payload of `bytes`.
abbrev pub datagram : RtpHeader → ℕ → Bytes
datagram packet bytes = take (12 + bytes) (packet.head ++ packet.audio)

-- The block with the audio in it.
abbrev pub filled : {k : Links} → RtpEngine k → ℕ → Bytes → RtpEngine k
filled e b audio = record e {
  packets = update e.packets b (record (e.packets b) { audio = audio });
}

pub filled-IsHeader :
    {k : Links} (e : RtpEngine k) (b : ℕ) (audio : Bytes)
    → IsHeader (e.packets b)
    → IsHeader ((filled e b audio).packets b)
filled-IsHeader e b audio h =
    rw (update_self e.packets b (record (e.packets b) { audio = audio }))
      (record { size = h.size; first = h.first; second = h.second })

module _ {k : Links} where
  -- The counters of the engine stay in the range of their types.
  pub record IsCounting (e : RtpEngine k) : Type 0 where
    pub seq_word : e.packet_seq < 65536
    pub time_word : e.timestamp < 4294967296

  pub fields-stamp :
      (e : RtpEngine k) (b : ℕ)
      → IsCounting e
      → IsHeader (e.packets b)
      → fields (stamp e b)
        ≡ record (fields (e.packets b)) { seq = e.packet_seq; timestamp = e.timestamp }
  unfolding stamp
  fields-stamp e b c h =
      let word : e.packet_seq % 65536 ≡ e.packet_seq = omega (arith, c.seq_word) in
      let time : e.timestamp % 4294967296 ≡ e.timestamp = omega (arith, c.time_word) in
      cc (
        fields-set_seq (e.packets b) e.packet_seq h,
        fields-set_timestamp (set_seq (e.packets b) e.packet_seq) e.timestamp
            (set_seq-IsHeader (e.packets b) e.packet_seq h),
        word,
        time,
      )

  -- What a successful `send` of block `b` leaves behind.
  pub record Delivered (e f : RtpEngine k) (b bytes samples : ℕ) : Type 0 where
    pub packet :
        fields (f.packets b)
        ≡ record (fields (e.packets b)) { seq = e.packet_seq; timestamp = e.timestamp }
    pub header : IsHeader (f.packets b)
    pub wire :
        f.sent
        ≡ reverse (map (λ x. (x, datagram (f.packets b) bytes)) (k.items e.playing)) ++ e.sent
    pub packets_counted :
        (i : ℕ)
        → (f.clients i).num_packets ≡ (e.clients i).num_packets + count i (k.items e.playing)
    pub next_seq : f.packet_seq ≡ (e.packet_seq + 1) % 65536
    pub next_time : f.timestamp ≡ (e.timestamp + samples) % 4294967296
    pub counting : IsCounting f
    pub playing : f.playing ≡ e.playing
    pub other_packets : (a : ℕ) → a ≢ b → f.packets a ≡ e.packets a
    pub recycled : (a : ℕ) → count a (k.items f.blocks) ≡ count a (b ∷ k.items e.blocks)

  stamp-IsHeader : (e : RtpEngine k) (b : ℕ) → IsHeader (e.packets b) → IsHeader (stamp e b)
  unfolding stamp
  stamp-IsHeader e b h =
      set_timestamp-IsHeader _ e.timestamp (set_seq-IsHeader (e.packets b) e.packet_seq h)

module _ {k : Links} (socket_send : SocketSend) where
  wire_of : RtpEngine k → ℕ → ℕ → Wire
  wire_of e b bytes =
      visited socket_send (datagram (stamp e b) bytes) (12 + bytes) (k.items e.playing)
        (record { clients = e.clients; sent = e.sent })

  after_send : RtpEngine k → ℕ → ℕ → ℕ → RtpEngine k
  after_send e b bytes samples = record e {
    blocks = k.push b e.blocks;
    packets = update e.packets b (stamp e b);
    packet_seq = (e.packet_seq + 1) % 2 ^ 16;
    timestamp = (e.timestamp + samples % 2 ^ 32) % 2 ^ 32;
    clients = (wire_of e b bytes).clients;
    sent = (wire_of e b bytes).sent;
  }

  send-after_send :
      (e : RtpEngine k) (b bytes samples : ℕ)
      → bytes ≤ e.max_payload b
      → send socket_send e b bytes samples ≡ ret (after_send e b bytes samples)
  unfolding send after_send wire_of
  send-after_send e b bytes samples fits = simp (k.visit_items Wire) (ground (arith, fits))

  delivered :
      (e : RtpEngine k) (b bytes samples : ℕ)
      → IsCounting e
      → IsHeader (e.packets b)
      → count b (k.items e.blocks) ≡ 0
      → Delivered e (after_send e b bytes samples) b bytes samples
  unfolding after_send wire_of
  delivered e b bytes samples c h fresh = record {
    packet = ap fields (update_self e.packets b (stamp e b)) ∙ fields-stamp e b c h;
    header = rw (update_self e.packets b (stamp e b)) (stamp-IsHeader e b h);
    wire =
        rw (update_self e.packets b (stamp e b))
          (visited-sent socket_send _ _ (k.items e.playing) _);
    packets_counted = λ i. visited-num_packets socket_send _ _ (k.items e.playing) i _;
    next_seq = refl;
    next_time = omega arith;
    counting = record { seq_word = omega arith; time_word = omega arith };
    playing = refl;
    other_packets = λ a ne. update_ne e.packets b a _ ne;
    recycled = λ a. k.count-push a b e.blocks fresh;
  }

  -- With counters in range, a header of twelve bytes and a block that is not in the pool: a payload
  -- that fits the block is sent once to each playing client, in the order of the list, and once more
  -- for each time a client stands there; the packet carries the engine's sequence number and time
  -- stamp and keeps its other fields and its payload; both counters move on and wrap; the block
  -- returns to the pool, and no other packet changes. A payload that does not fit stops at the
  -- assertion.
  pub send_lem :
      (e : RtpEngine k) (b bytes samples : ℕ)
      → IsCounting e
      → IsHeader (e.packets b)
      → count b (k.items e.blocks) ≡ 0
      → ((bytes ≤ e.max_payload b)
          × ((f : RtpEngine k) × (send socket_send e b bytes samples ≡ ret f)
              × Delivered e f b bytes samples))
        ⊎ ((e.max_payload b < bytes) × (send socket_send e b bytes samples ≡ fault Fault.assertion))
  send_lem e b bytes samples c h fresh = elim (dec_lt (e.max_payload b) bytes) [
    | yes over ↦ inr (over, unfold send in ground (arith, over))
    | no fits ↦
        let small : bytes ≤ e.max_payload b = omega arith in
        inl (
          small,
          (
            after_send e b bytes samples,
            send-after_send e b bytes samples small,
            delivered e b bytes samples c h fresh,
          ),
        )
  ]
