-- ===== src/Rtp/Engine.antt =====
-- src/rtp.cpp: the RTP engine. Clients and blocks are named by numbers, which stand for their
-- addresses; `clients` and `packets` are what those addresses hold.
pub mod Updates
pub mod Visit
pub mod Blocks
pub mod Send
pub mod Stats
use wifi_audio.Common.{
  ℕ, zero, suc, ◌+◌, ◌*◌, ◌%◌, ◌^◌, Bool, true, false, not, List, [], ◌∷◌, ◌++◌, Option, none, some,
  Bytes, ltb, leb, ◌==◌, if◌then◌else◌, take, replicate, ℤ, signed32, low_bits, eq_ℤ, Outcome, ret,
  fault, Fault,
}
use wifi_audio.Codec.{CodecInfo}
use wifi_audio.Rtp.Header.{RtpHeader, set_version, set_payload, set_seq, set_timestamp, set_ssrc}
use wifi_audio.Rtp.Links.{Links}

-- The counters of `RTP_Client`; its socket is named by the client's own number.
pub record RtpClient : Type 0 where
  pub num_packets : ℕ
  pub num_errors : ℕ

-- Every datagram handed to a socket, the latest first: the client and the bytes.
abbrev pub Sent : Type 0
Sent = List (ℕ × Bytes)

-- What `Socket::send` returns, which may depend on all that was sent before.
abbrev pub SocketSend : Type 0
SocketSend = Sent → ℕ → Bytes → ℤ

pub record RtpEngine (k : Links) : Type 0 where
  pub codec : CodecInfo
  pub rtp_port : ℕ
  pub rtcp_port : ℕ
  pub playing : k.Chain
  pub blocks : k.Chain
  pub packet_seq : ℕ
  pub timestamp : ℕ
  pub packets : ℕ → RtpHeader
  pub max_payload : ℕ → ℕ
  pub clients : ℕ → RtpClient
  pub sent : Sent

abbrev pub update {ℓ} : {A : Type ℓ} → (ℕ → A) → ℕ → A → ℕ → A
update f i v j = if j == i then v else f j

abbrev pub new_client : RtpClient
new_client = record { num_packets = 0; num_errors = 0 }

-- A packet as `allocator->malloc` and `memset` leave it.
abbrev pub blank_packet : ℕ → RtpHeader
blank_packet payload = record { head = replicate 12 0; audio = replicate payload 0 }

-- The header fields that the constructor sets.
unfoldable pub init_packet : CodecInfo → RtpHeader → RtpHeader
init_packet codec p =
    set_ssrc (set_timestamp (set_payload (set_version p 2) codec.payload_type) 0) 0

-- The loop of the destructor: blocks are taken off until there are none; the result lists what was
-- freed, the latest first. The fuel bounds the number of rounds, and none says that it ran out.
unfoldable pub free_blocks : (k : Links) → ℕ → k.Chain → List ℕ → Option (List ℕ)
free_blocks k zero c freed = none
free_blocks k (suc fuel) c freed =
    let (b, d) = k.pop c in elim b [ none ↦ some freed | some x ↦ free_blocks k fuel d (x ∷ freed) ]

module _ {k : Links} where
  -- The loop of the constructor: `n` blocks are left to make, the next one is block `idx`.
  unfoldable pub add_blocks : ℕ → ℕ → RtpEngine k → RtpEngine k
  unfolding init_packet
  add_blocks zero idx e = e
  add_blocks (suc n) idx e = add_blocks n (suc idx) (record e {
    packets = update e.packets idx (init_packet e.codec (blank_packet e.codec.max_payload_size));
    max_payload = update e.max_payload idx e.codec.max_payload_size;
    blocks = k.push idx e.blocks;
  })

  unfoldable pub create_engine : CodecInfo → ℕ → ℕ → ℕ → RtpEngine k
  unfolding add_blocks
  create_engine codec rtp rtcp num_buffers = add_blocks num_buffers 0 (record {
    codec = codec;
    rtp_port = rtp;
    rtcp_port = rtcp;
    playing = k.empty;
    blocks = k.empty;
    packet_seq = 1;
    timestamp = 0;
    packets = λ i. blank_packet 0;
    max_payload = λ i. 0;
    clients = λ i. new_client;
    sent = [];
  })

  unfoldable pub rx_bytes : RtpEngine k → ℕ
  rx_bytes e = e.codec.samples_per_packet * e.codec.num_chans * e.codec.sample_size

  unfoldable pub get_server_ports : RtpEngine k → ℕ × ℕ
  get_server_ports e = (e.rtp_port, e.rtcp_port)

  unfoldable pub play : RtpEngine k → Option ℕ → RtpEngine k
  play e none = e
  play e (some client) = record e { playing = k.push client e.playing }

  unfoldable pub remove : RtpEngine k → Option ℕ → RtpEngine k
  remove e none = e
  remove e (some client) = record e { playing = k.remove client e.playing }

  unfoldable pub has_clients : RtpEngine k → Bool
  has_clients e = k.has_head e.playing

  unfoldable pub get_free : RtpEngine k → Option ℕ × RtpEngine k
  get_free e = let (b, rest) = k.pop e.blocks in (b, record e { blocks = rest })

  unfoldable pub put_free : RtpEngine k → ℕ → RtpEngine k
  put_free e b = record e { blocks = k.push b e.blocks }

  -- The packet of block `b` as it leaves, with the next sequence number and the time stamp.
  unfoldable pub stamp : RtpEngine k → ℕ → RtpHeader
  stamp e b = set_timestamp (set_seq (e.packets b) e.packet_seq) e.timestamp

-- What a visit of the playing clients changes.
pub record Wire : Type 0 where
  pub clients : ℕ → RtpClient
  pub sent : Sent

module _ (socket_send : SocketSend) where
  -- `RTP_Client::send`: the packet counter goes up, whatever the socket answers.
  unfoldable pub client_send : ℕ → Bytes → Wire → ℤ × Wire
  client_send client bytes w =
      let c = w.clients client in
      (
        socket_send w.sent client bytes,
        record {
          clients = update w.clients client (record c { num_packets = c.num_packets + 1 });
          sent = (client, bytes) ∷ w.sent;
        },
      )

  unfoldable pub client_error : ℕ → Wire → Wire
  client_error client w =
      let c = w.clients client in
      record w { clients = update w.clients client (record c { num_errors = c.num_errors + 1 }) }

  -- `send_packet`, called by the visit. It never ends the visit.
  unfoldable pub send_packet : Bytes → ℕ → ℕ → Wire → Bool × Wire
  unfolding client_send client_error
  send_packet bytes size client w =
      let (sent, w') = client_send client bytes w in
      (false, if not (eq_ℤ sent (signed32 (size % 2 ^ 32))) then client_error client w' else w')

  module _ {k : Links} where
    unfoldable pub send : RtpEngine k → ℕ → ℕ → ℕ → Outcome (RtpEngine k)
    unfolding send_packet put_free
    send e b bytes samples =
        let packet = stamp e b in
        let size = 12 + bytes in
        let out = take size (packet.head ++ packet.audio) in
        let wire =
          k.visit Wire (send_packet out size) e.playing
            (record { clients = e.clients; sent = e.sent }) in
        if leb bytes (e.max_payload b)
        then ret (
            put_free
              (record e {
                packets = update e.packets b packet;
                packet_seq = (e.packet_seq + 1) % 2 ^ 16;
                timestamp = (e.timestamp + samples % 2 ^ 32) % 2 ^ 32;
                clients = wire.clients;
                sent = wire.sent;
              })
              b)
        else fault Fault.assertion

-- The statistics interface: `match` is the index to find, none for -1.
pub record Counter : Type 0 where
  pub idx : ℕ
  pub client : Option ℕ

unfoldable pub find_client : Option ℕ → ℕ → Counter → Bool × Counter
find_client none client c = (false, record c { idx = c.idx + 1 })
find_client (some i) client c =
    if c.idx == i
    then (true, record c { client = some client })
    else (false, record c { idx = c.idx + 1 })

module _ {k : Links} where
  unfoldable pub get_num_clients : RtpEngine k → ℕ
  unfolding find_client
  get_num_clients e =
      (k.visit Counter (find_client none) e.playing (record { idx = 0; client = none })).idx

  unfoldable pub get_client : RtpEngine k → ℕ → Option ℕ
  unfolding find_client
  get_client e i =
      (k.visit Counter (find_client (some i)) e.playing (record { idx = 0; client = none })).client
