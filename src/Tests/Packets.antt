-- ===== src/Tests/Packets.antt =====
-- RTP packets and the engine's blocks.

use wifi_audio.Common.{
  ℕ, ◌≡◌, ◌+◌, ◌≤◌, ◌<◌, refl, List, [], ◌∷◌, some, none, ret, fault, Fault, ◌⊎◌, arith, count,
  length, pos,
}
use wifi_audio.Examples.{engine, pcm_info}
use wifi_audio.Rtp.Header.{RtpHeader, set_version, set_payload, set_seq, set_timestamp, set_ssrc}
use wifi_audio.Rtp.Header.Decode.{IsHeader, fields}
use wifi_audio.Rtp.Header.RoundTrip.{fields_setters}
use wifi_audio.Rtp.Links.{list_links}
use wifi_audio.Rtp.Engine.{
  RtpEngine, create_engine, free_blocks, send, get_client, get_num_clients, SocketSend,
}
use wifi_audio.Rtp.Engine.Blocks.{Filled, create_engine-Filled, free_blocks_all}
use wifi_audio.Rtp.Engine.Send.{IsCounting, Delivered, send_lem}
use wifi_audio.Rtp.Engine.Stats.{get_client-get_num_clients}

-- The header of test/rtp.cpp.
abbrev packet : RtpHeader
packet = record { head = 0 ∷ 0 ∷ 0 ∷ 0 ∷ 0 ∷ 0 ∷ 0 ∷ 0 ∷ 0 ∷ 0 ∷ 0 ∷ 0 ∷ []; audio = [] }

packet-IsHeader : IsHeader packet
packet-IsHeader = record { size = refl; first = omega arith; second = omega arith }

header_test :
    (set_ssrc
      (set_timestamp (set_seq (set_payload (set_version packet 3) 129) 0x1234) 0x12345678)
      0x01234567).head
    ≡ 0xc0 ∷ 1 ∷ 0x12 ∷ 0x34 ∷ 0x12 ∷ 0x34 ∷ 0x56 ∷ 0x78 ∷ 0x01 ∷ 0x23 ∷ 0x45 ∷ 0x67 ∷ []
unfolding set_version set_payload set_seq set_timestamp set_ssrc
header_test = refl

fields_setters_example :
    (fields (set_version packet 3) ≡ record (fields packet) { version = 3 })
    × (fields (set_payload packet 129) ≡ record (fields packet) { payload_type = 1 })
    × (fields (set_seq packet 0x1234) ≡ record (fields packet) { seq = 0x1234 })
    × (fields (set_timestamp packet 0x12345678) ≡ record (fields packet) { timestamp = 0x12345678 })
    × (fields (set_ssrc packet 0x01234567) ≡ record (fields packet) { ssrc = 0x01234567 })
fields_setters_example =
    fields_setters packet 3 129 0x1234 0x12345678 0x01234567 packet-IsHeader (omega arith)
      (omega arith)

pcm_payload_type : pcm_info.payload_type < 256
pcm_payload_type = omega arith

create_engine-Filled_example :
    Filled {k = list_links} pcm_info 2 (create_engine pcm_info 6000 6001 2)
create_engine-Filled_example =
    create_engine-Filled {k = list_links} pcm_info pcm_payload_type 6000 6001 2

free_blocks_all_example :
    (out : List ℕ) × (free_blocks list_links 3 (1 ∷ 0 ∷ []) [] ≡ some out)
    × ((a : ℕ) → count a out ≡ count a (1 ∷ 0 ∷ []) + count a [])
free_blocks_all_example = free_blocks_all list_links 3 (1 ∷ 0 ∷ []) [] (omega arith)

-- Client 7 plays, and block 1 was taken from the pool.
abbrev playing_engine : RtpEngine list_links
playing_engine = record engine { playing = 7 ∷ []; blocks = 0 ∷ [] }

abbrev all_sent : SocketSend
all_sent sent client bytes = pos (length bytes)

playing_engine-IsCounting : IsCounting playing_engine
unfolding create_engine
playing_engine-IsCounting = record { seq_word = omega arith; time_word = omega arith }

block-IsHeader : IsHeader (playing_engine.packets 1)
block-IsHeader =
    ((create_engine-Filled {k = list_links} pcm_info pcm_payload_type 6000 6001 2).ready 1
      (omega arith)).header

send_lem_example :
    ((1440 ≤ playing_engine.max_payload 1)
      × ((f : RtpEngine list_links) × (send all_sent playing_engine 1 1440 360 ≡ ret f)
          × Delivered playing_engine f 1 1440 360))
    ⊎ ((playing_engine.max_payload 1 < 1440)
        × (send all_sent playing_engine 1 1440 360 ≡ fault Fault.assertion))
send_lem_example =
    send_lem all_sent playing_engine 1 1440 360 playing_engine-IsCounting block-IsHeader refl

get_client-get_num_clients_example :
    (get_client playing_engine 0 ≡ some 7)
    × (((0 < get_num_clients playing_engine) × ((x : ℕ) × (get_client playing_engine 0 ≡ some x)))
        ⊎ ((get_num_clients playing_engine ≤ 0) × (get_client playing_engine 0 ≡ none)))
get_client-get_num_clients_example = get_client-get_num_clients playing_engine 0
