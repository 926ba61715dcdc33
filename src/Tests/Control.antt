-- ===== src/Tests/Control.antt =====
-- The statistics command and the session identifiers.
use wifi_audio.Common.{ℕ, ◌≡◌, ◌≢◌, refl, true, [], ◌∷◌, some, none, codes, pos, arith}
use wifi_audio.Examples.{engine, pcm_info}
use wifi_audio.Rtp.Engine.{RtpEngine, create_engine, new_client}
use wifi_audio.Rtp.Links.{list_links}
use wifi_audio.Server.Control.Identifiers.{sid_after, sid_after-distinct}
use wifi_audio.Server.Control.Listing.{cmd_rtp_lem}
use wifi_audio.Server.Control.{Factory, Line, CodecLine, cmd_rtp, cmd_codec, first_sid}

abbrev playing_engine : RtpEngine list_links
playing_engine = record engine { playing = 7 ∷ 3 ∷ [] }

cmd_rtp_lem_example :
    cmd_rtp playing_engine (some (pos 80, pos 2))
    ≡ Line.client_count 2
      ∷ Line.client_stats 7 new_client
      ∷ Line.client_stats 3 new_client
      ∷ Line.i2s_stats (pos 80) (pos 2)
      ∷ []
unfolding create_engine
cmd_rtp_lem_example = cmd_rtp_lem playing_engine (some (pos 80, pos 2))

abbrev pub factory : Factory
unfolding first_sid
factory = record { ip = codes "127.0.0.1"; codec = pcm_info; cb = true; sid_gen = some first_sid }

sid_after-distinct_example : sid_after engine 0 factory ≢ sid_after engine 5 factory
unfolding factory
sid_after-distinct_example = sid_after-distinct engine 0 5 factory refl (omega arith) (omega arith)

no_codecs_test : cmd_codec {C = ℕ} [] none ≡ CodecLine.no_codecs ∷ CodecLine.none_installed ∷ []
unfolding cmd_codec
no_codecs_test = refl
