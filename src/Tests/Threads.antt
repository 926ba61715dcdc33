-- ===== src/Tests/Threads.antt =====
-- The threads of the server on a small run, and the two ways in which they may end.
use wifi_audio.Common.{
  ℕ, zero, suc, ◌≡◌, ◌≤◌, ◌≢◌, ◌⊎◌, refl, Bool, true, [], Option, none, some, Bytes, Outcome, ret,
  arith, length-replicate, replicate,
}
use wifi_audio.Examples.{tone_source, fifo, fifo_waiting, copy_codec, all_sent, pcm_info}
use wifi_audio.Rtp.Links.{list_links}
use wifi_audio.Rtp.Engine.{create_engine, play}
use wifi_audio.Server.Threads.{
  ReaderPc, EncoderPc, ServerPc, ServerDesc, Threads, started, start_server, create_reader,
  reader_at, encoder_at, server_at, Run, here, next, of_reader, of_encoder, of_server, of_play,
}
use wifi_audio.Server.Threads.Invariant.{IsSound}
use wifi_audio.Server.Threads.Sound.{server_threads-IsSound}
use wifi_audio.Server.Threads.Deleted.{AnyRun, of_thread, plays, server_threads_lem}
use wifi_audio.Server.Threads.Shutdown.{Ready, Hangs, GoesOn, shutdown_lem}

abbrev zeros : ℕ → ℕ → Bytes
zeros i size = replicate size 0

zeros_full : (i size : ℕ) → ◌≡◌ {A = ℕ} (wifi_audio.Common.length (zeros i size)) size
zeros_full i size = length-replicate size 0

abbrev desc : ServerDesc tone_source copy_codec
desc = record { rtp_ports = (6000, 6001); codec_state = some 0; audio_source = some 0 }

abbrev MyThreads : Type 0
MyThreads = Threads tone_source fifo copy_codec list_links

abbrev first : MyThreads
first = started fifo_waiting zeros (create_engine pcm_info 6000 6001 4) 0 0

start_test : start_server fifo_waiting zeros desc ≡ ret first
unfolding start_server
start_test = refl

-- The encoder waits, a client plays, and the server stops before the reader looked at `dead`.
abbrev waiting : MyThreads
waiting = record first { encoder_pc = EncoderPc.reading }

abbrev playing : MyThreads
playing = record waiting {
  copying = record waiting.copying { engine = play waiting.copying.engine (some 7) };
}

abbrev stopping : MyThreads
stopping = record playing { server = ServerPc.joining_encoder; dead = true }

run : Run fifo_waiting all_sent first 3 stopping
unfolding encoder_at server_at
run = next (next (next here (of_encoder refl)) (of_play (some 7) refl refl)) (of_server refl)

-- Another client begins to play while the server waits for the encoder.
abbrev late : MyThreads
late = record stopping {
  copying = record stopping.copying { engine = play stopping.copying.engine (some 8) };
}

late_run : AnyRun fifo_waiting all_sent first late
unfolding encoder_at server_at
late_run =
    AnyRun.next
      (AnyRun.next
        (AnyRun.next (AnyRun.next AnyRun.here (of_thread (of_encoder refl)))
          (of_thread (of_play (some 7) refl refl)))
        (of_thread (of_server refl)))
      (plays (some 8) (λ e. cc) refl)

server_threads_lem_example : IsSound late × (late.deleted ≡ [])
server_threads_lem_example =
    server_threads_lem fifo_waiting zeros zeros_full (omega arith) all_sent desc start_test late_run

-- The reader sees `dead` and returns; the encoder waits for ever.
abbrev returned_reader : MyThreads
returned_reader = record stopping { reader_pc = ReaderPc.finished }

stopping-Hangs : Hangs fifo_waiting all_sent stopping
unfolding create_reader
stopping-Hangs = record { waits = refl; no_message = refl; no_reader = λ e. cc }

one_step : Run fifo_waiting all_sent stopping 1 returned_reader
unfolding reader_at
one_step = next here (of_reader refl)

shutdown_lem_example :
    (1 ≤ 6)
    × ((Ready fifo_waiting all_sent stopping × GoesOn fifo_waiting all_sent returned_reader)
        ⊎ (Hangs fifo_waiting all_sent stopping
            × (returned_reader.server ≡ ServerPc.joining_encoder)))
shutdown_lem_example =
    shutdown_lem fifo_waiting all_sent
      (server_threads-IsSound fifo_waiting zeros zeros_full (omega arith) all_sent desc start_test
        run)
      refl refl one_step
