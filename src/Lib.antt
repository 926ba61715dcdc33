-- ===== src/Lib.antt =====
-- An RTSP server that streams audio over RTP, modelled from its C++ sources.
--
-- A connection's requests go through the parser (src/rtsp.cpp) to the handler (src/rtsp_server.cpp), which
-- answers them and puts the connection's RTP client into the engine's playing list or takes it out
-- (src/rtp.cpp); the session (src/rtsp.cpp) follows with its state. The engine sends each packet of encoded
-- audio to every client in that list.
--
-- Common       numbers, lists, outcomes: `ret`, or a fault: a failed ASSERT, a null pointer that is used,
--              or an access outside a buffer; or `out_of_fuel`, which is none of the code's
-- Libc         the C library as far as the sources use it: strings, strtok_r, strtoll,
--              printf, and binary streams over a device that may be full or fail
-- Codec        src/audio_codec.h and the codecs: Pcm, Opus and Codec2, each over its library as a parameter,
--              Registry for the codecs by name, Storage for what they use of the panglos library's store
-- Rtp.Header   src/rtp.h: set_u8, set_u16, set_u32, RTP_Header; Decode reads the fields back
-- Rtp.Links    what RTP_Engine relies on of the panglos library's linked list, as a record of laws
-- Rtp.Engine   src/rtp.cpp: RTP_Client and RTP_Engine; clients and blocks are numbers that stand for their
--              addresses, and the engine's functions `clients` and `packets` are the store
-- Rtsp.Types   src/rtsp.h: codes, commands, headers; the tables of src/rtsp.cpp
-- Rtsp.Lines, Rtsp.Transport, Rtsp.Headers, Rtsp.Parser
--              src/rtsp.cpp: LineParser and Parser. The parser's handler is a record of two operations, and
--              Parser.Rule is the proof rule for whole requests
-- Rtsp.Session src/rtsp.cpp: Session; Machine is the state machine as a relation
-- Server       src/rtsp_server.cpp: RTSP_Handler. Output has its state and its output functions, Handler its
--              commands; the engine it shares is part of the state, and Platform holds what it uses of
--              panglos (look-up tables, FmtOut, CharOut) and of the sockets
--              Connection is RtspClient: the buffer and the loop of one connection, over a record of what it uses
--              of a session; Unlinks fills that record with the session and the handler. Shared has all the
--              connections of a server over one engine. Control has the session identifiers and the commands of
--              src/server.cpp; Threads has _server, the reader's thread and the encoder's as interleaved steps,
--              over what they rely on of the queue
-- Utils        src/utils.cpp: the reader's ring of buffers and a round of audio_copy; the audio source, the
--              queue and the codec are parameters. Ring is the reader's loop
-- Wav          src/wav_file.cpp: the header, the sinks and the sources; Buffered puts a file under the reader
-- Esp32        src/esp32/i2s.cpp, the I2S reader, and src/esp32/fs.cpp, the start of the SD card, over the drivers
--              as parameters
-- Status       src/status.cpp: the callback that shows a session's state on an LED; what a poll finds is its
--              input
-- Network      src/network.cpp: the commands of the network and its start; the interfaces are a parameter
-- Boot         src/main.cpp, src/targets and src/esp32/init.cpp: from app_main over the board to the INIT event that
--              starts the server; Objects is what they rely on of the table of objects
-- Examples, Tests
--              parameters that meet the assumptions, runs, and the theorems at concrete inputs
--
-- A byte buffer is a list of bytes, and a request is read by splitting it; a C string ends at its first
-- zero. `int` values are integers, cut where the source casts; uint16_t and uint32_t counters wrap.
--
-- Bounds: a loop over a text has the length of the text, or that and one, as its fuel: each round takes at
-- least one byte. The loop that drops empty lines stops with a fault of its own where its fuel runs out. The loop of the engine's destructor is given its fuel, and more than the number of blocks
-- is enough. The reader's loop has the buffer's size and two: each round but the last reads at least one byte.
--
-- Not modelled: locks, the allocator (an allocation does not fail) and log output. A pointer into a request
-- is a copy of the text it points to, taken when it is made. Inside a request no step of
-- another connection comes; Connection has one connection by itself, and for the audio's threads the
-- connections are steps that change the playing list, in Threads.Deleted until the server returns. What they
-- and the command line do with the engine after that is not modelled. A whole `acquire` and a whole round of the copy loop
-- are one step each. The socket server, the LED strip and the other ESP32 drivers are calls of libraries that
-- are not part of the repository.
pub mod Common
pub mod Libc
pub mod Codec
pub mod Rtp
pub mod Rtsp
pub mod Server
pub mod Utils
pub mod Wav
pub mod Esp32
pub mod Status
pub mod Network
pub mod Boot
mod Examples
mod Tests
