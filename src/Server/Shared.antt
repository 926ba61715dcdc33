-- ===== src/Server/Shared.antt =====
-- The connections of a server together (src/rtsp_server.cpp): they share the engine, and the steps of their
-- threads interleave. A step is a whole request, or the start or the end of a connection.
pub mod Frame
pub mod Requests
pub mod Linked
pub mod Store
pub mod Ends
pub mod Steps
pub mod Reach
use wifi_audio.Common.{ℕ, zero, suc, ◌≡◌, Option, none, some, Bytes, Outcome, ret, ◌>>=◌}
use wifi_audio.Rtp.Links.{Links}
use wifi_audio.Rtp.Engine.{RtpEngine, update}
use wifi_audio.Rtsp.Types.{RtspCommand}
use wifi_audio.Rtsp.Session.{Session, process}
use wifi_audio.Server.Control.{Factory, create_client}
use wifi_audio.Server.Handler.{rtsp_handler}
use wifi_audio.Server.Output.{Platform, RtspHandler, terminate}

-- The connections by number, each with its session and its handler. `next_client` is the address of the
-- next RTP client.
pub record Shared (k : Links) : Type 0 where
  pub engine : RtpEngine k
  pub next_client : ℕ
  pub factory : Factory
  pub sessions : ℕ → Option (Session × RtspHandler k)

module _ {k : Links} where
  -- The handler of a connection holds a pointer to the engine: it finds it as the others left it.
  abbrev pub with_engine : Shared k → RtspHandler k → RtspHandler k
  with_engine s h = record h { engine = s.engine; next_client = s.next_client }

  abbrev pub store : ℕ → Session → RtspHandler k → Shared k → Shared k
  store i t h s = record s {
    engine = h.engine;
    next_client = h.next_client;
    sessions = update s.sessions i (some (t, h));
  }

  -- A client connects: `Factory` makes its session.
  unfoldable pub connect : ℕ → Shared k → Shared k
  connect i s =
      let ((t, h), f) = create_client s.engine s.next_client s.factory in
      record (store i t h s) { factory = f }

  abbrev pub replied :
      ℕ → Shared k → RtspCommand × Session × RtspHandler k → Outcome (RtspCommand × Shared k)
  replied i s (cmd, t, h) = ret (cmd, store i t h s)

  -- A request of connection `i`.
  unfoldable pub request :
      Platform → ℕ → Bytes → Session × RtspHandler k → Shared k → Outcome (RtspCommand × Shared k)
  request platform i bytes c s =
      process platform.luts (rtsp_handler platform) bytes c.0 (with_engine s c.1) >>= replied i s

  -- The end of connection `i`: `terminate`, and the destructors.
  unfoldable pub disconnect : ℕ → Session × RtspHandler k → Shared k → Shared k
  unfolding terminate
  disconnect i c s = record s {
    engine = (terminate (with_engine s c.1)).engine;
    sessions = update s.sessions i none;
  }

  -- A step of the server: of one connection, or of the thread that sends the audio, which leaves the
  -- playing list alone.
  pub data Step (platform : Platform) (s t : Shared k) : Type 0 where
    connects : (i : ℕ) → s.sessions i ≡ none → t ≡ connect i s → Step platform s t
    requests :
        (i : ℕ) (c : Session × RtspHandler k) (bytes : Bytes) (cmd : RtspCommand)
        → s.sessions i ≡ some c
        → request platform i bytes c s ≡ ret (cmd, t)
        → Step platform s t
    disconnects :
        (i : ℕ) (c : Session × RtspHandler k)
        → s.sessions i ≡ some c
        → t ≡ disconnect i c s
        → Step platform s t
    sends :
        (e : RtpEngine k)
        → e.playing ≡ s.engine.playing
        → t ≡ record s { engine = e }
        → Step platform s t
