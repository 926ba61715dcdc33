-- ===== src/Server/Handler/Frame.antt =====
-- What the replies of `RTSP_Handler` leave alone, and how many of them there are.
use wifi_audio.Common.{
  ℕ, ◌≡◌, refl, ◌∙◌, Bool, true, false, List, [], ◌∷◌, Option, none, some, Bytes, arith,
}
use wifi_audio.Libc.Printf.{Arg}
use wifi_audio.Rtp.Links.{Links}
use wifi_audio.Rtsp.Types.{RtspHeader, Lut, cmd_lut}
use wifi_audio.Server.Output.{Platform, RtspHandler, print, print_bytes, flush, common, send_error}
use wifi_audio.Server.Handler.{
  describe, options, print_names, setup_reply, play_reply, stop_reply, sdp_text,
}

module _ {k : Links} where
  -- The same but for the text that waits to be sent.
  pub record Printing (h g : RtspHandler k) : Type 0 where
    pub engine : g.engine ≡ h.engine
    pub rtp_client : g.rtp_client ≡ h.rtp_client
    pub next_client : g.next_client ≡ h.next_client
    pub replies : g.replies ≡ h.replies

  -- One more reply was sent.
  pub record Replied (h g : RtspHandler k) : Type 0 where
    pub engine : g.engine ≡ h.engine
    pub rtp_client : g.rtp_client ≡ h.rtp_client
    pub next_client : g.next_client ≡ h.next_client
    pub reply : (r : Bytes) × (g.replies ≡ r ∷ h.replies)

  same : (h : RtspHandler k) → Printing h h
  same h = record { engine = refl; rtp_client = refl; next_client = refl; replies = refl }

  then_print : {h g j : RtspHandler k} → Printing h g → Printing g j → Printing h j
  then_print p q = record {
    engine = q.engine ∙ p.engine;
    rtp_client = q.rtp_client ∙ p.rtp_client;
    next_client = q.next_client ∙ p.next_client;
    replies = q.replies ∙ p.replies;
  }

  flushed : {h g : RtspHandler k} → Printing h g → Replied h (flush g)
  unfolding flush
  flushed {g = g} p = record {
    engine = p.engine;
    rtp_client = p.rtp_client;
    next_client = p.next_client;
    reply = (g.out, ground (arith, p.replies));
  }

  module _ (platform : Platform) where
    print-Printing :
        (fmt : Bytes) (args : List Arg) (h : RtspHandler k) → Printing h (print platform fmt args h)
    unfolding print
    print-Printing fmt args h = record {
      engine = refl;
      rtp_client = refl;
      next_client = refl;
      replies = refl;
    }

    print_bytes-Printing : (s : Bytes) (h : RtspHandler k) → Printing h (print_bytes platform s h)
    unfolding print_bytes
    print_bytes-Printing [] h = same h
    print_bytes-Printing (c ∷ cs) h =
        then_print (record { engine = refl; rtp_client = refl; next_client = refl; replies = refl })
          (print_bytes-Printing cs _)

    common-Printing :
        (hdrs : RtspHeader) (sid : Bool) (h : RtspHandler k)
        → Printing h (common platform hdrs sid h)
    unfolding common
    common-Printing hdrs true h = record {
      engine = refl;
      rtp_client = refl;
      next_client = refl;
      replies = refl;
    }
    common-Printing hdrs false h = record {
      engine = refl;
      rtp_client = refl;
      next_client = refl;
      replies = refl;
    }

    print_names-Printing :
        (t : Lut) (sep : Bytes) (h : RtspHandler k) → Printing h (print_names platform t sep h)
    unfolding print_names
    print_names-Printing [] sep h = same h
    print_names-Printing ((text, v) ∷ t) sep h =
        then_print (print-Printing _ _ h) (print_names-Printing t _ _)

    pub describe-Replied :
        (hdrs : RtspHeader) (h : RtspHandler k) → Replied h (describe platform hdrs h).1
    unfolding describe
    describe-Replied hdrs h = flushed (
        then_print
          (then_print
            (then_print (then_print (common-Printing hdrs false h) (print-Printing _ _ _))
              (print-Printing _ _ _))
            (print-Printing _ _ _))
          (print_bytes-Printing (sdp_text platform h) _))

    pub options-Replied :
        (hdrs : RtspHeader) (h : RtspHandler k) → Replied h (options platform hdrs h).1
    unfolding options
    options-Replied hdrs h = flushed (
        then_print
          (then_print (then_print (common-Printing hdrs false h) (print-Printing _ _ _))
            (print_names-Printing cmd_lut [] _))
          (print-Printing _ _ _))

    pub setup_reply-Replied :
        (hdrs : RtspHeader) (h : RtspHandler k) → Replied h (setup_reply platform hdrs h)
    unfolding setup_reply
    setup_reply-Replied hdrs h = flushed (
        then_print (then_print (common-Printing hdrs true h) (print-Printing _ _ _))
          (print-Printing _ _ _))

    pub play_reply-Replied :
        (hdrs : RtspHeader) (h : RtspHandler k) → Replied h (play_reply platform hdrs h)
    unfolding play_reply
    play_reply-Replied hdrs h = flushed (
        then_print (then_print (common-Printing hdrs true h) (print-Printing _ _ _))
          (print-Printing _ _ _))

    pub stop_reply-Replied :
        (hdrs : RtspHeader) (h : RtspHandler k) → Replied h (stop_reply platform hdrs h)
    unfolding stop_reply
    stop_reply-Replied hdrs h =
        flushed (then_print (common-Printing hdrs true h) (print-Printing _ _ _))

    pub send_error-Replied :
        (hdrs : Option RtspHeader) (code : ℕ) (h : RtspHandler k)
        → Replied h (send_error platform hdrs code h).1
    unfolding send_error
    send_error-Replied none code h = record {
      engine = refl;
      rtp_client = refl;
      next_client = refl;
      reply = (_, refl);
    }
    send_error-Replied (some r) code h = record {
      engine = refl;
      rtp_client = refl;
      next_client = refl;
      reply = (_, refl);
    }
