-- ===== src/Server/Handler/OneReply.antt =====
-- How many replies a request gets from `RTSP_Handler`.
use wifi_audio.Common.{
  ℕ, ◌≡◌, ◌≢◌, refl, sym, ap, ◌&&◌, false, if◌then◌else◌, ◌∙◌, ◌⊎◌, inl, inr, true, List, ◌∷◌, none,
  some, Bytes, arith, Bool-cases, Option-cases, ◌==◌, ret, Ensures, returns, stops, Ensures-if,
  Ensures-eq, Ensures-weaken,
}
use wifi_audio.Rtp.Links.{Links}
use wifi_audio.Rtsp.Types.{
  RtspCommand, RtspHeader, State, e_ok, e_unsupported_transport, e_unsupported_media_type,
}
use wifi_audio.Rtsp.Parser.Rule.{Keeps, reported}
use wifi_audio.Rtsp.Session.{Session, process, finish}
use wifi_audio.Rtsp.Session.Machine.{commands_in, process-rule}
use wifi_audio.Server.Output.{Platform, RtspHandler, send_error, terminate}
use wifi_audio.Server.Handler.{
  rtsp_handler, command, run_command, error, setup, play, pause, teardown, describe, options,
  new_rtp_client, usable_transport, setup_reply,
}
use wifi_audio.Server.Handler.Frame.{
  describe-Replied, options-Replied, setup_reply-Replied, play_reply-Replied, stop_reply-Replied,
  send_error-Replied,
}

-- A command that is not KILL is not reported as KILL.
other :
    (cmd : RtspCommand) (code c : ℕ)
    → cmd ≢ RtspCommand.kill
    → reported cmd code c ≢ RtspCommand.kill
other cmd code c n = elim (Bool-cases (c == e_ok && code == e_ok)) [
  | inl e ↦ rw e n
  | inr e ↦ rw e (λ q. cc)
]

finish-not_kill :
    (s : Session) (st : State) (cmd : RtspCommand)
    → s.state ≡ st
    → cmd ≢ RtspCommand.kill
    → (finish cmd s).0 ≢ RtspCommand.kill
unfolding finish
finish-not_kill s st RtspCommand.kill e n = absurd (n refl)
finish-not_kill s st RtspCommand.teardown e n = λ q. cc
finish-not_kill s State.init RtspCommand.setup e n = rw (e, finish) (λ q. cc)
finish-not_kill s State.init cmd e n = rw (e, finish) n
finish-not_kill s State.ready RtspCommand.play e n = rw (e, finish) (λ q. cc)
finish-not_kill s State.ready cmd e n = rw (e, finish) n
finish-not_kill s State.playing RtspCommand.pause e n = rw (e, finish) (λ q. cc)
finish-not_kill s State.playing cmd e n = rw (e, finish) n
finish-not_kill s State.dead cmd e n = rw (e, finish) (λ q. cc)

module _ {k : Links} where
  -- One more reply than there was.
  abbrev pub Answered : RtspHandler k → RtspHandler k → Type 0
  Answered h g = (r : Bytes) × (g.replies ≡ r ∷ h.replies)

  -- KILL gets no reply, and everything else one.
  abbrev pub Replies : RtspHandler k → RtspCommand → RtspHandler k → Type 0
  Replies h cmd g =
      ((cmd ≡ RtspCommand.kill) × (g.replies ≡ h.replies))
      ⊎ ((cmd ≢ RtspCommand.kill) × Answered h g)

  module _ (platform : Platform) where
    new_rtp_client-replies :
        (t : _) (h : RtspHandler k) → (new_rtp_client platform t h).replies ≡ h.replies
    unfolding new_rtp_client
    new_rtp_client-replies t h = refl

    run_command-Answered :
        (cmd : RtspCommand) (h : RtspHandler k) (hdrs : RtspHeader)
        → cmd ≢ RtspCommand.unknown
        → Ensures
            (λ e. Unit)
            (λ r. Replies h (reported cmd e_ok r.0) r.1)
            (run_command platform cmd hdrs h)
    unfolding run_command setup play pause teardown new_rtp_client terminate
    run_command-Answered RtspCommand.describe h hdrs u = elim (Bool-cases hdrs.accept_sdp) [
      | inl e ↦
          rw (e, run_command)
            (returns {a = describe platform hdrs h} (
              inr (
                other RtspCommand.describe e_ok (describe platform hdrs h).0 (λ q. cc),
                (describe-Replied platform hdrs h).reply,
              )))
      | inr e ↦
          rw (e, run_command)
            (returns {a = send_error platform (some hdrs) e_unsupported_media_type h} (
              inr (
                other RtspCommand.describe e_ok
                    (send_error platform (some hdrs) e_unsupported_media_type h).0 (λ q. cc),
                (send_error-Replied platform (some hdrs) e_unsupported_media_type h).reply,
              )))
    ]
    run_command-Answered RtspCommand.options h hdrs u = returns {a = options platform hdrs h} (
        inr (
          other RtspCommand.options e_ok (options platform hdrs h).0 (λ q. cc),
          (options-Replied platform hdrs h).reply,
        ))
    run_command-Answered RtspCommand.setup h hdrs u =
        elim (Option-cases (usable_transport hdrs.transport)) [
          | inl e ↦
              rw (e, setup)
                (returns {a = send_error platform (some hdrs) e_unsupported_transport h} (
                  inr (
                    other RtspCommand.setup e_ok
                        (send_error platform (some hdrs) e_unsupported_transport h).0 (λ q. cc),
                    (send_error-Replied platform (some hdrs) e_unsupported_transport h).reply,
                  )))
          | inr (t, e) ↦
              rw (e, setup)
                (Ensures-if _
                  (returns {a = (e_ok, new_rtp_client platform t (setup_reply platform hdrs h))} (
                    inr (
                      other RtspCommand.setup e_ok e_ok (λ q. cc),
                      (setup_reply-Replied platform hdrs h).reply,
                    )))
                  (stops tt))
        ]
    run_command-Answered RtspCommand.play h hdrs u = elim (Option-cases h.rtp_client) [
      | inl e ↦ rw (e, play) (stops tt)
      | inr (c, e) ↦
          rw (e, play)
            (returns (
              inr (
                other RtspCommand.play e_ok e_ok (λ q. cc),
                (play_reply-Replied platform hdrs h).reply,
              )))
    ]
    run_command-Answered RtspCommand.pause h hdrs u = returns {a = pause platform hdrs h} (
        inr (
          other RtspCommand.pause e_ok (pause platform hdrs h).0 (λ q. cc),
          (stop_reply-Replied platform hdrs h).reply,
        ))
    run_command-Answered RtspCommand.teardown h hdrs u = returns {a = teardown platform hdrs h} (
        inr (
          other RtspCommand.teardown e_ok (teardown platform hdrs h).0 (λ q. cc),
          (stop_reply-Replied platform hdrs h).reply,
        ))
    run_command-Answered RtspCommand.kill h hdrs u =
        returns {a = (e_ok, terminate h)} (inl (refl, refl))
    run_command-Answered RtspCommand.unknown h hdrs u = absurd (u refl)

    answers :
        (st : State) (h : RtspHandler k)
        → Keeps
            (λ e. Unit {0})
            (rtsp_handler platform)
            (λ g. g.replies ≡ h.replies)
            (λ cmd g. Replies h cmd g)
            (commands_in st)
    unfolding error command
    answers st h = record {
      on_error =
          λ g code p. inr ((λ q. cc), since p (send_error-Replied platform none code g).reply);
      on_command = λ g cmd uri hdr code p u ok. elim (Bool-cases (code == e_ok)) [
        | inl e ↦
            rw (is_ok e, command)
              (Ensures-weaken (λ e n. n)
                (λ r q. elim q [
                  | inl (x, same) ↦ inl (x, same ∙ p)
                  | inr (x, a) ↦ inr (x, since p a)
                ])
                (run_command-Answered cmd g hdr u))
        | inr e ↦
            rw (e, command)
              (returns {a = send_error platform (some hdr) code g} (
                inr (
                  not_reported cmd (send_error platform (some hdr) code g).0,
                  since p (send_error-Replied platform (some hdr) code g).reply,
                )))
      ];
    }
      where
        since :
            {xs ys zs : List Bytes}
            → xs ≡ ys
            → (r : Bytes) × (zs ≡ r ∷ xs)
            → (r : Bytes) × (zs ≡ r ∷ ys)
        since p (r, e) = (r, e ∙ ap (λ x. r ∷ x) p)

        is_ok : {code : ℕ} → (code == e_ok) ≡ true → code ≡ e_ok
        is_ok e = ground arith

        not_reported :
            (cmd : RtspCommand) (c : ℕ)
            → (if c == e_ok && false then cmd else RtspCommand.unknown) ≢ RtspCommand.kill
        not_reported cmd c = elim (Bool-cases (c == e_ok)) [
          | inl f ↦ rw f (λ q. cc)
          | inr f ↦ rw f (λ q. cc)
        ]

    -- In a session that is not DEAD, every request, well formed or not, that does not fault gets
    -- exactly one reply, which is sent at once, if process does not return KILL; if it returns KILL,
    -- nothing is sent.
    pub process-one_reply :
        (bytes : Bytes) (s t : Session) (h g : RtspHandler k) (cmd : RtspCommand)
        → s.state ≢ State.dead
        → process platform.luts (rtsp_handler platform) bytes s h ≡ ret (cmd, t, g)
        → ((cmd ≡ RtspCommand.kill) × (g.replies ≡ h.replies))
          ⊎ ((cmd ≢ RtspCommand.kill) × ((r : Bytes) × (g.replies ≡ r ∷ h.replies)))
    unfolding finish
    process-one_reply bytes s t h g cmd live e =
        let (c, q, f) =
          Ensures-eq
            (process-rule (λ e u. tt) platform.luts (rtsp_handler platform)
              (λ g. g.replies ≡ h.replies) (λ cmd g. Replies h cmd g) s live (answers s.state h)
              bytes h refl)
            e in
        elim q [
          | inl (p, same) ↦ inl (ap (λ x. x.0) f ∙ ap (λ c. (finish c s).0) p, same)
          | inr (n, a) ↦
              inr (λ p. finish-not_kill s s.state c refl n (sym (ap (λ x. x.0) f) ∙ p), a)
        ]
