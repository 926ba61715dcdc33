-- ===== src/Rtsp/Session/Machine.antt =====
-- The states of a session: what any request, well formed or not, can change.
use mathlib.Core.Path.{subst}
use wifi_audio.Common.{
  ℕ, ◌≡◌, ◌≢◌, refl, sym, ap, ◌∙◌, ◌>>=◌, >>=-eq-ret, ret_inj, ◌⊎◌, inl, inr, List, [], Bytes,
  arith, Bool-cases, ◌&&◌, ◌==◌, Outcome, ret, fault, Fault, Ensures-eq, Ensures, NotAssertion,
  returns, stops, Ensures-bind,
}
use wifi_audio.Rtsp.Types.{RtspCommand, State, e_ok}
use wifi_audio.Rtsp.Parser.{Luts, Handler, parse, is_allowable}
use wifi_audio.Rtsp.Parser.Rule.{Permitted, Keeps, parse-Keeps, reported}
use wifi_audio.Rtsp.Session.{
  Session, set_state, allowable, finish, process, init_commands, ready_commands,
}

abbrev pub commands_in : State → List RtspCommand
commands_in State.init = init_commands
commands_in State.dead = []
commands_in _ = ready_commands

-- The state after a command that was carried out.
abbrev pub next_state : State → RtspCommand → State
next_state st RtspCommand.kill = State.dead
next_state st RtspCommand.teardown = State.dead
next_state State.init RtspCommand.setup = State.ready
next_state State.ready RtspCommand.play = State.playing
next_state State.playing RtspCommand.pause = State.ready
next_state st cmd = st

-- The commands that leave a session in its state.
abbrev pub Idle : State → RtspCommand → Type 0
Idle st RtspCommand.kill = ⊥
Idle st RtspCommand.teardown = ⊥
Idle State.init RtspCommand.setup = ⊥
Idle State.ready RtspCommand.play = ⊥
Idle State.playing RtspCommand.pause = ⊥
Idle st cmd = Unit {0}

-- The RTSP state machine, with the command that the parser reports. Every change of state is told to
-- the callback, once.
pub data Step (s : Session) (cmd : RtspCommand) (t : Session) : Type 0 where
  stay : Idle s.state cmd → t ≡ s → Step s cmd t
  set_up :
      s.state ≡ State.init → cmd ≡ RtspCommand.setup → t ≡ set_state s State.ready → Step s cmd t
  start :
      s.state ≡ State.ready → cmd ≡ RtspCommand.play → t ≡ set_state s State.playing → Step s cmd t
  hold :
      s.state ≡ State.playing → cmd ≡ RtspCommand.pause → t ≡ set_state s State.ready → Step s cmd t
  leave :
      (s.state ≡ State.ready) ⊎ (s.state ≡ State.playing)
      → cmd ≡ RtspCommand.teardown
      → t ≡ set_state s State.dead
      → Step s cmd t
  killed : s.state ≢ State.dead → cmd ≡ RtspCommand.kill → t ≡ set_state s State.dead → Step s cmd t

-- The command that `process` returns: a TEARDOWN is not told to its caller.
abbrev pub returned : RtspCommand → RtspCommand
returned RtspCommand.teardown = RtspCommand.unknown
returned cmd = cmd

-- What the parser may report in a state.
abbrev pub Reportable : State → RtspCommand → Type 0
Reportable st cmd = (cmd ≡ RtspCommand.unknown) ⊎ Permitted (commands_in st) cmd

abbrev Finished : Session → RtspCommand → Type 0
unfolding finish
Finished s cmd = Step s cmd (finish cmd s).1 × ((finish cmd s).0 ≡ returned cmd)

finish-Finished :
    (s : Session) (st : State) (cmd : RtspCommand)
    → s.state ≡ st
    → st ≢ State.dead
    → Reportable st cmd
    → Finished s cmd
unfolding finish is_allowable
finish-Finished s State.init RtspCommand.kill e n r = (killed (λ d. cc) refl refl, refl)
finish-Finished s State.init RtspCommand.teardown e n r = absurd (ground arith)
finish-Finished s State.init RtspCommand.setup e n r = rw (e, finish) (set_up refl refl refl, refl)
finish-Finished s State.init cmd e n r = rw (e, finish) (stay tt refl, refl)
finish-Finished s State.ready RtspCommand.kill e n r = (killed (λ d. cc) refl refl, refl)
finish-Finished s State.ready RtspCommand.teardown e n r = (leave (inl e) refl refl, refl)
finish-Finished s State.ready RtspCommand.play e n r = rw (e, finish) (start refl refl refl, refl)
finish-Finished s State.ready cmd e n r = rw (e, finish) (stay tt refl, refl)
finish-Finished s State.playing RtspCommand.kill e n r = (killed (λ d. cc) refl refl, refl)
finish-Finished s State.playing RtspCommand.teardown e n r = (leave (inr e) refl refl, refl)
finish-Finished s State.playing RtspCommand.pause e n r = rw (e, finish) (hold refl refl refl, refl)
finish-Finished s State.playing cmd e n r = rw (e, finish) (stay tt refl, refl)
finish-Finished s State.dead cmd e n r = absurd (n refl)

allowable-commands_in : (st : State) → st ≢ State.dead → allowable st ≡ ret (commands_in st)
unfolding allowable
allowable-commands_in State.dead n = absurd (n refl)
allowable-commands_in _ n = refl

-- The rule for a whole request, in a state that is not DEAD: `P` of the handler before it, and `R` of
-- what the session and the handler become.
pub process-rule :
    {H : Type 0} {E : Fault → Type 0} (weaker : (e : Fault) → NotAssertion e → E e) (luts : Luts)
    (handler : Handler H) (P : H → Type 0) (R : RtspCommand → H → Type 0) (s : Session)
    → s.state ≢ State.dead
    → Keeps E handler P R (commands_in s.state)
    → (bytes : Bytes) (h : H) → P h
    → Ensures E
        (λ r. (cmd : RtspCommand) × R cmd r.2 × ((r.0, r.1) ≡ finish cmd s))
        (process luts handler bytes s h)
unfolding process
process-rule weaker luts handler P R s live keeps bytes h p =
    rw (allowable-commands_in s.state live, process)
      (Ensures-bind _ (parse-Keeps weaker luts handler P R (commands_in s.state) keeps bytes h p)
        (λ r q. returns (r.0, q, refl)))

-- A handler whose errors are reported as no command, as `RTSP_Handler` does.
abbrev pub ErrorsUnknown : {H : Type 0} → Handler H → Type 0
ErrorsUnknown {H} handler = (code : ℕ) (h : H) → (handler.error code h).0 ≡ RtspCommand.unknown

module _ {H : Type 0} (luts : Luts) (handler : Handler H) (errors : ErrorsUnknown handler) where
  reports :
      (st : State)
      → Keeps (λ e. Unit {0}) handler (λ h. Unit {0}) (λ cmd h. Reportable st cmd) (commands_in st)
  reports st = record {
    on_error = λ h code p. inl (errors code h);
    on_command = λ h cmd uri hdr code p known ok.
        every (handler.command cmd uri hdr code h) (λ r. report cmd code r.0 ok);
  }
    where
      every :
          {Q : ℕ × H → Type 0} (m : Outcome (ℕ × H))
          → ((r : ℕ × H) → Q r)
          → Ensures (λ e. Unit {0}) Q m
      every (ret r) q = returns (q r)
      every (fault e) q = stops tt

      report :
          (cmd : RtspCommand) (code c : ℕ)
          → (code ≡ e_ok → Permitted (commands_in st) cmd)
          → Reportable st (reported cmd code c)
      report cmd code c ok = elim (Bool-cases (c == e_ok && code == e_ok)) [
        | inl e ↦ rw e (inr (ok (ground arith)))
        | inr e ↦ rw e (inl refl)
      ]

  -- For every request, whatever its bytes, that does not fault, and every handler whose errors are
  -- reported as no command: a session that is not DEAD makes just the step of the RTSP state machine
  -- that the command reported by the parser asks for (SETUP in INIT, PLAY in READY, PAUSE in PLAY,
  -- TEARDOWN and KILL change the state, everything else leaves the session as it is), the handler is
  -- what the parser leaves, and process returns that command, or no command for TEARDOWN.
  pub process-Step :
      (bytes : Bytes) (s t : Session) (h h' : H) (out : RtspCommand)
      → s.state ≢ State.dead
      → process luts handler bytes s h ≡ ret (out, t, h')
      → (cmd : RtspCommand) × (parse luts handler (commands_in s.state) bytes h ≡ ret (cmd, h'))
        × Step s cmd t
        × (out ≡ returned cmd)
  unfolding process
  process-Step bytes s t h h' out live e =
      let parsed = parse luts handler (commands_in s.state) bytes h in
      let whole : (parsed >>= λ r. let (cmd, s') = finish r.0 s in ret (cmd, s', r.1))
          ≡ ret (out, t, h') =
        sym (rw (allowable-commands_in s.state live, process) refl) ∙ e in
      let (r, p, q) = >>=-eq-ret parsed _ whole in
      let reportable =
        Ensures-eq
          (parse-Keeps (λ e u. tt) luts handler (λ h. Unit {0}) (λ cmd h. Reportable s.state cmd)
            (commands_in s.state) (reports s.state) bytes h tt)
          p in
      let (step, told) = finish-Finished s s.state r.0 refl live reportable in
      let same = ret_inj q in
      (
        r.0,
        p ∙ ap (λ x. ret (r.0, x.2)) same,
        subst (λ t. Step s r.0 t) (ap (λ x. x.1) same) step,
        sym (ap (λ x. x.0) same) ∙ told,
      )

  -- A session that is DEAD stops at the assertion of `allowable`.
  pub process_dead :
      (bytes : Bytes) (s : Session) (h : H)
      → s.state ≡ State.dead
      → process luts handler bytes s h ≡ fault Fault.assertion
  unfolding process allowable
  process_dead bytes s h d = rw (d, process)
