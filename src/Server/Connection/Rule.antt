-- ===== src/Server/Connection/Rule.antt =====
-- What a connection keeps if every request keeps it.
use wifi_audio.Common.{
  ℕ, ◌+◌, ◌≡◌, Bool, true, false, List, [], ◌∷◌, inl, inr, Option, none, some, Bool-cases, Bytes,
  ◌==◌, length, take, overwrite, codes, Outcome, ret, Ensures, returns, stops, Ensures-if,
  Ensures-bind, any_outcome, ◌-◌,
}
use wifi_audio.Rtsp.Lines.Safe.{block_end}
use wifi_audio.Rtsp.Types.{RtspCommand, State}
use wifi_audio.Server.Connection.{
  SessionOps, Recv, Connection, size, is_dead, search, after_process, serve, on_content, on_block,
  on_bytes, step, go_on, rounds,
}

-- `J` holds of a session and the requests that it was given, the latest first. Each request keeps it.
abbrev pub Keeps :
    (ops : SessionOps) → (ops.Sessions → List (State × RtspCommand) → Type 0) → Type 0
Keeps ops J =
    (bytes : Bytes) (s : ops.Sessions) (served : List (State × RtspCommand))
    → is_dead (ops.get_state s) ≡ false
    → J s served
    → Ensures (λ e. Unit {0}) (λ r. J r.1 ((ops.get_state s, r.0) ∷ served)) (ops.process bytes s)

module _ {ops : SessionOps} (J : ops.Sessions → List (State × RtspCommand) → Type 0) where
  abbrev Holds : Connection ops → Type 0
  Holds c = J c.session c.served

  abbrev Kept : Outcome (Bool × Connection ops) → Type 0
  Kept = Ensures (λ e. Unit {0}) (λ r. Holds r.1)

  after_process-Holds :
      (end : ℕ) (c : Connection ops) (r : RtspCommand × ops.Sessions × Bytes)
      → J r.1 ((ops.get_state c.session, r.0) ∷ c.served)
      → Holds (after_process end c r).1
  unfolding after_process
  after_process-Holds end c (RtspCommand.kill, t, after) j = j
  after_process-Holds end c (cmd, t, after) j = j

  module _ (keeps : Keeps ops J) where
    serve-Kept :
        (end : ℕ) (c : Connection ops)
        → is_dead (ops.get_state c.session) ≡ false
        → Holds c
        → Kept (serve end c)
    unfolding serve
    serve-Kept end c live j =
        Ensures-bind (λ r. ret (after_process end c r))
          (keeps (take end c.buff) c.session c.served live j)
          (λ r h. returns (after_process-Holds end c r h))

    on_block-Kept :
        (n : ℕ) (c : Connection ops) (block : Option ℕ)
        → is_dead (ops.get_state c.session) ≡ false
        → Holds c
        → Kept (on_block n c block)
    on_block-Kept n c none live j = returns j
    on_block-Kept n c (some block) live j =
        Ensures-bind (on_content (block + 4) c)
          (any_outcome (search (codes "Content-Length: ") c.buff)) content
      where
        content : (o : Option ℕ) → Unit {0} → Kept (on_content (block + 4) c o)
        content none u = serve-Kept (block + 4) c live j
        content (some at) u = stops tt

    step-Kept :
        (recv : Recv) (c : Connection ops)
        → is_dead (ops.get_state c.session) ≡ false
        → Holds c
        → Kept (step recv c)
    unfolding step on_bytes
    step-Kept recv c live j =
        let got = recv.bytes (size - c.idx) in
        let c1 = record c { buff = overwrite c.buff c.idx got } in
        Ensures-if (length got == 0) (returns j) (
          Ensures-bind (on_block (length got) c1) (any_outcome (search block_end c1.buff))
            (λ o u. on_block-Kept (length got) c1 o live j))

    go_on-Holds :
        (next : Connection ops → Outcome (Connection ops))
        → ((c : Connection ops) → Holds c → Ensures (λ e. Unit {0}) Holds (next c))
        → (r : Bool × Connection ops) → Holds r.1
        → Ensures (λ e. Unit {0}) Holds (go_on next r)
    go_on-Holds next h (true, c) j = h c j
    go_on-Holds next h (false, c) j = returns j

    -- The rule for the loop of a connection.
    pub rounds-rule :
        (recvs : List Recv) (c : Connection ops)
        → Holds c
        → Ensures (λ e. Unit {0}) Holds (rounds recvs c)
    unfolding rounds
    rounds-rule [] c j = returns j
    rounds-rule (recv ∷ recvs) c j = elim (Bool-cases (is_dead (ops.get_state c.session))) [
      | inl dead ↦ rw (dead, rounds) (returns j)
      | inr live ↦
          rw (live, rounds)
            (Ensures-bind (go_on (rounds recvs)) (step-Kept recv c live j)
              (go_on-Holds (rounds recvs) (λ d i. rounds-rule recvs d i)))
    ]
