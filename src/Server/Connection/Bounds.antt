-- ===== src/Server/Connection/Bounds.antt =====
-- The buffer of a connection.
use wifi_audio.Common.{
  ℕ, ◌+◌, ◌-◌, ◌≤◌, ◌≡◌, sym, ap, ◌∙◌, Bool, true, false, List, [], ◌∷◌, ◌++◌, Option, none, some,
  arith, Bytes, ◌==◌, length, take, drop, take-drop, length-append, overwrite, length-overwrite,
  Outcome, ret, codes, Ensures, returns, stops, Ensures-if, Ensures-bind, any_outcome, any_result,
}
use wifi_audio.Rtsp.Lines.Safe.{block_end}
use wifi_audio.Rtsp.Types.{RtspCommand}
use wifi_audio.Server.Connection.{
  SessionOps, Recv, Connection, size, is_dead, search, after_process, serve, on_content, on_block,
  on_bytes, step, go_on, rounds,
}

module _ {ops : SessionOps} where
  -- The buffer has its 2048 bytes, and the next one is written within it.
  pub record IsBuffer (c : Connection ops) : Type 0 where
    pub full : length c.buff ≡ 2048
    pub within : c.idx ≤ 2048

  abbrev Kept : Outcome (Bool × Connection ops) → Type 0
  Kept = Ensures (λ e. Unit {0}) (λ r. IsBuffer r.1)

  serve-IsBuffer : (end : ℕ) (c : Connection ops) → IsBuffer c → Kept (serve end c)
  unfolding serve after_process
  serve-IsBuffer end c b =
      Ensures-bind (λ r. ret (after_process end c r))
        (any_result (ops.process (take end c.buff) c.session)) (λ r e. returns (behind r e))
    where
      size_of :
          (r : RtspCommand × ops.Sessions × Bytes)
          → ops.process (take end c.buff) c.session ≡ ret r
          → length (r.2 ++ drop end c.buff) ≡ 2048
      size_of r e =
          length-append r.2 (drop end c.buff)
          ∙ ap (λ n. n + length (drop end c.buff))
              (ops.length-process (take end c.buff) c.session r.1 r.0 r.2 e)
          ∙ sym (length-append (take end c.buff) (drop end c.buff))
          ∙ ap length (take-drop end c.buff)
          ∙ b.full

      behind :
          (r : RtspCommand × ops.Sessions × Bytes)
          → ops.process (take end c.buff) c.session ≡ ret r
          → IsBuffer (after_process end c r).1
      behind (RtspCommand.kill, t, after) e = record {
        full = size_of (RtspCommand.kill, t, after) e;
        within = b.within;
      }
      behind (cmd, t, after) e = record { full = size_of (cmd, t, after) e; within = omega arith }

  on_block-IsBuffer :
      (n : ℕ) (c : Connection ops) (block : Option ℕ)
      → c.idx + n ≤ 2048
      → IsBuffer c
      → Kept (on_block n c block)
  on_block-IsBuffer n c none fits b = returns (record { full = b.full; within = fits })
  on_block-IsBuffer n c (some block) fits b =
      Ensures-bind (on_content (block + 4) c)
        (any_outcome (search (codes "Content-Length: ") c.buff)) content
    where
      content : (o : Option ℕ) → Unit {0} → Kept (on_content (block + 4) c o)
      content none u = serve-IsBuffer (block + 4) c b
      content (some at) u = stops tt

  step-IsBuffer : (recv : Recv) (c : Connection ops) → IsBuffer c → Kept (step recv c)
  unfolding step on_bytes size
  step-IsBuffer recv c b =
      let got = recv.bytes (2048 - c.idx) in
      let fits : c.idx + length got ≤ 2048 = omega (arith, recv.fits (2048 - c.idx), b.within) in
      let c1 = record c { buff = overwrite c.buff c.idx got } in
      let b1 : IsBuffer c1 = record {
        full = length-overwrite c.buff got c.idx (omega (arith, b.full)) ∙ b.full;
        within = b.within;
      } in
      Ensures-if (length got == 0) (returns b) (
        Ensures-bind (on_block (length got) c1) (any_outcome (search block_end c1.buff))
          (λ o u. on_block-IsBuffer (length got) c1 o fits b1))

  go_on-IsBuffer :
      (next : Connection ops → Outcome (Connection ops))
      → ((c : Connection ops) → IsBuffer c → Ensures (λ e. Unit {0}) IsBuffer (next c))
      → (r : Bool × Connection ops) → IsBuffer r.1
      → Ensures (λ e. Unit {0}) IsBuffer (go_on next r)
  go_on-IsBuffer next h (true, c) q = h c q
  go_on-IsBuffer next h (false, c) q = returns q

  -- Whatever arrives: unless it faults, the loop keeps the size of the buffer, and the place for the
  -- next byte stays within it.
  pub rounds-IsBuffer :
      (recvs : List Recv) (c : Connection ops)
      → IsBuffer c
      → Ensures (λ e. Unit {0}) IsBuffer (rounds recvs c)
  unfolding rounds
  rounds-IsBuffer [] c b = returns b
  rounds-IsBuffer (recv ∷ recvs) c b = Ensures-if (is_dead (ops.get_state c.session)) (returns b) (
      Ensures-bind (go_on (rounds recvs)) (step-IsBuffer recv c b)
        (go_on-IsBuffer (rounds recvs) (λ d q. rounds-IsBuffer recvs d q)))
