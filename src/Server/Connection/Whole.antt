-- ===== src/Server/Connection/Whole.antt =====
-- A request that arrives in parts.
use wifi_audio.Common.{
  ℕ, ◌+◌, ◌-◌, ◌≤◌, ◌<◌, ◌≡◌, refl, sym, ap, ◌∙◌, Bool, true, false, List, ◌∷◌, ◌++◌, Option, none,
  some, arith, Bytes, ◌==◌, length, take, take_all, length-take, length-append, overwrite,
  overwrite-overwrite, Outcome, ret, fault, ◌>>=◌, codes,
}
use wifi_audio.Rtsp.Lines.Safe.{block_end}
use wifi_audio.Rtsp.Types.{RtspCommand, State}
use wifi_audio.Server.Connection.{
  SessionOps, Recv, Connection, size, is_dead, search, after_process, serve, on_content, on_block,
  on_bytes, step, go_on, rounds,
}

-- These bytes arrive, or as many of them as there is room for.
abbrev pub chunk : Bytes → Recv
chunk b = record { bytes = λ room. take room b; fits = λ room. omega (arith, length-take room b) }

-- What others see of a connection: all but its buffer.
pub record Seen (ops : SessionOps) : Type 0 where
  pub session : ops.Sessions
  pub killed : Bool
  pub told : List State
  pub served : List (State × RtspCommand)

module _ {ops : SessionOps} where
  abbrev pub seen : Outcome (Connection ops) → Outcome (Seen ops)
  seen (ret c) =
      ret (record { session = c.session; killed = c.killed; told = c.told; served = c.served })
  seen (fault e) = fault e

  module _ (next : Connection ops → Outcome (Connection ops)) where
    after_process_idx :
        (end idx : ℕ) (c : Connection ops) (r : RtspCommand × ops.Sessions × Bytes)
        → seen (go_on next (after_process end (record c { idx = idx }) r))
          ≡ seen (go_on next (after_process end c r))
    unfolding after_process
    after_process_idx end idx c (RtspCommand.kill, t, b) = refl
    after_process_idx end idx c (_, t, b) = refl

    serve_idx :
        (end idx : ℕ) (c : Connection ops)
        → seen (serve end (record c { idx = idx }) >>= go_on next)
          ≡ seen (serve end c >>= go_on next)
    unfolding serve
    serve_idx end idx c = by_outcome (ops.process (take end c.buff) c.session)
      where
        by_outcome :
            (m : Outcome (RtspCommand × ops.Sessions × Bytes))
            → seen (m >>= (λ r. ret (after_process end (record c { idx = idx }) r)) >>= go_on next)
              ≡ seen (m >>= (λ r. ret (after_process end c r)) >>= go_on next)
        by_outcome (ret r) = after_process_idx end idx c r
        by_outcome (fault e) = refl

    on_content_idx :
        (end idx : ℕ) (c : Connection ops) (content : Option ℕ)
        → seen (on_content end (record c { idx = idx }) content >>= go_on next)
          ≡ seen (on_content end c content >>= go_on next)
    on_content_idx end idx c none = serve_idx end idx c
    on_content_idx end idx c (some at) = refl

    search_idx :
        (end idx : ℕ) (c : Connection ops) (content : Outcome (Option ℕ))
        → seen (content >>= on_content end (record c { idx = idx }) >>= go_on next)
          ≡ seen (content >>= on_content end c >>= go_on next)
    search_idx end idx c (ret content) = on_content_idx end idx c content
    search_idx end idx c (fault e) = refl

    on_block_idx :
        (m n : ℕ) (c : Connection ops) (block : Option ℕ)
        → seen (on_block n (record c { idx = c.idx + m }) block >>= go_on next)
          ≡ seen (on_block (m + n) c block >>= go_on next)
    on_block_idx m n c none =
        ap (λ i. seen (next (record c { idx = i })))
          (let e : c.idx + m + n ≡ c.idx + (m + n) = omega arith in e)
    on_block_idx m n c (some block) =
        search_idx (block + 4) (c.idx + m) c (search (codes "Content-Length: ") c.buff)

    -- Whether the bytes before the last ones were counted already makes no difference.
    on_bytes_idx :
        (m n : ℕ) (c : Connection ops)
        → seen (on_bytes n (record c { idx = c.idx + m }) >>= go_on next)
          ≡ seen (on_bytes (m + n) c >>= go_on next)
    unfolding on_bytes
    on_bytes_idx m n c = by_block (search block_end c.buff)
      where
        by_block :
            (o : Outcome (Option ℕ))
            → seen (o >>= on_block n (record c { idx = c.idx + m }) >>= go_on next)
              ≡ seen (o >>= on_block (m + n) c >>= go_on next)
        by_block (ret block) = on_block_idx m n c block
        by_block (fault e) = refl

  step-chunk :
      (a : Bytes) (c : Connection ops)
      → 0 < length a
      → c.idx + length a ≤ 2048
      → step (chunk a) c ≡ on_bytes (length a) (record c { buff = overwrite c.buff c.idx a })
  unfolding step size
  step-chunk a c some_bytes fits =
      let whole : take (2048 - c.idx) a ≡ a = take_all (2048 - c.idx) a (omega arith) in
      let no_end : (length a == 0) ≡ false = ground (arith, some_bytes) in
      rw (whole, no_end, step) refl

  rounds_live :
      (recv : Recv) (recvs : List Recv) (c : Connection ops)
      → is_dead (ops.get_state c.session) ≡ false
      → rounds (recv ∷ recvs) c ≡ (step recv c >>= go_on (rounds recvs))
  unfolding rounds
  rounds_live recv recvs c live = rw (live, rounds) refl

  first_part :
      (a : Bytes) (c : Connection ops)
      → 0 < length a
      → c.idx + length a ≤ 2048
      → search block_end (overwrite c.buff c.idx a) ≡ ret none
      → step (chunk a) c
        ≡ ret (true, record c { buff = overwrite c.buff c.idx a; idx = c.idx + length a })
  unfolding on_bytes
  first_part a c some_a fits part =
      step-chunk a c some_a fits
      ∙ ap (λ o. o >>= on_block (length a) (record c { buff = overwrite c.buff c.idx a })) part

  -- In a session that is not DEAD: bytes that arrive in two parts, the first of which does not
  -- complete a request and both of which fit the buffer, have the effect of the same bytes in one
  -- part, whatever arrives after them.
  pub rounds_parts :
      (a b : Bytes) (recvs : List Recv) (c : Connection ops)
      → is_dead (ops.get_state c.session) ≡ false
      → length c.buff ≡ 2048
      → c.idx + length a + length b ≤ 2048
      → 0 < length a
      → 0 < length b
      → search block_end (overwrite c.buff c.idx a) ≡ ret none
      → seen (rounds (chunk a ∷ chunk b ∷ recvs) c) ≡ seen (rounds (chunk (a ++ b) ∷ recvs) c)
  rounds_parts a b recvs c live len fits some_a some_b part =
      let c1 = record c { buff = overwrite c.buff c.idx a; idx = c.idx + length a } in
      let c2 = record c { buff = overwrite c.buff c.idx (a ++ b) } in
      let size_ab : length (a ++ b) ≡ length a + length b = length-append a b in
      let together : overwrite c1.buff c1.idx b ≡ c2.buff =
        overwrite-overwrite c.buff a b c.idx (omega (arith, len)) in
      ap seen (
        rounds_live (chunk a) (chunk b ∷ recvs) c live
        ∙ ap (λ x. x >>= go_on (rounds (chunk b ∷ recvs)))
            (first_part a c some_a (omega arith) part)
        ∙ rounds_live (chunk b) recvs c1 live
        ∙ ap (λ x. x >>= go_on (rounds recvs)) (step-chunk b c1 some_b (omega arith))
        ∙ ap (λ x. on_bytes (length b) (record c1 { buff = x }) >>= go_on (rounds recvs)) together)
      ∙ on_bytes_idx (rounds recvs) (length a) (length b) c2
      ∙ sym (
          ap seen (
            rounds_live (chunk (a ++ b)) recvs c live
            ∙ ap (λ x. x >>= go_on (rounds recvs))
                (step-chunk (a ++ b) c (omega (arith, size_ab)) (omega (arith, size_ab)))
            ∙ ap (λ n. on_bytes n c2 >>= go_on (rounds recvs)) size_ab))
