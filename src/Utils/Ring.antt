-- ===== src/Utils/Ring.antt =====
-- src/utils.cpp: the loop of `_Reader::run`, and how long the ring keeps what was read.
use wifi_audio.Common.{
  ℕ, zero, suc, ◌+◌, ◌-◌, ◌%◌, ◌≤◌, ◌<◌, ◌≡◌, ◌≢◌, refl, sym, ap, ◌∙◌, ◌⊎◌, inl, inr, Bool, true,
  false, List, [], ◌∷◌, Option, none, some, some_inj, ltb, ◌==◌, length, get_or, arith, Bool-cases,
}
use mathlib.Core.Path.{subst}
use native.Mathlib.Nat.{mod-eq_of_lt, mod_self}
use wifi_audio.Utils.{AudioSource, Queue, Reader, acquire}
use wifi_audio.Utils.Acquire.{IsRing, Acquired, acquire-Acquired}

-- Buffer `b` is `gap` places ahead in a ring of `num`.
abbrev Ahead : ℕ → ℕ → ℕ → ℕ → Type 0
Ahead num idx gap b = (b ≡ idx + gap) ⊎ (b + num ≡ idx + gap)

next_place :
    (idx num : ℕ)
    → idx < num
    → (((idx + 1) % num ≡ idx + 1) × (idx + 1 < num)) ⊎ (((idx + 1) % num ≡ 0) × (idx + 1 ≡ num))
next_place idx num lt = elim (Bool-cases (ltb (idx + 1) num)) [
  | inl less ↦ let h : idx + 1 < num = ground (arith, less) in inl (mod-eq_of_lt h, h)
  | inr last ↦
      let e : idx + 1 ≡ num = ground (arith, last, lt) in
      inr (ap (λ n. (idx + 1) % n) (sym e) ∙ mod_self (idx + 1), e)
]

next-Ahead :
    (num idx gap b : ℕ)
    → idx < num
    → b < num
    → Ahead num idx (suc gap) b
    → Ahead num ((idx + 1) % num) gap b
next-Ahead num idx gap b lt small ahead = elim (next_place idx num lt) [
  | inl (e, less) ↦ elim ahead [
    | inl h ↦ inl (omega (arith, e, h))
    | inr h ↦ inr (omega (arith, e, h))
  ]
  | inr (e, last) ↦ elim ahead [
    | inl h ↦ absurd (omega (arith, last, h, small))
    | inr h ↦ inl (omega (arith, e, last, h))
  ]
]

-- It is not the buffer that is written now.
elsewhere : (num idx gap b : ℕ) → suc gap < num → Ahead num idx (suc gap) b → b ≢ idx
elsewhere num idx gap b lt (inl h) e = omega (arith, lt, h, e)
elsewhere num idx gap b lt (inr h) e = omega (arith, lt, h, e)

module _ {source : AudioSource} {q : Queue} where
  -- The next rounds of `run`, with what each finds in `dead`.
  unfoldable pub run : List Bool → Reader source q → Option (Reader source q)
  run [] r = some r
  run (true ∷ later) r = some r
  run (false ∷ later) r = elim (acquire r) [
    | none ↦ none
    | some (true, next) ↦ run later next
    | some (false, next) ↦ some next
  ]

  -- The rounds end, and leave a ring whose buffer `b` was not written.
  pub record IsKept (b : ℕ) (r : Reader source q) (out : Option (Reader source q)) : Type 0 where
    pub after : Reader source q
    pub is : out ≡ some after
    pub same : get_or after.buffers b [] ≡ get_or r.buffers b []
    pub ring : IsRing after

  pub run-IsKept :
      (deads : List Bool) (r : Reader source q) (gap b : ℕ)
      → IsRing r
      → gap < r.num_blocks
      → b < r.num_blocks
      → Ahead r.num_blocks r.idx gap b
      → length deads ≤ gap
      → IsKept b r (run deads r)
  unfolding run
  run-IsKept [] r gap b ring lt small ahead le = record {
    after = r;
    is = refl;
    same = refl;
    ring = ring;
  }
  run-IsKept (true ∷ later) r gap b ring lt small ahead le = record {
    after = r;
    is = refl;
    same = refl;
    ring = ring;
  }
  run-IsKept (false ∷ later) r zero b ring lt small ahead le = absurd (omega arith)
  run-IsKept (false ∷ later) r (suc gap) b ring lt small ahead le =
      let a = acquire-Acquired r ring in
      let kept = a.others b (elsewhere r.num_blocks r.idx gap b lt ahead) in
      elim (Bool-cases (a.total == 0)) [
        | inl nothing ↦
            rw (a.is, nothing, run)
              (record { after = a.after; is = refl; same = kept; ring = a.ring })
        | inr some_bytes ↦
            let rest =
              run-IsKept later a.after gap b a.ring (omega (arith, a.blocks, lt))
                (omega (arith, a.blocks, small)) (ahead_after a) (omega arith) in
            rw (a.is, some_bytes, run)
              (record {
                after = rest.after;
                is = rest.is;
                same = rest.same ∙ kept;
                ring = rest.ring;
              })
      ]
    where
      ahead_after : (a : Acquired r (acquire r)) → Ahead a.after.num_blocks a.after.idx gap b
      ahead_after a =
          rw (a.blocks, a.next) (next-Ahead r.num_blocks r.idx gap b ring.here small ahead)

  -- In a ring of buffers that all have the reader's size: what a round of the reader put into its
  -- buffer stays there while the reader makes fewer further rounds than the ring has buffers, whatever
  -- `dead` reads and the source gives; those rounds end and leave a ring.
  pub acquired-IsKept :
      (deads : List Bool) (r next : Reader source q) (more : Bool)
      → IsRing r
      → acquire r ≡ some (more, next)
      → length deads < r.num_blocks
      → IsKept r.idx next (run deads next)
  acquired-IsKept deads r next more ring is lt =
      let a = acquire-Acquired r ring in
      let e : a.after ≡ next = ap (λ s. s.1) (some_inj.0 (sym a.is ∙ is)) in
      subst (λ s. IsKept r.idx s (run deads s)) e
        (run-IsKept deads a.after (r.num_blocks - 1) r.idx a.ring (omega (arith, a.blocks, lt))
          (omega (arith, a.blocks, ring.here)) (behind a) (omega (arith, lt)))
    where
      behind :
          (a : Acquired r (acquire r))
          → Ahead a.after.num_blocks a.after.idx (r.num_blocks - 1) r.idx
      behind a =
          rw (a.blocks, a.next)
            (elim (next_place r.idx r.num_blocks ring.here) [
              | inl (e, less) ↦ inr (omega (arith, e, less))
              | inr (e, last) ↦ inl (omega (arith, e, last))
            ])
