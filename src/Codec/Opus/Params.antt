-- ===== src/Codec/Opus/Params.antt =====
-- The values that the settings of the Opus codec may have.
use wifi_audio.Common.{
  ℕ, ◌%◌, ◌^◌, ◌≤◌, ◌<◌, ◌≡◌, refl, sym, ap, ◌∙◌, inl, inr, Bool, true, false, ◌&&◌, ◌||◌, List, [],
  ◌∷◌, arith, leb, ℤ, pos, negsuc, low_bits, eq_ℤ, Bool-cases, codes, map,
}
use wifi_audio.Codec.Storage.{Storage, IntParam, one_of}
use wifi_audio.Codec.Opus.Settings.{param, bit_rate, complexity, packet_rate, fs, chans, app}

pub eq_ℤ-eq : (v w : ℤ) → eq_ℤ v w ≡ true → v ≡ w
eq_ℤ-eq (pos a) (pos b) h = ap pos (let e : a ≡ b = ground (arith, h) in e)
eq_ℤ-eq (negsuc a) (negsuc b) h = ap negsuc (let e : a ≡ b = ground (arith, h) in e)
eq_ℤ-eq (pos a) (negsuc b) h = cc
eq_ℤ-eq (negsuc a) (pos b) h = cc

abbrev all_pass : (ℕ → Bool) → List ℕ → Bool
all_pass test [] = true
all_pass test (n ∷ ns) = test n && all_pass test ns

and_true : (a b : Bool) → (a && b) ≡ true → (a ≡ true) × (b ≡ true)
and_true true b h = (refl, h)
and_true false b h = cc

one_of-passes :
    (test : ℕ → Bool) (v : ℤ) (set : List ℕ)
    → all_pass test set ≡ true
    → one_of v (map pos set) ≡ true
    → (n : ℕ) × (v ≡ pos n) × (test n ≡ true)
one_of-passes test v [] all h = cc
one_of-passes test v (n ∷ ns) all h =
    let (here, others) = and_true (test n) (all_pass test ns) all in
    elim (Bool-cases (eq_ℤ v (pos n))) [
      | inl e ↦ (n, eq_ℤ-eq v (pos n) e, here)
      | inr e ↦ one_of-passes test v ns others (sym (ap (λ b. b || one_of v (map pos ns)) e) ∙ h)
    ]

module _ (storage : Storage) where
  open storage use {get_param}

  -- A parameter whose validator is a range that its default is in.
  in_range :
      (p : IntParam) (default low high : ℕ)
      → p.value ≡ pos default
      → low ≤ default
      → default ≤ high
      → high < 2 ^ 32
      → ((v : ℤ) → p.validate v ≡ true → storage.validate_range v (pos low) (pos high) ≡ true)
      → (low ≤ param storage p) × (param storage p ≤ high)
  in_range p default low high is above below word range =
      elim (storage.get_param-valid (codes "opus") p) [
        | inl e ↦
            let same : param storage p ≡ default % 2 ^ 32 = ap (low_bits 32) (e ∙ is) in
            (omega arith, omega arith)
        | inr ok ↦
            let (n, e, l, h) = storage.validate_range-bounds _ low high (range _ ok) in
            let same : param storage p ≡ n % 2 ^ 32 = ap (low_bits 32) e in
            (omega arith, omega arith)
      ]

  -- A parameter whose validator is a set of numbers that pass a test, as its default does.
  in_set :
      (p : IntParam) (default : ℕ) (set : List ℕ) (test : ℕ → Bool)
      → p.value ≡ pos default
      → test default ≡ true
      → all_pass test set ≡ true
      → ((v : ℤ) → p.validate v ≡ true → storage.validate_set v (map pos set) ≡ true)
      → (n : ℕ) × (param storage p ≡ n % 2 ^ 32) × (test n ≡ true)
  in_set p default set test is first others members =
      elim (storage.get_param-valid (codes "opus") p) [
        | inl e ↦ (default, ap (low_bits 32) (e ∙ is), first)
        | inr ok ↦
            let (n, e, t) =
              one_of-passes test _ set others (storage.validate_set-one_of _ _ (members _ ok)) in
            (n, ap (low_bits 32) e, t)
      ]

  pub param-bit_rate :
      (5000 ≤ param storage (bit_rate storage)) × (param storage (bit_rate storage) ≤ 510000)
  param-bit_rate =
      in_range (bit_rate storage) 96000 5000 510000 refl (omega arith) (omega arith) (omega arith)
        (λ v h. h)

  pub param-complexity :
      (0 ≤ param storage (complexity storage)) × (param storage (complexity storage) ≤ 10)
  param-complexity =
      in_range (complexity storage) 5 0 10 refl (omega arith) (omega arith) (omega arith) (λ v h. h)

  pub param-fs : (8000 ≤ param storage (fs storage)) × (param storage (fs storage) ≤ 48000)
  param-fs =
      in_range (fs storage) 48000 8000 48000 refl (omega arith) (omega arith) (omega arith)
        (λ v h. h)

  pub param-chans : (1 ≤ param storage (chans storage)) × (param storage (chans storage) ≤ 2)
  param-chans =
      in_range (chans storage) 2 1 2 refl (omega arith) (omega arith) (omega arith) (λ v h. h)

  pub param-app : (1 ≤ param storage (app storage)) × (param storage (app storage) ≤ 2)
  param-app =
      let (n, e, t) =
        in_set (app storage) 1 (1 ∷ 2 ∷ []) (λ n. leb 1 n && leb n 2) refl refl refl (λ v h. h) in
      ground (arith, e, t)

  pub param-packet_rate :
      (5 ≤ param storage (packet_rate storage)) × (param storage (packet_rate storage) ≤ 60)
  param-packet_rate =
      let (n, e, t) =
        in_set (packet_rate storage) 60 (5 ∷ 10 ∷ 20 ∷ 40 ∷ 60 ∷ []) (λ n. leb 5 n && leb n 60) refl
          refl refl (λ v h. h) in
      ground (arith, e, t)
