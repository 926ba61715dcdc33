-- ===== src/Codec/Opus/Config.antt =====
-- The settings that the validators let through, and the assertions that they meet.
use wifi_audio.Common.{
  ◌*◌, ◌%◌, ◌^◌, ◌≤◌, ◌<◌, ◌≡◌, refl, ◌∙◌, inl, inr, Bool, true, false, not, ◌||◌, none, some,
  arith, ltb, leb, ◌==◌, if◌then◌else◌, ℤ, eq_ℤ, Bool-cases, Outcome, ret, fault, Fault,
}
use wifi_audio.Codec.Storage.{Storage}
use wifi_audio.Codec.Opus.{
  OpusLib, OpusConfig, OpusCodec, op_audio, op_voip, as_int, application, set_up, create_encoder,
  make_encoder, new_opus, create_opus,
}
use wifi_audio.Codec.Opus.Settings.{param, bit_rate, packet_rate, opus_config, make_opus}
use wifi_audio.Codec.Opus.Params.{
  eq_ℤ-eq, param-bit_rate, param-complexity, param-fs, param-chans, param-app, param-packet_rate,
}

module _ (lib : OpusLib) where
  -- It returns, and the settings stay.
  abbrev Returns : OpusCodec lib → Outcome (Bool × OpusCodec lib) → Type 0
  Returns c m = (r : Bool × OpusCodec lib) × (m ≡ ret r) × (r.1.config ≡ c.config)

  Returns-if :
      (c : OpusCodec lib) (b : Bool) {m n : Outcome (Bool × OpusCodec lib)}
      → Returns c m
      → Returns c n
      → Returns c (if b then m else n)
  Returns-if c true p q = p
  Returns-if c false p q = q

  set_up-Returns : (c : OpusCodec lib) (e : lib.Encoder) → Returns c (set_up lib c e)
  unfolding set_up
  set_up-Returns c e =
      Returns-if c (not (eq_ℤ (lib.set_bitrate c.config.bit_rate e).0 lib.ok)) (_, refl, refl)
        (_, refl, refl)

  create_encoder-Returns : (c : OpusCodec lib) (a : ℤ) → Returns c (create_encoder lib c a)
  unfolding create_encoder
  create_encoder-Returns c a =
      let made = lib.encoder_create (as_int c.config.fs) (as_int c.config.chans) a in
      let c1 = record c { encoder = made.0 } in
      elim (Bool-cases (eq_ℤ made.1 lib.ok)) [
        | inl ok ↦
            let (e, there) = lib.encoder_create-some _ _ a (eq_ℤ-eq made.1 lib.ok ok) in
            rw (ok, there, create_encoder) (set_up-Returns (record c { encoder = some e }) e)
        | inr bad ↦ rw (bad, create_encoder) ((false, c1), refl, refl)
      ]

  -- The encoder is made, or is not: the constructor goes on.
  make_encoder-Returns :
      (c : OpusCodec lib) → 1 ≤ c.config.app → c.config.app ≤ 2 → Returns c (make_encoder lib c)
  unfolding make_encoder application
  make_encoder-Returns c low high = elim (Bool-cases (c.config.app == 1)) [
    | inl audio ↦ rw (audio, make_encoder) (create_encoder-Returns c lib.application_audio)
    | inr other ↦
        let voip : (c.config.app == 2) ≡ true = ground (arith, other) in
        rw (other, voip, make_encoder) (create_encoder-Returns c lib.application_voip)
  ]

  abbrev blank : OpusConfig → OpusCodec lib
  blank config = record {
    encoder = none;
    decoder = none;
    sdp_fmt = none;
    samples_per_block = 0;
    config = config;
  }

  new_opus-encoder :
      (config : OpusConfig)
      → config.encode ≡ true
      → config.decode ≡ false
      → 1 ≤ config.app
      → config.app ≤ 2
      → 0 < config.packet_rate
      → (c : OpusCodec lib) × (new_opus lib config ≡ ret c)
        × (c.samples_per_block ≡ config.packet_rate * 48 % 2 ^ 32)
  unfolding new_opus
  new_opus-encoder config encode no_decode low high rate =
      let (r, e, same) = make_encoder-Returns (blank config) low high in
      let positive : (config.packet_rate == 0) ≡ false = ground (arith, rate) in
      (
        record r.1 { samples_per_block = config.packet_rate * 48 % 2 ^ 32 },
        simp (e, encode, no_decode, positive, new_opus),
        refl,
      )

  create_opus-low :
      (config : OpusConfig)
      → config.bit_rate < 6000
      → create_opus lib config ≡ fault Fault.assertion
  unfolding create_opus
  create_opus-low config low =
      let refused : leb 6000 config.bit_rate ≡ false = ground (arith, low) in
      rw (refused, create_opus) refl

  create_opus-new_opus :
      (config : OpusConfig)
      → 6000 ≤ config.bit_rate
      → config.bit_rate ≤ 510000
      → config.complexity < 11
      → 0 < config.fs
      → 1 ≤ config.chans
      → config.chans ≤ 2
      → 1 ≤ config.app
      → config.app ≤ 2
      → create_opus lib config ≡ new_opus lib config
  unfolding create_opus
  create_opus-new_opus config h1 h2 h3 h4 h5 h6 h7 h8 =
      let b1 : leb 6000 config.bit_rate ≡ true = ground arith in
      let b2 : leb config.bit_rate 510000 ≡ true = ground arith in
      let b3 : ltb config.complexity 11 ≡ true = ground arith in
      let b4 : (config.fs == 0) ≡ false = ground arith in
      let b5 : ltb 0 config.chans ≡ true = ground arith in
      let b6 : ltb config.chans 3 ≡ true = ground arith in
      let b7 : (config.app == op_audio || config.app == op_voip) ≡ true = ground arith in
      rw (b1, b2, b3, b4, b5, b6, b7, create_opus) refl

-- For any store and any Opus library: the codec is made just if the bit rate that comes out of the
-- validation is 6000 or more; if it is less, 5000 to 5999, an assertion fails. A codec that is made
-- has 48 samples to a packet for each of its 5 to 60 milliseconds.
pub make_opus_lem :
    (storage : Storage) (lib : OpusLib)
    → (param storage (bit_rate storage) < 6000 → make_opus storage lib ≡ fault Fault.assertion)
      × (6000 ≤ param storage (bit_rate storage)
          → (c : OpusCodec lib) × (make_opus storage lib ≡ ret c)
            × (c.samples_per_block ≡ param storage (packet_rate storage) * 48)
            × (240 ≤ c.samples_per_block)
            × (c.samples_per_block ≤ 2880))
unfolding make_opus opus_config
make_opus_lem storage lib =
    let (rate_low, rate_high) = param-bit_rate storage in
    let (app_low, app_high) = param-app storage in
    let (packet_low, packet_high) = param-packet_rate storage in
    let (c, e, size) =
      new_opus-encoder lib (opus_config storage) refl refl app_low app_high (omega arith) in
    let fits : c.samples_per_block ≡ param storage (packet_rate storage) * 48 = omega arith in
    (
      λ low. create_opus-low lib (opus_config storage) low,
      λ high. (
        c,
        create_opus-new_opus lib (opus_config storage) high rate_high
              (omega (arith, (param-complexity storage).1)) (omega (arith, (param-fs storage).0))
              (param-chans storage).0 (param-chans storage).1 app_low app_high
            ∙ e,
        fits,
        omega arith,
        omega arith,
      ),
    )
