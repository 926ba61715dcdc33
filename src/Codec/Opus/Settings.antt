-- ===== src/Codec/Opus/Settings.antt =====
-- The settings of the Opus codec, as src/audio_codec_opus.cpp reads and validates them.
use wifi_audio.Common.{true, false, [], ◌∷◌, codes, pos, low_bits, ℕ, Outcome}
use wifi_audio.Codec.Opus.{OpusLib, OpusConfig, OpusCodec, op_audio, op_voip, create_opus}
use wifi_audio.Codec.Storage.{Storage, IntParam}

module _ (storage : Storage) where
  open storage use {validate_range, validate_set}

  abbrev pub bit_rate : IntParam
  bit_rate = record {
    name = codes "bit_rate";
    value = pos 96000;
    validate = λ v. validate_range v (pos 5000) (pos 510000);
  }

  abbrev pub complexity : IntParam
  complexity = record {
    name = codes "complexity";
    value = pos 5;
    validate = λ v. validate_range v (pos 0) (pos 10);
  }

  abbrev pub packet_rate : IntParam
  packet_rate = record {
    name = codes "packet_rate";
    value = pos 60;
    validate = λ v. validate_set v (pos 5 ∷ pos 10 ∷ pos 20 ∷ pos 40 ∷ pos 60 ∷ []);
  }

  abbrev pub fs : IntParam
  fs = record {
    name = codes "fs";
    value = pos 48000;
    validate = λ v. validate_range v (pos 8000) (pos 48000);
  }

  abbrev pub chans : IntParam
  chans = record {
    name = codes "chans";
    value = pos 2;
    validate = λ v. validate_range v (pos 1) (pos 2);
  }

  abbrev pub app : IntParam
  app = record {
    name = codes "app";
    value = pos op_audio;
    validate = λ v. validate_set v (pos op_audio ∷ pos op_voip ∷ []);
  }

  -- The variable of a parameter, cast to uint32_t.
  abbrev pub param : IntParam → ℕ
  param p = low_bits 32 (storage.get_param (codes "opus") p)

  unfoldable pub opus_config : OpusConfig
  opus_config = record {
    bit_rate = param bit_rate;
    complexity = param complexity;
    packet_rate = param packet_rate;
    fs = param fs;
    chans = param chans;
    app = param app;
    encode = true;
    decode = false;
  }

  unfoldable pub make_opus : (lib : OpusLib) → Outcome (OpusCodec lib)
  unfolding opus_config
  make_opus lib = create_opus lib opus_config
