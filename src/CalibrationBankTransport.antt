-- ===== src/CalibrationBankTransport.antt =====
-- native/src/calibration_bank_transport.cpp, CalibrationBankTransport: the words of a bank of string
-- calibrations in the order in which `publish` stores them, and what `read_latest` makes of them.
-- `points`, an array of 8 strings of 25 frets, is the list of its points, string after string, and
-- the array of a point's six harmonics is six fields. A signed field has its 16 bits.
-- `reset`, which is made while nobody publishes or reads, is left out.

pub mod RoundTrip
pub mod Coherent
use polyphonic_audio_to_midi.Prelude.{
  ℕ, zero, suc, ◌+◌, ◌*◌, ◌/◌, ◌%◌, ◌^◌, Bool, not, List, [], ◌∷◌, ◌++◌, ◌==◌, if◌then◌else◌,
  get_or, drop, replicate,
}
use polyphonic_audio_to_midi.SeqLock.Words.{indices}

pub data CalibrationPointQuality : Type 0 where
  missing : CalibrationPointQuality
  measured : CalibrationPointQuality
  interpolated : CalibrationPointQuality

unfoldable pub quality_value : CalibrationPointQuality → ℕ
quality_value missing = 0
quality_value measured = 1
quality_value interpolated = 2

-- A value past the last one reads as `missing`.
unfoldable pub quality_of : ℕ → CalibrationPointQuality
quality_of raw =
    if raw == 1
    then CalibrationPointQuality.measured
    else if raw == 2
    then CalibrationPointQuality.interpolated
    else CalibrationPointQuality.missing

pub record StringCalibrationPoint : Type 0 where
  pub cents_offset_q8 : ℕ
  pub harmonic_0 : ℕ
  pub harmonic_1 : ℕ
  pub harmonic_2 : ℕ
  pub harmonic_3 : ℕ
  pub harmonic_4 : ℕ
  pub harmonic_5 : ℕ
  pub partial_detuning_q8 : List ℕ
  pub partial_detuning_valid_mask : ℕ
  pub confidence_q15 : ℕ
  pub observation_count : ℕ
  pub quality : CalibrationPointQuality

pub record StringCalibrationBank : Type 0 where
  pub points : List StringCalibrationPoint
  pub calibrated_string_mask : ℕ

pub record CalibrationBankSnapshot : Type 0 where
  pub bank : StringCalibrationBank
  pub generation : ℕ

-- `kPointCount`
abbrev pub point_count : ℕ
point_count = 200

-- `kCalibrationHarmonicCount`
abbrev pub harmonic_count : ℕ
harmonic_count = 6

-- `kWordsPerPoint`
abbrev pub words_per_point : ℕ
words_per_point = 5

-- `low | high << 16`, of 16-bit numbers.
unfoldable pub pair_u16 : ℕ → ℕ → ℕ
pair_u16 low high = low + high * 2 ^ 16

unfoldable pub low_u16 : ℕ → ℕ
low_u16 value = value % 2 ^ 16

unfoldable pub high_u16 : ℕ → ℕ
high_u16 value = value / 2 ^ 16 % 2 ^ 16

-- The words of one point, before those of the points behind it.
unfoldable pub point_words : StringCalibrationPoint → List ℕ → List ℕ
unfolding pair_u16 quality_value
point_words p rest =
    pair_u16 p.cents_offset_q8 p.confidence_q15
    ∷ pair_u16 p.observation_count (quality_value p.quality)
    ∷ pair_u16 p.harmonic_0 p.harmonic_1
    ∷ pair_u16 p.harmonic_2 p.harmonic_3
    ∷ pair_u16 p.harmonic_4 p.harmonic_5
    ∷ rest

-- The loops of `publish` over strings and points.
unfoldable pub points_words : List StringCalibrationPoint → List ℕ
unfolding point_words
points_words [] = []
points_words (p ∷ ps) = point_words p (points_words ps)

-- All the words, in the order of the stores: the mask, the points, the generation.
unfoldable pub bank_words : StringCalibrationBank → ℕ → List ℕ
unfolding points_words
bank_words bank generation =
    bank.calibrated_string_mask ∷ (points_words bank.points ++ generation ∷ [])

-- The first point of the words. No word has its partial detuning, which keeps its initial value.
unfoldable pub read_point : List ℕ → StringCalibrationPoint
unfolding low_u16 high_u16 quality_of
read_point words = record {
  cents_offset_q8 = low_u16 (get_or words 0 0);
  harmonic_0 = low_u16 (get_or words 2 0);
  harmonic_1 = high_u16 (get_or words 2 0);
  harmonic_2 = low_u16 (get_or words 3 0);
  harmonic_3 = high_u16 (get_or words 3 0);
  harmonic_4 = low_u16 (get_or words 4 0);
  harmonic_5 = high_u16 (get_or words 4 0);
  partial_detuning_q8 = replicate harmonic_count 0;
  partial_detuning_valid_mask = 0;
  confidence_q15 = high_u16 (get_or words 0 0);
  observation_count = low_u16 (get_or words 1 0);
  quality = quality_of (get_or words 1 0 / 2 ^ 16 % 2 ^ 8);
}

-- The loops of `read_latest` over strings and points.
unfoldable pub read_points : ℕ → List ℕ → List StringCalibrationPoint
unfolding read_point
read_points zero words = []
read_points (suc left) words = read_point words ∷ read_points left (drop words_per_point words)

-- `read_latest` loads the generation, the mask, and then the words of `count` points.
unfoldable pub load_order : ℕ → List ℕ
unfolding indices
load_order count = suc (count * words_per_point) ∷ 0 ∷ indices 1 (count * words_per_point)

-- The candidate that the loaded words make.
unfoldable pub snapshot_of : ℕ → List ℕ → CalibrationBankSnapshot
unfolding read_points
snapshot_of count words = record {
  bank = record {
    points = read_points count (drop 2 words);
    calibrated_string_mask = get_or words 1 0 % 2 ^ 8;
  };
  generation = get_or words 0 0;
}

-- The even values of the sequence at which `read_latest` starts: all but 0.
unfoldable pub read_starts : ℕ → Bool
read_starts before = not (before == 0)
