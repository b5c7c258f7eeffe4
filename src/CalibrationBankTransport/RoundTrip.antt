-- ===== src/CalibrationBankTransport/RoundTrip.antt =====
-- The words of a bank, read back: all but the partial detuning.
use polyphonic_audio_to_midi.Prelude.{
  ℕ, suc, ◌+◌, ◌*◌, ◌/◌, ◌%◌, ◌^◌, ◌<◌, ◌≡◌, ◌∙◌, refl, sym, ap, List, [], ◌∷◌, ◌++◌, arith, map,
  length, length-append, All, replicate,
}
use polyphonic_audio_to_midi.SeqLock.{word}
use polyphonic_audio_to_midi.SeqLock.Words.{indices, word-append, map-indices}
use polyphonic_audio_to_midi.CalibrationBankTransport.{
  CalibrationPointQuality, missing, measured, interpolated, quality_value, quality_of,
  StringCalibrationPoint, StringCalibrationBank, words_per_point, harmonic_count, pair_u16, low_u16,
  high_u16, point_words, points_words, bank_words, read_point, read_points, load_order, snapshot_of,
}

-- The fields are 16-bit numbers.
pub record IsPoint (p : StringCalibrationPoint) : Type 0 where
  pub cents_fit : p.cents_offset_q8 < 2 ^ 16
  pub harmonic_0_fits : p.harmonic_0 < 2 ^ 16
  pub harmonic_1_fits : p.harmonic_1 < 2 ^ 16
  pub harmonic_2_fits : p.harmonic_2 < 2 ^ 16
  pub harmonic_3_fits : p.harmonic_3 < 2 ^ 16
  pub harmonic_4_fits : p.harmonic_4 < 2 ^ 16
  pub harmonic_5_fits : p.harmonic_5 < 2 ^ 16
  pub confidence_fits : p.confidence_q15 < 2 ^ 16
  pub observations_fit : p.observation_count < 2 ^ 16

-- A bank of so many points, with a mask of a byte.
pub record IsBank (count : ℕ) (b : StringCalibrationBank) : Type 0 where
  pub counted : length b.points ≡ count
  pub points_ok : All IsPoint b.points
  pub mask_fits : b.calibrated_string_mask < 2 ^ 8

-- What the words keep of a point, and of a bank.
abbrev pub no_detuning : StringCalibrationPoint → StringCalibrationPoint
no_detuning p = record p {
  partial_detuning_q8 = replicate harmonic_count 0;
  partial_detuning_valid_mask = 0;
}

abbrev pub without_detuning : StringCalibrationBank → StringCalibrationBank
without_detuning b = record b { points = map no_detuning b.points }

low_u16-pair_u16 : (a b : ℕ) → a < 2 ^ 16 → low_u16 (pair_u16 a b) ≡ a
unfolding low_u16 pair_u16
low_u16-pair_u16 a b h = omega (arith, h)

high_u16-pair_u16 : (a b : ℕ) → a < 2 ^ 16 → b < 2 ^ 16 → high_u16 (pair_u16 a b) ≡ b
unfolding high_u16 pair_u16
high_u16-pair_u16 a b h k = omega (arith, h, k)

quality_of-pair_u16 :
    (a : ℕ) (q : CalibrationPointQuality)
    → a < 2 ^ 16
    → quality_of (pair_u16 a (quality_value q) / 2 ^ 16 % 2 ^ 8) ≡ q
unfolding quality_of pair_u16 quality_value
quality_of-pair_u16 a missing h = ground (arith, h)
quality_of-pair_u16 a measured h = ground (arith, h)
quality_of-pair_u16 a interpolated h = ground (arith, h)

read_point-point_words :
    (p : StringCalibrationPoint) (rest : List ℕ)
    → IsPoint p
    → read_point (point_words p rest) ≡ no_detuning p
unfolding read_point point_words
read_point-point_words p rest v =
    rw
      (
        low_u16-pair_u16 p.cents_offset_q8 p.confidence_q15 v.cents_fit,
        high_u16-pair_u16 p.cents_offset_q8 p.confidence_q15 v.cents_fit v.confidence_fits,
        low_u16-pair_u16 p.observation_count (quality_value p.quality) v.observations_fit,
        quality_of-pair_u16 p.observation_count p.quality v.observations_fit,
        low_u16-pair_u16 p.harmonic_0 p.harmonic_1 v.harmonic_0_fits,
        high_u16-pair_u16 p.harmonic_0 p.harmonic_1 v.harmonic_0_fits v.harmonic_1_fits,
        low_u16-pair_u16 p.harmonic_2 p.harmonic_3 v.harmonic_2_fits,
        high_u16-pair_u16 p.harmonic_2 p.harmonic_3 v.harmonic_2_fits v.harmonic_3_fits,
        low_u16-pair_u16 p.harmonic_4 p.harmonic_5 v.harmonic_4_fits,
        high_u16-pair_u16 p.harmonic_4 p.harmonic_5 v.harmonic_4_fits v.harmonic_5_fits,
      )
      refl

read_points-points_words :
    (ps : List StringCalibrationPoint)
    → All IsPoint ps
    → read_points (length ps) (points_words ps) ≡ map no_detuning ps
unfolding read_points points_words point_words
read_points-points_words [] v = refl
read_points-points_words (p ∷ ps) v =
    ap (λ q. q ∷ read_points (length ps) (points_words ps))
      (read_point-point_words p (points_words ps) v.0)
    ∙ ap (◌∷◌ (no_detuning p)) (read_points-points_words ps v.1)

pub length-points_words :
    (ps : List StringCalibrationPoint) → length (points_words ps) ≡ length ps * words_per_point
unfolding points_words point_words
length-points_words [] = refl
length-points_words (p ∷ ps) = omega (arith, length-points_words ps)

pub length-bank_words :
    (count : ℕ) (b : StringCalibrationBank) (generation : ℕ)
    → IsBank count b
    → length (bank_words b generation) ≡ count * words_per_point + 2
unfolding bank_words
length-bank_words count b generation v = omega (
  arith,
  length-append (points_words b.points) (generation ∷ []),
  length-points_words b.points,
  v.counted,
)

-- The words of a bank, loaded in the reader's order.
loaded :
    (count : ℕ) (b : StringCalibrationBank) (generation : ℕ)
    → IsBank count b
    → map (word (bank_words b generation)) (load_order count)
      ≡ generation ∷ b.calibrated_string_mask ∷ points_words b.points
unfolding bank_words load_order
loaded count b generation v =
    let size : count * words_per_point ≡ length (points_words b.points) =
      omega (arith, length-points_words b.points, v.counted) in
    let mask = b.calibrated_string_mask in
    let points = points_words b.points in
    ap
      (λ g.
        g
        ∷ mask
        ∷ map (word (mask ∷ (points ++ generation ∷ []))) (indices 1 (count * words_per_point)))
      (word-append (mask ∷ points) [] generation (suc (count * words_per_point))
        (omega (arith, size)))
    ∙ ap (λ k. generation ∷ mask ∷ map (word (mask ∷ (points ++ generation ∷ []))) (indices 1 k))
        size
    ∙ ap (λ w. generation ∷ mask ∷ w) (map-indices (mask ∷ []) points (generation ∷ []) 1 refl)

-- The candidate made of the words of a bank is that bank, without its partial
-- detuning, with its generation.
pub snapshot_of-bank_words :
    (count : ℕ) (b : StringCalibrationBank) (generation : ℕ)
    → IsBank count b
    → snapshot_of count (map (word (bank_words b generation)) (load_order count))
      ≡ record { bank = without_detuning b; generation = generation }
unfolding snapshot_of
snapshot_of-bank_words count b generation v =
    ap (snapshot_of count) (loaded count b generation v) ∙ made
  where
    made :
        snapshot_of count (generation ∷ b.calibrated_string_mask ∷ points_words b.points)
        ≡ record { bank = without_detuning b; generation = generation }
    made =
        let mask : b.calibrated_string_mask % 2 ^ 8 ≡ b.calibrated_string_mask =
          omega (arith, v.mask_fits) in
        let points : read_points count (points_words b.points) ≡ map no_detuning b.points =
          ap (λ n. read_points n (points_words b.points)) (sym v.counted)
          ∙ read_points-points_words b.points v.points_ok in
        ap
          (λ m. record {
            bank = record {
              points = read_points count (points_words b.points);
              calibrated_string_mask = m;
            };
            generation = generation;
          })
          mask
        ∙ ap
            (λ ps. record {
              bank = record { points = ps; calibrated_string_mask = b.calibrated_string_mask };
              generation = generation;
            })
            points
