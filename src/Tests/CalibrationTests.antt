-- ===== src/Tests/CalibrationTests.antt =====
-- The theorems on the odd/even sequence, for a bank of string calibrations.
use polyphonic_audio_to_midi.Prelude.{
  ℕ, zero, suc, ◌+◌, ◌^◌, ◌≡◌, refl, List, [], ◌∷◌, map, arith, All, replicate, length,
}
use polyphonic_audio_to_midi.SeqLock.{System, Reach, at_rest, accepted, word, write_all}
use polyphonic_audio_to_midi.SeqLock.Words.{stores_from}
use polyphonic_audio_to_midi.SeqLock.Coherence.{accepted_coherent, publish_then_read}
use polyphonic_audio_to_midi.CalibrationBankTransport.{
  missing, measured, StringCalibrationPoint, StringCalibrationBank, point_count, harmonic_count,
  bank_words, load_order, snapshot_of, read_starts,
}
use polyphonic_audio_to_midi.CalibrationBankTransport.RoundTrip.{IsPoint, IsBank, without_detuning}
use polyphonic_audio_to_midi.CalibrationBankTransport.Coherent.{Publishes, bank_stores, bank_whole}

-- Half a cent flat, measured eight times.
abbrev point : StringCalibrationPoint
point = record {
  cents_offset_q8 = 65408;
  harmonic_0 = 32767;
  harmonic_1 = 16000;
  harmonic_2 = 9000;
  harmonic_3 = 4000;
  harmonic_4 = 2000;
  harmonic_5 = 1000;
  partial_detuning_q8 = 40 ∷ 65500 ∷ 12 ∷ 0 ∷ 0 ∷ 0 ∷ [];
  partial_detuning_valid_mask = 7;
  confidence_q15 = 30000;
  observation_count = 8;
  quality = measured;
}

abbrev no_point : StringCalibrationPoint
no_point = record {
  cents_offset_q8 = 0;
  harmonic_0 = 0;
  harmonic_1 = 0;
  harmonic_2 = 0;
  harmonic_3 = 0;
  harmonic_4 = 0;
  harmonic_5 = 0;
  partial_detuning_q8 = replicate harmonic_count 0;
  partial_detuning_valid_mask = 0;
  confidence_q15 = 0;
  observation_count = 0;
  quality = missing;
}

All-replicate :
    (P : StringCalibrationPoint → Type 0) (p : StringCalibrationPoint) (n : ℕ)
    → P p
    → All P (replicate n p)
All-replicate P p zero h = tt
All-replicate P p (suc n) h = (h, All-replicate P p n h)

length-replicate : (p : StringCalibrationPoint) (n : ℕ) → length (replicate n p) ≡ n
length-replicate p zero = refl
length-replicate p (suc n) = omega (arith, length-replicate p n)

abbrev bank : StringCalibrationBank
bank = record { points = replicate point_count point; calibrated_string_mask = 63 }

abbrev no_bank : StringCalibrationBank
no_bank = record { points = replicate point_count no_point; calibrated_string_mask = 0 }

bank-IsBank : IsBank point_count bank
bank-IsBank = record {
  counted = length-replicate point point_count;
  points_ok = All-replicate IsPoint point point_count (record {
    cents_fit = omega arith;
    harmonic_0_fits = omega arith;
    harmonic_1_fits = omega arith;
    harmonic_2_fits = omega arith;
    harmonic_3_fits = omega arith;
    harmonic_4_fits = omega arith;
    harmonic_5_fits = omega arith;
    confidence_fits = omega arith;
    observations_fit = omega arith;
  });
  mask_fits = omega arith;
}

no_bank-IsBank : IsBank point_count no_bank
no_bank-IsBank = record {
  counted = length-replicate no_point point_count;
  points_ok = All-replicate IsPoint no_point point_count (record {
    cents_fit = omega arith;
    harmonic_0_fits = omega arith;
    harmonic_1_fits = omega arith;
    harmonic_2_fits = omega arith;
    harmonic_3_fits = omega arith;
    harmonic_4_fits = omega arith;
    harmonic_5_fits = omega arith;
    confidence_fits = omega arith;
    observations_fit = omega arith;
  });
  mask_fits = omega arith;
}

abbrev old_words : List ℕ
old_words = bank_words no_bank 0

abbrev new_words : List ℕ
new_words = write_all (stores_from 0 (bank_words bank 7)) old_words

abbrev order : List ℕ
order = load_order point_count

-- The block after one publication and one reading.
abbrev after_read : System
after_read = record (at_rest (0 + 1 + 1) new_words) {
  reader = accepted (map (word new_words) order) new_words;
}

publish_then_read_example :
    Reach (2 ^ 32) order read_starts (Publishes point_count) (at_rest 0 old_words) after_read
unfolding read_starts
publish_then_read_example =
    publish_then_read (2 ^ 32) order read_starts (Publishes point_count) (λ n. omega arith) 0
      (stores_from 0 (bank_words bank 7)) old_words (bank_stores bank 7 bank-IsBank) (omega arith)
      refl refl

-- How the block came there.
run : Reach (2 ^ 32) order read_starts (Publishes point_count) (at_rest 0 old_words) after_read
unfolding read_starts
run =
    publish_then_read (2 ^ 32) order read_starts (Publishes point_count) (λ n. omega arith) 0
      (stores_from 0 (bank_words bank 7)) old_words (bank_stores bank 7 bank-IsBank) (omega arith)
      refl refl

accepted_coherent_example : map (word new_words) order ≡ map (word new_words) order
accepted_coherent_example =
    accepted_coherent (2 ^ 32) order read_starts (Publishes point_count) (λ n. omega arith) 0
      old_words (map (word new_words) order) new_words {t = after_read} refl run refl

bank_whole_example :
    (b : StringCalibrationBank) × (generation : ℕ) × IsBank point_count b
    × (new_words ≡ bank_words b generation)
    × (snapshot_of point_count (map (word new_words) order)
        ≡ record { bank = without_detuning b; generation = generation })
bank_whole_example =
    bank_whole point_count 0 old_words (map (word new_words) order) new_words {t = after_read} refl
      (record { bank = no_bank; generation = 0; bank_ok = no_bank-IsBank; same = refl }) run refl
