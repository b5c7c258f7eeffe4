-- ===== src/CalibrationBankTransport/Coherent.antt =====
-- CalibrationBankTransport with a thread that publishes and one that reads, interleaved.
use polyphonic_audio_to_midi.Prelude.{ℕ, ◌%◌, ◌^◌, ◌≡◌, ◌∙◌, ap, sym, List, arith, length, map}
use polyphonic_audio_to_midi.SeqLock.{Store, System, Reach, at_rest, accepted, word, write_all}
use polyphonic_audio_to_midi.SeqLock.Coherence.{accepted_coherent}
use polyphonic_audio_to_midi.SeqLock.Publication.{accepted_published}
use polyphonic_audio_to_midi.SeqLock.Words.{stores_from, overwrite}
use polyphonic_audio_to_midi.CalibrationBankTransport.{
  StringCalibrationBank, bank_words, load_order, snapshot_of, read_starts,
}
use polyphonic_audio_to_midi.CalibrationBankTransport.RoundTrip.{
  IsBank, without_detuning, length-bank_words, snapshot_of-bank_words,
}

-- The stores of `publish` between the two to the sequence.
pub data Publishes (count : ℕ) : List Store → Type 0 where
  bank_stores :
      (b : StringCalibrationBank) (generation : ℕ)
      → IsBank count b
      → Publishes count (stores_from 0 (bank_words b generation))

-- The words are those of one bank with its generation.
pub record IsPublished (count : ℕ) (words : List ℕ) : Type 0 where
  pub bank : StringCalibrationBank
  pub generation : ℕ
  pub bank_ok : IsBank count bank
  pub same : words ≡ bank_words bank generation

publish-IsPublished :
    (count : ℕ) (stores : List Store) (words : List ℕ)
    → Publishes count stores
    → IsPublished count words
    → IsPublished count (write_all stores words)
publish-IsPublished count stores words (bank_stores b generation v) p = record {
  bank = b;
  generation = generation;
  bank_ok = v;
  same = overwrite (bank_words b generation) words (
      ap length p.same
      ∙ length-bank_words count p.bank p.generation p.bank_ok
      ∙ sym (length-bank_words count b generation v));
}

-- However the accesses of a publishing and of a reading thread are interleaved, what the reader
-- accepts is one whole bank, but for its partial detuning, which comes back as none, with the
-- generation it was published under: never parts of two. This holds for banks of any number of
-- points, whose fields have their widths, if the words start as a published bank at an even sequence,
-- fewer than 2^32 stores are made to the sequence within one attempt, and no `reset` is made.
pub bank_whole :
    (count version : ℕ) (words got published : List ℕ) {t : System}
    → version % 2 ≡ 0
    → IsPublished count words
    → Reach (2 ^ 32) (load_order count) read_starts (Publishes count) (at_rest version words) t
    → t.reader ≡ accepted got published
    → (b : StringCalibrationBank) × (generation : ℕ) × IsBank count b
      × (published ≡ bank_words b generation)
      × (snapshot_of count got ≡ record { bank = without_detuning b; generation = generation })
bank_whole count version words got published even p r e =
    let parity : (n : ℕ) → n % 2 ^ 32 % 2 ≡ n % 2 = λ n. omega arith in
    let coherent =
      accepted_coherent (2 ^ 32) (load_order count) read_starts (Publishes count) parity version
        words got published even r e in
    let q =
      accepted_published (2 ^ 32) (load_order count) read_starts (Publishes count)
        (IsPublished count) (λ stores words may p. publish-IsPublished count stores words may p)
        parity version words got published even p r e in
    (
      q.bank,
      q.generation,
      q.bank_ok,
      q.same,
      ap (snapshot_of count) coherent
          ∙ ap (λ w. snapshot_of count (map (word w) (load_order count))) q.same
          ∙ snapshot_of-bank_words count q.bank q.generation q.bank_ok,
    )
