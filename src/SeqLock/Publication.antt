-- ===== src/SeqLock/Publication.antt =====
-- What every publication makes true of the words holds of the words that a reader accepts.
use mathlib.Core.Path.{subst}
use polyphonic_audio_to_midi.Prelude.{ℕ, Bool, ◌%◌, ◌≡◌, ◌∙◌, sym, refl, List, Option, none, some}
use polyphonic_audio_to_midi.SeqLock.{
  Store, Reader, System, Step, Reach, at_rest, waiting, loading, accepted, acquire, store, release,
  begin, busy, load, accept, retry, here, next, write_all,
}
use polyphonic_audio_to_midi.SeqLock.Coherence.{Inv, at_even, Reach-Inv}

module _ (m : ℕ) (order : List ℕ) (starts : ℕ → Bool) (Allowed : List Store → Type 0)
    (P : List ℕ → Type 0)
    (writes : (stores : List Store) (words : List ℕ)
      → Allowed stores
      → P words
      → P (write_all stores words))
    (parity : (n : ℕ) → n % m % 2 ≡ n % 2) where
  -- The words, once the writer at work is done.
  abbrev WordsOk : List ℕ → Option (List Store) → Type 0
  WordsOk words none = P words
  WordsOk words (some stores) = P (write_all stores words)

  abbrev AcceptedOk : Reader → Type 0
  AcceptedOk waiting = Unit
  AcceptedOk (loading before left got) = Unit
  AcceptedOk (accepted got published) = P published

  record Holds (s : System) : Type 0 where
    words_ok : WordsOk s.words s.writer
    published_ok : P s.published
    accepted_ok : AcceptedOk s.reader

  Step-Holds : {s t : System} → Step m order starts Allowed s t → Inv order s → Holds s → Holds t
  Step-Holds {s} (acquire stores may even) v h =
      let current =
        at_even s.version s.words s.published s.writer (sym (parity s.version) ∙ even)
          v.writer_ok in
      record {
        words_ok = writes stores s.words may (subst P (sym current) h.published_ok);
        published_ok = h.published_ok;
        accepted_ok = h.accepted_ok;
      }
  Step-Holds {s} (store st rest e) v h = record {
    words_ok = subst (WordsOk s.words) e h.words_ok;
    published_ok = h.published_ok;
    accepted_ok = h.accepted_ok;
  }
  Step-Holds {s} (release e) v h = record {
    words_ok = subst (WordsOk s.words) e h.words_ok;
    published_ok = subst (WordsOk s.words) e h.words_ok;
    accepted_ok = h.accepted_ok;
  }
  Step-Holds {s} (begin e even start) v h = record {
    words_ok = h.words_ok;
    published_ok = h.published_ok;
    accepted_ok = tt;
  }
  Step-Holds {s} (busy e odd) v h = h
  Step-Holds {s} (load before i left got e) v h = record {
    words_ok = h.words_ok;
    published_ok = h.published_ok;
    accepted_ok = tt;
  }
  Step-Holds {s} (accept before got e same near) v h = record {
    words_ok = h.words_ok;
    published_ok = h.published_ok;
    accepted_ok = h.published_ok;
  }
  Step-Holds {s} (retry before got e other) v h = record {
    words_ok = h.words_ok;
    published_ok = h.published_ok;
    accepted_ok = tt;
  }

  Reach-Holds : {s t : System} → Inv order s → Holds s → Reach m order starts Allowed s t → Holds t
  Reach-Holds v h here = h
  Reach-Holds v h (next r st) =
      Step-Holds st (Reach-Inv m order starts Allowed parity v r) (Reach-Holds v h r)

  pub accepted_published :
      (version : ℕ) (words got published : List ℕ) {t : System}
      → version % 2 ≡ 0
      → P words
      → Reach m order starts Allowed (at_rest version words) t
      → t.reader ≡ accepted got published
      → P published
  accepted_published version words got published even p r e =
      subst AcceptedOk e
        (Reach-Holds (record { writer_ok = (even, refl); reader_ok = tt })
          (record { words_ok = p; published_ok = p; accepted_ok = tt }) r).accepted_ok
