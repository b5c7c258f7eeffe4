-- ===== src/SeqLock/Coherence.antt =====
-- What a reader accepts is what one writer published.
use mathlib.Core.List.{append_assoc, append-nil}
use mathlib.Core.Path.{subst}
use polyphonic_audio_to_midi.Prelude.{
  ℕ, ◌⊎◌, inl, inr, ◌+◌, ◌%◌, ◌≤◌, ◌<◌, ◌≡◌, ◌∙◌, refl, sym, ap, List, [], ◌∷◌, ◌++◌, Option, none,
  Bool, true, some, map, arith, set,
}
use polyphonic_audio_to_midi.SeqLock.{
  Store, Reader, System, word, Step, Reach, at_rest, write_all, waiting, loading, accepted, acquire,
  store, release, begin, busy, load, accept, retry, here, next,
}

-- Nobody writes at an even version, and then the words are those published; somebody does at an
-- odd one.
abbrev pub WriterOk : ℕ → List ℕ → List ℕ → Option (List Store) → Type 0
WriterOk version words published none = (version % 2 ≡ 0) × (words ≡ published)
WriterOk version words published (some stores) = version % 2 ≡ 1

-- An attempt whose version still stands has loaded the words as they are; an accepted snapshot
-- holds the words published.
abbrev pub ReaderOk : List ℕ → ℕ → List ℕ → Reader → Type 0
ReaderOk order version words waiting = Unit
ReaderOk order version words (loading before left got) =
    (before ≤ version)
    × (before % 2 ≡ 0)
    × (version ≡ before → got ++ map (word words) left ≡ map (word words) order)
ReaderOk order version words (accepted got published) = got ≡ map (word published) order

pub record Inv (order : List ℕ) (s : System) : Type 0 where
  pub writer_ok : WriterOk s.version s.words s.published s.writer
  pub reader_ok : ReaderOk order s.version s.words s.reader

-- A step of the writer that makes the version odd or leaves it odd keeps the reader's part.
later-ReaderOk :
    (order : List ℕ) (version version' : ℕ) (words words' : List ℕ) (r : Reader)
    → version ≤ version'
    → (version' % 2 ≡ 1) ⊎ (version < version')
    → ReaderOk order version words r
    → ReaderOk order version' words' r
later-ReaderOk order version version' words words' waiting h d ok = tt
later-ReaderOk order version version' words words' (loading before left got) h d ok =
    (omega arith, ok.1, λ e. absurd (omega arith))
later-ReaderOk order version version' words words' (accepted got published) h d ok = ok

-- Equal remainders less than one period apart are of equal numbers.
mod_near :
    (m before version : ℕ)
    → before ≤ version
    → version < before + m
    → version % m ≡ before % m
    → version ≡ before
mod_near m before version le near same = grind arith

-- An even version means that nobody writes, and that the words are those published.
pub at_even :
    (version : ℕ) (words published : List ℕ) (w : Option (List Store))
    → version % 2 ≡ 0
    → WriterOk version words published w
    → words ≡ published
at_even version words published none e ok = ok.1
at_even version words published (some stores) e ok = absurd (omega arith)

acquire-WriterOk :
    (version : ℕ) (words published : List ℕ) (w : Option (List Store)) (stores : List Store)
    → version % 2 ≡ 0
    → WriterOk version words published w
    → WriterOk (version + 1) words published (some stores)
acquire-WriterOk version words published w stores e ok = omega arith

-- One more word loaded at a version that still stands.
load-ReaderOk :
    (order words got left : List ℕ) (i : ℕ)
    → got ++ map (word words) (i ∷ left) ≡ map (word words) order
    → (got ++ word words i ∷ []) ++ map (word words) left ≡ map (word words) order
load-ReaderOk order words got left i h =
    append_assoc got (word words i ∷ []) (map (word words) left) ∙ h

module _ (m : ℕ) (order : List ℕ) (starts : ℕ → Bool) (Allowed : List Store → Type 0)
    (parity : (n : ℕ) → n % m % 2 ≡ n % 2) where
  pub Step-Inv : {s t : System} → Step m order starts Allowed s t → Inv order s → Inv order t
  Step-Inv {s} (acquire stores may even) v = record {
    writer_ok =
        acquire-WriterOk s.version s.words s.published s.writer stores
          (sym (parity s.version) ∙ even) v.writer_ok;
    reader_ok =
        later-ReaderOk order s.version (s.version + 1) s.words s.words s.reader (omega arith)
          (inr (omega arith)) v.reader_ok;
  }
  Step-Inv {s} (store st rest e) v =
      let odd : s.version % 2 ≡ 1 = subst (WriterOk s.version s.words s.published) e v.writer_ok in
      record {
        writer_ok = odd;
        reader_ok =
            later-ReaderOk order s.version s.version s.words (set s.words st.index st.value)
              s.reader (omega arith) (inl odd) v.reader_ok;
      }
  Step-Inv {s} (release e) v =
      let odd : s.version % 2 ≡ 1 = subst (WriterOk s.version s.words s.published) e v.writer_ok in
      record {
        writer_ok = (omega arith, refl);
        reader_ok =
            later-ReaderOk order s.version (s.version + 1) s.words s.words s.reader (omega arith)
              (inr (omega arith)) v.reader_ok;
      }
  Step-Inv {s} (begin e even start) v = record {
    writer_ok = v.writer_ok;
    reader_ok = (omega arith, sym (parity s.version) ∙ even, λ same. refl);
  }
  Step-Inv {s} (busy e odd) v = v
  Step-Inv {s} (load before i left got e) v =
      let ok : ReaderOk order s.version s.words (loading before (i ∷ left) got) =
        subst (ReaderOk order s.version s.words) e v.reader_ok in
      record {
        writer_ok = v.writer_ok;
        reader_ok = (ok.0, ok.1, λ same. load-ReaderOk order s.words got left i (ok.2 same));
      }
  Step-Inv {s} (accept before got e same near) v =
      let ok : ReaderOk order s.version s.words (loading before [] got) =
        subst (ReaderOk order s.version s.words) e v.reader_ok in
      let still : s.version ≡ before = mod_near m before s.version ok.0 near same in
      let current = at_even s.version s.words s.published s.writer (rw still ok.1) v.writer_ok in
      record {
        writer_ok = v.writer_ok;
        reader_ok = sym (append-nil got) ∙ ok.2 still ∙ ap (λ w. map (word w) order) current;
      }
  Step-Inv {s} (retry before got e other) v = record { writer_ok = v.writer_ok; reader_ok = tt }

  pub Reach-Inv : {s t : System} → Inv order s → Reach m order starts Allowed s t → Inv order t
  Reach-Inv v here = v
  Reach-Inv v (next r st) = Step-Inv st (Reach-Inv v r)

  -- Whatever the interleaving, a reader that began with the block at rest and accepts a snapshot
  -- has loaded, in its order, the words that were last published when it accepts them: never words
  -- of two publications. The sequence has an even number of values, and fewer stores are made to it
  -- within one attempt.
  pub accepted_coherent :
      (version : ℕ) (words got published : List ℕ) {t : System}
      → version % 2 ≡ 0
      → Reach m order starts Allowed (at_rest version words) t
      → t.reader ≡ accepted got published
      → got ≡ map (word published) order
  accepted_coherent version words got published {t} even r e =
      let v = Reach-Inv (record { writer_ok = (even, refl); reader_ok = tt }) r in
      subst (ReaderOk order t.version t.words) e v.reader_ok

module _ (m : ℕ) (order : List ℕ) (starts : ℕ → Bool) (Allowed : List Store → Type 0)
    (parity : (n : ℕ) → n % m % 2 ≡ n % 2) where
  Reach-trans :
      {s t u : System}
      → Reach m order starts Allowed s t
      → Reach m order starts Allowed t u
      → Reach m order starts Allowed s u
  Reach-trans p here = p
  Reach-trans p (next q st) = next (Reach-trans p q) st

  writes_run :
      (version : ℕ) (stores : List Store) (words published : List ℕ)
      → Reach m order starts Allowed
          (record {
            version = version;
            words = words;
            writer = some stores;
            published = published;
            reader = waiting;
          })
          (record {
            version = version;
            words = write_all stores words;
            writer = some [];
            published = published;
            reader = waiting;
          })
  writes_run version [] words published = here
  writes_run version (st ∷ rest) words published =
      Reach-trans (next here (store st rest refl))
        (writes_run version rest (set words st.index st.value) published)

  loads_run :
      (version before : ℕ) (left got words : List ℕ)
      → Reach m order starts Allowed
          (record (at_rest version words) { reader = loading before left got })
          (record (at_rest version words) {
            reader = loading before [] (got ++ map (word words) left);
          })
  loads_run version before [] got words = rw append-nil here
  loads_run version before (i ∷ left) got words =
      rw (← append_assoc got (word words i ∷ []) (map (word words) left)) (
        Reach-trans (next here (load before i left got refl))
          (loads_run version before left (got ++ word words i ∷ []) words))

  -- A writer and then a reader that nobody disturbs both get through: from a block at rest the
  -- stores are made and published, and the reader accepts exactly the words that they leave. The
  -- sequence has an even, positive number of values, and its value after the publication is one at
  -- which the reader starts.
  pub publish_then_read :
      (version : ℕ) (stores : List Store) (words : List ℕ)
      → Allowed stores
      → 0 < m
      → version % 2 ≡ 0
      → starts ((version + 1 + 1) % m) ≡ true
      → let words' = write_all stores words in
        Reach m order starts Allowed
          (at_rest version words)
          (record (at_rest (version + 1 + 1) words') {
            reader = accepted (map (word words') order) words';
          })
  publish_then_read version stores words may pos even start =
      let words' = write_all stores words in
      let published : Reach m order starts Allowed (at_rest version words)
          (at_rest (version + 1 + 1) words') =
        next
          (Reach-trans (next here (acquire stores may (parity version ∙ even)))
            (writes_run (version + 1) stores words words))
          (release refl) in
      let started = next published (begin refl (parity (version + 1 + 1) ∙ omega arith) start) in
      next (Reach-trans started (loads_run (version + 1 + 1) (version + 1 + 1) order [] words'))
        (accept (version + 1 + 1) (map (word words') order) refl refl (omega arith))
