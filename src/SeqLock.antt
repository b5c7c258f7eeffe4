-- ===== src/SeqLock.antt =====
-- The odd/even sequence that guards a block of atomic words, as CalibrationBankTransport
-- (native/src/calibration_bank_transport.cpp) uses it, and TunerTelemetry (native/src/
-- tuner_telemetry.cpp) but for the words that its reader leaves out: a step relation on the shared
-- words, one writer and one reader, each step one atomic access. All accesses of these transports are
-- `memory_order_seq_cst`, hence interleaved in one order.
-- The reader may make any number of attempts here, and at most three in the code.
-- AtomicConfigRequest (native/plugin/prepared_config_exchange.cpp) loads and stores its words
-- relaxed, and may behave in ways that are no run of this relation.
pub mod Coherence
pub mod Publication
pub mod Words
use polyphonic_audio_to_midi.Prelude.{
  ℕ, ◌+◌, ◌%◌, ◌<◌, ◌≡◌, ◌≢◌, ◌⊎◌, Bool, true, false, List, [], ◌∷◌, ◌++◌, Option, none, some,
  get_or, set,
}

-- A store of a value in a word of the block.
pub record Store : Type 0 where
  pub index : ℕ
  pub value : ℕ

-- The loop of the reader: between attempts; in one that began at the version `before`, with the
-- words still to load and the values loaded; and done, beside the words last published.
pub data Reader : Type 0 where
  waiting : Reader
  loading : (before : ℕ) (left got : List ℕ) → Reader
  accepted : (got published : List ℕ) → Reader

-- `version` counts the stores to the sequence, which shows it modulo its width. `writer` has the
-- stores that the writer at work has still to make, `published` the words at the last release.
pub record System : Type 0 where
  pub version : ℕ
  pub words : List ℕ
  pub writer : Option (List Store)
  pub published : List ℕ
  pub reader : Reader

abbrev pub word : List ℕ → ℕ → ℕ
word words i = get_or words i 0

-- `m` is the number of values of the sequence, `order` the order in which the reader loads, `starts`
-- says at which even values of the sequence a reader starts, and `Allowed` which stores the writer may
-- be about to make.
module _ (m : ℕ) (order : List ℕ) (starts : ℕ → Bool) (Allowed : List Store → Type 0) where
  pub data Step (s : System) : System → Type 0 where
    -- The sequence is even, and the writer, the only one, makes it odd.
    acquire :
        (stores : List Store)
        → Allowed stores
        → s.version % m % 2 ≡ 0
        → Step s (record s { version = s.version + 1; writer = some stores })
    store :
        (st : Store) (rest : List Store)
        → s.writer ≡ some (st ∷ rest)
        → Step s (record s { words = set s.words st.index st.value; writer = some rest })
    -- The sequence is made even again.
    release :
        s.writer ≡ some []
        → Step s (record s { version = s.version + 1; writer = none; published = s.words })
    -- The first load of the sequence: an even value may start an attempt, an odd one ends it.
    begin :
        s.reader ≡ waiting
        → s.version % m % 2 ≡ 0
        → starts (s.version % m) ≡ true
        → Step s (record s { reader = loading s.version order [] })
    busy :
        s.reader ≡ waiting → (s.version % m % 2 ≡ 1) ⊎ (starts (s.version % m) ≡ false) → Step s s
    load :
        (before i : ℕ) (left got : List ℕ)
        → s.reader ≡ loading before (i ∷ left) got
        → Step s (record s { reader = loading before left (got ++ word s.words i ∷ []) })
    -- The second load of the sequence finds the first one's value. Fewer than `m` stores to the
    -- sequence lie between them.
    accept :
        (before : ℕ) (got : List ℕ)
        → s.reader ≡ loading before [] got
        → s.version % m ≡ before % m
        → s.version < before + m
        → Step s (record s { reader = accepted got s.published })
    retry :
        (before : ℕ) (got : List ℕ)
        → s.reader ≡ loading before [] got
        → s.version % m ≢ before % m
        → Step s (record s { reader = waiting })

  pub data Reach (s : System) : System → Type 0 where
    here : Reach s s
    next : {t u : System} → Reach s t → Step t u → Reach s u

-- A block at rest: the words are those published, nobody is at work.
abbrev pub at_rest : ℕ → List ℕ → System
at_rest version words = record {
  version = version;
  words = words;
  writer = none;
  published = words;
  reader = waiting;
}

-- The words after a list of stores.
abbrev pub write_all : List Store → List ℕ → List ℕ
write_all [] words = words
write_all (st ∷ rest) words = write_all rest (set words st.index st.value)
