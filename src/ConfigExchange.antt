-- ===== src/ConfigExchange.antt =====
-- native/plugin/prepared_config_exchange.cpp, second half, and its header: PreparedConfigExchange,
-- the three slots through which the main thread hands a prepared configuration to the audio thread.
-- Each call is modelled as it runs undisturbed by the other thread. The slots are a function of
-- their index; the payload is any type.
pub mod Invariant
pub mod Select
pub mod Publish
pub mod Handover
pub mod Commit
use polyphonic_audio_to_midi.Prelude.{
  ℕ, zero, suc, ◌+◌, Bool, true, false, not, ◌&&◌, ◌||◌, Option, none, some, ltb, leb, ◌==◌,
  if◌then◌else◌,
}
use polyphonic_audio_to_midi.ConfigRequest.{generation_newer}

pub data PreparedSlotState : Type 0 where
  free writing ready audio_claimed active : PreparedSlotState

-- The number behind the enumerator.
abbrev pub state_value : PreparedSlotState → ℕ
state_value free = 0
state_value writing = 1
state_value ready = 2
state_value audio_claimed = 3
state_value active = 4

abbrev pub same_state : PreparedSlotState → PreparedSlotState → Bool
same_state a b = state_value a == state_value b

abbrev pub slot_count : ℕ
slot_count = 3

pub record Slot (A : Type 0) : Type 0 where
  pub prepared : A
  pub generation : ℕ
  pub state : PreparedSlotState

pub record Exchange (A : Type 0) : Type 0 where
  pub slots : ℕ → Slot A
  pub active_index : ℕ
  pub active_generation : ℕ
  pub publisher_generation : ℕ
  pub initialized : Bool

-- A claim's pointer is null or to the payload of the slot `index`.
pub record Claim : Type 0 where
  pub has_config : Bool
  pub generation : ℕ
  pub index : ℕ

-- `Claim{}`, and what `invalidate` leaves.
abbrev pub no_claim : Claim
no_claim = record { has_config = false; generation = 0; index = slot_count }

module _ {A : Type 0} where
  abbrev pub put_slot : ℕ → Slot A → Exchange A → Exchange A
  put_slot i s e = record e { slots = λ j. if i == j then s else e.slots j }

  abbrev pub put_state : ℕ → PreparedSlotState → Exchange A → Exchange A
  put_state i st e = put_slot i (record (e.slots i) { state = st }) e

  abbrev pub is_ready : Exchange A → ℕ → Bool
  is_ready e i = same_state (e.slots i).state ready

  unfoldable pub reset : Exchange A → Exchange A
  reset e = record {
    slots = λ j.
        if ltb j slot_count then record (e.slots j) { state = free; generation = 0 } else e.slots j;
    active_index = 0;
    active_generation = 0;
    publisher_generation = 0;
    initialized = false;
  }

  unfoldable pub initialize : A → ℕ → Exchange A → Bool × Exchange A
  unfolding reset
  initialize initial generation e = (
    true,
    record (put_slot 0 (record { prepared = initial; generation = generation; state = active })
        (reset e)) {
          active_index = 0;
          active_generation = generation;
          publisher_generation = generation;
          initialized = true;
        },
  )

  -- The compare-exchange of a slot's state.
  unfoldable pub claim_state :
      ℕ → PreparedSlotState → PreparedSlotState → Exchange A → Bool × Exchange A
  claim_state i expected desired e =
      if same_state (e.slots i).state expected then (true, put_state i desired e) else (false, e)

  -- The first free slot from `i` on, `left` slots being left; `slot_count` if there is none.
  unfoldable pub find_free : Exchange A → ℕ → ℕ → ℕ
  find_free e i zero = slot_count
  find_free e i (suc left) =
      let rest = find_free e (i + 1) left in if same_state (e.slots i).state free then i else rest

  -- The oldest ready slot so far, once the ready slot `i` is seen; `none` is `!found`.
  unfoldable pub older : Exchange A → ℕ → Option ℕ → Option ℕ
  older e i none = some i
  older e i (some o) =
      if generation_newer (e.slots o).generation (e.slots i).generation then some i else some o

  -- The loop for the oldest ready slot.
  unfoldable pub find_oldest : Exchange A → ℕ → ℕ → Option ℕ → Option ℕ
  find_oldest e i zero best = best
  find_oldest e i (suc left) best =
      find_oldest e (i + 1) left (if is_ready e i then older e i best else best)

  -- The slot that a publication takes, with the state that it is expected in.
  unfoldable pub select_slot : Exchange A → Option (ℕ × PreparedSlotState)
  unfolding find_free find_oldest
  select_slot e =
      let i = find_free e 0 slot_count in
      if not (i == slot_count)
      then some (i, free)
      else elim (find_oldest e 0 slot_count none) [ none ↦ none | some o ↦ some (o, ready) ]

  -- The attempts that are left.
  unfoldable pub publish_attempts : ℕ → A → ℕ → Exchange A → Bool × Exchange A
  unfolding select_slot claim_state
  publish_attempts zero prepared generation e = (false, e)
  publish_attempts (suc left) prepared generation e = elim (select_slot e) [
    | none ↦ (false, e)
    | some (i, expected) ↦
        let (claimed, e') = claim_state i expected writing e in
        let again = publish_attempts left prepared generation e' in
        if not claimed then again else (
          true,
          record (put_slot i
              (record { prepared = prepared; generation = generation; state = ready }) e') {
                publisher_generation = generation;
              },
        )
  ]

  unfoldable pub publish : A → ℕ → Exchange A → Bool × Exchange A
  unfolding publish_attempts
  publish prepared generation e =
      if not e.initialized || not (generation_newer generation e.publisher_generation)
      then (false, e)
      else publish_attempts slot_count prepared generation e

  -- One turn of `reclaim_stale_ready`.
  unfoldable pub reclaim_slot : ℕ → Exchange A → Exchange A
  unfolding claim_state
  reclaim_slot i e =
      let (claimed, e') = claim_state i ready audio_claimed e in
      if not (is_ready e i)
      then e
      else if not claimed
      then e
      else put_state i
          (if generation_newer (e'.slots i).generation e'.active_generation then ready else free) e'

  unfoldable pub reclaim_stale_ready : Exchange A → Exchange A
  unfolding reclaim_slot
  reclaim_stale_ready e = reclaim_slot 2 (reclaim_slot 1 (reclaim_slot 0 e))

  -- The scan for the newest ready slot, with the slot selected and its generation.
  unfoldable pub find_newest : Exchange A → ℕ → ℕ → ℕ → ℕ → ℕ
  find_newest e i zero selected newest = selected
  find_newest e i (suc left) selected newest =
      let better = is_ready e i && generation_newer (e.slots i).generation newest in
      find_newest e (i + 1) left (if better then i else selected)
        (if better then (e.slots i).generation else newest)

  -- `newer_ready`, from `i` on.
  unfoldable pub newer_ready : Exchange A → ℕ → ℕ → ℕ → Bool
  newer_ready e i zero generation = false
  newer_ready e i (suc left) generation =
      is_ready e i && generation_newer (e.slots i).generation generation
      || newer_ready e (i + 1) left generation

  unfoldable pub claim_attempts : ℕ → Exchange A → Bool × Claim × Exchange A
  unfolding claim_state reclaim_stale_ready find_newest newer_ready
  claim_attempts zero e = (false, no_claim, e)
  claim_attempts (suc left) e =
      let i = find_newest e 0 slot_count slot_count e.active_generation in
      let (claimed, e') = claim_state i ready audio_claimed e in
      let generation = (e'.slots i).generation in
      let unclaimed = claim_attempts left e' in
      let stale = claim_attempts left (put_state i free e') in
      let outdone = claim_attempts left (put_state i ready e') in
      if i == slot_count
      then (false, no_claim, reclaim_stale_ready e)
      else if not claimed
      then unclaimed
      else if not (generation_newer generation e.active_generation)
      then stale
      else if newer_ready e' 0 slot_count generation
      then outdone
      else (true, record { has_config = true; generation = generation; index = i }, e')

  unfoldable pub claim_latest : Exchange A → Bool × Claim × Exchange A
  unfolding claim_attempts
  claim_latest e = if not e.initialized then (false, no_claim, e) else claim_attempts slot_count e

  -- The checks that `commit` and `cancel` share.
  abbrev pub claim_held : Claim → Exchange A → Bool
  claim_held c e =
      e.initialized
      && ltb c.index slot_count
      && c.has_config
      && same_state (e.slots c.index).state audio_claimed
      && (e.slots c.index).generation == c.generation

  unfoldable pub commit : Claim → Exchange A → Bool × Claim × Exchange A
  unfolding reclaim_stale_ready
  commit c e =
      if not (claim_held c e) || not (generation_newer c.generation e.active_generation)
      then (false, c, e)
      else (
        true,
        no_claim,
        reclaim_stale_ready (record (put_state c.index active (put_state e.active_index free e)) {
          active_index = c.index;
          active_generation = c.generation;
        }),
      )

  unfoldable pub cancel : Claim → Exchange A → Bool × Claim × Exchange A
  cancel c e =
      if not (claim_held c e) then (false, c, e) else (true, no_claim, put_state c.index ready e)

  -- `active()`
  abbrev pub active_config : Exchange A → A
  active_config e = (e.slots e.active_index).prepared
