-- ===== src/ConfigExchange/Invariant.antt =====
-- One slot is active, under the index and the generation that the audio thread keeps.
use mathlib.Core.Path.{fun_ext}
use polyphonic_audio_to_midi.Prelude.{
  ltb, ℕ, ◌<◌, ◌≡◌, ◌≢◌, ◌∙◌, refl, sym, ap, Bool, true, false, not, arith, ◌==◌, if◌then◌else◌,
  if_elim, ==_iff,
}
use polyphonic_audio_to_midi.ConfigExchange.{
  reset, initialize, active_config, PreparedSlotState, free, writing, ready, audio_claimed, active,
  same_state, slot_count, Slot, Exchange, put_slot, put_state, is_ready, claim_state, reclaim_slot,
  reclaim_stale_ready,
}

pub same_state→≡ : (a b : PreparedSlotState) → same_state a b ≡ true → a ≡ b
same_state→≡ a b h = ground arith

pub ≢_of : (a b : PreparedSlotState) → same_state a b ≡ false → a ≢ b
≢_of a b h p = ground arith

-- A slot that may be overwritten, with what may be written there.
pub record MayPut {A : Type 0} (e : Exchange A) (i : ℕ) (s : Slot A) : Type 0 where
  pub was_other : (e.slots i).state ≢ active
  pub not_active : s.state ≢ active
  pub not_half : s.state ≢ writing

module _ {A : Type 0} where
  -- The active slot and no other is in the state `active`, and no slot is left half written.
  pub record IsValid (e : Exchange A) : Type 0 where
    pub index_in : e.active_index < slot_count
    pub holds_active : (e.slots e.active_index).state ≡ active
    pub same_generation : (e.slots e.active_index).generation ≡ e.active_generation
    pub only_active : (i : ℕ) → i < slot_count → (e.slots i).state ≡ active → i ≡ e.active_index
    pub not_writing : (i : ℕ) → i < slot_count → (e.slots i).state ≢ writing

  pub slot_elim :
      (Q : Slot A → Type 0) (e : Exchange A) (i j : ℕ) (s : Slot A)
      → (i ≡ j → Q s)
      → (i ≢ j → Q (e.slots j))
      → Q ((put_slot i s e).slots j)
  slot_elim Q e i j s p q =
      if_elim Q (i == j) s (e.slots j) (λ h. p ((==_iff i j).0 h))
        (λ h. q (λ k. ground (arith, h, (==_iff i j).1 k)))

  pub put_slot-IsValid :
      (e : Exchange A) (i : ℕ) (s : Slot A) → IsValid e → MayPut e i s → IsValid (put_slot i s e)
  put_slot-IsValid e i s v m = record {
    index_in = v.index_in;
    holds_active =
        slot_elim (λ t. t.state ≡ active) e i e.active_index s
          (λ h. ground (arith, m.was_other, v.holds_active, ap (λ k. (e.slots k).state) h))
          (λ _. v.holds_active);
    same_generation =
        slot_elim (λ t. t.generation ≡ e.active_generation) e i e.active_index s
          (λ h. ground (arith, m.was_other, v.holds_active, ap (λ k. (e.slots k).state) h))
          (λ _. v.same_generation);
    only_active = λ j lt.
        slot_elim (λ t. t.state ≡ active → j ≡ e.active_index) e i j s
          (λ _ h. ground (arith, m.not_active)) (λ _. v.only_active j lt);
    not_writing = λ j lt.
        slot_elim (λ t. t.state ≢ writing) e i j s (λ _. m.not_half) (λ _. v.not_writing j lt);
  }

  twice :
      (b : Bool) (s t u : Slot A) → (if b then s else (if b then t else u)) ≡ (if b then s else u)
  twice true s t u = refl
  twice false s t u = refl

  pub put_slot_twice :
      (e : Exchange A) (i : ℕ) (s t : Slot A) → put_slot i s (put_slot i t e) ≡ put_slot i s e
  put_slot_twice e i s t =
      ap (λ f. record e { slots = f }) (fun_ext (λ j. twice (i == j) s t (e.slots j)))

  -- The generation of the last publication is free.
  pub publisher-IsValid :
      (e : Exchange A) (g : ℕ) → IsValid e → IsValid (record e { publisher_generation = g })
  publisher-IsValid e g v = record {
    index_in = v.index_in;
    holds_active = v.holds_active;
    same_generation = v.same_generation;
    only_active = v.only_active;
    not_writing = v.not_writing;
  }

  -- Freeing a slot, or marking it ready or claimed.
  pub put_state-IsValid :
      (e : Exchange A) (i : ℕ) (st : PreparedSlotState)
      → IsValid e
      → (e.slots i).state ≢ active
      → st ≢ active
      → st ≢ writing
      → IsValid (put_state i st e)
  put_state-IsValid e i st v m p q =
      put_slot-IsValid e i (record (e.slots i) { state = st }) v
        (record { was_other = m; not_active = p; not_half = q })

  pub claim_state-IsValid :
      (e : Exchange A) (i : ℕ) (expected desired : PreparedSlotState)
      → IsValid e
      → expected ≢ active
      → desired ≢ active
      → desired ≢ writing
      → IsValid (claim_state i expected desired e).1
  unfolding claim_state
  claim_state-IsValid e i expected desired v m p q =
      if_elim (λ (r : Bool × Exchange A). IsValid r.1) (same_state (e.slots i).state expected)
        (true, put_state i desired e) (false, e)
        (λ h.
          put_state-IsValid e i desired v
            (λ k. m (sym (same_state→≡ (e.slots i).state expected h) ∙ k)) p q)
        (λ _. v)

  pub claimed-state :
      (e : Exchange A) (i : ℕ) (expected desired : PreparedSlotState)
      → (claim_state i expected desired e).0 ≡ true
      → ((e.slots i).state ≡ expected)
        × ((claim_state i expected desired e).1 ≡ put_state i desired e)
  unfolding claim_state
  claimed-state e i expected desired =
      if_elim
        (λ (r : Bool × Exchange A).
          r.0 ≡ true → ((e.slots i).state ≡ expected) × (r.1 ≡ put_state i desired e))
        (same_state (e.slots i).state expected) (true, put_state i desired e) (false, e)
        (λ h _. (same_state→≡ (e.slots i).state expected h, refl)) (λ _ k. ground (arith, k))

  -- What a claimed slot holds.
  pub claim_state-put :
      (e : Exchange A) (i : ℕ) (expected desired : PreparedSlotState)
      → not (claim_state i expected desired e).0 ≡ false
      → desired ≢ active
      → ((claim_state i expected desired e).1.slots i).state ≢ active
  unfolding claim_state
  claim_state-put e i expected desired h d =
      if_elim (λ (r : Bool × Exchange A). not r.0 ≡ false → (r.1.slots i).state ≢ active)
        (same_state (e.slots i).state expected) (true, put_state i desired e) (false, e)
        (λ _ _.
          slot_elim (λ t. t.state ≢ active) e i i (record (e.slots i) { state = desired }) (λ _. d)
            (λ k. ground (arith, k)))
        (λ _ k. ground (arith, k)) h

  pub reclaim_slot-IsValid : (e : Exchange A) (i : ℕ) → IsValid e → IsValid (reclaim_slot i e)
  unfolding reclaim_slot
  reclaim_slot-IsValid e i v =
      if_elim IsValid (not (is_ready e i)) e _ (λ _. v)
        (λ _.
          if_elim IsValid (not (claim_state i ready audio_claimed e).0) e _ (λ _. v)
            (λ h.
              put_state-IsValid _ i _
                (claim_state-IsValid e i ready audio_claimed v (≢_of ready active refl)
                  (≢_of audio_claimed active refl) (≢_of audio_claimed writing refl))
                (claim_state-put e i ready audio_claimed h (≢_of audio_claimed active refl))
                (if_elim (λ st. st ≢ active) _ ready free (λ _. ≢_of ready active refl)
                  (λ _. ≢_of free active refl))
                (if_elim (λ st. st ≢ writing) _ ready free (λ _. ≢_of ready writing refl)
                  (λ _. ≢_of free writing refl))))

  pub reclaim_stale_ready-IsValid : (e : Exchange A) → IsValid e → IsValid (reclaim_stale_ready e)
  unfolding reclaim_stale_ready
  reclaim_stale_ready-IsValid e v =
      reclaim_slot-IsValid _ 2 (reclaim_slot-IsValid _ 1 (reclaim_slot-IsValid e 0 v))

  cleared : (e : Exchange A) (i : ℕ) → i < slot_count → ((reset e).slots i).state ≡ free
  unfolding reset
  cleared e i lt =
      if_elim (λ (s : Slot A). s.state ≡ free) (ltb i slot_count) _ (e.slots i) (λ _. refl)
        (λ h. ground (arith, h, lt))

  -- Whatever there was before, `initialize` succeeds and leaves a valid exchange, with the given
  -- configuration active under its generation.
  pub initialize-IsValid :
      (initial : A) (generation : ℕ) (e : Exchange A)
      → ((initialize initial generation e).0 ≡ true)
        × IsValid (initialize initial generation e).1
        × (active_config (initialize initial generation e).1 ≡ initial)
        × ((initialize initial generation e).1.active_generation ≡ generation)
  unfolding initialize
  initialize-IsValid initial generation e = (
    refl,
    (record {
      index_in = ground arith;
      holds_active = refl;
      same_generation = refl;
      only_active = λ j lt.
          slot_elim (λ t. t.state ≡ active → j ≡ 0) (reset e) 0 j _ (λ p _. sym p)
            (λ _ h. elim (≢_of free active refl (sym (cleared e j lt) ∙ h)) [ ]);
      not_writing = λ j lt.
          slot_elim (λ t. t.state ≢ writing) (reset e) 0 j _ (λ _. ≢_of active writing refl)
            (λ _ h. ≢_of free writing refl (sym (cleared e j lt) ∙ h));
    }),
    refl,
    refl,
  )
