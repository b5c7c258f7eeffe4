-- ===== src/ConfigExchange/Handover.antt =====
-- The audio thread's half: what it claims, and what it makes of the claim.
use mathlib.Core.Path.{subst}
use polyphonic_audio_to_midi.Prelude.{
  ℕ, zero, suc, ◌+◌, ◌≤◌, ◌≡◌, ◌<◌, ◌≢◌, ◌∙◌, refl, ap, inl, inr, Bool, true, false, not, ◌&&◌,
  ◌||◌, arith, Bool-cases, ◌==◌, if_elim, ==_iff,
}
use polyphonic_audio_to_midi.ConfigRequest.{generation_newer}
use polyphonic_audio_to_midi.ConfigExchange.{
  PreparedSlotState, free, writing, ready, audio_claimed, active, same_state, slot_count, Exchange,
  is_ready, Claim, no_claim, put_state, claim_state, find_newest, newer_ready, claim_attempts,
  claim_latest, claim_held,
}
use polyphonic_audio_to_midi.ConfigExchange.Invariant.{
  put_state-IsValid, ≢_of, claim_state-IsValid, claim_state-put, reclaim_stale_ready-IsValid,
  slot_elim, IsValid,
}

all_held :
    (a b c d : Bool) → a ≡ true → b ≡ true → c ≡ true → d ≡ true → (a && b && true && c && d) ≡ true
all_held a b c d p q r t = ground arith

module _ {A : Type 0} where
  -- A claim that stands: it is held, newer than what is active, and no slot that is ready is newer
  -- still.
  pub record IsLatest (c : Claim) (e : Exchange A) : Type 0 where
    pub held : claim_held c e ≡ true
    pub newer : generation_newer c.generation e.active_generation ≡ true
    pub none_newer :
        (i : ℕ)
        → i < slot_count
        → (e.slots i).state ≡ ready
        → generation_newer (e.slots i).generation c.generation ≡ false

  -- A scan that finds no newer slot has left none out.
  newer_ready-none :
      (e : Exchange A) (i left generation j : ℕ)
      → newer_ready e i left generation ≡ false
      → i ≤ j
      → j < i + left
      → (e.slots j).state ≡ ready
      → generation_newer (e.slots j).generation generation ≡ false
  unfolding newer_ready
  newer_ready-none e i zero generation j n lo hi r = absurd (omega arith)
  newer_ready-none e i (suc left) generation j n lo hi r = elim (Bool-cases (i == j)) [
    | inl same ↦
        subst
          (λ k.
            (e.slots k).state ≡ ready → generation_newer (e.slots k).generation generation ≡ false)
          ((==_iff i j).0 same) (λ s. this_slot n s) r
    | inr other ↦
        newer_ready-none e (i + 1) left generation j (ground (arith, n)) (ground (arith, other, lo))
          (ground (arith, hi)) r
  ]
    where
      this_slot :
          (is_ready e i && generation_newer (e.slots i).generation generation
              || newer_ready e (i + 1) left generation)
            ≡ false
          → (e.slots i).state ≡ ready
          → generation_newer (e.slots i).generation generation ≡ false
      this_slot h s =
          let is : is_ready e i ≡ true = ap (λ st. same_state st ready) s in ground (arith, h, is)

  find_newest-bound :
      (e : Exchange A) (i left selected newest : ℕ)
      → i + left ≤ slot_count
      → selected ≤ slot_count
      → find_newest e i left selected newest ≤ slot_count
  unfolding find_newest
  find_newest-bound e i zero selected newest h b = b
  find_newest-bound e i (suc left) selected newest h b =
      find_newest-bound e (i + 1) left _ _ (ground (arith, h))
        (if_elim (λ k. k ≤ slot_count) _ i selected (λ _. ground (arith, h)) (λ _. b))

  claim_state-initialized :
      (e : Exchange A) (i : ℕ) (expected desired : PreparedSlotState)
      → (claim_state i expected desired e).1.initialized ≡ e.initialized
  unfolding claim_state
  claim_state-initialized e i expected desired =
      if_elim (λ (r : Bool × Exchange A). r.1.initialized ≡ e.initialized) _
        (true, put_state i desired e) (false, e) (λ _. refl) (λ _. refl)

  claim_state-claims :
      (e : Exchange A) (i : ℕ)
      → not (claim_state i ready audio_claimed e).0 ≡ false
      → ((claim_state i ready audio_claimed e).1.slots i).state ≡ audio_claimed
  unfolding claim_state
  claim_state-claims e i h =
      if_elim (λ (r : Bool × Exchange A). not r.0 ≡ false → (r.1.slots i).state ≡ audio_claimed)
        (same_state (e.slots i).state ready) (true, put_state i audio_claimed e) (false, e)
        (λ _ _.
          slot_elim (λ t. t.state ≡ audio_claimed) e i i
            (record (e.slots i) { state = audio_claimed }) (λ _. refl) (λ k. elim (k refl) [ ]))
        (λ _ k. ground (arith, k)) h

  abbrev Handed : Bool × Claim × Exchange A → Type 0
  Handed r = IsValid r.2 × (r.0 ≡ true → IsLatest r.1 r.2)

  failed : (c : Claim) (e : Exchange A) → IsValid e → Handed (false, c, e)
  failed c e v = (v, λ k. ground (arith, k))

  -- The exchange with the slot claimed.
  abbrev pub taken : Exchange A → ℕ → Exchange A
  taken e i = (claim_state i ready audio_claimed e).1

  taken-IsValid : (e : Exchange A) (i : ℕ) → IsValid e → IsValid (taken e i)
  taken-IsValid e i v =
      claim_state-IsValid e i ready audio_claimed v (≢_of ready active refl)
        (≢_of audio_claimed active refl) (≢_of audio_claimed writing refl)

  taken-active_generation :
      (e : Exchange A) (i : ℕ) → (taken e i).active_generation ≡ e.active_generation
  unfolding claim_state
  taken-active_generation e i =
      if_elim (λ (r : Bool × Exchange A). r.1.active_generation ≡ e.active_generation) _
        (true, put_state i audio_claimed e) (false, e) (λ _. refl) (λ _. refl)

  -- The slot is given back.
  returned-IsValid :
      (e : Exchange A) (i : ℕ) (st : PreparedSlotState)
      → IsValid e
      → not (claim_state i ready audio_claimed e).0 ≡ false
      → st ≢ active
      → st ≢ writing
      → IsValid (put_state i st (taken e i))
  returned-IsValid e i st v c =
      put_state-IsValid (taken e i) i st (taken-IsValid e i v)
        (claim_state-put e i ready audio_claimed c (≢_of audio_claimed active refl))

  settled :
      (e : Exchange A) (i : ℕ)
      → IsValid e
      → e.initialized ≡ true
      → i ≤ slot_count
      → (i == slot_count) ≡ false
      → not (claim_state i ready audio_claimed e).0 ≡ false
      → not (generation_newer ((taken e i).slots i).generation e.active_generation) ≡ false
      → newer_ready (taken e i) 0 slot_count ((taken e i).slots i).generation ≡ false
      → Handed (
        true,
        record { has_config = true; generation = ((taken e i).slots i).generation; index = i },
        taken e i,
      )
  settled e i v hi b n c g m = (
    taken-IsValid e i v,
    λ _. record {
      held =
          all_held _ _ _ _ (claim_state-initialized e i ready audio_claimed ∙ hi)
            (ground (arith, b, n)) (rw (claim_state-claims e i c) refl) ((==_iff _ _).1 refl);
      newer = rw (taken-active_generation e i) (ground (arith, g));
      none_newer = λ j below r.
          newer_ready-none (taken e i) 0 slot_count _ j m (omega arith) (omega (arith, below)) r;
    },
  )

  claim_attempts_lem :
      (left : ℕ) (e : Exchange A)
      → IsValid e
      → e.initialized ≡ true
      → Handed (claim_attempts left e)
  unfolding claim_attempts
  claim_attempts_lem zero e v hi = failed no_claim e v
  claim_attempts_lem (suc left) e v hi =
      if_elim Handed _ _ _ (λ _. failed no_claim _ (reclaim_stale_ready-IsValid e v))
        (λ n.
          if_elim Handed _ _ _
            (λ _.
              claim_attempts_lem left _ (taken-IsValid e _ v)
                (claim_state-initialized e _ ready audio_claimed ∙ hi))
            (λ c.
              if_elim Handed _ _ _
                (λ _.
                  claim_attempts_lem left _
                    (returned-IsValid e _ free v c (≢_of free active refl) (≢_of free writing refl))
                    (claim_state-initialized e _ ready audio_claimed ∙ hi))
                (λ g.
                  if_elim Handed _ _ _
                    (λ _.
                      claim_attempts_lem left _
                        (returned-IsValid e _ ready v c (≢_of ready active refl)
                          (≢_of ready writing refl))
                        (claim_state-initialized e _ ready audio_claimed ∙ hi))
                    (λ m.
                      settled e _ v hi
                        (find_newest-bound e 0 slot_count slot_count e.active_generation
                          (ground arith) (ground arith))
                        n c g m))))

  -- A claim, made or not, leaves the exchange valid. One that is made is held, is newer than the
  -- active generation, and no slot that is then ready has a generation newer than the claim's.
  pub claim_latest_lem :
      (e : Exchange A)
      → IsValid e
      → IsValid (claim_latest e).2
        × ((claim_latest e).0 ≡ true → IsLatest (claim_latest e).1 (claim_latest e).2)
  unfolding claim_latest
  claim_latest_lem e v =
      if_elim Handed (not e.initialized) (false, no_claim, e) (claim_attempts slot_count e)
        (λ _. failed no_claim e v) (λ h. claim_attempts_lem slot_count e v (ground (arith, h)))
