-- ===== src/ConfigExchange/Commit.antt =====
-- What a commit and a cancellation make of a claim.
use polyphonic_audio_to_midi.Prelude.{
  ℕ, ◌<◌, ◌≡◌, ◌≢◌, ◌∙◌, refl, sym, ap, Bool, true, false, not, ◌&&◌, ◌||◌, arith, ltb, ◌==◌,
  if◌then◌else◌, if_elim, ==_iff,
}
use polyphonic_audio_to_midi.ConfigRequest.{generation_newer}
use polyphonic_audio_to_midi.ConfigExchange.{
  PreparedSlotState, free, writing, ready, audio_claimed, active, same_state, slot_count, Slot,
  Exchange, Claim, no_claim, put_slot, put_state, is_ready, claim_state, claim_latest, claim_held,
  commit, cancel, active_config, reclaim_stale_ready, reclaim_slot,
}
use polyphonic_audio_to_midi.ConfigExchange.Invariant.{
  put_state-IsValid, same_state→≡, ≢_of, reclaim_stale_ready-IsValid, slot_elim, IsValid,
}
use polyphonic_audio_to_midi.ConfigExchange.Handover.{taken, claim_latest_lem}

or_left : (a b : Bool) → (not a || not b) ≡ false → a ≡ true
or_left a b h = ground arith

or_left_not : {a : Bool} → not a ≡ false → a ≡ true
or_left_not {a} h = ground arith

refusal : {a b : Bool} → (not a || not b) ≡ true → a ≡ true → b ≡ true → ⊥
refusal {a} {b} h p q = ground arith

parts : (a b c d e : Bool) → (a && b && c && d && e) ≡ true → (b ≡ true) × (d ≡ true) × (e ≡ true)
parts a b c d e h = ground arith

module _ {A : Type 0} where
  -- What reclaiming does not touch.
  record Spares (e after : Exchange A) (j : ℕ) : Type 0 where
    same_slot : after.slots j ≡ e.slots j
    same_index : after.active_index ≡ e.active_index
    same_generation : after.active_generation ≡ e.active_generation

  put_slot-Spares : (e : Exchange A) (i j : ℕ) (s : Slot A) → i ≢ j → Spares e (put_slot i s e) j
  put_slot-Spares e i j s n = record {
    same_slot = slot_elim (λ t. t ≡ e.slots j) e i j s (λ h. elim (n h) [ ]) (λ _. refl);
    same_index = refl;
    same_generation = refl;
  }

  Spares-refl : (e : Exchange A) (j : ℕ) → Spares e e j
  Spares-refl e j = record { same_slot = refl; same_index = refl; same_generation = refl }

  Spares-trans : (e f g : Exchange A) (j : ℕ) → Spares e f j → Spares f g j → Spares e g j
  Spares-trans e f g j p q = record {
    same_slot = q.same_slot ∙ p.same_slot;
    same_index = q.same_index ∙ p.same_index;
    same_generation = q.same_generation ∙ p.same_generation;
  }

  claim_state-Spares :
      (e : Exchange A) (i j : ℕ) (expected desired : PreparedSlotState)
      → i ≢ j
      → Spares e (claim_state i expected desired e).1 j
  unfolding claim_state
  claim_state-Spares e i j expected desired n =
      if_elim (λ (r : Bool × Exchange A). Spares e r.1 j) _ (true, put_state i desired e) (false, e)
        (λ _. put_slot-Spares e i j _ n) (λ _. Spares-refl e j)

  is_ready_at :
      (e : Exchange A) (i j : ℕ) → not (is_ready e i) ≡ false → (e.slots j).state ≢ ready → i ≢ j
  is_ready_at e i j r n h = n (
      ap (λ k. (e.slots k).state) (sym h)
      ∙ same_state→≡ (e.slots i).state ready (ground (arith, r)))

  reclaim_slot-Spares :
      (e : Exchange A) (i j : ℕ) → (e.slots j).state ≢ ready → Spares e (reclaim_slot i e) j
  unfolding reclaim_slot
  reclaim_slot-Spares e i j n =
      if_elim (λ x. Spares e x j) _ _ _ (λ _. Spares-refl e j)
        (λ r.
          if_elim (λ x. Spares e x j) (not (claim_state i ready audio_claimed e).0) e
            (put_state i
              (if generation_newer ((taken e i).slots i).generation (taken e i).active_generation
                then ready
                else free)
              (taken e i))
            (λ _. Spares-refl e j)
            (λ _.
              Spares-trans e (taken e i) _ j
                (claim_state-Spares e i j ready audio_claimed (is_ready_at e i j r n))
                (put_slot-Spares (taken e i) i j _ (is_ready_at e i j r n))))

  reclaim_next :
      (e f : Exchange A) (i j : ℕ)
      → (e.slots j).state ≢ ready
      → Spares e f j
      → Spares e (reclaim_slot i f) j
  reclaim_next e f i j n p =
      Spares-trans e f _ j p
        (reclaim_slot-Spares f i j (λ h. n (ap (λ s. s.state) (sym p.same_slot) ∙ h)))

  reclaim_stale_ready-Spares :
      (e : Exchange A) (j : ℕ) → (e.slots j).state ≢ ready → Spares e (reclaim_stale_ready e) j
  unfolding reclaim_stale_ready
  reclaim_stale_ready-Spares e j n =
      reclaim_next e _ 2 j n (reclaim_next e _ 1 j n (reclaim_next e e 0 j n (Spares-refl e j)))

  -- The exchange at the commit, before stale slots are freed.
  abbrev switched : Claim → Exchange A → Exchange A
  switched c e = record (put_state c.index active (put_state e.active_index free e)) {
    active_index = c.index;
    active_generation = c.generation;
  }

  freed-generation :
      (c : Claim) (e : Exchange A)
      → (e.slots c.index).generation ≡ c.generation
      → ((put_state e.active_index free e).slots c.index).generation ≡ c.generation
  freed-generation c e h =
      slot_elim (λ t. t.generation ≡ c.generation) e e.active_index c.index _
        (λ p. ap (λ k. (e.slots k).generation) p ∙ h) (λ _. h)

  record Held (c : Claim) (e : Exchange A) : Type 0 where
    index_in : c.index < slot_count
    is_claimed : (e.slots c.index).state ≡ audio_claimed
    same_generation : (e.slots c.index).generation ≡ c.generation

  held_tests :
      (c : Claim) (e : Exchange A)
      → claim_held c e ≡ true
      → (ltb c.index slot_count ≡ true)
        × (same_state (e.slots c.index).state audio_claimed ≡ true)
        × (((e.slots c.index).generation == c.generation) ≡ true)
  held_tests c e h = parts e.initialized _ c.has_config _ _ h

  Held-parts : (c : Claim) (e : Exchange A) → claim_held c e ≡ true → Held c e
  Held-parts c e h = record {
    index_in = ground (arith, (held_tests c e h).0);
    is_claimed = same_state→≡ (e.slots c.index).state audio_claimed (held_tests c e h).1;
    same_generation = (==_iff (e.slots c.index).generation c.generation).0 (held_tests c e h).2;
  }

  switched-IsValid :
      (c : Claim) (e : Exchange A) → IsValid e → claim_held c e ≡ true → IsValid (switched c e)
  switched-IsValid c e v h = record {
    index_in = (Held-parts c e h).index_in;
    holds_active =
        slot_elim (λ t. t.state ≡ active) (put_state e.active_index free e) c.index c.index _
          (λ _. refl) (λ k. elim (k refl) [ ]);
    same_generation =
        slot_elim (λ t. t.generation ≡ c.generation) (put_state e.active_index free e) c.index
          c.index _ (λ _. freed-generation c e (Held-parts c e h).same_generation)
          (λ k. elim (k refl) [ ]);
    only_active = λ j lt.
        slot_elim (λ t. t.state ≡ active → j ≡ c.index) (put_state e.active_index free e) c.index j
          _ (λ p _. sym p)
          (λ _.
            slot_elim (λ t. t.state ≡ active → j ≡ c.index) e e.active_index j _
              (λ _ k. ground (arith, k)) (λ n k. elim (n (sym (v.only_active j lt k))) [ ]));
    not_writing = λ j lt.
        slot_elim (λ t. t.state ≢ writing) (put_state e.active_index free e) c.index j _
          (λ _. ≢_of active writing refl)
          (λ _.
            slot_elim (λ t. t.state ≢ writing) e e.active_index j _ (λ _. ≢_of free writing refl)
              (λ _. v.not_writing j lt));
  }

  -- After the switch, stale slots being freed or not, the claim's slot is what is active.
  switched-prepared :
      (c : Claim) (e : Exchange A)
      → ((switched c e).slots c.index).prepared ≡ (e.slots c.index).prepared
  switched-prepared c e =
      slot_elim (λ t. t.prepared ≡ (e.slots c.index).prepared) (put_state e.active_index free e)
        c.index c.index _
        (λ _.
          slot_elim (λ t. t.prepared ≡ (e.slots c.index).prepared) e e.active_index c.index _
            (λ p. ap (λ k. (e.slots k).prepared) p) (λ _. refl))
        (λ k. elim (k refl) [ ])

  abbrev pub Committed : Claim → Exchange A → Bool × Claim × Exchange A → Type 0
  Committed c e r =
      (r.0 ≡ true)
      × (active_config r.2 ≡ (e.slots c.index).prepared)
      × (r.2.active_generation ≡ c.generation)

  spared :
      (c : Claim) (e : Exchange A)
      → IsValid e
      → claim_held c e ≡ true
      → Spares (switched c e) (reclaim_stale_ready (switched c e)) c.index
  spared c e v h =
      reclaim_stale_ready-Spares (switched c e) c.index
        (λ k. ≢_of active ready refl (sym (switched-IsValid c e v h).holds_active ∙ k))

  committed :
      (c : Claim) (e : Exchange A)
      → IsValid e
      → claim_held c e ≡ true
      → Committed c e (true, no_claim, reclaim_stale_ready (switched c e))
  committed c e v h = (
    refl,
    ap (λ k. ((reclaim_stale_ready (switched c e)).slots k).prepared) (spared c e v h).same_index
        ∙ ap (λ s. s.prepared) (spared c e v h).same_slot
        ∙ switched-prepared c e,
    (spared c e v h).same_generation,
  )

  -- A commit, taken or refused, leaves the exchange valid. One of a claim that is held and newer
  -- than the active generation is taken, and the claimed configuration is then active under the
  -- claim's generation.
  pub commit_lem :
      (c : Claim) (e : Exchange A)
      → IsValid e
      → IsValid (commit c e).2
        × (claim_held c e ≡ true
            → generation_newer c.generation e.active_generation ≡ true
            → Committed c e (commit c e))
  unfolding commit
  commit_lem c e v =
      if_elim
        (λ (r : Bool × Claim × Exchange A).
          IsValid r.2
          × (claim_held c e ≡ true
              → generation_newer c.generation e.active_generation ≡ true
              → Committed c e r))
        (not (claim_held c e) || not (generation_newer c.generation e.active_generation))
        (false, c, e) (true, no_claim, reclaim_stale_ready (switched c e))
        (λ b. (v, λ h g. elim (refusal b h g) [ ]))
        (λ b. (
          reclaim_stale_ready-IsValid (switched c e) (switched-IsValid c e v (or_left _ _ b)),
          λ h g. committed c e v h,
        ))

  -- A claim that is made is committed: the commit is taken, leaves the exchange valid, and the
  -- configuration of the slot that was claimed is then active under the claim's generation.
  pub commit-claim_latest :
      (e : Exchange A)
      → IsValid e
      → (claim_latest e).0 ≡ true
      → IsValid (commit (claim_latest e).1 (claim_latest e).2).2
        × Committed
            (claim_latest e).1
            (claim_latest e).2
            (commit (claim_latest e).1 (claim_latest e).2)
  commit-claim_latest e v h =
      let (w, l) = claim_latest_lem e v in
      let (x, y) = commit_lem (claim_latest e).1 (claim_latest e).2 w in
      (x, y (l h).held (l h).newer)

  -- A claim that is cancelled, or whose cancellation is refused, leaves the exchange valid.
  pub cancel-IsValid : (c : Claim) (e : Exchange A) → IsValid e → IsValid (cancel c e).2
  unfolding cancel
  cancel-IsValid c e v =
      if_elim (λ (r : Bool × Claim × Exchange A). IsValid r.2) (not (claim_held c e)) (false, c, e)
        (true, no_claim, put_state c.index ready e) (λ _. v)
        (λ b.
          put_state-IsValid e c.index ready v
            (λ k.
              ≢_of audio_claimed active refl (sym (Held-parts c e (or_left_not b)).is_claimed ∙ k))
            (≢_of ready active refl) (≢_of ready writing refl))
