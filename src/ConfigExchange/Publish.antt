-- ===== src/ConfigExchange/Publish.antt =====
-- What a publication does to the slots.
use mathlib.Core.Path.{subst}
use polyphonic_audio_to_midi.Prelude.{
  ℕ, suc, ◌≡◌, ◌≢◌, ◌∙◌, refl, sym, ap, inl, inr, Bool, true, false, not, ◌||◌, arith,
  if◌then◌else◌, Option-cases, if_elim,
}
use polyphonic_audio_to_midi.ConfigRequest.{generation_newer}
use polyphonic_audio_to_midi.ConfigExchange.{
  PreparedSlotState, free, writing, ready, active, same_state, slot_count, Exchange, put_slot,
  put_state, claim_state, select_slot, publish_attempts, publish,
}
use polyphonic_audio_to_midi.ConfigExchange.Invariant.{
  IsValid, put_slot-IsValid, put_slot_twice, publisher-IsValid, ≢_of, MayPut, slot_elim,
}
use polyphonic_audio_to_midi.ConfigExchange.Select.{
  IsOpen, open_free, open_ready, select_slot-IsOpen, select_slot-none,
}

-- The two outcomes: nothing is changed, or one open slot holds the publication and is ready.
pub data Published {A : Type 0} (prepared : A) (generation : ℕ) (e : Exchange A)
    : Bool × Exchange A → Type 0 where
  refused : Published prepared generation e (false, e)
  placed :
      (i : ℕ) (st : PreparedSlotState)
      → IsOpen e (i, st)
      → Published prepared generation e (
        true,
        record (put_slot i
            (record { prepared = prepared; generation = generation; state = ready })
            e) { publisher_generation = generation },
      )

module _ {A : Type 0} where
  was_open :
      (e : Exchange A) (p : ℕ × PreparedSlotState)
      → IsOpen e p
      → same_state (e.slots p.0).state p.1 ≡ true
  was_open e p (open_free lt h) = rw h refl
  was_open e p (open_ready lt h) = rw h refl

  claim_state-succeeds :
      (e : Exchange A) (i : ℕ) (expected desired : PreparedSlotState)
      → same_state (e.slots i).state expected ≡ true
      → claim_state i expected desired e ≡ (true, put_state i desired e)
  unfolding claim_state
  claim_state-succeeds e i expected desired h =
      ap (λ b. if b then (true, put_state i desired e) else (false, e)) h

  publish_attempts_lem :
      (prepared : A) (generation : ℕ) (left : ℕ) (e : Exchange A)
      → Published prepared generation e (publish_attempts (suc left) prepared generation e)
  unfolding publish_attempts
  publish_attempts_lem prepared generation left e = elim (Option-cases (select_slot e)) [
    | inl n ↦ rw (n, publish_attempts) refused
    | inr ((i, st), h) ↦
        rw (h, publish_attempts)
          (rw
            (claim_state-succeeds e i st writing
              (was_open e (i, st) (select_slot-IsOpen e (i, st) h)))
            (subst
              (λ x.
                Published prepared generation e
                  (true, record x { publisher_generation = generation }))
              (sym (
                put_slot_twice e i
                  (record { prepared = prepared; generation = generation; state = ready })
                  (record (e.slots i) { state = writing })))
              (placed i st (select_slot-IsOpen e (i, st) h))))
  ]

  publish_lem :
      (prepared : A) (generation : ℕ) (e : Exchange A)
      → Published prepared generation e (publish prepared generation e)
  unfolding publish
  publish_lem prepared generation e =
      if_elim (Published prepared generation e)
        (not e.initialized || not (generation_newer generation e.publisher_generation)) (false, e)
        (publish_attempts slot_count prepared generation e) (λ _. refused)
        (λ _. publish_attempts_lem prepared generation 2 e)

  closed : (e : Exchange A) (p : ℕ × PreparedSlotState) → IsOpen e p → (e.slots p.0).state ≢ active
  closed e p (open_free lt h) k = ≢_of free active refl (sym h ∙ k)
  closed e p (open_ready lt h) k = ≢_of ready active refl (sym h ∙ k)

  open-MayPut :
      (e : Exchange A) (p : ℕ × PreparedSlotState) (prepared : A) (generation : ℕ)
      → IsOpen e p
      → MayPut e p.0 (record { prepared = prepared; generation = generation; state = ready })
  open-MayPut e p prepared generation o = record {
    was_other = closed e p o;
    not_active = ≢_of ready active refl;
    not_half = ≢_of ready writing refl;
  }

  Published-IsValid :
      (prepared : A) (generation : ℕ) (e : Exchange A) (r : Bool × Exchange A)
      → IsValid e
      → Published prepared generation e r
      → IsValid r.1 × (r.1.slots e.active_index ≡ e.slots e.active_index)
  Published-IsValid prepared generation e r v refused = (v, refl)
  Published-IsValid prepared generation e r v (placed i st o) = (
    publisher-IsValid _ generation
        (put_slot-IsValid e i _ v (open-MayPut e (i, st) prepared generation o)),
    slot_elim (λ t. t ≡ e.slots e.active_index) e i e.active_index _
        (λ h. ground (
          arith,
          (open-MayPut e (i, st) prepared generation o).was_other,
          v.holds_active,
          ap (λ k. (e.slots k).state) h,
        ))
        (λ _. refl),
  )

  -- A publication, taken or refused, leaves the exchange valid, and the active slot as it was.
  pub publish-IsValid :
      (prepared : A) (generation : ℕ) (e : Exchange A)
      → IsValid e
      → IsValid (publish prepared generation e).1
        × ((publish prepared generation e).1.slots e.active_index ≡ e.slots e.active_index)
  publish-IsValid prepared generation e v =
      Published-IsValid prepared generation e _ v (publish_lem prepared generation e)

  publish_attempts-true :
      (prepared : A) (generation : ℕ) (left : ℕ) (e : Exchange A) (p : ℕ × PreparedSlotState)
      → IsOpen e p
      → (publish_attempts (suc left) prepared generation e).0 ≡ true
  unfolding publish_attempts
  publish_attempts-true prepared generation left e p o = elim (Option-cases (select_slot e)) [
    | inl n ↦ elim (select_slot-none e p n o) [ ]
    | inr ((i, st), h) ↦
        rw (h, publish_attempts)
          (rw
            (claim_state-succeeds e i st writing
              (was_open e (i, st) (select_slot-IsOpen e (i, st) h)))
            refl)
  ]

  -- One slot that was open holds the publication.
  abbrev pub Holds : A → ℕ → Exchange A → Exchange A → Type 0
  Holds prepared generation e after =
      (p : ℕ × PreparedSlotState) × IsOpen e p
      × (after.slots p.0 ≡ record { prepared = prepared; generation = generation; state = ready })

  Published-Holds :
      (prepared : A) (generation : ℕ) (e : Exchange A) (r : Bool × Exchange A)
      → Published prepared generation e r
      → r.0 ≡ true
      → (r.1.publisher_generation ≡ generation) × Holds prepared generation e r.1
  Published-Holds prepared generation e r refused t = ground arith
  Published-Holds prepared generation e r (placed i st o) t = (
    refl,
    (
      (i, st),
      o,
      slot_elim (λ u. u ≡ record { prepared = prepared; generation = generation; state = ready }) e
          i i _ (λ _. refl) (λ n. elim (n refl) [ ]),
    ),
  )

  -- A publication succeeds: the exchange is initialized, the generation is newer than the last
  -- one published, and a slot is free or holds a configuration that was not claimed. Then one slot
  -- that was free or unclaimed holds the configuration under its generation, ready to be claimed.
  pub publish-succeeds :
      (prepared : A) (generation : ℕ) (e : Exchange A) (p : ℕ × PreparedSlotState)
      → e.initialized ≡ true
      → generation_newer generation e.publisher_generation ≡ true
      → IsOpen e p
      → ((publish prepared generation e).0 ≡ true)
        × ((publish prepared generation e).1.publisher_generation ≡ generation)
        × Holds prepared generation e (publish prepared generation e).1
  unfolding publish
  publish-succeeds prepared generation e p hi hg o =
      if_elim
        (λ (r : Bool × Exchange A).
          Published prepared generation e r
          → (r.0 ≡ true)
            × (r.1.publisher_generation ≡ generation)
            × Holds prepared generation e r.1)
        (not e.initialized || not (generation_newer generation e.publisher_generation)) (false, e)
        (publish_attempts slot_count prepared generation e) (λ h. ground (arith, h, hi, hg))
        (λ _ q. (
          publish_attempts-true prepared generation 2 e p o,
          (Published-Holds prepared generation e _ q
              (publish_attempts-true prepared generation 2 e p o)).0,
          (Published-Holds prepared generation e _ q
              (publish_attempts-true prepared generation 2 e p o)).1,
        ))
        (publish_lem prepared generation e)
