-- ===== src/MidiPipeline/Flush.antt =====
-- The flush of the input events, and what it means for the sink of the pipeline.
use polyphonic_audio_to_midi.Prelude.{
  ℕ, zero, suc, ◌+◌, ◌-◌, ◌≤◌, ◌≡◌, refl, inl, inr, Bool, true, false, ◌&&◌, arith, Option-cases,
  if_elim,
}
use polyphonic_audio_to_midi.Types.{is_note_on}
use polyphonic_audio_to_midi.Ledger.Retry.{IsHonest}
use polyphonic_audio_to_midi.MidiPipeline.{InputEvent}
use polyphonic_audio_to_midi.MidiPipeline.Delivery.{
  DeliveryContext, Block, header_at, take_input, flush_loop, flush_inputs, push_generated,
  pipeline_sink, next_input, invalid_input, input_due,
}

module _ {H : Type 0} (b : Block H) where
  take_input-reported :
      (e : InputEvent) (c : DeliveryContext H)
      → (take_input b e c).0 ≡ true
      → (take_input b e c).1.reported ≡ c.reported
  unfolding take_input
  take_input-reported e c ok = ground arith

  take_input-index :
      (e : InputEvent) (c : DeliveryContext H)
      → (take_input b e c).1.input_index ≡ c.input_index + 1
  unfolding take_input
  take_input-index e c = ground arith

  -- What each turn of the loop keeps, the loop keeps.
  pub flush_loop_rule :
      (P : Bool → DeliveryContext H → Type 0) (boundary : ℕ) (inclusive final_flush : Bool)
      → ((a : Bool) (c : DeliveryContext H) → P a c → P a (invalid_input b (next_input b c)))
      → ((a : Bool) (c : DeliveryContext H) (e : InputEvent)
          → P a c
          → P (a && (take_input b e c).0) (take_input b e c).1)
      → (left : ℕ) (accepted : Bool) (c : DeliveryContext H) → P accepted c
      → P
          (flush_loop b boundary inclusive final_flush left accepted c).0
          (flush_loop b boundary inclusive final_flush left accepted c).1
  unfolding flush_loop
  flush_loop_rule P boundary inclusive final_flush miss take zero accepted c p = p
  flush_loop_rule P boundary inclusive final_flush miss take (suc left) accepted c p =
      elim (Option-cases (header_at b.input c.input_index)) [
        | inl missing ↦
            rw (missing, flush_loop)
              (flush_loop_rule P boundary inclusive final_flush miss take left accepted _
                (miss accepted c p))
        | inr (e, found) ↦
            rw (found, flush_loop)
              (if_elim (λ (r : Bool × DeliveryContext H). P r.0 r.1)
                (input_due b boundary inclusive final_flush e) _ _
                (λ due.
                  flush_loop_rule P boundary inclusive final_flush miss take left _ _
                    (take accepted c e p))
                (λ later. p))
      ]

  -- A flush that succeeds has reported no failure.
  flush_loop-reported :
      (boundary : ℕ) (inclusive final_flush : Bool) (left : ℕ) (c : DeliveryContext H)
      → (flush_loop b boundary inclusive final_flush left true c).0 ≡ true
      → (flush_loop b boundary inclusive final_flush left true c).1.reported ≡ c.reported
  flush_loop-reported boundary inclusive final_flush left c =
      flush_loop_rule (λ a d. a ≡ true → d.reported ≡ c.reported) boundary inclusive final_flush
        (λ a d h. h) (λ a d e h ok. ground (arith, h, take_input-reported e d)) left true c
        (λ ok. refl)

  flush_loop-final :
      (boundary : ℕ) (inclusive : Bool) (left : ℕ) (accepted : Bool) (c : DeliveryContext H)
      → (flush_loop b boundary inclusive true left accepted c).1.input_index ≡ c.input_index + left
  unfolding flush_loop
  flush_loop-final boundary inclusive zero accepted c = omega arith
  flush_loop-final boundary inclusive (suc left) accepted c =
      elim (Option-cases (header_at b.input c.input_index)) [
        | inl missing ↦
            rw (missing, flush_loop)
              (omega (
                arith,
                flush_loop-final boundary inclusive left accepted
                    (invalid_input b (next_input b c)),
              ))
        | inr (e, found) ↦
            let t = take_input b e c in
            rw (found, flush_loop)
              (omega (
                arith,
                flush_loop-final boundary inclusive left (accepted && t.0) t.1,
                take_input-index e c,
              ))
      ]

  -- The final flush goes through all the input events: none is left over.
  pub flush_inputs-final :
      (boundary : ℕ) (inclusive : Bool) (c : DeliveryContext H)
      → c.input_index ≤ b.input_count
      → (flush_inputs b boundary inclusive true c).1.input_index ≡ b.input_count
  unfolding flush_inputs
  flush_inputs-final boundary inclusive c h =
      omega (arith, flush_loop-final boundary inclusive (b.input_count - c.input_index) true c)

  -- A push that the sink of the pipeline takes has reported no failure to the ledger while it ran.
  pub pipeline_sink-IsHonest : IsHonest (pipeline_sink b)
  unfolding push_generated flush_inputs
  pipeline_sink-IsHonest = record {
    honest = λ c t channel ok.
        let c0 = record c { reported = false } in
        ground (
          arith,
          flush_loop-reported t.sample_offset (is_note_on t.kind) false
              (b.input_count - c0.input_index) c0,
        );
  }
