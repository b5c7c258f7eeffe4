-- ===== src/Ledger/Recovery.antt =====
-- Blocking and recovery: what a blocked or held ledger sends, and when the block and the panic hold
-- end.
use polyphonic_audio_to_midi.Prelude.{
  ℕ, ◌≡◌, ◌∙◌, ◌⊎◌, refl, sym, ap, inl, inr, Bool, true, false, arith, Bool-cases,
}
use polyphonic_audio_to_midi.Types.{MidiRouting}
use polyphonic_audio_to_midi.Double.{Double, less}
use polyphonic_audio_to_midi.Ledger.{Ledger, request_recovery}
use polyphonic_audio_to_midi.Ledger.Delivery.{NoteEventSink, deliver, finish_hold, quiet_peak}
use polyphonic_audio_to_midi.Ledger.Hold.{finish_hold-counts, finish_hold-unblocks}
use polyphonic_audio_to_midi.Ledger.Quiet.{
  ReleasesOnly, nothing, Quiet, retry_pending_releases-Quiet, deliver_queued-Quiet,
}

module _ {C : Type 0} (sink : NoteEventSink C) where
  deliver-Quiet :
      (frames : ℕ) (peak : Double) (finite_input supported_layout : Bool) (routing : MidiRouting)
      (start_channel : ℕ) (c : C) (l : Ledger)
      → (l.panic_hold ≡ true) ⊎ (l.output_blocked ≡ true)
      → let (r, c', l') =
          deliver sink frames peak finite_input supported_layout routing start_channel c l in
        (m : Ledger) × Quiet sink c l c' m
        × ((l' ≡ finish_hold peak finite_input supported_layout m) ⊎ (l' ≡ m))
        × (r.detection_allowed ≡ true → (l'.panic_hold ≡ false) × (l'.output_blocked ≡ false))
  unfolding deliver
  deliver-Quiet frames peak finite_input supported_layout routing start_channel c l why =
      deliver_queued-Quiet sink c l frames peak finite_input supported_layout routing start_channel
        _ _ why
        (retry_pending_releases-Quiet sink c l c l (
          nothing,
          record { hold = refl; recovery = refl; calls = refl; queue = refl; block = λ b. b },
        ))

  -- A delivery for a ledger whose output is blocked hands the sink releases only, and no note-on. It
  -- allows detection only if it ends the block, and it ends the block only if a recovery was
  -- requested under a panic hold that no longer waits for a delivery, and the input is quiet.
  pub deliver-blocked :
      (frames : ℕ) (peak : Double) (finite_input supported_layout : Bool) (routing : MidiRouting)
      (start_channel : ℕ) (c : C) (l : Ledger)
      → l.output_blocked ≡ true
      → let (r, c', l') =
          deliver sink frames peak finite_input supported_layout routing start_channel c l in
        ReleasesOnly sink c c'
        × (r.detection_allowed ≡ true → l'.output_blocked ≡ false)
        × (l'.output_blocked ≡ false
            → (l.panic_hold ≡ true)
              × (l.recovery_requested ≡ true)
              × (l.hold_calls_remaining ≡ 0)
              × (less peak quiet_peak ≡ true))
  deliver-blocked frames peak finite_input supported_layout routing start_channel c l block =
      let (m, (released, same), ends, allowed) =
        deliver-Quiet frames peak finite_input supported_layout routing start_channel c l
          (inr block) in
      (
        released,
        λ k. (allowed k).1,
        λ k. elim ends [
          | inl e ↦
              finish_hold-unblocks l peak finite_input supported_layout m same block
                (sym (ap (λ (x : Ledger). x.output_blocked) e) ∙ k)
          | inr e ↦
              let still : m.output_blocked ≡ false =
                sym (ap (λ (x : Ledger). x.output_blocked) e) ∙ k in
              ground (arith, still, same.block block)
        ],
      )

  -- After `request_recovery` on any ledger, the first delivery hands the sink releases only, keeps the
  -- panic hold, does not end a block and allows no detection, whatever the queue and the input.
  pub request_recovery-holds :
      (frames : ℕ) (peak : Double) (finite_input supported_layout : Bool) (routing : MidiRouting)
      (start_channel : ℕ) (c : C) (l : Ledger)
      → let (r, c', l') =
          deliver sink frames peak finite_input supported_layout routing start_channel c
            (request_recovery l) in
        ReleasesOnly sink c c'
        × (l'.panic_hold ≡ true)
        × (l.output_blocked ≡ true → l'.output_blocked ≡ true)
        × (r.detection_allowed ≡ false)
  unfolding request_recovery
  request_recovery-holds frames peak finite_input supported_layout routing start_channel c l =
      let (m, (released, same), ends, allowed) =
        deliver-Quiet frames peak finite_input supported_layout routing start_channel c
          (request_recovery l) (inl refl) in
      let o =
        deliver sink frames peak finite_input supported_layout routing start_channel c
          (request_recovery l) in
      let held : (o.2.panic_hold ≡ true) × (l.output_blocked ≡ true → o.2.output_blocked ≡ true) =
        elim ends [
          | inl e ↦
              let (hold, block) =
                finish_hold-counts (request_recovery l) peak finite_input supported_layout m same
                  refl (omega arith) in
              (
                ap (λ (x : Ledger). x.panic_hold) e ∙ hold,
                λ b. ap (λ (x : Ledger). x.output_blocked) e ∙ block ∙ same.block b,
              )
          | inr e ↦ (
            ap (λ (x : Ledger). x.panic_hold) e ∙ same.hold,
            λ b. ap (λ (x : Ledger). x.output_blocked) e ∙ same.block b,
          )
        ] in
      (
        released,
        held.0,
        held.1,
        elim (Bool-cases o.0.detection_allowed) [
          | inl k ↦ ground (arith, held.0, (allowed k).0)
          | inr k ↦ k
        ],
      )
