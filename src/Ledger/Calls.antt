-- ===== src/Ledger/Calls.antt =====
-- The rule of `Ledger.Rule`, call by call: what the updates of single voices keep is kept by
-- `retry_pending_releases`, `deliver_queued` and `deliver`.
use polyphonic_audio_to_midi.Prelude.{
  ℕ, zero, suc, ◌+◌, ◌-◌, ◌≤◌, ◌<◌, ◌≡◌, refl, inl, inr, Bool, true, false, not, ◌&&◌, ◌||◌, List,
  [], ◌∷◌, arith, length, All, Bool-cases, if_elim, ltb, leb, ◌==◌,
}
use polyphonic_audio_to_midi.Types.{VoiceTransition, MidiRouting, is_note_off, max_voices}
use polyphonic_audio_to_midi.Double.{Double}
use polyphonic_audio_to_midi.Ledger.{
  Ledger, find_voice, find_free_voice, allocate_channel, release_pending,
}
use polyphonic_audio_to_midi.Ledger.Delivery.{
  NoteEventSink, Outcome, voice_at, push, deliver_off, deliver_on, deliver_event, deliver_events,
  retry_slots, retry_notes, retry_pending_releases, deliver_queued, deliver, release_of,
  finish_hold, identity_in_use, check_delivery,
}
use polyphonic_audio_to_midi.Ledger.Invariant.{QueuedOk}
use polyphonic_audio_to_midi.Ledger.Rule.{
  with_flags, Keeps, push-in_use, push-channel, find_voice-EndsVoice, find_free_voice-free,
}

module _ {C : Type 0} {sink : NoteEventSink C} {P : C → Ledger → Type 0} (k : Keeps sink P) where
  deliver_off-Keeps :
      (t : VoiceTransition) (c : C) (l : Ledger)
      → P c l
      → QueuedOk t
      → is_note_off t.kind ≡ true
      → P (deliver_off sink t c l).1 (deliver_off sink t c l).2
  unfolding deliver_off
  deliver_off-Keeps t c l p q off = elim (Bool-cases (leb max_voices (find_voice l t))) [
    | inl miss ↦ rw miss (k.blocks c l p)
    | inr hit ↦
        let slot = find_voice l t in
        let small : slot < max_voices = ground arith in
        let inside : slot < length l.voices = omega (arith, k.sized c l p) in
        let e = find_voice-EndsVoice l t q inside in
        let ch = (voice_at l slot).channel in
        elim (Bool-cases (push sink t ch c l).0) [
          | inl ok ↦ rw (hit, ok) (k.ends t slot c l p small off e ok)
          | inr no_ ↦
              rw (hit, no_)
                (k.blocks _ _ (
                  k.marks slot _ _ (k.refuses t ch c l p no_) small
                    (push-in_use sink t ch slot c l inside e.used)))
        ]
  ]

  deliver_on-Keeps :
      (routing : MidiRouting) (start_channel : ℕ) (t : VoiceTransition) (c : C) (l : Ledger)
      → P c l
      → QueuedOk t
      → is_note_off t.kind ≡ false
      → P
          (deliver_on sink routing start_channel t c l).1
          (deliver_on sink routing start_channel t c l).2
  unfolding deliver_on
  deliver_on-Keeps routing start_channel t c l p q on =
      let channel = allocate_channel l routing start_channel t in
      let slot = find_free_voice l in
      if_elim Q l.panic_hold _ _ (λ hold. p)
        (λ e1.
          if_elim Q (identity_in_use l t) _ _ (λ taken. k.blocks c l p)
            (λ e2.
              if_elim Q (leb max_voices l.active_count) _ _ (λ full. k.blocks c l p)
                (λ e3.
                  if_elim Q (channel == 0 || leb max_voices slot) _ _ (λ bad. k.blocks c l p)
                    (λ e4.
                      let small : slot < max_voices = ground arith in
                      let inside : slot < length l.voices = omega (arith, k.sized c l p) in
                      if_elim Q (push sink t channel c l).0 _ _
                        (λ ok.
                          k.starts t slot channel c l p small (find_free_voice-free l inside) q on
                            e2 (push-channel sink t channel c l ok) ok)
                        (λ no_. k.blocks _ _ (k.refuses t channel c l p no_))))))
    where
      Q : Outcome C → Type 0
      Q o = P o.1 o.2

  deliver_event-Keeps :
      (routing : MidiRouting) (start_channel : ℕ) (t : VoiceTransition) (c : C) (l : Ledger)
      → P c l
      → QueuedOk t
      → P
          (deliver_event sink routing start_channel t c l).1
          (deliver_event sink routing start_channel t c l).2
  unfolding deliver_event
  deliver_event-Keeps routing start_channel t c l p q = elim (Bool-cases (is_note_off t.kind)) [
    | inl off ↦ rw off (deliver_off-Keeps t c l p q off)
    | inr on ↦ rw on (deliver_on-Keeps routing start_channel t c l p q on)
  ]

  deliver_events-Keeps :
      (routing : MidiRouting) (start_channel frames : ℕ) (ts : List VoiceTransition) (c : C)
      (l : Ledger)
      → P c l
      → All QueuedOk ts
      → P
          (deliver_events sink routing start_channel frames ts c l).0
          (deliver_events sink routing start_channel frames ts c l).1
  unfolding deliver_events
  deliver_events-Keeps routing start_channel frames [] c l p q = p
  deliver_events-Keeps routing start_channel frames (t ∷ ts) c l p q =
      let here = deliver_event-Keeps routing start_channel t c l p q.0 in
      elim (Bool-cases (leb frames t.sample_offset)) [
        | inl late ↦ rw late (deliver_events-Keeps routing start_channel frames ts c l p q.1)
        | inr due ↦ elim (Bool-cases (deliver_event sink routing start_channel t c l).0) [
          | inl go ↦
              rw (due, go) (deliver_events-Keeps routing start_channel frames ts _ _ here q.1)
          | inr stop ↦ rw (due, stop) here
        ]
      ]

  pub retry_slots-Keeps :
      (n slot left : ℕ) (c : C) (l : Ledger)
      → P c l
      → slot + left ≤ max_voices
      → P (retry_slots sink n slot left c l).1 (retry_slots sink n slot left c l).2
  unfolding retry_slots
  retry_slots-Keeps n slot zero c l p h = p
  retry_slots-Keeps n slot (suc left) c l p h =
      let v = voice_at l slot in
      elim (Bool-cases (not v.pending_release || not (v.note == n))) [
        | inl skip ↦ rw skip (retry_slots-Keeps n (slot + 1) left c l p (omega arith))
        | inr here ↦ elim (Bool-cases (push sink (release_of v n) v.channel c l).0) [
          | inl ok ↦
              rw (here, ok)
                (retry_slots-Keeps n (slot + 1) left _ _
                  (k.ends (release_of v n) slot c l p (omega arith) refl
                    (record { used = ground arith; same_note = refl; same_id = refl }) ok)
                  (omega arith))
          | inr no_ ↦ rw (here, no_) (k.blocks _ _ (k.refuses (release_of v n) v.channel c l p no_))
        ]
      ]

  retry_notes-Keeps :
      (n left : ℕ) (c : C) (l : Ledger)
      → P c l
      → P (retry_notes sink n left c l).1 (retry_notes sink n left c l).2
  unfolding retry_notes
  retry_notes-Keeps n zero c l p =
      k.flags c l l.invalid_transition l.output_blocked true l.panic_hold l.recovery_requested
        l.hold_calls_remaining p
  retry_notes-Keeps n (suc left) c l p =
      let here = retry_slots-Keeps n 0 max_voices c l p (omega arith) in
      elim (Bool-cases (retry_slots sink n 0 max_voices c l).0) [
        | inl ok ↦ rw ok (retry_notes-Keeps (n + 1) left _ _ here)
        | inr no_ ↦ rw no_ here
      ]

  pub retry_pending_releases-Keeps :
      (c : C) (l : Ledger)
      → P c l
      → P (retry_pending_releases sink c l).1 (retry_pending_releases sink c l).2
  unfolding retry_pending_releases
  retry_pending_releases-Keeps c l p = elim (Bool-cases (release_pending l)) [
    | inl e ↦ rw e (retry_notes-Keeps 0 128 c l p)
    | inr e ↦ rw e (
        k.flags c l l.invalid_transition l.output_blocked true l.panic_hold l.recovery_requested
          l.hold_calls_remaining p)
  ]

  finish_hold-Keeps :
      (peak : Double) (finite_input supported_layout : Bool) (c : C) (l : Ledger)
      → P c l
      → P c (finish_hold peak finite_input supported_layout l)
  unfolding finish_hold
  finish_hold-Keeps peak finite_input supported_layout c l p =
      let keep = λ (b cc h r : Bool) (n : ℕ). k.flags c l l.invalid_transition b cc h r n p in
      ground (
        arith,
        keep l.output_blocked l.cleanup_complete l.panic_hold l.recovery_requested
            (l.hold_calls_remaining - 1),
        keep false false false false l.hold_calls_remaining,
      )

  pub deliver_queued-Keeps :
      (frames : ℕ) (peak : Double) (finite_input supported_layout : Bool) (routing : MidiRouting)
      (start_channel : ℕ) (c : C) (l : Ledger)
      → P c l
      → let (r, c', l') =
          deliver_queued sink frames peak finite_input supported_layout routing start_channel c l in
        P c' l'
  unfolding deliver_queued
  deliver_queued-Keeps frames peak finite_input supported_layout routing start_channel c l p =
      elim (Bool-cases (not l.allocated || frames == 0 || ltb l.max_frames frames)) [
        | inl bad ↦ rw bad (marked true)
        | inr good ↦ rw good (
            finish_hold-Keeps peak finite_input supported_layout _ _ (elim (Bool-cases open_) [
              | inl go ↦ rw go (
                  deliver_events-Keeps routing start_channel frames l.queue c _ (marked _)
                    (k.queued c l p))
              | inr stop ↦ rw stop (marked _)
            ]))
      ]
    where
      open_ : Bool
      open_ =
          not (release_pending (check_delivery routing start_channel frames l))
          && not l.output_blocked

      marked :
          (i : Bool)
          → P c (
              with_flags i l.output_blocked l.cleanup_complete l.panic_hold l.recovery_requested
                l.hold_calls_remaining l)
      marked i =
          k.flags c l i l.output_blocked l.cleanup_complete l.panic_hold l.recovery_requested
            l.hold_calls_remaining p

  pub deliver-Keeps :
      (frames : ℕ) (peak : Double) (finite_input supported_layout : Bool) (routing : MidiRouting)
      (start_channel : ℕ) (c : C) (l : Ledger)
      → P c l
      → let (r, c', l') =
          deliver sink frames peak finite_input supported_layout routing start_channel c l in
        P c' l'
  unfolding deliver
  deliver-Keeps frames peak finite_input supported_layout routing start_channel c l p =
      deliver_queued-Keeps frames peak finite_input supported_layout routing start_channel _ _
        (retry_pending_releases-Keeps c l p)
