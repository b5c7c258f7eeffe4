-- ===== src/Ledger/Quiet.antt =====
-- native/src/generated_note_ledger.cpp: the deliveries of a blocked or held ledger, and what they hand
-- the sink.
use polyphonic_audio_to_midi.Prelude.{
  ℕ, zero, suc, ◌+◌, ◌≡◌, ◌⊎◌, refl, inl, inr, Bool, true, false, not, ◌&&◌, ◌||◌, List, [], ◌∷◌,
  Option, none, some, arith, Bool-cases, if_elim, if◌then◌else◌, ltb, leb, ◌==◌,
}
use polyphonic_audio_to_midi.Types.{VoiceTransition, MidiRouting, is_note_off, max_voices}
use polyphonic_audio_to_midi.Double.{Double}
use polyphonic_audio_to_midi.Ledger.{Ledger, enter_blocked, release_pending, find_voice}
use polyphonic_audio_to_midi.Ledger.Delivery.{
  NoteEventSink, NoteDeliveryResult, deliver_unblocked, Reply, Outcome, voice_at, push, deliver_off,
  deliver_on, deliver_event, deliver_events, retry_slots, retry_notes, retry_pending_releases,
  deliver_queued, release_of, finish_hold, check_delivery,
}
use polyphonic_audio_to_midi.Ledger.Rule.{push-ledger}
use polyphonic_audio_to_midi.Ledger.Hold.{
  SameHold, enter_blocked-SameHold, clear_voice-SameHold, mark_pending-SameHold, complete-SameHold,
  check_delivery-SameHold, invalid-SameHold,
}

-- The sink's context comes from `start` by note-offs handed to the sink's function, and no note-on.
pub data ReleasesOnly {C : Type 0} (sink : NoteEventSink C) (start : C) : C → Type 0 where
  nothing : ReleasesOnly sink start start
  release :
      {c : C} (f : C → VoiceTransition → ℕ → Reply C) (t : VoiceTransition) (channel : ℕ)
      → sink.push ≡ some f
      → is_note_off t.kind ≡ true
      → ReleasesOnly sink start c
      → ReleasesOnly sink start (f c t channel).context

module _ {C : Type 0} (sink : NoteEventSink C) (start : C) (old : Ledger) where
  -- Since `start` and `old`, only releases have gone out.
  abbrev pub Quiet : C → Ledger → Type 0
  Quiet c l = ReleasesOnly sink start c × SameHold old l

  push-ReleasesOnly :
      (t : VoiceTransition) (channel : ℕ) (c : C) (l : Ledger)
      → ReleasesOnly sink start c
      → is_note_off t.kind ≡ true
      → ReleasesOnly sink start (push sink t channel c l).1
  unfolding push
  push-ReleasesOnly t channel c l r off =
      if_elim (λ (o : Outcome C). ReleasesOnly sink start o.1) (leb 1 channel && leb channel 16) _ _
        (λ fits. answered sink.push refl) (λ out. r)
    where
      answered :
          (o : Option (C → VoiceTransition → ℕ → Reply C))
          → sink.push ≡ o
          → ReleasesOnly sink start
              (elim o as (λ x. Outcome C) [
                | none ↦ (false, c, l)
                | some f ↦
                    let r = f c t channel in
                    (r.accepted, r.context, if r.reported then enter_blocked l else l)
              ]).1
      answered none e = r
      answered (some f) e = release f t channel e off r

  push-Quiet :
      (t : VoiceTransition) (channel : ℕ) (c : C) (l : Ledger)
      → Quiet c l
      → is_note_off t.kind ≡ true
      → Quiet (push sink t channel c l).1 (push sink t channel c l).2
  push-Quiet t channel c l q off = (
    push-ReleasesOnly t channel c l q.0 off,
    elim (push-ledger sink t channel c l) [
      | inl e ↦ rw e q.1
      | inr e ↦ rw e (enter_blocked-SameHold old l q.1)
    ],
  )

  retry_slots-Quiet :
      (n slot left : ℕ) (c : C) (l : Ledger)
      → Quiet c l
      → Quiet (retry_slots sink n slot left c l).1 (retry_slots sink n slot left c l).2
  unfolding retry_slots
  retry_slots-Quiet n slot zero c l q = q
  retry_slots-Quiet n slot (suc left) c l q =
      let v = voice_at l slot in
      let sent = push-Quiet (release_of v n) v.channel c l q refl in
      if_elim (λ (o : Outcome C). Quiet o.1 o.2) (not v.pending_release || not (v.note == n)) _ _
        (λ skip. retry_slots-Quiet n (slot + 1) left c l q)
        (λ here.
          if_elim (λ (o : Outcome C). Quiet o.1 o.2) (push sink (release_of v n) v.channel c l).0 _
            _
            (λ ok.
              retry_slots-Quiet n (slot + 1) left _ _
                (sent.0, clear_voice-SameHold slot old _ sent.1))
            (λ no_. (sent.0, enter_blocked-SameHold old _ sent.1)))

  retry_notes-Quiet :
      (n left : ℕ) (c : C) (l : Ledger)
      → Quiet c l
      → Quiet (retry_notes sink n left c l).1 (retry_notes sink n left c l).2
  unfolding retry_notes
  retry_notes-Quiet n zero c l q = (q.0, complete-SameHold old l q.1)
  retry_notes-Quiet n (suc left) c l q =
      let here = retry_slots-Quiet n 0 max_voices c l q in
      if_elim (λ (o : Outcome C). Quiet o.1 o.2) (retry_slots sink n 0 max_voices c l).0 _ _
        (λ ok. retry_notes-Quiet (n + 1) left _ _ here) (λ no_. here)

  pub retry_pending_releases-Quiet :
      (c : C) (l : Ledger)
      → Quiet c l
      → Quiet (retry_pending_releases sink c l).1 (retry_pending_releases sink c l).2
  unfolding retry_pending_releases
  retry_pending_releases-Quiet c l q =
      if_elim (λ (o : Outcome C). Quiet o.1 o.2) (release_pending l) _ _
        (λ some_left. retry_notes-Quiet 0 128 c l q)
        (λ none_left. (q.0, complete-SameHold old l q.1))

  deliver_off-Quiet :
      (t : VoiceTransition) (c : C) (l : Ledger)
      → Quiet c l
      → is_note_off t.kind ≡ true
      → Quiet (deliver_off sink t c l).1 (deliver_off sink t c l).2
  unfolding deliver_off
  deliver_off-Quiet t c l q off =
      let slot = find_voice l t in
      let sent = push-Quiet t (voice_at l slot).channel c l q off in
      if_elim (λ (o : Outcome C). Quiet o.1 o.2) (leb max_voices slot) _ _
        (λ miss. (q.0, enter_blocked-SameHold old l q.1))
        (λ hit.
          if_elim (λ (o : Outcome C). Quiet o.1 o.2) (push sink t (voice_at l slot).channel c l).0 _
            _ (λ ok. (sent.0, clear_voice-SameHold slot old _ sent.1))
            (λ no_.
              (sent.0, enter_blocked-SameHold old _ (mark_pending-SameHold slot old _ sent.1))))

  deliver_on-Quiet :
      (routing : MidiRouting) (start_channel : ℕ) (t : VoiceTransition) (c : C) (l : Ledger)
      → old.panic_hold ≡ true
      → Quiet c l
      → Quiet
          (deliver_on sink routing start_channel t c l).1
          (deliver_on sink routing start_channel t c l).2
  unfolding deliver_on
  deliver_on-Quiet routing start_channel t c l hold q =
      if_elim (λ (o : Outcome C). Quiet o.1 o.2) l.panic_hold _ _ (λ held. q)
        (λ free. ground (arith, free, hold, q.1.hold))

  deliver_event-Quiet :
      (routing : MidiRouting) (start_channel : ℕ) (t : VoiceTransition) (c : C) (l : Ledger)
      → old.panic_hold ≡ true
      → Quiet c l
      → Quiet
          (deliver_event sink routing start_channel t c l).1
          (deliver_event sink routing start_channel t c l).2
  unfolding deliver_event
  deliver_event-Quiet routing start_channel t c l hold q = elim (Bool-cases (is_note_off t.kind)) [
    | inl off ↦ rw off (deliver_off-Quiet t c l q off)
    | inr on ↦ rw on (deliver_on-Quiet routing start_channel t c l hold q)
  ]

  deliver_events-Quiet :
      (routing : MidiRouting) (start_channel frames : ℕ) (ts : List VoiceTransition) (c : C)
      (l : Ledger)
      → old.panic_hold ≡ true
      → Quiet c l
      → Quiet
          (deliver_events sink routing start_channel frames ts c l).0
          (deliver_events sink routing start_channel frames ts c l).1
  unfolding deliver_events
  deliver_events-Quiet routing start_channel frames [] c l hold q = q
  deliver_events-Quiet routing start_channel frames (t ∷ ts) c l hold q =
      let here = deliver_event-Quiet routing start_channel t c l hold q in
      if_elim (λ (o : C × Ledger). Quiet o.0 o.1) (leb frames t.sample_offset) _ _
        (λ late. deliver_events-Quiet routing start_channel frames ts c l hold q)
        (λ due.
          if_elim (λ (o : C × Ledger). Quiet o.0 o.1)
            (deliver_event sink routing start_channel t c l).0 _ _
            (λ go. deliver_events-Quiet routing start_channel frames ts _ _ hold here)
            (λ stop. here))

  -- What a delivery that may start no note leaves before it looks at the hold.
  pub deliver_queued-Quiet :
      (frames : ℕ) (peak : Double) (finite_input supported_layout : Bool) (routing : MidiRouting)
      (start_channel : ℕ) (c : C) (l : Ledger)
      → (old.panic_hold ≡ true) ⊎ (old.output_blocked ≡ true)
      → Quiet c l
      → let (r, c', l') =
          deliver_queued sink frames peak finite_input supported_layout routing start_channel c l in
        (m : Ledger) × Quiet c' m
        × ((l' ≡ finish_hold peak finite_input supported_layout m) ⊎ (l' ≡ m))
        × (r.detection_allowed ≡ true → (l'.panic_hold ≡ false) × (l'.output_blocked ≡ false))
  unfolding deliver_queued
  deliver_queued-Quiet frames peak finite_input supported_layout routing start_channel c l why q =
      if_elim
        (λ (o : NoteDeliveryResult × C × Ledger).
          (m : Ledger) × Quiet o.1 m
          × ((o.2 ≡ finish_hold peak finite_input supported_layout m) ⊎ (o.2 ≡ m))
          × (o.0.detection_allowed ≡ true
              → (o.2.panic_hold ≡ false) × (o.2.output_blocked ≡ false)))
        (not l.allocated || frames == 0 || ltb l.max_frames frames) _ _
        (λ bad. (_, (q.0, invalid-SameHold old l q.1), inr refl, λ k. ground (arith, k)))
        (λ good. (_, unblocked, inl refl, λ k. ground (arith, k)))
    where
      checked : Ledger
      checked = check_delivery routing start_channel frames l

      marked : Quiet c checked
      marked = (q.0, check_delivery-SameHold routing start_channel frames old l q.1)

      unblocked :
          let (c', m) = deliver_unblocked sink routing start_channel frames c checked in Quiet c' m
      unblocked =
          if_elim (λ (o : C × Ledger). Quiet o.0 o.1)
            (not (release_pending checked) && not checked.output_blocked) _ _
            (λ go. elim why [
              | inl hold ↦
                  deliver_events-Quiet routing start_channel frames checked.queue c checked hold
                    marked
              | inr block ↦
                  let b : checked.output_blocked ≡ true = marked.1.block block in
                  ground (arith, go, b)
            ])
            (λ stop. marked)
