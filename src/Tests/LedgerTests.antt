-- ===== src/Tests/LedgerTests.antt =====
-- The theorems on the ledger, for the sample.
use mathlib.Core.Logic.{◌↔◌}
use polyphonic_audio_to_midi.Prelude.{
  ◌≡◌, ◌≤◌, ◌<◌, refl, true, false, not, ◌||◌, [], ◌∷◌, arith, if◌then◌else◌,
}
use polyphonic_audio_to_midi.Types.{MidiRouting, max_voices}
use polyphonic_audio_to_midi.Double.{less}
use polyphonic_audio_to_midi.Ledger.{
  Ledger, transition_before, queue_transition, accepts, release_pending, request_recovery,
  request_release_all,
}
use polyphonic_audio_to_midi.Ledger.Delivery.{deliver, quiet_peak, retry_pending_releases}
use polyphonic_audio_to_midi.Ledger.Invariant.{IsValid, request_release_all-IsValid}
use polyphonic_audio_to_midi.Ledger.Balance.{logged, Balanced, deliver-Balanced}
use polyphonic_audio_to_midi.Ledger.Valid.{deliver-IsValid}
use polyphonic_audio_to_midi.Ledger.Sorted.{IsSorted, queue_transition_lem}
use polyphonic_audio_to_midi.Ledger.Quiet.{ReleasesOnly}
use polyphonic_audio_to_midi.Ledger.Recovery.{deliver-blocked, request_recovery-holds}
use polyphonic_audio_to_midi.Ledger.Retry.{retry_pending_releases_lem}
use polyphonic_audio_to_midi.Ledger.Identity.{IsDistinct, deliver-IsDistinct}
use polyphonic_audio_to_midi.Vst3EventSink.{note_identity, can_push}
use polyphonic_audio_to_midi.Vst3EventSink.NoteId.{note_identity_lem}
use polyphonic_audio_to_midi.Tests.Samples.{
  on_60, off_64, sample, sample-IsValid, alternating, alternating-IsHonest,
}
use mathlib.Core.List.{Perm}

deliver-IsValid_example :
    IsValid (deliver alternating 64 0 true true MidiRouting.single 1 true sample).2
deliver-IsValid_example =
    deliver-IsValid alternating 64 0 true true MidiRouting.single 1 true sample-IsValid

sample-Balanced : Balanced ((on_60, 1) ∷ []) sample
sample-Balanced k = ground arith

deliver-Balanced_example :
    Balanced
      (deliver
        (logged alternating)
        64
        0
        true
        true
        MidiRouting.single
        1
        (true, (on_60, 1) ∷ [])
        sample).1.1
      (deliver
        (logged alternating)
        64
        0
        true
        true
        MidiRouting.single
        1
        (true, (on_60, 1) ∷ [])
        sample).2
deliver-Balanced_example =
    deliver-Balanced alternating 64 0 true true MidiRouting.single 1 (true, (on_60, 1) ∷ [])
      sample-IsValid sample-Balanced

sample-IsDistinct : IsDistinct sample
sample-IsDistinct id n = ground arith

deliver-IsDistinct_example :
    IsDistinct (deliver alternating 64 0 true true MidiRouting.single 1 true sample).2
deliver-IsDistinct_example =
    deliver-IsDistinct alternating 64 0 true true MidiRouting.single 1 true sample-IsValid
      sample-IsDistinct

queue_transition_example :
    let (ok, l') = queue_transition off_64 64 sample in
    (ok ≡ accepts sample off_64 64)
    × IsSorted l'.queue
    × Perm l'.queue (if ok then off_64 ∷ sample.queue else sample.queue)
    × (l' ≡ record sample {
      queue = l'.queue;
      invalid_transition = not ok || sample.invalid_transition;
    })
unfolding transition_before
queue_transition_example = queue_transition_lem off_64 64 sample (refl, (tt, tt))

retry_pending_releases_example :
    let (ok, c', l') = retry_pending_releases alternating true (request_release_all sample) in
    (release_pending l' ≡ not ok)
    × (l'.cleanup_complete ≡ ok)
    × (l'.output_blocked ≡ (request_release_all sample).output_blocked || not ok)
retry_pending_releases_example =
    retry_pending_releases_lem alternating alternating-IsHonest true (request_release_all sample)
      (request_release_all-IsValid sample-IsValid)

abbrev blocked : Ledger
blocked = record sample { output_blocked = true; panic_hold = true; recovery_requested = true }

deliver-blocked_example :
    let (r, c', l') = deliver alternating 64 0 true true MidiRouting.single 1 true blocked in
    ReleasesOnly alternating true c'
    × (r.detection_allowed ≡ true → l'.output_blocked ≡ false)
    × (l'.output_blocked ≡ false
        → (blocked.panic_hold ≡ true)
          × (blocked.recovery_requested ≡ true)
          × (blocked.hold_calls_remaining ≡ 0)
          × (less 0 quiet_peak ≡ true))
deliver-blocked_example =
    deliver-blocked alternating 64 0 true true MidiRouting.single 1 true blocked refl

request_recovery-holds_example :
    let (r, c', l') =
      deliver alternating 64 0 true true MidiRouting.single 1 true (request_recovery sample) in
    ReleasesOnly alternating true c'
    × (l'.panic_hold ≡ true)
    × (sample.output_blocked ≡ true → l'.output_blocked ≡ true)
    × (r.detection_allowed ≡ false)
request_recovery-holds_example =
    request_recovery-holds alternating 64 0 true true MidiRouting.single 1 true sample

note_identity_example :
    (on_60.voice_id < max_voices
      → off_64.voice_id < max_voices
      → (note_identity on_60 ≡ note_identity off_64)
        ↔ ((on_60.note ≡ off_64.note) × (on_60.voice_id ≡ off_64.voice_id)))
    × (max_voices ≤ on_60.voice_id
        → max_voices ≤ off_64.voice_id
        → (note_identity on_60 ≡ note_identity off_64) ↔ (on_60.note ≡ off_64.note))
    × (on_60.voice_id < max_voices
        → max_voices ≤ off_64.voice_id
        → (note_identity on_60 ≡ note_identity off_64)
          ↔ ((on_60.note ≡ off_64.note) × (on_60.voice_id ≡ 0)))
unfolding can_push
note_identity_example = note_identity_lem on_60 off_64 1 1 refl refl
