-- ===== src/Ledger/Retry.antt =====
-- `retry_pending_releases` with a sink that never both takes an event and reports a failure.
use polyphonic_audio_to_midi.Prelude.{
  ℕ, zero, suc, ◌+◌, ◌≤◌, ◌<◌, ◌≡◌, ◌≢◌, ◌∙◌, refl, inl, inr, Bool, true, false, not, ◌||◌, List,
  [], ◌∷◌, Option, none, some, arith, ◌==◌, if◌then◌else◌, Bool-cases, length, get_or, set, any,
  All-get_or, length-set, sym, map,
}
use mathlib.Core.Bool.{false≢true}
use mathlib.Core.Path.{subst}
use polyphonic_audio_to_midi.Types.{VoiceTransition, max_voices}
use polyphonic_audio_to_midi.Ledger.{
  Ledger, ActiveVoice, free_voice, mark_voice, enter_blocked, release_pending,
}
use polyphonic_audio_to_midi.Ledger.Delivery.{
  NoteEventSink, Reply, Outcome, voice_at, push, retry_slots, retry_notes, retry_pending_releases,
  clear_voice, release_of,
}
use polyphonic_audio_to_midi.Ledger.Invariant.{IsValid, VoiceOk, voice_at-enter_blocked}
use polyphonic_audio_to_midi.Ledger.Rule.{push-ledger}
use polyphonic_audio_to_midi.Ledger.Calls.{retry_slots-Keeps}
use polyphonic_audio_to_midi.Ledger.Valid.{IsValid-Keeps}

abbrev HonestPush : {C : Type 0} → Option (C → VoiceTransition → ℕ → Reply C) → Type 0
HonestPush none = Unit
HonestPush {C} (some f) =
    (c : C) (t : VoiceTransition) (channel : ℕ)
    → (f c t channel).accepted ≡ true
    → (f c t channel).reported ≡ false

-- An event that the sink takes comes with no report of a failure.
pub record IsHonest {C : Type 0} (sink : NoteEventSink C) : Type 0 where
  pub honest : HonestPush sink.push

-- A pending release for a note from `n` on, and past `n` in the slots below `slot`.
record Left (n slot : ℕ) (l : Ledger) : Type 0 where
  left :
      (i : ℕ)
      → i < max_voices
      → (voice_at l i).pending_release ≡ true
      → (n ≤ (voice_at l i).note) × (i < slot → n < (voice_at l i).note)

get_or-set_ne {ℓ} :
    {A : Type ℓ} (xs : List A) (i j : ℕ) (v d : A) → i ≢ j → get_or (set xs i v) j d ≡ get_or xs j d
get_or-set_ne [] i j v d h = refl
get_or-set_ne (x ∷ xs) zero zero v d h = absurd (h refl)
get_or-set_ne (x ∷ xs) zero (suc j) v d h = refl
get_or-set_ne (x ∷ xs) (suc i) zero v d h = refl
get_or-set_ne (x ∷ xs) (suc i) (suc j) v d h = get_or-set_ne xs i j v d (λ e. h (ground arith))

get_or-set_default {ℓ} : {A : Type ℓ} (xs : List A) (i : ℕ) (d : A) → get_or (set xs i d) i d ≡ d
get_or-set_default [] i d = refl
get_or-set_default (x ∷ xs) zero d = refl
get_or-set_default (x ∷ xs) (suc i) d = get_or-set_default xs i d

voice_at-clear_voice :
    (l : Ledger) (slot i : ℕ)
    → voice_at (clear_voice slot l) i ≡ (if slot == i then free_voice else voice_at l i)
unfolding clear_voice
voice_at-clear_voice l slot i = ground (
  arith,
  get_or-set_ne l.voices slot i free_voice free_voice,
  get_or-set_default l.voices i free_voice,
)

clear_voice-Left :
    (n slot : ℕ) (l : Ledger) → Left n slot l → Left n (slot + 1) (clear_voice slot l)
clear_voice-Left n slot l h = record {
  left = λ i small p. ground (arith, voice_at-clear_voice l slot i, h.left i small);
}

skip-Left :
    (n slot : ℕ) (l : Ledger)
    → (not (voice_at l slot).pending_release || not ((voice_at l slot).note == n)) ≡ true
    → Left n slot l
    → Left n (slot + 1) l
skip-Left n slot l e h = record {
  left = λ i small p. elim (Bool-cases (i == slot)) [
    | inl same ↦ ground (arith, h.left i small p)
    | inr other ↦ ground (arith, h.left i small p)
  ];
}

any-pending :
    (vs : List ActiveVoice)
    → ((i : ℕ) → i < length vs → (get_or vs i free_voice).pending_release ≡ false)
    → any (λ v. v.pending_release) vs ≡ false
any-pending [] h = refl
any-pending (v ∷ vs) h =
    ground (arith, h 0 (omega arith), any-pending vs (λ i lt. h (suc i) (omega arith)))

pending-any :
    (vs : List ActiveVoice) (i : ℕ)
    → (get_or vs i free_voice).pending_release ≡ true
    → any (λ v. v.pending_release) (map mark_voice vs) ≡ true
pending-any [] i p = absurd (false≢true p)
pending-any (v ∷ vs) zero p = ground arith
pending-any (v ∷ vs) (suc i) p = ground (arith, pending-any vs i p)

enter_blocked-pending :
    (l : Ledger) (i : ℕ)
    → (voice_at l i).pending_release ≡ true
    → (release_pending (enter_blocked l) ≡ true)
      × ((enter_blocked l).output_blocked ≡ true)
      × ((enter_blocked l).cleanup_complete ≡ false)
unfolding enter_blocked release_pending
enter_blocked-pending l i p = (pending-any l.voices i p, refl, ground arith)

-- How a retry that stops leaves the ledger.
record Stopped (l : Ledger) : Type 0 where
  pending : release_pending l ≡ true
  blocked : l.output_blocked ≡ true
  unclean : l.cleanup_complete ≡ false

clear_voice-length :
    (slot : ℕ) (l : Ledger)
    → length l.voices ≡ max_voices
    → length (clear_voice slot l).voices ≡ max_voices
unfolding clear_voice
clear_voice-length slot l z = omega (arith, length-set l.voices slot free_voice)

push-pending :
    {C : Type 0} (sink : NoteEventSink C) (t : VoiceTransition) (channel slot : ℕ) (c : C)
    (l : Ledger)
    → slot < length l.voices
    → (voice_at l slot).pending_release ≡ true
    → (voice_at (push sink t channel c l).2 slot).pending_release ≡ true
push-pending sink t channel slot c l h p = elim (push-ledger sink t channel c l) [
  | inl e ↦ rw e p
  | inr e ↦ rw (e, voice_at-enter_blocked l slot h) (ground arith)
]

-- With every note up to 127 done, no release is pending.
nothing-Left : {n : ℕ} (l : Ledger) → IsValid l → Left n 0 l → 128 ≤ n → release_pending l ≡ false
unfolding release_pending
nothing-Left {n} l v q h = any-pending l.voices λ i lt.
    let ok = All-get_or VoiceOk l.voices i free_voice v.voices_ok lt in
    elim (Bool-cases (voice_at l i).pending_release) [
      | inl p ↦ absurd (omega (arith, (q.left i (omega (arith, v.size)) p).0, ok.note_in))
      | inr e ↦ e
    ]

cleaned-pending :
    (l : Ledger) → release_pending (record l { cleanup_complete = true }) ≡ release_pending l
unfolding release_pending
cleaned-pending l = refl

next_note : (n : ℕ) (l : Ledger) → Left n max_voices l → Left (n + 1) 0 l
next_note n l q = record {
  left = λ i small p.
      let r = q.left i small p in (omega (arith, r.1 small), λ k. absurd (omega arith));
}

module _ {C : Type 0} (sink : NoteEventSink C) (h : IsHonest sink) where
  -- An accepted push leaves the ledger alone.
  pub push-honest :
      (t : VoiceTransition) (channel : ℕ) (c : C) (l : Ledger)
      → (push sink t channel c l).0 ≡ true
      → (push sink t channel c l).2 ≡ l
  unfolding push
  push-honest t channel c l ok = go sink.push h.honest ok
    where
      go :
          (p : Option (C → VoiceTransition → ℕ → Reply C))
          → HonestPush p
          → (push (record { push = p }) t channel c l).0 ≡ true
          → (push (record { push = p }) t channel c l).2 ≡ l
      go none hp e = ground arith
      go (some f) hp e = ground (arith, hp c t channel)

  retry_slots-Left :
      (n slot left : ℕ) (c : C) (l : Ledger)
      → Left n slot l
      → slot + left ≡ max_voices
      → (retry_slots sink n slot left c l).0 ≡ true
      → Left n max_voices (retry_slots sink n slot left c l).2
  unfolding retry_slots
  retry_slots-Left n slot zero c l q s ok = record {
    left = λ i small p. let r = q.left i small p in (r.0, λ k. r.1 (omega arith));
  }
  retry_slots-Left n slot (suc left) c l q s ok =
      let v = voice_at l slot in
      elim (Bool-cases (not v.pending_release || not (v.note == n))) [
        | inl skip ↦ rw skip (
            retry_slots-Left n (slot + 1) left c l (skip-Left n slot l skip q) (omega arith)
              (rw skip at ok))
        | inr here ↦ elim (Bool-cases (push sink (release_of v n) v.channel c l).0) [
          | inl sent ↦
              let same = push-honest (release_of v n) v.channel c l sent in
              rw (here, sent, same)
                (retry_slots-Left n (slot + 1) left _ _ (clear_voice-Left n slot l q) (omega arith)
                  (rw (here, sent, same) at ok))
          | inr no_ ↦ absurd (false≢true (rw (here, no_) at ok))
        ]
      ]

  retry_slots-Stopped :
      (n slot left : ℕ) (c : C) (l : Ledger)
      → length l.voices ≡ max_voices
      → slot + left ≤ max_voices
      → (retry_slots sink n slot left c l).0 ≡ false
      → Stopped (retry_slots sink n slot left c l).2
  unfolding retry_slots
  retry_slots-Stopped n slot zero c l z s e = absurd (false≢true (sym e))
  retry_slots-Stopped n slot (suc left) c l z s e =
      let v = voice_at l slot in
      elim (Bool-cases (not v.pending_release || not (v.note == n))) [
        | inl skip ↦
            rw skip (retry_slots-Stopped n (slot + 1) left c l z (omega arith) (rw skip at e))
        | inr here ↦ elim (Bool-cases (push sink (release_of v n) v.channel c l).0) [
          | inl sent ↦
              let same = push-honest (release_of v n) v.channel c l sent in
              rw (here, sent, same)
                (retry_slots-Stopped n (slot + 1) left _ _ (clear_voice-length slot l z)
                  (omega arith) (rw (here, sent, same) at e))
          | inr no_ ↦
              let l' = (push sink (release_of v n) v.channel c l).2 in
              let b = enter_blocked-pending l' slot (
                push-pending sink (release_of v n) v.channel slot c l (omega arith)
                  (ground arith)) in
              rw (here, no_) (record { pending = b.0; blocked = b.1; unclean = b.2 })
        ]
      ]

  retry_slots-blocked :
      (n slot left : ℕ) (c : C) (l : Ledger)
      → (retry_slots sink n slot left c l).0 ≡ true
      → (retry_slots sink n slot left c l).2.output_blocked ≡ l.output_blocked
  unfolding retry_slots clear_voice
  retry_slots-blocked n slot zero c l ok = refl
  retry_slots-blocked n slot (suc left) c l ok =
      let v = voice_at l slot in
      elim (Bool-cases (not v.pending_release || not (v.note == n))) [
        | inl skip ↦ rw skip (retry_slots-blocked n (slot + 1) left c l (rw skip at ok))
        | inr here ↦ elim (Bool-cases (push sink (release_of v n) v.channel c l).0) [
          | inl sent ↦
              let same = push-honest (release_of v n) v.channel c l sent in
              rw (here, sent, same)
                (retry_slots-blocked n (slot + 1) left _ (clear_voice slot l)
                  (rw (here, sent, same) at ok))
          | inr no_ ↦ absurd (false≢true (rw (here, no_) at ok))
        ]
      ]

  -- What the loop over the notes leaves, by its answer.
  record Retried (before : Bool) (r : Outcome C) : Type 0 where
    pending : release_pending r.2 ≡ not r.0
    complete : r.2.cleanup_complete ≡ r.0
    blocked : r.2.output_blocked ≡ before || not r.0

  retry_notes-Retried :
      (n left : ℕ) (c : C) (l : Ledger)
      → IsValid l
      → Left n 0 l
      → n + left ≡ 128
      → Retried l.output_blocked (retry_notes sink n left c l)
  unfolding retry_notes
  retry_notes-Retried n zero c l v q e = record {
    pending = cleaned-pending l ∙ nothing-Left l v q (omega arith);
    complete = refl;
    blocked = ground arith;
  }
  retry_notes-Retried n (suc left) c l v q e =
      let r = retry_slots sink n 0 max_voices c l in
      elim (Bool-cases r.0) [
        | inl ok ↦ rw ok (
            subst (λ b. Retried b (retry_notes sink (n + 1) left r.1 r.2))
              (retry_slots-blocked n 0 max_voices c l ok)
              (retry_notes-Retried (n + 1) left r.1 r.2
                (retry_slots-Keeps (IsValid-Keeps sink) n 0 max_voices c l v (omega arith))
                (next_note n r.2 (retry_slots-Left n 0 max_voices c l q (omega arith) ok))
                (omega arith)))
        | inr no_ ↦
            let s = retry_slots-Stopped n 0 max_voices c l v.size (omega arith) no_ in
            rw no_ (record {
              pending = s.pending;
              complete = s.unclean;
              blocked = ground (arith, s.blocked);
            })
      ]

  -- For a valid ledger and a sink that never both takes an event and reports a failure,
  -- `retry_pending_releases` returns true exactly if no release is pending afterwards; then the
  -- cleanup is complete and the block as it was. If it returns false then the ledger is blocked and
  -- the cleanup is not complete.
  pub retry_pending_releases_lem :
      (c : C) (l : Ledger)
      → IsValid l
      → let (ok, c', l') = retry_pending_releases sink c l in
        (release_pending l' ≡ not ok)
        × (l'.cleanup_complete ≡ ok)
        × (l'.output_blocked ≡ l.output_blocked || not ok)
  unfolding retry_pending_releases
  retry_pending_releases_lem c l v = elim (Bool-cases (release_pending l)) [
    | inl e ↦
        let r = retry_notes-Retried 0 128 c l v (start l) refl in
        rw e (r.pending, r.complete, r.blocked)
    | inr e ↦ rw e (cleaned-pending l ∙ e, refl, ground arith)
  ]
    where
      start : (l : Ledger) → Left 0 0 l
      start l = record { left = λ i small p. (omega arith, λ k. absurd (omega arith)) }
