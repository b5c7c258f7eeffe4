-- ===== src/Ledger/Invariant.antt =====
-- The invariant of the ledger, and the updates of a voice that the calls are made of.
use polyphonic_audio_to_midi.Prelude.{
  ◌==◌, ltb, ◌||◌, ℕ, ◌≤◌, ◌<◌, ◌≡◌, refl, true, false, arith, length, length-set, length-map, All,
  All-set, All-map, All-get_or, count_if, count_if-set, count_if-map, count_if-lt-length,
  get_or-map,
}
use polyphonic_audio_to_midi.Types.{VoiceTransition, max_voices, unassigned_voice_id}
use polyphonic_audio_to_midi.Ledger.{
  Ledger, ActiveVoice, free_voice, mark_voice, request_release_all, enter_blocked, valid_transition,
}
use polyphonic_audio_to_midi.Ledger.Delivery.{voice_at, clear_voice, mark_pending, start_voice}

-- `kUnassignedVoiceId`, or a lane.
abbrev pub IsVoiceId : ℕ → Type 0
IsVoiceId n = (n == unassigned_voice_id || ltb n max_voices) ≡ true

-- A release is pending for active voices only, and an active voice has a MIDI note and channel.
pub record VoiceOk (v : ActiveVoice) : Type 0 where
  pub pending_active : v.pending_release ≡ true → v.active ≡ true
  pub note_in : v.note ≤ 127
  pub id_in : IsVoiceId v.voice_id
  pub channel_in : v.active ≡ true → (1 ≤ v.channel) × (v.channel ≤ 16)

abbrev pub QueuedOk : VoiceTransition → Type 0
QueuedOk t = valid_transition t ≡ true

-- Eight voices, of which `active_count_` are active; a queue of valid transitions that fits the
-- storage.
pub record IsValid (l : Ledger) : Type 0 where
  pub size : length l.voices ≡ max_voices
  pub counted : l.active_count ≡ count_if (λ v. v.active) l.voices
  pub voices_ok : All VoiceOk l.voices
  pub queue_fits : length l.queue ≤ l.capacity
  pub queue_ok : All QueuedOk l.queue

mark_voice-VoiceOk : (v : ActiveVoice) → VoiceOk v → VoiceOk (mark_voice v)
mark_voice-VoiceOk v h = record {
  pending_active = λ p. ground (arith, h.pending_active);
  note_in = h.note_in;
  id_in = h.id_in;
  channel_in = h.channel_in;
}

pub request_release_all-IsValid : {l : Ledger} → IsValid l → IsValid (request_release_all l)
unfolding request_release_all
request_release_all-IsValid {l} v = record {
  size = omega (arith, length-map l.voices mark_voice, v.size);
  counted = omega (arith, count_if-map (λ v. v.active) mark_voice l.voices (λ x. refl), v.counted);
  voices_ok = All-map VoiceOk mark_voice l.voices mark_voice-VoiceOk v.voices_ok;
  queue_fits = v.queue_fits;
  queue_ok = v.queue_ok;
}

pub enter_blocked-IsValid : {l : Ledger} → IsValid l → IsValid (enter_blocked l)
unfolding enter_blocked
enter_blocked-IsValid {l} v =
    request_release_all-IsValid {l = record l { output_blocked = true; cleanup_complete = false }}
      (record {
        size = v.size;
        counted = v.counted;
        voices_ok = v.voices_ok;
        queue_fits = v.queue_fits;
        queue_ok = v.queue_ok;
      })

pub voice_at-enter_blocked :
    (l : Ledger) (slot : ℕ)
    → slot < length l.voices
    → voice_at (enter_blocked l) slot ≡ mark_voice (voice_at l slot)
unfolding enter_blocked
voice_at-enter_blocked l slot h = get_or-map mark_voice l.voices slot free_voice h

free_voice-VoiceOk : VoiceOk free_voice
free_voice-VoiceOk = record {
  pending_active = λ e. e;
  note_in = omega arith;
  id_in = refl;
  channel_in = λ e. absurd (cc);
}

-- The end of a note in an active voice.
pub clear_voice-IsValid :
    (slot : ℕ) {l : Ledger}
    → IsValid l
    → slot < max_voices
    → (voice_at l slot).active ≡ true
    → IsValid (clear_voice slot l)
unfolding clear_voice
clear_voice-IsValid slot {l} v h on = record {
  size = omega (arith, length-set l.voices slot free_voice, v.size);
  counted = ground (
    arith,
    count_if-set (λ v. v.active) l.voices slot free_voice free_voice (omega (arith, v.size)),
    v.counted,
    on,
  );
  voices_ok = All-set VoiceOk l.voices slot free_voice v.voices_ok free_voice-VoiceOk;
  queue_fits = v.queue_fits;
  queue_ok = v.queue_ok;
}

pub mark_pending-IsValid :
    (slot : ℕ) {l : Ledger}
    → IsValid l
    → slot < max_voices
    → (voice_at l slot).active ≡ true
    → IsValid (mark_pending slot l)
unfolding mark_pending
mark_pending-IsValid slot {l} v h on = record {
  size = omega (arith, length-set l.voices slot marked, v.size);
  counted = ground (
    arith,
    count_if-set (λ v. v.active) l.voices slot marked free_voice (omega (arith, v.size)),
    v.counted,
    on,
  );
  voices_ok = All-set VoiceOk l.voices slot marked v.voices_ok (record {
    pending_active = λ e. on;
    note_in = old.note_in;
    id_in = old.id_in;
    channel_in = old.channel_in;
  });
  queue_fits = v.queue_fits;
  queue_ok = v.queue_ok;
}
  where
    marked : ActiveVoice
    marked = record (voice_at l slot) { pending_release = true }

    old : VoiceOk (voice_at l slot)
    old = All-get_or VoiceOk l.voices slot free_voice v.voices_ok (omega (arith, v.size))

-- A note that starts in a free voice.
pub start_voice-IsValid :
    (slot : ℕ) (t : VoiceTransition) (channel : ℕ) {l : Ledger}
    → IsValid l
    → slot < max_voices
    → (voice_at l slot).active ≡ false
    → t.note ≤ 127
    → IsVoiceId t.voice_id
    → 1 ≤ channel
    → channel ≤ 16
    → IsValid (start_voice slot t channel l)
unfolding start_voice
start_voice-IsValid slot t channel {l} v h off n id lo hi = record {
  size = omega (arith, length-set l.voices slot started, v.size);
  counted = ground (
    arith,
    count_if-set (λ v. v.active) l.voices slot started free_voice (omega (arith, v.size)),
    count_if-lt-length (λ v. v.active) l.voices slot free_voice (omega (arith, v.size)) off,
    v.counted,
    v.size,
    off,
  );
  voices_ok = All-set VoiceOk l.voices slot started v.voices_ok (record {
    pending_active = λ e. absurd (cc);
    note_in = n;
    id_in = id;
    channel_in = λ e. (lo, hi);
  });
  queue_fits = v.queue_fits;
  queue_ok = v.queue_ok;
}
  where
    started : ActiveVoice
    started = record {
      active = true;
      pending_release = false;
      note = t.note;
      channel = channel;
      voice_id = t.voice_id;
    }
