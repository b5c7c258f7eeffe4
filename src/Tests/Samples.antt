-- ===== src/Tests/Samples.antt =====
-- A ledger in the middle of its work, and sinks for it.
use polyphonic_audio_to_midi.Prelude.{
  ℕ, zero, suc, All, refl, Bool, true, false, [], ◌∷◌, some, arith, replicate,
}
use polyphonic_audio_to_midi.Types.{VoiceTransition, TransitionKind, unassigned_voice_id}
use polyphonic_audio_to_midi.Ledger.{Ledger, ActiveVoice, free_voice, valid_transition}
use polyphonic_audio_to_midi.Ledger.Delivery.{NoteEventSink}
use polyphonic_audio_to_midi.Ledger.Invariant.{IsValid, VoiceOk}
use polyphonic_audio_to_midi.Ledger.Retry.{IsHonest}

abbrev pub off_60 : VoiceTransition
off_60 = record {
  sample_offset = 0;
  kind = TransitionKind.note_off;
  note = 60;
  velocity = 0;
  sequence = 0;
  voice_id = unassigned_voice_id;
}

abbrev pub on_64 : VoiceTransition
on_64 = record {
  sample_offset = 32;
  kind = TransitionKind.note_on;
  note = 64;
  velocity = 90;
  sequence = 1;
  voice_id = unassigned_voice_id;
}

-- The note-on behind the sounding note, and a note-off ahead of `on_64`.
abbrev pub on_60 : VoiceTransition
on_60 = record off_60 { kind = TransitionKind.note_on; velocity = 80 }

abbrev pub off_64 : VoiceTransition
off_64 = record off_60 { sample_offset = 32; note = 64; sequence = 2 }

abbrev pub sounding_60 : ActiveVoice
sounding_60 = record {
  active = true;
  pending_release = false;
  note = 60;
  channel = 1;
  voice_id = unassigned_voice_id;
}

-- Note 60 sounds; its end and the start of note 64 are queued.
abbrev pub sample : Ledger
sample = record {
  allocated = true;
  queue = off_60 ∷ on_64 ∷ [];
  capacity = 64;
  max_frames = 64;
  voices = sounding_60 ∷ replicate 7 free_voice;
  active_count = 1;
  invalid_transition = false;
  output_blocked = false;
  cleanup_complete = true;
  panic_hold = false;
  recovery_requested = false;
  hold_calls_remaining = 0;
}

pub sounding-VoiceOk : VoiceOk sounding_60
sounding-VoiceOk = record {
  pending_active = λ e. refl;
  note_in = omega arith;
  id_in = refl;
  channel_in = λ e. (omega arith, omega arith);
}

pub free-VoiceOk : VoiceOk free_voice
free-VoiceOk = record {
  pending_active = λ e. e;
  note_in = omega arith;
  id_in = refl;
  channel_in = λ e. ground arith;
}

All-free : (n : ℕ) → All VoiceOk (replicate n free_voice)
All-free zero = tt
All-free (suc n) = (free-VoiceOk, All-free n)

pub sample-IsValid : IsValid sample
unfolding valid_transition
sample-IsValid = record {
  size = refl;
  counted = refl;
  voices_ok = (sounding-VoiceOk, All-free 7);
  queue_fits = omega arith;
  queue_ok = (refl, (refl, tt));
}

-- The context counts the pushes; every other one is taken.
abbrev pub alternating : NoteEventSink Bool
alternating = record {
  push = some (λ c t channel. record {
    accepted = c;
    reported = false;
    context = elim c [ true ↦ false | false ↦ true ];
  });
}

pub alternating-IsHonest : IsHonest alternating
alternating-IsHonest = record { honest = λ c t channel e. refl }
