-- ===== src/Ledger/Hold.antt =====
-- native/src/generated_note_ledger.cpp: what the updates of single voices and the end of a delivery
-- leave of the hold and of a block.
use polyphonic_audio_to_midi.Prelude.{ℕ, ◌≤◌, ◌≡◌, refl, Bool, true, false, arith}
use polyphonic_audio_to_midi.Types.{MidiRouting}
use polyphonic_audio_to_midi.Double.{Double, less}
use polyphonic_audio_to_midi.Ledger.{Ledger, enter_blocked, request_release_all}
use polyphonic_audio_to_midi.Ledger.Delivery.{
  clear_voice, mark_pending, finish_hold, quiet_peak, check_delivery,
}

-- What a release leaves of the flags: the hold and its counter, the recovery, the queue and a block.
pub record SameHold (old l : Ledger) : Type 0 where
  pub hold : l.panic_hold ≡ old.panic_hold
  pub recovery : l.recovery_requested ≡ old.recovery_requested
  pub calls : l.hold_calls_remaining ≡ old.hold_calls_remaining
  pub queue : l.queue ≡ old.queue
  pub block : old.output_blocked ≡ true → l.output_blocked ≡ true

pub enter_blocked-SameHold : (old l : Ledger) → SameHold old l → SameHold old (enter_blocked l)
unfolding enter_blocked request_release_all
enter_blocked-SameHold old l s = record {
  hold = s.hold;
  recovery = s.recovery;
  calls = s.calls;
  queue = s.queue;
  block = λ b. refl;
}

pub clear_voice-SameHold :
    (slot : ℕ) (old l : Ledger) → SameHold old l → SameHold old (clear_voice slot l)
unfolding clear_voice
clear_voice-SameHold slot old l s = record {
  hold = s.hold;
  recovery = s.recovery;
  calls = s.calls;
  queue = s.queue;
  block = s.block;
}

pub mark_pending-SameHold :
    (slot : ℕ) (old l : Ledger) → SameHold old l → SameHold old (mark_pending slot l)
unfolding mark_pending
mark_pending-SameHold slot old l s = record {
  hold = s.hold;
  recovery = s.recovery;
  calls = s.calls;
  queue = s.queue;
  block = s.block;
}

pub complete-SameHold :
    (old l : Ledger) → SameHold old l → SameHold old (record l { cleanup_complete = true })
complete-SameHold old l s = record {
  hold = s.hold;
  recovery = s.recovery;
  calls = s.calls;
  queue = s.queue;
  block = s.block;
}

pub check_delivery-SameHold :
    (routing : MidiRouting) (start_channel frames : ℕ) (old l : Ledger)
    → SameHold old l
    → SameHold old (check_delivery routing start_channel frames l)
check_delivery-SameHold routing start_channel frames old l s = record {
  hold = s.hold;
  recovery = s.recovery;
  calls = s.calls;
  queue = s.queue;
  block = s.block;
}

pub invalid-SameHold :
    (old l : Ledger) → SameHold old l → SameHold old (record l { invalid_transition = true })
invalid-SameHold old l s = record {
  hold = s.hold;
  recovery = s.recovery;
  calls = s.calls;
  queue = s.queue;
  block = s.block;
}

pub finish_hold-counts :
    (old : Ledger) (peak : Double) (finite_input supported_layout : Bool) (m : Ledger)
    → SameHold old m
    → old.panic_hold ≡ true
    → 1 ≤ old.hold_calls_remaining
    → ((finish_hold peak finite_input supported_layout m).panic_hold ≡ true)
      × ((finish_hold peak finite_input supported_layout m).output_blocked ≡ m.output_blocked)
unfolding finish_hold
finish_hold-counts old peak finite_input supported_layout m s hold calls =
    ground (arith, hold, calls, s.hold, s.calls)

pub finish_hold-unblocks :
    (old : Ledger) (peak : Double) (finite_input supported_layout : Bool) (m : Ledger)
    → SameHold old m
    → old.output_blocked ≡ true
    → (finish_hold peak finite_input supported_layout m).output_blocked ≡ false
    → (old.panic_hold ≡ true)
      × (old.recovery_requested ≡ true)
      × (old.hold_calls_remaining ≡ 0)
      × (less peak quiet_peak ≡ true)
unfolding finish_hold
finish_hold-unblocks old peak finite_input supported_layout m s block ends =
    ground (arith, ends, block, s.hold, s.calls, s.recovery, s.block block)
