-- ===== src/Ledger/Sorted.antt =====
-- The queue is sorted at all times: by offset, then note-offs before note-ons, then by sequence.
use mathlib.Core.List.{Perm}
use mathlib.Core.List.Perm
use mathlib.Core.List.{append-nil}
use polyphonic_audio_to_midi.Prelude.{
  ℕ, suc, ◌<◌, ◌≡◌, refl, sym, inl, inr, true, false, not, ◌||◌, List, [], ◌∷◌, arith,
  if◌then◌else◌, length, All, Bool-cases,
}
use polyphonic_audio_to_midi.Types.{VoiceTransition}
use polyphonic_audio_to_midi.Ledger.{Ledger, transition_before, queue_transition, accepts}
use polyphonic_audio_to_midi.Ledger.Invariant.{IsValid, QueuedOk}
use polyphonic_audio_to_midi.Ledger.Order.{
  onto, insert, queue_transition-accepted, onto-perm, length-onto, All-onto,
}

-- `x` may stand right before `ys`.
abbrev pub Before : VoiceTransition → List VoiceTransition → Type 0
Before x [] = Unit {0}
Before x (y ∷ ys) = transition_before y x ≡ false

-- No transition goes before the one that precedes it.
abbrev pub IsSorted : List VoiceTransition → Type 0
IsSorted [] = Unit {0}
IsSorted (x ∷ xs) = Before x xs × IsSorted xs

-- The same of a list with the latest first.
abbrev After : VoiceTransition → List VoiceTransition → Type 0
After x [] = Unit {0}
After x (y ∷ ys) = transition_before x y ≡ false

abbrev IsDescending : List VoiceTransition → Type 0
IsDescending [] = Unit {0}
IsDescending (x ∷ xs) = After x xs × IsDescending xs

abbrev Joins : List VoiceTransition → List VoiceTransition → Type 0
Joins [] ys = Unit {0}
Joins (x ∷ xs) ys = Before x ys

Joins-After : (x : VoiceTransition) (xs ys : List VoiceTransition) → After x xs → Joins xs (x ∷ ys)
Joins-After x [] ys h = tt
Joins-After x (y ∷ xs) ys h = h

After-Joins : (x : VoiceTransition) (xs ys : List VoiceTransition) → Joins xs (x ∷ ys) → After x xs
After-Joins x [] ys h = tt
After-Joins x (y ∷ xs) ys h = h

onto-IsSorted :
    (xs ys : List VoiceTransition)
    → IsDescending xs
    → IsSorted ys
    → Joins xs ys
    → IsSorted (onto xs ys)
onto-IsSorted [] ys d s j = s
onto-IsSorted (x ∷ xs) ys d s j = onto-IsSorted xs (x ∷ ys) d.1 (j, s) (Joins-After x xs ys d.0)

onto-IsDescending :
    (xs ys : List VoiceTransition)
    → IsSorted xs
    → IsDescending ys
    → Joins ys xs
    → IsDescending (onto xs ys)
onto-IsDescending [] ys s d j = d
onto-IsDescending (x ∷ xs) ys s d j =
    onto-IsDescending xs (x ∷ ys) s.1 (After-Joins x ys xs j, d) s.0

transition_before-asymm :
    (x y : VoiceTransition) → transition_before x y ≡ true → transition_before y x ≡ false
unfolding transition_before
transition_before-asymm x y h = ground arith

insert-After :
    (t x : VoiceTransition) (xs : List VoiceTransition)
    → transition_before t x ≡ true
    → After x xs
    → After x (insert t xs)
unfolding insert
insert-After t x [] h a = transition_before-asymm t x h
insert-After t x (y ∷ xs) h a = elim (Bool-cases (transition_before t y)) [
  | inl e ↦ rw e a
  | inr e ↦ rw e (transition_before-asymm t x h)
]

insert-IsDescending :
    (t : VoiceTransition) (xs : List VoiceTransition) → IsDescending xs → IsDescending (insert t xs)
unfolding insert
insert-IsDescending t [] d = (tt, tt)
insert-IsDescending t (x ∷ xs) d = elim (Bool-cases (transition_before t x)) [
  | inl e ↦ rw e (insert-After t x xs e d.0, insert-IsDescending t xs d.1)
  | inr e ↦ rw e (e, d)
]

insert-perm : (t : VoiceTransition) (xs : List VoiceTransition) → Perm (insert t xs) (t ∷ xs)
unfolding insert
insert-perm t [] = Perm.refl _
insert-perm t (x ∷ xs) = elim (Bool-cases (transition_before t x)) [
  | inl e ↦ rw e (Perm.trans (Perm.cons x (insert-perm t xs)) (Perm.swap t x xs))
  | inr e ↦ rw e (Perm.refl _)
]

length-insert :
    (t : VoiceTransition) (xs : List VoiceTransition) → length (insert t xs) ≡ suc (length xs)
unfolding insert
length-insert t [] = refl
length-insert t (x ∷ xs) = ground (arith, length-insert t xs)

All-insert :
    (t : VoiceTransition) (xs : List VoiceTransition)
    → QueuedOk t
    → All QueuedOk xs
    → All QueuedOk (insert t xs)
unfolding insert
All-insert t [] q a = (q, tt)
All-insert t (x ∷ xs) q a = elim (Bool-cases (transition_before t x)) [
  | inl e ↦ rw e (a.0, All-insert t xs q a.1)
  | inr e ↦ rw e (q, a)
]

accepts-QueuedOk :
    (l : Ledger) (t : VoiceTransition) (frames : ℕ)
    → accepts l t frames ≡ true
    → QueuedOk t × (length l.queue < l.capacity)
unfolding accepts
accepts-QueuedOk l t frames a = ground arith

queue_transition-refused :
    (t : VoiceTransition) (frames : ℕ) (l : Ledger)
    → accepts l t frames ≡ false
    → queue_transition t frames l ≡ (false, record l { invalid_transition = true })
unfolding queue_transition
queue_transition-refused t frames l a = simp a

-- For a sorted queue, `queue_transition` says whether it accepts the transition; the queue is sorted
-- again and holds the accepted transition besides the old ones, or the old ones alone; a refusal is
-- recorded as an invalid transition, and nothing else is changed.
pub queue_transition_lem :
    (t : VoiceTransition) (frames : ℕ) (l : Ledger)
    → IsSorted l.queue
    → let (ok, l') = queue_transition t frames l in
      (ok ≡ accepts l t frames)
      × IsSorted l'.queue
      × Perm l'.queue (if ok then t ∷ l.queue else l.queue)
      × (l' ≡ record l { queue = l'.queue; invalid_transition = not ok || l.invalid_transition })
queue_transition_lem t frames l s = elim (Bool-cases (accepts l t frames)) [
  | inl a ↦ rw (queue_transition-accepted t frames l a) (sym a, sorted, holds_all, refl)
  | inr a ↦ rw (queue_transition-refused t frames l a) (sym a, s, Perm.refl _, refl)
]
  where
    r : List VoiceTransition
    r = onto l.queue []

    sorted : IsSorted (onto (insert t r) [])
    sorted =
        onto-IsSorted (insert t r) []
          (insert-IsDescending t r (onto-IsDescending l.queue [] s tt tt)) tt
          (Joins_nil (insert t r))
      where
        Joins_nil : (xs : List VoiceTransition) → Joins xs []
        Joins_nil [] = tt
        Joins_nil (x ∷ xs) = tt

    holds_all : Perm (onto (insert t r) []) (t ∷ l.queue)
    holds_all =
        Perm.trans (onto-nil (insert t r))
          (Perm.trans (insert-perm t r) (Perm.cons t (onto-nil l.queue)))
      where
        onto-nil : (xs : List VoiceTransition) → Perm (onto xs []) xs
        onto-nil xs = rw append-nil at (onto-perm xs [])

pub queue_transition-IsValid :
    (t : VoiceTransition) (frames : ℕ) {l : Ledger}
    → IsValid l
    → IsValid (queue_transition t frames l).1
queue_transition-IsValid t frames {l} v = elim (Bool-cases (accepts l t frames)) [
  | inr a ↦ rw (queue_transition-refused t frames l a) (record {
    size = v.size;
    counted = v.counted;
    voices_ok = v.voices_ok;
    queue_fits = v.queue_fits;
    queue_ok = v.queue_ok;
  })
  | inl a ↦
      let r = onto l.queue [] in
      let ok = accepts-QueuedOk l t frames a in
      rw (queue_transition-accepted t frames l a) (record {
        size = v.size;
        counted = v.counted;
        voices_ok = v.voices_ok;
        queue_fits =
            omega
              (arith, length-onto (insert t r) [], length-insert t r, length-onto l.queue [], ok.1);
        queue_ok =
            All-onto QueuedOk (insert t r) []
              (All-insert t r ok.0 (All-onto QueuedOk l.queue [] v.queue_ok tt)) tt;
      })
]
