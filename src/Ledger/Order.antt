-- ===== src/Ledger/Order.antt =====
-- `queue_transition` inserts into the sorted storage in place. Here it is an insertion into a list,
-- newest first, and the queue stays sorted.
use mathlib.Core.List.{Perm, perm_middle}
use mathlib.Core.List.Perm
use polyphonic_audio_to_midi.Prelude.{
  ℕ, suc, ◌+◌, ◌≡◌, refl, ap, sym, inl, inr, true, List, [], ◌∷◌, ◌++◌, arith, if◌then◌else◌,
  length, get_or, set, All, Bool-cases,
}
use polyphonic_audio_to_midi.Types.{VoiceTransition}
use polyphonic_audio_to_midi.Ledger.{Ledger, transition_before, shift_in, queue_transition, accepts}

-- `xs` reversed onto `ys`.
abbrev pub onto {ℓ} : {A : Type ℓ} → List A → List A → List A
onto [] ys = ys
onto (x ∷ xs) ys = onto xs (x ∷ ys)

-- The reference: into a list with the latest transition first, past those that `t` goes before.
unfoldable pub insert : VoiceTransition → List VoiceTransition → List VoiceTransition
insert t [] = t ∷ []
insert t (x ∷ xs) = if transition_before t x then x ∷ insert t xs else t ∷ x ∷ xs

module _ {ℓ} {A : Type ℓ} where
  get_or-onto :
      (xs ys : List A) (i n : ℕ) (d : A)
      → n ≡ length xs + i
      → get_or (onto xs ys) n d ≡ get_or ys i d
  get_or-onto [] ys i n d e = ap (λ k. get_or ys k d) (omega arith)
  get_or-onto (x ∷ xs) ys i n d e = get_or-onto xs (x ∷ ys) (suc i) n d (omega arith)

  set-onto :
      (xs ys : List A) (i n : ℕ) (v : A)
      → n ≡ length xs + i
      → set (onto xs ys) n v ≡ onto xs (set ys i v)
  set-onto [] ys i n v e = ap (λ k. set ys k v) (omega arith)
  set-onto (x ∷ xs) ys i n v e = set-onto xs (x ∷ ys) (suc i) n v (omega arith)

  pub length-onto : (xs ys : List A) → length (onto xs ys) ≡ length xs + length ys
  length-onto [] ys = omega arith
  length-onto (x ∷ xs) ys = omega (arith, length-onto xs (x ∷ ys))

  onto-onto : (xs ys zs : List A) → onto (onto xs ys) zs ≡ onto ys (xs ++ zs)
  onto-onto [] ys zs = refl
  onto-onto (x ∷ xs) ys zs = onto-onto xs (x ∷ ys) zs

  onto-append : (xs ys zs : List A) → onto xs ys ++ zs ≡ onto xs (ys ++ zs)
  onto-append [] ys zs = refl
  onto-append (x ∷ xs) ys zs = onto-append xs (x ∷ ys) zs

  pub onto-perm : (xs ys : List A) → Perm (onto xs ys) (xs ++ ys)
  onto-perm [] ys = Perm.refl ys
  onto-perm (x ∷ xs) ys = Perm.trans (onto-perm xs (x ∷ ys)) (perm_middle xs ys)

  pub All-onto {κ} : (P : A → Type κ) (xs ys : List A) → All P xs → All P ys → All P (onto xs ys)
  All-onto P [] ys a b = b
  All-onto P (x ∷ xs) ys a b = All-onto P xs (x ∷ ys) a.1 (a.0, b)

-- The loop over the storage, with the elements below `position` in `xs`, latest first, is the
-- insertion.
shift_in-onto :
    (t hole_ : VoiceTransition) (xs ys : List VoiceTransition)
    → shift_in (length xs) t (onto xs (hole_ ∷ ys)) ≡ onto (insert t xs) ys
unfolding shift_in insert
shift_in-onto t hole_ [] ys = refl
shift_in-onto t hole_ (x ∷ xs) ys =
    let n = length xs in
    let previous : get_or (onto xs (x ∷ hole_ ∷ ys)) n t ≡ x =
      get_or-onto xs _ 0 n t (omega arith) in
    elim (Bool-cases (transition_before t x)) [
      | inl before ↦
          rw (previous, before, set-onto xs (x ∷ hole_ ∷ ys) 1 (suc n) x (omega arith))
            (shift_in-onto t x xs (x ∷ ys))
      | inr stays ↦ rw (previous, stays) (set-onto xs (x ∷ hole_ ∷ ys) 1 (suc n) t (omega arith))
    ]

shift_in-insert :
    (t : VoiceTransition) (q : List VoiceTransition)
    → shift_in (length q) t (q ++ t ∷ []) ≡ onto (insert t (onto q [])) []
shift_in-insert t q =
    let r = onto q [] in
    let split : q ++ t ∷ [] ≡ onto r (t ∷ []) = sym (onto-onto q [] (t ∷ [])) in
    let same : length q ≡ length r = omega (arith, length-onto q []) in
    rw (split, same) (shift_in-onto t t r [])

-- The call on a transition that it accepts.
pub queue_transition-accepted :
    (t : VoiceTransition) (frames : ℕ) (l : Ledger)
    → accepts l t frames ≡ true
    → queue_transition t frames l
      ≡ (true, record l { queue = onto (insert t (onto l.queue [])) [] })
unfolding queue_transition
queue_transition-accepted t frames l a =
    simp a (ap (λ q. (true, record l { queue = q })) (shift_in-insert t l.queue))
