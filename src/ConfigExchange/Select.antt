-- ===== src/ConfigExchange/Select.antt =====
-- The slot that a publication takes: free, or else the ready one of the oldest generation.
use mathlib.Core.Path.{subst}
use polyphonic_audio_to_midi.Prelude.{
  ℕ, zero, suc, ◌+◌, ◌≤◌, ◌<◌, ◌≡◌, ◌≢◌, ◌∙◌, refl, ap, inl, inr, ◌⊎◌, true, not, Option, none,
  some, arith, ◌==◌, Bool-cases, if_elim, ==_iff,
}
use polyphonic_audio_to_midi.ConfigExchange.{
  PreparedSlotState, free, ready, same_state, slot_count, Exchange, is_ready, find_free,
  find_oldest, older, select_slot,
}
use polyphonic_audio_to_midi.ConfigExchange.Invariant.{same_state→≡, ≢_of}

-- A slot that a publication may take.
pub data IsOpen {A : Type 0} (e : Exchange A) : ℕ × PreparedSlotState → Type 0 where
  open_free : {i : ℕ} → i < slot_count → (e.slots i).state ≡ free → IsOpen e (i, free)
  open_ready : {i : ℕ} → i < slot_count → (e.slots i).state ≡ ready → IsOpen e (i, ready)

some_inj {ℓ} : {B : Type ℓ} (x y : B) → some x ≡ some y → x ≡ y
some_inj x y p = ap (λ o. elim o [ none ↦ x | some z ↦ z ]) p

none_left :
    (best : Option ℕ)
    → ◌≡◌ {A = Option (ℕ × PreparedSlotState)}
        (elim best [ none ↦ none | some o ↦ some (o, ready) ])
        none
    → best ≡ none
none_left none h = refl
none_left (some o) h = ground arith

module _ {A : Type 0} where
  find_free_lem :
      (e : Exchange A) (i left : ℕ)
      → i + left ≡ slot_count
      → (find_free e i left ≡ slot_count)
        ⊎ ((find_free e i left < slot_count) × ((e.slots (find_free e i left)).state ≡ free))
  unfolding find_free
  find_free_lem e i zero h = inl refl
  find_free_lem e i (suc left) h =
      if_elim (λ k. (k ≡ slot_count) ⊎ ((k < slot_count) × ((e.slots k).state ≡ free)))
        (same_state (e.slots i).state free) i (find_free e (i + 1) left)
        (λ p. inr (ground (arith, h), same_state→≡ (e.slots i).state free p))
        (λ _. find_free_lem e (i + 1) left (ground (arith, h)))

  find_free-none :
      (e : Exchange A) (i left j : ℕ)
      → i + left ≡ slot_count
      → find_free e i left ≡ slot_count
      → i ≤ j
      → j < slot_count
      → (e.slots j).state ≢ free
  unfolding find_free
  find_free-none e i zero j h n lo hi = ground arith
  find_free-none e i (suc left) j h n lo hi =
      if_elim (λ k. k ≡ slot_count → (e.slots j).state ≢ free) (same_state (e.slots i).state free) i
        (find_free e (i + 1) left) (λ _ m. ground (arith, m, h))
        (λ p m. elim (Bool-cases (i == j)) [
          | inl b ↦ λ k.
              ≢_of (e.slots i).state free p (ap (λ x. (e.slots x).state) ((==_iff i j).0 b) ∙ k)
          | inr b ↦ find_free-none e (i + 1) left j (ground (arith, h)) m (ground (arith, b, lo)) hi
        ])
        n

  free_found :
      (e : Exchange A)
      → not (find_free e 0 slot_count == slot_count) ≡ true
      → (find_free e 0 slot_count ≡ slot_count)
        ⊎ ((find_free e 0 slot_count < slot_count)
            × ((e.slots (find_free e 0 slot_count)).state ≡ free))
      → IsOpen e (find_free e 0 slot_count, free)
  free_found e n (inl m) = ground arith
  free_found e n (inr (lt, f)) = open_free lt f

  at_some : (e : Exchange A) (i c : ℕ) → IsOpen e (i, ready) → some i ≡ some c → IsOpen e (c, ready)
  at_some e i c o p = subst (λ k. IsOpen e (k, ready)) (ground (arith, p)) o

  older_lem :
      (e : Exchange A) (i : ℕ) (best : Option ℕ) (c : ℕ)
      → ((b : ℕ) → best ≡ some b → IsOpen e (b, ready))
      → IsOpen e (i, ready)
      → older e i best ≡ some c
      → IsOpen e (c, ready)
  unfolding older
  older_lem e i none c b o = at_some e i c o
  older_lem e i (some a) c b o =
      if_elim (λ n. n ≡ some c → IsOpen e (c, ready)) _ (some i) (some a) (λ _. at_some e i c o)
        (λ _. b c)

  find_oldest_lem :
      (e : Exchange A) (i left : ℕ) (best : Option ℕ) (o : ℕ)
      → i + left ≡ slot_count
      → ((b : ℕ) → best ≡ some b → IsOpen e (b, ready))
      → find_oldest e i left best ≡ some o
      → IsOpen e (o, ready)
  unfolding find_oldest
  find_oldest_lem e i zero best o h b r = b o r
  find_oldest_lem e i (suc left) best o h b r =
      find_oldest_lem e (i + 1) left _ o (ground (arith, h))
        (λ c.
          if_elim (λ n. n ≡ some c → IsOpen e (c, ready)) (is_ready e i) (older e i best) best
            (λ p.
              older_lem e i best c b
                (open_ready (ground (arith, h)) (same_state→≡ (e.slots i).state ready p)))
            (λ _. b c))
        r

  -- The slot that is taken is open; that there is none means that every slot is claimed or active.
  after_oldest :
      (e : Exchange A) (p : ℕ × PreparedSlotState) (best : Option ℕ)
      → ((c : ℕ) → best ≡ some c → IsOpen e (c, ready))
      → elim best [ none ↦ none | some o ↦ some (o, ready) ] ≡ some p
      → IsOpen e p
  after_oldest e p none b h = ground arith
  after_oldest e p (some o) b h = subst (IsOpen e) (some_inj (o, ready) p h) (b o refl)

  pub select_slot-IsOpen :
      (e : Exchange A) (p : ℕ × PreparedSlotState) → select_slot e ≡ some p → IsOpen e p
  unfolding select_slot
  select_slot-IsOpen e p =
      if_elim (λ o. o ≡ some p → IsOpen e p) (not (find_free e 0 slot_count == slot_count))
        (some (find_free e 0 slot_count, free)) _
        (λ n h.
          subst (IsOpen e) (some_inj (find_free e 0 slot_count, free) p h)
            (free_found e n (find_free_lem e 0 slot_count refl)))
        (λ _.
          after_oldest e p (find_oldest e 0 slot_count none)
            (λ c. find_oldest_lem e 0 slot_count none c refl (λ b n. ground (arith, n))))

  older-found : (e : Exchange A) (i : ℕ) (best : Option ℕ) → older e i best ≢ none
  unfolding older
  older-found e i none = λ h. ground arith
  older-found e i (some o) =
      if_elim (λ n. n ≢ none) _ (some i) (some o) (λ _ h. ground arith) (λ _ h. ground arith)

  find_oldest-none :
      (e : Exchange A) (i left : ℕ) (best : Option ℕ) (j : ℕ)
      → i + left ≡ slot_count
      → find_oldest e i left best ≡ none
      → (best ≡ none) × (i ≤ j → j < slot_count → (e.slots j).state ≢ ready)
  unfolding find_oldest
  find_oldest-none e i zero best j h n = (n, λ lo hi. ground arith)
  find_oldest-none e i (suc left) best j h n =
      if_elim
        (λ b.
          b ≡ none
          → (i + 1 ≤ j → j < slot_count → (e.slots j).state ≢ ready)
          → (best ≡ none) × (i ≤ j → j < slot_count → (e.slots j).state ≢ ready))
        (is_ready e i) (older e i best) best (λ _ m. ground (arith, older-found e i best m))
        (λ p m k. (
          m,
          λ lo hi. elim (Bool-cases (i == j)) [
            | inl b ↦ λ q.
                ≢_of (e.slots i).state ready p (ap (λ x. (e.slots x).state) ((==_iff i j).0 b) ∙ q)
            | inr b ↦ k (ground (arith, b, lo)) hi
          ],
        ))
        (find_oldest-none e (i + 1) left _ j (ground (arith, h)) n).0
        (find_oldest-none e (i + 1) left _ j (ground (arith, h)) n).1

  not-IsOpen :
      (e : Exchange A) (p : ℕ × PreparedSlotState)
      → find_free e 0 slot_count ≡ slot_count
      → find_oldest e 0 slot_count none ≡ none
      → ¬ IsOpen e p
  not-IsOpen e p n m (open_free {i} lt h) =
      find_free-none e 0 slot_count i refl n (ground arith) lt h
  not-IsOpen e p n m (open_ready {i} lt h) =
      (find_oldest-none e 0 slot_count none i refl m).1 (ground arith) lt h

  pub select_slot-none :
      (e : Exchange A) (p : ℕ × PreparedSlotState) → select_slot e ≡ none → ¬ IsOpen e p
  unfolding select_slot
  select_slot-none e p =
      if_elim (λ o. o ≡ none → ¬ IsOpen e p) (not (find_free e 0 slot_count == slot_count))
        (some (find_free e 0 slot_count, free)) _ (λ _ h o. ground (arith, h))
        (λ n h. not-IsOpen e p (ground (arith, n)) (none_left _ h))
