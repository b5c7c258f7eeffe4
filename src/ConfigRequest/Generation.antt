-- ===== src/ConfigRequest/Generation.antt =====
-- Generations are compared round the 64-bit counter.
use polyphonic_audio_to_midi.Prelude.{ℕ, ◌+◌, ◌-◌, ◌%◌, ◌^◌, ◌≤◌, ◌<◌, ◌≡◌, ◌⊎◌, true, false, arith}
use polyphonic_audio_to_midi.ConfigRequest.{generation_newer}

-- How far a generation is behind another, round the counter.
abbrev pub behind : ℕ → ℕ → ℕ
behind a b = (a + 2 ^ 64 - b) % 2 ^ 64

generation_newer_asymm :
    (a b : ℕ) → a < 2 ^ 64 → b < 2 ^ 64 → generation_newer a b ≡ true → generation_newer b a ≡ false
unfolding generation_newer
generation_newer_asymm a b ha hb p = ground arith

generation_newer_trans :
    (a b c : ℕ)
    → a < 2 ^ 64
    → b < 2 ^ 64
    → c < 2 ^ 64
    → generation_newer a b ≡ true
    → generation_newer b c ≡ true
    → behind a b + behind b c < 2 ^ 63
    → generation_newer a c ≡ true
unfolding generation_newer
generation_newer_trans a b c ha hb hc p q near = ground arith

generation_newer_total :
    (a b : ℕ)
    → a < 2 ^ 64
    → b < 2 ^ 64
    → generation_newer a b ≡ false
    → generation_newer b a ≡ false
    → (a ≡ b) ⊎ (behind a b ≡ 2 ^ 63)
unfolding generation_newer
generation_newer_total a b ha hb p q = ground arith

-- Of 64-bit generations: two are never newer than each other; if neither is newer than the other,
-- they are equal or exactly half the range apart; and one that is newer than a second, which is
-- newer than a third, is newer than the third if the two distances add up to less than half the
-- range.
pub generation_newer_order :
    (a b c : ℕ)
    → a < 2 ^ 64
    → b < 2 ^ 64
    → c < 2 ^ 64
    → (generation_newer a b ≡ true → generation_newer b a ≡ false)
      × (generation_newer a b ≡ false
          → generation_newer b a ≡ false
          → (a ≡ b) ⊎ (behind a b ≡ 2 ^ 63))
      × (generation_newer a b ≡ true
          → generation_newer b c ≡ true
          → behind a b + behind b c < 2 ^ 63
          → generation_newer a c ≡ true)
generation_newer_order a b c ha hb hc = (
  λ p. generation_newer_asymm a b ha hb p,
  λ p q. generation_newer_total a b ha hb p q,
  λ p q near. generation_newer_trans a b c ha hb hc p q near,
)

-- Counting up from any generation, by less than half the range, gives a newer one.
pub generation_newer_add :
    (g k : ℕ) → g < 2 ^ 64 → 1 ≤ k → k < 2 ^ 63 → generation_newer ((g + k) % 2 ^ 64) g ≡ true
unfolding generation_newer
generation_newer_add g k hg lo hi = ground arith
