-- ===== src/StateImage/Xor.antt =====
-- The exclusive or of numbers, digit by digit: its bounds, and that it can be undone.
use Prim.Native.Nat.{bit_xor, bit_xor-bitwise, digits, differ}
use native.Mathlib.Nat.{pow-suc}
use polyphonic_audio_to_midi.Prelude.{
  ℕ, zero, suc, ◌+◌, ◌*◌, ◌/◌, ◌%◌, ◌^◌, ◌≤◌, ◌<◌, ◌≡◌, refl, sym, ap, ◌∙◌, arith,
}

abbrev by_digits : ℕ → ℕ → ℕ → ℕ
by_digits count a b = digits (λ d. d) differ count a b

-- Any count that is enough gives the same.
enough_digits : (m n a b : ℕ) → a ≤ m → a ≤ n → by_digits m a b ≡ by_digits n a b
enough_digits zero zero a b p q = refl
enough_digits zero (suc n) zero b p q = refl
enough_digits zero (suc n) (suc a) b p q = absurd (omega arith)
enough_digits (suc m) zero zero b p q = refl
enough_digits (suc m) zero (suc a) b p q = absurd (omega arith)
enough_digits (suc m) (suc n) zero b p q = refl
enough_digits (suc m) (suc n) (suc a) b p q =
    ap (λ r. r * 2 + differ (suc a % 2) (b % 2))
      (enough_digits m n (suc a / 2) (b / 2) (omega arith) (omega arith))

zero-bit_xor : (b : ℕ) → bit_xor 0 b ≡ b
zero-bit_xor b = bit_xor-bitwise 0 b

-- The lowest digit apart.
bit_xor_halves : (a b : ℕ) → bit_xor a b ≡ bit_xor (a / 2) (b / 2) * 2 + differ (a % 2) (b % 2)
bit_xor_halves zero b = omega (arith, zero-bit_xor b, zero-bit_xor (b / 2))
bit_xor_halves (suc a) b =
    bit_xor-bitwise (suc a) b
    ∙ ap (λ r. r * 2 + differ (suc a % 2) (b % 2))
        (enough_digits a (suc a / 2) (suc a / 2) (b / 2) (omega arith) (omega arith)
          ∙ sym (bit_xor-bitwise (suc a / 2) (b / 2)))

differ_sum : (x y : ℕ) → x < 2 → y < 2 → differ x y ≡ (x + y) % 2
differ_sum zero y p q = omega arith
differ_sum (suc zero) zero p q = refl
differ_sum (suc zero) (suc zero) p q = refl
differ_sum (suc zero) (suc (suc y)) p q = absurd (omega arith)
differ_sum (suc (suc x)) y p q = absurd (omega arith)

-- The lowest digit is that of the sum.
bit_xor_step : (a b : ℕ) → bit_xor a b ≡ bit_xor (a / 2) (b / 2) * 2 + (a % 2 + b % 2) % 2
bit_xor_step a b =
    bit_xor_halves a b
    ∙ ap (λ d. bit_xor (a / 2) (b / 2) * 2 + d)
        (differ_sum (a % 2) (b % 2) (omega arith) (omega arith))

pub bit_xor-lt : (k a b : ℕ) → a < 2 ^ k → b < 2 ^ k → bit_xor a b < 2 ^ k
bit_xor-lt zero a b h g =
    let none : a ≡ 0 = omega (arith, h) in rw none (omega (arith, zero-bit_xor b, g))
bit_xor-lt (suc k) a b h g = omega (
  arith,
  bit_xor_step a b,
  pow-suc 2 k,
  bit_xor-lt k (a / 2) (b / 2) (omega (arith, h, pow-suc 2 k)) (omega (arith, g, pow-suc 2 k)),
)

-- A number with the digit `k` set and those above it clear sets that digit of a number below it.
pub bit_xor_high : (k x p : ℕ) → x < 2 ^ k → 2 ^ k ≤ p → p < 2 ^ suc k → 2 ^ k ≤ bit_xor x p
bit_xor_high zero x p h lo hi =
    let none : x ≡ 0 = omega (arith, h) in rw none (omega (arith, zero-bit_xor p, lo))
bit_xor_high (suc k) x p h lo hi = omega (
  arith,
  bit_xor_step x p,
  pow-suc 2 k,
  pow-suc 2 (suc k),
  bit_xor_high k (x / 2) (p / 2) (omega (arith, h, pow-suc 2 k)) (omega (arith, lo, pow-suc 2 k))
      (omega (arith, hi, pow-suc 2 k, pow-suc 2 (suc k))),
)

pub bit_xor-injective_left :
    (k a a' b : ℕ) → a < 2 ^ k → a' < 2 ^ k → bit_xor a b ≡ bit_xor a' b → a ≡ a'
bit_xor-injective_left zero a a' b h g e = omega (arith, h, g)
bit_xor-injective_left (suc k) a a' b h g e =
    let halves : a / 2 ≡ a' / 2 =
      bit_xor-injective_left k (a / 2) (a' / 2) (b / 2) (omega (arith, h, pow-suc 2 k))
        (omega (arith, g, pow-suc 2 k)) (omega (arith, bit_xor_step a b, bit_xor_step a' b, e)) in
    omega (arith, bit_xor_step a b, bit_xor_step a' b, e, halves)

pub bit_xor-injective_right :
    (k a b b' : ℕ) → b < 2 ^ k → b' < 2 ^ k → bit_xor a b ≡ bit_xor a b' → b ≡ b'
bit_xor-injective_right zero a b b' h g e = omega (arith, h, g)
bit_xor-injective_right (suc k) a b b' h g e =
    let halves : b / 2 ≡ b' / 2 =
      bit_xor-injective_right k (a / 2) (b / 2) (b' / 2) (omega (arith, h, pow-suc 2 k))
        (omega (arith, g, pow-suc 2 k)) (omega (arith, bit_xor_step a b, bit_xor_step a b', e)) in
    omega (arith, bit_xor_step a b, bit_xor_step a b', e, halves)
