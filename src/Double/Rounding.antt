-- ===== src/Double/Rounding.antt =====
-- Rounding keeps the order: the nearest double of a larger fraction is not smaller.
use native.Mathlib.Nat.{
  pow-zero, pow-suc, one-le-pow, le-div_iff_mul-le, div-lt_iff_lt-mul, div-mul-le_self,
  div-div-eq-div-mul, mod-eq-sub-div-mul, pow-le-pow_right,
}
use native.Mathlib.Decide.{dec_lt}
use mathlib.Core.Path.{subst}
use polyphonic_audio_to_midi.Prelude.{
  ℕ, zero, suc, ◌+◌, ◌-◌, ◌*◌, ◌/◌, ◌%◌, ◌^◌, ◌≤◌, ◌<◌, ◌≡◌, refl, sym, ap, ◌∙◌, ◌&&◌, ◌||◌, ltb,
  leb, ◌==◌, if◌then◌else◌, arith, Bool-cases, inl, inr,
}
use polyphonic_audio_to_midi.Double.{infinity_bits}
use polyphonic_audio_to_midi.Double.Arith.{log2, round_even, nearest}

pub pow-add : (a b : ℕ) → 2 ^ (a + b) ≡ 2 ^ a * 2 ^ b
pow-add a zero = grind (arith, pow-zero 2)
pow-add a (suc b) = grind (arith, pow-add a b, pow-suc 2 (a + b), pow-suc 2 b)

pub div_mono : (k x y : ℕ) → x ≤ y → x / k ≤ y / k
div_mono zero x y h = omega arith
div_mono (suc k) x y h =
    (le-div_iff_mul-le (omega arith)).1 (omega (arith, div-mul-le_self x (suc k), h))

-- The highest bit of `n` is `k`.
abbrev IsTop : ℕ → ℕ → Type 0
IsTop n k = (2 ^ k ≤ n) × (n < 2 ^ suc k)

shifted-IsTop : (w n k : ℕ) → IsTop (n / 2 ^ w) k → IsTop n (w + k)
shifted-IsTop w n k (lo, hi) =
    let positive = one-le-pow w 2 (omega arith) in
    let below : 2 ^ k * 2 ^ w ≤ n = (le-div_iff_mul-le positive).0 lo in
    let above : n < 2 ^ suc k * 2 ^ w = (div-lt_iff_lt-mul positive).0 hi in
    let rewritten : n < 2 ^ k * 2 * 2 ^ w = rw (sym (pow-suc 2 k)) above in
    (
      grind (arith, below, pow-add w k),
      rw (pow-suc 2 (w + k), pow-add w k) (grind (arith, rewritten)),
    )

square : (steps : ℕ) → 2 ^ 2 ^ suc steps ≡ 2 ^ 2 ^ steps * 2 ^ 2 ^ steps
square steps =
    let twice : 2 ^ suc steps ≡ 2 ^ steps + 2 ^ steps = omega (arith, pow-suc 2 steps) in
    ap (λ k. 2 ^ k) twice ∙ pow-add (2 ^ steps) (2 ^ steps)

-- The highest bit of a number in the range.
log2-IsTop : (steps n : ℕ) → 1 ≤ n → n < 2 ^ 2 ^ steps → IsTop n (log2 steps n)
unfolding log2
log2-IsTop zero n lo hi = omega arith
log2-IsTop (suc steps) n lo hi = elim (Bool-cases (leb (2 ^ 2 ^ steps) n)) [
  | inl high ↦
      let positive = one-le-pow (2 ^ steps) 2 (omega arith) in
      rw high (
        shifted-IsTop (2 ^ steps) n (log2 steps (n / 2 ^ 2 ^ steps)) (
          log2-IsTop steps (n / 2 ^ 2 ^ steps)
            ((le-div_iff_mul-le positive).1 (ground (arith, high)))
            ((div-lt_iff_lt-mul positive).1 (ground (arith, hi, square steps)))))
  | inr low ↦ rw low (ground (arith, log2-IsTop steps n lo (ground (arith, low))))
]

-- Rounding a quotient gives it or the next number.
round_even-bounds : (n d : ℕ) → (n / d ≤ round_even n d) × (round_even n d ≤ n / d + 1)
unfolding round_even
round_even-bounds n d = ground arith

round_even_same :
    (q r r' d : ℕ)
    → r ≤ r'
    → (if ltb d (2 * r) || (2 * r == d && q % 2 == 1) then q + 1 else q)
      ≤ (if ltb d (2 * r') || (2 * r' == d && q % 2 == 1) then q + 1 else q)
round_even_same q r r' d h = ground arith

round_even_mono : (n n' d : ℕ) → n ≤ n' → round_even n d ≤ round_even n' d
unfolding round_even
round_even_mono n n' d h = elim (dec_lt (n / d) (n' / d)) [
  | yes less_quotient ↦ omega (arith, round_even-bounds n d, round_even-bounds n' d, less_quotient)
  | no other ↦
      let same : n / d ≡ n' / d = omega (arith, div_mono d n n' h, other) in
      let rest : n % d ≤ n' % d =
        omega (arith, mod-eq-sub-div-mul n d, mod-eq-sub-div-mul n' d, ap (λ q. q * d) same, h) in
      subst
        (λ q.
          round_even n d
          ≤ (if ltb d (2 * (n' % d)) || (2 * (n' % d) == d && q % 2 == 1) then q + 1 else q))
        same (round_even_same (n / d) (n % d) (n' % d) d rest)
]

-- How far a number of this many bits is shifted to keep 53 of them.
abbrev shift_of : ℕ → ℕ
shift_of q = log2 12 q - 52

log2_zero : log2 12 0 ≡ 0
unfolding log2
log2_zero = refl

kept : (q k : ℕ) → IsTop q k → (q < 2 ^ (k - 52 + 53)) × (1 ≤ k - 52 → 2 ^ (k - 52 + 52) ≤ q)
kept q k (lo, hi) = (
  omega (
    arith,
    hi,
    pow-le-pow_right {n = 2} (omega arith) {i = suc k} {j = k - 52 + 53} (omega arith),
  ),
  λ some_shift.
      let same : k ≡ k - 52 + 52 = omega (arith, some_shift) in subst (λ e. 2 ^ e ≤ q) same lo,
)

shift_of-bounds :
    (q : ℕ)
    → q < 2 ^ 2 ^ 12
    → (q < 2 ^ (shift_of q + 53)) × (1 ≤ shift_of q → 2 ^ (shift_of q + 52) ≤ q)
shift_of-bounds zero h =
    rw log2_zero (one-le-pow 53 2 (omega arith), λ none. absurd (omega (arith, none)))
shift_of-bounds (suc q) h = kept (suc q) (log2 12 (suc q)) (log2-IsTop 12 (suc q) (omega arith) h)

shift_of_mono : (q q' : ℕ) → q ≤ q' → q' < 2 ^ 2 ^ 12 → shift_of q ≤ shift_of q'
shift_of_mono q q' h fits = elim (dec_lt (shift_of q') (shift_of q)) [
  | yes fewer ↦
      let (_, low) = shift_of-bounds q (omega (arith, h, fits)) in
      let (high, _) = shift_of-bounds q' fits in
      let apart =
        pow-le-pow_right {n = 2} (omega arith) {i = shift_of q' + 53} {j = shift_of q + 52}
          (omega (arith, fewer)) in
      absurd (omega (arith, low (omega (arith, fewer)), high, apart, h))
  | no other ↦ omega (arith, other)
]

-- Before it is compared with infinity.
abbrev nearest_bits : ℕ → ℕ → ℕ
nearest_bits n d = shift_of (n / d) * 2 ^ 52 + round_even n (d * 2 ^ shift_of (n / d))

round_even-shift_of :
    (n d : ℕ)
    → n / d < 2 ^ 2 ^ 12
    → (round_even n (d * 2 ^ shift_of (n / d)) ≤ 2 ^ 53)
      × (1 ≤ shift_of (n / d) → 2 ^ 52 ≤ round_even n (d * 2 ^ shift_of (n / d)))
round_even-shift_of n d fits =
    let k = shift_of (n / d) in
    let positive = one-le-pow k 2 (omega arith) in
    let same = div-div-eq-div-mul n d (2 ^ k) in
    let (high, low) = shift_of-bounds (n / d) fits in
    let below : n / d < 2 ^ 53 * 2 ^ k = omega (arith, high, pow-add k 53) in
    let quotient : n / d / 2 ^ k < 2 ^ 53 = (div-lt_iff_lt-mul positive).1 below in
    (
      omega (arith, quotient, same, round_even-bounds n (d * 2 ^ k)),
      λ some_shift.
          let above : 2 ^ 52 * 2 ^ k ≤ n / d = omega (arith, low some_shift, pow-add k 52) in
          let least : 2 ^ 52 ≤ n / d / 2 ^ k = (le-div_iff_mul-le positive).1 above in
          omega (arith, least, same, round_even-bounds n (d * 2 ^ k)),
    )

nearest_bits_mono :
    (n n' d : ℕ) → n ≤ n' → n' / d < 2 ^ 2 ^ 12 → nearest_bits n d ≤ nearest_bits n' d
nearest_bits_mono n n' d h fits =
    let quotients = div_mono d n n' h in
    elim (dec_lt (shift_of (n / d)) (shift_of (n' / d))) [
      | yes fewer ↦ omega (
        arith,
        fewer,
        (round_even-shift_of n d (omega (arith, quotients, fits))).0,
        (round_even-shift_of n' d fits).1 (omega (arith, fewer)),
      )
      | no other ↦
          let same : shift_of (n / d) ≡ shift_of (n' / d) =
            omega (arith, other, shift_of_mono (n / d) (n' / d) quotients fits) in
          rw same (omega (arith, round_even_mono n n' (d * 2 ^ shift_of (n' / d)) h))
    ]

clipped_mono :
    (a b : ℕ)
    → a ≤ b
    → (if ltb a infinity_bits then a else infinity_bits)
      ≤ (if ltb b infinity_bits then b else infinity_bits)
clipped_mono a b h = ground arith

pub nearest_mono : (n n' d : ℕ) → n ≤ n' → n' / d < 2 ^ 2 ^ 12 → nearest n d ≤ nearest n' d
unfolding nearest
nearest_mono n n' d h fits =
    clipped_mono (nearest_bits n d) (nearest_bits n' d) (nearest_bits_mono n n' d h fits)
