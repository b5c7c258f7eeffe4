-- ===== src/Double/Order.antt =====
-- The order of the doubles: clamping, and the integer part.
use native.Mathlib.Nat.{
  pow-suc, pow-le-pow_right, one-le-pow, le-div_iff_mul-le, div-mul-le_self, mul-le-mul_left,
  mul-le-mul_right,
}
use mathlib.Core.Path.{ap₂}
use native.Mathlib.Decide.{dec_lt}
use polyphonic_audio_to_midi.Prelude.{
  ℕ, zero, suc, ◌+◌, ◌-◌, ◌*◌, ◌/◌, ◌%◌, ◌^◌, ◌≤◌, ◌<◌, ◌≡◌, true, false, ◌==◌, if◌then◌else◌,
  arith, ◌∙◌, refl, ap,
}
use polyphonic_audio_to_midi.Double.{Double, exponent_bits, magnitude_bits, is_nan, less}
use polyphonic_audio_to_midi.Double.Arith.{max, min, units, truncate, one_units}

pub less_irrefl : (a : Double) → less a a ≡ false
unfolding less
less_irrefl a = ground arith

pub less_asym : (a b : Double) → less a b ≡ true → less b a ≡ false
unfolding less
less_asym a b h = ground arith

pub less-is_nan : (a b : Double) → less a b ≡ true → (is_nan a ≡ false) × (is_nan b ≡ false)
unfolding less
less-is_nan a b h = ground arith

-- Between the bounds, and a number.
pub record IsWithin (low high d : Double) : Type 0 where
  pub not_below : less d low ≡ false
  pub not_above : less high d ≡ false
  pub a_number : is_nan d ≡ false

-- `std::max(low, std::min(d, high))`, of a NaN too.
pub clamp-IsWithin :
    (low high d : Double) → less low high ≡ true → IsWithin low high (max low (min d high))
unfolding max min
clamp-IsWithin low high d h = ground (
  arith,
  less_irrefl low,
  less_irrefl high,
  less_asym low high,
  less_asym low d,
  less_asym low high,
  less-is_nan low high,
  less-is_nan low d,
)

-- Between bounds that are not negative the order is that of the magnitudes.
pub IsWithin-magnitude_bits :
    (low high d : Double)
    → low < 2 ^ 63
    → high < 2 ^ 63
    → is_nan low ≡ false
    → is_nan high ≡ false
    → IsWithin low high d
    → (low ≤ magnitude_bits d) × (magnitude_bits d ≤ high)
unfolding less
IsWithin-magnitude_bits low high d hl hh nl nh w =
    ground (arith, w.not_below, w.not_above, w.a_number)

pow-split : (a b : ℕ) → a < b → 2 ^ a * 2 ≤ 2 ^ b
pow-split a b h =
    omega (arith, pow-suc 2 a, pow-le-pow_right {n = 2} (omega arith) {i = suc a} {j = b} h)

-- A higher exponent is more than any mantissa of a lower one.
scale-le : (f g a b : ℕ) → f < 2 ^ 52 → a < b → (f + 2 ^ 52) * 2 ^ a ≤ (g + 2 ^ 52) * 2 ^ b
scale-le f g a b hf h =
    let low : (f + 2 ^ 52) * 2 ^ a ≤ 2 ^ 53 * 2 ^ a = mul-le-mul_right (2 ^ a) (omega arith) in
    let high : 2 ^ 52 * 2 ^ b ≤ (g + 2 ^ 52) * 2 ^ b = mul-le-mul_right (2 ^ b) (omega arith) in
    omega (arith, low, high, pow-split a b h)

-- The units of an exponent and a fraction.
abbrev scaled : ℕ → ℕ → ℕ
scaled zero f = f
scaled (suc e) f = (f + 2 ^ 52) * 2 ^ e

units_at : (e f : ℕ) → (if e == 0 then f else (f + 2 ^ 52) * 2 ^ (e - 1)) ≡ scaled e f
units_at zero f = refl
units_at (suc e) f =
    let same : suc e - 1 ≡ e = omega arith in ground (arith, ap (λ k. (f + 2 ^ 52) * 2 ^ k) same)

scaled_mono :
    (e e' f g : ℕ)
    → f < 2 ^ 52
    → g < 2 ^ 52
    → e * 2 ^ 52 + f ≤ e' * 2 ^ 52 + g
    → scaled e f ≤ scaled e' g
scaled_mono zero zero f g hf hg h = omega arith
scaled_mono zero (suc j) f g hf hg h =
    let high : (g + 2 ^ 52) * 1 ≤ (g + 2 ^ 52) * 2 ^ j =
      mul-le-mul_left (g + 2 ^ 52) (one-le-pow j 2 (omega arith)) in
    omega (arith, high)
scaled_mono (suc i) zero f g hf hg h = absurd (omega arith)
scaled_mono (suc i) (suc j) f g hf hg h = elim (dec_lt i j) [
  | yes less_exponent ↦ scale-le f g i j hf less_exponent
  | no other ↦ let e : i ≡ j = omega arith in rw e (mul-le-mul_right (2 ^ j) (omega arith))
]

units-scaled :
    (d : Double) → units d ≡ scaled (magnitude_bits d / 2 ^ 52) (magnitude_bits d % 2 ^ 52)
unfolding units
units-scaled d =
    let e : exponent_bits d ≡ magnitude_bits d / 2 ^ 52 = omega arith in
    let f : d % 2 ^ 52 ≡ magnitude_bits d % 2 ^ 52 = omega arith in
    units_at (exponent_bits d) (d % 2 ^ 52) ∙ ap₂ scaled e f

-- The units grow with the magnitude.
pub units_mono : (a b : Double) → magnitude_bits a ≤ magnitude_bits b → units a ≤ units b
units_mono a b h =
    rw (units-scaled a, units-scaled b)
      (scaled_mono (magnitude_bits a / 2 ^ 52) (magnitude_bits b / 2 ^ 52)
        (magnitude_bits a % 2 ^ 52) (magnitude_bits b % 2 ^ 52) (omega arith) (omega arith)
        (omega arith))

div_mono : (k x y : ℕ) → x ≤ y → x / k ≤ y / k
div_mono zero x y h = omega arith
div_mono (suc k) x y h =
    (le-div_iff_mul-le (omega arith)).1 (omega (arith, div-mul-le_self x (suc k), h))

pub truncate_mono : (a b : Double) → magnitude_bits a ≤ magnitude_bits b → truncate a ≤ truncate b
unfolding truncate
truncate_mono a b h = div_mono one_units (units a) (units b) (units_mono a b h)
