-- ===== src/Double/Steps.antt =====
-- From a value in a range to the number of steps above the least value.
use mathlib.Core.Path.{subst}
use polyphonic_audio_to_midi.Prelude.{
  ℕ, ◌+◌, ◌-◌, ◌^◌, ◌≤◌, ◌<◌, ◌≡◌, refl, sym, ap, ◌∙◌, true, false, ltb, ◌==◌, if◌then◌else◌,
  if_elim, arith, ◌⊎◌, inl, inr,
}
use polyphonic_audio_to_midi.Double.{
  Double, sign_bit, magnitude_bits, infinity_bits, is_finite, is_nan, less,
}
use polyphonic_audio_to_midi.Double.Arith.{units, nearest, negate, add_finite, add, sub, with_sign}
use polyphonic_audio_to_midi.Double.Order.{IsWithin, units_mono}

pub is_finite-is_nan : (d : Double) → is_finite d ≡ true → is_nan d ≡ false
unfolding is_finite is_nan
is_finite-is_nan d h = ground arith

pub finite_magnitude : (d : Double) → magnitude_bits d < infinity_bits → is_finite d ≡ true
unfolding is_finite
finite_magnitude d h = ground arith

magnitude_finite : (d : Double) → is_finite d ≡ true → magnitude_bits d < infinity_bits
unfolding is_finite
magnitude_finite d h = ground arith

pub negate-is_finite : (d : Double) → is_finite d ≡ true → is_finite (negate d) ≡ true
negate-is_finite d h = finite_magnitude (negate d) (omega (arith, magnitude_finite d h))

pub units-negate : (d : Double) → units (negate d) ≡ units d
units-negate d =
    omega (arith, units_mono (negate d) d (omega arith), units_mono d (negate d) (omega arith))

pub add-is_finite :
    (a b : Double) → is_finite a ≡ true → is_finite b ≡ true → add a b ≡ add_finite a b
unfolding add
add-is_finite a b f g = rw (is_finite-is_nan a f, is_finite-is_nan b g, f, g) refl

nearest_zero : nearest 0 1 ≡ 0
unfolding nearest
nearest_zero = refl

opposite :
    (x y : ℕ) (r : Double)
    → y ≤ x
    → (if x == y then 0 else if ltb y x then with_sign 0 (nearest (x - y) 1) else r)
      ≡ nearest (x - y) 1
opposite x y r h =
    if_elim (λ (d : Double). d ≡ nearest (x - y) 1) (x == y) 0 _
      (λ e.
        let none : 0 ≡ x - y = ground (arith, e) in sym nearest_zero ∙ ap (λ n. nearest n 1) none)
      (λ e. ground (arith, e))

reversed :
    (x y : ℕ) (r : Double)
    → x ≤ y
    → (if x == y then 0 else if ltb y x then r else with_sign 0 (nearest (y - x) 1))
      ≡ nearest (y - x) 1
reversed x y r h =
    if_elim (λ (d : Double). d ≡ nearest (y - x) 1) (x == y) 0 _
      (λ e.
        let none : 0 ≡ y - x = ground (arith, e) in sym nearest_zero ∙ ap (λ n. nearest n 1) none)
      (λ e. ground (arith, e))

-- The sum of opposite signs, the first of the greater magnitude and positive.
add_finite_opposite :
    (a b : Double)
    → sign_bit a ≡ 0
    → sign_bit b ≡ 1
    → units b ≤ units a
    → add_finite a b ≡ nearest (units a - units b) 1
unfolding add_finite
add_finite_opposite a b p q h = rw (p, q) (opposite (units a) (units b) _ h)

add_finite_same :
    (a b : Double)
    → sign_bit a ≡ 0
    → sign_bit b ≡ 0
    → add_finite a b ≡ nearest (units a + units b) 1
unfolding add_finite
add_finite_same a b p q = rw (p, q) (omega arith)

-- The sum of opposite signs, the second of the greater magnitude and positive.
add_finite_reversed :
    (a b : Double)
    → sign_bit a ≡ 1
    → sign_bit b ≡ 0
    → units a ≤ units b
    → add_finite a b ≡ nearest (units b - units a) 1
unfolding add_finite
add_finite_reversed a b p q h = rw (p, q) (reversed (units a) (units b) _ h)

-- What the order says of a value in a range that does not end below zero, by the signs.
record IsPlaced (low high x : Double) : Type 0 where
  bounded_magnitude : sign_bit x ≡ 0 → magnitude_bits x ≤ magnitude_bits high
  above_low : sign_bit x ≡ 0 → sign_bit low ≡ 0 → magnitude_bits low ≤ magnitude_bits x
  negative_zero :
      sign_bit x ≡ 1 → sign_bit low ≡ 0 → (magnitude_bits x ≡ 0) × (magnitude_bits low ≡ 0)
  negative : sign_bit x ≡ 1 → sign_bit low ≡ 1 → magnitude_bits x ≤ magnitude_bits low

IsWithin-IsPlaced :
    (low high x : Double)
    → sign_bit high ≡ 0
    → is_nan low ≡ false
    → is_nan high ≡ false
    → IsWithin low high x
    → IsPlaced low high x
unfolding less
IsWithin-IsPlaced low high x s nl nh w = record {
  bounded_magnitude = λ p. ground (arith, w.not_above, w.a_number);
  above_low = λ p q. ground (arith, w.not_below, w.a_number);
  negative_zero = λ p q. ground (arith, w.not_below, w.a_number);
  negative = λ p q. ground (arith, w.not_below, w.a_number);
}

placed_finite :
    (low high x : Double)
    → IsPlaced low high x
    → is_finite low ≡ true
    → is_finite high ≡ true
    → is_finite x ≡ true
placed_finite low high x w f g = finite_magnitude x (
    ground (
      arith,
      magnitude_finite low f,
      magnitude_finite high g,
      w.bounded_magnitude,
      w.negative_zero,
      w.negative,
    ))

-- The width of a range, in units.
abbrev pub span : Double → Double → ℕ
span low high = if sign_bit low == 0 then units high - units low else units high + units low

-- How far a value is above the least one: some units, rounded, or the zero of negative sign.
abbrev pub Above : Double → Double → Double → Type 0
Above low high s = ((t : ℕ) × (t ≤ span low high) × (s ≡ nearest t 1)) ⊎ (s ≡ 2 ^ 63)

unit_sign : (d : Double) → (sign_bit d ≡ 0) ⊎ (sign_bit d ≡ 1)
unit_sign d = ground arith

zero_is_zero : units 0 ≡ 0
unfolding units
zero_is_zero = refl

zero_units : (d : Double) → magnitude_bits d ≡ 0 → units d ≡ 0
zero_units d h = omega (arith, units_mono d 0 (omega (arith, h)), zero_is_zero)

add_finite_zeros :
    (a b : Double)
    → sign_bit a ≡ 1
    → sign_bit b ≡ 1
    → units a ≡ 0
    → units b ≡ 0
    → add_finite a b ≡ 2 ^ 63
unfolding add_finite
add_finite_zeros a b p q h k = rw (p, q, h, k) (ap (λ m. 2 ^ 63 + m) nearest_zero)

span_positive : (low high : Double) → sign_bit low ≡ 0 → span low high ≡ units high - units low
span_positive low high p = rw p refl

span_negative : (low high : Double) → sign_bit low ≡ 1 → span low high ≡ units high + units low
span_negative low high p = rw p refl

-- `b` is the opposite of the least value.
module _ (low high x b : Double) (w : IsPlaced low high x)
    (opposite_sign : sign_bit b ≡ 1 - sign_bit low) (same : units b ≡ units low) where
  add_positive-Above : sign_bit x ≡ 0 → Above low high (add_finite x b)
  add_positive-Above positive =
      let below = units_mono x high (w.bounded_magnitude positive) in
      elim (unit_sign low) [
        | inl low_positive ↦ inl (
          units x - units b,
          omega (arith, below, same, span_positive low high low_positive),
          add_finite_opposite x b positive (omega (arith, opposite_sign, low_positive))
              (omega (arith, same, units_mono low x (w.above_low positive low_positive))),
        )
        | inr low_negative ↦ inl (
          units x + units b,
          omega (arith, below, same, span_negative low high low_negative),
          add_finite_same x b positive (omega (arith, opposite_sign, low_negative)),
        )
      ]

  add_negative-Above : sign_bit x ≡ 1 → Above low high (add_finite x b)
  add_negative-Above negative_x = elim (unit_sign low) [
    | inl low_positive ↦
        let (x_zero, low_zero) = w.negative_zero negative_x low_positive in
        inr (
          add_finite_zeros x b negative_x (omega (arith, opposite_sign, low_positive))
            (zero_units x x_zero) (same ∙ zero_units low low_zero))
    | inr low_negative ↦ inl (
      units b - units x,
      omega (arith, same, span_negative low high low_negative),
      add_finite_reversed x b negative_x (omega (arith, opposite_sign, low_negative))
          (omega (arith, same, units_mono x low (w.negative negative_x low_negative))),
    )
  ]

  add_finite-Above : Above low high (add_finite x b)
  add_finite-Above = elim (unit_sign x) [
    | inl p ↦ add_positive-Above p
    | inr p ↦ add_negative-Above p
  ]

pub sub-Above :
    (low high x : Double)
    → sign_bit high ≡ 0
    → is_finite low ≡ true
    → is_finite high ≡ true
    → IsWithin low high x
    → Above low high (sub x low)
unfolding sub
sub-Above low high x s f g within =
    let w =
      IsWithin-IsPlaced low high x s (is_finite-is_nan low f) (is_finite-is_nan high g) within in
    let sum : add x (negate low) ≡ add_finite x (negate low) =
      add-is_finite x (negate low) (placed_finite low high x w f g) (negate-is_finite low f) in
    subst (λ d. Above low high d) (sym sum)
      (add_finite-Above low high x (negate low) w (omega arith) (units-negate low))
