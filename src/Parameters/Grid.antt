-- ===== src/Parameters/Grid.antt =====
-- The values of a parameter: the plain value of any number is one of its steps, and a step stays
-- where it is.
use mathlib.Core.Path.{subst}
use polyphonic_audio_to_midi.Prelude.{
  ℕ, suc, ◌^◌, ◌≤◌, ◌<◌, ◌≡◌, refl, sym, ap, ◌∙◌, Bool, true, ◌&&◌, ltb, ◌==◌, all_below,
  all_below_sound, arith, inl, inr, ==_iff,
}
use polyphonic_audio_to_midi.Double.{Double, sign_bit, is_finite, less}
use polyphonic_audio_to_midi.Double.Arith.{of_nat, sub, div, round}
use polyphonic_audio_to_midi.Double.Order.{clamp-IsWithin}
use polyphonic_audio_to_midi.Double.Steps.{sub-Above}
use polyphonic_audio_to_midi.Double.Grid.{is_stepped, is_stepped-IsStepped, IsStepped, above_step}
use polyphonic_audio_to_midi.Parameters.{
  Parameter, ParameterSpec, row, valid_spec, bounded, rounded, canonical_plain, plain_to_normalized,
  normalized_to_plain,
}
use polyphonic_audio_to_midi.Parameters.Range.{row-valid_spec}
use polyphonic_audio_to_midi.Parameters.Steps.{
  step_value, row-steps_fit, is_fixed, from_zero, row-is_checked,
}

-- A value at some number of the steps that the parameter has.
pub record IsStep (p : Parameter) (value : Double) : Type 0 where
  pub count : ℕ
  pub counted : count ≤ (row p).step_count
  pub same : value ≡ step_value p (of_nat count)

and_both : (a b : Bool) → (a && b) ≡ true → (a ≡ true) × (b ≡ true)
and_both a b h = ground arith

step-is_fixed : (p : Parameter) (n : ℕ) → n ≤ (row p).step_count → is_fixed p n ≡ true
step-is_fixed p n h =
    all_below_sound (suc (row p).step_count) (is_fixed p) n
      (and_both (all_below (suc (row p).step_count) (is_fixed p)) (from_zero p)
        (row-is_checked p)).0
      (omega (arith, h))

zero-from_zero :
    (p : Parameter)
    → step_value p (round (div (2 ^ 63) (row p).increment)) ≡ step_value p (of_nat 0)
zero-from_zero p =
    (==_iff _ _).0
      (and_both (all_below (suc (row p).step_count) (is_fixed p)) (from_zero p)
        (row-is_checked p)).1

-- What the code computes is the value at the rounded number of steps.
accepted_step_value :
    (p : Parameter) (value : Double)
    → is_finite value ≡ true
    → canonical_plain (row p) value
      ≡ step_value p (round (div (sub (bounded (row p) value) (row p).minimum) (row p).increment))
unfolding canonical_plain rounded step_value
accepted_step_value p value h = rw (row-valid_spec p, h) refl

valid_ends :
    (spec : ParameterSpec)
    → valid_spec spec ≡ true
    → (is_finite spec.minimum ≡ true)
      × (is_finite spec.maximum ≡ true)
      × (less spec.minimum spec.maximum ≡ true)
unfolding valid_spec
valid_ends spec h = ground arith

regular :
    (p : Parameter)
    → IsStepped (row p).minimum (row p).maximum (row p).increment (row p).step_count
      × (sign_bit (row p).maximum ≡ 0)
regular p =
    let spec = row p in
    let (stepped, sign) =
      and_both (is_stepped spec.minimum spec.maximum spec.increment spec.step_count)
        (sign_bit spec.maximum == 0) (row-steps_fit p) in
    (
      is_stepped-IsStepped spec.minimum spec.maximum spec.increment spec.step_count stepped,
      (==_iff (sign_bit spec.maximum) 0).0 sign,
    )

-- The plain value of a finite number is that of some number of steps.
pub canonical_plain-IsStep :
    (p : Parameter) (value : Double)
    → is_finite value ≡ true
    → IsStep p (canonical_plain (row p) value)
canonical_plain-IsStep p value h =
    let spec = row p in
    let (f, g, l) = valid_ends (row p) (row-valid_spec p) in
    let (stepped, sign) = regular p in
    let within = clamp-IsWithin (row p).minimum (row p).maximum value l in
    elim (sub-Above (row p).minimum (row p).maximum (bounded (row p) value) sign f g within) [
      | inl (t, le, e) ↦
          let (n, few, steps) =
            above_step (row p).minimum (row p).maximum (row p).increment (row p).step_count stepped
              t _ le e in
          record {
            count = n;
            counted = few;
            same = accepted_step_value p value h ∙ ap (step_value p) steps;
          }
      | inr e ↦ record {
        count = 0;
        counted = omega arith;
        same =
            accepted_step_value p value h
            ∙ ap (λ s. step_value p (round (div s (row p).increment))) e
            ∙ zero-from_zero p;
      }
    ]

passed :
    (p : Parameter) (d : Double)
    → (is_finite d
        && ltb d (2 ^ 64)
        && canonical_plain (row p) d == d
        && normalized_to_plain (row p) (plain_to_normalized (row p) d) == d)
      ≡ true
    → (is_finite d ≡ true)
      × (d < 2 ^ 64)
      × (canonical_plain (row p) d ≡ d)
      × (normalized_to_plain (row p) (plain_to_normalized (row p) d) ≡ d)
passed p d h = ground arith

pub fixed :
    (p : Parameter) (value : Double)
    → IsStep p value
    → (is_finite value ≡ true)
      × (value < 2 ^ 64)
      × (canonical_plain (row p) value ≡ value)
      × (normalized_to_plain (row p) (plain_to_normalized (row p) value) ≡ value)
fixed p value s =
    let test = step-is_fixed p s.count s.counted in
    subst
      (λ d.
        (is_finite d ≡ true)
        × (d < 2 ^ 64)
        × (canonical_plain (row p) d ≡ d)
        × (normalized_to_plain (row p) (plain_to_normalized (row p) d) ≡ d))
      (sym s.same) (passed p (step_value p (of_nat s.count)) test)

-- For every row of the table and every finite number, the plain value is finite, and it is its own
-- plain value.
pub canonical_plain_idem :
    (p : Parameter) (value : Double)
    → is_finite value ≡ true
    → (is_finite (canonical_plain (row p) value) ≡ true)
      × (canonical_plain (row p) (canonical_plain (row p) value) ≡ canonical_plain (row p) value)
canonical_plain_idem p value h =
    let (finite, _, same, _) = fixed p _ (canonical_plain-IsStep p value h) in (finite, same)

plain_to_normalized_of :
    (p : Parameter) (value : Double)
    → canonical_plain (row p) (canonical_plain (row p) value) ≡ canonical_plain (row p) value
    → plain_to_normalized (row p) (canonical_plain (row p) value)
      ≡ plain_to_normalized (row p) value
unfolding plain_to_normalized
plain_to_normalized_of p value e = rw e refl

-- For every row of the table and every finite number, going to the normalized value and back gives
-- the plain value.
pub normalized_to_plain-plain_to_normalized :
    (p : Parameter) (value : Double)
    → is_finite value ≡ true
    → normalized_to_plain (row p) (plain_to_normalized (row p) value)
      ≡ canonical_plain (row p) value
normalized_to_plain-plain_to_normalized p value h =
    let (_, _, same, back) = fixed p _ (canonical_plain-IsStep p value h) in
    ap (normalized_to_plain (row p)) (sym (plain_to_normalized_of p value same)) ∙ back
