-- ===== src/PreparedConfig/Staged.antt =====
-- A configuration that can be saved is staged at every usable sample rate.
use polyphonic_audio_to_midi.Prelude.{
  ◌≡◌, refl, ◌∙◌, Bool, true, false, not, ◌||◌, List, [], ◌∷◌, map, Option, none, some,
  if◌then◌else◌, all, All, arith, ◌==◌,
}
use polyphonic_audio_to_midi.Types.{PersistentConfig, Status, decision_quantum}
use polyphonic_audio_to_midi.Double.{Double, sign_bit, is_finite, less, is_nan}
use polyphonic_audio_to_midi.Double.Arith.{
  of_nat, of_fraction, abs, add_finite, negate, sub, div, units,
}
use polyphonic_audio_to_midi.Double.Steps.{add-is_finite, negate-is_finite, units-negate}
use polyphonic_audio_to_midi.Parameters.{
  Parameter, row, persistent_parameters, find_parameter, parameter_value, canonical_plain,
}
use polyphonic_audio_to_midi.Parameters.Plain.{IsPlain}
use polyphonic_audio_to_midi.Parameters.Kept.{IsKept, persistent-IsKept}
use polyphonic_audio_to_midi.Parameters.Stored.{IsStored}
use polyphonic_audio_to_midi.StateImage.Records.{
  IsSaved, persistent-IsSaved, parameter_value_lem, value_of,
}
use polyphonic_audio_to_midi.PreparedConfig.{
  PreparedConfig, valid_parameter, valid_requested_config, is_positive, stage_prepared_config,
}

add_finite-negate : (d : Double) → add_finite d (negate d) ≡ 0
unfolding add_finite
add_finite-negate d =
    let different : (sign_bit d == sign_bit (negate d)) ≡ false = ground arith in
    let same : (units d == units (negate d)) ≡ true = ground (arith, units-negate d) in
    rw (different, same) refl

-- A finite number less itself is 0.
sub_self : (d : Double) → is_finite d ≡ true → sub d d ≡ 0
unfolding sub
sub_self d f = add-is_finite d (negate d) f (negate-is_finite d f) ∙ add_finite-negate d

no_distance : less (of_fraction 1 1000000000000) (abs 0) ≡ false
unfolding less is_nan of_fraction
no_distance = refl

near :
    (p : Parameter) (value : Double)
    → IsPlain p value
    → not (
        not (is_finite value)
        || not (is_finite (canonical_plain (row p) value))
        || less (of_fraction 1 1000000000000) (abs (sub value (canonical_plain (row p) value))))
      ≡ true
near p value k = rw (k.same, k.finite, sub_self value k.finite, no_distance) refl

looked_up :
    (o : Option Parameter) (v : Option Double) (p : Parameter) (value : Double)
    → o ≡ some p
    → v ≡ some value
    → IsPlain p value
    → (let r : Bool = elim o [
      | none ↦ false
      | some q ↦ elim v [
        | none ↦ false
        | some x ↦ not (
            not (is_finite x)
            || not (is_finite (canonical_plain (row q) x))
            || less (of_fraction 1 1000000000000) (abs (sub x (canonical_plain (row q) x))))
      ]
    ] in
        r ≡ true)
looked_up o v p value e f k = rw (e, f) (near p value k)

module _ (c : PersistentConfig) where
  valid_parameter_lem :
      (p : Parameter) → IsSaved p → IsKept c p → valid_parameter c (row p).id ≡ true
  unfolding valid_parameter
  valid_parameter_lem p s k =
      looked_up (find_parameter (row p).id) (parameter_value c Status.ready (row p).id) p
        (value_of c p) s.found (parameter_value_lem c p s) k.0

  valid_all :
      (ps : List Parameter)
      → All IsSaved ps
      → All (IsKept c) ps
      → all (valid_parameter c) (map (λ p. (row p).id) ps) ≡ true
  valid_all [] s k = refl
  valid_all (p ∷ ps) (s, ss) (k, ks) = rw (valid_parameter_lem p s k) (valid_all ps ss ks)

-- The sample rate and the two periods are finite and positive.
pub record IsRate (sample_rate : Double) : Type 0 where
  pub rate : is_positive sample_rate ≡ true
  pub sample : is_positive (div (of_nat 1) sample_rate) ≡ true
  pub decision : is_positive (div (of_nat decision_quantum) sample_rate) ≡ true

abbrev pub prepared : PersistentConfig → Double → PreparedConfig
unfolding div of_nat
prepared c sample_rate = record {
  requested = c;
  sample_rate = sample_rate;
  sample_period = div (of_nat 1) sample_rate;
  decision_period = div (of_nat decision_quantum) sample_rate;
}

staged :
    (a b d v : Bool) (x : Option PreparedConfig)
    → a ≡ true
    → b ≡ true
    → d ≡ true
    → v ≡ true
    → (if not a then none else if not b || not d || not v then none else x) ≡ x
staged a b d v x p q r s = rw (p, q, r, s) refl

-- A configuration that can be saved is staged at every sample rate that is finite and positive with
-- its two periods, and what is staged is that configuration with them.
pub stage_prepared_config-IsStored :
    (c : PersistentConfig) (sample_rate : Double)
    → IsStored c
    → IsRate sample_rate
    → stage_prepared_config c sample_rate ≡ some (prepared c sample_rate)
unfolding stage_prepared_config valid_requested_config
stage_prepared_config-IsStored c sample_rate h r =
    staged (is_positive sample_rate) (is_positive (div (of_nat 1) sample_rate))
      (is_positive (div (of_nat decision_quantum) sample_rate)) (valid_requested_config c)
      (some (prepared c sample_rate)) r.rate r.sample r.decision
      (valid_all c persistent_parameters persistent-IsSaved (persistent-IsKept c h))
