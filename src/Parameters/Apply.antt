-- ===== src/Parameters/Apply.antt =====
-- What holds of a configuration whatever is applied to it, if every stored field keeps it.
use polyphonic_audio_to_midi.Prelude.{
  ℕ, ◌≡◌, refl, Bool, true, false, not, ◌||◌, Option, none, some, arith, ◌==◌, if◌then◌else◌,
}
use polyphonic_audio_to_midi.Types.{PersistentConfig}
use polyphonic_audio_to_midi.Double.{Double, is_finite, less}
use polyphonic_audio_to_midi.Double.Arith.{of_nat}
use polyphonic_audio_to_midi.Parameters.{
  Parameter, row, canonical_plain, store_field, apply_row, apply_parameter, find_parameter,
  ParameterApplyResult, rejected, unchanged, panic, panic_parameter_id,
}

finite_of : (a b : Bool) → (a || not b) ≡ false → b ≡ true
finite_of a b h = ground arith

module _ (P : PersistentConfig → Type 0) where
  -- What a stored field leaves, if there is one.
  abbrev pub Kept : Option PersistentConfig → Type 0
  Kept none = Unit
  Kept (some c) = P c

  stored :
      (o : Option PersistentConfig) (r : ParameterApplyResult) (c : PersistentConfig)
      → P c
      → Kept o
      → (let both : ParameterApplyResult × PersistentConfig = elim o [
        | none ↦ (rejected, c)
        | some c' ↦ (r, c')
      ] in
          P both.1)
  stored none r c v f = v
  stored (some c') r c v f = f

  -- The early returns leave the configuration as it was.
  returned :
      (a b d : Bool) (r : ParameterApplyResult) (c : PersistentConfig)
      (last : ParameterApplyResult × PersistentConfig)
      → P c
      → (a ≡ false → P last.1)
      → (let result : ParameterApplyResult × PersistentConfig =
            if a then (rejected, c) else if b then (rejected, c) else if d then (r, c) else last in
          P result.1)
  returned true b d r c last v k = v
  returned false true d r c last v k = v
  returned false false true r c last v k = v
  returned false false false r c last v k = k refl

  module _
      (store : (p : Parameter) (value : Double) (c : PersistentConfig)
        → is_finite value ≡ true
        → P c
        → Kept (store_field p (canonical_plain (row p) value) c)) where
    apply_row_keeps :
        (p : Parameter) (value : Double) (c : PersistentConfig) → P c → P (apply_row p value c).1
    unfolding apply_row
    apply_row_keeps p value c v =
        returned ((row p).read_only || not (is_finite value))
          (not (is_finite (canonical_plain (row p) value))) ((row p).id == panic_parameter_id)
          (if less (canonical_plain (row p) value) (of_nat 1) then unchanged else panic) c _ v
          (λ accepted.
            stored (store_field p (canonical_plain (row p) value) c) _ c v
              (store p value c (finite_of _ _ accepted) v))

    found :
        (o : Option Parameter) (value : Double) (c : PersistentConfig)
        → P c
        → (let both : ParameterApplyResult × PersistentConfig = elim o [
          | none ↦ (rejected, c)
          | some p ↦ apply_row p value c
        ] in
            P both.1)
    found none value c v = v
    found (some p) value c v = apply_row_keeps p value c v

    pub apply_parameter_keeps :
        (c : PersistentConfig) (id : ℕ) (value : Double) → P c → P (apply_parameter c id value).1
    unfolding apply_parameter
    apply_parameter_keeps c id value v = found (find_parameter id) value c v
