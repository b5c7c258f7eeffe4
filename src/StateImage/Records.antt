-- ===== src/StateImage/Records.antt =====
-- The records of an image are decoded to the configuration that they were made of.
use mathlib.Core.List.{append_assoc}
use mathlib.Core.Option.{some-injective}
use polyphonic_audio_to_midi.Prelude.{
  ℕ, ◌*◌, ◌^◌, ◌<◌, ◌≡◌, refl, ap, ◌∙◌, Bool, true, false, not, ◌||◌, List, [], ◌∷◌, ◌++◌, map,
  Option, none, some, ◌==◌, if◌then◌else◌, length, length-append, drop, arith, All, ==_iff,
}
use polyphonic_audio_to_midi.Types.{PersistentConfig, Status}
use polyphonic_audio_to_midi.Double.{Double, is_finite, less}
use polyphonic_audio_to_midi.Double.Arith.{of_nat}
use polyphonic_audio_to_midi.Parameters.{
  Parameter, ParameterId, row, persistent_parameters, parameter_value, find_parameter, field_value,
  store_field, canonical_plain, apply_row, apply_parameter, ParameterApplyResult, rejected,
  unchanged, changed, panic_parameter_id, routing, mode, a4, trim, sensitivity, response, lowest,
  highest, polyphony, fret, velocity, fixed_velocity, channel, dry,
}
use polyphonic_audio_to_midi.Parameters.Plain.{IsPlain}
use polyphonic_audio_to_midi.Parameters.Kept.{IsKept, copy_field}
use polyphonic_audio_to_midi.StateImage.{
  put_u32, put_u64, get_u32, get_u64, record_size, encode_record, encode_records, decode_records,
  is_applied,
}
use polyphonic_audio_to_midi.StateImage.Bytes.{get_bytes-put_bytes, length-put_bytes, drop_past}

-- The rows that are saved: they are found by their identifiers, and not read-only nor the action.
pub record IsSaved (p : Parameter) : Type 0 where
  pub found : find_parameter (row p).id ≡ some p
  writable : (row p).read_only ≡ false
  no_action : ((row p).id == panic_parameter_id) ≡ false
  id_fits : (row p).id < 256 ^ 4

saved :
    (p : Parameter)
    → find_parameter (row p).id ≡ some p
    → (row p).read_only ≡ false
    → ((row p).id == panic_parameter_id) ≡ false
    → (row p).id < 256 ^ 4
    → IsSaved p
saved p f w a i = record { found = f; writable = w; no_action = a; id_fits = i }

pub persistent-IsSaved : All IsSaved persistent_parameters
unfolding find_parameter of_nat
persistent-IsSaved = (
  saved routing refl refl refl (omega arith),
  (
    saved mode refl refl refl (omega arith),
    (
      saved a4 refl refl refl (omega arith),
      (
        saved trim refl refl refl (omega arith),
        (
          saved sensitivity refl refl refl (omega arith),
          (
            saved response refl refl refl (omega arith),
            (
              saved lowest refl refl refl (omega arith),
              (
                saved highest refl refl refl (omega arith),
                (
                  saved polyphony refl refl refl (omega arith),
                  (
                    saved fret refl refl refl (omega arith),
                    (
                      saved velocity refl refl refl (omega arith),
                      (
                        saved fixed_velocity refl refl refl (omega arith),
                        (
                          saved channel refl refl refl (omega arith),
                          (saved dry refl refl refl (omega arith), tt),
                        ),
                      ),
                    ),
                  ),
                ),
              ),
            ),
          ),
        ),
      ),
    ),
  ),
)

-- A value was applied, and this is the configuration.
abbrev IsCopied : ParameterApplyResult × PersistentConfig → PersistentConfig → Type 0
IsCopied r d = (is_applied r.0 ≡ true) × (r.1 ≡ d)

reached :
    (a b e : Bool) (x y z w : ParameterApplyResult × PersistentConfig) (d : PersistentConfig)
    → a ≡ false
    → b ≡ false
    → e ≡ false
    → IsCopied w d
    → IsCopied (if a then x else if b then y else if e then z else w) d
reached false false false x y z w d p q r h = h
reached true b e x y z w d p q r h = ground (arith, p)
reached false true e x y z w d p q r h = ground (arith, q)
reached false false true x y z w d p q r h = ground (arith, r)

still_finite :
    (p : Parameter) (v : Double)
    → is_finite v ≡ true
    → canonical_plain (row p) v ≡ v
    → not (is_finite (canonical_plain (row p) v)) ≡ false
still_finite p v f e = rw e (rw f refl)

copied :
    (o : Option PersistentConfig) (same : Bool) (d before : PersistentConfig)
    → o ≡ some d
    → (let r : ParameterApplyResult × PersistentConfig = elim o [
      | none ↦ (rejected, before)
      | some c ↦ (if same then unchanged else changed, c)
    ] in
        IsCopied r d)
copied none same d before e = ground (arith, e)
copied (some c) true d before e = (refl, some-injective _ _ e)
copied (some c) false d before e = (refl, some-injective _ _ e)

encoded :
    (id : ParameterId) (v : Option Double) (o : Option Parameter) (value : Double) (p : Parameter)
    → v ≡ some value
    → o ≡ some p
    → IsPlain p value
    → (let r : Option (List ℕ) = elim v [
      | none ↦ none
      | some x ↦ elim o [
        | none ↦ none
        | some q ↦
            if not (is_finite x)
            then none
            else if less x (row q).minimum || less (row q).maximum x
            then none
            else some (put_u32 id ++ put_u64 x)
      ]
    ] in
        r ≡ some (put_u32 id ++ put_u64 value))
encoded id v o value p e f k = rw (e, f, k.finite, k.not_below, k.not_above) refl

-- What is read from a record and behind it.
read_record :
    (id value : ℕ) (rest : List ℕ)
    → id < 256 ^ 4
    → value < 2 ^ 64
    → (let bytes = (put_u32 id ++ put_u64 value) ++ rest in
        (get_u32 bytes ≡ id) × (get_u64 (drop 4 bytes) ≡ value) × (drop record_size bytes ≡ rest))
read_record id value rest h k =
    let parts : (put_u32 id ++ put_u64 value) ++ rest ≡ put_u32 id ++ (put_u64 value ++ rest) =
      append_assoc (put_u32 id) (put_u64 value) rest in
    (
      ap get_u32 parts ∙ get_bytes-put_bytes 4 id (put_u64 value ++ rest) h,
      ap (λ l. get_u64 (drop 4 l)) parts
          ∙ ap get_u64 (drop_past 4 (put_u32 id) (put_u64 value ++ rest) (length-put_bytes 4 id))
          ∙ get_bytes-put_bytes 8 value rest (omega (arith, k)),
      drop_past record_size (put_u32 id ++ put_u64 value) rest (
          omega (
            arith,
            length-append (put_u32 id) (put_u64 value),
            length-put_bytes 4 id,
            length-put_bytes 8 value,
          )),
    )

decided :
    (a b r : Bool) (x result : Option PersistentConfig)
    → a ≡ true
    → b ≡ true
    → r ≡ true
    → x ≡ result
    → (if not a then none else if not b then none else if not r then none else x) ≡ result
decided a b r x result e f g h = rw (e, f, g) h

-- A turn of the loop that applies the value of its record.
decode_turn :
    (id : ParameterId) (ids : List ParameterId) (bytes rest : List ℕ) (value : Double)
    (d after : PersistentConfig) (result : Option PersistentConfig)
    → get_u32 bytes ≡ id
    → get_u64 (drop 4 bytes) ≡ value
    → drop record_size bytes ≡ rest
    → is_finite value ≡ true
    → IsCopied (apply_parameter d id value) after
    → decode_records ids rest after ≡ result
    → decode_records (id ∷ ids) bytes d ≡ result
unfolding decode_records
decode_turn id ids bytes rest value d after result e f g finite (applied, same) next =
    let read = get_u64 (drop 4 bytes) in
    decided (get_u32 bytes == id) (is_finite read) (is_applied (apply_parameter d id read).0)
      (decode_records ids (drop record_size bytes) (apply_parameter d id read).1) result
      ((==_iff (get_u32 bytes) id).1 e) (ap is_finite f ∙ finite)
      (ap (λ v. is_applied (apply_parameter d id v).0) f ∙ applied)
      (ap (λ l. decode_records ids l (apply_parameter d id read).1) g
        ∙ ap (λ v. decode_records ids rest (apply_parameter d id v).1) f
        ∙ ap (decode_records ids rest) same
        ∙ next)

module _ (c : PersistentConfig) where
  abbrev pub value_of : Parameter → Double
  value_of p = field_value c Status.ready p

  -- The records of the rows.
  abbrev pub records_of : List Parameter → List ℕ
  records_of [] = []
  records_of (p ∷ ps) = (put_u32 (row p).id ++ put_u64 (value_of p)) ++ records_of ps

  abbrev pub copy_fields : List Parameter → PersistentConfig → PersistentConfig
  copy_fields [] d = d
  copy_fields (p ∷ ps) d = copy_fields ps (copy_field p c d)

  pub parameter_value_lem :
      (p : Parameter) → IsSaved p → parameter_value c Status.ready (row p).id ≡ some (value_of p)
  unfolding parameter_value
  parameter_value_lem p s = rw (s.found, parameter_value) refl

  encode_record_lem :
      (p : Parameter)
      → IsSaved p
      → IsKept c p
      → encode_record c (row p).id ≡ some (put_u32 (row p).id ++ put_u64 (value_of p))
  unfolding encode_record
  encode_record_lem p s (k, _) =
      encoded (row p).id (parameter_value c Status.ready (row p).id) (find_parameter (row p).id)
        (value_of p) p (parameter_value_lem p s) s.found k

  stored_row :
      (p : Parameter) (d : PersistentConfig)
      → IsSaved p
      → IsKept c p
      → IsCopied (apply_row p (value_of p) d) (copy_field p c d)
  unfolding apply_row
  stored_row p d s (k, store) =
      let stored : store_field p (canonical_plain (row p) (value_of p)) d
          ≡ some (copy_field p c d) =
        ap (λ v. store_field p v d) k.same ∙ store d in
      reached ((row p).read_only || not (is_finite (value_of p)))
        (not (is_finite (canonical_plain (row p) (value_of p)))) ((row p).id == panic_parameter_id)
        _ _ _ _ _ (ground (arith, s.writable, k.finite))
        (still_finite p (value_of p) k.finite k.same) s.no_action (copied _ _ _ d stored)

  apply_parameter_lem :
      (p : Parameter) (d : PersistentConfig)
      → IsSaved p
      → IsKept c p
      → IsCopied (apply_parameter d (row p).id (value_of p)) (copy_field p c d)
  unfolding apply_parameter
  apply_parameter_lem p d s k = rw (s.found, apply_parameter) (stored_row p d s k)

  pub encode_records_lem :
      (ps : List Parameter)
      → All IsSaved ps
      → All (IsKept c) ps
      → encode_records c (map (λ p. (row p).id) ps) ≡ some (records_of ps)
  unfolding encode_records
  encode_records_lem [] s k = refl
  encode_records_lem (p ∷ ps) (s, ss) (k, ks) =
      rw (encode_record_lem p s k, encode_records, encode_records_lem ps ss ks) refl

  pub length-records_of : (ps : List Parameter) → length (records_of ps) ≡ 12 * length ps
  length-records_of [] = refl
  length-records_of (p ∷ ps) = omega (
    arith,
    length-append (put_u32 (row p).id ++ put_u64 (value_of p)) (records_of ps),
    length-append (put_u32 (row p).id) (put_u64 (value_of p)),
    length-put_bytes 4 (row p).id,
    length-put_bytes 8 (value_of p),
    length-records_of ps,
  )

  pub decode_records_lem :
      (ps : List Parameter) (d : PersistentConfig)
      → All IsSaved ps
      → All (IsKept c) ps
      → decode_records (map (λ p. (row p).id) ps) (records_of ps) d ≡ some (copy_fields ps d)
  unfolding decode_records
  decode_records_lem [] d s k = refl
  decode_records_lem (p ∷ ps) d (s, ss) (k, ks) =
      let (e, f, g) = read_record (row p).id (value_of p) (records_of ps) s.id_fits k.0.fits in
      decode_turn (row p).id (map (λ q. (row q).id) ps) (records_of (p ∷ ps)) (records_of ps)
        (value_of p) d (copy_field p c d) (some (copy_fields ps (copy_field p c d))) e f g
        k.0.finite (apply_parameter_lem p d s k) (decode_records_lem ps (copy_field p c d) ss ks)
