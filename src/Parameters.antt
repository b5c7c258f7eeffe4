-- ===== src/Parameters.antt =====
-- native/src/parameter_contract.cpp and native/include/m3/parameter_contract.hpp: the table of
-- parameters, and the values of a configuration by parameter. The texts of values are left out.
pub mod Apply
pub mod Range
pub mod Steps
pub mod Grid
pub mod Plain
pub mod Stored
pub mod Kept
pub mod Structural
use Prim.Native.String.{String}
use polyphonic_audio_to_midi.Prelude.{
  ℕ, zero, suc, ◌+◌, ◌-◌, ◌%◌, Bool, true, false, not, ◌&&◌, ◌||◌, List, [], ◌∷◌, Option, none,
  some, ltb, ◌==◌, if◌then◌else◌, length, get_elem?,
}
use polyphonic_audio_to_midi.Types.{PersistentConfig, Status, status_value}
use polyphonic_audio_to_midi.Double.{Double, is_finite, less, equal}
use polyphonic_audio_to_midi.Double.Arith.{
  quiet_nan, of_nat, of_fraction, negate, add, sub, mul, div, round, max, min, truncate,
}
use polyphonic_audio_to_midi.ConfigRequest.{
  routing_value, routing_of, profile_value, profile_of, velocity_value, velocity_of, bool_value,
}

abbrev pub ParameterId : Type 0
ParameterId = ℕ

abbrev pub panic_parameter_id : ParameterId
panic_parameter_id = 0x4d33000e

abbrev pub status_parameter_id : ParameterId
status_parameter_id = 0x4d33ff01

pub data ParameterUpdateClass : Type 0 where
  structural runtime action telemetry : ParameterUpdateClass

pub data ParameterApplyResult : Type 0 where
  rejected unchanged changed panic : ParameterApplyResult

-- No name in the table is null.
pub record ParameterSpec : Type 0 where
  pub id : ParameterId
  pub name : String
  pub minimum : Double
  pub maximum : Double
  pub increment : Double
  pub default_value : Double
  pub step_count : ℕ
  pub update_class : ParameterUpdateClass
  pub persistent : Bool
  pub list : Bool
  pub read_only : Bool

-- A row whose numbers are integers and whose increment is 1.
abbrev pub integer_row :
    ParameterId → String → ℕ → ℕ → ℕ → ParameterUpdateClass → Bool → Bool → Bool → ParameterSpec
unfolding of_nat
integer_row id name low high value update_class persistent list read_only = record {
  id = id;
  name = name;
  minimum = of_nat low;
  maximum = of_nat high;
  increment = of_nat 1;
  default_value = of_nat value;
  step_count = high - low;
  update_class = update_class;
  persistent = persistent;
  list = list;
  read_only = read_only;
}

abbrev pub a4_row : ParameterSpec
unfolding of_nat of_fraction
a4_row = record {
  id = 0x4d330003;
  name = "A4 reference";
  minimum = of_nat 400;
  maximum = of_nat 480;
  increment = of_fraction 1 10;
  default_value = of_nat 440;
  step_count = 800;
  update_class = structural;
  persistent = true;
  list = false;
  read_only = false;
}

abbrev pub trim_row : ParameterSpec
unfolding of_nat of_fraction
trim_row = record {
  id = 0x4d330004;
  name = "Input trim";
  minimum = negate (of_nat 24);
  maximum = of_nat 24;
  increment = of_fraction 1 10;
  default_value = 0;
  step_count = 480;
  update_class = runtime;
  persistent = true;
  list = false;
  read_only = false;
}

-- The rows of the table, and the cases of the switches on an identifier.
pub data Parameter : Type 0 where
  routing mode a4 trim sensitivity response lowest highest polyphony fret velocity fixed_velocity
        channel panic_action dry status_telemetry :
      Parameter

abbrev pub row : Parameter → ParameterSpec
row routing = integer_row 0x4d330001 "MIDI routing" 0 1 0 structural true true false
row mode = integer_row 0x4d330002 "Mode" 0 1 0 structural true true false
row a4 = a4_row
row trim = trim_row
row sensitivity = integer_row 0x4d330005 "Sensitivity" 0 100 50 runtime true false false
row response = integer_row 0x4d330006 "Response" 0 100 25 runtime true false false
row lowest = integer_row 0x4d330007 "Lowest MIDI note" 24 108 32 structural true false false
row highest = integer_row 0x4d330008 "Highest MIDI note" 24 108 84 structural true false false
row polyphony = integer_row 0x4d330009 "Maximum polyphony" 1 8 8 structural true false false
row fret = integer_row 0x4d33000a "M3 maximum fret" 0 36 24 structural true false false
row velocity = integer_row 0x4d33000b "Velocity mode" 0 1 1 runtime true true false
row fixed_velocity = integer_row 0x4d33000c "Fixed velocity" 1 127 100 runtime true false false
row channel = integer_row 0x4d33000d "MIDI channel" 1 16 1 structural true false false
row panic_action = integer_row panic_parameter_id "Panic" 0 1 0 action false true false
row dry = integer_row 0x4d33000f "Dry audio" 0 1 1 runtime true true false
row status_telemetry = integer_row status_parameter_id "Status" 0 5 0 telemetry false true true

-- `kParameters`, in its order.
abbrev pub parameters : List Parameter
parameters =
    routing ∷ mode ∷ a4 ∷ trim ∷ sensitivity ∷ response ∷ lowest ∷ highest ∷ polyphony ∷ fret
    ∷ velocity ∷ fixed_velocity ∷ channel ∷ panic_action ∷ dry ∷ status_telemetry ∷ []

-- `kPersistentIds`, likewise.
abbrev pub persistent_parameters : List Parameter
persistent_parameters =
    routing ∷ mode ∷ a4 ∷ trim ∷ sensitivity ∷ response ∷ lowest ∷ highest ∷ polyphony ∷ fret
    ∷ velocity ∷ fixed_velocity ∷ channel ∷ dry ∷ []

unfoldable pub parameter_spec : ℕ → Option ParameterSpec
parameter_spec index = elim (get_elem? parameters index) [ none ↦ none | some p ↦ some (row p) ]

-- The row of the identifier, by the first match.
unfoldable pub first_match : List Parameter → ParameterId → Option Parameter
first_match [] id = none
first_match (p ∷ ps) id = if (row p).id == id then some p else first_match ps id

unfoldable pub find_parameter : ParameterId → Option Parameter
unfolding first_match
find_parameter id = first_match parameters id

unfoldable pub valid_spec : ParameterSpec → Bool
valid_spec spec =
    is_finite spec.minimum
    && is_finite spec.maximum
    && is_finite spec.increment
    && less spec.minimum spec.maximum
    && less 0 spec.increment
    && ltb 0 spec.step_count

-- The last bound and rounding to a step.
abbrev pub bounded : ParameterSpec → Double → Double
bounded spec value = max spec.minimum (min value spec.maximum)

unfoldable pub rounded : ParameterSpec → Double → Double
unfolding add sub mul div round
rounded spec value =
    let steps = round (div (sub (bounded spec value) spec.minimum) spec.increment) in
    add spec.minimum (mul steps spec.increment)

unfoldable pub canonical_plain : ParameterSpec → Double → Double
unfolding valid_spec rounded max min
canonical_plain spec value =
    if not (valid_spec spec) || not (is_finite value)
    then quiet_nan
    else bounded spec (rounded spec value)

unfoldable pub plain_to_normalized : ParameterSpec → Double → Double
unfolding canonical_plain
plain_to_normalized spec value =
    let plain = canonical_plain spec value in
    if not (is_finite plain)
    then quiet_nan
    else max 0 (min (div (sub plain spec.minimum) (sub spec.maximum spec.minimum)) (of_nat 1))

unfoldable pub normalized_to_plain : ParameterSpec → Double → Double
unfolding canonical_plain
normalized_to_plain spec value =
    let normalized = max 0 (min value (of_nat 1)) in
    if not (valid_spec spec) || not (is_finite value)
    then quiet_nan
    else canonical_plain spec (add spec.minimum (mul normalized (sub spec.maximum spec.minimum)))

-- A case of `parameter_value`.
unfoldable pub field_value : PersistentConfig → Status → Parameter → Double
unfolding of_nat
field_value c status routing = of_nat (routing_value c.midi_routing)
field_value c status mode = of_nat (profile_value c.profile_mode)
field_value c status a4 = c.a4_hz
field_value c status trim = c.input_trim_db
field_value c status sensitivity = of_nat c.sensitivity
field_value c status response = of_nat c.response
field_value c status lowest = of_nat c.lowest_note
field_value c status highest = of_nat c.highest_note
field_value c status polyphony = of_nat c.max_polyphony
field_value c status fret = of_nat c.max_fret
field_value c status velocity = of_nat (velocity_value c.velocity_mode)
field_value c status fixed_velocity = of_nat c.fixed_velocity
field_value c status channel = of_nat c.midi_channel
field_value c status panic_action = 0
field_value c status dry = of_nat (bool_value c.dry_passthrough)
field_value c status status_telemetry = of_nat (status_value status)

-- The switch has a case for each row of the table.
unfoldable pub parameter_value : PersistentConfig → Status → ParameterId → Option Double
unfolding find_parameter field_value
parameter_value c status id = elim (find_parameter id) [
  | none ↦ none
  | some p ↦ some (field_value c status p)
]

abbrev pub byte_of : Double → ℕ
byte_of value = truncate value % 256

-- A case of `apply_parameter`; `none` is the default.
unfoldable pub store_field : Parameter → Double → PersistentConfig → Option PersistentConfig
unfolding truncate less
store_field routing value c = some (record c { midi_routing = routing_of (byte_of value) })
store_field mode value c = some (record c { profile_mode = profile_of (byte_of value) })
store_field a4 value c = some (record c { a4_hz = value })
store_field trim value c = some (record c { input_trim_db = value })
store_field sensitivity value c = some (record c { sensitivity = byte_of value })
store_field response value c = some (record c { response = byte_of value })
store_field lowest value c = some (record c { lowest_note = byte_of value })
store_field highest value c = some (record c { highest_note = byte_of value })
store_field polyphony value c = some (record c { max_polyphony = byte_of value })
store_field fret value c = some (record c { max_fret = byte_of value })
store_field velocity value c = some (record c { velocity_mode = velocity_of (byte_of value) })
store_field fixed_velocity value c = some (record c { fixed_velocity = byte_of value })
store_field channel value c = some (record c { midi_channel = byte_of value })
store_field panic_action value c = none
store_field dry value c = some (record c { dry_passthrough = not (less value (of_nat 1)) })
store_field status_telemetry value c = none

-- `apply_parameter` past the search for the row.
unfoldable pub apply_row :
    Parameter → Double → PersistentConfig → ParameterApplyResult × PersistentConfig
unfolding canonical_plain field_value store_field
apply_row p plain_value c =
    let value = canonical_plain (row p) plain_value in
    if (row p).read_only || not (is_finite plain_value)
    then (rejected, c)
    else if not (is_finite value)
    then (rejected, c)
    else if (row p).id == panic_parameter_id
    then (if less value (of_nat 1) then unchanged else panic, c)
    else elim (store_field p value c) [
      | none ↦ (rejected, c)
      | some c' ↦ (if equal (field_value c Status.ready p) value then unchanged else changed, c')
    ]

unfoldable pub apply_parameter :
    PersistentConfig → ParameterId → Double → ParameterApplyResult × PersistentConfig
unfolding find_parameter apply_row
apply_parameter c id plain_value = elim (find_parameter id) [
  | none ↦ (rejected, c)
  | some p ↦ apply_row p plain_value c
]
