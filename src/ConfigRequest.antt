-- ===== src/ConfigRequest.antt =====
-- native/plugin/prepared_config_exchange.cpp, first half: `generation_newer`, AtomicConfigRequest and
-- the copies of parts of a configuration. The calls are modelled as they run undisturbed.
pub mod Generation
pub mod RoundTrip
use polyphonic_audio_to_midi.Prelude.{
  ℕ, zero, suc, ◌+◌, ◌-◌, ◌%◌, ◌^◌, Bool, true, false, not, ◌&&◌, ◌||◌, List, [], ◌∷◌, Option, none,
  some, ltb, ◌==◌, if◌then◌else◌, get_or,
}
use polyphonic_audio_to_midi.Types.{PersistentConfig, MidiRouting, ProfileMode, VelocityMode}
use polyphonic_audio_to_midi.Double.{equal}

-- The half of the range ahead of `reference` is newer than it.
unfoldable pub generation_newer : ℕ → ℕ → Bool
generation_newer candidate reference =
    let distance = (candidate + 2 ^ 64 - reference) % 2 ^ 64 in
    not (distance == 0) && ltb distance (2 ^ 63)

-- `static_cast<std::uint64_t>` of an enumerator, and the cast back, which keeps a byte.
abbrev pub routing_value : MidiRouting → ℕ
routing_value MidiRouting.single = 0
routing_value MidiRouting.per_voice = 1
routing_value (MidiRouting.unnamed n) = n

abbrev pub routing_of : ℕ → MidiRouting
routing_of n =
    if n % 256 == 0
    then MidiRouting.single
    else if n % 256 == 1
    then MidiRouting.per_voice
    else MidiRouting.unnamed (n % 256)

abbrev pub profile_value : ProfileMode → ℕ
profile_value ProfileMode.m3 = 0
profile_value ProfileMode.general = 1
profile_value (ProfileMode.unnamed n) = n

abbrev pub profile_of : ℕ → ProfileMode
profile_of n =
    if n % 256 == 0
    then ProfileMode.m3
    else if n % 256 == 1
    then ProfileMode.general
    else ProfileMode.unnamed (n % 256)

abbrev pub velocity_value : VelocityMode → ℕ
velocity_value VelocityMode.fixed = 0
velocity_value VelocityMode.dynamic = 1
velocity_value (VelocityMode.unnamed n) = n

abbrev pub velocity_of : ℕ → VelocityMode
velocity_of n =
    if n % 256 == 0
    then VelocityMode.fixed
    else if n % 256 == 1
    then VelocityMode.dynamic
    else VelocityMode.unnamed (n % 256)

abbrev pub bool_value : Bool → ℕ
bool_value b = if b then 1 else 0

-- The fourteen words, in the order of `kMidiRouting` to `kDryPassthrough`. A `double` is its bits.
unfoldable pub store_fields : PersistentConfig → List ℕ
store_fields c =
    routing_value c.midi_routing
    ∷ profile_value c.profile_mode
    ∷ c.a4_hz
    ∷ c.input_trim_db
    ∷ c.sensitivity
    ∷ c.response
    ∷ c.lowest_note
    ∷ c.highest_note
    ∷ c.max_polyphony
    ∷ c.max_fret
    ∷ velocity_value c.velocity_mode
    ∷ c.fixed_velocity
    ∷ c.midi_channel
    ∷ bool_value c.dry_passthrough
    ∷ []

unfoldable pub load_fields : List ℕ → PersistentConfig
load_fields fields = record {
  midi_routing = routing_of (get_or fields 0 0);
  profile_mode = profile_of (get_or fields 1 0);
  a4_hz = get_or fields 2 0;
  input_trim_db = get_or fields 3 0;
  sensitivity = get_or fields 4 0 % 256;
  response = get_or fields 5 0 % 256;
  lowest_note = get_or fields 6 0 % 256;
  highest_note = get_or fields 7 0 % 256;
  max_polyphony = get_or fields 8 0 % 256;
  max_fret = get_or fields 9 0 % 256;
  velocity_mode = velocity_of (get_or fields 10 0);
  fixed_velocity = get_or fields 11 0 % 256;
  midi_channel = get_or fields 12 0 % 256;
  dry_passthrough = not (get_or fields 13 0 == 0);
}

pub record AtomicConfigRequest : Type 0 where
  pub sequence : ℕ
  pub fields : List ℕ
  pub generation : ℕ

pub record ConfigRequestSnapshot : Type 0 where
  pub config : PersistentConfig
  pub generation : ℕ

-- The constructor.
unfoldable pub new_request : PersistentConfig → ℕ → AtomicConfigRequest
new_request c generation = record { sequence = 0; fields = store_fields c; generation = generation }

abbrev pub add64 : ℕ → ℕ → ℕ
add64 a b = (a + b) % 2 ^ 64

-- The compare-exchange succeeds, as nobody stores between it and the load.
unfoldable pub publish : PersistentConfig → ℕ → AtomicConfigRequest → Bool × AtomicConfigRequest
publish c generation r =
    if r.sequence % 2 == 1
    then (false, r)
    else if not (generation_newer generation r.generation)
    then (false, record r { sequence = add64 r.sequence 2 })
    else (
      true,
      record { sequence = add64 r.sequence 2; fields = store_fields c; generation = generation },
    )

unfoldable pub reset : PersistentConfig → ℕ → AtomicConfigRequest → AtomicConfigRequest
reset c generation r =
    let even_sequence = if r.sequence % 2 == 0 then r.sequence else add64 r.sequence 1 in
    record { sequence = add64 even_sequence 2; fields = store_fields c; generation = generation }

-- The attempts that are left; the second load of the sequence finds what the first one found.
unfoldable pub snapshot : ℕ → AtomicConfigRequest → Option ConfigRequestSnapshot
snapshot zero r = none
snapshot (suc attempts) r =
    let again = snapshot attempts r in
    if r.sequence % 2 == 1
    then again
    else some (record { config = load_fields r.fields; generation = r.generation })

unfoldable pub structural_config_equal : PersistentConfig → PersistentConfig → Bool
structural_config_equal left right =
    routing_value left.midi_routing == routing_value right.midi_routing
    && profile_value left.profile_mode == profile_value right.profile_mode
    && equal left.a4_hz right.a4_hz
    && left.lowest_note == right.lowest_note
    && left.highest_note == right.highest_note
    && left.max_polyphony == right.max_polyphony
    && left.max_fret == right.max_fret
    && left.midi_channel == right.midi_channel

unfoldable pub copy_structural_config : PersistentConfig → PersistentConfig → PersistentConfig
copy_structural_config destination source = record destination {
  midi_routing = source.midi_routing;
  profile_mode = source.profile_mode;
  a4_hz = source.a4_hz;
  lowest_note = source.lowest_note;
  highest_note = source.highest_note;
  max_polyphony = source.max_polyphony;
  max_fret = source.max_fret;
  midi_channel = source.midi_channel;
}

unfoldable pub copy_runtime_config : PersistentConfig → PersistentConfig → PersistentConfig
copy_runtime_config destination source = record destination {
  input_trim_db = source.input_trim_db;
  sensitivity = source.sensitivity;
  response = source.response;
  velocity_mode = source.velocity_mode;
  fixed_velocity = source.fixed_velocity;
  dry_passthrough = source.dry_passthrough;
}
