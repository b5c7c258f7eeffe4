-- ===== src/StateImage.antt =====
-- native/src/state_image.cpp and native/include/m3/state_image.hpp: a configuration as an image of
-- 184 bytes, with a checksum. An image that is not complete is not kept, so that the code's output
-- after a failure has no counterpart here.
pub mod Bytes
pub mod Xor
pub mod Crc
pub mod Records
pub mod RoundTrip
pub mod Tamper
use Prim.Native.Nat.{bit_xor}
use polyphonic_audio_to_midi.Prelude.{
  ℕ, zero, suc, ◌+◌, ◌*◌, ◌/◌, ◌%◌, ◌^◌, Bool, true, false, not, ◌&&◌, ◌||◌, List, [], ◌∷◌, ◌++◌,
  map, Option, none, some, ◌==◌, if◌then◌else◌, length, get_or, drop,
}
use polyphonic_audio_to_midi.Types.{PersistentConfig, Status, default_config}
use polyphonic_audio_to_midi.Double.{Double, is_finite, less}
use polyphonic_audio_to_midi.Parameters.{
  Parameter, ParameterId, ParameterSpec, row, persistent_parameters, parameter_value,
  find_parameter, apply_parameter, ParameterApplyResult, rejected, unchanged, changed, panic,
}
use polyphonic_audio_to_midi.StateStream.{Codec}

abbrev pub header_size : ℕ
header_size = 16

abbrev pub record_size : ℕ
record_size = 12

abbrev pub payload_size : ℕ
payload_size = 168

abbrev pub state_size : ℕ
state_size = 184

abbrev pub persistent_parameter_count : ℕ
persistent_parameter_count = 14

-- The lowest byte first.
unfoldable pub put_bytes : ℕ → ℕ → List ℕ
put_bytes zero value = []
put_bytes (suc count) value = value % 256 ∷ put_bytes count (value / 256)

abbrev pub put_u16 : ℕ → List ℕ
put_u16 = put_bytes 2

abbrev pub put_u32 : ℕ → List ℕ
put_u32 = put_bytes 4

abbrev pub put_u64 : ℕ → List ℕ
put_u64 = put_bytes 8

-- The shifted bytes have no bit in common, so that the `|` of the code is a sum.
unfoldable pub get_bytes : ℕ → List ℕ → ℕ
get_bytes zero bytes = 0
get_bytes (suc count) [] = 0
get_bytes (suc count) (b ∷ bytes) = b + 256 * get_bytes count bytes

abbrev pub get_u16 : List ℕ → ℕ
get_u16 = get_bytes 2

abbrev pub get_u32 : List ℕ → ℕ
get_u32 = get_bytes 4

abbrev pub get_u64 : List ℕ → ℕ
get_u64 = get_bytes 8

-- A turn of the inner loop: the mask is all ones for an odd checksum.
abbrev pub crc_step : ℕ → ℕ
crc_step crc = if crc % 2 == 1 then bit_xor (crc / 2) 0xedb88320 else crc / 2

abbrev pub crc_bits : ℕ → ℕ → ℕ
crc_bits zero crc = crc
crc_bits (suc count) crc = crc_bits count (crc_step crc)

abbrev pub crc_bytes : List ℕ → ℕ → ℕ
crc_bytes [] crc = crc
crc_bytes (b ∷ bytes) crc = crc_bytes bytes (crc_bits 8 (bit_xor crc b))

unfoldable pub crc32 : List ℕ → ℕ
crc32 bytes = bit_xor (crc_bytes bytes 0xffffffff) 0xffffffff

-- `persistent_parameter_ids`
abbrev pub persistent_ids : List ParameterId
persistent_ids = map (λ p. (row p).id) persistent_parameters

-- A turn of the loop over the parameters.
unfoldable pub encode_record : PersistentConfig → ParameterId → Option (List ℕ)
unfolding parameter_value find_parameter put_bytes
encode_record config id = elim (parameter_value config Status.ready id) [
  | none ↦ none
  | some value ↦ elim (find_parameter id) [
    | none ↦ none
    | some p ↦
        if not (is_finite value)
        then none
        else if less value (row p).minimum || less (row p).maximum value
        then none
        else some (put_u32 id ++ put_u64 value)
  ]
]

unfoldable pub encode_records : PersistentConfig → List ParameterId → Option (List ℕ)
unfolding encode_record
encode_records config [] = some []
encode_records config (id ∷ ids) = elim (encode_record config id) [
  | none ↦ none
  | some bytes ↦ elim (encode_records config ids) [ none ↦ none | some rest ↦ some (bytes ++ rest) ]
]

-- "M3PA", the version, the number of parameters and the size of the payload.
unfoldable pub header : List ℕ
unfolding put_bytes
header =
    (0x4d ∷ 0x33 ∷ 0x50 ∷ 0x41 ∷ [])
    ++ put_u16 1
    ++ put_u16 persistent_parameter_count
    ++ put_u32 payload_size

unfoldable pub encode_state : PersistentConfig → Option (List ℕ)
unfolding encode_records crc32 header put_bytes
encode_state config = elim (encode_records config persistent_ids) [
  | none ↦ none
  | some payload ↦ some (header ++ put_u32 (crc32 payload) ++ payload)
]

abbrev pub is_applied : ParameterApplyResult → Bool
is_applied rejected = false
is_applied unchanged = true
is_applied changed = true
is_applied panic = false

-- The loop over the parameters; `none` returns false.
unfoldable pub decode_records :
    List ParameterId → List ℕ → PersistentConfig → Option PersistentConfig
unfolding get_bytes apply_parameter
decode_records [] bytes candidate = some candidate
decode_records (id ∷ ids) bytes candidate =
    let value : Double = get_u64 (drop 4 bytes) in
    let (result, applied) = apply_parameter candidate id value in
    let rest = decode_records ids (drop record_size bytes) applied in
    if not (get_u32 bytes == id)
    then none
    else if not (is_finite value)
    then none
    else if not (is_applied result)
    then none
    else rest

-- The tests on the first sixteen bytes, of an image of the right size.
unfoldable pub valid_header : List ℕ → Bool
unfolding get_bytes crc32
valid_header bytes =
    get_or bytes 0 0 == 0x4d
    && get_or bytes 1 0 == 0x33
    && get_or bytes 2 0 == 0x50
    && get_or bytes 3 0 == 0x41
    && get_u16 (drop 4 bytes) == 1
    && get_u16 (drop 6 bytes) == persistent_parameter_count
    && get_u32 (drop 8 bytes) == payload_size
    && get_u32 (drop 12 bytes) == crc32 (drop header_size bytes)

unfoldable pub decode_state : List ℕ → Option PersistentConfig
unfolding valid_header decode_records
decode_state bytes =
    if not (length bytes == state_size) || not (valid_header bytes)
    then none
    else decode_records persistent_ids (drop header_size bytes) default_config

-- The codec of the streams of states.
abbrev pub state_codec : Codec PersistentConfig
unfolding encode_state decode_state
state_codec = record { size = state_size; encode = encode_state; decode = decode_state }
