-- ===== src/StateImage/RoundTrip.antt =====
-- A stored configuration is encoded, and decoding the image gives it back; what is decoded is a
-- stored configuration.
use mathlib.Core.Path.{subst}
use mathlib.Core.Option.{some-injective, none-ne-some}
use polyphonic_audio_to_midi.StateStream.{Stream, save_state, load_state}
use polyphonic_audio_to_midi.StateStream.RoundTrip.{IsStream, IsCodec, load_state-save_state}
use polyphonic_audio_to_midi.Double.{is_finite}
use polyphonic_audio_to_midi.Prelude.{
  ℕ, ◌≡◌, refl, sym, ap, ◌∙◌, Bool, true, false, not, ◌||◌, List, [], ◌∷◌, ◌++◌, Option, none, some,
  ◌==◌, if◌then◌else◌, length, drop, arith, All, All-append, ==_iff,
}
use polyphonic_audio_to_midi.Types.{PersistentConfig, default_config}
use polyphonic_audio_to_midi.Parameters.{
  Parameter, ParameterId, apply_parameter, row, persistent_parameters,
}
use polyphonic_audio_to_midi.Parameters.Stored.{
  IsStored, apply_parameter-IsStored, default_config-IsStored,
}
use polyphonic_audio_to_midi.Parameters.Kept.{persistent-IsKept}
use polyphonic_audio_to_midi.StateImage.{
  put_bytes, put_u16, put_u32, put_u64, persistent_parameter_count, get_bytes, get_u32, get_u64,
  record_size, is_applied, state_codec, header, crc32, state_size, header_size, payload_size,
  encode_state, decode_records, decode_state, valid_header, persistent_ids,
}
use polyphonic_audio_to_midi.StateImage.Bytes.{put_bytes-IsByte, get_bytes-put_bytes}
use polyphonic_audio_to_midi.StateImage.Crc.{IsByte, crc32-lt}
use polyphonic_audio_to_midi.StateImage.Records.{
  value_of, records_of, persistent-IsSaved, encode_records_lem, decode_records_lem,
  length-records_of,
}

abbrev pub payload_of : PersistentConfig → List ℕ
payload_of c = records_of c persistent_parameters

records_of-IsByte : (c : PersistentConfig) (ps : List Parameter) → All IsByte (records_of c ps)
records_of-IsByte c [] = tt
records_of-IsByte c (p ∷ ps) =
    All-append IsByte (put_u32 (row p).id ++ put_u64 (value_of c p)) (records_of c ps)
      (All-append IsByte (put_u32 (row p).id) (put_u64 (value_of c p))
        (put_bytes-IsByte 4 (row p).id) (put_bytes-IsByte 8 (value_of c p)))
      (records_of-IsByte c ps)

-- The image of a payload.
abbrev pub framed : List ℕ → List ℕ
framed payload = header ++ put_u32 (crc32 payload) ++ payload

framed_parts :
    (payload : List ℕ)
    → length payload ≡ payload_size
    → All IsByte payload
    → (length (framed payload) ≡ state_size)
      × (valid_header (framed payload) ≡ true)
      × (drop header_size (framed payload) ≡ payload)
unfolding header put_bytes valid_header get_bytes
framed_parts payload h a = (
  omega (arith, h),
  (==_iff (get_u32 (put_u32 (crc32 payload) ++ payload)) (crc32 payload)).1
      (get_bytes-put_bytes 4 (crc32 payload) payload (omega (arith, crc32-lt payload a))),
  refl,
)

pub encode_state_lem :
    (c : PersistentConfig) → IsStored c → encode_state c ≡ some (framed (payload_of c))
unfolding encode_state
encode_state_lem c h =
    rw
      (
        encode_records_lem c persistent_parameters persistent-IsSaved (persistent-IsKept c h),
        encode_state,
      )
      refl

decode_valid :
    (bytes payload : List ℕ)
    → length bytes ≡ state_size
    → valid_header bytes ≡ true
    → drop header_size bytes ≡ payload
    → decode_state bytes ≡ decode_records persistent_ids payload default_config
unfolding decode_state
decode_valid bytes payload sized valid e =
    let equal_sizes : (length bytes == state_size) ≡ true =
      (==_iff (length bytes) state_size).1 sized in
    rw (equal_sizes, valid) (ap (λ l. decode_records persistent_ids l default_config) e)

pub decode_state_lem :
    (c : PersistentConfig) → IsStored c → decode_state (framed (payload_of c)) ≡ some c
decode_state_lem c h =
    let (sized, valid, payload) =
      framed_parts (payload_of c) (length-records_of c persistent_parameters)
        (records_of-IsByte c persistent_parameters) in
    decode_valid (framed (payload_of c)) (payload_of c) sized valid payload
    ∙ decode_records_lem c persistent_parameters default_config persistent-IsSaved
        (persistent-IsKept c h)

header-IsByte : All IsByte header
unfolding header put_bytes
header-IsByte =
    let magic : List ℕ = 0x4d ∷ 0x33 ∷ 0x50 ∷ 0x41 ∷ [] in
    All-append IsByte ((magic ++ put_u16 1) ++ put_u16 persistent_parameter_count)
      (put_u32 payload_size)
      (All-append IsByte (magic ++ put_u16 1) (put_u16 persistent_parameter_count)
        (All-append IsByte magic (put_u16 1)
          (omega arith, (omega arith, (omega arith, (omega arith, tt)))) (put_bytes-IsByte 2 1))
        (put_bytes-IsByte 2 persistent_parameter_count))
      (put_bytes-IsByte 4 payload_size)

pub framed-IsByte : (c : PersistentConfig) → All IsByte (framed (payload_of c))
framed-IsByte c =
    All-append IsByte (header ++ put_u32 (crc32 (payload_of c))) (payload_of c)
      (All-append IsByte header (put_u32 (crc32 (payload_of c))) header-IsByte
        (put_bytes-IsByte 4 (crc32 (payload_of c))))
      (records_of-IsByte c persistent_parameters)

-- The configuration has an image of the size of a state, which gives it back.
abbrev pub Restored : PersistentConfig → Type 0
Restored c =
    (image : List ℕ) × (encode_state c ≡ some image)
    × (length image ≡ state_size)
    × (decode_state image ≡ some c)

-- A stored configuration is encoded into an image of the size of a state, and decoding that image
-- gives the configuration.
pub decode_state-encode_state : (c : PersistentConfig) → IsStored c → Restored c
decode_state-encode_state c h =
    let (sized, _, _) =
      framed_parts (payload_of c) (length-records_of c persistent_parameters)
        (records_of-IsByte c persistent_parameters) in
    (framed (payload_of c), encode_state_lem c h, sized, decode_state_lem c h)

past_tests :
    (a b r : Bool) (x : Option PersistentConfig) (c : PersistentConfig)
    → (if not a then none else if not b then none else if not r then none else x) ≡ some c
    → x ≡ some c
past_tests true true true x c e = e
past_tests true true false x c e = absurd (none-ne-some c e)
past_tests true false r x c e = absurd (none-ne-some c e)
past_tests false b r x c e = absurd (none-ne-some c e)

decode_records-IsStored :
    (ids : List ParameterId) (bytes : List ℕ) (d c : PersistentConfig)
    → IsStored d
    → decode_records ids bytes d ≡ some c
    → IsStored c
unfolding decode_records
decode_records-IsStored [] bytes d c h e = subst IsStored (some-injective _ _ e) h
decode_records-IsStored (id ∷ ids) bytes d c h e =
    let value = get_u64 (drop 4 bytes) in
    let applied = apply_parameter d id value in
    decode_records-IsStored ids (drop record_size bytes) applied.1 c
      (apply_parameter-IsStored d id value h)
      (past_tests (get_u32 bytes == id) (is_finite value) (is_applied applied.0)
        (decode_records ids (drop record_size bytes) applied.1) c e)

pub refused :
    (a : Bool) (x : Option PersistentConfig) (c : PersistentConfig)
    → (if a then none else x) ≡ some c
    → (a ≡ false) × (x ≡ some c)
refused true x c e = absurd (none-ne-some c e)
refused false x c e = (refl, e)

-- Whatever the bytes, a configuration that is decoded is a stored one.
pub decode_state-IsStored :
    (bytes : List ℕ) (c : PersistentConfig) → decode_state bytes ≡ some c → IsStored c
unfolding decode_state
decode_state-IsStored bytes c e =
    decode_records-IsStored persistent_ids (drop header_size bytes) default_config c
      default_config-IsStored
      (refused (not (length bytes == state_size) || not (valid_header bytes)) _ c e).1

-- The codec of the state images is a codec for the stored configurations, as the streams need.
pub state_codec-IsCodec : IsCodec state_codec IsStored
unfolding encode_state decode_state
state_codec-IsCodec = record {
  sizes = λ c image h e.
      let (encoded, same, sized, _) = decode_state-encode_state c h in
      subst (λ l. length l ≡ state_size) (some-injective _ _ (sym same ∙ e)) sized;
  decodes = λ c image h e.
      let (encoded, same, _, decoded) = decode_state-encode_state c h in
      subst (λ l. decode_state l ≡ some c) (some-injective _ _ (sym same ∙ e)) decoded;
}

-- A stored configuration that is saved into an empty stream is loaded from what the stream was
-- given, however the host cuts it.
pub saved_then_loaded :
    {S : Type 0} (stream : Stream S) (written unread : S → List ℕ) (c : PersistentConfig) (s s' : S)
    → IsStream stream written unread
    → IsStored c
    → written s ≡ []
    → unread s' ≡ written (save_state stream state_codec c s).1
    → ((save_state stream state_codec c s).0 ≡ true)
      × ((load_state stream state_codec s').0 ≡ some c)
unfolding encode_state decode_state
saved_then_loaded stream written unread c s s' h k w u =
    let (image, same, _, _) = decode_state-encode_state c k in
    let (saved, _, loaded) =
      load_state-save_state stream written unread state_codec IsStored c image s s' h
        state_codec-IsCodec k same w u in
    (saved, loaded)
