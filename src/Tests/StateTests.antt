-- ===== src/Tests/StateTests.antt =====
-- The theorems on the parameters and on the images of states.
use polyphonic_audio_to_midi.Prelude.{
  ℕ, ◌≡◌, ◌≢◌, refl, true, List, [], some, none, arith, get_or, set,
}
use polyphonic_audio_to_midi.Types.{default_config}
use polyphonic_audio_to_midi.Double.{is_finite}
use polyphonic_audio_to_midi.Double.Arith.{of_nat, of_fraction}
use polyphonic_audio_to_midi.Parameters.{
  row, a4, fret, field_value, canonical_plain, normalized_to_plain, plain_to_normalized,
  apply_parameter,
}
use polyphonic_audio_to_midi.Parameters.Range.{IsInRange, apply_parameter-IsInRange}
use polyphonic_audio_to_midi.Parameters.Grid.{
  canonical_plain_idem, normalized_to_plain-plain_to_normalized,
}
use polyphonic_audio_to_midi.Parameters.Stored.{
  IsStored, default_config-IsStored, apply_parameter-IsStored,
}
use polyphonic_audio_to_midi.StateImage.{header, put_bytes, decode_state, state_codec}
use polyphonic_audio_to_midi.StateImage.RoundTrip.{
  Restored, framed, payload_of, framed-IsByte, decode_state_lem, decode_state-encode_state,
  decode_state-IsStored, saved_then_loaded,
}
use polyphonic_audio_to_midi.StateImage.Tamper.{decode_state-set}
use polyphonic_audio_to_midi.StateStream.{save_state, load_state}
use polyphonic_audio_to_midi.Tests.TransportTests.{memory, memory-IsStream}

-- 441.27 Hz.
abbrev pitch : ℕ
unfolding of_fraction
pitch = of_fraction 44127 100

pitch-is_finite : is_finite pitch ≡ true
unfolding is_finite of_fraction
pitch-is_finite = refl

-- The pitch is rounded to a tenth, and a number out of the range to its end.
plain_values :
    (canonical_plain (row a4) pitch ≡ of_fraction 4413 10)
    × (canonical_plain (row fret) (of_nat 99) ≡ of_nat 36)
unfolding canonical_plain of_nat of_fraction
plain_values = (refl, refl)

canonical_plain_idem_example :
    (is_finite (canonical_plain (row a4) pitch) ≡ true)
    × (canonical_plain (row a4) (canonical_plain (row a4) pitch) ≡ canonical_plain (row a4) pitch)
canonical_plain_idem_example = canonical_plain_idem a4 pitch pitch-is_finite

normalized_to_plain-plain_to_normalized_example :
    normalized_to_plain (row a4) (plain_to_normalized (row a4) pitch)
    ≡ canonical_plain (row a4) pitch
normalized_to_plain-plain_to_normalized_example =
    normalized_to_plain-plain_to_normalized a4 pitch pitch-is_finite

apply_parameter-IsInRange_example : IsInRange (apply_parameter default_config 0x4d330003 pitch).1
apply_parameter-IsInRange_example =
    apply_parameter-IsInRange default_config 0x4d330003 pitch default_config-IsStored.in_range

apply_parameter-IsStored_example : IsStored (apply_parameter default_config 0x4d330003 pitch).1
apply_parameter-IsStored_example =
    apply_parameter-IsStored default_config 0x4d330003 pitch default_config-IsStored

decode_state-encode_state_example : Restored default_config
decode_state-encode_state_example = decode_state-encode_state default_config default_config-IsStored

abbrev image : List ℕ
image = framed (payload_of default_config)

image_decoded : decode_state image ≡ some default_config
image_decoded = decode_state_lem default_config default_config-IsStored

decode_state-IsStored_example : IsStored default_config
decode_state-IsStored_example = decode_state-IsStored image default_config image_decoded

-- The first byte of the first value, which is 0.
byte_changed : 1 ≢ get_or image 20 0
unfolding header put_bytes field_value of_nat
byte_changed e = omega (arith, e)

decode_state-set_example : decode_state (set image 20 1) ≡ none
decode_state-set_example =
    decode_state-set image 20 1 default_config (framed-IsByte default_config) (omega arith)
      image_decoded (omega arith) byte_changed

saved_then_loaded_example :
    ((save_state memory state_codec default_config []).0 ≡ true)
    × ((load_state memory state_codec (save_state memory state_codec default_config []).1).0
        ≡ some default_config)
saved_then_loaded_example =
    saved_then_loaded memory (λ s. s) (λ s. s) default_config []
      (save_state memory state_codec default_config []).1 memory-IsStream default_config-IsStored
      refl refl
