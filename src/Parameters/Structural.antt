-- ===== src/Parameters/Structural.antt =====
-- The comparison of the structural parts of two configurations.
use polyphonic_audio_to_midi.Prelude.{
  ℕ, ◌^◌, ◌≤◌, ◌<◌, ◌≡◌, refl, sym, ap, ◌∙◌, Bool, true, false, not, ◌&&◌, ◌||◌, arith, ◌==◌,
}
use mathlib.Core.Logic.{◌↔◌}
use polyphonic_audio_to_midi.Types.{PersistentConfig, MidiRouting, ProfileMode}
use polyphonic_audio_to_midi.Double.{Double, is_nan, equal, magnitude_bits, sign_bit}
use polyphonic_audio_to_midi.Double.Arith.{of_nat}
use polyphonic_audio_to_midi.Double.Order.{IsWithin-magnitude_bits}
use polyphonic_audio_to_midi.ConfigRequest.{
  routing_value, routing_of, profile_value, profile_of, structural_config_equal,
  copy_structural_config,
}
use polyphonic_audio_to_midi.ConfigRequest.RoundTrip.{
  RoutingNamed, ProfileNamed, routing_round, profile_round,
}
use polyphonic_audio_to_midi.Parameters.{row, a4}
use polyphonic_audio_to_midi.Parameters.Plain.{step-IsPlain}
use polyphonic_audio_to_midi.Parameters.Stored.{IsStored}

same_routing :
    (a b : MidiRouting)
    → RoutingNamed a
    → RoutingNamed b
    → routing_value a ≡ routing_value b
    → a ≡ b
same_routing a b h k e = sym (routing_round a h) ∙ ap routing_of e ∙ routing_round b k

same_profile :
    (a b : ProfileMode)
    → ProfileNamed a
    → ProfileNamed b
    → profile_value a ≡ profile_value b
    → a ≡ b
same_profile a b h k e = sym (profile_round a h) ∙ ap profile_of e ∙ profile_round b k

-- A pitch is a positive number of 64 bits.
record IsPitch (d : Double) : Type 0 where
  fits : d < 2 ^ 64
  positive : 1 ≤ magnitude_bits d
  a_number : is_nan d ≡ false

stored-IsPitch : (c : PersistentConfig) → IsStored c → IsPitch c.a4_hz
unfolding of_nat is_nan
stored-IsPitch c h =
    let plain = step-IsPlain a4 c.a4_hz h.named.3 h.in_range.a4_in in
    let (above, _) =
      IsWithin-magnitude_bits (row a4).minimum (row a4).maximum c.a4_hz (omega arith) (omega arith)
        refl refl h.in_range.a4_in in
    let low : 1 ≤ (row a4).minimum = omega arith in
    record {
      fits = plain.fits;
      positive = omega (arith, low, above);
      a_number = h.in_range.a4_in.a_number;
    }

same_parts :
    (na nb : Bool) (ma mb sa sb : ℕ)
    → 1 ≤ ma
    → (not na && not nb && (ma == 0 && mb == 0 || sa == sb && ma == mb)) ≡ true
    → (sa ≡ sb) × (ma ≡ mb)
same_parts na nb ma mb sa sb h e = ground arith

same_pitch : (a b : Double) → IsPitch a → IsPitch b → equal a b ≡ true → a ≡ b
unfolding equal
same_pitch a b h k e =
    let (signs, magnitudes) =
      same_parts (is_nan a) (is_nan b) (magnitude_bits a) (magnitude_bits b) (sign_bit a)
        (sign_bit b) h.positive e in
    omega (arith, signs, magnitudes, h.fits, k.fits)

equal_self : (d : Double) → is_nan d ≡ false → equal d d ≡ true
unfolding equal
equal_self d h = ground arith

eight_equal :
    (r r' p p' : ℕ) (pitch : Bool) (l l' h h' v v' f f' c c' : ℕ)
    → (r == r' && p == p' && pitch && l == l' && h == h' && v == v' && f == f' && c == c') ≡ true
    → (r ≡ r') × (p ≡ p') × (pitch ≡ true) × (l ≡ l') × (h ≡ h') × (v ≡ v') × (f ≡ f') × (c ≡ c')
eight_equal r r' p p' pitch l l' h h' v v' f f' c c' e = ground arith

eight_true :
    (r r' p p' : ℕ) (pitch : Bool) (l l' h h' v v' f f' c c' : ℕ)
    → r' ≡ r
    → p' ≡ p
    → pitch ≡ true
    → l' ≡ l
    → h' ≡ h
    → v' ≡ v
    → f' ≡ f
    → c' ≡ c
    → (r == r' && p == p' && pitch && l == l' && h == h' && v == v' && f == f' && c == c') ≡ true
eight_true r r' p p' pitch l l' h h' v v' f f' c c' er ep et el eh ev ef ec = ground arith

-- For configurations that can be saved, the test finds the structural parts equal exactly if copying
-- that part of the second into the first changes nothing.
pub structural_config_equal_iff :
    (left right : PersistentConfig)
    → IsStored left
    → IsStored right
    → (structural_config_equal left right ≡ true) ↔ (copy_structural_config left right ≡ left)
unfolding structural_config_equal copy_structural_config
structural_config_equal_iff left right h k = (
  λ e.
      let (r, p, pitch, l, u, v, f, c) =
        eight_equal (routing_value left.midi_routing) (routing_value right.midi_routing)
          (profile_value left.profile_mode) (profile_value right.profile_mode)
          (equal left.a4_hz right.a4_hz) left.lowest_note right.lowest_note left.highest_note
          right.highest_note left.max_polyphony right.max_polyphony left.max_fret right.max_fret
          left.midi_channel right.midi_channel e in
      let routings =
        same_routing right.midi_routing left.midi_routing k.named.0 h.named.0 (sym r) in
      let profiles =
        same_profile right.profile_mode left.profile_mode k.named.1 h.named.1 (sym p) in
      let pitches = sym (
        same_pitch left.a4_hz right.a4_hz (stored-IsPitch left h) (stored-IsPitch right k) pitch) in
      λ i. record left {
        midi_routing = routings i;
        profile_mode = profiles i;
        a4_hz = pitches i;
        lowest_note = sym l i;
        highest_note = sym u i;
        max_polyphony = sym v i;
        max_fret = sym f i;
        midi_channel = sym c i;
      },
  λ e.
      eight_true (routing_value left.midi_routing) (routing_value right.midi_routing)
        (profile_value left.profile_mode) (profile_value right.profile_mode)
        (equal left.a4_hz right.a4_hz) left.lowest_note right.lowest_note left.highest_note
        right.highest_note left.max_polyphony right.max_polyphony left.max_fret right.max_fret
        left.midi_channel right.midi_channel (ap (λ d. routing_value d.midi_routing) e)
        (ap (λ d. profile_value d.profile_mode) e)
        (ap (λ d. equal left.a4_hz d.a4_hz) e ∙ equal_self left.a4_hz h.in_range.a4_in.a_number)
        (ap (λ d. d.lowest_note) e) (ap (λ d. d.highest_note) e) (ap (λ d. d.max_polyphony) e)
        (ap (λ d. d.max_fret) e) (ap (λ d. d.midi_channel) e),
)
