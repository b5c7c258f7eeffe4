-- ===== src/TunerTelemetry/Voice.antt =====
-- A voice in three words and back.
use polyphonic_audio_to_midi.Prelude.{
  ℕ, ◌+◌, ◌*◌, ◌/◌, ◌%◌, ◌^◌, ◌≤◌, ◌<◌, ◌≡◌, refl, ◌∙◌, ◌⊎◌, inl, inr, Bool, true, false, not, ◌&&◌,
  ltb, leb, ◌==◌, arith, if◌then◌else◌, if_elim,
}
use polyphonic_audio_to_midi.Types.{max_voices, max_candidates}
use polyphonic_audio_to_midi.TunerTelemetry.{
  TunerVoice, TunerVoiceState, settling, coasting, tracking, voice_state_value, voice_state_of,
  unassigned_tuner_string, pack_voice_a, pack_voice_b, pack_voice_c, unpack_voice, bit, at_most,
  clamp_cents,
}

-- A voice whose fields are in the ranges that the transport keeps.
pub record IsTunerVoice (v : TunerVoice) : Type 0 where
  pub note_fits : v.midi_note ≤ 127
  pub cents_fit : (v.cents_q8 ≤ 12800) ⊎ ((52736 ≤ v.cents_q8) × (v.cents_q8 < 2 ^ 16))
  pub confidence_fits : v.confidence_q15 ≤ 32767
  pub age_fits : v.age_ticks < 2 ^ 16
  pub string_fits : (v.string_index < max_voices) ⊎ (v.string_index ≡ unassigned_tuner_string)
  pub group_fits :
      ((1 ≤ v.pitch_evidence_group_id) × (v.pitch_evidence_group_id ≤ max_candidates))
      ⊎ ((v.pitch_evidence_group_id ≡ 0) × (v.pitch_evidence_member_mask ≡ 0))
  pub mask_fits : v.pitch_evidence_member_mask < 2 ^ 8
  pub beat_fits : v.beat_hz_q8 < 2 ^ 16

-- A word of the six parts is read back part by part.
word_a-parts :
    (note state cents string cents_bit string_bit : ℕ)
    → note < 2 ^ 8
    → state < 2 ^ 2
    → cents_bit < 2
    → string_bit < 2
    → string < 2 ^ 3
    → let w =
        note
        + state * 2 ^ 8
        + cents_bit * 2 ^ 10
        + string_bit * 2 ^ 11
        + string * 2 ^ 12
        + cents * 2 ^ 16 in
      (w % 2 ^ 8 ≡ note)
      × (w / 2 ^ 8 % 2 ^ 2 ≡ state)
      × (w / 2 ^ 10 % 2 ≡ cents_bit)
      × (w / 2 ^ 11 % 2 ≡ string_bit)
      × (w / 2 ^ 12 % 2 ^ 3 ≡ string)
      × (w / 2 ^ 16 ≡ cents)
word_a-parts note state cents string cents_bit string_bit a b c d e =
    (omega arith, omega arith, omega arith, omega arith, omega arith, omega arith)

state-round : (s : TunerVoiceState) → voice_state_of (at_most 2 (voice_state_value s)) ≡ s
unfolding voice_state_of
state-round settling = refl
state-round coasting = refl
state-round tracking = refl

state-bound : (s : TunerVoiceState) → at_most 2 (voice_state_value s) < 2 ^ 2
state-bound settling = ground arith
state-bound coasting = ground arith
state-bound tracking = ground arith

cents-round : (n : ℕ) → (n ≤ 12800) ⊎ ((52736 ≤ n) × (n < 2 ^ 16)) → clamp_cents n ≡ n
cents-round n (inl h) = ground arith
cents-round n (inr (h, k)) = ground arith

abbrev bit_value : Bool → ℕ
bit_value b = if b then 1 else 0

bit_lem : (n : ℕ) (b : Bool) → bit n b ≡ bit_value b * 2 ^ n
bit_lem n true = ground arith
bit_lem n false = ground arith

bit-bound : (b : Bool) → bit_value b < 2
bit-bound true = ground arith
bit-bound false = ground arith

bit-round : (b : Bool) → (bit_value b == 1) ≡ b
bit-round true = refl
bit-round false = refl

abbrev string_valid : TunerVoice → Bool
string_valid v = ltb v.string_index max_voices

abbrev string_bits : TunerVoice → ℕ
string_bits v = if string_valid v then v.string_index else 0

string-bound : (v : TunerVoice) → string_bits v < 2 ^ 3
string-bound v =
    if_elim (λ n. n < 2 ^ 3) (string_valid v) v.string_index 0 (λ h. ground (arith, h))
      (λ _. ground arith)

string-round :
    (v : TunerVoice)
    → (v.string_index < max_voices) ⊎ (v.string_index ≡ unassigned_tuner_string)
    → (if bit_value (string_valid v) == 1 then string_bits v else unassigned_tuner_string)
      ≡ v.string_index
string-round v (inl h) = ground (arith, h)
string-round v (inr h) = ground (arith, h)

string_lem : (b : Bool) (n : ℕ) → (if b then n * 2 ^ 12 else 0) ≡ (if b then n else 0) * 2 ^ 12
string_lem true n = refl
string_lem false n = refl

congruent :
    (x y z a b c a' b' c' : ℕ)
    → a ≡ a'
    → b ≡ b'
    → c ≡ c'
    → x + y + a + b + c + z ≡ x + y + a' + b' + c' + z
congruent x y z a b c a' b' c' p q r = omega arith

pack_voice_a_lem :
    (v : TunerVoice)
    → pack_voice_a v
      ≡ at_most 127 v.midi_note
        + at_most 2 (voice_state_value v.state) * 2 ^ 8
        + bit_value v.cents_valid * 2 ^ 10
        + bit_value (string_valid v) * 2 ^ 11
        + string_bits v * 2 ^ 12
        + clamp_cents v.cents_q8 * 2 ^ 16
unfolding pack_voice_a
pack_voice_a_lem v =
    congruent (at_most 127 v.midi_note) (at_most 2 (voice_state_value v.state) * 2 ^ 8)
      (clamp_cents v.cents_q8 * 2 ^ 16) _ _ _ _ _ _ (bit_lem 10 v.cents_valid)
      (bit_lem 11 (string_valid v)) (string_lem (string_valid v) v.string_index)

at_most-bound : (h n : ℕ) → at_most h n ≤ h
at_most-bound h n = ground arith

pub at_most-id : (h n : ℕ) → n ≤ h → at_most h n ≡ n
at_most-id h n p = ground arith

word_b-parts :
    (confidence age : ℕ)
    → confidence < 2 ^ 16
    → ((confidence + age * 2 ^ 16) % 2 ^ 16 ≡ confidence)
      × ((confidence + age * 2 ^ 16) / 2 ^ 16 ≡ age)
word_b-parts confidence age h = (omega arith, omega arith)

word_c-parts :
    (group members beat : ℕ)
    → group < 2 ^ 8
    → members < 2 ^ 8
    → let w = group + members * 2 ^ 8 + beat * 2 ^ 16 in
      (w % 2 ^ 8 ≡ group) × (w / 2 ^ 8 % 2 ^ 8 ≡ members) × (w / 2 ^ 16 ≡ beat)
word_c-parts group members beat g m = (omega arith, omega arith, omega arith)

pack_voice_b-parts :
    (v : TunerVoice)
    → IsTunerVoice v
    → (pack_voice_b v % 2 ^ 16 ≡ v.confidence_q15) × (pack_voice_b v / 2 ^ 16 ≡ v.age_ticks)
unfolding pack_voice_b
pack_voice_b-parts v h =
    rw (at_most-id 32767 v.confidence_q15 h.confidence_fits)
      (word_b-parts v.confidence_q15 v.age_ticks (ground (arith, h.confidence_fits)))

group_valid-id :
    (g m : ℕ)
    → ((1 ≤ g) × (g ≤ max_candidates)) ⊎ ((g ≡ 0) × (m ≡ 0))
    → ((if not (g == 0) && leb g max_candidates then g else 0) ≡ g)
      × ((if not (g == 0) && leb g max_candidates then m else 0) ≡ m)
      × (g < 2 ^ 8)
group_valid-id g m (inl (lo, hi)) = ground arith
group_valid-id g m (inr (p, q)) = ground arith

pack_voice_c-parts :
    (v : TunerVoice)
    → IsTunerVoice v
    → (pack_voice_c v % 2 ^ 8 ≡ v.pitch_evidence_group_id)
      × (pack_voice_c v / 2 ^ 8 % 2 ^ 8 ≡ v.pitch_evidence_member_mask)
      × (pack_voice_c v / 2 ^ 16 ≡ v.beat_hz_q8)
unfolding pack_voice_c
pack_voice_c-parts v h =
    let (g, m, b) =
      group_valid-id v.pitch_evidence_group_id v.pitch_evidence_member_mask h.group_fits in
    rw (g, m)
      (word_c-parts v.pitch_evidence_group_id v.pitch_evidence_member_mask v.beat_hz_q8 b
        h.mask_fits)

pack_voice_a-parts :
    (v : TunerVoice)
    → IsTunerVoice v
    → (pack_voice_a v % 2 ^ 8 ≡ at_most 127 v.midi_note)
      × (pack_voice_a v / 2 ^ 8 % 2 ^ 2 ≡ at_most 2 (voice_state_value v.state))
      × (pack_voice_a v / 2 ^ 10 % 2 ≡ bit_value v.cents_valid)
      × (pack_voice_a v / 2 ^ 11 % 2 ≡ bit_value (string_valid v))
      × (pack_voice_a v / 2 ^ 12 % 2 ^ 3 ≡ string_bits v)
      × (pack_voice_a v / 2 ^ 16 ≡ clamp_cents v.cents_q8)
pack_voice_a-parts v h = rw (pack_voice_a_lem v) (
    word_a-parts (at_most 127 v.midi_note) (at_most 2 (voice_state_value v.state))
      (clamp_cents v.cents_q8) (string_bits v) (bit_value v.cents_valid)
      (bit_value (string_valid v)) (ground (arith, at_most-bound 127 v.midi_note))
      (state-bound v.state) (bit-bound v.cents_valid) (bit-bound (string_valid v)) (string-bound v))

unpack-fields :
    (v : TunerVoice) (a b c : ℕ)
    → (a % 2 ^ 8 ≡ v.midi_note)
    → (voice_state_of (a / 2 ^ 8 % 2 ^ 2) ≡ v.state)
    → ((a / 2 ^ 10 % 2 == 1) ≡ v.cents_valid)
    → ((if a / 2 ^ 11 % 2 == 1 then a / 2 ^ 12 % 2 ^ 3 else unassigned_tuner_string)
        ≡ v.string_index)
    → (a / 2 ^ 16 ≡ v.cents_q8)
    → (b % 2 ^ 16 ≡ v.confidence_q15) × (b / 2 ^ 16 ≡ v.age_ticks)
    → (c % 2 ^ 8 ≡ v.pitch_evidence_group_id)
      × (c / 2 ^ 8 % 2 ^ 8 ≡ v.pitch_evidence_member_mask)
      × (c / 2 ^ 16 ≡ v.beat_hz_q8)
    → unpack_voice a b c ≡ v
unfolding unpack_voice
unpack-fields v a b c p q r s t (u, w) (x, y, z) = rw (p, q, r, s, t, u, w, x, y, z) refl

-- A voice within the ranges that the transport keeps is read back as it was packed.
pub unpack_voice-pack_voice :
    (v : TunerVoice)
    → IsTunerVoice v
    → unpack_voice (pack_voice_a v) (pack_voice_b v) (pack_voice_c v) ≡ v
unpack_voice-pack_voice v h =
    let (note, state, cv, sv, string, cents) = pack_voice_a-parts v h in
    unpack-fields v (pack_voice_a v) (pack_voice_b v) (pack_voice_c v)
      (note ∙ at_most-id 127 v.midi_note h.note_fits) (rw state (state-round v.state))
      (rw cv (bit-round v.cents_valid)) (rw (sv, string) (string-round v h.string_fits))
      (cents ∙ cents-round v.cents_q8 h.cents_fit) (pack_voice_b-parts v h) (pack_voice_c-parts v h)
