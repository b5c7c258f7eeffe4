-- ===== src/StateStream.antt =====
-- native/plugin/clap_state_stream.cpp and native/vst3/vst3_state_stream.cpp: a state image is written
-- to the host's stream and read from it, in as many pieces as the host takes. A loop runs on fuel,
-- the bytes that are left, since a turn that moves no byte ends it.
pub mod RoundTrip
use polyphonic_audio_to_midi.Prelude.{
  ℕ, zero, suc, ◌-◌, ◌≤◌, ◌≡◌, Bool, true, false, not, ◌&&◌, ◌||◌, Option, none, some, List, [],
  ◌∷◌, ◌++◌, ltb, ◌==◌, if◌then◌else◌, length, drop,
}

-- The host's stream, with its state. A write gives the count it took; a result that is not OK, or a
-- count that is not positive, is 0. A read gives the bytes it put into the buffer, as many as the
-- count; `none` stands for a result that is not OK and for a negative count.
pub record Stream (S : Type 0) : Type 0 where
  pub write : S → List ℕ → ℕ × S
  pub read : S → ℕ → Option (List ℕ) × S

-- A codec of images: `encode_state` and `decode_state`, with the size of the image.
pub record Codec (C : Type 0) : Type 0 where
  pub size : ℕ
  pub encode : C → Option (List ℕ)
  pub decode : List ℕ → Option C

abbrev pub bytes_of : Option (List ℕ) → List ℕ
bytes_of none = []
bytes_of (some bytes) = bytes

module _ {S : Type 0} (stream : Stream S) where
  -- Also the loop of `save_clap_state`.
  unfoldable pub write_exact : ℕ → List ℕ → S → Bool × S
  write_exact zero bytes s = (length bytes == 0, s)
  write_exact (suc fuel) bytes s =
      let (written, after) = stream.write s bytes in
      let rest = write_exact fuel (drop written bytes) after in
      if length bytes == 0
      then (true, s)
      else if written == 0 || ltb (length bytes) written
      then (false, after)
      else rest

  -- Also the loop of `load_clap_state`.
  unfoldable pub read_exact : ℕ → ℕ → S → Option (List ℕ) × S
  read_exact zero size s = (if size == 0 then some [] else none, s)
  read_exact (suc fuel) size s =
      let (reply, after) = stream.read s size in
      let bytes = bytes_of reply in
      let (rest, last) = read_exact fuel (size - length bytes) after in
      if size == 0
      then (some [], s)
      else if length bytes == 0 || ltb size (length bytes)
      then (none, after)
      else (elim rest [ none ↦ none | some more ↦ some (bytes ++ more) ], last)

  unfoldable pub read_eof : S → Bool × S
  read_eof s =
      let (reply, after) = stream.read s 1 in
      (elim reply [ none ↦ false | some bytes ↦ length bytes == 0 ], after)

  unfoldable pub read_bounded_to_eof : ℕ → ℕ → S → Option (List ℕ) × S
  unfolding read_eof
  read_bounded_to_eof zero capacity s =
      let (at_end, after) = read_eof s in (if at_end then some [] else none, after)
  read_bounded_to_eof (suc fuel) capacity s =
      let (at_end, last) = read_eof s in
      let (reply, after) = stream.read s capacity in
      let bytes = bytes_of reply in
      let (rest, end) = read_bounded_to_eof fuel (capacity - length bytes) after in
      if capacity == 0 then (if at_end then some [] else none, last) else elim reply [
        | none ↦ (none, after)
        | some got ↦
            if ltb capacity (length bytes)
            then (none, after)
            else if length bytes == 0
            then (some [], after)
            else (elim rest [ none ↦ none | some more ↦ some (bytes ++ more) ], end)
      ]

  module _ {C : Type 0} (codec : Codec C) where
    -- `save_vst3_state`; `save_clap_state` does the same.
    unfoldable pub save_state : C → S → Bool × S
    unfolding write_exact
    save_state config s = elim (codec.encode config) [
      | none ↦ (false, s)
      | some image ↦ write_exact (length image) image s
    ]

    -- `load_vst3_state`; `load_clap_state` does the same. `none` leaves the output as it was.
    unfoldable pub load_state : S → Option C × S
    unfolding read_exact read_eof
    load_state s =
        let (image, after) = read_exact codec.size codec.size s in
        let (at_end, last) = read_eof after in
        elim image [
          | none ↦ (none, after)
          | some bytes ↦ if at_end then (codec.decode bytes, last) else (none, last)
        ]

    module _ {D : Type 0} (calibrations : Codec D) (no_calibration : D) where
      unfoldable pub save_state_with_calibration : C → D → S → Bool × S
      unfolding write_exact
      save_state_with_calibration config calibration s = elim (codec.encode config) [
        | none ↦ (false, s)
        | some image ↦ elim (calibrations.encode calibration) [
          | none ↦ (false, s)
          | some more ↦
              let (written, after) = write_exact (length image) image s in
              let both = write_exact (length more) more after in
              if written then both else (false, after)
        ]
      ]

      unfoldable pub load_state_with_calibration : S → Option (C × D) × S
      unfolding read_exact read_bounded_to_eof
      load_state_with_calibration s =
          let (image, after) = read_exact codec.size codec.size s in
          let (more, last) = read_bounded_to_eof calibrations.size calibrations.size after in
          elim image [
            | none ↦ (none, after)
            | some bytes ↦ elim (codec.decode bytes) [
              | none ↦ (none, after)
              | some config ↦ elim more [
                | none ↦ (none, last)
                | some [] ↦ (some (config, no_calibration), last)
                | some (b ∷ bs) ↦ elim (calibrations.decode (b ∷ bs)) [
                  | none ↦ (none, last)
                  | some calibration ↦ (some (config, calibration), last)
                ]
              ]
            ]
          ]
