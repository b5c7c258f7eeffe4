-- ===== src/StateImage/Bytes.antt =====
-- A number comes back from its bytes.
use native.Mathlib.Nat.{pow-suc, pow-zero, div-lt_iff_lt-mul}
use polyphonic_audio_to_midi.Prelude.{
  ℕ, zero, suc, ◌*◌, ◌/◌, ◌^◌, ◌<◌, ◌≡◌, refl, sym, ap, List, [], ◌∷◌, ◌++◌, arith, length, drop,
  All,
}
use polyphonic_audio_to_midi.StateImage.{put_bytes, get_bytes}

pub length-put_bytes : (count value : ℕ) → length (put_bytes count value) ≡ count
unfolding put_bytes
length-put_bytes zero value = refl
length-put_bytes (suc count) value = ap suc (length-put_bytes count (value / 256))

pub get_bytes-put_bytes :
    (count value : ℕ) (rest : List ℕ)
    → value < 256 ^ count
    → get_bytes count (put_bytes count value ++ rest) ≡ value
unfolding put_bytes get_bytes
get_bytes-put_bytes zero value rest h = omega (arith, h, pow-zero 256)
get_bytes-put_bytes (suc count) value rest h =
    let fits : value < 256 ^ count * 256 = rw (sym (pow-suc 256 count)) h in
    let fewer : value / 256 < 256 ^ count = (div-lt_iff_lt-mul (omega arith)).1 fits in
    let higher : get_bytes count (put_bytes count (value / 256) ++ rest) ≡ value / 256 =
      get_bytes-put_bytes count (value / 256) rest fewer in
    omega (arith, higher)

pub drop_past : (n : ℕ) (front rest : List ℕ) → length front ≡ n → drop n (front ++ rest) ≡ rest
drop_past zero [] rest h = refl
drop_past zero (x ∷ front) rest h = absurd (omega (arith, h))
drop_past (suc n) [] rest h = absurd (omega (arith, h))
drop_past (suc n) (x ∷ front) rest h = drop_past n front rest (omega (arith, h))

pub put_bytes-IsByte : (count value : ℕ) → All (λ b. b < 256) (put_bytes count value)
unfolding put_bytes
put_bytes-IsByte zero value = tt
put_bytes-IsByte (suc count) value = (omega arith, put_bytes-IsByte count (value / 256))
