-- ===== src/StateImage/Crc.antt =====
-- The checksum is a number of 32 bits, and two payloads that differ in one byte have different ones.
use Prim.Native.Nat.{bit_xor}
use polyphonic_audio_to_midi.Prelude.{
  ℕ, zero, suc, ◌/◌, ◌^◌, ◌<◌, ◌≡◌, arith, List, [], ◌∷◌, ◌++◌, All, All-append,
}
use polyphonic_audio_to_midi.StateImage.{crc_step, crc_bits, crc_bytes, crc32}
use polyphonic_audio_to_midi.StateImage.Xor.{
  bit_xor-lt, bit_xor_high, bit_xor-injective_left, bit_xor-injective_right,
}

abbrev polynomial : ℕ
polynomial = 0xedb88320

abbrev pub IsByte : ℕ → Type 0
IsByte b = b < 256

crc_step-lt : (c : ℕ) → c < 2 ^ 32 → crc_step c < 2 ^ 32
crc_step-lt c h = ground (arith, bit_xor-lt 32 (c / 2) polynomial (omega (arith, h)) (omega arith))

crc_step-injective : (c d : ℕ) → c < 2 ^ 32 → d < 2 ^ 32 → crc_step c ≡ crc_step d → c ≡ d
crc_step-injective c d h g e = ground (
  arith,
  e,
  bit_xor_high 31 (c / 2) polynomial (omega (arith, h)) (omega arith) (omega arith),
  bit_xor_high 31 (d / 2) polynomial (omega (arith, g)) (omega arith) (omega arith),
  bit_xor-injective_left 31 (c / 2) (d / 2) polynomial (omega (arith, h)) (omega (arith, g)),
)

crc_bits-lt : (n c : ℕ) → c < 2 ^ 32 → crc_bits n c < 2 ^ 32
crc_bits-lt zero c h = h
crc_bits-lt (suc n) c h = crc_bits-lt n (crc_step c) (crc_step-lt c h)

crc_bits-injective : (n c d : ℕ) → c < 2 ^ 32 → d < 2 ^ 32 → crc_bits n c ≡ crc_bits n d → c ≡ d
crc_bits-injective zero c d h g e = e
crc_bits-injective (suc n) c d h g e =
    crc_step-injective c d h g
      (crc_bits-injective n (crc_step c) (crc_step d) (crc_step-lt c h) (crc_step-lt d g) e)

xor_byte-lt : (c b : ℕ) → c < 2 ^ 32 → b < 256 → bit_xor c b < 2 ^ 32
xor_byte-lt c b h g = bit_xor-lt 32 c b h (omega (arith, g))

crc_bytes-lt : (bytes : List ℕ) (c : ℕ) → All IsByte bytes → c < 2 ^ 32 → crc_bytes bytes c < 2 ^ 32
crc_bytes-lt [] c a h = h
crc_bytes-lt (b ∷ bytes) c (a, more) h =
    crc_bytes-lt bytes (crc_bits 8 (bit_xor c b)) more
      (crc_bits-lt 8 (bit_xor c b) (xor_byte-lt c b h a))

pub crc32-lt : (bytes : List ℕ) → All IsByte bytes → crc32 bytes < 2 ^ 32
unfolding crc32
crc32-lt bytes a =
    bit_xor-lt 32 (crc_bytes bytes 0xffffffff) 0xffffffff
      (crc_bytes-lt bytes 0xffffffff a (omega arith)) (omega arith)

crc_bytes-injective :
    (bytes : List ℕ) (c d : ℕ)
    → All IsByte bytes
    → c < 2 ^ 32
    → d < 2 ^ 32
    → crc_bytes bytes c ≡ crc_bytes bytes d
    → c ≡ d
crc_bytes-injective [] c d a h g e = e
crc_bytes-injective (b ∷ bytes) c d (a, more) h g e =
    let states =
      crc_bytes-injective bytes (crc_bits 8 (bit_xor c b)) (crc_bits 8 (bit_xor d b)) more
        (crc_bits-lt 8 (bit_xor c b) (xor_byte-lt c b h a))
        (crc_bits-lt 8 (bit_xor d b) (xor_byte-lt d b g a)) e in
    bit_xor-injective_left 32 c d b h g (
      crc_bits-injective 8 (bit_xor c b) (bit_xor d b) (xor_byte-lt c b h a) (xor_byte-lt d b g a)
        states)

one_byte :
    (front back : List ℕ) (b b' c : ℕ)
    → All IsByte front
    → b < 256
    → b' < 256
    → All IsByte back
    → c < 2 ^ 32
    → crc_bytes (front ++ b ∷ back) c ≡ crc_bytes (front ++ b' ∷ back) c
    → b ≡ b'
one_byte [] back b b' c f p q k h e =
    let states =
      crc_bytes-injective back (crc_bits 8 (bit_xor c b)) (crc_bits 8 (bit_xor c b')) k
        (crc_bits-lt 8 (bit_xor c b) (xor_byte-lt c b h p))
        (crc_bits-lt 8 (bit_xor c b') (xor_byte-lt c b' h q)) e in
    bit_xor-injective_right 32 c b b' (omega (arith, p)) (omega (arith, q)) (
      crc_bits-injective 8 (bit_xor c b) (bit_xor c b') (xor_byte-lt c b h p) (xor_byte-lt c b' h q)
        states)
one_byte (x ∷ front) back b b' c (a, more) p q k h e =
    one_byte front back b b' (crc_bits 8 (bit_xor c x)) more p q k
      (crc_bits-lt 8 (bit_xor c x) (xor_byte-lt c x h a)) e

-- A checksum tells two payloads apart that differ in one byte.
pub crc32_one_byte :
    (front back : List ℕ) (b b' : ℕ)
    → All IsByte front
    → b < 256
    → b' < 256
    → All IsByte back
    → crc32 (front ++ b ∷ back) ≡ crc32 (front ++ b' ∷ back)
    → b ≡ b'
unfolding crc32
crc32_one_byte front back b b' f p q k e =
    let start : 0xffffffff < 2 ^ 32 = omega arith in
    let payload : (x : ℕ) → x < 256 → crc_bytes (front ++ x ∷ back) 0xffffffff < 2 ^ 32 = λ x h.
      crc_bytes-lt (front ++ x ∷ back) 0xffffffff (All-append IsByte front (x ∷ back) f (h, k))
        start in
    one_byte front back b b' 0xffffffff f p q k start (
      bit_xor-injective_left 32 (crc_bytes (front ++ b ∷ back) 0xffffffff)
        (crc_bytes (front ++ b' ∷ back) 0xffffffff) 0xffffffff (payload b p) (payload b' q) e)
