-- ===== src/StateImage/Tamper.antt =====
-- An image in which one byte was changed is not decoded.
use mathlib.Core.Path.{subst}
use native.Mathlib.Decide.{dec_lt}
use polyphonic_audio_to_midi.Prelude.{
  ℕ, zero, suc, ◌+◌, ◌-◌, ◌*◌, ◌≤◌, ◌<◌, ◌≡◌, ◌≢◌, refl, sym, ap, ◌∙◌, Bool, true, false, not, ◌&&◌,
  ◌||◌, List, [], ◌∷◌, none, some, ◌==◌, length, get_or, set, take, drop, arith, All, All-take,
  All-drop, All-set, ==_iff, Option-cases, inl, inr, split_at, set-split, get_or-drop,
  drop-set_before, drop-set_behind, get_or-set_self, length-drop,
}
use polyphonic_audio_to_midi.Types.{PersistentConfig}
use polyphonic_audio_to_midi.StateImage.{
  get_bytes, crc32, state_size, header_size, payload_size, persistent_parameter_count, decode_state,
  valid_header,
}
use polyphonic_audio_to_midi.StateImage.Crc.{IsByte, crc32_one_byte}
use polyphonic_audio_to_midi.StateImage.RoundTrip.{refused}

get_or-IsByte : (l : List ℕ) (i : ℕ) → All IsByte l → get_or l i 0 < 256
get_or-IsByte [] i a = omega arith
get_or-IsByte (x ∷ l) zero a = a.0
get_or-IsByte (x ∷ l) (suc i) a = get_or-IsByte l i a.1

get_bytes_nil : (n : ℕ) → get_bytes n [] ≡ 0
unfolding get_bytes
get_bytes_nil zero = refl
get_bytes_nil (suc n) = refl

get_bytes_first :
    (n : ℕ) (l : List ℕ) → get_bytes (suc n) l ≡ get_or l 0 0 + 256 * get_bytes n (drop 1 l)
unfolding get_bytes
get_bytes_first n [] = omega (arith, get_bytes_nil n)
get_bytes_first n (x ∷ l) = refl

get_or_tail : (l : List ℕ) (i : ℕ) → get_or (drop 1 l) i 0 ≡ get_or l (suc i) 0
get_or_tail [] i = refl
get_or_tail (x ∷ l) i = refl

-- The number that some bytes stand for determines them.
get_bytes-injective :
    (n i : ℕ) (l l' : List ℕ)
    → All IsByte l
    → All IsByte l'
    → get_bytes n l ≡ get_bytes n l'
    → i < n
    → get_or l i 0 ≡ get_or l' i 0
get_bytes-injective zero i l l' a b e h = absurd (omega arith)
get_bytes-injective (suc n) zero l l' a b e h =
    omega (
      arith,
      e,
      get_bytes_first n l,
      get_bytes_first n l',
      get_or-IsByte l 0 a,
      get_or-IsByte l' 0 b,
    )
get_bytes-injective (suc n) (suc i) l l' a b e h =
    let rest : get_bytes n (drop 1 l) ≡ get_bytes n (drop 1 l') = omega (
      arith,
      e,
      get_bytes_first n l,
      get_bytes_first n l',
      get_or-IsByte l 0 a,
      get_or-IsByte l' 0 b,
    ) in
    sym (get_or_tail l i)
    ∙ get_bytes-injective n i (drop 1 l) (drop 1 l') (All-drop IsByte 1 l a)
        (All-drop IsByte 1 l' b) rest (omega arith)
    ∙ get_or_tail l' i

-- The bytes of a field of an image.
same_field :
    (m n i : ℕ) (l l' : List ℕ)
    → All IsByte l
    → All IsByte l'
    → get_bytes n (drop m l) ≡ get_bytes n (drop m l')
    → m ≤ i
    → i < m + n
    → get_or l i 0 ≡ get_or l' i 0
same_field m n i l l' a b e lo hi =
    let place : m + (i - m) ≡ i = omega (arith, lo) in
    subst (λ k. get_or l k 0 ≡ get_or l' k 0) place
      (sym (get_or-drop m l (i - m) 0)
        ∙ get_bytes-injective n (i - m) (drop m l) (drop m l') (All-drop IsByte m l a)
            (All-drop IsByte m l' b) e (omega (arith, lo, hi))
        ∙ get_or-drop m l' (i - m) 0)

-- What the tests of an image say.
record IsHeader (l : List ℕ) : Type 0 where
  first : get_or l 0 0 ≡ 0x4d
  second : get_or l 1 0 ≡ 0x33
  third : get_or l 2 0 ≡ 0x50
  fourth : get_or l 3 0 ≡ 0x41
  version : get_bytes 2 (drop 4 l) ≡ 1
  count : get_bytes 2 (drop 6 l) ≡ persistent_parameter_count
  size : get_bytes 4 (drop 8 l) ≡ payload_size
  checksum : get_bytes 4 (drop 12 l) ≡ crc32 (drop header_size l)

eight_tests :
    (a b c d v n s k w : ℕ)
    → (a == 0x4d && b == 0x33 && c == 0x50 && d == 0x41 && v == 1 && n == 14 && s == 168 && k == w)
      ≡ true
    → (a ≡ 0x4d) × (b ≡ 0x33) × (c ≡ 0x50) × (d ≡ 0x41) × (v ≡ 1) × (n ≡ 14) × (s ≡ 168) × (k ≡ w)
eight_tests a b c d v n s k w h = ground arith

valid_header-IsHeader : (l : List ℕ) → valid_header l ≡ true → IsHeader l
unfolding valid_header
valid_header-IsHeader l h =
    let (a, b, c, d, v, n, s, k) =
      eight_tests (get_or l 0 0) (get_or l 1 0) (get_or l 2 0) (get_or l 3 0)
        (get_bytes 2 (drop 4 l)) (get_bytes 2 (drop 6 l)) (get_bytes 4 (drop 8 l))
        (get_bytes 4 (drop 12 l)) (crc32 (drop header_size l)) h in
    record {
      first = a;
      second = b;
      third = c;
      fourth = d;
      version = v;
      count = n;
      size = s;
      checksum = k;
    }

same_magic :
    (l l' : List ℕ) (i : ℕ) → IsHeader l → IsHeader l' → i < 4 → get_or l i 0 ≡ get_or l' i 0
same_magic l l' zero h k lt = h.first ∙ sym k.first
same_magic l l' (suc zero) h k lt = h.second ∙ sym k.second
same_magic l l' (suc (suc zero)) h k lt = h.third ∙ sym k.third
same_magic l l' (suc (suc (suc zero))) h k lt = h.fourth ∙ sym k.fourth
same_magic l l' (suc (suc (suc (suc i)))) h k lt = absurd (omega arith)

-- Two images with the same payload have the same header.
same_header :
    (l l' : List ℕ) (i : ℕ)
    → All IsByte l
    → All IsByte l'
    → IsHeader l
    → IsHeader l'
    → drop header_size l ≡ drop header_size l'
    → i < header_size
    → get_or l i 0 ≡ get_or l' i 0
same_header l l' i a b h k e lt = elim (dec_lt i 4) [
  | yes p ↦ same_magic l l' i h k p
  | no p ↦ elim (dec_lt i 6) [
    | yes q ↦ same_field 4 2 i l l' a b (h.version ∙ sym k.version) (omega (arith, p)) q
    | no q ↦ elim (dec_lt i 8) [
      | yes r ↦ same_field 6 2 i l l' a b (h.count ∙ sym k.count) (omega (arith, q)) r
      | no r ↦ elim (dec_lt i 12) [
        | yes s ↦ same_field 8 4 i l l' a b (h.size ∙ sym k.size) (omega (arith, r)) s
        | no s ↦
            same_field 12 4 i l l' a b (h.checksum ∙ ap crc32 e ∙ sym k.checksum) (omega (arith, s))
              lt
      ]
    ]
  ]
]

-- A byte of the payload is told by the checksum.
same_payload :
    (l : List ℕ) (i v : ℕ)
    → All IsByte l
    → v < 256
    → i < length l
    → crc32 (set l i v) ≡ crc32 l
    → v ≡ get_or l i 0
same_payload l i v a h lt e =
    crc32_one_byte (take i l) (drop (suc i) l) v (get_or l i 0) (All-take IsByte i l a) h
      (get_or-IsByte l i a) (All-drop IsByte (suc i) l a)
      (ap crc32 (sym (set-split i l v lt)) ∙ e ∙ ap crc32 (split_at i l 0 lt))

get_bytes-set_behind :
    (n : ℕ) (l : List ℕ) (j v : ℕ) → n ≤ j → get_bytes n (set l j v) ≡ get_bytes n l
unfolding get_bytes
get_bytes-set_behind zero l j v h = refl
get_bytes-set_behind (suc n) [] j v h = refl
get_bytes-set_behind (suc n) (x ∷ l) zero v h = absurd (omega arith)
get_bytes-set_behind (suc n) (x ∷ l) (suc j) v h =
    ap (λ r. x + 256 * r) (get_bytes-set_behind n l j v (omega arith))

checksum_kept :
    (l : List ℕ) (i v : ℕ) → 16 ≤ i → get_bytes 4 (drop 12 (set l i v)) ≡ get_bytes 4 (drop 12 l)
checksum_kept l i v le =
    let place : i ≡ 12 + (i - 12) = omega (arith, le) in
    ap (λ k. get_bytes 4 (drop 12 (set l k v))) place
    ∙ ap (get_bytes 4) (drop-set_behind 12 l (i - 12) v)
    ∙ get_bytes-set_behind 4 (drop 12 l) (i - 12) v (omega (arith, le))

untouched :
    (l : List ℕ) (i v : ℕ)
    → All IsByte l
    → v < 256
    → length l ≡ state_size
    → i < state_size
    → IsHeader l
    → IsHeader (set l i v)
    → v ≡ get_or l i 0
untouched l i v a h sized lt before after = elim (dec_lt i header_size) [
  | yes p ↦
      sym (get_or-set_self l i v 0 (omega (arith, sized, lt)))
      ∙ sym (
          same_header l (set l i v) i a (All-set IsByte l i v a h) before after
            (sym (drop-set_before header_size l i v p)) p)
  | no p ↦
      let place : header_size + (i - header_size) ≡ i = omega (arith, p) in
      let moved : drop header_size (set l i v) ≡ set (drop header_size l) (i - header_size) v =
        ap (λ k. drop header_size (set l k v)) (sym place)
        ∙ drop-set_behind header_size l (i - header_size) v in
      let sums : crc32 (set (drop header_size l) (i - header_size) v) ≡ crc32 (drop header_size l) =
        ap crc32 (sym moved)
        ∙ sym after.checksum
        ∙ checksum_kept l i v (omega (arith, p))
        ∙ before.checksum in
      same_payload (drop header_size l) (i - header_size) v (All-drop IsByte header_size l a) h
        (omega (arith, length-drop header_size l (omega (arith, sized)), sized, lt, p)) sums
      ∙ get_or-drop header_size l (i - header_size) 0
      ∙ ap (λ k. get_or l k 0) place
]

both_passed : (a b : Bool) → (not a || not b) ≡ false → (a ≡ true) × (b ≡ true)
both_passed a b h = ground arith

accepted :
    (l : List ℕ) (c : PersistentConfig)
    → decode_state l ≡ some c
    → (length l ≡ state_size) × (valid_header l ≡ true)
unfolding decode_state
accepted l c e =
    let (tests, _) = refused (not (length l == state_size) || not (valid_header l)) _ c e in
    let (sized, valid) = both_passed (length l == state_size) (valid_header l) tests in
    ((==_iff (length l) state_size).0 sized, valid)

-- An image that is decoded, with one byte replaced by another, is not: whichever of its bytes that
-- is, of the header, the checksum or the payload.
pub decode_state-set :
    (image : List ℕ) (i v : ℕ) (c : PersistentConfig)
    → All IsByte image
    → v < 256
    → decode_state image ≡ some c
    → i < state_size
    → v ≢ get_or image i 0
    → decode_state (set image i v) ≡ none
decode_state-set image i v c a h e lt other = elim (Option-cases (decode_state (set image i v))) [
  | inl refused_image ↦ refused_image
  | inr (d, decoded) ↦
      let (sized, valid) = accepted image c e in
      let (_, valid_after) = accepted (set image i v) d decoded in
      absurd (
        other (
          untouched image i v a h sized lt (valid_header-IsHeader image valid)
            (valid_header-IsHeader (set image i v) valid_after)))
]
