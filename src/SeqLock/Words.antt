-- ===== src/SeqLock/Words.antt =====
-- Stores of all the words of a block, and loads of a run of them.
use mathlib.Core.List.{append_assoc}
use polyphonic_audio_to_midi.Prelude.{
  ℕ, zero, suc, ◌≡◌, ◌∙◌, refl, ap, sym, List, [], ◌∷◌, ◌++◌, map, arith, set, length,
  length-append,
}
use polyphonic_audio_to_midi.SeqLock.{Store, word, write_all}

-- Stores of the values in the words from `i` on.
unfoldable pub stores_from : ℕ → List ℕ → List Store
stores_from i [] = []
stores_from i (v ∷ vs) = record { index = i; value = v } ∷ stores_from (suc i) vs

-- The indices from `i` on.
unfoldable pub indices : ℕ → ℕ → List ℕ
indices i zero = []
indices i (suc count) = i ∷ indices (suc i) count

set-append : (xs ys : List ℕ) (n v w : ℕ) → n ≡ length xs → set (xs ++ w ∷ ys) n v ≡ xs ++ v ∷ ys
set-append [] ys zero v w e = refl
set-append [] ys (suc n) v w e = absurd (omega arith)
set-append (x ∷ xs) ys zero v w e = absurd (omega arith)
set-append (x ∷ xs) ys (suc n) v w e = ap (◌∷◌ x) (set-append xs ys n v w (omega arith))

overwrite_rest :
    (done vs words : List ℕ) (n : ℕ)
    → n ≡ length done
    → length words ≡ length vs
    → write_all (stores_from n vs) (done ++ words) ≡ done ++ vs
unfolding stores_from
overwrite_rest done [] [] n p e = refl
overwrite_rest done [] (w ∷ words) n p e = absurd (omega arith)
overwrite_rest done (v ∷ vs) [] n p e = absurd (omega arith)
overwrite_rest done (v ∷ vs) (w ∷ words) n p e =
    let step =
      overwrite_rest (done ++ v ∷ []) vs words (suc n) (omega (arith, length-append done (v ∷ [])))
        (omega arith) in
    ap (write_all (stores_from (suc n) vs))
      (set-append done words n v w p ∙ sym (append_assoc done (v ∷ []) words))
    ∙ step
    ∙ append_assoc done (v ∷ []) vs

-- Stores of as many values as there are words leave the values.
pub overwrite :
    (vs words : List ℕ) → length words ≡ length vs → write_all (stores_from 0 vs) words ≡ vs
overwrite vs words e = overwrite_rest [] vs words 0 refl e

-- The word behind a run.
pub word-append : (xs ys : List ℕ) (y n : ℕ) → n ≡ length xs → word (xs ++ y ∷ ys) n ≡ y
word-append [] ys y zero e = refl
word-append [] ys y (suc n) e = absurd (omega arith)
word-append (x ∷ xs) ys y zero e = absurd (omega arith)
word-append (x ∷ xs) ys y (suc n) e = word-append xs ys y n (omega arith)

-- Loads of a run of words give the run.
pub map-indices :
    (xs ys zs : List ℕ) (n : ℕ)
    → n ≡ length xs
    → map (word (xs ++ (ys ++ zs))) (indices n (length ys)) ≡ ys
unfolding indices
map-indices xs [] zs n e = refl
map-indices xs (y ∷ ys) zs n e =
    ap (◌∷◌ (word (xs ++ (y ∷ (ys ++ zs))) n)) (
      ap (λ w. map (word w) (indices (suc n) (length ys)))
        (sym (append_assoc xs (y ∷ []) (ys ++ zs)))
      ∙ map-indices (xs ++ y ∷ []) ys zs (suc n) (omega (arith, e, length-append xs (y ∷ []))))
    ∙ ap (λ k. k ∷ ys) (word-append xs (ys ++ zs) y n e)
