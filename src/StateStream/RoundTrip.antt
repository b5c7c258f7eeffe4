-- ===== src/StateStream/RoundTrip.antt =====
-- What is saved into a stream is loaded from it, however the host cuts it.
use mathlib.Core.List.{append_assoc, append-nil, head-eq_of_cons-eq, tail-eq_of_cons-eq}
use mathlib.Core.Path.{subst}
use polyphonic_audio_to_midi.Prelude.{
  ℕ, zero, suc, ◌+◌, ◌-◌, ◌≤◌, ◌≡◌, refl, sym, ap, ◌∙◌, Bool, true, ◌||◌, Option, none, some, List,
  [], ◌∷◌, ◌++◌, ltb, ◌==◌, if◌then◌else◌, if_elim, length, take, drop, take-append-drop,
  length-drop, arith,
}
use polyphonic_audio_to_midi.StateStream.{
  Stream, Codec, bytes_of, write_exact, read_exact, read_eof, save_state, load_state,
}

-- What the two stream interfaces document: a write takes some of the bytes and stores them behind
-- what was written; a read takes some of the bytes that are unread, and none only at their end.
pub record IsStream {S : Type 0} (stream : Stream S) (written unread : S → List ℕ) : Type 0 where
  pub writes :
      (s : S) (bytes : List ℕ)
      → 1 ≤ length bytes
      → (1 ≤ (stream.write s bytes).0)
        × ((stream.write s bytes).0 ≤ length bytes)
        × (written (stream.write s bytes).1 ≡ written s ++ take (stream.write s bytes).0 bytes)
  pub reads :
      (s : S) (size : ℕ)
      → 1 ≤ size
      → (got : List ℕ) × ((stream.read s size).0 ≡ some got)
        × (length got ≤ size)
        × (got ++ unread (stream.read s size).1 ≡ unread s)
        × (length got ≡ 0 → unread s ≡ [])

-- The images of the values in use have the codec's size and are decoded to what was encoded.
pub record IsCodec {C : Type 0} (codec : Codec C) (InUse : C → Type 0) : Type 0 where
  pub sizes :
      (c : C) (image : List ℕ) → InUse c → codec.encode c ≡ some image → length image ≡ codec.size
  pub decodes :
      (c : C) (image : List ℕ) → InUse c → codec.encode c ≡ some image → codec.decode image ≡ some c

-- A piece of two lists that is no longer than the first is a piece of it.
split_prefix :
    (got u image rest : List ℕ)
    → got ++ u ≡ image ++ rest
    → length got ≤ length image
    → (got ++ drop (length got) image ≡ image) × (u ≡ drop (length got) image ++ rest)
split_prefix [] u image rest e h = (refl, e)
split_prefix (x ∷ got) u [] rest e h = ground arith
split_prefix (x ∷ got) u (y ∷ image) rest e h =
    let (p, q) = split_prefix got u image rest (tail-eq_of_cons-eq e) (ground (arith, h)) in
    (rw (head-eq_of_cons-eq e, p) refl, q)

nil_of : (got u : List ℕ) → got ++ u ≡ [] → length got ≡ 0
nil_of [] u e = refl
nil_of (x ∷ got) u e = ground arith

left :
    (size : ℕ) (more got : List ℕ)
    → length more + length got ≡ size
    → size - length got ≡ length more
left size more got m = omega arith

nonempty : (n : ℕ) (l : List ℕ) (x : ℕ) (xs : List ℕ) → l ≡ x ∷ xs → (n ≡ 0 → l ≡ []) → 1 ≤ n
nonempty zero l x xs e h = ground (arith, h refl)
nonempty (suc n) l x xs e h = ground arith

-- The bytes that a read gave are put before those that follow.
abbrev joined : List ℕ → Option (List ℕ) → Option (List ℕ)
joined bytes rest = elim rest [ none ↦ none | some more ↦ some (bytes ++ more) ]

module _ {S : Type 0} (stream : Stream S) (written unread : S → List ℕ) where
  write_exact_lem :
      (fuel : ℕ) (bytes : List ℕ) (s : S)
      → IsStream stream written unread
      → length bytes ≤ fuel
      → ((write_exact stream fuel bytes s).0 ≡ true)
        × (written (write_exact stream fuel bytes s).1 ≡ written s ++ bytes)
  unfolding write_exact
  write_exact_lem zero [] s h le = (refl, sym (append-nil (written s)))
  write_exact_lem zero (x ∷ bytes) s h le = ground arith
  write_exact_lem (suc fuel) [] s h le = (refl, sym (append-nil (written s)))
  write_exact_lem (suc fuel) (x ∷ bytes) s h le =
      let (lo, hi, w) = h.writes s (x ∷ bytes) (ground arith) in
      let (t, u) =
        write_exact_lem fuel (drop (stream.write s (x ∷ bytes)).0 (x ∷ bytes))
          (stream.write s (x ∷ bytes)).1 h
          (ground (arith, lo, hi, le, length-drop (stream.write s (x ∷ bytes)).0 (x ∷ bytes) hi)) in
      if_elim (λ (r : Bool × S). (r.0 ≡ true) × (written r.1 ≡ written s ++ (x ∷ bytes)))
        (length (x ∷ bytes) == 0) (true, s) _ (λ k. ground (arith, k))
        (λ _.
          if_elim (λ (r : Bool × S). (r.0 ≡ true) × (written r.1 ≡ written s ++ (x ∷ bytes)))
            ((stream.write s (x ∷ bytes)).0 == 0
              || ltb (length (x ∷ bytes)) (stream.write s (x ∷ bytes)).0)
            _ _ (λ k. ground (arith, k, lo, hi))
            (λ _. (
              t,
              u
                  ∙ ap (λ l. l ++ drop (stream.write s (x ∷ bytes)).0 (x ∷ bytes)) w
                  ∙ append_assoc (written s) _ _
                  ∙ ap (λ l. written s ++ l)
                      (take-append-drop (stream.write s (x ∷ bytes)).0 (x ∷ bytes)),
            )))

  abbrev turn : ℕ → ℕ → Option (List ℕ) → S → S → Option (List ℕ) × S
  turn fuel size reply s after =
      if size == 0
      then (some [], s)
      else if length (bytes_of reply) == 0 || ltb size (length (bytes_of reply))
      then (none, after)
      else (
        joined (bytes_of reply) (read_exact stream fuel (size - length (bytes_of reply)) after).0,
        (read_exact stream fuel (size - length (bytes_of reply)) after).1,
      )

  -- One turn, once what the next turns read is known.
  read_turn :
      (fuel size : ℕ) (reply : Option (List ℕ)) (s after : S) (got more image rest : List ℕ)
      → reply ≡ some got
      → 1 ≤ size
      → 1 ≤ length got
      → length more + length got ≡ size
      → got ++ more ≡ image
      → (read_exact stream fuel (length more) after).0 ≡ some more
      → unread (read_exact stream fuel (length more) after).1 ≡ rest
      → ((turn fuel size reply s after).0 ≡ some image)
        × (unread (turn fuel size reply s after).1 ≡ rest)
  read_turn fuel size none s after got more image rest e lo l m c t u = ground arith
  read_turn fuel size (some bytes) s after got more image rest e lo l m c t u =
      if_elim (λ (r : Option (List ℕ) × S). (r.0 ≡ some image) × (unread r.1 ≡ rest)) (size == 0)
        (some [], s) _ (λ k. ground (arith, k, lo))
        (λ _.
          if_elim (λ (r : Option (List ℕ) × S). (r.0 ≡ some image) × (unread r.1 ≡ rest))
            (length bytes == 0 || ltb size (length bytes)) (none, after) _
            (λ k. ground (arith, k, e, l, m))
            (λ _. rw (ap bytes_of e, left size more got m) (rw t (ap (λ l. some l) c), u)))

  read_exact_lem :
      (fuel : ℕ) (image rest : List ℕ) (s : S)
      → IsStream stream written unread
      → length image ≤ fuel
      → unread s ≡ image ++ rest
      → ((read_exact stream fuel (length image) s).0 ≡ some image)
        × (unread (read_exact stream fuel (length image) s).1 ≡ rest)
  unfolding read_exact
  read_exact_lem zero [] rest s h le e = (refl, e)
  read_exact_lem zero (x ∷ image) rest s h le e = ground arith
  read_exact_lem (suc fuel) [] rest s h le e = (refl, e)
  read_exact_lem (suc fuel) (x ∷ image) rest s h le e =
      let (got, reply, fits, split, last) = h.reads s (length (x ∷ image)) (ground arith) in
      let (p, q) =
        split_prefix got (unread (stream.read s (length (x ∷ image))).1) (x ∷ image) rest
          (split ∙ e) fits in
      let some_got = nonempty (length got) (unread s) x (image ++ rest) e last in
      let (t, u) =
        read_exact_lem fuel (drop (length got) (x ∷ image)) rest
          (stream.read s (length (x ∷ image))).1 h
          (ground (arith, le, some_got, length-drop (length got) (x ∷ image) fits)) q in
      read_turn fuel (length (x ∷ image)) _ s (stream.read s (length (x ∷ image))).1 got
        (drop (length got) (x ∷ image)) (x ∷ image) rest reply (ground arith) some_got
        (length-drop (length got) (x ∷ image) fits) p t u

  read_eof_lem :
      (s : S) → IsStream stream written unread → unread s ≡ [] → (read_eof stream s).0 ≡ true
  unfolding read_eof
  read_eof_lem s h e =
      let (got, reply, fits, split, last) = h.reads s 1 (ground arith) in
      rw reply (ground (arith, nil_of got (unread (stream.read s 1).1) (split ∙ e)))

  save_state_lem :
      {C : Type 0} (codec : Codec C) (config : C) (image : List ℕ) (s : S)
      → codec.encode config ≡ some image
      → save_state stream codec config s ≡ write_exact stream (length image) image s
  unfolding save_state
  save_state_lem codec config image s e = rw (e, save_state) refl

  load_state_lem :
      {C : Type 0} (codec : Codec C) (InUse : C → Type 0) (config : C) (image : List ℕ) (s : S)
      → IsStream stream written unread
      → IsCodec codec InUse
      → InUse config
      → codec.encode config ≡ some image
      → unread s ≡ image
      → (load_state stream codec s).0 ≡ some config
  unfolding load_state
  load_state_lem codec InUse config image s h k valid e u =
      let n = k.sizes config image valid e in
      let (t, v) =
        read_exact_lem (length image) image [] s h (ground arith) (u ∙ sym (append-nil image)) in
      rw (subst (λ z. (read_exact stream z z s).0 ≡ some image) n t, load_state)
        (rw (read_eof_lem _ h (subst (λ z. unread (read_exact stream z z s).1 ≡ []) n v))
          (k.decodes config image valid e))

  -- A configuration that is encoded and saved is stored as its image, in full, and loading a stream
  -- that has those bytes and no others gives the configuration.
  pub load_state-save_state :
      {C : Type 0} (codec : Codec C) (InUse : C → Type 0) (config : C) (image : List ℕ) (s : S)
      (s' : S)
      → IsStream stream written unread
      → IsCodec codec InUse
      → InUse config
      → codec.encode config ≡ some image
      → written s ≡ []
      → unread s' ≡ written (save_state stream codec config s).1
      → ((save_state stream codec config s).0 ≡ true)
        × (written (save_state stream codec config s).1 ≡ image)
        × ((load_state stream codec s').0 ≡ some config)
  load_state-save_state codec InUse config image s s' h k valid e w u =
      let (t, v) = write_exact_lem (length image) image s h (ground arith) in
      let stored : written (save_state stream codec config s).1 ≡ image =
        rw (save_state_lem codec config image s e) (v ∙ ap (λ l. l ++ image) w) in
      (
        rw (save_state_lem codec config image s e) t,
        stored,
        load_state_lem codec InUse config image s' h k valid e (u ∙ stored),
      )
