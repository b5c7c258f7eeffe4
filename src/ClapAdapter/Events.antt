-- ===== src/ClapAdapter/Events.antt =====
-- What a publication by the audio thread leaves for the main thread.
use mathlib.Core.Path.{subst}
use polyphonic_audio_to_midi.Prelude.{
  ℕ, ◌%◌, ◌≤◌, ◌≡◌, ◌∙◌, ap, refl, sym, Bool, true, false, not, ◌||◌, some, if◌then◌else◌, if_elim,
  arith, ltb,
}
use polyphonic_audio_to_midi.Types.{status_value}
use polyphonic_audio_to_midi.ConfigRequest
use polyphonic_audio_to_midi.ConfigRequest.{
  AtomicConfigRequest, ConfigRequestSnapshot, add64, snapshot, generation_newer,
}
use polyphonic_audio_to_midi.ConfigRequest.RoundTrip.{IsConfig, snapshot-publish}
use polyphonic_audio_to_midi.ClapAdapter.{
  Adapter, mark_values_dirty, latch_status, request_reconfiguration, publish_audio_config,
}

-- A reconfiguration is pending for a generation, and the status says `reconfiguring` or more.
abbrev pub Reconfigures : ℕ → Adapter → Type 0
Reconfigures generation a =
    (a.reconfiguration_pending ≡ true)
    × (a.requested_structural_generation ≡ generation)
    × (a.pending_audio_structural ≡ false)
    × (2 ≤ status_value a.status)

request_reconfiguration_lem :
    (generation : ℕ) (a : Adapter)
    → ((request_reconfiguration generation a).config_request ≡ a.config_request)
      × ((request_reconfiguration generation a).audio_publication_pending
          ≡ a.audio_publication_pending)
      × Reconfigures generation (request_reconfiguration generation a)
unfolding request_reconfiguration latch_status mark_values_dirty
request_reconfiguration_lem generation a =
    if_elim
      (λ (b : Adapter).
        (b.config_request ≡ a.config_request)
        × (b.audio_publication_pending ≡ a.audio_publication_pending)
        × Reconfigures generation b)
      (ltb (status_value a.status) 2) _ _ (λ _. (refl, refl, (refl, refl, refl, omega arith)))
      (λ h. (refl, refl, (refl, refl, refl, ground (arith, h))))

-- What holds of the adapter after a publication that succeeded.
abbrev pub Sent : (AtomicConfigRequest → Type 0) → Bool → ℕ → Adapter → Type 0
Sent P structural generation after =
    P after.config_request
    × (after.audio_publication_pending ≡ false)
    × (after.values_dirty ≡ true)
    × (structural ≡ true → Reconfigures generation after)

sent_lem :
    (P : AtomicConfigRequest → Type 0) (structural : Bool) (generation : ℕ) (a : Adapter)
    → P a.config_request
    → a.audio_publication_pending ≡ false
    → Sent P structural generation
        (mark_values_dirty (if structural then request_reconfiguration generation a else a))
unfolding mark_values_dirty
sent_lem P true generation a h e =
    let (request, pending, asked) = request_reconfiguration_lem generation a in
    (subst P (sym request) h, pending ∙ e, refl, λ _. asked)
sent_lem P false generation a h e = (h, e, refl, λ f. ground (arith, f))

succeeded :
    (Q : Bool × Adapter → Type 0) (b : Bool) (x y : Bool × Adapter)
    → b ≡ true
    → Q y
    → Q (if not b then x else y)
succeeded Q true x y e q = q
succeeded Q false x y e q = ground (arith, e)

-- For an audio configuration in range, an even sequence of the request, a next generation newer than
-- the requested one and no thread that disturbs: the publication succeeds, the main thread then reads
-- the configuration of the audio thread with that generation, nothing is left to publish and the
-- values are marked to be rescanned. After a structural change, this one or one that was pending, a
-- reconfiguration is pending for that generation, and the status is at least `reconfiguring`.
pub publish_audio_config_lem :
    (structural : Bool) (a : Adapter)
    → IsConfig a.audio_requested_config
    → a.config_request.sequence % 2 ≡ 0
    → generation_newer (add64 a.generation_counter 1) a.config_request.generation ≡ true
    → let (sent, after) = publish_audio_config structural a in
      let generation = add64 a.generation_counter 1 in
      (sent ≡ true)
      × Sent
          (λ q.
            snapshot 3 q
            ≡ some (record { config = a.audio_requested_config; generation = generation }))
          (structural || a.pending_audio_structural)
          generation
          after
unfolding publish_audio_config
publish_audio_config_lem structural a v even newer =
    let generation = add64 a.generation_counter 1 in
    let published = ConfigRequest.publish a.audio_requested_config generation a.config_request in
    let wanted : ConfigRequestSnapshot = record {
      config = a.audio_requested_config;
      generation = generation;
    } in
    let (taken, read) =
      snapshot-publish a.audio_requested_config generation 2 a.config_request v even in
    let accepted : published.0 ≡ true = taken ∙ newer in
    let sent : Adapter = record a {
      generation_counter = generation;
      config_request = published.1;
      audio_request_generation = generation;
      audio_publication_pending = false;
    } in
    succeeded
      (λ (r : Bool × Adapter).
        (r.0 ≡ true)
        × Sent (λ q. snapshot 3 q ≡ some wanted) (structural || a.pending_audio_structural)
            generation r.1)
      published.0 _ _ accepted
      (
        refl,
        sent_lem (λ q. snapshot 3 q ≡ some wanted) (structural || a.pending_audio_structural)
            generation sent
            (read ∙ ap (λ b. if b then some wanted else snapshot 3 a.config_request) accepted) refl,
      )
