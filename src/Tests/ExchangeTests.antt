-- ===== src/Tests/ExchangeTests.antt =====
-- The theorems on the exchange of prepared configurations, for payloads that are numbers.
use polyphonic_audio_to_midi.Prelude.{ℕ, ◌≡◌, refl, true, false, arith}
use polyphonic_audio_to_midi.ConfigRequest.{generation_newer}
use polyphonic_audio_to_midi.ConfigExchange
use polyphonic_audio_to_midi.ConfigExchange.{
  Exchange, Slot, Claim, free, ready, slot_count, initialize, claim_latest, claim_held, commit,
  cancel, active_config,
}
use polyphonic_audio_to_midi.ConfigExchange.Invariant.{IsValid, initialize-IsValid}
use polyphonic_audio_to_midi.ConfigExchange.Select.{open_free}
use polyphonic_audio_to_midi.ConfigExchange.Publish.{Holds, publish-IsValid, publish-succeeds}
use polyphonic_audio_to_midi.ConfigExchange.Handover.{IsLatest, claim_latest_lem}
use polyphonic_audio_to_midi.ConfigExchange.Commit.{
  Committed, commit_lem, commit-claim_latest, cancel-IsValid,
}

abbrev blank : Exchange ℕ
blank = record {
  slots = λ _. record { prepared = 0; generation = 0; state = free };
  active_index = 0;
  active_generation = 0;
  publisher_generation = 0;
  initialized = false;
}

abbrev fresh : Exchange ℕ
fresh = (initialize 440 1 blank).1

abbrev published : Exchange ℕ
published = (ConfigExchange.publish 432 2 fresh).1

fresh-IsValid : IsValid fresh
fresh-IsValid = (initialize-IsValid 440 1 blank).1

Published-IsValid : IsValid published
Published-IsValid = (publish-IsValid 432 2 fresh fresh-IsValid).0

initialize-IsValid_example :
    ((initialize 440 1 blank).0 ≡ true)
    × IsValid (initialize 440 1 blank).1
    × (active_config (initialize 440 1 blank).1 ≡ 440)
    × ((initialize 440 1 blank).1.active_generation ≡ 1)
initialize-IsValid_example = initialize-IsValid 440 1 blank

publish-IsValid_example :
    IsValid (ConfigExchange.publish 432 2 fresh).1
    × ((ConfigExchange.publish 432 2 fresh).1.slots fresh.active_index
        ≡ fresh.slots fresh.active_index)
publish-IsValid_example = publish-IsValid 432 2 fresh fresh-IsValid

publish-succeeds_example :
    ((ConfigExchange.publish 432 2 fresh).0 ≡ true)
    × ((ConfigExchange.publish 432 2 fresh).1.publisher_generation ≡ 2)
    × Holds 432 2 fresh (ConfigExchange.publish 432 2 fresh).1
unfolding initialize generation_newer
publish-succeeds_example =
    publish-succeeds 432 2 fresh (1, free) refl refl (open_free (ground arith) refl)

claim_latest_example :
    IsValid (claim_latest published).2
    × ((claim_latest published).0 ≡ true
        → IsLatest (claim_latest published).1 (claim_latest published).2)
claim_latest_example = claim_latest_lem published Published-IsValid

commit_example :
    IsValid (commit (claim_latest published).1 (claim_latest published).2).2
    × (claim_held (claim_latest published).1 (claim_latest published).2 ≡ true
        → generation_newer
            (claim_latest published).1.generation
            (claim_latest published).2.active_generation
          ≡ true
        → Committed
            (claim_latest published).1
            (claim_latest published).2
            (commit (claim_latest published).1 (claim_latest published).2))
commit_example =
    commit_lem (claim_latest published).1 (claim_latest published).2
      (claim_latest_lem published Published-IsValid).0

-- The publication is claimed.
claimed : (claim_latest published).0 ≡ true
unfolding claim_latest ConfigExchange.publish initialize generation_newer
claimed = refl

commit-claim_latest_example :
    IsValid (commit (claim_latest published).1 (claim_latest published).2).2
    × Committed
        (claim_latest published).1
        (claim_latest published).2
        (commit (claim_latest published).1 (claim_latest published).2)
commit-claim_latest_example = commit-claim_latest published Published-IsValid claimed

cancel-IsValid_example : IsValid (cancel (claim_latest published).1 (claim_latest published).2).2
cancel-IsValid_example =
    cancel-IsValid (claim_latest published).1 (claim_latest published).2
      (claim_latest_lem published Published-IsValid).0
