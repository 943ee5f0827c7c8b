-- ===== src/Hand/Fairness.antt =====
-- server/business/doudizhu/domain/hand_fairness.go: commitments, reveals and the public beacon; and the
-- commitment of fairness.go, over the parameter `sha256`.
use awesome_zero_platform.Base.{
  ℕ, ◌+◌, Bool, true, false, not, ◌||◌, List, [], ◌∷◌, ◌++◌, some, Result, ok, ◌>>=◌, ◌>>◌, reject,
  ◌==◌, if◌then◌else◌,
}
use awesome_zero_platform.Base.Text.{Text, codes, text_eq, trim_space}
use awesome_zero_platform.Base.Trio.{Trio, at_seat, set_seat}
use awesome_zero_platform.Carddeck.Deal.{domain_bytes, text_bytes}
use awesome_zero_platform.Domain.{
  Error, invalid_argument, wrong_phase, duplicate_contribution, commitment_mismatch,
  beacon_mismatch,
}
use awesome_zero_platform.Hand.{
  HandPhase, fairness_committing, fairness_revealing, waiting_public_beacon, dealing, is_custodied,
  Hand, Event, BeaconValue, Contribution, commit_accepted, reveal_accepted, beacon_locked,
  record_event, all_zero, zero32,
}
use awesome_zero_platform.Hand.Phases.{prepare_mutation, change_phase, resolve_seat, bad_text}

-- `ComputeClientCommitment`: what is hashed, and its hash.
unfoldable pub commitment_bytes : Text → ℕ → Text → Text
commitment_bytes hand seat contribution =
    domain_bytes (codes "fair-doudizhu/client-commit/v1")
    ++ (text_bytes hand ++ seat ∷ contribution)

-- `current.Commitment != (Commitment{})`: the two arrays of 32 bytes differ.
abbrev pub committed : Contribution → Bool
committed c = not (text_eq c.commitment zero32)

abbrev one_if : Bool → ℕ
one_if true = 1
one_if false = 0

-- `commitCount` and `revealCount`.
abbrev pub commit_count : Trio Contribution → ℕ
commit_count t =
    one_if (committed t.first) + one_if (committed t.second) + one_if (committed t.third)

abbrev pub reveal_count : Trio Contribution → ℕ
reveal_count t = one_if t.first.revealed + one_if t.second.revealed + one_if t.third.revealed

-- The last part of a submission: with all three the hand goes to the next phase.
unfoldable pub finish_submission : Hand → List Event → Bool → HandPhase → Hand × List Event
finish_submission h events all_there next =
    let (h', e) = change_phase h next in if all_there then (h', events ++ e ∷ []) else (h, events)

-- A hand with another contribution of one seat.
abbrev pub with_contribution : Hand → ℕ → Contribution → Hand
with_contribution h seat c = record h { contributions = set_seat h.contributions seat c }

-- The writes of `SubmitCommit`.
unfoldable pub write_commit : Hand → ℕ → Text → Hand × List Event
write_commit h seat commitment =
    let c = record (at_seat h.contributions seat) { commitment = commitment } in
    let (h', e) = record_event (with_contribution h seat c) (commit_accepted seat) in
    finish_submission h' (e ∷ []) (commit_count h'.contributions == 3) fairness_revealing

-- `SubmitCommit`.
unfoldable pub submit_commit : Hand → Text → Text → ℕ → Result Error (Hand × List Event)
submit_commit h actor commitment expected = do
  reject (is_custodied h.fairness_mode) wrong_phase
  prepare_mutation h expected fairness_committing
  seat ← resolve_seat h actor
  reject (all_zero commitment) invalid_argument
  reject (committed (at_seat h.contributions seat)) duplicate_contribution
  ok (write_commit h seat commitment)

-- The contribution of a seat after its reveal.
abbrev pub revealed_as : Contribution → Text → Text → Contribution
revealed_as c digest record_ref = record c {
  revealed = true;
  digest = digest;
  record_ref = record_ref;
}

unfoldable pub write_reveal : Hand → ℕ → Text → Text → Hand × List Event
write_reveal h seat digest record_ref =
    let c = revealed_as (at_seat h.contributions seat) digest record_ref in
    let (h', e) = record_event (with_contribution h seat c) (reveal_accepted seat) in
    finish_submission h' (e ∷ []) (reveal_count h'.contributions == 3) waiting_public_beacon

unfoldable pub write_beacon : Hand → BeaconValue → Hand × List Event
write_beacon h value =
    let (h', e) =
      record_event (record h { beacon = some value })
        (beacon_locked value.provider value.round value.proof_ref) in
    let (h'', e') = change_phase h' dealing in (h'', e ∷ e' ∷ [])

-- `LockPublicBeacon`.
unfoldable pub lock_public_beacon : Hand → BeaconValue → ℕ → Result Error (Hand × List Event)
lock_public_beacon h value expected = do
  prepare_mutation h expected waiting_public_beacon
  reject
      (not (text_eq value.provider h.beacon_plan.provider)
        || not (text_eq value.round h.beacon_plan.round))
      beacon_mismatch
  reject (all_zero value.digest) invalid_argument
  reject (bad_text 512 (trim_space value.proof_ref)) invalid_argument
  ok (write_beacon h (record value { proof_ref = trim_space value.proof_ref }))

module _ (sha256 : Text → Text) where
  unfoldable pub client_commitment : Text → ℕ → Text → Text
  client_commitment hand seat contribution = sha256 (commitment_bytes hand seat contribution)

  -- `SubmitReveal`.
  unfoldable pub submit_reveal : Hand → Text → Text → Text → ℕ → Result Error (Hand × List Event)
  submit_reveal h actor digest record_ref expected = do
    reject (is_custodied h.fairness_mode) wrong_phase
    prepare_mutation h expected fairness_revealing
    seat ← resolve_seat h actor
    reject (all_zero digest) invalid_argument
    reject (bad_text 256 (trim_space record_ref)) invalid_argument
    reject (not (committed (at_seat h.contributions seat))) wrong_phase
    reject (at_seat h.contributions seat).revealed duplicate_contribution
    reject
        (not
          (text_eq (client_commitment h.id seat digest) (at_seat h.contributions seat).commitment))
        commitment_mismatch
    ok (write_reveal h seat digest (trim_space record_ref))

  -- The writes of `SubmitCustodiedContribution`: commitment and reveal at once, with two events.
  unfoldable pub write_custodied : Hand → ℕ → Text → Text → Hand × List Event
  write_custodied h seat digest record_ref =
      let c : Contribution = record {
        commitment = client_commitment h.id seat digest;
        revealed = true;
        digest = digest;
        record_ref = record_ref;
      } in
      let (h', e) = record_event (with_contribution h seat c) (commit_accepted seat) in
      let (h'', e') = record_event h' (reveal_accepted seat) in
      finish_submission h'' (e ∷ e' ∷ []) (reveal_count h''.contributions == 3)
        waiting_public_beacon

  -- `SubmitCustodiedContribution`.
  unfoldable pub submit_custodied : Hand → Text → Text → Text → ℕ → Result Error (Hand × List Event)
  submit_custodied h actor digest record_ref expected = do
    reject (not (is_custodied h.fairness_mode)) wrong_phase
    prepare_mutation h expected fairness_committing
    seat ← resolve_seat h actor
    reject (bad_text 256 (trim_space record_ref) || all_zero digest) invalid_argument
    reject (committed (at_seat h.contributions seat) || (at_seat h.contributions seat).revealed)
        duplicate_contribution
    ok (write_custodied h seat digest (trim_space record_ref))
