-- ===== src/Hand/Written.antt =====
-- What an accepted command of a hand has checked and written.
use awesome_zero_platform.Base.{
  ℕ, zero, suc, ◌≡◌, inl, inr, refl, sym, ap, ◌∙◌, true, false, List, ok, arith, Result-cases,
}
use awesome_zero_platform.Base.Text.{Text, text_eq, trim_space}
use awesome_zero_platform.Base.Trio.{at_seat}
use awesome_zero_platform.Domain.{check_version}
use awesome_zero_platform.Hand.{
  HandPhase, fairness_committing, fairness_revealing, waiting_public_beacon, dealing, bidding,
  playing, settling, completed, cancelled, aborted, expired, unknown, phase_id, terminal, Hand,
  Event, is_custodied, BeaconValue,
}
use awesome_zero_platform.Hand.Phases.{
  prepare_mutation, change_phase, one_event, transition, terminate, write_termination, resolve_seat,
}
use awesome_zero_platform.Hand.Fairness.{
  client_commitment, submit_commit, write_commit, submit_reveal, write_reveal, submit_custodied,
  write_custodied, lock_public_beacon, write_beacon,
}

-- The phase of a number, for the injectivity of `phase_id`.
phase_of : ℕ → HandPhase
phase_of zero = fairness_committing
phase_of (suc zero) = fairness_revealing
phase_of (suc (suc zero)) = waiting_public_beacon
phase_of (suc (suc (suc zero))) = dealing
phase_of (suc (suc (suc (suc zero)))) = bidding
phase_of (suc (suc (suc (suc (suc zero))))) = playing
phase_of (suc (suc (suc (suc (suc (suc zero)))))) = settling
phase_of (suc (suc (suc (suc (suc (suc (suc zero))))))) = completed
phase_of (suc (suc (suc (suc (suc (suc (suc (suc zero)))))))) = cancelled
phase_of (suc (suc (suc (suc (suc (suc (suc (suc (suc zero))))))))) = aborted
phase_of (suc (suc (suc (suc (suc (suc (suc (suc (suc (suc zero)))))))))) = expired
phase_of _ = unknown

phase_of-phase_id : (p : HandPhase) → phase_of (phase_id p) ≡ p
unfolding phase_of phase_id
phase_of-phase_id fairness_committing = refl
phase_of-phase_id fairness_revealing = refl
phase_of-phase_id waiting_public_beacon = refl
phase_of-phase_id dealing = refl
phase_of-phase_id bidding = refl
phase_of-phase_id playing = refl
phase_of-phase_id settling = refl
phase_of-phase_id completed = refl
phase_of-phase_id cancelled = refl
phase_of-phase_id aborted = refl
phase_of-phase_id expired = refl
phase_of-phase_id unknown = refl

pub phase_id-injective : (p q : HandPhase) → phase_id p ≡ phase_id q → p ≡ q
phase_id-injective p q e = sym (phase_of-phase_id p) ∙ ap phase_of e ∙ phase_of-phase_id q

pub prepared :
    (h : Hand) (expected : ℕ) (required : HandPhase)
    → prepare_mutation h expected required ≡ ok tt
    → (expected ≡ h.version) × (terminal h.phase ≡ false) × (phase_id h.phase ≡ phase_id required)
unfolding prepare_mutation check_version
prepared h expected required e = ground arith

pub required-phase :
    (h : Hand) (expected : ℕ) (required : HandPhase)
    → prepare_mutation h expected required ≡ ok tt
    → h.phase ≡ required
required-phase h expected required e =
    phase_id-injective h.phase required (prepared h expected required e).2

pub submit_commit-written :
    (h : Hand) (actor commitment : Text) (expected : ℕ) (t : Hand × List Event)
    → submit_commit h actor commitment expected ≡ ok t
    → (seat : ℕ) × (prepare_mutation h expected fairness_committing ≡ ok tt)
      × (write_commit h seat commitment ≡ t)
      × (resolve_seat h actor ≡ ok seat)
      × (is_custodied h.fairness_mode ≡ false)
unfolding submit_commit
submit_commit-written h actor commitment expected t e = elim (Result-cases (resolve_seat h actor)) [
  | inl (seat, r) ↦ (seat, ground (arith, r, e), ground (arith, r, e), r, ground (arith, r, e))
  | inr (x, r) ↦
      (0, ground (arith, r, e), ground (arith, r, e), ground (arith, r, e), ground (arith, r, e))
]

pub submit_reveal-written :
    (sha256 : Text → Text) (h : Hand) (actor digest record_ref : Text) (expected : ℕ)
    (t : Hand × List Event)
    → submit_reveal sha256 h actor digest record_ref expected ≡ ok t
    → (seat : ℕ) × (prepare_mutation h expected fairness_revealing ≡ ok tt)
      × (write_reveal h seat digest (trim_space record_ref) ≡ t)
      × (resolve_seat h actor ≡ ok seat)
      × (text_eq
            (client_commitment sha256 h.id seat digest)
            (at_seat h.contributions seat).commitment
          ≡ true)
unfolding submit_reveal
submit_reveal-written sha256 h actor digest record_ref expected t e =
    elim (Result-cases (resolve_seat h actor)) [
      | inl (seat, r) ↦ (seat, ground (arith, r, e), ground (arith, r, e), r, ground (arith, r, e))
      | inr (x, r) ↦ (
        0,
        ground (arith, r, e),
        ground (arith, r, e),
        ground (arith, r, e),
        ground (arith, r, e),
      )
    ]

pub submit_custodied-written :
    (sha256 : Text → Text) (h : Hand) (actor digest record_ref : Text) (expected : ℕ)
    (t : Hand × List Event)
    → submit_custodied sha256 h actor digest record_ref expected ≡ ok t
    → (seat : ℕ) × (prepare_mutation h expected fairness_committing ≡ ok tt)
      × (write_custodied sha256 h seat digest (trim_space record_ref) ≡ t)
      × (resolve_seat h actor ≡ ok seat)
      × (is_custodied h.fairness_mode ≡ true)
unfolding submit_custodied
submit_custodied-written sha256 h actor digest record_ref expected t e =
    elim (Result-cases (resolve_seat h actor)) [
      | inl (seat, r) ↦ (seat, ground (arith, r, e), ground (arith, r, e), r, ground (arith, r, e))
      | inr (x, r) ↦ (
        0,
        ground (arith, r, e),
        ground (arith, r, e),
        ground (arith, r, e),
        ground (arith, r, e),
      )
    ]

pub lock_public_beacon-written :
    (h : Hand) (value : BeaconValue) (expected : ℕ) (t : Hand × List Event)
    → lock_public_beacon h value expected ≡ ok t
    → (prepare_mutation h expected waiting_public_beacon ≡ ok tt)
      × (write_beacon h (record value { proof_ref = trim_space value.proof_ref }) ≡ t)
      × (text_eq value.provider h.beacon_plan.provider ≡ true)
      × (text_eq value.round h.beacon_plan.round ≡ true)
unfolding lock_public_beacon
lock_public_beacon-written h value expected t e =
    (ground (arith, e), ground (arith, e), ground (arith, e), ground (arith, e))

pub transition-written :
    (h : Hand) (expected : ℕ) (from to : HandPhase) (t : Hand × List Event)
    → transition h expected from to ≡ ok t
    → (prepare_mutation h expected from ≡ ok tt) × (one_event (change_phase h to) ≡ t)
unfolding transition
transition-written h expected from to t e = (ground (arith, e), ground (arith, e))

pub terminate-written :
    (h : Hand) (expected : ℕ) (to : HandPhase) (reason : Text) (t : Hand × List Event)
    → terminate h expected to reason ≡ ok t
    → (terminal h.phase ≡ false) × (write_termination h to (trim_space reason) ≡ t)
unfolding terminate
terminate-written h expected to reason t e = (ground (arith, e), ground (arith, e))
