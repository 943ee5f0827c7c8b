-- ===== src/Hand/Commands.antt =====
-- The commands of a hand, and which phases they lead through.
use awesome_zero_platform.Base.{ℕ, ◌<◌, ◌≡◌, ◌⊎◌, false, List, Result}
use awesome_zero_platform.Base.Text.{Text}
use awesome_zero_platform.Domain.{Error}
use awesome_zero_platform.Hand.{
  HandPhase, fairness_committing, fairness_revealing, waiting_public_beacon, dealing, bidding,
  playing, settling, completed, cancelled, aborted, expired, phase_id, terminal, Hand, Event,
  BeaconValue,
}
use awesome_zero_platform.Hand.Phases.{
  mark_dealt, start_playing, start_settling, complete, cancel, abort, expire,
}
use awesome_zero_platform.Hand.Fairness.{
  submit_commit, submit_reveal, submit_custodied, lock_public_beacon,
}

pub data Command : Type 0 where
  commits : Text → Text → Command
  reveals custodies : Text → Text → Text → Command
  locks : BeaconValue → Command
  deals starts_playing starts_settling completes : Command
  cancels aborts expires : Text → Command

module _ (sha256 : Text → Text) where
  unfoldable pub apply : Hand → Command → ℕ → Result Error (Hand × List Event)
  apply h (commits actor commitment) expected = submit_commit h actor commitment expected
  apply h (reveals actor digest record_ref) expected =
      submit_reveal sha256 h actor digest record_ref expected
  apply h (custodies actor digest record_ref) expected =
      submit_custodied sha256 h actor digest record_ref expected
  apply h (locks value) expected = lock_public_beacon h value expected
  apply h deals expected = mark_dealt h expected
  apply h starts_playing expected = start_playing h expected
  apply h starts_settling expected = start_settling h expected
  apply h completes expected = complete h expected
  apply h (cancels reason) expected = cancel h reason expected
  apply h (aborts reason) expected = abort h reason expected
  apply h (expires reason) expected = expire h reason expected

-- The phases that may follow one another.
infix 40 ◌⟶◌
pub data ◌⟶◌ : HandPhase → HandPhase → Type 0 where
  stay_committing : fairness_committing ⟶ fairness_committing
  all_committed : fairness_committing ⟶ fairness_revealing
  all_custodied : fairness_committing ⟶ waiting_public_beacon
  stay_revealing : fairness_revealing ⟶ fairness_revealing
  all_revealed : fairness_revealing ⟶ waiting_public_beacon
  beacon_known : waiting_public_beacon ⟶ dealing
  dealt : dealing ⟶ bidding
  landlord_known : bidding ⟶ playing
  hand_emptied : playing ⟶ settling
  settled : settling ⟶ completed
  give_up : {p : HandPhase} → terminal p ≡ false → p ⟶ aborted
  run_out : {p : HandPhase} → terminal p ≡ false → p ⟶ expired
  call_off :
      {p : HandPhase}
      → terminal p ≡ false
      → (phase_id p < phase_id dealing) ⊎ (phase_id settling < phase_id p)
      → p ⟶ cancelled
