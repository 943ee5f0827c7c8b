-- ===== src/Scenarios/Hands.antt =====
-- Hands of server/business/doudizhu/domain/hand_types.go, hand_fairness.go and hand_lifecycle.go.
use awesome_zero_platform.Base.{ℕ, ◌≡◌, refl, true, List, [], ◌∷◌, none, some, ok, arith}
use awesome_zero_platform.Base.Text.{Text, codes, trim_space, text_eq}
use awesome_zero_platform.Base.Trio.{Trio, at_seat, all_seats}
use awesome_zero_platform.Domain.{check_version, is_identifier, validate_identifier}
use awesome_zero_platform.Hand.{
  Hand, HandSeat, Event, hand_created, created_payload, BeaconPlan, BeaconValue, RevealKeyBinding,
  new_hand, new_client_custodied_hand, validate_hand_seats, validate_hand_seat,
  validate_beacon_plan, record_event, all_zero, any_of, phase_id, zero32, no_contribution,
  client_custodied, fairness_committing, waiting_public_beacon, dealing, Contribution,
}
use awesome_zero_platform.Hand.Phases.{prepare_mutation, change_phase, resolve_seat}
use awesome_zero_platform.Hand.Fairness.{
  client_commitment, commitment_bytes, finish_submission, submit_custodied, write_custodied,
  lock_public_beacon, write_beacon,
}
use awesome_zero_platform.Hand.Commands.{Command, custodies, locks, apply, ◌⟶◌}
use awesome_zero_platform.Hand.Invariant.{Inv}
use awesome_zero_platform.Hand.Protocol.{apply-Inv}
use awesome_zero_platform.Hand.Edges.{apply-edge}
use awesome_zero_platform.Hand.Reach.{Reach, custody, commanded, Reach-Inv, Reach-fair}
use awesome_zero_platform.Scenarios.{value_or}

-- A function of bytes in the place of SHA-256.
abbrev toy_hash : Text → Text
toy_hash text = 7 ∷ text

abbrev seats : Trio HandSeat
seats = record {
  first = record { seat = 2; account_id = codes "ann" };
  second = record { seat = 1; account_id = codes "bob" };
  third = record { seat = 3; account_id = codes "cyd" };
}

abbrev plan : BeaconPlan
plan = record { provider = codes "drand"; round = codes "17" }

abbrev beacon_value : BeaconValue
beacon_value = record {
  provider = codes "drand";
  round = codes "17";
  digest = 5 ∷ zero32;
  proof_ref = codes " proof ";
}

abbrev binding : RevealKeyBinding
binding = record { public_key_sha256 = 9 ∷ zero32; bound_at = 62135596801 }

-- The hands of one run, one after the other.
abbrev created : Hand
created = record {
  fairness_mode = client_custodied;
  id = codes "hand-1";
  room_id = codes "room-1";
  phase = fairness_committing;
  seats = seats;
  server_commitment = 3 ∷ zero32;
  reveal_key_id = codes "key";
  reveal_public_key_sha256 = 9 ∷ zero32;
  reveal_key_bound_at = 62135596801;
  beacon_plan = plan;
  beacon = none;
  contributions = all_seats no_contribution;
  termination_reason = [];
  version = 1;
}

abbrev opened : ℕ → Text → Text → Contribution
opened seat digest record_ref = record {
  commitment = client_commitment toy_hash (codes "hand-1") seat digest;
  revealed = true;
  digest = digest;
  record_ref = record_ref;
}

abbrev one_in : Hand
one_in = record created {
  version = 3;
  contributions = record (all_seats no_contribution) {
    second = opened 2 (1 ∷ zero32) (codes "r1");
  };
}

abbrev two_in : Hand
two_in = record one_in {
  version = 5;
  contributions = record one_in.contributions { first = opened 1 (2 ∷ zero32) (codes "r2") };
}

abbrev three_in : Hand
three_in = record two_in {
  version = 8;
  phase = waiting_public_beacon;
  contributions = record two_in.contributions { third = opened 3 (3 ∷ zero32) (codes "r3") };
}

abbrev beacon_locked : Hand
beacon_locked = record three_in {
  version = 10;
  phase = dealing;
  beacon = some (record beacon_value { proof_ref = codes "proof" });
}

abbrev events_of : Hand → Command → List Event
events_of h c = (value_or (h, []) (apply toy_hash h c h.version)).1

created_event : Event
created_event = record {
  aggregate_id = codes "hand-1";
  name = hand_created (created_payload created);
  version = 1;
}

created_ok :
    new_client_custodied_hand toy_hash
      (codes "hand-1")
      (codes "room-1")
      seats
      (3 ∷ zero32)
      (codes "key")
      plan
      binding
    ≡ ok (created, created_event)
unfolding created_event new_client_custodied_hand new_hand validate_hand_seats validate_hand_seat
    validate_beacon_plan record_event all_zero any_of is_identifier validate_identifier trim_space
    text_eq
created_ok = refl

one_ok :
    apply toy_hash created (custodies (codes "ann") (1 ∷ zero32) (codes "r1")) created.version
    ≡ ok (one_in, events_of created (custodies (codes "ann") (1 ∷ zero32) (codes "r1")))
unfolding record_event all_zero is_identifier validate_identifier trim_space text_eq apply
    submit_custodied write_custodied finish_submission change_phase prepare_mutation check_version
    phase_id resolve_seat client_commitment commitment_bytes lock_public_beacon write_beacon
one_ok = refl

two_ok :
    apply toy_hash one_in (custodies (codes "bob") (2 ∷ zero32) (codes "r2")) one_in.version
    ≡ ok (two_in, events_of one_in (custodies (codes "bob") (2 ∷ zero32) (codes "r2")))
unfolding record_event all_zero is_identifier validate_identifier trim_space text_eq apply
    submit_custodied write_custodied finish_submission change_phase prepare_mutation check_version
    phase_id resolve_seat client_commitment commitment_bytes lock_public_beacon write_beacon
two_ok = refl

three_ok :
    apply toy_hash two_in (custodies (codes "cyd") (3 ∷ zero32) (codes "r3")) two_in.version
    ≡ ok (three_in, events_of two_in (custodies (codes "cyd") (3 ∷ zero32) (codes "r3")))
unfolding record_event all_zero is_identifier validate_identifier trim_space text_eq apply
    submit_custodied write_custodied finish_submission change_phase prepare_mutation check_version
    phase_id resolve_seat client_commitment commitment_bytes lock_public_beacon write_beacon
three_ok = refl

beacon_ok :
    apply toy_hash three_in (locks beacon_value) three_in.version
    ≡ ok (beacon_locked, events_of three_in (locks beacon_value))
unfolding record_event all_zero is_identifier validate_identifier trim_space text_eq apply
    submit_custodied write_custodied finish_submission change_phase prepare_mutation check_version
    phase_id resolve_seat client_commitment commitment_bytes lock_public_beacon write_beacon
beacon_ok = refl

three_reached : Reach toy_hash three_in
three_reached =
    commanded two_in _ two_in.version (three_in, _)
      (commanded one_in _ one_in.version (two_in, _)
        (commanded created _ created.version (one_in, _)
          (custody (codes "hand-1") (codes "room-1") seats (3 ∷ zero32) (codes "key") plan binding
            (created, created_event) created_ok)
          one_ok)
        two_ok)
      three_ok

beacon_reached : Reach toy_hash beacon_locked
beacon_reached = commanded three_in _ three_in.version (beacon_locked, _) three_reached beacon_ok

Reach-fair_example :
    ((at_seat beacon_locked.contributions 1).revealed ≡ true)
    × (client_commitment toy_hash beacon_locked.id 1 (at_seat beacon_locked.contributions 1).digest
        ≡ (at_seat beacon_locked.contributions 1).commitment)
    × ((v : BeaconValue) × (beacon_locked.beacon ≡ some v)
        × (v.provider ≡ beacon_locked.beacon_plan.provider)
        × (v.round ≡ beacon_locked.beacon_plan.round))
Reach-fair_example = Reach-fair toy_hash beacon_locked 1 beacon_reached refl (omega arith)

apply-edge_example : three_in.phase ⟶ beacon_locked.phase
apply-edge_example =
    apply-edge toy_hash three_in (locks beacon_value) three_in.version
      (beacon_locked, events_of three_in (locks beacon_value)) beacon_ok

apply-Inv_example : Inv toy_hash beacon_locked
apply-Inv_example =
    apply-Inv toy_hash three_in (locks beacon_value) three_in.version
      (beacon_locked, events_of three_in (locks beacon_value))
      (Reach-Inv toy_hash three_in three_reached) beacon_ok
