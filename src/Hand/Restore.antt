-- ===== src/Hand/Restore.antt =====
-- The snapshot of a hand (server/business/doudizhu/domain/hand_types.go) and its restoration
-- (restore.go).
use awesome_zero_platform.Base.{
  ℕ, Bool, true, false, not, ◌||◌, Option, none, some, Result, ok, ◌>>=◌, ◌>>◌, reject, ltb, leb,
  ◌==◌, if◌then◌else◌, length,
}
use awesome_zero_platform.Base.Text.{Text, text_eq, is_empty, trim_space}
use awesome_zero_platform.Base.Trio.{Trio}
use awesome_zero_platform.Domain.{Error, invalid_argument, beacon_mismatch, validate_identifier}
use awesome_zero_platform.Hand.{
  HandPhase, fairness_committing, fairness_revealing, waiting_public_beacon, dealing, bidding,
  playing, settling, completed, unknown, terminal, FairnessMode, client_reveal, client_custodied,
  unknown_mode, is_custodied, HandSeat, BeaconPlan, BeaconValue, Contribution, Hand, all_zero,
  zero32, validate_hand_seats, validate_beacon_plan,
}
use awesome_zero_platform.Hand.Fairness.{committed, commit_count, reveal_count}

pub record ContributionSnapshot : Type 0 where
  pub seat : ℕ
  pub committed : Bool
  pub commitment : Text
  pub revealed : Bool
  pub digest : Text
  pub record_ref : Text

pub record HandSnapshot : Type 0 where
  pub fairness_mode : FairnessMode
  pub id : Text
  pub room_id : Text
  pub phase : HandPhase
  pub seats : Trio HandSeat
  pub server_commitment : Text
  pub reveal_key_id : Text
  pub reveal_public_key_sha256 : Text
  pub reveal_key_bound_at : ℕ
  pub beacon_plan : BeaconPlan
  pub beacon : Option BeaconValue
  pub contributions : Trio ContributionSnapshot
  pub termination_reason : Text
  pub version : ℕ

abbrev pub snapshot_contribution : ℕ → Contribution → ContributionSnapshot
snapshot_contribution seat c = record {
  seat = seat;
  committed = committed c;
  commitment = c.commitment;
  revealed = c.revealed;
  digest = c.digest;
  record_ref = c.record_ref;
}

-- `Hand.Snapshot`.
unfoldable pub snapshot : Hand → HandSnapshot
snapshot h = record {
  fairness_mode = h.fairness_mode;
  id = h.id;
  room_id = h.room_id;
  phase = h.phase;
  seats = h.seats;
  server_commitment = h.server_commitment;
  reveal_key_id = h.reveal_key_id;
  reveal_public_key_sha256 = h.reveal_public_key_sha256;
  reveal_key_bound_at = h.reveal_key_bound_at;
  beacon_plan = h.beacon_plan;
  beacon = h.beacon;
  contributions = record {
    first = snapshot_contribution 1 h.contributions.first;
    second = snapshot_contribution 2 h.contributions.second;
    third = snapshot_contribution 3 h.contributions.third;
  };
  termination_reason = h.termination_reason;
  version = h.version;
}

abbrev pub known_mode : FairnessMode → Bool
known_mode client_reveal = true
known_mode client_custodied = true
known_mode unknown_mode = false

-- `validHandPhase`.
abbrev pub valid_phase : HandPhase → Bool
valid_phase unknown = false
valid_phase _ = true

-- The checks of a beacon in a snapshot.
unfoldable pub check_beacon : BeaconPlan → Option BeaconValue → Result Error (Unit {0})
check_beacon plan none = ok tt
check_beacon plan (some v) = do
  reject (not (text_eq v.provider plan.provider) || not (text_eq v.round plan.round))
      beacon_mismatch
  reject (all_zero v.digest || is_empty (trim_space v.proof_ref) || ltb 512 (length v.proof_ref))
      invalid_argument

-- The checks of the two cases of `Revealed`.
unfoldable pub check_revealed : Bool → Bool → ContributionSnapshot → Result Error (Unit {0})
check_revealed true has_committed c = do
  reject (not has_committed || all_zero c.digest) invalid_argument
  reject (is_empty (trim_space c.record_ref) || ltb 256 (length c.record_ref)) invalid_argument
check_revealed false has_committed c =
    reject (not (text_eq c.digest zero32) || not (is_empty c.record_ref)) invalid_argument

abbrev bool_eq : Bool → Bool → Bool
bool_eq true b = b
bool_eq false b = not b

-- One round of the loop over the contributions.
unfoldable pub restore_contribution : ℕ → ContributionSnapshot → Result Error Contribution
restore_contribution expected_seat c =
    let has_committed = not (text_eq c.commitment zero32) in
    do
      reject (not (c.seat == expected_seat)) invalid_argument
      reject (not (bool_eq c.committed has_committed)) invalid_argument
      check_revealed c.revealed has_committed c
      ok (record {
        commitment = c.commitment;
        revealed = c.revealed;
        digest = c.digest;
        record_ref = c.record_ref;
      })

abbrev pub no_beacon : Option BeaconValue → Bool
no_beacon none = true
no_beacon (some v) = false

-- The last `switch` of `validateHandSnapshotState`: whether a phase that is not terminal fits the
-- number of commitments and of reveals, and the beacon.
unfoldable pub counts_fit : HandPhase → Bool → ℕ → ℕ → Bool → Bool
counts_fit fairness_committing true commits reveals bare =
    not (leb 3 commits || not (reveals == commits) || not bare)
counts_fit fairness_committing false commits reveals bare =
    not (leb 3 commits || not (reveals == 0) || not bare)
counts_fit fairness_revealing custodied commits reveals bare =
    not (not (commits == 3) || leb 3 reveals || not bare)
counts_fit waiting_public_beacon custodied commits reveals bare =
    not (not (commits == 3) || not (reveals == 3) || not bare)
counts_fit dealing custodied commits reveals bare =
    not (not (commits == 3) || not (reveals == 3) || bare)
counts_fit bidding custodied commits reveals bare =
    not (not (commits == 3) || not (reveals == 3) || bare)
counts_fit playing custodied commits reveals bare =
    not (not (commits == 3) || not (reveals == 3) || bare)
counts_fit settling custodied commits reveals bare =
    not (not (commits == 3) || not (reveals == 3) || bare)
counts_fit completed custodied commits reveals bare =
    not (not (commits == 3) || not (reveals == 3) || bare)
counts_fit _ custodied commits reveals bare = true

-- The case of a terminal phase.
unfoldable pub check_terminal : HandPhase → Text → ℕ → ℕ → Bool → Result Error (Unit {0})
check_terminal completed reason commits reveals bare = do
  reject (not (is_empty reason)) invalid_argument
  reject (not (commits == 3) || not (reveals == 3) || bare) invalid_argument
check_terminal _ reason commits reveals bare =
    reject (is_empty (trim_space reason) || ltb 256 (length reason)) invalid_argument

-- `validateHandSnapshotState`.
unfoldable pub validate_snapshot_state : Hand → Result Error (Unit {0})
validate_snapshot_state h =
    let commits = commit_count h.contributions in
    let reveals = reveal_count h.contributions in
    let bare = no_beacon h.beacon in
    do
      reject (ltb commits reveals) invalid_argument
      if terminal h.phase
          then check_terminal h.phase h.termination_reason commits reveals bare
          else (do
            reject (not (is_empty h.termination_reason)) invalid_argument
            reject (not (counts_fit h.phase (is_custodied h.fairness_mode) commits reveals bare))
                invalid_argument)

-- The hand that `RestoreHand` fills in.
abbrev pub restored : HandSnapshot → Trio Contribution → Hand
restored s contributions = record {
  fairness_mode = s.fairness_mode;
  id = s.id;
  room_id = s.room_id;
  phase = s.phase;
  seats = s.seats;
  server_commitment = s.server_commitment;
  reveal_key_id = s.reveal_key_id;
  reveal_public_key_sha256 = s.reveal_public_key_sha256;
  reveal_key_bound_at = s.reveal_key_bound_at;
  beacon_plan = s.beacon_plan;
  beacon = s.beacon;
  contributions = contributions;
  termination_reason = s.termination_reason;
  version = s.version;
}

-- The checks of `RestoreHand` before it fills in the hand.
unfoldable pub check_snapshot : HandSnapshot → Result Error (Unit {0})
check_snapshot s = do
  reject (not (known_mode s.fairness_mode)) invalid_argument
  validate_identifier s.id
  validate_identifier s.room_id
  reject (s.version == 0) invalid_argument
  reject (not (valid_phase s.phase)) invalid_argument
  validate_hand_seats s.seats
  reject (all_zero s.server_commitment) invalid_argument
  validate_identifier s.reveal_key_id
  reject (text_eq s.reveal_public_key_sha256 zero32 || s.reveal_key_bound_at == 0) invalid_argument
  validate_beacon_plan s.beacon_plan

-- `RestoreHand`.
unfoldable pub restore_hand : HandSnapshot → Result Error Hand
restore_hand s = do
  check_snapshot s
  check_beacon s.beacon_plan s.beacon
  first ← restore_contribution 1 s.contributions.first
  second ← restore_contribution 2 s.contributions.second
  third ← restore_contribution 3 s.contributions.third
  let h : Hand = restored s (record { first = first; second = second; third = third })
  validate_snapshot_state h
  ok h
