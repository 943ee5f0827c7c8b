-- ===== src/Hand.antt =====
-- server/business/doudizhu/domain/hand_types.go: one hand, from its creation to its end, with the data
-- that its fairness protocol collects.
pub mod Phases
pub mod Fairness
pub mod Commands
pub mod Written
pub mod Edges
pub mod Invariant
pub mod Protocol
pub mod Reach
pub mod Restore
use awesome_zero_platform.Base.{
  ℕ, zero, suc, ◌+◌, Bool, true, false, not, ◌&&◌, ◌||◌, List, [], ◌∷◌, ◌++◌, Option, none, some,
  Result, ok, err, ◌>>=◌, ◌>>◌, reject, ltb, leb, ◌==◌, if◌then◌else◌, length, replicate, wrap64,
}
use awesome_zero_platform.Base.Text.{Text, codes, text_eq, is_empty}
use awesome_zero_platform.Base.Trio.{Trio, all_seats}
use awesome_zero_platform.Domain.{
  Error, invalid_argument, wrong_phase, hand_terminal, not_seated, check_version,
  validate_identifier, seat_valid,
}

-- `unknown` stands for every string that is not one of the constants.
pub data HandPhase : Type 0 where
  fairness_committing fairness_revealing waiting_public_beacon dealing bidding : HandPhase
  playing settling completed cancelled aborted expired unknown : HandPhase

-- `==` on phases goes by a number for each constant.
unfoldable pub phase_id : HandPhase → ℕ
phase_id fairness_committing = 0
phase_id fairness_revealing = 1
phase_id waiting_public_beacon = 2
phase_id dealing = 3
phase_id bidding = 4
phase_id playing = 5
phase_id settling = 6
phase_id completed = 7
phase_id cancelled = 8
phase_id aborted = 9
phase_id expired = 10
phase_id unknown = 11

abbrev pub phase_eq : HandPhase → HandPhase → Bool
phase_eq p q = phase_id p == phase_id q

-- `HandPhase.Terminal`.
abbrev pub terminal : HandPhase → Bool
terminal completed = true
terminal cancelled = true
terminal aborted = true
terminal expired = true
terminal _ = false

-- `FairnessMode`: the empty string, the one constant, or another string.
pub data FairnessMode : Type 0 where
  client_reveal client_custodied unknown_mode : FairnessMode

abbrev pub is_custodied : FairnessMode → Bool
is_custodied client_custodied = true
is_custodied client_reveal = false
is_custodied unknown_mode = false

pub record HandSeat : Type 0 where
  pub seat : ℕ
  pub account_id : Text

pub record BeaconPlan : Type 0 where
  pub provider : Text
  pub round : Text

-- An array of 32 bytes is a list of bytes. A time is the number of seconds since Go's zero time, and
-- `UTC` keeps it.
pub record RevealKeyBinding : Type 0 where
  pub public_key_sha256 : Text
  pub bound_at : ℕ

pub record BeaconValue : Type 0 where
  pub provider : Text
  pub round : Text
  pub digest : Text
  pub proof_ref : Text

pub record Contribution : Type 0 where
  pub commitment : Text
  pub revealed : Bool
  pub digest : Text
  pub record_ref : Text

pub record Hand : Type 0 where
  pub fairness_mode : FairnessMode
  pub id : Text
  pub room_id : Text
  pub phase : HandPhase
  pub seats : Trio HandSeat
  pub server_commitment : Text
  pub reveal_key_id : Text
  pub reveal_public_key_sha256 : Text
  pub reveal_key_bound_at : ℕ
  pub beacon_plan : BeaconPlan
  pub beacon : Option BeaconValue
  pub contributions : Trio Contribution
  pub termination_reason : Text
  pub version : ℕ

pub record HandCreated : Type 0 where
  pub fairness_mode : FairnessMode
  pub room_id : Text
  pub seats : Trio HandSeat
  pub reveal_key_id : Text
  pub reveal_public_key_sha256 : Text
  pub reveal_key_bound_at : ℕ
  pub beacon_plan : BeaconPlan

-- The names of the events with their payloads.
pub data HandEvent : Type 0 where
  hand_created : HandCreated → HandEvent
  commit_accepted reveal_accepted : ℕ → HandEvent
  beacon_locked : Text → Text → Text → HandEvent
  phase_changed : HandPhase → HandPhase → HandEvent
  hand_terminated : HandPhase → Text → HandEvent

pub record Event : Type 0 where
  pub aggregate_id : Text
  pub name : HandEvent
  pub version : ℕ

-- `record`: the next version, and its event.
unfoldable pub record_event : Hand → HandEvent → Hand × Event
record_event h name =
    let version = wrap64 (h.version + 1) in
    (record h { version = version }, record { aggregate_id = h.id; name = name; version = version })

-- `allZero32`: the bytes combined by `|` are 0 exactly if each is.
unfoldable pub all_zero : Text → Bool
all_zero [] = true
all_zero (b ∷ rest) = b == 0 && all_zero rest

abbrev pub zero32 : Text
zero32 = replicate 32 0

abbrev pub no_contribution : Contribution
no_contribution = record { commitment = zero32; revealed = false; digest = zero32; record_ref = [] }

-- The two maps of `validateHandSeats`: what the seats before this one hold.
abbrev seat_taken : ℕ → HandSeat → Bool
seat_taken seat s = s.seat == seat

abbrev account_taken : Text → HandSeat → Bool
account_taken account s = text_eq s.account_id account

unfoldable pub any_of : {A : Type 0} → (A → Bool) → List A → Bool
any_of p [] = false
any_of p (a ∷ rest) = p a || any_of p rest

-- One round of `validateHandSeats`.
unfoldable pub validate_hand_seat : List HandSeat → HandSeat → Result Error (Unit {0})
validate_hand_seat before s = do
  reject (not (seat_valid s.seat)) invalid_argument
  validate_identifier s.account_id
  reject (any_of (seat_taken s.seat) before) invalid_argument
  reject (any_of (account_taken s.account_id) before) invalid_argument

-- `validateHandSeats`, with its last loop over the seats that have to be there.
unfoldable pub validate_hand_seats : Trio HandSeat → Result Error (Unit {0})
validate_hand_seats seats =
    let all = seats.first ∷ seats.second ∷ seats.third ∷ [] in
    do
      validate_hand_seat [] seats.first
      validate_hand_seat (seats.first ∷ []) seats.second
      validate_hand_seat (seats.first ∷ seats.second ∷ []) seats.third
      reject (not (any_of (seat_taken 1) all)) invalid_argument
      reject (not (any_of (seat_taken 2) all)) invalid_argument
      reject (not (any_of (seat_taken 3) all)) invalid_argument

-- `validateBeaconPlan`.
unfoldable pub validate_beacon_plan : BeaconPlan → Result Error (Unit {0})
validate_beacon_plan plan = do validate_identifier plan.provider; validate_identifier plan.round

-- The payload that `NewHand` reports.
abbrev pub created_payload : Hand → HandCreated
created_payload h = record {
  fairness_mode = h.fairness_mode;
  room_id = h.room_id;
  seats = h.seats;
  reveal_key_id = h.reveal_key_id;
  reveal_public_key_sha256 = h.reveal_public_key_sha256;
  reveal_key_bound_at = h.reveal_key_bound_at;
  beacon_plan = h.beacon_plan;
}

abbrev pub custodied : Hand → Hand
custodied h = record h { fairness_mode = client_custodied }

abbrev pub custodied_event : HandEvent → HandEvent
custodied_event (hand_created p) = hand_created (record p { fairness_mode = client_custodied })
custodied_event other = other

module _ (sha256 : Text → Text) where
  -- The binding that `NewHand` takes from its variadic argument, which has one entry at most. The
  -- seconds are those of the Unix epoch.
  abbrev binding_of : Text → List RevealKeyBinding → RevealKeyBinding
  binding_of key [] = record { public_key_sha256 = sha256 key; bound_at = 62135596800 }
  binding_of key (b ∷ rest) = b

  abbrev too_many : List RevealKeyBinding → Bool
  too_many bindings = ltb 1 (length bindings)

  -- `NewHand`.
  unfoldable pub new_hand :
      Text
      → Text
      → Trio HandSeat
      → Text
      → Text
      → BeaconPlan
      → List RevealKeyBinding
      → Result Error (Hand × Event)
  new_hand id room_id seats server_commitment reveal_key_id plan bindings =
      let binding = binding_of reveal_key_id bindings in
      let hand : Hand = record {
        fairness_mode = client_reveal;
        id = id;
        room_id = room_id;
        phase = fairness_committing;
        seats = seats;
        server_commitment = server_commitment;
        reveal_key_id = reveal_key_id;
        reveal_public_key_sha256 = binding.public_key_sha256;
        reveal_key_bound_at = binding.bound_at;
        beacon_plan = plan;
        beacon = none;
        contributions = all_seats no_contribution;
        termination_reason = [];
        version = 0;
      } in
      do
        validate_identifier id
        validate_identifier room_id
        reject (all_zero server_commitment) invalid_argument
        validate_identifier reveal_key_id
        reject (too_many bindings) invalid_argument
        reject (all_zero binding.public_key_sha256 || binding.bound_at == 0) invalid_argument
        validate_beacon_plan plan
        validate_hand_seats seats
        ok (record_event hand (hand_created (created_payload hand)))

  -- `NewClientCustodiedHand`: the same hand with another mode, also in the event.
  unfoldable pub new_client_custodied_hand :
      Text
      → Text
      → Trio HandSeat
      → Text
      → Text
      → BeaconPlan
      → RevealKeyBinding
      → Result Error (Hand × Event)
  new_client_custodied_hand id room_id seats server_commitment reveal_key_id plan binding = do
    (h, e) ← new_hand id room_id seats server_commitment reveal_key_id plan (binding ∷ [])
    ok (custodied h, record e { name = custodied_event e.name })
