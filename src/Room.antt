-- ===== src/Room.antt =====
-- server/business/doudizhu/domain/room.go: the table of three seats at which hands are played.
pub mod Restore
pub mod Invariant
pub mod Commands
pub mod Reach
use awesome_zero_platform.Base.{
  ℕ, zero, suc, ◌+◌, Bool, true, false, not, ◌&&◌, ◌||◌, List, [], ◌∷◌, Option, none, some, Result,
  ok, err, ◌>>=◌, ◌>>◌, reject, ltb, leb, ◌==◌, if◌then◌else◌, wrap64,
}
use awesome_zero_platform.Base.Text.{Text, text_eq, is_empty}
use awesome_zero_platform.Base.Trio.{Trio, at_seat, set_seat}
use awesome_zero_platform.Domain.{
  Error, room_closed, room_full, already_seated, not_seated, owner_must_remain, hand_active,
  hand_not_active, room_not_ready, no_state_change, forbidden, check_version, validate_identifier,
}

-- `unknown` stands for every string that is not one of the constants.
pub data RoomStatus : Type 0 where
  waiting_players ready hand_active_status closed unknown : RoomStatus

-- `==` on statuses.
abbrev pub is_waiting : RoomStatus → Bool
is_waiting waiting_players = true
is_waiting _ = false

abbrev pub is_ready : RoomStatus → Bool
is_ready ready = true
is_ready _ = false

abbrev pub is_active : RoomStatus → Bool
is_active hand_active_status = true
is_active _ = false

abbrev pub is_closed : RoomStatus → Bool
is_closed closed = true
is_closed _ = false

pub record RoomSeat : Type 0 where
  pub account_id : Text
  pub ready : Bool

pub record SeatSnapshot : Type 0 where
  pub seat : ℕ
  pub account_id : Text
  pub ready : Bool

pub record RoomSnapshot : Type 0 where
  pub id : Text
  pub owner_id : Text
  pub status : RoomStatus
  pub seats : Trio SeatSnapshot
  pub active_hand_id : Text
  pub last_hand_id : Text
  pub version : ℕ

pub record Room : Type 0 where
  pub id : Text
  pub owner_id : Text
  pub status : RoomStatus
  pub seats : Trio RoomSeat
  pub active_hand_id : Text
  pub last_hand_id : Text
  pub version : ℕ

-- The name of an event with its payload.
pub data RoomEvent : Type 0 where
  room_created room_player_joined room_player_left room_closed_event : Text → ℕ → RoomEvent
  room_ready_changed : Text → ℕ → Bool → RoomEvent
  room_hand_started room_hand_finished : Text → RoomEvent

-- An event of the aggregate `room` with the room's id.
pub record Event : Type 0 where
  pub aggregate_id : Text
  pub name : RoomEvent
  pub version : ℕ

-- `record`: the next version, and its event.
unfoldable pub record_event : Room → RoomEvent → Room × List Event
record_event r name =
    let version = wrap64 (r.version + 1) in
    (
      record r { version = version },
      record { aggregate_id = r.id; name = name; version = version } ∷ [],
    )

abbrev pub no_seat : RoomSeat
no_seat = record { account_id = []; ready = false }

abbrev pub seated : Text → RoomSeat
seated account = record { account_id = account; ready = false }

-- `NewRoom`.
unfoldable pub new_room : Text → Text → Result Error (Room × List Event)
new_room id owner = do
  validate_identifier id
  validate_identifier owner
  ok (
      record_event
        (record {
          id = id;
          owner_id = owner;
          status = waiting_players;
          seats = record { first = seated owner; second = no_seat; third = no_seat };
          active_hand_id = [];
          last_hand_id = [];
          version = 0;
        })
        (room_created owner 1))

abbrev pub snapshot_seat : ℕ → RoomSeat → SeatSnapshot
snapshot_seat seat s = record { seat = seat; account_id = s.account_id; ready = s.ready }

-- `Snapshot`.
unfoldable pub snapshot : Room → RoomSnapshot
snapshot r = record {
  id = r.id;
  owner_id = r.owner_id;
  status = r.status;
  seats = record {
    first = snapshot_seat 1 r.seats.first;
    second = snapshot_seat 2 r.seats.second;
    third = snapshot_seat 3 r.seats.third;
  };
  active_hand_id = r.active_hand_id;
  last_hand_id = r.last_hand_id;
  version = r.version;
}

-- `seatOf`, which also finds an empty seat for the empty account.
unfoldable pub seat_of : Trio RoomSeat → Text → Option ℕ
seat_of seats account =
    if text_eq seats.first.account_id account
    then some 1
    else if text_eq seats.second.account_id account
    then some 2
    else if text_eq seats.third.account_id account
    then some 3
    else none

abbrev occupied : RoomSeat → ℕ
occupied s = if is_empty s.account_id then 0 else 1

unfoldable pub occupied_count : Trio RoomSeat → ℕ
occupied_count seats = occupied seats.first + occupied seats.second + occupied seats.third

abbrev is_ready_seat : RoomSeat → Bool
is_ready_seat s = not (is_empty s.account_id) && s.ready

unfoldable pub all_ready : Trio RoomSeat → Bool
all_ready seats =
    is_ready_seat seats.first && is_ready_seat seats.second && is_ready_seat seats.third

-- `recalculateStatus`.
unfoldable pub recalculate_status : Room → Room
recalculate_status r =
    if is_closed r.status
    then r
    else if not (is_empty r.active_hand_id)
    then record r { status = hand_active_status }
    else if occupied_count r.seats == 3 && all_ready r.seats
    then record r { status = ready }
    else record r { status = waiting_players }

-- The loop of `Join`: the first empty seat.
unfoldable pub empty_seat : Trio RoomSeat → Option ℕ
empty_seat seats =
    if is_empty seats.first.account_id
    then some 1
    else if is_empty seats.second.account_id
    then some 2
    else if is_empty seats.third.account_id
    then some 3
    else none

abbrev pub found : Option ℕ → Bool
found none = false
found (some seat) = true

abbrev pub or_fail : Option ℕ → Error → Result Error ℕ
or_fail none e = err e
or_fail (some seat) e = ok seat

-- `Join`.
unfoldable pub join : Room → Text → ℕ → Result Error (Room × List Event)
join r actor expected = do
  check_version r.version expected
  validate_identifier actor
  reject (is_closed r.status) room_closed
  reject (is_active r.status) hand_active
  reject (found (seat_of r.seats actor)) already_seated
  seat ← or_fail (empty_seat r.seats) room_full
  ok (
      record_event (recalculate_status (record r { seats = set_seat r.seats seat (seated actor) }))
        (room_player_joined actor seat))

-- `Leave`. The owner leaves last, and closes the room.
unfoldable pub leave : Room → Text → ℕ → Result Error (Room × List Event)
leave r actor expected = do
  check_version r.version expected
  reject (is_closed r.status) room_closed
  reject (is_active r.status) hand_active
  seat ← or_fail (seat_of r.seats actor) not_seated
  let left : Room = record r { seats = set_seat r.seats seat no_seat }
  if text_eq actor r.owner_id
      then (do
        reject (ltb 1 (occupied_count r.seats)) owner_must_remain
        ok (record_event (record left { status = closed }) (room_closed_event actor seat)))
      else ok (record_event (recalculate_status left) (room_player_left actor seat))

abbrev pub bool_eq : Bool → Bool → Bool
bool_eq true b = b
bool_eq false b = not b

-- `SetReady`.
unfoldable pub set_ready : Room → Text → Bool → ℕ → Result Error (Room × List Event)
set_ready r actor wanted expected = do
  check_version r.version expected
  reject (is_closed r.status) room_closed
  reject (is_active r.status) hand_active
  seat ← or_fail (seat_of r.seats actor) not_seated
  let current : RoomSeat = at_seat r.seats seat
  reject (bool_eq current.ready wanted) no_state_change
  ok (
      record_event
        (recalculate_status
          (record r { seats = set_seat r.seats seat (record current { ready = wanted }) }))
        (room_ready_changed actor seat wanted))

abbrev pub unready : RoomSeat → RoomSeat
unready s = record s { ready = false }

-- `StartHand`.
unfoldable pub start_hand : Room → Text → Text → ℕ → Result Error (Room × List Event)
start_hand r actor hand expected = do
  check_version r.version expected
  reject (not (text_eq actor r.owner_id)) forbidden
  validate_identifier hand
  reject (is_closed r.status) room_closed
  reject (not (is_empty r.active_hand_id) || is_active r.status) hand_active
  reject (not (is_ready r.status) || not (occupied_count r.seats == 3) || not (all_ready r.seats))
      room_not_ready
  ok (
      record_event
        (record r {
          active_hand_id = hand;
          status = hand_active_status;
          seats = record {
            first = unready r.seats.first;
            second = unready r.seats.second;
            third = unready r.seats.third;
          };
        })
        (room_hand_started hand))

-- `len(archiveAvailable) == 0 || archiveAvailable[0]`.
abbrev pub archived : List Bool → Bool
archived [] = true
archived (b ∷ rest) = b

-- `FinishHand`.
unfoldable pub finish_hand : Room → Text → ℕ → List Bool → Result Error (Room × List Event)
finish_hand r hand expected archive_available = do
  check_version r.version expected
  reject
      (not (is_active r.status) || is_empty r.active_hand_id || not (text_eq r.active_hand_id hand))
      hand_not_active
  ok (
      record_event
        (recalculate_status (record r {
          active_hand_id = [];
          last_hand_id = if archived archive_available then hand else [];
        }))
        (room_hand_finished hand))

-- The account of each seat, as `HandSeats` returns them in the order of the seats.
unfoldable pub hand_seats : Room → Result Error (Trio Text)
unfolding occupied_count
hand_seats r = do
  reject (not (occupied_count r.seats == 3)) room_not_ready
  ok (record {
    first = r.seats.first.account_id;
    second = r.seats.second.account_id;
    third = r.seats.third.account_id;
  })
