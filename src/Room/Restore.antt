-- ===== src/Room/Restore.antt =====
-- server/business/doudizhu/domain/restore.go: a room read back from a repository's snapshot.
use awesome_zero_platform.Base.{
  ℕ, Bool, true, false, not, ◌&&◌, ◌||◌, List, [], ◌∷◌, Result, ok, ◌>>=◌, ◌>>◌, reject, ◌==◌,
  if◌then◌else◌,
}
use awesome_zero_platform.Base.Text.{Text, text_eq, is_empty}
use awesome_zero_platform.Base.Trio.{Trio}
use awesome_zero_platform.Domain.{Error, invalid_argument, validate_identifier}
use awesome_zero_platform.Room.{
  RoomStatus, waiting_players, ready, hand_active_status, closed, unknown, is_closed, Room,
  RoomSeat, RoomSnapshot, SeatSnapshot, no_seat, occupied_count, all_ready,
}

-- `validRoomStatus`.
abbrev pub valid_status : RoomStatus → Bool
valid_status unknown = false
valid_status waiting_players = true
valid_status _ = true

-- The map `seen`.
unfoldable pub is_seen : List Text → Text → Bool
is_seen [] account = false
is_seen (a ∷ rest) account = text_eq a account || is_seen rest account

-- One round of the loop over the seats, with the accounts seen so far.
unfoldable pub restore_seat : List Text → ℕ → SeatSnapshot → Result Error RoomSeat
restore_seat seen expected s = do
  reject (not (s.seat == expected)) invalid_argument
  if is_empty s.account_id then (do reject s.ready invalid_argument; ok no_seat) else (do
    validate_identifier s.account_id
    reject (is_seen seen s.account_id) invalid_argument
    ok (record { account_id = s.account_id; ready = s.ready }))

abbrev pub with_seen : List Text → Text → List Text
with_seen seen account = if is_empty account then seen else account ∷ seen

unfoldable pub restore_seats : Trio SeatSnapshot → Result Error (Trio RoomSeat)
restore_seats seats = do
  first ← restore_seat [] 1 seats.first
  second ← restore_seat (with_seen [] first.account_id) 2 seats.second
  third ← restore_seat (with_seen (with_seen [] first.account_id) second.account_id) 3 seats.third
  ok (record { first = first; second = second; third = third })

-- `validateRoomSnapshotState`, by the status.
unfoldable pub validate_state : RoomStatus → Room → Result Error (Unit {0})
validate_state hand_active_status r = do
  reject (is_empty r.active_hand_id || not (occupied_count r.seats == 3)) invalid_argument
  validate_identifier r.active_hand_id
validate_state ready r =
    reject
      (not (is_empty r.active_hand_id)
        || not (occupied_count r.seats == 3)
        || not (all_ready r.seats))
      invalid_argument
validate_state waiting_players r =
    reject (not (is_empty r.active_hand_id) || (occupied_count r.seats == 3 && all_ready r.seats))
      invalid_argument
validate_state closed r =
    reject (not (is_empty r.active_hand_id) || not (occupied_count r.seats == 0)) invalid_argument
validate_state unknown r = ok tt

abbrev pub validate_optional : Text → Result Error (Unit {0})
validate_optional value = if is_empty value then ok tt else validate_identifier value

-- `RestoreRoom`.
unfoldable pub restore_room : RoomSnapshot → Result Error Room
restore_room s = do
  validate_identifier s.id
  validate_identifier s.owner_id
  reject (s.version == 0) invalid_argument
  validate_optional s.last_hand_id
  reject (not (valid_status s.status)) invalid_argument
  seats ← restore_seats s.seats
  let room : Room = record {
    id = s.id;
    owner_id = s.owner_id;
    status = s.status;
    seats = seats;
    active_hand_id = s.active_hand_id;
    last_hand_id = s.last_hand_id;
    version = s.version;
  }
  reject (not (is_closed s.status) && not (text_eq seats.first.account_id s.owner_id))
      invalid_argument
  validate_state s.status room
  ok room
