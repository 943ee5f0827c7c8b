-- ===== src/Scenarios/Rooms.antt =====
-- Rooms of server/business/doudizhu/domain/room.go and restore.go.
use awesome_zero_platform.Base.{◌≡◌, ◌≢◌, refl, true, false, List, [], ok, arith}
use awesome_zero_platform.Base.Text.{codes, trim_space, text_eq}
use awesome_zero_platform.Base.Trio.{all_seats}
use awesome_zero_platform.Domain.{check_version, is_identifier, validate_identifier}
use awesome_zero_platform.Room.{
  Room, Event, waiting_players, new_room, join, set_ready, snapshot, record_event, seat_of,
  empty_seat, occupied_count, all_ready, recalculate_status,
}
use awesome_zero_platform.Room.Restore.{restore_room}
use awesome_zero_platform.Room.Invariant.{IsValid, restore_room-snapshot}
use awesome_zero_platform.Room.Commands.{new_room-IsValid}
use awesome_zero_platform.Room.Reach.{
  joins, apply, Reach, created, next, apply-IsValid, Reach-restore, set_ready_empty_seat,
}
use awesome_zero_platform.Scenarios.{value_or}

abbrev opened : Room
opened = record {
  id = codes "room-1";
  owner_id = codes "ann";
  status = waiting_players;
  seats = record (all_seats (record { account_id = []; ready = false })) {
    first = record { account_id = codes "ann"; ready = false };
  };
  active_hand_id = [];
  last_hand_id = [];
  version = 1;
}

abbrev joined : Room
joined = record opened {
  version = 2;
  seats = record opened.seats { second = record { account_id = codes "bob"; ready = false } };
}

abbrev no_room : Room × List Event
no_room = (opened, [])

abbrev opened_events : List Event
opened_events = (value_or no_room (new_room (codes "room-1") (codes "ann"))).1

abbrev joined_events : List Event
joined_events = (value_or no_room (apply opened (joins (codes "bob")) 1)).1

opened_ok : new_room (codes "room-1") (codes "ann") ≡ ok (opened, opened_events)
unfolding new_room validate_identifier is_identifier trim_space text_eq record_event
opened_ok = refl

joined_ok : apply opened (joins (codes "bob")) 1 ≡ ok (joined, joined_events)
unfolding apply join validate_identifier is_identifier trim_space text_eq record_event check_version
    seat_of empty_seat occupied_count all_ready recalculate_status
joined_ok = refl

opened-IsValid : IsValid opened
opened-IsValid = new_room-IsValid (codes "room-1") (codes "ann") (opened, opened_events) opened_ok

apply-IsValid_example : IsValid joined
apply-IsValid_example =
    apply-IsValid opened (joins (codes "bob")) 1 (joined, joined_events) opened-IsValid
      (omega arith) tt joined_ok

opened_reached : Reach opened
opened_reached = created (codes "room-1") (codes "ann") opened_ok

joined_reached : Reach joined
joined_reached = next (joins (codes "bob")) 1 opened_reached (omega arith) tt joined_ok

Reach-restore_example : restore_room (snapshot joined) ≡ ok joined
Reach-restore_example = Reach-restore joined_reached

restore_room-snapshot_example : restore_room (snapshot opened) ≡ ok opened
restore_room-snapshot_example = restore_room-snapshot opened opened-IsValid

set_ready_empty_seat_example :
    (t : Room × List Event) × (set_ready opened [] true opened.version ≡ ok t)
    × ((u : Room) → restore_room (snapshot t.0) ≢ ok u)
set_ready_empty_seat_example = set_ready_empty_seat opened opened-IsValid refl refl refl
