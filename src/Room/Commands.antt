-- ===== src/Room/Commands.antt =====
-- Every command of an account keeps a room well-formed.
use awesome_zero_platform.Base.{
  ℕ, ◌+◌, ◌≤◌, ◌<◌, ◌≡◌, ◌≢◌, ◌⊎◌, inl, inr, refl, Bool, true, false, List, [], none, some, ok, ltb,
  if◌then◌else◌, arith,
}
use awesome_zero_platform.Base.Text.{Text, text_eq, text_eq_iff}
use awesome_zero_platform.Base.Trio.{Trio, at_seat, set_seat}
use awesome_zero_platform.Domain.{
  is_identifier, is_identifier-empty, validate_identifier, check_version,
}
use awesome_zero_platform.Room.{
  RoomStatus, hand_active_status, closed, is_closed, is_active, is_ready, Room, RoomSeat, Event,
  RoomEvent, no_seat, seated, unready, archived, occupied_count, all_ready, new_room, join, leave,
  set_ready, start_hand, finish_hand, recalculate_status, record_event, seat_of, empty_seat,
}
use awesome_zero_platform.Room.Invariant.{IsValid, SeatFits, Apart, OptionalId}

-- The counter of versions has room for one more.
abbrev pub HasNext : Room → Type 0
HasNext r = r.version + 1 < 18446744073709551616

-- A room between the write of a command and the new status.
record Core (r : Room) : Type 0 where
  id : is_identifier r.id ≡ true
  owner_id : is_identifier r.owner_id ≡ true
  last_hand : OptionalId r.last_hand_id
  first : SeatFits r.seats.first
  second : SeatFits r.seats.second
  third : SeatFits r.seats.third
  apart12 : Apart r.seats.first r.seats.second
  apart13 : Apart r.seats.first r.seats.third
  apart23 : Apart r.seats.second r.seats.third
  owner_first : r.seats.first.account_id ≡ r.owner_id
  no_hand : r.active_hand_id ≡ []
  is_open : is_closed r.status ≡ false

recalculate-IsValid :
    (r : Room) (e : RoomEvent)
    → Core r
    → HasNext r
    → IsValid (record_event (recalculate_status r) e).0
unfolding record_event recalculate_status
recalculate-IsValid r e c n = ground arith

-- `Join`, taken apart.
pub join-eq-ok :
    (r : Room) (actor : Text) (expected : ℕ) (t : Room × List Event)
    → join r actor expected ≡ ok t
    → (k : ℕ) × (expected ≡ r.version)
      × (is_identifier actor ≡ true)
      × (is_closed r.status ≡ false)
      × (is_active r.status ≡ false)
      × (seat_of r.seats actor ≡ none)
      × (empty_seat r.seats ≡ some k)
      × (t
          ≡ record_event
              (recalculate_status (record r { seats = set_seat r.seats k (seated actor) }))
              (RoomEvent.room_player_joined actor k))
unfolding join check_version validate_identifier
join-eq-ok r actor expected t h = ground arith

-- In an open room without a hand the invariant gives the core.
core : (r : Room) → IsValid r → is_closed r.status ≡ false → is_active r.status ≡ false → Core r
core r v o a = by_status r.status refl
  where
    by_status : (s : RoomStatus) → r.status ≡ s → Core r
    by_status s e = ground (arith, v.status, v.owner_first)

-- No account sits where `seatOf` finds nothing.
seat_of-none :
    (seats : Trio RoomSeat) (actor : Text)
    → seat_of seats actor ≡ none
    → (seats.first.account_id ≢ actor)
      × (seats.second.account_id ≢ actor)
      × (seats.third.account_id ≢ actor)
unfolding seat_of
seat_of-none seats actor h = (
  λ e. ground (arith, text_eq_iff seats.first.account_id actor),
  λ e. ground (arith, text_eq_iff seats.second.account_id actor),
  λ e. ground (arith, text_eq_iff seats.third.account_id actor),
)

join-Core :
    (r : Room) (actor : Text) (k : ℕ)
    → Core r
    → is_identifier actor ≡ true
    → seat_of r.seats actor ≡ none
    → empty_seat r.seats ≡ some k
    → Core (record r { seats = set_seat r.seats k (seated actor) })
unfolding empty_seat
join-Core r actor k c i none_there e =
    ground (arith, seat_of-none r.seats actor none_there, is_identifier-empty)

pub join-IsValid :
    (r : Room) (actor : Text) (expected : ℕ) (t : Room × List Event)
    → IsValid r
    → HasNext r
    → join r actor expected ≡ ok t
    → IsValid t.0
join-IsValid r actor expected t v n h =
    let (k, now, i, o, a, s, e, eq) = join-eq-ok r actor expected t h in
    rw eq (recalculate-IsValid _ _ (join-Core r actor k (core r v o a) i s e) n)

seat_of-some :
    (seats : Trio RoomSeat) (actor : Text) (k : ℕ)
    → seat_of seats actor ≡ some k
    → (1 ≤ k) × (k ≤ 3) × ((at_seat seats k).account_id ≡ actor)
unfolding seat_of
seat_of-some seats actor k h = ground (
  arith,
  text_eq_iff seats.first.account_id actor,
  text_eq_iff seats.second.account_id actor,
  text_eq_iff seats.third.account_id actor,
)

abbrev pub left_room : Room → ℕ → Room
left_room r k = record r { seats = set_seat r.seats k no_seat }

pub leave-eq-ok :
    (r : Room) (actor : Text) (expected : ℕ) (t : Room × List Event)
    → leave r actor expected ≡ ok t
    → (k : ℕ) × (expected ≡ r.version)
      × (is_closed r.status ≡ false)
      × (is_active r.status ≡ false)
      × (seat_of r.seats actor ≡ some k)
      × (((text_eq actor r.owner_id ≡ true)
            × (ltb 1 (occupied_count r.seats) ≡ false)
            × (t
                ≡ record_event
                    (record (left_room r k) { status = closed })
                    (RoomEvent.room_closed_event actor k)))
          ⊎ ((text_eq actor r.owner_id ≡ false)
              × (t
                  ≡ record_event
                      (recalculate_status (left_room r k))
                      (RoomEvent.room_player_left actor k))))
unfolding leave check_version
leave-eq-ok r actor expected t h = ground arith

left-Core :
    (r : Room) (actor : Text) (k : ℕ)
    → Core r
    → text_eq actor r.owner_id ≡ false
    → seat_of r.seats actor ≡ some k
    → Core (left_room r k)
left-Core r actor k c not_owner s =
    let at = seat_of-some r.seats actor k s in ground (arith, at, text_eq_iff actor r.owner_id)

closed-IsValid :
    (r : Room) (actor : Text) (k : ℕ) (e : RoomEvent)
    → Core r
    → HasNext r
    → text_eq actor r.owner_id ≡ true
    → seat_of r.seats actor ≡ some k
    → ltb 1 (occupied_count r.seats) ≡ false
    → IsValid (record_event (record (left_room r k) { status = closed }) e).0
unfolding record_event occupied_count
closed-IsValid r actor k e c n owner s few =
    ground
      (arith, seat_of-some r.seats actor k s, text_eq_iff actor r.owner_id, is_identifier-empty)

pub leave-IsValid :
    (r : Room) (actor : Text) (expected : ℕ) (t : Room × List Event)
    → IsValid r
    → HasNext r
    → leave r actor expected ≡ ok t
    → IsValid t.0
leave-IsValid r actor expected t v n h =
    let (k, now, o, a, s, outcome) = leave-eq-ok r actor expected t h in
    let c = core r v o a in
    elim outcome [
      | inl (owner, few, eq) ↦ rw eq (closed-IsValid r actor k _ c n owner s few)
      | inr (guest, eq) ↦ rw eq (recalculate-IsValid _ _ (left-Core r actor k c guest s) n)
    ]

abbrev pub readied : Room → ℕ → Bool → Room
readied r k wanted = record r {
  seats = set_seat r.seats k (record (at_seat r.seats k) { ready = wanted });
}

pub set_ready-eq-ok :
    (r : Room) (actor : Text) (wanted : Bool) (expected : ℕ) (t : Room × List Event)
    → set_ready r actor wanted expected ≡ ok t
    → (k : ℕ) × (expected ≡ r.version)
      × (is_closed r.status ≡ false)
      × (is_active r.status ≡ false)
      × (seat_of r.seats actor ≡ some k)
      × (t
          ≡ record_event
              (recalculate_status (readied r k wanted))
              (RoomEvent.room_ready_changed actor k wanted))
unfolding set_ready check_version
set_ready-eq-ok r actor wanted expected t h = ground arith

readied-Core :
    (r : Room) (actor : Text) (k : ℕ) (wanted : Bool)
    → Core r
    → actor ≢ []
    → seat_of r.seats actor ≡ some k
    → Core (readied r k wanted)
readied-Core r actor k wanted c named s = ground (arith, seat_of-some r.seats actor k s)

pub set_ready-IsValid :
    (r : Room) (actor : Text) (wanted : Bool) (expected : ℕ) (t : Room × List Event)
    → IsValid r
    → HasNext r
    → actor ≢ []
    → set_ready r actor wanted expected ≡ ok t
    → IsValid t.0
set_ready-IsValid r actor wanted expected t v n named h =
    let (k, now, o, a, s, eq) = set_ready-eq-ok r actor wanted expected t h in
    rw eq (recalculate-IsValid _ _ (readied-Core r actor k wanted (core r v o a) named s) n)

abbrev pub started : Room → Text → Room
started r hand = record r {
  active_hand_id = hand;
  status = hand_active_status;
  seats = record {
    first = unready r.seats.first;
    second = unready r.seats.second;
    third = unready r.seats.third;
  };
}

pub start_hand-eq-ok :
    (r : Room) (actor hand : Text) (expected : ℕ) (t : Room × List Event)
    → start_hand r actor hand expected ≡ ok t
    → (expected ≡ r.version)
      × (actor ≡ r.owner_id)
      × (is_ready r.status ≡ true)
      × (is_identifier hand ≡ true)
      × (occupied_count r.seats ≡ 3)
      × (t ≡ record_event (started r hand) (RoomEvent.room_hand_started hand))
unfolding start_hand check_version validate_identifier
start_hand-eq-ok r actor hand expected t h = ground (arith, text_eq_iff actor r.owner_id)

pub start_hand-IsValid :
    (r : Room) (actor hand : Text) (expected : ℕ) (t : Room × List Event)
    → IsValid r
    → HasNext r
    → start_hand r actor hand expected ≡ ok t
    → IsValid t.0
unfolding start_hand record_event occupied_count check_version validate_identifier
start_hand-IsValid r actor hand expected t v n h = ground arith

abbrev pub finished : Room → Text → List Bool → Room
finished r hand archive = record r {
  active_hand_id = [];
  last_hand_id = if archived archive then hand else [];
}

pub finish_hand-eq-ok :
    (r : Room) (hand : Text) (expected : ℕ) (archive : List Bool) (t : Room × List Event)
    → finish_hand r hand expected archive ≡ ok t
    → (expected ≡ r.version)
      × (is_active r.status ≡ true)
      × (r.active_hand_id ≡ hand)
      × (t
          ≡ record_event
              (recalculate_status (finished r hand archive))
              (RoomEvent.room_hand_finished hand))
unfolding finish_hand check_version
finish_hand-eq-ok r hand expected archive t h = ground (arith, text_eq_iff r.active_hand_id hand)

finished-Core :
    (r : Room) (hand : Text) (archive : List Bool)
    → IsValid r
    → is_active r.status ≡ true
    → r.active_hand_id ≡ hand
    → Core (finished r hand archive)
finished-Core r hand archive v a e = by_status r.status refl
  where
    by_status : (s : RoomStatus) → r.status ≡ s → Core (finished r hand archive)
    by_status s e' = ground (arith, v.status, v.owner_first)

pub finish_hand-IsValid :
    (r : Room) (hand : Text) (expected : ℕ) (archive : List Bool) (t : Room × List Event)
    → IsValid r
    → HasNext r
    → finish_hand r hand expected archive ≡ ok t
    → IsValid t.0
finish_hand-IsValid r hand expected archive t v n h =
    let (now, a, e, eq) = finish_hand-eq-ok r hand expected archive t h in
    rw eq (recalculate-IsValid _ _ (finished-Core r hand archive v a e) n)

pub new_room-IsValid :
    (id owner : Text) (t : Room × List Event) → new_room id owner ≡ ok t → IsValid t.0
unfolding new_room record_event validate_identifier occupied_count all_ready
new_room-IsValid id owner t h = ground (arith, is_identifier-empty)
