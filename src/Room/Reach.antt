-- ===== src/Room/Reach.antt =====
-- Rooms as sequences of commands: every reachable room is well-formed and survives its snapshot.
use awesome_zero_platform.Base.{
  ℕ, ◌+◌, ◌≡◌, ◌≢◌, inl, inr, refl, ap, Bool, true, false, List, [], ◌∷◌, Result, ok, arith, wrap64,
  Result-cases,
}
use awesome_zero_platform.Base.Text.{Text, is_empty, text_eq_iff}
use awesome_zero_platform.Base.Trio.{Trio}
use awesome_zero_platform.Domain.{check_version, Error, is_identifier-empty}
use awesome_zero_platform.Room.{
  Room, RoomSeat, RoomSnapshot, SeatSnapshot, seat_of, Event, RoomEvent, new_room, join, leave,
  set_ready, start_hand, finish_hand, record_event, recalculate_status, snapshot, is_closed,
  is_active,
}
use awesome_zero_platform.Room.Restore.{restore_room, restore_seats, restore_seat}
use awesome_zero_platform.Room.Invariant.{IsValid, restore_room-snapshot}
use awesome_zero_platform.Room.Commands.{
  HasNext, readied, join-eq-ok, leave-eq-ok, set_ready-eq-ok, start_hand-eq-ok, finish_hand-eq-ok,
  join-IsValid, leave-IsValid, set_ready-IsValid, start_hand-IsValid, finish_hand-IsValid,
  new_room-IsValid,
}

-- A command of the domain.
pub data Command : Type 0 where
  joins leaves : Text → Command
  readies : Text → Bool → Command
  starts : Text → Text → Command
  finishes : Text → List Bool → Command

unfoldable pub apply : Room → Command → ℕ → Result Error (Room × List Event)
apply r (joins actor) expected = join r actor expected
apply r (leaves actor) expected = leave r actor expected
apply r (readies actor wanted) expected = set_ready r actor wanted expected
apply r (starts actor hand) expected = start_hand r actor hand expected
apply r (finishes hand archive) expected = finish_hand r hand expected archive

-- The command is not one of the empty account.
abbrev pub IsNamed : Command → Type 0
IsNamed (joins actor) = Unit {0}
IsNamed (leaves actor) = Unit {0}
IsNamed (readies actor wanted) = actor ≢ []
IsNamed (starts actor hand) = Unit {0}
IsNamed (finishes hand archive) = Unit {0}

-- A room after its creation and accepted commands, each at some expected version.
pub data Reach : Room → Type 0 where
  created :
      (id owner : Text) {r : Room} {es : List Event} → new_room id owner ≡ ok (r, es) → Reach r
  next :
      {r s : Room} {es : List Event} (c : Command) (expected : ℕ)
      → Reach r
      → HasNext r
      → IsNamed c
      → apply r c expected ≡ ok (s, es)
      → Reach s

-- If a command is accepted by a well-formed room that has room in its version counter, and it does
-- not set the readiness of the empty account, the new room is well-formed.
pub apply-IsValid :
    (r : Room) (c : Command) (expected : ℕ) (t : Room × List Event)
    → IsValid r
    → HasNext r
    → IsNamed c
    → apply r c expected ≡ ok t
    → IsValid t.0
unfolding apply
apply-IsValid r (joins actor) expected t v n named h = join-IsValid r actor expected t v n h
apply-IsValid r (leaves actor) expected t v n named h = leave-IsValid r actor expected t v n h
apply-IsValid r (readies actor wanted) expected t v n named h =
    set_ready-IsValid r actor wanted expected t v n named h
apply-IsValid r (starts actor hand) expected t v n named h =
    start_hand-IsValid r actor hand expected t v n h
apply-IsValid r (finishes hand archive) expected t v n named h =
    finish_hand-IsValid r hand expected archive t v n h

Reach-IsValid : {r : Room} → Reach r → IsValid r
Reach-IsValid (created id owner h) = new_room-IsValid id owner _ h
Reach-IsValid (next c expected p n named h) =
    apply-IsValid _ c expected _ (Reach-IsValid p) n named h

-- Every room that is reached by accepted commands, none of which sets the readiness of the empty
-- account and all of which find room in the version counter, is restored from its snapshot as it
-- was.
pub Reach-restore : {r : Room} → Reach r → restore_room (snapshot r) ≡ ok r
Reach-restore p = restore_room-snapshot _ (Reach-IsValid p)

recalculate-keeps :
    (r : Room) → ((recalculate_status r).version ≡ r.version) × ((recalculate_status r).id ≡ r.id)
unfolding recalculate_status
recalculate-keeps r = ground arith

-- How a command ends: with `record` on a room of the same id and version.
abbrev Records : Room → ℕ → Room × List Event → Type 0
Records r expected t =
    (u : Room) × (name : RoomEvent) × (t ≡ record_event u name)
    × (expected ≡ r.version)
    × ((u.version ≡ r.version) × (u.id ≡ r.id))

apply-Records :
    (r : Room) (c : Command) (expected : ℕ) (t : Room × List Event)
    → apply r c expected ≡ ok t
    → Records r expected t
unfolding apply
apply-Records r (joins actor) expected t h =
    let (k, now, i, o, a, s, e, eq) = join-eq-ok r actor expected t h in
    (_, _, eq, now, recalculate-keeps _)
apply-Records r (leaves actor) expected t h =
    let (k, now, o, a, s, outcome) = leave-eq-ok r actor expected t h in
    elim outcome [
      | inl (owner, few, eq) ↦ (_, _, eq, now, (refl, refl))
      | inr (guest, eq) ↦ (_, _, eq, now, recalculate-keeps _)
    ]
apply-Records r (readies actor wanted) expected t h =
    let (k, now, o, a, s, eq) = set_ready-eq-ok r actor wanted expected t h in
    (_, _, eq, now, recalculate-keeps _)
apply-Records r (starts actor hand) expected t h =
    let started = start_hand-eq-ok r actor hand expected t h in
    (_, _, started.5, started.0, (refl, refl))
apply-Records r (finishes hand archive) expected t h =
    let (now, a, e, eq) = finish_hand-eq-ok r hand expected archive t h in
    (_, _, eq, now, recalculate-keeps _)

-- An accepted command was sent for the current version of the room, raises it by one, modulo 2 to
-- the 64, and returns one event of the new version and of this room.
pub apply-version :
    (r : Room) (c : Command) (expected : ℕ) (t : Room × List Event)
    → apply r c expected ≡ ok t
    → (expected ≡ r.version)
      × (t.0.version ≡ wrap64 (r.version + 1))
      × ((e : Event) × (t.1 ≡ e ∷ []) × (e.version ≡ t.0.version) × (e.aggregate_id ≡ r.id))
apply-version r c expected t h =
    let (u, name, e, current, kept) = apply-Records r c expected t h in
    rw e
      (unfold record_event in (current, ap (λ n. wrap64 (n + 1)) kept.0, (_, refl, refl, kept.1)))

restore_seats-ready_empty :
    (seats : Trio SeatSnapshot) (out : Trio RoomSeat)
    → is_empty seats.second.account_id ≡ true
    → seats.second.ready ≡ true
    → restore_seats seats ≢ ok out
unfolding restore_seats
restore_seats-ready_empty seats out e ready h =
    elim (Result-cases (restore_seat [] 1 seats.first)) [
      | inr (x, refused) ↦ cc (rw refused at h)
      | inl (first, read) ↦ absurd (unfold restore_seat in ground (arith, rw read at h))
    ]

restore_room-seats :
    (s : RoomSnapshot) (r : Room) → restore_room s ≡ ok r → restore_seats s.seats ≡ ok r.seats
unfolding restore_room
restore_room-seats s r h = ground arith

recalculate-seats : (r : Room) → (recalculate_status r).seats ≡ r.seats
unfolding recalculate_status
recalculate-seats r = ground arith

-- In a well-formed room that is neither closed nor in a hand and whose second seat is empty, the
-- command that sets the empty account ready is accepted, and the new room is not restored from its
-- snapshot.
pub set_ready_empty_seat :
    (r : Room)
    → IsValid r
    → is_closed r.status ≡ false
    → is_active r.status ≡ false
    → r.seats.second.account_id ≡ []
    → (t : Room × List Event) × (set_ready r [] true r.version ≡ ok t)
      × ((u : Room) → restore_room (snapshot t.0) ≢ ok u)
set_ready_empty_seat r v o a e = (
  record_event (recalculate_status (readied r 2 true)) (RoomEvent.room_ready_changed [] 2 true),
  (unfold set_ready check_version seat_of in
      ground (
        arith,
        v.owner_first o,
        v.second.1 e,
        is_identifier-empty,
        text_eq_iff r.seats.first.account_id [],
        text_eq_iff r.seats.second.account_id [],
      )),
  λ u h.
      let kept = recalculate-seats (readied r 2 true) in
      restore_seats-ready_empty
        (snapshot
          (record_event (recalculate_status (readied r 2 true))
            (RoomEvent.room_ready_changed [] 2 true)).0).seats
        u.seats (unfold snapshot record_event in rw kept (rw e))
        (unfold snapshot record_event in rw kept) (restore_room-seats _ u h),
)
