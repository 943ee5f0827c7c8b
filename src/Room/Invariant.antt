-- ===== src/Room/Invariant.antt =====
-- A well-formed room: every command of a known account keeps it, and exactly then it is read back from
-- its snapshot.
use awesome_zero_platform.Base.{
  ℕ, ◌<◌, ◌≡◌, ◌≢◌, ◌⊎◌, refl, true, false, not, ◌&&◌, List, [], ◌∷◌, ok, ◌==◌, arith,
}
use awesome_zero_platform.Base.Text.{Text, text_eq, is_empty, text_eq_iff}
use awesome_zero_platform.Domain.{is_identifier, is_identifier-empty, validate_identifier}
use awesome_zero_platform.Room.{
  RoomStatus, waiting_players, ready, hand_active_status, closed, unknown, is_closed, Room,
  RoomSeat, occupied_count, all_ready, snapshot_seat, snapshot,
}
use awesome_zero_platform.Room.Restore.{
  restore_room, restore_seat, is_seen, with_seen, valid_status, validate_optional, restore_seats,
  validate_state,
}

abbrev pub OptionalId : Text → Type 0
OptionalId value = (value ≡ []) ⊎ (is_identifier value ≡ true)

abbrev pub SeatFits : RoomSeat → Type 0
SeatFits s = OptionalId s.account_id × (s.account_id ≡ [] → s.ready ≡ false)

abbrev pub Apart : RoomSeat → RoomSeat → Type 0
Apart s t = (s.account_id ≡ []) ⊎ (s.account_id ≢ t.account_id)

abbrev pub StatusFits : RoomStatus → Room → Type 0
StatusFits hand_active_status r =
    (is_identifier r.active_hand_id ≡ true) × (occupied_count r.seats ≡ 3)
StatusFits ready r =
    (r.active_hand_id ≡ []) × (occupied_count r.seats ≡ 3) × (all_ready r.seats ≡ true)
StatusFits waiting_players r =
    (r.active_hand_id ≡ []) × ((occupied_count r.seats == 3 && all_ready r.seats) ≡ false)
StatusFits closed r = (r.active_hand_id ≡ []) × (occupied_count r.seats ≡ 0)
StatusFits unknown r = ⊥

pub record IsValid (r : Room) : Type 0 where
  pub id : is_identifier r.id ≡ true
  pub owner_id : is_identifier r.owner_id ≡ true
  pub version : 0 < r.version
  pub last_hand : OptionalId r.last_hand_id
  pub first : SeatFits r.seats.first
  pub second : SeatFits r.seats.second
  pub third : SeatFits r.seats.third
  pub apart12 : Apart r.seats.first r.seats.second
  pub apart13 : Apart r.seats.first r.seats.third
  pub apart23 : Apart r.seats.second r.seats.third
  pub owner_first : is_closed r.status ≡ false → r.seats.first.account_id ≡ r.owner_id
  pub status : StatusFits r.status r

validate_identifier-ok : (v : Text) → is_identifier v ≡ true → validate_identifier v ≡ ok tt
unfolding validate_identifier
validate_identifier-ok v h = ground arith

identifier-nonempty : (v : Text) → is_identifier v ≡ true → is_empty v ≡ false
identifier-nonempty [] h = cc is_identifier-empty
identifier-nonempty (b ∷ v) h = refl

validate_optional-ok : (v : Text) → OptionalId v → validate_optional v ≡ ok tt
validate_optional-ok v h = ground (arith, validate_identifier-ok v)

restore_seat-fits :
    (seen : List Text) (k : ℕ) (s : RoomSeat)
    → SeatFits s
    → (s.account_id ≢ [] → is_seen seen s.account_id ≡ false)
    → restore_seat seen k (snapshot_seat k s) ≡ ok s
unfolding restore_seat
restore_seat-fits seen k s f n = ground (arith, validate_identifier-ok s.account_id)

is_seen-one :
    (s t : RoomSeat)
    → Apart s t
    → t.account_id ≢ []
    → is_seen (with_seen [] s.account_id) t.account_id ≡ false
unfolding is_seen
is_seen-one s t a n = ground (arith, text_eq_iff s.account_id t.account_id)

is_seen-two :
    (s t u : RoomSeat)
    → Apart s u
    → Apart t u
    → u.account_id ≢ []
    → is_seen (with_seen (with_seen [] s.account_id) t.account_id) u.account_id ≡ false
unfolding is_seen
is_seen-two s t u a b n =
    ground (arith, text_eq_iff s.account_id u.account_id, text_eq_iff t.account_id u.account_id)

restore_seats-valid : (r : Room) → IsValid r → restore_seats (snapshot r).seats ≡ ok r.seats
unfolding restore_seats snapshot
restore_seats-valid r v = rw (
  restore_seat-fits [] 1 r.seats.first v.first (unfold is_seen in λ n. refl),
  restore_seat-fits (with_seen [] r.seats.first.account_id) 2 r.seats.second v.second
      (is_seen-one r.seats.first r.seats.second v.apart12),
  restore_seat-fits (with_seen (with_seen [] r.seats.first.account_id) r.seats.second.account_id) 3
      r.seats.third v.third
      (is_seen-two r.seats.first r.seats.second r.seats.third v.apart13 v.apart23),
)

validate_state-valid : (s : RoomStatus) (r : Room) → StatusFits s r → validate_state s r ≡ ok tt
unfolding validate_state
validate_state-valid hand_active_status r f =
    rw (identifier-nonempty r.active_hand_id f.0, f.1) (validate_identifier-ok r.active_hand_id f.0)
validate_state-valid ready r f = ground arith
validate_state-valid waiting_players r f = ground arith
validate_state-valid closed r f = ground arith
validate_state-valid unknown r f = absurd f

status-known : (s : RoomStatus) (r : Room) → StatusFits s r → valid_status s ≡ true
status-known unknown r f = absurd f
status-known waiting_players r f = refl
status-known _ r f = refl

owner-check :
    (r : Room)
    → IsValid r
    → (not (is_closed r.status) && not (text_eq r.seats.first.account_id r.owner_id)) ≡ false
owner-check r v = ground (arith, v.owner_first, text_eq_iff r.seats.first.account_id r.owner_id)

-- A well-formed room is restored from its snapshot as it was.
pub restore_room-snapshot : (r : Room) → IsValid r → restore_room (snapshot r) ≡ ok r
unfolding restore_room snapshot
restore_room-snapshot r v =
    let numbered : (r.version == 0) ≡ false = ground (arith, v.version) in
    rw (
      validate_identifier-ok r.id v.id,
      validate_identifier-ok r.owner_id v.owner_id,
      numbered,
      validate_optional-ok r.last_hand_id v.last_hand,
      status-known r.status r v.status,
      restore_seats-valid r v,
      owner-check r v,
      validate_state-valid r.status r v.status,
    )
