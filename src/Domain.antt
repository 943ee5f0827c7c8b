-- ===== src/Domain.antt =====
-- server/business/doudizhu/domain: errors.go, ids.go, event.go and the encoding of fairness.go, which
-- the room and the hand share.
use awesome_zero_platform.Base.{
  ℕ, ◌≡◌, refl, Bool, true, false, not, ◌&&◌, [], Result, reject, leb, ◌==◌, length,
}
use awesome_zero_platform.Base.Text.{Text, codes, is_empty, trim_space}

-- The sentinel errors; `version_conflict` holds the expected and the actual version.
pub data Error : Type 0 where
  invalid_argument : Error
  version_conflict : ℕ → ℕ → Error
  no_state_change forbidden room_closed room_full already_seated not_seated : Error
  owner_must_remain hand_active hand_not_active room_not_ready wrong_phase : Error
  duplicate_contribution commitment_mismatch beacon_mismatch hand_terminal : Error

-- `checkExpectedVersion`.
unfoldable pub check_version : ℕ → ℕ → Result Error (Unit {0})
check_version actual expected = reject (not (actual == expected)) (version_conflict expected actual)

-- The test of `validateIdentifier`: not blank, and at most 128 bytes without its white space.
unfoldable pub is_identifier : Text → Bool
is_identifier value = not (is_empty (trim_space value)) && leb (length (trim_space value)) 128

-- `validateIdentifier`.
unfoldable pub validate_identifier : Text → Result Error (Unit {0})
validate_identifier value = reject (not (is_identifier value)) invalid_argument

-- `Seat.Valid`.
abbrev pub seat_valid : ℕ → Bool
seat_valid s = leb 1 s && leb s 3

-- The empty text is no identifier.
pub is_identifier-empty : is_identifier [] ≡ false
unfolding is_identifier trim_space
is_identifier-empty = refl

-- A test: an identifier with white space around it.
is_identifier-test : is_identifier (codes " table-1 ") ≡ true
unfolding is_identifier trim_space
is_identifier-test = refl
