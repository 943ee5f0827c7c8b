-- ===== src/Playing.antt =====
-- server/business/doudizhu/domain/playing/state.go: the turns of one hand, from the landlord's first
-- play to an empty hand.
pub mod Invariant
pub mod Laws
use awesome_zero_platform.Base.{
  ℕ, zero, suc, ◌+◌, ◌%◌, Bool, true, false, not, ◌&&◌, ◌||◌, List, [], ◌∷◌, ◌++◌, Option, none,
  some, Result, ok, err, ◌>>=◌, ◌>>◌, reject, ltb, leb, ◌==◌, if◌then◌else◌, wrap64,
}
use awesome_zero_platform.Base.Text.{Text, codes}
use awesome_zero_platform.Pattern
use awesome_zero_platform.Pattern.{Pattern, can_beat}
use awesome_zero_platform.Pattern.Analyze.{analyze}

pub data Error : Type 0 where
  invalid_seat wrong_turn cannot_pass does_not_beat playing_complete : Error
  of_pattern : Pattern.Error → Error

abbrev pub state_version : Text
state_version = codes "doudizhu-playing-state-v1"

-- `other` stands for every string that is neither of the constants.
pub data ActionType : Type 0 where
  play_action pass_action other : ActionType

pub record Action : Type 0 where
  pub number : ℕ
  pub type : ActionType
  pub seat : ℕ
  pub cards : List ℕ
  pub pattern : Option Pattern

pub record Snapshot : Type 0 where
  pub version : Text
  pub revision : ℕ
  pub current_seat : ℕ
  pub leading_seat : ℕ
  pub leading_cards : List ℕ
  pub leading_pattern : Option Pattern
  pub pass_count : ℕ
  pub complete : Bool
  pub winner_seat : ℕ
  pub history : List Action

pub record State : Type 0 where
  pub revision : ℕ
  pub current_seat : ℕ
  pub leading_seat : ℕ
  pub leading_cards : List ℕ
  pub leading_pattern : Option Pattern
  pub pass_count : ℕ
  pub complete : Bool
  pub winner_seat : ℕ
  pub history : List Action

abbrev pub valid_seat : ℕ → Bool
valid_seat seat = leb 1 seat && leb seat 3

abbrev pub next_seat : ℕ → ℕ
next_seat seat = seat % 3 + 1

unfoldable pub new_state : ℕ → Result Error State
new_state first =
    if not (valid_seat first)
    then err invalid_seat
    else ok (record {
      revision = 0;
      current_seat = first;
      leading_seat = 0;
      leading_cards = [];
      leading_pattern = none;
      pass_count = 0;
      complete = false;
      winner_seat = 0;
      history = [];
    })

-- `Snapshot` copies every field; `Clone` copies the state, which here is the state itself.
unfoldable pub snapshot : State → Snapshot
snapshot s = record {
  version = state_version;
  revision = s.revision;
  current_seat = s.current_seat;
  leading_seat = s.leading_seat;
  leading_cards = s.leading_cards;
  leading_pattern = s.leading_pattern;
  pass_count = s.pass_count;
  complete = s.complete;
  winner_seat = s.winner_seat;
  history = s.history;
}

unfoldable pub validate_actor : State → ℕ → Result Error (Unit {0})
validate_actor s seat = do
  reject (not (valid_seat seat)) invalid_seat
  reject s.complete playing_complete
  reject (not (seat == s.current_seat)) wrong_turn

-- An error of the pattern rules, as the caller returns it.
abbrev pub from_pattern : {A : Type 0} → Result Pattern.Error A → Result Error A
from_pattern (ok a) = ok a
from_pattern (err e) = err (of_pattern e)

-- The comparison with the leading play, if there is one.
unfoldable pub check_beats : Pattern → Option Pattern → Result Error (Unit {0})
check_beats candidate none = ok tt
check_beats candidate (some leading) = do
  beats ← from_pattern (can_beat candidate leading)
  reject (not beats) does_not_beat

-- The writes of `Play`.
unfoldable pub write_play : State → ℕ → List ℕ → Pattern → Bool → State
write_play s seat cards candidate hand_empty =
    let revision = wrap64 (s.revision + 1) in
    record s {
      revision = revision;
      history =
          s.history
          ++ record {
            number = revision;
            type = play_action;
            seat = seat;
            cards = cards;
            pattern = some candidate;
          }
            ∷ [];
      leading_seat = seat;
      leading_cards = cards;
      leading_pattern = some candidate;
      pass_count = 0;
      complete = if hand_empty then true else s.complete;
      winner_seat = if hand_empty then seat else s.winner_seat;
      current_seat = if hand_empty then 0 else next_seat seat;
    }

-- `Play`.
unfoldable pub play : State → ℕ → List ℕ → Bool → Result Error State
play s seat cards hand_empty = do
  validate_actor s seat
  candidate ← from_pattern (analyze cards)
  check_beats candidate s.leading_pattern
  ok (write_play s seat cards candidate hand_empty)

abbrev no_pattern : Option Pattern → Bool
no_pattern none = true
no_pattern (some p) = false

-- The writes of `Pass`. The second pass in a row gives the lead back.
unfoldable pub write_pass : State → ℕ → State
write_pass s seat =
    let revision = wrap64 (s.revision + 1) in
    let counted = record s {
      revision = revision;
      history =
          s.history
          ++ record {
            number = revision;
            type = pass_action;
            seat = seat;
            cards = [];
            pattern = none;
          }
            ∷ [];
      pass_count = (s.pass_count + 1) % 256;
    } in
    if counted.pass_count == 2
    then record counted {
      current_seat = s.leading_seat;
      leading_seat = 0;
      leading_cards = [];
      leading_pattern = none;
      pass_count = 0;
    }
    else record counted { current_seat = next_seat seat }

-- `Pass`.
unfoldable pub pass : State → ℕ → Result Error State
pass s seat = do
  validate_actor s seat
  reject (no_pattern s.leading_pattern || s.leading_seat == 0) cannot_pass
  ok (write_pass s seat)
