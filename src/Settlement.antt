-- ===== src/Settlement.antt =====
-- server/business/doudizhu/domain/settlement/settlement.go: the points of a completed hand.
pub mod Counts
pub mod Laws
pub mod Played
pub mod Total
use awesome_zero_platform.Base.{
  ℕ, zero, suc, ◌+◌, ◌-◌, ◌*◌, ◌/◌, ◌%◌, ◌^◌, Bool, true, false, not, ◌&&◌, ◌||◌, List, [], ◌∷◌,
  ◌++◌, Option, none, some, Result, ok, err, ◌>>=◌, ◌>>◌, reject, ltb, leb, ◌==◌, if◌then◌else◌,
  length, get_or, set, replicate, wrap64,
}
use awesome_zero_platform.Base.Int.{ℤ, pos, neg}
use awesome_zero_platform.Base.Text.{Text, codes, text_eq, is_empty}
use awesome_zero_platform.Base.Trio.{Trio, all_seats, at_seat, set_seat}
use awesome_zero_platform.Carddeck.{deck_size}
use awesome_zero_platform.Bidding.{score_one, score_three}
use awesome_zero_platform.Pattern.{Pattern, kind_id, bomb, rocket}
use awesome_zero_platform.Pattern.Analyze.{analyze}
use awesome_zero_platform.Playing.{
  Action, ActionType, play_action, pass_action, other, Snapshot, state_version,
}

pub data Error : Type 0 where
  invalid_input : Error

abbrev pub rules_version : Text
rules_version = codes "doudizhu-settlement-v1"

abbrev pub max_bombs : ℕ
max_bombs = 13

abbrev pub max_rockets : ℕ
max_rockets = 1

abbrev pub max_multiplier_exponent : ℕ
max_multiplier_exponent = max_bombs + max_rockets + 1

abbrev pub max_uint64 : ℕ
max_uint64 = 18446744073709551615

abbrev pub max_int64 : ℕ
max_int64 = 9223372036854775807

pub record Input : Type 0 where
  pub landlord_seat : ℕ
  pub winning_score : ℕ
  pub playing : Snapshot

pub record Points : Type 0 where
  pub version : Text
  pub landlord_seat : ℕ
  pub winner_seat : ℕ
  pub landlord_won : Bool
  pub base_score : ℕ
  pub bomb_count : ℕ
  pub rocket_count : ℕ
  pub spring : Bool
  pub anti_spring : Bool
  pub multiplier : ℕ
  pub final_stake : ℕ
  pub seat_points : Trio ℤ

abbrev is_play : ActionType → Bool
is_play play_action = true
is_play pass_action = false
is_play other = false

-- `input.Playing.History[len-1]`.
abbrev last_action : Action → List Action → Action
last_action a [] = a
last_action a (b ∷ rest) = last_action b rest

abbrev no_history : List Action → Bool
no_history [] = true
no_history (a ∷ rest) = false

-- The check of the final action. The empty history has been refused before.
last_wins : List Action → ℕ → Bool
last_wins [] winner = false
last_wins (a ∷ rest) winner =
    is_play (last_action a rest).type && (last_action a rest).seat == winner

abbrev seat_out : ℕ → Bool
seat_out seat = ltb seat 1 || ltb 3 seat

-- `validateInput`.
unfoldable pub validate_input : Input → Result Error (Unit {0})
unfolding last_wins
validate_input input = do
  reject (seat_out input.landlord_seat) invalid_input
  reject (ltb input.winning_score score_one || ltb score_three input.winning_score) invalid_input
  reject
      (not (text_eq input.playing.version state_version)
        || not input.playing.complete
        || seat_out input.playing.winner_seat
        || not (input.playing.current_seat == 0))
      invalid_input
  reject
      (no_history input.playing.history
        || not (input.playing.revision == wrap64 (length input.playing.history)))
      invalid_input
  reject (not (last_wins input.playing.history input.playing.winner_seat)) invalid_input

-- `analyzed != *action.Pattern`, negated.
unfoldable pub pattern_eq : Pattern → Pattern → Bool
unfolding kind_id
pattern_eq p q =
    text_eq p.version q.version
    && kind_id p.kind == kind_id q.kind
    && p.main_rank == q.main_rank
    && p.sequence_length == q.sequence_length
    && p.card_count == q.card_count

-- The loop over the cards of one action.
unfoldable pub mark_cards : List Bool → List ℕ → Result Error (List Bool)
mark_cards seen [] = ok seen
mark_cards seen (c ∷ rest) =
    let later = mark_cards (set seen c true) rest in
    do reject (get_or seen c false) invalid_input; later

-- The variables of the loop over the history.
pub record Tally : Type 0 where
  pub plays : Trio ℕ
  pub bombs : ℕ
  pub rockets : ℕ
  pub seen : List Bool

-- `plays[action.Seat-1]++` and the count of bombs and rockets.
unfoldable pub count_play : Action → Pattern → List Bool → Tally → Tally
unfolding kind_id
count_play a p seen t = record {
  plays = set_seat t.plays a.seat (at_seat t.plays a.seat + 1);
  bombs = if kind_id p.kind == kind_id bomb then t.bombs + 1 else t.bombs;
  rockets = if kind_id p.kind == kind_id rocket then t.rockets + 1 else t.rockets;
  seen = seen;
}

-- The `ActionPlay` case.
unfoldable pub tally_play : Action → Option Pattern → Tally → Result Error Tally
unfolding mark_cards
tally_play a none t = err invalid_input
tally_play a (some p) t = do
  reject (is_empty a.cards) invalid_input
  elim (analyze a.cards) [
    | err e ↦ err invalid_input
    | ok q ↦ do
      reject (not (pattern_eq q p)) invalid_input
      seen ← mark_cards t.seen a.cards
      ok (count_play a p seen t)
  ]

abbrev has_pattern : Option Pattern → Bool
has_pattern none = false
has_pattern (some p) = true

-- The `switch` on the type of an action.
unfoldable pub tally_type : ActionType → Action → Tally → Result Error Tally
tally_type play_action a t = tally_play a a.pattern t
tally_type pass_action a t =
    reject (not (is_empty a.cards) || has_pattern a.pattern) invalid_input >> ok t
tally_type other a t = err invalid_input

-- One round of the loop over the history, at the given index.
unfoldable pub tally_action : ℕ → Action → Tally → Result Error Tally
tally_action index a t = do
  reject (not (a.number == wrap64 (index + 1)) || seat_out a.seat) invalid_input
  tally_type a.type a t

unfoldable pub tally_from : ℕ → List Action → Tally → Result Error Tally
tally_from index [] t = ok t
tally_from index (a ∷ rest) t = tally_action index a t >>= tally_from (suc index) rest

unfoldable pub no_tally : Tally
no_tally = record { plays = all_seats 0; bombs = 0; rockets = 0; seen = replicate deck_size false }

-- The loop that sums the plays of the farmers.
abbrev pub farmers_played : Trio ℕ → ℕ → ℕ
farmers_played plays landlord =
    (if not (1 == landlord) then plays.first else 0)
    + (if not (2 == landlord) then plays.second else 0)
    + (if not (3 == landlord) then plays.third else 0)

-- Both branches of the split of the stake: the landlord's seat first, then the loop over the others.
abbrev pub split_stake : ℕ → ℤ → ℤ → Trio ℤ
split_stake landlord landlord_points farmer_points = record {
  first = if 1 == landlord then landlord_points else farmer_points;
  second = if 2 == landlord then landlord_points else farmer_points;
  third = if 3 == landlord then landlord_points else farmer_points;
}

unfoldable pub is_spring : Input → Tally → Bool
is_spring input t =
    input.playing.winner_seat == input.landlord_seat
    && farmers_played t.plays input.landlord_seat == 0

unfoldable pub is_anti_spring : Input → Tally → Bool
is_anti_spring input t =
    not (input.playing.winner_seat == input.landlord_seat)
    && at_seat t.plays input.landlord_seat == 1

unfoldable pub exponent_of : Input → Tally → ℕ
exponent_of input t =
    t.bombs + t.rockets + (if is_spring input t || is_anti_spring input t then 1 else 0)

-- The result, for a landlord who won or lost, a multiplier and a stake.
unfoldable pub result_of : Input → Tally → ℕ → ℕ → Points
result_of input t multiplier stake =
    let won = input.playing.winner_seat == input.landlord_seat in
    record {
      version = rules_version;
      landlord_seat = input.landlord_seat;
      winner_seat = input.playing.winner_seat;
      landlord_won = won;
      base_score = input.winning_score;
      bomb_count = t.bombs % 256;
      rocket_count = t.rockets % 256;
      spring = is_spring input t;
      anti_spring = is_anti_spring input t;
      multiplier = multiplier;
      final_stake = stake;
      seat_points =
          if won
          then split_stake input.landlord_seat (pos (2 * stake)) (neg stake)
          else split_stake input.landlord_seat (neg (2 * stake)) (pos stake);
    }

-- `Calculate` after the loop.
unfoldable pub calculate_from : Input → Tally → Result Error Points
calculate_from input t =
    let exponent = exponent_of input t in
    let multiplier = 2 ^ exponent in
    let stake = input.winning_score * multiplier in
    do
      reject (ltb max_bombs t.bombs || ltb max_rockets t.rockets) invalid_input
      reject (ltb max_multiplier_exponent exponent) invalid_input
      reject (ltb (max_uint64 / multiplier) input.winning_score) invalid_input
      reject (ltb (max_int64 / 2) stake) invalid_input
      ok (result_of input t multiplier stake)

-- `Calculate`.
unfoldable pub calculate : Input → Result Error Points
calculate input = do
  validate_input input
  t ← tally_from 0 input.playing.history no_tally
  calculate_from input t
