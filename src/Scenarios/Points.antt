-- ===== src/Scenarios/Points.antt =====
-- A settlement of server/business/doudizhu/domain/settlement/settlement.go.
use awesome_zero_platform.Base.{
  ◌+◌, ◌*◌, ◌^◌, ◌≤◌, ◌≡◌, refl, true, false, List, [], ◌∷◌, none, some, ok, arith,
}
use awesome_zero_platform.Base.Text.{text_eq}
use awesome_zero_platform.Base.Trio.{at_seat}
use awesome_zero_platform.Base.Int.{pos, neg}
use awesome_zero_platform.Carddeck.{rank}
use awesome_zero_platform.Pattern.{single, bomb, rocket, make_pattern, kind_id}
use awesome_zero_platform.Pattern.Counts.{rank_counts}
use awesome_zero_platform.Pattern.Analyze.{analyze, classify}
use awesome_zero_platform.Playing.{Action, play_action, pass_action, state_version}
use awesome_zero_platform.Settlement
use awesome_zero_platform.Settlement.{
  Input, Points, Tally, validate_input, pattern_eq, mark_cards, count_play, tally_play, tally_type,
  tally_action, tally_from, no_tally, is_spring, is_anti_spring, exponent_of, result_of,
  calculate_from, calculate,
}
use awesome_zero_platform.Settlement.Counts.{plays_of_kind}
use awesome_zero_platform.Settlement.Laws.{
  calculate-fair, calculate-shares, calculate_from_total, total, spring_bonus,
}

-- The landlord on seat 2 plays a bomb and then the last card, while the farmers pass.
abbrev history : List Action
history =
    record {
      number = 1;
      type = play_action;
      seat = 2;
      cards = 0 ∷ 1 ∷ 2 ∷ 3 ∷ [];
      pattern = some (make_pattern bomb 0 1 4);
    }
    ∷ record { number = 2; type = pass_action; seat = 3; cards = []; pattern = none }
    ∷ record { number = 3; type = pass_action; seat = 1; cards = []; pattern = none }
    ∷ record {
      number = 4;
      type = play_action;
      seat = 2;
      cards = 53 ∷ [];
      pattern = some (make_pattern single 14 1 1);
    }
    ∷ []

abbrev input : Input
input = record {
  landlord_seat = 2;
  winning_score = 3;
  playing = record {
    version = state_version;
    revision = 4;
    current_seat = 0;
    leading_seat = 2;
    leading_cards = 53 ∷ [];
    leading_pattern = some (make_pattern single 14 1 1);
    pass_count = 0;
    complete = true;
    winner_seat = 2;
    history = history;
  };
}

abbrev settled : Points
settled = record {
  version = Settlement.rules_version;
  landlord_seat = 2;
  winner_seat = 2;
  landlord_won = true;
  base_score = 3;
  bomb_count = 1;
  rocket_count = 0;
  spring = true;
  anti_spring = false;
  multiplier = 4;
  final_stake = 12;
  seat_points = record { first = neg 12; second = pos 24; third = neg 12 };
}

settled_ok : calculate input ≡ ok settled
unfolding calculate calculate_from result_of exponent_of is_spring is_anti_spring tally_from
    tally_action tally_type tally_play count_play mark_cards pattern_eq validate_input no_tally
    text_eq kind_id analyze classify rank_counts rank
settled_ok = refl

calculate-fair_example :
    (settled.multiplier
      ≡ 2 ^ (plays_of_kind bomb history + plays_of_kind rocket history + spring_bonus input))
    × (settled.final_stake ≡ 3 * settled.multiplier)
    × (settled.final_stake ≤ 98304)
    × (total settled.seat_points ≡ pos 0)
calculate-fair_example = calculate-fair input settled settled_ok

calculate-shares_example : at_seat settled.seat_points 2 ≡ pos (2 * settled.final_stake)
calculate-shares_example = calculate-shares input settled 2 settled_ok (omega arith) (omega arith)

abbrev tally : Tally
tally = record {
  plays = record { first = 0; second = 2; third = 0 };
  bombs = 1;
  rockets = 0;
  seen = [];
}

calculate_from_total_example :
    (calculate_from input tally
      ≡ ok (result_of input tally (2 ^ exponent_of input tally) (3 * 2 ^ exponent_of input tally)))
    × (3 * 2 ^ exponent_of input tally ≤ 98304)
calculate_from_total_example =
    calculate_from_total input tally (omega arith) (omega arith) (omega arith)
