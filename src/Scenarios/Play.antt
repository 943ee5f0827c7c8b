-- ===== src/Scenarios/Play.antt =====
-- Plays of server/business/doudizhu/domain/playing.
use awesome_zero_platform.Base.{
  ℕ, ◌≤◌, ◌≡◌, ◌≢◌, ◌⊎◌, ◌↔◌, refl, true, false, List, [], ◌∷◌, none, some, ok, err, arith, length,
}
use awesome_zero_platform.Pattern.{
  Pattern, single, pair, bomb, rocket, make_pattern, kind_id, invalid_pattern,
  invalid_pattern_value, pattern_valid, can_beat, beats, valid_structure, valid_pattern_structure,
}
use awesome_zero_platform.Pattern
use awesome_zero_platform.Base.Text.{text_eq}
use awesome_zero_platform.Carddeck.{rank}
use awesome_zero_platform.Pattern.Counts.{rank_counts}
use awesome_zero_platform.Pattern.Analyze.{analyze, classify}
use awesome_zero_platform.Pattern.Valid.{analyze-valid, analyze-error}
use awesome_zero_platform.Pattern.Order.{can_beat_trans}
use awesome_zero_platform.Playing.{
  State, new_state, play, pass, validate_actor, check_beats, write_play, write_pass,
}
use awesome_zero_platform.Playing.Invariant.{Inv, new_state-Inv, play-Inv, pass-Inv}
use awesome_zero_platform.Playing.Laws.{pass_iff, turn_progress}

abbrev start : State
start = record {
  revision = 0;
  current_seat = 1;
  leading_seat = 0;
  leading_cards = [];
  leading_pattern = none;
  pass_count = 0;
  complete = false;
  winner_seat = 0;
  history = [];
}

abbrev three : Pattern
three = make_pattern single 0 1 1

abbrev led : State
led = write_play start 1 (0 ∷ []) three false

start_ok : new_state 1 ≡ ok start
unfolding new_state
start_ok = refl

three_ok : analyze (0 ∷ []) ≡ ok three
unfolding analyze classify rank_counts rank
three_ok = refl

abbrev one_three : List ℕ
one_three = 0 ∷ []

analyze-valid_example :
    (pattern_valid three ≡ true)
    × (three.card_count ≡ length one_three)
    × (1 ≤ length one_three)
    × (length one_three ≤ 20)
analyze-valid_example = analyze-valid one_three three three_ok

twice_refused : analyze (7 ∷ 7 ∷ []) ≡ err invalid_pattern
unfolding analyze classify rank_counts rank
twice_refused = refl

analyze-error_example : Path Pattern.Error invalid_pattern invalid_pattern
analyze-error_example = analyze-error (7 ∷ 7 ∷ []) invalid_pattern twice_refused

abbrev one_card : ℕ → Pattern
one_card r = make_pattern single r 1 1

valid_four : pattern_valid (one_card 1) ≡ true
unfolding pattern_valid valid_pattern_structure valid_structure kind_id text_eq
valid_four = refl

four_beats_three : can_beat (one_card 1) (one_card 0) ≡ ok true
unfolding can_beat beats pattern_valid valid_pattern_structure valid_structure kind_id text_eq
four_beats_three = refl

five_beats_four : can_beat (one_card 2) (one_card 1) ≡ ok true
unfolding can_beat beats pattern_valid valid_pattern_structure valid_structure kind_id text_eq
five_beats_four = refl

can_beat_trans_example : can_beat (one_card 2) (one_card 0) ≡ ok true
can_beat_trans_example =
    can_beat_trans (one_card 2) (one_card 1) (one_card 0) five_beats_four four_beats_three

start_Inv : Inv start
start_Inv = new_state-Inv 1 start start_ok

led_ok : play start 1 (0 ∷ []) false ≡ ok led
unfolding play validate_actor check_beats analyze classify rank_counts rank
led_ok = refl

play-Inv_example : Inv led
play-Inv_example = play-Inv start led 1 (0 ∷ []) false start_Inv led_ok

led_Inv : Inv led
led_Inv = play-Inv start led 1 (0 ∷ []) false start_Inv led_ok

abbrev passed : State
passed = write_pass led 2

abbrev passed_twice : State
passed_twice = write_pass passed 3

passed_ok : pass led 2 ≡ ok passed
unfolding pass validate_actor write_play
passed_ok = refl

passed_twice_ok : pass passed 3 ≡ ok passed_twice
unfolding pass validate_actor write_play write_pass
passed_twice_ok = refl

pass-Inv_example : Inv passed
pass-Inv_example = pass-Inv led passed 2 led_Inv passed_ok

pass_iff_example :
    ((t : State) × (pass led 2 ≡ ok t))
    ↔ ((led.complete ≡ false) × (2 ≡ led.current_seat) × (led.leading_pattern ≢ none))
pass_iff_example = pass_iff led 2 led_Inv

led_leads :
    (led.leading_pattern ≡ some three)
    × (led.pass_count ≡ 0)
    × (led.leading_seat ≡ 1)
    × (led.complete ≡ false)
unfolding write_play
led_leads = (refl, refl, refl, refl)

turn_progress_example :
    ((t : State) × (pass led led.current_seat ≡ ok t))
    ⊎ ((t : State) × (play led led.current_seat (5 ∷ []) false ≡ ok t))
turn_progress_example = turn_progress led 5 false led_Inv led_leads.3 (omega arith)
