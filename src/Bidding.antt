-- ===== src/Bidding.antt =====
-- server/business/doudizhu/domain/bidding/bidding.go: the score auction of one hand.
pub mod Invariant
pub mod Outcome
pub mod First
use awesome_zero_platform.Base.{
  ℕ, suc, ◌+◌, ◌%◌, Bool, true, false, not, ◌&&◌, ◌||◌, List, [], ◌∷◌, Result, ok, err, ◌>>=◌, ◌>>◌,
  reject, ltb, leb, ◌==◌, if◌then◌else◌, length, take, set, replicate,
}
use awesome_zero_platform.Base.Text.{Text, codes}

-- The package's sentinel errors; `index_out_of_range` is Go's panic.
pub data Error : Type 0 where
  invalid_deal_digest invalid_position invalid_score wrong_turn bid_not_higher : Error
  bidding_complete index_out_of_range : Error

-- `Score`: ScorePass is 0, ScoreThree is 3.
abbrev pub score_pass : ℕ
score_pass = 0

abbrev pub score_one : ℕ
score_one = 1

abbrev pub score_three : ℕ
score_three = 3

abbrev pub score_valid : ℕ → Bool
score_valid s = leb s score_three

pub record Action : Type 0 where
  pub position : ℕ
  pub score : ℕ

abbrev pub rules_version : Text
rules_version = codes "doudizhu-score-bidding-v1"

pub record Snapshot : Type 0 where
  pub version : Text
  pub first_bidder : ℕ
  pub current_bidder : ℕ
  pub highest_score : ℕ
  pub highest_bidder : ℕ
  pub actions : List Action
  pub complete : Bool
  pub no_landlord : Bool
  pub landlord : ℕ

pub record State : Type 0 where
  pub first_bidder : ℕ
  pub current_bidder : ℕ
  pub highest_score : ℕ
  pub highest_bidder : ℕ
  pub actions : List Action
  pub action_count : ℕ
  pub complete : Bool
  pub no_landlord : Bool
  pub landlord : ℕ

-- `newState`: Go's zero values for the rest, three zero actions among them.
unfoldable pub new_state : ℕ → State
new_state first = record {
  first_bidder = first;
  current_bidder = first;
  highest_score = score_pass;
  highest_bidder = 0;
  actions = replicate 3 (record { position = 0; score = 0 });
  action_count = 0;
  complete = false;
  no_landlord = false;
  landlord = 0;
}

abbrev pub next_position : ℕ → ℕ
next_position position = position % 3 + 1

unfoldable pub snapshot : State → Snapshot
snapshot s = record {
  version = rules_version;
  first_bidder = s.first_bidder;
  current_bidder = s.current_bidder;
  highest_score = s.highest_score;
  highest_bidder = s.highest_bidder;
  actions = take s.action_count s.actions;
  complete = s.complete;
  no_landlord = s.no_landlord;
  landlord = s.landlord;
}

-- The checks of `Submit` up to its first write, the array's bounds check last.
unfoldable pub check : State → ℕ → ℕ → Result Error (Unit {0})
check s position score = do
  reject s.complete bidding_complete
  reject (ltb position 1 || ltb 3 position) invalid_position
  reject (not (score_valid score)) invalid_score
  reject (not (position == s.current_bidder)) wrong_turn
  reject (ltb score_pass score && leb score s.highest_score) bid_not_higher
  reject (not (ltb s.action_count (length s.actions))) index_out_of_range

-- `s.actions[s.actionCount] = …; s.actionCount++` and the new highest bid.
unfoldable pub write_bid : State → ℕ → ℕ → State
write_bid s position score =
    let written = record s {
      actions = set s.actions s.action_count (record { position = position; score = score });
      action_count = s.action_count + 1;
    } in
    if ltb s.highest_score score
    then record written { highest_score = score; highest_bidder = position }
    else written

-- The end of the auction, or the next bidder.
unfoldable pub advance : State → ℕ → ℕ → State
advance s position score =
    if score == score_three || s.action_count == length s.actions
    then (if s.highest_score == score_pass
        then record s { complete = true; current_bidder = 0; no_landlord = true }
        else record s { complete = true; current_bidder = 0; landlord = s.highest_bidder })
    else record s { current_bidder = next_position position }

unfoldable pub submit : State → ℕ → ℕ → Result Error State
unfolding check write_bid advance
submit s position score = do
  check s position score
  ok (advance (write_bid s position score) position score)
