-- ===== src/Scenarios/Auction.antt =====
-- Auctions of server/business/doudizhu/domain/bidding/bidding.go.
use awesome_zero_platform.Base.{
  ℕ, ◌≤◌, ◌<◌, ◌≡◌, ◌⊎◌, ◌↔◌, refl, true, false, List, [], ◌∷◌, ok, arith,
}
use awesome_zero_platform.Bidding.{State, Action, new_state, submit, check, write_bid, advance}
use awesome_zero_platform.Bidding.Invariant.{Inv, recorded, best_from, new_state-Inv}
use awesome_zero_platform.Bidding.Outcome.{run, run-best, run-landlord, submit-accepts}
use awesome_zero_platform.Scenarios.{value_or}

abbrev bid : ℕ → ℕ → Action
bid position score = record { position = position; score = score }

-- Seat 2 starts: one, pass, two.
abbrev bids : List Action
bids = bid 2 1 ∷ bid 3 0 ∷ bid 1 2 ∷ []

abbrev final : State
final = value_or (new_state 2) (run (new_state 2) bids)

bids_accepted : run (new_state 2) bids ≡ ok final
unfolding run submit check write_bid advance new_state
bids_accepted = refl

final_complete : final.complete ≡ true
unfolding run submit check write_bid advance new_state
final_complete = refl

run-best_example :
    (recorded final ≡ bids) × ((final.highest_score, final.highest_bidder) ≡ best_from 0 0 bids)
run-best_example = run-best 2 bids final (omega arith) (omega arith) bids_accepted

run-landlord_example :
    (((best_from 0 0 bids).0 ≡ 0) × (final.no_landlord ≡ true) × (final.landlord ≡ 0))
    ⊎ ((0 < (best_from 0 0 bids).0)
        × (final.no_landlord ≡ false)
        × (final.landlord ≡ (best_from 0 0 bids).1))
run-landlord_example =
    run-landlord 2 bids final (omega arith) (omega arith) bids_accepted final_complete

started : Inv (new_state 2)
started = new_state-Inv 2 (omega arith) (omega arith)

submit-accepts_example : ((t : State) × (submit (new_state 2) 2 1 ≡ ok t)) ↔ (
    ((new_state 2).complete ≡ false)
    × (2 ≡ (new_state 2).current_bidder)
    × (1 ≤ 3)
    × (Path ℕ 1 0 ⊎ ((new_state 2).highest_score < 1)))
submit-accepts_example = submit-accepts (new_state 2) 2 1 started

abbrev after_one : State
after_one = value_or (new_state 2) (submit (new_state 2) 2 1)

one_accepted : submit (new_state 2) 2 1 ≡ ok after_one
unfolding submit check write_bid advance new_state
one_accepted = refl
