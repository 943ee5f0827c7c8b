-- ===== src/Bidding/Invariant.antt =====
-- What holds of an auction between two bids, and after any sequence of accepted bids.
use awesome_zero_platform.Base.{
  ℕ, zero, suc, ◌≤◌, ◌<◌, ◌≡◌, ◌⊎◌, true, false, List, [], ◌∷◌, ◌++◌, ok, arith, ltb, if◌then◌else◌,
  length, take, take-set, length-set,
}
use awesome_zero_platform.Bidding.{
  State, Action, new_state, next_position, submit, check, write_bid, advance,
}

-- The abstract auction: the first of the highest positive bids, as a score and a position.
abbrev pub best_from : ℕ → ℕ → List Action → ℕ × ℕ
best_from score bidder [] = (score, bidder)
best_from score bidder (a ∷ rest) =
    best_from (if ltb score a.score then a.score else score)
      (if ltb score a.score then a.position else bidder) rest

best_from-append :
    (s b : ℕ) (xs : List Action) (a : Action)
    → best_from s b (xs ++ a ∷ [])
      ≡ (if ltb (best_from s b xs).0 a.score then (a.score, a.position) else best_from s b xs)
best_from-append s b [] a = ground arith
best_from-append s b (x ∷ xs) a =
    best_from-append (if ltb s x.score then x.score else s)
      (if ltb s x.score then x.position else b) xs a

abbrev pub recorded : State → List Action
recorded s = take s.action_count s.actions

-- The bidder whose turn it is after `n` bids.
abbrev pub bidder_at : ℕ → ℕ → ℕ
bidder_at first zero = first
bidder_at first (suc n) = next_position (bidder_at first n)

pub record Inv (s : State) : Type 0 where
  pub first_seated : (1 ≤ s.first_bidder) × (s.first_bidder ≤ 3)
  pub room_for : length s.actions ≡ 3
  pub open_count : s.complete ≡ false → s.action_count < 3
  pub count_bound : s.action_count ≤ 3
  pub open_turn : s.complete ≡ false → s.current_bidder ≡ bidder_at s.first_bidder s.action_count
  pub done_turn : s.complete ≡ true → s.current_bidder ≡ 0
  pub score_bound : s.highest_score ≤ 3
  pub best_score : s.highest_score ≡ (best_from 0 0 (recorded s)).0
  pub best_bidder : s.highest_bidder ≡ (best_from 0 0 (recorded s)).1
  pub bidder_seated : 0 < s.highest_score → (1 ≤ s.highest_bidder) × (s.highest_bidder ≤ 3)
  pub open_outcome : s.complete ≡ false → (s.no_landlord ≡ false) × (s.landlord ≡ 0)
  pub done_outcome :
      s.complete ≡ true
      → ((s.highest_score ≡ 0) × (s.no_landlord ≡ true) × (s.landlord ≡ 0))
        ⊎ ((0 < s.highest_score) × (s.no_landlord ≡ false) × (s.landlord ≡ s.highest_bidder))
  pub three_ends : s.highest_score ≡ 3 → s.complete ≡ true

pub new_state-Inv : (first : ℕ) → 1 ≤ first → first ≤ 3 → Inv (new_state first)
unfolding new_state
new_state-Inv first lo hi = ground arith

-- What `check` lets through.
pub record Accepted (s : State) (position score : ℕ) : Type 0 where
  pub is_open : s.complete ≡ false
  pub seated : (1 ≤ position) × (position ≤ 3)
  pub is_score : score ≤ 3
  pub in_turn : position ≡ s.current_bidder
  pub is_higher : (score ≡ 0) ⊎ (s.highest_score < score)
  pub in_array : s.action_count < length s.actions

check-Accepted :
    (s : State) (position score : ℕ) → check s position score ≡ ok tt → Accepted s position score
unfolding check
check-Accepted s position score h = ground arith

-- An accepted bid passed every check, and the new state is the written one, advanced.
pub submit-eq-ok :
    (s : State) (position score : ℕ) {t : State}
    → submit s position score ≡ ok t
    → Accepted s position score × (t ≡ advance (write_bid s position score) position score)
unfolding submit check
submit-eq-ok s position score h =
    (check-Accepted s position score (unfold check in ground arith), ground arith)

pub Accepted-submit :
    (s : State) (position score : ℕ)
    → Accepted s position score
    → submit s position score ≡ ok (advance (write_bid s position score) position score)
unfolding submit check
Accepted-submit s position score a = ground arith

abbrev pub new_action : ℕ → ℕ → Action
new_action position score = record { position = position; score = score }

pub recorded-write_bid :
    (s : State) (position score : ℕ)
    → s.action_count < length s.actions
    → recorded (write_bid s position score) ≡ recorded s ++ new_action position score ∷ []
unfolding write_bid
recorded-write_bid s position score h =
    ground (arith, take-set s.actions s.action_count (new_action position score) h)

-- The state between the write and the end of `Submit`.
pub record Written (position score : ℕ) (u : State) : Type 0 where
  pub first_seated : (1 ≤ u.first_bidder) × (u.first_bidder ≤ 3)
  room_for : length u.actions ≡ 3
  is_open : u.complete ≡ false
  count_bound : u.action_count ≤ 3
  turn : next_position position ≡ bidder_at u.first_bidder u.action_count
  score_bound : u.highest_score ≤ 3
  best_score : u.highest_score ≡ (best_from 0 0 (recorded u)).0
  best_bidder : u.highest_bidder ≡ (best_from 0 0 (recorded u)).1
  bidder_seated : 0 < u.highest_score → (1 ≤ u.highest_bidder) × (u.highest_bidder ≤ 3)
  open_outcome : (u.no_landlord ≡ false) × (u.landlord ≡ 0)
  three_now : u.highest_score ≡ 3 → score ≡ 3

best-write_bid :
    (s : State) (position score : ℕ)
    → s.action_count < length s.actions
    → best_from 0 0 (recorded (write_bid s position score)) ≡ (
        if ltb (best_from 0 0 (recorded s)).0 score
        then (score, position)
        else best_from 0 0 (recorded s))
best-write_bid s position score h =
    rw (recorded-write_bid s position score h)
      (best_from-append 0 0 (recorded s) (new_action position score))

write_bid-Written :
    (s : State) (position score : ℕ)
    → Inv s
    → Accepted s position score
    → Written position score (write_bid s position score)
write_bid-Written s position score v a = record {
  first_seated = unfold write_bid in ground arith;
  room_for =
      unfold write_bid in
      ground (arith, length-set s.actions s.action_count (new_action position score));
  is_open = unfold write_bid in ground arith;
  count_bound = unfold write_bid in ground arith;
  turn = unfold write_bid in ground arith;
  score_bound = unfold write_bid in ground arith;
  best_score = rw (best-write_bid s position score a.in_array) (unfold write_bid in ground arith);
  best_bidder = rw (best-write_bid s position score a.in_array) (unfold write_bid in ground arith);
  bidder_seated = unfold write_bid in ground arith;
  open_outcome = unfold write_bid in ground arith;
  three_now = unfold write_bid in ground arith;
}

advance-Inv :
    (position score : ℕ) (u : State) → Written position score u → Inv (advance u position score)
unfolding advance
advance-Inv position score u w = ground arith

-- An accepted bid keeps the invariant of the auction.
pub submit-Inv : (s t : State) (position score : ℕ) → Inv s → submit s position score ≡ ok t → Inv t
submit-Inv s t position score v h =
    let (accepted, e) = submit-eq-ok s position score h in
    rw e (advance-Inv position score _ (write_bid-Written s position score v accepted))
