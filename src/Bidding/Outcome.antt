-- ===== src/Bidding/Outcome.antt =====
-- The auction as a whole: whole sequences of bids against the abstract auction `best_from`.
use mathlib.Core.List.{append-nil, append_assoc}
use awesome_zero_platform.Base.{
  ℕ, zero, suc, ◌≤◌, ◌<◌, ◌≡◌, refl, ap, ◌∙◌, ◌≢◌, ◌↔◌, ◌⊎◌, inl, inr, true, false, List, [], ◌∷◌,
  ◌++◌, Result, ok, err, ◌>>=◌, arith, length, length-take, Result-cases, ok-injective,
}
use awesome_zero_platform.Bidding.{
  State, Action, Error, index_out_of_range, new_state, submit, check, write_bid, advance,
}
use awesome_zero_platform.Bidding.Invariant.{
  Inv, recorded, best_from, bidder_at, submit-Inv, submit-eq-ok, Accepted-submit,
  recorded-write_bid, new_state-Inv,
}

-- A sequence of bids, each of which has to be accepted.
unfoldable pub run : State → List Action → Result Error State
run s [] = ok s
run s (a ∷ rest) = submit s a.position a.score >>= λ t. run t rest

run-step :
    (s t : State) (a : Action) (rest : List Action)
    → run s (a ∷ rest) ≡ ok t
    → (u : State) × (submit s a.position a.score ≡ ok u) × (run u rest ≡ ok t)
unfolding run
run-step s t a rest h = elim (Result-cases (submit s a.position a.score)) [
  | inl (u, e) ↦ (u, e, rw (← h, e))
  | inr (x, e) ↦ cc (rw e at h)
]

run-Inv : (s t : State) (bids : List Action) → Inv s → run s bids ≡ ok t → Inv t
unfolding run
run-Inv s t [] v h = ground arith
run-Inv s t (a ∷ rest) v h =
    let (u, e, r) = run-step s t a rest h in
    run-Inv u t rest (submit-Inv s u a.position a.score v e) r

recorded-advance :
    (u : State) (position score : ℕ) → recorded (advance u position score) ≡ recorded u
unfolding advance
recorded-advance u position score = ground arith

recorded-submit :
    (s t : State) (a : Action)
    → submit s a.position a.score ≡ ok t
    → recorded t ≡ recorded s ++ a ∷ []
recorded-submit s t a h =
    let (accepted, e) = submit-eq-ok s a.position a.score h in
    ap recorded e
    ∙ recorded-advance (write_bid s a.position a.score) a.position a.score
    ∙ recorded-write_bid s a.position a.score accepted.in_array

recorded-run :
    (s t : State) (bids : List Action) → run s bids ≡ ok t → recorded t ≡ recorded s ++ bids
unfolding run
recorded-run s t [] h = cc (append-nil (recorded s), ap recorded (ok-injective h))
recorded-run s t (a ∷ rest) h =
    let (u, e, r) = run-step s t a rest h in
    recorded-run u t rest r
    ∙ ap (λ xs. xs ++ rest) (recorded-submit s u a e)
    ∙ append_assoc (recorded s) (a ∷ []) rest

recorded-new_state : (first : ℕ) → recorded (new_state first) ≡ []
unfolding new_state
recorded-new_state first = refl

submit-first :
    (s t : State) (position score : ℕ)
    → submit s position score ≡ ok t
    → t.first_bidder ≡ s.first_bidder
submit-first s t position score h =
    let (accepted, e) = submit-eq-ok s position score h in unfold advance write_bid in ground arith

-- For every auction that starts at seat 1, 2 or 3 and every sequence of bids that are all
-- accepted: the state records exactly these bids in their order, and the highest score and its
-- bidder are those of the abstract auction over the bids.
pub run-best :
    (first : ℕ) (bids : List Action) (t : State)
    → 1 ≤ first
    → first ≤ 3
    → run (new_state first) bids ≡ ok t
    → (recorded t ≡ bids) × ((t.highest_score, t.highest_bidder) ≡ best_from 0 0 bids)
run-best first bids t lo hi h =
    let v = run-Inv (new_state first) t bids (new_state-Inv first lo hi) h in
    let e : recorded t ≡ bids =
      recorded-run (new_state first) t bids h ∙ ap (λ xs. xs ++ bids) (recorded-new_state first) in
    (e, ground (arith, v.best_score, v.best_bidder, ap (best_from 0 0) e))

-- If accepted bids have completed an auction that starts at seat 1, 2 or 3, there is no landlord
-- where the highest score of the abstract auction over the bids is 0, and where it is positive its
-- bidder is the landlord.
pub run-landlord :
    (first : ℕ) (bids : List Action) (t : State)
    → 1 ≤ first
    → first ≤ 3
    → run (new_state first) bids ≡ ok t
    → t.complete ≡ true
    → (((best_from 0 0 bids).0 ≡ 0) × (t.no_landlord ≡ true) × (t.landlord ≡ 0))
      ⊎ ((0 < (best_from 0 0 bids).0)
          × (t.no_landlord ≡ false)
          × (t.landlord ≡ (best_from 0 0 bids).1))
run-landlord first bids t lo hi h c =
    let v = run-Inv (new_state first) t bids (new_state-Inv first lo hi) h in
    let (e, _) = run-best first bids t lo hi h in
    ground (arith, v.done_outcome c, v.best_score, v.best_bidder, ap (best_from 0 0) e)

bidder_at-seated :
    (first n : ℕ) → 1 ≤ first → first ≤ 3 → (1 ≤ bidder_at first n) × (bidder_at first n ≤ 3)
bidder_at-seated first zero lo hi = (lo, hi)
bidder_at-seated first (suc n) lo hi = omega (arith, bidder_at-seated first n lo hi)

-- In every state that satisfies the invariant, a bid is accepted if and only if the auction is
-- open, the position has the turn, the score is at most 3, and it is a pass or above the highest
-- score.
pub submit-accepts :
    (s : State) (position score : ℕ)
    → Inv s
    → ((t : State) × (submit s position score ≡ ok t)) ↔ (
        (s.complete ≡ false)
        × (position ≡ s.current_bidder)
        × (score ≤ 3)
        × ((score ≡ 0) ⊎ (s.highest_score < score)))
submit-accepts s position score v = (
  λ p.
      let a = (submit-eq-ok s position score p.1).0 in
      (a.is_open, a.in_turn, a.is_score, a.is_higher),
  λ r. (
    _,
    Accepted-submit s position score (
        ground (
          arith,
          bidder_at-seated s.first_bidder s.action_count,
          v.open_turn r.0,
          v.open_count r.0,
        )),
  ),
)

-- In a state that satisfies the invariant, the write to the array of bids is not out of range.
pub submit-in_range :
    (s : State) (position score : ℕ) → Inv s → submit s position score ≢ err index_out_of_range
unfolding submit check
submit-in_range s position score v h = ground arith

-- An auction that starts at seat 1, 2 or 3 accepts at most three bids.
pub run-length :
    (first : ℕ) (bids : List Action) (t : State)
    → 1 ≤ first
    → first ≤ 3
    → run (new_state first) bids ≡ ok t
    → length bids ≤ 3
run-length first bids t lo hi h =
    let v = run-Inv (new_state first) t bids (new_state-Inv first lo hi) h in
    let e : recorded t ≡ bids = (run-best first bids t lo hi h).0 in
    let n : t.action_count ≤ length t.actions = omega (arith, v.count_bound, v.room_for) in
    omega (arith, ap length e, length-take t.action_count t.actions n, v.count_bound)

-- Three accepted bids complete an auction that starts at seat 1, 2 or 3.
pub run_completes :
    (first : ℕ) (bids : List Action) (t : State)
    → 1 ≤ first
    → first ≤ 3
    → run (new_state first) bids ≡ ok t
    → length bids ≡ 3
    → t.complete ≡ true
run_completes first bids t lo hi h l =
    let v = run-Inv (new_state first) t bids (new_state-Inv first lo hi) h in
    let e : recorded t ≡ bids = (run-best first bids t lo hi h).0 in
    let n : t.action_count ≤ length t.actions = omega (arith, v.count_bound, v.room_for) in
    ground (arith, ap length e, length-take t.action_count t.actions n, v.open_count)
