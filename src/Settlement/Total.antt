-- ===== src/Settlement/Total.antt =====
-- A hand that was played out to its end can always be settled.
use awesome_zero_platform.Base.{
  ℕ, suc, ◌+◌, ◌*◌, ◌^◌, ◌≤◌, ◌<◌, ◌≡◌, inl, inr, refl, subst, ◌∙◌, Bool, true, false, List, [],
  ◌∷◌, ◌++◌, Option, none, some, ok, arith, length, get_or, set, replicate, length-set,
}
use awesome_zero_platform.Base.Text.{text_eq_refl}
use awesome_zero_platform.Carddeck.{deck_size}
use awesome_zero_platform.Carddeck.Deck.{
  count, copies, seen_copies, seen_copies-set, no_copies_seen,
}
use awesome_zero_platform.Pattern.{Pattern}
use awesome_zero_platform.Pattern.Valid.{analyze-valid}
use awesome_zero_platform.Playing.{Action, State, play_action, snapshot, state_version}
use awesome_zero_platform.Playing.Invariant.{Inv, ActionFits, HistoryFits, Leads}
use awesome_zero_platform.Settlement.{
  Input, Points, Tally, pattern_eq, mark_cards, tally_play, tally_type, tally_action, tally_from,
  count_play, no_tally, last_action, last_wins, validate_input, calculate, result_of, exponent_of,
}
use awesome_zero_platform.Settlement.Played.{cards_of, length-of_copies, cards_of-kinds}
use awesome_zero_platform.Settlement.Counts.{no_tally-counts}
use awesome_zero_platform.Settlement.Laws.{calculate_from_total}

-- The cards that are seen and the cards to come stand at most once together.
record Room (seen : List Bool) (cards : List ℕ) : Type 0 where
  sized : length seen ≡ deck_size
  fits : (x : ℕ) → count x cards + seen_copies seen x ≤ copies x

mark_cards_total :
    (seen : List Bool) (cards later : List ℕ)
    → Room seen (cards ++ later)
    → (marked : List Bool) × (mark_cards seen cards ≡ ok marked) × Room marked later
unfolding mark_cards
mark_cards_total seen [] later room = (seen, refl, room)
mark_cards_total seen (c ∷ cards) later room =
    let valid : c < deck_size = ground (arith, room.fits c) in
    let fresh : get_or seen c false ≡ false = ground (arith, room.fits c) in
    let next : Room (set seen c true) (cards ++ later) = record {
      sized = length-set seen c true ∙ room.sized;
      fits = λ x. omega (arith, room.fits x, seen_copies-set seen c x room.sized valid fresh);
    } in
    let (marked, e, left) = mark_cards_total (set seen c true) cards later next in
    (marked, rw fresh e, left)

pattern_eq_refl : (p : Pattern) → pattern_eq p p ≡ true
unfolding pattern_eq
pattern_eq_refl p = ground (arith, text_eq_refl p.version)

tally_action_total :
    (index : ℕ) (a : Action) (later : List ℕ) (t : Tally)
    → ActionFits (suc index) a
    → Room t.seen (a.cards ++ later)
    → (u : Tally) × (tally_action index a t ≡ ok u) × Room u.seen later
unfolding tally_action tally_type tally_play
tally_action_total index a later t (number, lo, hi, inl (passed, e, p)) room =
    let no_cards : Path (List ℕ) (a.cards ++ later) later = rw e refl in
    (t, ground arith, subst (Room t.seen) no_cards room)
tally_action_total index a later t (number, lo, hi, inr (p, played, pat, analyzed)) room =
    let (valid, counted, least, most) = analyze-valid a.cards p analyzed in
    let (marked, e, left) = mark_cards_total t.seen a.cards later room in
    (count_play a p marked t, ground (arith, pattern_eq_refl p), unfold count_play in left)

tally_from_total :
    (index : ℕ) (history : List Action) (t : Tally)
    → HistoryFits index history
    → Room t.seen (cards_of history)
    → (u : Tally) × (tally_from index history t ≡ ok u)
unfolding tally_from
tally_from_total index [] t fits room = (t, refl)
tally_from_total index (a ∷ rest) t (fits, later) room =
    let (u, acted, left) = tally_action_total index a (cards_of rest) t fits room in
    let (v, e) = tally_from_total (suc index) rest u later left in (v, rw acted e)

last_action-snoc :
    (b : Action) (before : List Action) (a : Action) → last_action b (before ++ a ∷ []) ≡ a
last_action-snoc b [] a = refl
last_action-snoc b (c ∷ before) a = last_action-snoc c before a

last_wins-snoc :
    (before : List Action) (a : Action) (winner : ℕ)
    → a.type ≡ play_action
    → a.seat ≡ winner
    → last_wins (before ++ a ∷ []) winner ≡ true
unfolding last_wins
last_wins-snoc [] a winner played seat = ground arith
last_wins-snoc (b ∷ before) a winner played seat = ground (arith, last_action-snoc b before a)

-- The play is complete, and its winner has a seat.
winner-seated :
    (s : State) (o : Option Pattern)
    → s.leading_pattern ≡ o
    → Inv s
    → s.complete ≡ true
    → (1 ≤ s.winner_seat) × (s.winner_seat ≤ 3)
winner-seated s none e v done = let lead = subst (Leads s) e v.lead in cc
winner-seated s (some p) e v done =
    let lead = subst (Leads s) e v.lead in omega (arith, lead.0, lead.1, (v.done_turn done).1)

abbrev pub input_for : ℕ → ℕ → State → Input
input_for landlord score s = record {
  landlord_seat = landlord;
  winning_score = score;
  playing = snapshot s;
}

validate_input_total :
    (landlord score : ℕ) (s : State)
    → 1 ≤ landlord
    → landlord ≤ 3
    → 1 ≤ score
    → score ≤ 3
    → Inv s
    → s.complete ≡ true
    → validate_input (input_for landlord score s) ≡ ok tt
unfolding validate_input snapshot
validate_input_total landlord score s lo hi least most v done =
    let (before, a, e, played, seat) = v.last_wins done in
    let (turn, winner, passes) = v.done_turn done in
    let wins : last_wins s.history s.winner_seat ≡ true =
      rw e (last_wins-snoc before a s.winner_seat played seat) in
    let (first, last) = winner-seated s s.leading_pattern refl v done in
    ground (arith, text_eq_refl state_version)

-- If a play that keeps the rules is complete, no card was played twice, the landlord has one of
-- the three seats and the winning score is 1, 2 or 3, then the settlement is calculated.
pub calculate_total :
    (landlord score : ℕ) (s : State)
    → 1 ≤ landlord
    → landlord ≤ 3
    → 1 ≤ score
    → score ≤ 3
    → Inv s
    → s.complete ≡ true
    → ((x : ℕ) → count x (cards_of s.history) ≤ copies x)
    → (r : Points) × (calculate (input_for landlord score s) ≡ ok r)
unfolding calculate
calculate_total landlord score s lo hi least most v done once =
    let input = input_for landlord score s in
    let room : Room (replicate deck_size false) (cards_of s.history) = record {
      sized = refl;
      fits = λ x. omega (arith, once x, no_copies_seen x);
    } in
    let (t, tallied) = tally_from_total 0 s.history no_tally v.recorded (unfold no_tally in room) in
    let (plays, bombs, rockets) = no_tally-counts s.history t tallied in
    let (many_bombs, many_rockets) = cards_of-kinds 0 s.history v.recorded in
    let size = length-of_copies (cards_of s.history) once in
    let (e, small) = calculate_from_total input t most (omega arith) (omega (arith, once 52)) in
    let stake = score * 2 ^ exponent_of input t in
    (
      result_of input t (2 ^ exponent_of input t) stake,
      rw (validate_input_total landlord score s lo hi least most v done)
          (unfold snapshot in rw tallied e),
    )
