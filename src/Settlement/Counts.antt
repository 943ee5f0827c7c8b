-- ===== src/Settlement/Counts.antt =====
-- The loop over the history counts what it says: plays of each seat, bombs and rockets.
use awesome_zero_platform.Base.{
  ℕ, suc, ◌+◌, ◌≤◌, ◌≡◌, inl, inr, refl, sym, Bool, List, [], ◌∷◌, Option, none, some, ok, arith,
  ◌==◌, if◌then◌else◌, Bool-cases, Result-cases, ok-injective,
}
use awesome_zero_platform.Base.Text.{is_empty}
use awesome_zero_platform.Base.Trio.{at_seat}
use awesome_zero_platform.Pattern.{Pattern, kind_id, Kind, bomb, rocket}
use awesome_zero_platform.Pattern.Analyze.{analyze}
use awesome_zero_platform.Playing.{Action, ActionType, play_action, pass_action, other}
use awesome_zero_platform.Settlement.{
  Tally, tally_action, tally_type, tally_play, tally_from, count_play, mark_cards, pattern_eq,
  no_tally,
}

-- How many plays the actions hold: of a seat, and of a kind.
abbrev one_play_of : ℕ → ActionType → ℕ → ℕ
one_play_of seat play_action actor = if actor == seat then 1 else 0
one_play_of seat _ actor = 0

abbrev pub plays_of : ℕ → List Action → ℕ
plays_of seat [] = 0
plays_of seat (a ∷ rest) = one_play_of seat a.type a.seat + plays_of seat rest

abbrev pub one_of_kind : Kind → ActionType → Option Pattern → ℕ
one_of_kind kind play_action (some p) = if kind_id p.kind == kind_id kind then 1 else 0
one_of_kind kind _ _ = 0

abbrev pub plays_of_kind : Kind → List Action → ℕ
plays_of_kind kind [] = 0
plays_of_kind kind (a ∷ rest) = one_of_kind kind a.type a.pattern + plays_of_kind kind rest

-- What one action adds to the tally.
record Adds (a : Action) (t u : Tally) : Type 0 where
  plays :
      (seat : ℕ)
      → 1 ≤ seat
      → seat ≤ 3
      → at_seat u.plays seat ≡ at_seat t.plays seat + one_play_of seat a.type a.seat
  bombs : u.bombs ≡ t.bombs + one_of_kind bomb a.type a.pattern
  rockets : u.rockets ≡ t.rockets + one_of_kind rocket a.type a.pattern

tally_play-eq-ok :
    (a : Action) (o : Option Pattern) (t u : Tally)
    → tally_play a o t ≡ ok u
    → (p : Pattern) × (seen : List Bool) × (o ≡ some p) × (u ≡ count_play a p seen t)
unfolding tally_play
tally_play-eq-ok a none t u h = cc
tally_play-eq-ok a (some p) t u h = elim (Bool-cases (is_empty a.cards)) [
  | inl bad ↦ cc (rw bad at h)
  | inr cards ↦ elim (Result-cases (analyze a.cards)) [
    | inr (e, refused) ↦ cc (rw (cards, refused) at h)
    | inl (q, analyzed) ↦ elim (Bool-cases (pattern_eq q p)) [
      | inr bad ↦ cc (rw (cards, analyzed, bad) at h)
      | inl same ↦ elim (Result-cases (mark_cards t.seen a.cards)) [
        | inr (e, refused) ↦ cc (rw (cards, analyzed, same, refused) at h)
        | inl (seen, marked) ↦
            (p, seen, refl, sym (ok-injective (rw (cards, analyzed, same, marked) at h)))
      ]
    ]
  ]
]

tally_action-Adds :
    (index : ℕ) (a : Action) (t u : Tally) (type : ActionType)
    → a.type ≡ type
    → tally_action index a t ≡ ok u
    → Adds a t u
unfolding tally_action tally_type
tally_action-Adds index a t u play_action e h =
    let played : tally_play a a.pattern t ≡ ok u = ground arith in
    let seated : (1 ≤ a.seat) × (a.seat ≤ 3) = ground arith in
    let (p, seen, pat, eq) = tally_play-eq-ok a a.pattern t u played in
    record {
      plays = λ seat lo hi. rw (eq, e) (unfold count_play in ground arith);
      bombs = rw (eq, e, pat) (unfold count_play in ground arith);
      rockets = rw (eq, e, pat) (unfold count_play in ground arith);
    }
tally_action-Adds index a t u pass_action e h =
    let same : t ≡ u = ground arith in
    record {
      plays = λ seat lo hi. rw (e, same) (omega arith);
      bombs = rw (e, same) (omega arith);
      rockets = rw (e, same) (omega arith);
    }
tally_action-Adds index a t u other e h = ground arith

-- After the loop the tally has grown by the plays of the history.
pub tally_from-counts :
    (index : ℕ) (actions : List Action) (t u : Tally)
    → tally_from index actions t ≡ ok u
    → ((seat : ℕ)
        → 1 ≤ seat
        → seat ≤ 3
        → at_seat u.plays seat ≡ at_seat t.plays seat + plays_of seat actions)
      × (u.bombs ≡ t.bombs + plays_of_kind bomb actions)
      × (u.rockets ≡ t.rockets + plays_of_kind rocket actions)
unfolding tally_from
tally_from-counts index [] t u h =
    let e : t ≡ u = ok-injective h in
    (λ seat lo hi. rw e (omega arith), rw e (omega arith), rw e (omega arith))
tally_from-counts index (a ∷ rest) t u h = elim (Result-cases (tally_action index a t)) [
  | inr (e, refused) ↦ cc (rw refused at h)
  | inl (v, acted) ↦
      let adds = tally_action-Adds index a t v a.type refl acted in
      let (plays, bombs, rockets) = tally_from-counts (suc index) rest v u (rw acted at h) in
      (
        λ seat lo hi. omega (arith, plays seat lo hi, adds.plays seat lo hi),
        omega (arith, bombs, adds.bombs),
        omega (arith, rockets, adds.rockets),
      )
]

pub no_tally-counts :
    (actions : List Action) (u : Tally)
    → tally_from 0 actions no_tally ≡ ok u
    → ((seat : ℕ) → 1 ≤ seat → seat ≤ 3 → at_seat u.plays seat ≡ plays_of seat actions)
      × (u.bombs ≡ plays_of_kind bomb actions)
      × (u.rockets ≡ plays_of_kind rocket actions)
no_tally-counts actions u h =
    let (plays, bombs, rockets) = tally_from-counts 0 actions no_tally u h in
    unfold no_tally in
    (λ seat lo hi. ground (arith, plays seat lo hi), omega (arith, bombs), omega (arith, rockets))
