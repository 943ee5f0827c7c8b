-- ===== src/Settlement/Laws.antt =====
-- A settlement is fair, and its arithmetic stays in range.
use awesome_zero_platform.Base.{
  ℕ, ◌+◌, ◌*◌, ◌/◌, ◌^◌, ◌≤◌, ◌≡◌, inl, inr, refl, ap, true, ◌&&◌, List, ok, arith, leb, ◌==◌,
  if◌then◌else◌, Bool-cases, Result-cases,
}
use awesome_zero_platform.Base.Int.{ℤ, pos, neg, ◌+ℤ◌}
use awesome_zero_platform.Base.Trio.{Trio, at_seat}
use awesome_zero_platform.Base.Tables.{holds_below, holds_below_at}
use awesome_zero_platform.Pattern.{bomb, rocket}
use awesome_zero_platform.Playing.{Action}
use awesome_zero_platform.Settlement.Counts.{plays_of, plays_of_kind, no_tally-counts}
use awesome_zero_platform.Settlement.{
  Input, Points, Tally, validate_input, tally_from, no_tally, calculate_from, calculate, result_of,
  exponent_of, is_spring, is_anti_spring, split_stake, max_uint64,
}

-- The powers that a multiplier can be.
power_table :
    holds_below 16 (λ e. leb 1 (2 ^ e) && leb (2 ^ e) 32768 && leb 3 (max_uint64 / 2 ^ e)) ≡ true
unfolding holds_below
power_table = refl

power_bounds : (e : ℕ) → e ≤ 15 → (1 ≤ 2 ^ e) × (2 ^ e ≤ 32768) × (3 ≤ max_uint64 / 2 ^ e)
power_bounds e h = ground (
  arith,
  holds_below_at 16 (λ e. leb 1 (2 ^ e) && leb (2 ^ e) 32768 && leb 3 (max_uint64 / 2 ^ e)) e
      power_table (omega arith),
)

-- What the checks of `Calculate` establish.
pub record Settled (input : Input) (t : Tally) (r : Points) : Type 0 where
  pub seated : (1 ≤ input.landlord_seat) × (input.landlord_seat ≤ 3)
  pub score : (1 ≤ input.winning_score) × (input.winning_score ≤ 3)
  pub tallied : tally_from 0 input.playing.history no_tally ≡ ok t
  pub bombs : t.bombs ≤ 13
  pub rockets : t.rockets ≤ 1
  pub result :
      r
      ≡ result_of input t (2 ^ exponent_of input t) (input.winning_score * 2 ^ exponent_of input t)

exponent_of-le :
    (input : Input) (t : Tally) → t.bombs ≤ 13 → t.rockets ≤ 1 → exponent_of input t ≤ 15
unfolding exponent_of
exponent_of-le input t b r = ground arith

validate_input-ok :
    (input : Input)
    → validate_input input ≡ ok tt
    → (1 ≤ input.landlord_seat)
      × (input.landlord_seat ≤ 3)
      × (1 ≤ input.winning_score)
      × (input.winning_score ≤ 3)
unfolding validate_input
validate_input-ok input h = ground arith

calculate_from-eq-ok :
    (input : Input) (t : Tally) (r : Points)
    → calculate_from input t ≡ ok r
    → (t.bombs ≤ 13)
      × (t.rockets ≤ 1)
      × (r
          ≡ result_of input t
              (2 ^ exponent_of input t)
              (input.winning_score * 2 ^ exponent_of input t))
unfolding calculate_from
calculate_from-eq-ok input t r h = ground arith

pub calculate-Settled :
    (input : Input) (r : Points) → calculate input ≡ ok r → (t : Tally) × Settled input t r
unfolding calculate
calculate-Settled input r h = elim (Result-cases (validate_input input)) [
  | inr (e, refused) ↦ cc (rw refused at h)
  | inl (tt, valid) ↦ elim (Result-cases (tally_from 0 input.playing.history no_tally)) [
    | inr (e, refused) ↦ cc (rw (valid, refused) at h)
    | inl (t, tallied) ↦
        let v = validate_input-ok input valid in
        let c = calculate_from-eq-ok input t r (rw (valid, tallied) at h) in
        (
          t,
          record {
            seated = (v.0, v.1);
            score = (v.2, v.3);
            tallied = tallied;
            bombs = c.0;
            rockets = c.1;
            result = c.2;
          },
        )
  ]
]

-- For a winning score of at most 3, at most 13 bombs and at most one rocket, the rest of the
-- calculation returns its result: no later check refuses, and the stake is at most 98304.
pub calculate_from_total :
    (input : Input) (t : Tally)
    → input.winning_score ≤ 3
    → t.bombs ≤ 13
    → t.rockets ≤ 1
    → (calculate_from input t
        ≡ ok (
            result_of input t
              (2 ^ exponent_of input t)
              (input.winning_score * 2 ^ exponent_of input t)))
      × (input.winning_score * 2 ^ exponent_of input t ≤ 98304)
unfolding calculate_from
calculate_from_total input t score b r =
    let small = exponent_of-le input t b r in
    let (lo, hi, room) = power_bounds (exponent_of input t) small in
    let stake : input.winning_score * 2 ^ exponent_of input t ≤ 98304 = grind arith in
    (ground arith, stake)

abbrev pub total : Trio ℤ → ℤ
total points = points.first +ℤ points.second +ℤ points.third

total-split_stake :
    (landlord stake : ℕ)
    → 1 ≤ landlord
    → landlord ≤ 3
    → (total (split_stake landlord (pos (2 * stake)) (neg stake)) ≡ pos 0)
      × (total (split_stake landlord (neg (2 * stake)) (pos stake)) ≡ pos 0)
unfolding ◌+ℤ◌
total-split_stake landlord stake lo hi = ground arith

-- The plays of the two seats that are not the landlord's.
abbrev pub farmer_plays : ℕ → List Action → ℕ
farmer_plays landlord history =
    (if 1 == landlord then 0 else plays_of 1 history)
    + (if 2 == landlord then 0 else plays_of 2 history)
    + (if 3 == landlord then 0 else plays_of 3 history)

-- The doubling for a spring: the landlord won and no farmer ever played; or lost and played once.
abbrev pub spring_bonus : Input → ℕ
spring_bonus input =
    let history = input.playing.history in
    if input.playing.winner_seat == input.landlord_seat
    then (if farmer_plays input.landlord_seat history == 0 then 1 else 0)
    else if plays_of input.landlord_seat history == 1
    then 1
    else 0

exponent_of-history :
    (input : Input) (t : Tally)
    → 1 ≤ input.landlord_seat
    → input.landlord_seat ≤ 3
    → tally_from 0 input.playing.history no_tally ≡ ok t
    → exponent_of input t
      ≡ plays_of_kind bomb input.playing.history
        + plays_of_kind rocket input.playing.history
        + spring_bonus input
unfolding exponent_of is_spring is_anti_spring
exponent_of-history input t lo hi tallied =
    let (plays, bombs, rockets) = no_tally-counts input.playing.history t tallied in
    ground (
      arith,
      bombs,
      rockets,
      plays 1 (omega arith) (omega arith),
      plays 2 (omega arith) (omega arith),
      plays 3 (omega arith) (omega arith),
      plays input.landlord_seat lo hi,
    )

-- If a settlement is calculated, its multiplier is 2 to the number of bombs and rockets that the
-- history plays, with one more for a spring or an anti-spring; the stake is the winning score
-- times the multiplier and at most 98304; and the points of the three seats add up to 0.
pub calculate-fair :
    (input : Input) (r : Points)
    → calculate input ≡ ok r
    → (r.multiplier
        ≡ 2
          ^ (plays_of_kind bomb input.playing.history
              + plays_of_kind rocket input.playing.history
              + spring_bonus input))
      × (r.final_stake ≡ input.winning_score * r.multiplier)
      × (r.final_stake ≤ 98304)
      × (total r.seat_points ≡ pos 0)
calculate-fair input r h =
    let (t, s) = calculate-Settled input r h in
    let (lo, hi) = s.seated in
    let stake = (calculate_from_total input t s.score.1 s.bombs s.rockets).1 in
    let sums =
      total-split_stake input.landlord_seat (input.winning_score * 2 ^ exponent_of input t) lo hi in
    rw s.result (
      unfold result_of in
      (
        ap (λ k. 2 ^ k) (exponent_of-history input t lo hi s.tallied),
        refl,
        stake,
        elim (Bool-cases (input.playing.winner_seat == input.landlord_seat)) [
          | inl won ↦ rw won sums.0
          | inr lost ↦ rw lost sums.1
        ],
      ))

at_seat-split_stake :
    (landlord seat : ℕ) (a b : ℤ)
    → 1 ≤ seat
    → seat ≤ 3
    → at_seat (split_stake landlord a b) seat ≡ (if seat == landlord then a else b)
at_seat-split_stake landlord seat a b lo hi = ground arith

-- If a settlement is calculated, a landlord who won has plus twice the stake and one who lost
-- minus twice the stake, and each farmer, seat 1, 2 or 3, has the stake with the opposite sign.
pub calculate-shares :
    (input : Input) (r : Points) (seat : ℕ)
    → calculate input ≡ ok r
    → 1 ≤ seat
    → seat ≤ 3
    → at_seat r.seat_points seat ≡ (
        if input.playing.winner_seat == input.landlord_seat
        then (if seat == input.landlord_seat then pos (2 * r.final_stake) else neg r.final_stake)
        else if seat == input.landlord_seat
        then neg (2 * r.final_stake)
        else pos r.final_stake)
calculate-shares input r seat h lo hi =
    let (t, s) = calculate-Settled input r h in
    let stake = input.winning_score * 2 ^ exponent_of input t in
    rw s.result (
      unfold result_of in
      elim (Bool-cases (input.playing.winner_seat == input.landlord_seat)) [
        | inl won ↦
            rw won
              (at_seat-split_stake input.landlord_seat seat (pos (2 * stake)) (neg stake) lo hi)
        | inr lost ↦
            rw lost
              (at_seat-split_stake input.landlord_seat seat (neg (2 * stake)) (pos stake) lo hi)
      ])
