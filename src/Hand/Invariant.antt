-- ===== src/Hand/Invariant.antt =====
-- What the fairness protocol of a hand keeps.
use awesome_zero_platform.Base.{
  ℕ, ◌≤◌, ◌≡◌, ◌≢◌, inl, inr, refl, sym, subst, Bool, true, false, List, some, ok, ◌==◌, arith,
  Bool-cases,
}
use awesome_zero_platform.Base.Text.{Text}
use awesome_zero_platform.Base.Trio.{Trio, at_seat, set_seat}
use awesome_zero_platform.Domain.{validate_identifier}
use awesome_zero_platform.Hand.{
  HandPhase, fairness_committing, waiting_public_beacon, dealing, bidding, playing, settling,
  completed, Hand, Event, Contribution, BeaconValue, record_event, is_custodied,
}
use awesome_zero_platform.Hand.Phases.{change_phase, resolve_seat}
use awesome_zero_platform.Hand.Fairness.{
  client_commitment, finish_submission, with_contribution, reveal_count,
}

-- The phases that follow the last reveal.
abbrev pub all_in : HandPhase → Bool
all_in waiting_public_beacon = true
all_in dealing = true
all_in bidding = true
all_in playing = true
all_in settling = true
all_in completed = true
all_in _ = false

-- The phases that follow the public beacon.
abbrev pub drawn : HandPhase → Bool
drawn dealing = true
drawn bidding = true
drawn playing = true
drawn settling = true
drawn completed = true
drawn _ = false

abbrev pub IsSeat : ℕ → Type 0
IsSeat k = (1 ≤ k) × (k ≤ 3)

pub record Inv (sha256 : Text → Text) (h : Hand) : Type 0 where
  -- What a seat has revealed is what it committed to.
  pub opens :
      (k : ℕ)
      → IsSeat k
      → (at_seat h.contributions k).revealed ≡ true
      → client_commitment sha256 h.id k (at_seat h.contributions k).digest
        ≡ (at_seat h.contributions k).commitment
  -- Nobody reveals before all have committed.
  pub closed :
      h.phase ≡ fairness_committing
      → is_custodied h.fairness_mode ≡ false
      → (k : ℕ) → IsSeat k
      → (at_seat h.contributions k).revealed ≡ false
  pub complete_reveal :
      all_in h.phase ≡ true → (k : ℕ) → IsSeat k → (at_seat h.contributions k).revealed ≡ true
  pub planned_beacon :
      drawn h.phase ≡ true
      → (v : BeaconValue) × (h.beacon ≡ some v)
        × (v.provider ≡ h.beacon_plan.provider)
        × (v.round ≡ h.beacon_plan.round)
  pub seat1 : IsSeat h.seats.first.seat
  pub seat2 : IsSeat h.seats.second.seat
  pub seat3 : IsSeat h.seats.third.seat

module _ (sha256 : Text → Text) where
  -- A write of the phase alone.
  pub moved-Inv :
      (h : Hand) (to : HandPhase) (reason : Text) (version : ℕ)
      → Inv sha256 h
      → (to ≡ fairness_committing → h.phase ≡ fairness_committing)
      → (all_in to ≡ true → all_in h.phase ≡ true)
      → (drawn to ≡ true → drawn h.phase ≡ true)
      → Inv sha256 (record h { phase = to; termination_reason = reason; version = version })
  moved-Inv h to reason version i a b c = record {
    opens = i.opens;
    closed = λ e. i.closed (a e);
    complete_reveal = λ e. i.complete_reveal (b e);
    planned_beacon = λ e. i.planned_beacon (c e);
    seat1 = i.seat1;
    seat2 = i.seat2;
    seat3 = i.seat3;
  }

  pub set_seat-same :
      (t : Trio Contribution) (k : ℕ) (c : Contribution) → IsSeat k → at_seat (set_seat t k c) k ≡ c
  set_seat-same t k c s = ground (arith, s)

  pub set_seat-other :
      (t : Trio Contribution) (k j : ℕ) (c : Contribution)
      → IsSeat k
      → IsSeat j
      → k ≢ j
      → at_seat (set_seat t k c) j ≡ at_seat t j
  set_seat-other t k j c s s' d = ground (arith, s, s', d)

  -- The seat of an account is a seat of the table.
  pub resolve_seat-IsSeat :
      (h : Hand) (actor : Text) (k : ℕ) → Inv sha256 h → resolve_seat h actor ≡ ok k → IsSeat k
  unfolding resolve_seat validate_identifier
  resolve_seat-IsSeat h actor k i e = ground (arith, i.seat1, i.seat2, i.seat3, e)

  -- A predicate of every seat after the write of one.
  pub each_seat :
      (P : ℕ → Contribution → Type 0) (t : Trio Contribution) (k : ℕ) (c : Contribution)
      → IsSeat k
      → P k c
      → ((j : ℕ) → IsSeat j → P j (at_seat t j))
      → (j : ℕ) → IsSeat j
      → P j (at_seat (set_seat t k c) j)
  each_seat P t k c s p f j s' = elim (Bool-cases (k == j)) [
    | inl same ↦
        subst (λ x. P x (at_seat (set_seat t k c) x)) (ground (arith, same))
          (subst (P k) (sym (set_seat-same t k c s)) p)
    | inr apart ↦
        subst (P j) (sym (set_seat-other t k j c s s' (λ e. ground (arith, apart, e)))) (f j s')
  ]

  -- A write of one contribution, before the last reveal.
  pub contributed-Inv :
      (h : Hand) (k : ℕ) (c : Contribution) (version : ℕ)
      → Inv sha256 h
      → IsSeat k
      → all_in h.phase ≡ false
      → drawn h.phase ≡ false
      → (c.revealed ≡ true → client_commitment sha256 h.id k c.digest ≡ c.commitment)
      → (h.phase ≡ fairness_committing → is_custodied h.fairness_mode ≡ false → c.revealed ≡ false)
      → Inv sha256 (record (with_contribution h k c) { version = version })
  contributed-Inv h k c version i s a d opened shut = record {
    opens =
        each_seat
          (λ j x. x.revealed ≡ true → client_commitment sha256 h.id j x.digest ≡ x.commitment)
          h.contributions k c s opened i.opens;
    closed = λ e m.
        each_seat (λ j x. x.revealed ≡ false) h.contributions k c s (shut e m) (i.closed e m);
    complete_reveal = λ e. cc;
    planned_beacon = λ e. cc;
    seat1 = i.seat1;
    seat2 = i.seat2;
    seat3 = i.seat3;
  }

  pub all_revealed :
      (t : Trio Contribution)
      → (reveal_count t == 3) ≡ true
      → (k : ℕ) → IsSeat k
      → (at_seat t k).revealed ≡ true
  all_revealed t e k s = ground (arith, e, s)

  -- The end of a submission.
  pub finished-Inv :
      (h : Hand) (events : List Event) (all_there : Bool) (next : HandPhase) (t : Hand × List Event)
      → finish_submission h events all_there next ≡ t
      → Inv sha256 h
      → next ≢ fairness_committing
      → drawn next ≡ false
      → (all_there ≡ true
          → all_in next ≡ true
          → (k : ℕ) → IsSeat k
          → (at_seat h.contributions k).revealed ≡ true)
      → Inv sha256 t.0
  unfolding finish_submission change_phase record_event
  finished-Inv h events false next t w i n d r = subst (λ x. Inv sha256 x.0) w i
  finished-Inv h events true next t w i n d r =
      subst (λ x. Inv sha256 x.0) w
        record {
          opens = i.opens;
          closed = λ e. elim (n e) [ ];
          complete_reveal = r refl;
          planned_beacon = λ e. cc;
          seat1 = i.seat1;
          seat2 = i.seat2;
          seat3 = i.seat3;
        }
