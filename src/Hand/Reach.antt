-- ===== src/Hand/Reach.antt =====
-- The hands that the commands make.
use awesome_zero_platform.Base.{
  ℕ, ◌≡◌, inl, inr, sym, ap, subst, ◌∙◌, true, false, List, [], ◌∷◌, some, Result, ok, err, ◌>>=◌,
  arith, Result-cases, ok-injective,
}
use awesome_zero_platform.Base.Text.{Text}
use awesome_zero_platform.Base.Trio.{Trio, at_seat, all_seats}
use awesome_zero_platform.Domain.{Error}
use awesome_zero_platform.Hand.{
  HandPhase, Hand, HandSeat, Event, BeaconPlan, BeaconValue, Contribution, custodied,
  custodied_event, fairness_committing, RevealKeyBinding, new_hand, new_client_custodied_hand,
  validate_hand_seats, validate_hand_seat, record_event, no_contribution,
}
use awesome_zero_platform.Hand.Fairness.{client_commitment}
use awesome_zero_platform.Hand.Commands.{Command, apply}
use awesome_zero_platform.Hand.Invariant.{Inv, drawn, all_in, IsSeat}
use awesome_zero_platform.Hand.Protocol.{apply-Inv}

validate_hand_seat-IsSeat :
    (before : List HandSeat) (s : HandSeat) → validate_hand_seat before s ≡ ok tt → IsSeat s.seat
unfolding validate_hand_seat
validate_hand_seat-IsSeat before s e = (ground (arith, e), ground (arith, e))

validate_hand_seats-are :
    (seats : Trio HandSeat)
    → validate_hand_seats seats ≡ ok tt
    → IsSeat seats.first.seat × IsSeat seats.second.seat × IsSeat seats.third.seat
unfolding validate_hand_seats
validate_hand_seats-are seats e = (
  validate_hand_seat-IsSeat [] seats.first (ground (arith, e)),
  validate_hand_seat-IsSeat (seats.first ∷ []) seats.second (ground (arith, e)),
  validate_hand_seat-IsSeat (seats.first ∷ seats.second ∷ []) seats.third (ground (arith, e)),
)

unrevealed :
    (t : Trio Contribution)
    → t ≡ all_seats no_contribution
    → (k : ℕ) → (at_seat t k).revealed ≡ false
unrevealed t e k = ap (λ (x : Trio Contribution). (at_seat x k).revealed) e ∙ ground arith

drawn-all_in : (p : HandPhase) → drawn p ≡ true → all_in p ≡ true
drawn-all_in p d = ground (arith, d)

module _ (sha256 : Text → Text) where
  new_hand-valid :
      (id room_id : Text) (seats : Trio HandSeat) (server key : Text) (plan : BeaconPlan)
      (bs : List RevealKeyBinding) (t : Hand × Event)
      → new_hand sha256 id room_id seats server key plan bs ≡ ok t
      → (validate_hand_seats seats ≡ ok tt)
        × (t.0.seats ≡ seats)
        × (t.0.contributions ≡ all_seats no_contribution)
        × (t.0.phase ≡ fairness_committing)
  unfolding new_hand record_event
  new_hand-valid id room_id seats server key plan bs t e =
      (ground (arith, e), ground (arith, e), ground (arith, e), ground (arith, e))

  new_client_custodied_hand-of :
      (id room_id : Text) (seats : Trio HandSeat) (server key : Text) (plan : BeaconPlan)
      (b : RevealKeyBinding) (t : Hand × Event)
      → new_client_custodied_hand sha256 id room_id seats server key plan b ≡ ok t
      → (u : Hand × Event) × (new_hand sha256 id room_id seats server key plan (b ∷ []) ≡ ok u)
        × (custodied u.0 ≡ t.0)
  unfolding new_client_custodied_hand
  new_client_custodied_hand-of id room_id seats server key plan b t e =
      elim (Result-cases (new_hand sha256 id room_id seats server key plan (b ∷ []))) [
        | inl (u, w) ↦
            (u, w, ap (λ x. x.0) (ok-injective (sym (ap (λ r. r >>= with_custody) w) ∙ e)))
        | inr (x, w) ↦ elim (absurd (sym (ap (λ r. r >>= with_custody) w) ∙ e)) [ ]
      ]
    where
      with_custody : Hand × Event → Result Error (Hand × Event)
      with_custody (h, e) = ok (custodied h, record e { name = custodied_event e.name })

      absurd : {x : Error} → Path (Result Error (Hand × Event)) (err x) (ok t) → ⊥
      absurd p = cc

  -- What holds of a hand whose seats are numbered and whose contributions are all empty.
  fresh-Inv :
      (h : Hand)
      → validate_hand_seats h.seats ≡ ok tt
      → h.contributions ≡ all_seats no_contribution
      → h.phase ≡ fairness_committing
      → Inv sha256 h
  fresh-Inv h v c p =
      let (s1, s2, s3) = validate_hand_seats-are h.seats v in
      record {
        opens = λ k _ r. cc (r, unrevealed h.contributions c k);
        closed = λ _ _ k _. unrevealed h.contributions c k;
        complete_reveal = λ a. cc (a, ap all_in p);
        planned_beacon = λ a. cc (a, ap drawn p);
        seat1 = s1;
        seat2 = s2;
        seat3 = s3;
      }

  -- A hand that one of the constructors has made and that accepted commands have brought on.
  pub data Reach : Hand → Type 0 where
    made :
        (id room_id : Text) (seats : Trio HandSeat) (server key : Text) (plan : BeaconPlan)
        (bs : List RevealKeyBinding) (t : Hand × Event)
        → new_hand sha256 id room_id seats server key plan bs ≡ ok t
        → Reach t.0
    custody :
        (id room_id : Text) (seats : Trio HandSeat) (server key : Text) (plan : BeaconPlan)
        (b : RevealKeyBinding) (t : Hand × Event)
        → new_client_custodied_hand sha256 id room_id seats server key plan b ≡ ok t
        → Reach t.0
    commanded :
        (h : Hand) (c : Command) (expected : ℕ) (t : Hand × List Event)
        → Reach h
        → apply sha256 h c expected ≡ ok t
        → Reach t.0

  pub Reach-Inv : (h : Hand) → Reach h → Inv sha256 h
  Reach-Inv h (made id room_id seats server key plan bs t e) =
      let (v, s, c, p) = new_hand-valid id room_id seats server key plan bs t e in
      fresh-Inv t.0 (subst (λ x. validate_hand_seats x ≡ ok tt) (sym s) v) c p
  Reach-Inv h (custody id room_id seats server key plan b t e) =
      let (u, made_it, w) = new_client_custodied_hand-of id room_id seats server key plan b t e in
      let (v, s, c, p) = new_hand-valid id room_id seats server key plan (b ∷ []) u made_it in
      subst (Inv sha256) w
        (fresh-Inv (custodied u.0) (subst (λ x. validate_hand_seats x ≡ ok tt) (sym s) v) c p)
  Reach-Inv h (commanded g c expected t r e) = apply-Inv sha256 g c expected t (Reach-Inv g r) e

  -- In a hand that the constructors and accepted commands have made and whose phase follows the
  -- draw of the beacon, each of the seats 1, 2 and 3 has revealed a contribution that opens the
  -- seat's commitment, and the beacon is of the provider and the round that were planned.
  pub Reach-fair :
      (h : Hand) (k : ℕ)
      → Reach h
      → drawn h.phase ≡ true
      → IsSeat k
      → ((at_seat h.contributions k).revealed ≡ true)
        × (client_commitment sha256 h.id k (at_seat h.contributions k).digest
            ≡ (at_seat h.contributions k).commitment)
        × ((v : BeaconValue) × (h.beacon ≡ some v)
            × (v.provider ≡ h.beacon_plan.provider)
            × (v.round ≡ h.beacon_plan.round))
  Reach-fair h k r d s =
      let i = Reach-Inv h r in
      let revealed : (at_seat h.contributions k).revealed ≡ true =
        i.complete_reveal (drawn-all_in h.phase d) k s in
      (revealed, i.opens k s revealed, i.planned_beacon d)
