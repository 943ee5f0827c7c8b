-- ===== src/Hand/Protocol.antt =====
-- The commands of a hand keep the fairness protocol.
use awesome_zero_platform.Base.{ℕ, ◌≡◌, ◌≢◌, refl, ap, subst, ◌∙◌, true, false, List, ok, arith}
use awesome_zero_platform.Base.Text.{Text, trim_space, text_eq_iff}
use awesome_zero_platform.Hand.{
  HandPhase, fairness_committing, fairness_revealing, waiting_public_beacon, dealing, bidding,
  playing, settling, completed, cancelled, aborted, expired, Hand, Event, BeaconValue, record_event,
}
use awesome_zero_platform.Hand.Phases.{
  change_phase, transition, mark_dealt, start_playing, start_settling, complete, terminate,
  write_termination, cancel, abort, expire,
}
use awesome_zero_platform.Hand.Fairness.{
  submit_commit, submit_reveal, submit_custodied, lock_public_beacon, write_commit, write_reveal,
  write_custodied, write_beacon,
}
use awesome_zero_platform.Hand.Commands.{
  Command, commits, reveals, custodies, locks, deals, starts_playing, starts_settling, completes,
  cancels, aborts, expires, apply,
}
use awesome_zero_platform.Hand.Written.{
  required-phase, submit_commit-written, submit_reveal-written, submit_custodied-written,
  lock_public_beacon-written, transition-written, terminate-written,
}
use awesome_zero_platform.Hand.Invariant.{
  Inv, all_in, drawn, moved-Inv, resolve_seat-IsSeat, contributed-Inv, all_revealed, finished-Inv,
}

module _ (sha256 : Text → Text) where
  submit_commit-Inv :
      (h : Hand) (actor commitment : Text) (expected : ℕ) (t : Hand × List Event)
      → Inv sha256 h
      → submit_commit h actor commitment expected ≡ ok t
      → Inv sha256 t.0
  unfolding write_commit record_event
  submit_commit-Inv h actor commitment expected t i e =
      let (seat, p, w, r, m) = submit_commit-written h actor commitment expected t e in
      let at = required-phase h expected fairness_committing p in
      let s = resolve_seat-IsSeat sha256 h actor seat i r in
      let shut = i.closed at m seat s in
      finished-Inv sha256 _ _ _ fairness_revealing t w
        (contributed-Inv sha256 h seat _ _ i s (ap all_in at) (ap drawn at) (λ x. cc) (λ _ _. shut))
        (λ x. cc) refl (λ _ x. cc)

  submit_reveal-Inv :
      (h : Hand) (actor digest record_ref : Text) (expected : ℕ) (t : Hand × List Event)
      → Inv sha256 h
      → submit_reveal sha256 h actor digest record_ref expected ≡ ok t
      → Inv sha256 t.0
  unfolding write_reveal record_event
  submit_reveal-Inv h actor digest record_ref expected t i e =
      let (seat, p, w, r, m) =
        submit_reveal-written sha256 h actor digest record_ref expected t e in
      let at = required-phase h expected fairness_revealing p in
      let s = resolve_seat-IsSeat sha256 h actor seat i r in
      finished-Inv sha256 _ _ _ waiting_public_beacon t w
        (contributed-Inv sha256 h seat _ _ i s (ap all_in at) (ap drawn at)
          (λ _. (text_eq_iff _ _).0 m) (λ x. cc))
        (λ x. cc) refl (λ x _. all_revealed sha256 _ x)

  submit_custodied-Inv :
      (h : Hand) (actor digest record_ref : Text) (expected : ℕ) (t : Hand × List Event)
      → Inv sha256 h
      → submit_custodied sha256 h actor digest record_ref expected ≡ ok t
      → Inv sha256 t.0
  unfolding write_custodied record_event
  submit_custodied-Inv h actor digest record_ref expected t i e =
      let (seat, p, w, r, custody) =
        submit_custodied-written sha256 h actor digest record_ref expected t e in
      let at = required-phase h expected fairness_committing p in
      let s = resolve_seat-IsSeat sha256 h actor seat i r in
      finished-Inv sha256 _ _ _ waiting_public_beacon t w
        (contributed-Inv sha256 h seat _ _ i s (ap all_in at) (ap drawn at) (λ _. refl)
          (λ _ x. cc (custody, x)))
        (λ x. cc) refl (λ x _. all_revealed sha256 _ x)

  lock_public_beacon-Inv :
      (h : Hand) (value : BeaconValue) (expected : ℕ) (t : Hand × List Event)
      → Inv sha256 h
      → lock_public_beacon h value expected ≡ ok t
      → Inv sha256 t.0
  unfolding write_beacon change_phase record_event
  lock_public_beacon-Inv h value expected t i e =
      let (p, w, provider, round) = lock_public_beacon-written h value expected t e in
      let at = required-phase h expected waiting_public_beacon p in
      subst (λ x. Inv sha256 x.0) w
        record {
          opens = i.opens;
          closed = λ x. cc;
          complete_reveal = λ _. i.complete_reveal (ap all_in at);
          planned_beacon = λ _. (_, refl, (text_eq_iff _ _).0 provider, (text_eq_iff _ _).0 round);
          seat1 = i.seat1;
          seat2 = i.seat2;
          seat3 = i.seat3;
        }

  transition-Inv :
      (h : Hand) (expected : ℕ) (from to : HandPhase) (t : Hand × List Event)
      → Inv sha256 h
      → transition h expected from to ≡ ok t
      → to ≢ fairness_committing
      → all_in from ≡ true
      → drawn from ≡ true
      → Inv sha256 t.0
  unfolding change_phase record_event
  transition-Inv h expected from to t i e n a d =
      let (p, w) = transition-written h expected from to t e in
      let at = required-phase h expected from p in
      subst (λ x. Inv sha256 x.0) w
        (moved-Inv sha256 h to h.termination_reason _ i (λ x. elim (n x) [ ])
          (λ _. ap all_in at ∙ a) (λ _. ap drawn at ∙ d))

  terminate-Inv :
      (h : Hand) (expected : ℕ) (to : HandPhase) (reason : Text) (t : Hand × List Event)
      → Inv sha256 h
      → terminate h expected to reason ≡ ok t
      → to ≢ fairness_committing
      → all_in to ≡ false
      → drawn to ≡ false
      → Inv sha256 t.0
  unfolding write_termination record_event
  terminate-Inv h expected to reason t i e n a d =
      subst (λ x. Inv sha256 x.0) (terminate-written h expected to reason t e).1
        (moved-Inv sha256 h to (trim_space reason) _ i (λ x. elim (n x) [ ]) (λ x. cc) (λ x. cc))

  -- Every accepted command keeps the invariant of the fairness protocol.
  pub apply-Inv :
      (h : Hand) (c : Command) (expected : ℕ) (t : Hand × List Event)
      → Inv sha256 h
      → apply sha256 h c expected ≡ ok t
      → Inv sha256 t.0
  unfolding apply mark_dealt start_playing start_settling complete abort expire cancel
  apply-Inv h (commits actor commitment) expected t i e =
      submit_commit-Inv h actor commitment expected t i e
  apply-Inv h (reveals actor digest ref) expected t i e =
      submit_reveal-Inv h actor digest ref expected t i e
  apply-Inv h (custodies actor digest ref) expected t i e =
      submit_custodied-Inv h actor digest ref expected t i e
  apply-Inv h (locks value) expected t i e = lock_public_beacon-Inv h value expected t i e
  apply-Inv h deals expected t i e =
      transition-Inv h expected dealing bidding t i e (λ x. cc) refl refl
  apply-Inv h starts_playing expected t i e =
      transition-Inv h expected bidding playing t i e (λ x. cc) refl refl
  apply-Inv h starts_settling expected t i e =
      transition-Inv h expected playing settling t i e (λ x. cc) refl refl
  apply-Inv h completes expected t i e =
      transition-Inv h expected settling completed t i e (λ x. cc) refl refl
  apply-Inv h (cancels reason) expected t i e =
      terminate-Inv h expected cancelled reason t i (ground (arith, e)) (λ x. cc) refl refl
  apply-Inv h (aborts reason) expected t i e =
      terminate-Inv h expected aborted reason t i e (λ x. cc) refl refl
  apply-Inv h (expires reason) expected t i e =
      terminate-Inv h expected expired reason t i e (λ x. cc) refl refl
