-- ===== src/Hand/Edges.antt =====
-- The phases that the commands of a hand lead through.
use awesome_zero_platform.Base.{
  ℕ, ◌≡◌, refl, sym, ap, subst, ◌∙◌, Bool, true, false, List, ok, arith,
}
use awesome_zero_platform.Base.Text.{Text}
use awesome_zero_platform.Hand.{
  HandPhase, fairness_committing, fairness_revealing, waiting_public_beacon, dealing, bidding,
  playing, settling, completed, cancelled, aborted, expired, phase_id, terminal, Hand, Event,
  BeaconValue, record_event,
}
use awesome_zero_platform.Hand.Phases.{
  change_phase, transition, mark_dealt, start_playing, start_settling, complete, terminate,
  write_termination, cancel, abort, expire,
}
use awesome_zero_platform.Hand.Fairness.{
  submit_commit, write_commit, submit_reveal, write_reveal, submit_custodied, write_custodied,
  lock_public_beacon, write_beacon, finish_submission,
}
use awesome_zero_platform.Hand.Commands.{
  Command, commits, reveals, custodies, locks, deals, starts_playing, starts_settling, completes,
  cancels, aborts, expires, apply, ◌⟶◌, stay_committing, all_committed, all_custodied,
  stay_revealing, all_revealed, beacon_known, dealt, landlord_known, hand_emptied, settled, give_up,
  run_out, call_off,
}
use awesome_zero_platform.Hand.Written.{
  required-phase, submit_commit-written, submit_reveal-written, submit_custodied-written,
  lock_public_beacon-written, transition-written, terminate-written,
}

step : (p q : HandPhase) {from to : HandPhase} → p ≡ from → q ≡ to → from ⟶ to → p ⟶ q
step p q {from} {to} e f edge = subst (λ x. x ⟶ q) (sym e) (subst (λ x. from ⟶ x) (sym f) edge)

transition-edge :
    (h : Hand) (expected : ℕ) (from to : HandPhase) (t : Hand × List Event)
    → transition h expected from to ≡ ok t
    → from ⟶ to
    → h.phase ⟶ t.0.phase
unfolding change_phase record_event
transition-edge h expected from to t e edge =
    let (p, w) = transition-written h expected from to t e in
    step h.phase t.0.phase (required-phase h expected from p) (sym (ap (λ x. x.0.phase) w)) edge

terminate-edge :
    (h : Hand) (expected : ℕ) (to : HandPhase) (reason : Text) (t : Hand × List Event)
    → terminate h expected to reason ≡ ok t
    → (terminal h.phase ≡ false → h.phase ⟶ to)
    → h.phase ⟶ t.0.phase
unfolding write_termination record_event
terminate-edge h expected to reason t e edge =
    let (open_hand, w) = terminate-written h expected to reason t e in
    step h.phase t.0.phase refl (sym (ap (λ x. x.0.phase) w)) (edge open_hand)

cancel-edge :
    (h : Hand) (reason : Text) (expected : ℕ) (t : Hand × List Event)
    → cancel h reason expected ≡ ok t
    → h.phase ⟶ t.0.phase
unfolding cancel phase_id
cancel-edge h reason expected t e =
    terminate-edge h expected cancelled reason t (ground (arith, e))
      λ open_hand. call_off open_hand (ground (arith, e))

finished-edge :
    (h h' : Hand) (events : List Event) (all_there : Bool) (next : HandPhase)
    (t : Hand × List Event)
    → {from : HandPhase} → h.phase ≡ from
    → h'.phase ≡ h.phase
    → finish_submission h' events all_there next ≡ t
    → from ⟶ from
    → from ⟶ next
    → h.phase ⟶ t.0.phase
unfolding finish_submission change_phase record_event
finished-edge h h' events true next t p same w stay move =
    step h.phase t.0.phase p (sym (ap (λ x. x.0.phase) w)) move
finished-edge h h' events false next t p same w stay move =
    step h.phase t.0.phase p (sym (ap (λ x. x.0.phase) w) ∙ same ∙ p) stay

submit_commit-edge :
    (h : Hand) (actor commitment : Text) (expected : ℕ) (t : Hand × List Event)
    → submit_commit h actor commitment expected ≡ ok t
    → h.phase ⟶ t.0.phase
unfolding write_commit record_event
submit_commit-edge h actor commitment expected t e =
    let (seat, p, w, _, _) = submit_commit-written h actor commitment expected t e in
    finished-edge h _ _ _ _ t (required-phase h expected fairness_committing p) refl w
      stay_committing all_committed

submit_reveal-edge :
    (sha256 : Text → Text) (h : Hand) (actor digest record_ref : Text) (expected : ℕ)
    (t : Hand × List Event)
    → submit_reveal sha256 h actor digest record_ref expected ≡ ok t
    → h.phase ⟶ t.0.phase
unfolding write_reveal record_event
submit_reveal-edge sha256 h actor digest record_ref expected t e =
    let (seat, p, w, _, _) = submit_reveal-written sha256 h actor digest record_ref expected t e in
    finished-edge h _ _ _ _ t (required-phase h expected fairness_revealing p) refl w stay_revealing
      all_revealed

submit_custodied-edge :
    (sha256 : Text → Text) (h : Hand) (actor digest record_ref : Text) (expected : ℕ)
    (t : Hand × List Event)
    → submit_custodied sha256 h actor digest record_ref expected ≡ ok t
    → h.phase ⟶ t.0.phase
unfolding write_custodied record_event
submit_custodied-edge sha256 h actor digest record_ref expected t e =
    let (seat, p, w, _, _) =
      submit_custodied-written sha256 h actor digest record_ref expected t e in
    finished-edge h _ _ _ _ t (required-phase h expected fairness_committing p) refl w
      stay_committing all_custodied

lock_public_beacon-edge :
    (h : Hand) (value : BeaconValue) (expected : ℕ) (t : Hand × List Event)
    → lock_public_beacon h value expected ≡ ok t
    → h.phase ⟶ t.0.phase
unfolding write_beacon change_phase record_event
lock_public_beacon-edge h value expected t e =
    let (p, w, _, _) = lock_public_beacon-written h value expected t e in
    step h.phase t.0.phase (required-phase h expected waiting_public_beacon p)
      (sym (ap (λ x. x.0.phase) w)) beacon_known

-- Every accepted command leads a hand from its phase to the next along one edge of the relation of
-- phases.
pub apply-edge :
    (sha256 : Text → Text) (h : Hand) (c : Command) (expected : ℕ) (t : Hand × List Event)
    → apply sha256 h c expected ≡ ok t
    → h.phase ⟶ t.0.phase
unfolding apply mark_dealt start_playing start_settling complete abort expire
apply-edge sha256 h (commits actor commitment) expected t e =
    submit_commit-edge h actor commitment expected t e
apply-edge sha256 h (reveals actor digest ref) expected t e =
    submit_reveal-edge sha256 h actor digest ref expected t e
apply-edge sha256 h (custodies actor digest ref) expected t e =
    submit_custodied-edge sha256 h actor digest ref expected t e
apply-edge sha256 h (locks value) expected t e = lock_public_beacon-edge h value expected t e
apply-edge sha256 h deals expected t e = transition-edge h expected dealing bidding t e dealt
apply-edge sha256 h starts_playing expected t e =
    transition-edge h expected bidding playing t e landlord_known
apply-edge sha256 h starts_settling expected t e =
    transition-edge h expected playing settling t e hand_emptied
apply-edge sha256 h completes expected t e =
    transition-edge h expected settling completed t e settled
apply-edge sha256 h (cancels reason) expected t e = cancel-edge h reason expected t e
apply-edge sha256 h (aborts reason) expected t e =
    terminate-edge h expected aborted reason t e give_up
apply-edge sha256 h (expires reason) expected t e =
    terminate-edge h expected expired reason t e run_out
