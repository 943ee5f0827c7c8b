-- ===== src/Playing/Laws.antt =====
-- Turns as a whole: who may act, what is never refused, and how the lead comes back.
use awesome_zero_platform.Base.{
  ℕ, ◌<◌, ◌≡◌, refl, subst, ◌≢◌, ◌↔◌, ◌⊎◌, inl, inr, Bool, true, false, List, [], ◌∷◌, Option, none,
  some, Result, ok, err, arith, ◌==◌, Result-cases, Option-cases,
}
use awesome_zero_platform.Base.Tables.{holds_below, holds_below_at}
use awesome_zero_platform.Carddeck.{deck_size, rank}
use awesome_zero_platform.Pattern.{
  Pattern, can_beat, pattern_valid, invalid_pattern_value, make_pattern, single,
}
use awesome_zero_platform.Pattern
use awesome_zero_platform.Pattern.Analyze.{analyze, classify}
use awesome_zero_platform.Pattern.Counts.{rank_counts}
use awesome_zero_platform.Pattern.Valid.{analyze-valid, analyze-error}
use awesome_zero_platform.Playing.{
  State, Error, of_pattern, validate_actor, check_beats, write_play, play, write_pass, pass,
  next_seat,
}
use awesome_zero_platform.Playing.Invariant.{Inv, Leads, pass-eq-ok}

check_beats-error :
    (s : State) (candidate : Pattern) (o : Option Pattern)
    → pattern_valid candidate ≡ true
    → Leads s o
    → check_beats candidate o ≢ err (of_pattern invalid_pattern_value)
unfolding check_beats can_beat
check_beats-error s candidate none v l h = cc
check_beats-error s candidate (some p) v l h = ground (arith, analyze-valid s.leading_cards p l.2)

validate_actor-error :
    (s : State) (seat : ℕ) (e : Error)
    → validate_actor s seat ≡ err e
    → e ≢ of_pattern invalid_pattern_value
unfolding validate_actor
validate_actor-error s seat e h = ground arith

-- In a state that satisfies the invariant, no play fails with the error for an invalid pattern
-- value.
pub play-pattern_value :
    (s : State) (seat : ℕ) (cards : List ℕ) (hand_empty : Bool)
    → Inv s
    → play s seat cards hand_empty ≢ err (of_pattern invalid_pattern_value)
unfolding play
play-pattern_value s seat cards hand_empty v h = elim (Result-cases (validate_actor s seat)) [
  | inr (e, refused) ↦ validate_actor-error s seat e refused (cc (rw refused at h))
  | inl (tt, actor) ↦ elim (Result-cases (analyze cards)) [
    | inr (e, refused) ↦ cc (analyze-error cards e refused, rw (actor, refused) at h)
    | inl (p, analyzed) ↦ elim (Result-cases (check_beats p s.leading_pattern)) [
      | inr (e, refused) ↦
          check_beats-error s p s.leading_pattern (analyze-valid cards p analyzed).0 v.lead
            (cc (rw (actor, analyzed, refused) at h))
      | inl (tt, beats) ↦ cc (rw (actor, analyzed, beats) at h)
    ]
  ]
]

validate_actor-accepts :
    (s : State) → Inv s → s.complete ≡ false → validate_actor s s.current_seat ≡ ok tt
unfolding validate_actor
validate_actor-accepts s v is_open = ground arith

-- In a state that satisfies the invariant, a pass is accepted if and only if the hand goes on, the
-- seat has the turn and a play leads.
pub pass_iff :
    (s : State) (seat : ℕ)
    → Inv s
    → ((t : State) × (pass s seat ≡ ok t))
      ↔ ((s.complete ≡ false) × (seat ≡ s.current_seat) × (s.leading_pattern ≢ none))
pass_iff s seat v = (
  λ q. let e = pass-eq-ok s q.0 seat q.1 in (e.2, e.3, e.4),
  λ q. elim (Option-cases s.leading_pattern) [
    | inl open_lead ↦ absurd (q.2 open_lead)
    | inr (p, lp) ↦
        let l = subst (Leads s) lp v.lead in
        (write_pass s seat, (unfold pass validate_actor in rw lp (ground arith)))
  ],
)

-- In a state that satisfies the invariant, where a play leads and nobody has passed: after
-- accepted passes of the two other players the leader has the turn again on an open lead, and the
-- hand goes on.
pub two_passes :
    (s t u : State) (p : Pattern)
    → Inv s
    → s.leading_pattern ≡ some p
    → s.pass_count ≡ 0
    → pass s (next_seat s.leading_seat) ≡ ok t
    → pass t (next_seat (next_seat s.leading_seat)) ≡ ok u
    → (u.current_seat ≡ s.leading_seat)
      × (u.leading_pattern ≡ none)
      × (u.pass_count ≡ 0)
      × (u.complete ≡ false)
two_passes s t u p v lp none_yet h k =
    let e = (pass-eq-ok s t (next_seat s.leading_seat) h).5 in
    let f = (pass-eq-ok t u (next_seat (next_seat s.leading_seat)) k) in
    unfold write_pass in ground (arith, e, f.2, f.5)

abbrev is_single : Result Pattern.Error Pattern → Bool
is_single (ok p) = p.card_count == 1
is_single (err e) = false

single_table : holds_below 54 (λ c. is_single (analyze (c ∷ []))) ≡ true
unfolding holds_below analyze classify rank_counts rank
single_table = refl

is_single-ok : (r : Result Pattern.Error Pattern) → is_single r ≡ true → (p : Pattern) × (r ≡ ok p)
is_single-ok (ok p) h = (p, refl)
is_single-ok (err e) h = cc

-- The hand never gets stuck: in a state that satisfies the invariant and is not complete, the
-- player whose turn it is may pass, or else may play any single card of the deck.
pub turn_progress :
    (s : State) (c : ℕ) (hand_empty : Bool)
    → Inv s
    → s.complete ≡ false
    → c < deck_size
    → ((t : State) × (pass s s.current_seat ≡ ok t))
      ⊎ ((t : State) × (play s s.current_seat (c ∷ []) hand_empty ≡ ok t))
turn_progress s c hand_empty v is_open lt = elim (Option-cases s.leading_pattern) [
  | inr (p, lp) ↦ inl ((pass_iff s s.current_seat v).1 (is_open, refl, λ e. ground arith))
  | inl open_lead ↦ inr (
      let (p, analyzed) =
        is_single-ok (analyze (c ∷ []))
          (holds_below_at 54 (λ x. is_single (analyze (x ∷ []))) c single_table lt) in
      (
        write_play s s.current_seat (c ∷ []) p hand_empty,
        (unfold play check_beats in rw (validate_actor-accepts s v is_open, analyzed, open_lead)),
      ))
]
