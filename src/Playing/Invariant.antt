-- ===== src/Playing/Invariant.antt =====
-- What holds between two turns.
use awesome_zero_platform.Base.{
  ℕ, suc, ◌+◌, ◌%◌, ◌≤◌, ◌≡◌, refl, subst, sym, ◌≢◌, ◌⊎◌, inl, inr, Bool, true, false, List, [],
  ◌∷◌, ◌++◌, Option, none, some, ok, arith, ◌==◌, if◌then◌else◌, wrap64, length, length-append,
  Result-cases, Option-cases, Bool-cases, ok-injective,
}
use awesome_zero_platform.Pattern.{Pattern}
use awesome_zero_platform.Pattern.Analyze.{analyze}
use awesome_zero_platform.Playing.{
  State, Action, play_action, pass_action, new_state, validate_actor, check_beats, write_play, play,
  write_pass, pass, next_seat, valid_seat,
}

-- What the leading play says about the rest of the state. The players after the leader pass in
-- their turn, and nobody passes on an open lead.
abbrev pub Leads : State → Option Pattern → Type 0
Leads s none =
    (s.leading_seat ≡ 0) × (s.leading_cards ≡ []) × (s.pass_count ≡ 0) × (s.complete ≡ false)
Leads s (some p) =
    (1 ≤ s.leading_seat)
    × (s.leading_seat ≤ 3)
    × (analyze s.leading_cards ≡ ok p)
    × (s.pass_count ≤ 1)
    × (s.complete ≡ false
        → s.current_seat ≡ (
            if s.pass_count == 0
            then next_seat s.leading_seat
            else next_seat (next_seat s.leading_seat)))

-- One action of the history, which has the given number.
abbrev pub ActionFits : ℕ → Action → Type 0
ActionFits n a =
    (a.number ≡ wrap64 n)
    × (1 ≤ a.seat)
    × (a.seat ≤ 3)
    × (((a.type ≡ pass_action) × (a.cards ≡ []) × (a.pattern ≡ none))
        ⊎ ((p : Pattern) × (a.type ≡ play_action)
            × (a.pattern ≡ some p)
            × (analyze a.cards ≡ ok p)))

abbrev pub HistoryFits : ℕ → List Action → Type 0
HistoryFits n [] = Unit {0}
HistoryFits n (a ∷ rest) = ActionFits (suc n) a × HistoryFits (suc n) rest

pub HistoryFits-snoc :
    (n : ℕ) (as' : List Action) (a : Action)
    → HistoryFits n as'
    → ActionFits (suc (n + length as')) a
    → HistoryFits n (as' ++ a ∷ [])
HistoryFits-snoc n [] a h f = (subst (λ k. ActionFits (suc k) a) (omega arith) f, tt)
HistoryFits-snoc n (b ∷ as') a h f =
    (h.0, HistoryFits-snoc (suc n) as' a h.1 (subst (λ k. ActionFits (suc k) a) (omega arith) f))

pub record Inv (s : State) : Type 0 where
  pub open_turn :
      s.complete ≡ false → (1 ≤ s.current_seat) × (s.current_seat ≤ 3) × (s.winner_seat ≡ 0)
  pub done_turn :
      s.complete ≡ true
      → (s.current_seat ≡ 0) × (s.winner_seat ≡ s.leading_seat) × (s.pass_count ≡ 0)
  pub lead : Leads s s.leading_pattern
  pub counted : s.revision ≡ wrap64 (length s.history)
  pub recorded : HistoryFits 0 s.history
  pub last_wins :
      s.complete ≡ true
      → (before : List Action) × (a : Action) × (s.history ≡ before ++ a ∷ [])
        × (a.type ≡ play_action)
        × (a.seat ≡ s.winner_seat)

pub new_state-Inv : (first : ℕ) (s : State) → new_state first ≡ ok s → Inv s
unfolding new_state
new_state-Inv first s h = elim (Bool-cases (valid_seat first)) [
  | inr bad ↦ cc (rw bad at h)
  | inl good ↦ rw (← ok-injective (rw good at h)) record {
    open_turn = ground arith;
    done_turn = ground arith;
    lead = (refl, refl, refl, refl);
    counted = refl;
    recorded = tt;
    last_wins = λ c. cc;
  }
]

-- How a play is accepted.
pub record Played (s : State) (seat : ℕ) (cards : List ℕ) (candidate : Pattern) : Type 0 where
  pub seated : (1 ≤ seat) × (seat ≤ 3)
  pub is_open : s.complete ≡ false
  pub in_turn : seat ≡ s.current_seat
  pub is_pattern : analyze cards ≡ ok candidate
  pub beats : check_beats candidate s.leading_pattern ≡ ok tt

validate_actor-ok :
    (s : State) (seat : ℕ)
    → validate_actor s seat ≡ ok tt
    → (1 ≤ seat) × (seat ≤ 3) × (s.complete ≡ false) × (seat ≡ s.current_seat)
unfolding validate_actor
validate_actor-ok s seat h = ground arith

pub play-eq-ok :
    (s t : State) (seat : ℕ) (cards : List ℕ) (hand_empty : Bool)
    → play s seat cards hand_empty ≡ ok t
    → (p : Pattern) × Played s seat cards p × (t ≡ write_play s seat cards p hand_empty)
unfolding play
play-eq-ok s t seat cards hand_empty h = elim (Result-cases (validate_actor s seat)) [
  | inr (e, refused) ↦ cc (rw refused at h)
  | inl (tt, actor) ↦ elim (Result-cases (analyze cards)) [
    | inr (e, refused) ↦ cc (rw (actor, refused) at h)
    | inl (p, analyzed) ↦ elim (Result-cases (check_beats p s.leading_pattern)) [
      | inr (e, refused) ↦ cc (rw (actor, analyzed, refused) at h)
      | inl (tt, beats) ↦
          let v = validate_actor-ok s seat actor in
          (
            p,
            record {
              seated = (v.0, v.1);
              is_open = v.2;
              in_turn = v.3;
              is_pattern = analyzed;
              beats = beats;
            },
            sym (ok-injective (rw (actor, analyzed, beats) at h)),
          )
    ]
  ]
]

pub pass-eq-ok :
    (s t : State) (seat : ℕ)
    → pass s seat ≡ ok t
    → (1 ≤ seat)
      × (seat ≤ 3)
      × (s.complete ≡ false)
      × (seat ≡ s.current_seat)
      × (s.leading_pattern ≢ none)
      × (t ≡ write_pass s seat)
unfolding pass
pass-eq-ok s t seat h = elim (Result-cases (validate_actor s seat)) [
  | inr (e, refused) ↦ cc (rw refused at h)
  | inl (tt, actor) ↦
      let v = validate_actor-ok s seat actor in
      let later = rw actor at h in (v.0, v.1, v.2, v.3, (λ open_lead. ground arith), ground arith)
]

abbrev pub played_action : State → ℕ → List ℕ → Pattern → Action
played_action s seat cards p = record {
  number = wrap64 (s.revision + 1);
  type = play_action;
  seat = seat;
  cards = cards;
  pattern = some p;
}

abbrev pub passed_action : State → ℕ → Action
passed_action s seat = record {
  number = wrap64 (s.revision + 1);
  type = pass_action;
  seat = seat;
  cards = [];
  pattern = none;
}

module _ (s : State) (v : Inv s) (a : Action) where
  counted-snoc : wrap64 (s.revision + 1) ≡ wrap64 (length (s.history ++ a ∷ []))
  counted-snoc = omega (arith, v.counted, length-append s.history (a ∷ []))

  number-snoc : wrap64 (s.revision + 1) ≡ wrap64 (suc (0 + length s.history))
  number-snoc = omega (arith, v.counted)

write_play-Inv :
    (s : State) (seat : ℕ) (cards : List ℕ) (p : Pattern) (hand_empty : Bool)
    → Inv s
    → Played s seat cards p
    → Inv (write_play s seat cards p hand_empty)
write_play-Inv s seat cards p hand_empty v a = record {
  open_turn = unfold write_play in ground arith;
  done_turn = unfold write_play in ground arith;
  lead = unfold write_play in ground arith;
  counted = unfold write_play in counted-snoc s v _;
  recorded =
      unfold write_play in
      HistoryFits-snoc 0 s.history _ v.recorded (
        number-snoc s v (played_action s seat cards p),
        a.seated.0,
        a.seated.1,
        inr (p, refl, refl, a.is_pattern),
      );
  last_wins = λ c. (
    s.history,
    played_action s seat cards p,
    (unfold write_play in refl),
    refl,
    (unfold write_play in ground arith),
  );
}

-- An accepted play keeps the invariant of the play.
pub play-Inv :
    (s t : State) (seat : ℕ) (cards : List ℕ) (hand_empty : Bool)
    → Inv s
    → play s seat cards hand_empty ≡ ok t
    → Inv t
play-Inv s t seat cards hand_empty v h =
    let (p, played, e) = play-eq-ok s t seat cards hand_empty h in
    rw e (write_play-Inv s seat cards p hand_empty v played)

pub history-write_pass :
    (s : State) (seat : ℕ) → (write_pass s seat).history ≡ s.history ++ passed_action s seat ∷ []
unfolding write_pass
history-write_pass s seat = ground arith

write_pass-Leads :
    (s : State) (p : Pattern)
    → s.complete ≡ false
    → s.leading_pattern ≡ some p
    → Leads s (some p)
    → Leads (write_pass s s.current_seat) (write_pass s s.current_seat).leading_pattern
unfolding write_pass
write_pass-Leads s p is_open lp l = elim (Bool-cases ((s.pass_count + 1) % 256 == 2)) [
  | inl second ↦ rw second (refl, refl, refl, is_open)
  | inr first ↦ rw first (rw lp (l.0, l.1, l.2, ground arith, λ _. ground (arith, l.4 is_open)))
]

write_pass-Inv :
    (s : State) (p : Pattern)
    → Inv s
    → s.complete ≡ false
    → Leads s (some p)
    → s.leading_pattern ≡ some p
    → Inv (write_pass s s.current_seat)
write_pass-Inv s p v is_open l lp = record {
  open_turn = unfold write_pass in ground arith;
  done_turn = unfold write_pass in ground arith;
  lead = write_pass-Leads s p is_open lp l;
  counted = unfold write_pass in ground (arith, counted-snoc s v (passed_action s s.current_seat));
  recorded = rw (history-write_pass s s.current_seat) (
      HistoryFits-snoc 0 s.history (passed_action s s.current_seat) v.recorded (
        number-snoc s v (passed_action s s.current_seat),
        (v.open_turn is_open).0,
        (v.open_turn is_open).1,
        inl (refl, refl, refl),
      ));
  last_wins = unfold write_pass in ground arith;
}

-- An accepted pass keeps the invariant of the play.
pub pass-Inv : (s t : State) (seat : ℕ) → Inv s → pass s seat ≡ ok t → Inv t
pass-Inv s t seat v h =
    let (lo, hi, is_open, turn, led, e) = pass-eq-ok s t seat h in
    elim (Option-cases s.leading_pattern) [
      | inl open_lead ↦ absurd (led open_lead)
      | inr (p, lp) ↦ rw (e, turn) (write_pass-Inv s p v is_open (subst (Leads s) lp v.lead) lp)
    ]
