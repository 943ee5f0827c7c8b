-- ===== src/LiveHand/Turns.antt =====
-- server/business/doudizhu/domain/livehand/game.go: what a play or a pass that is accepted does.
use awesome_zero_platform.Base.{
  ℕ, ◌+◌, ◌≡◌, sym, ◌∙◌, ap, inl, inr, ◌⊎◌, Bool, true, false, not, List, Option, none, some,
  Result, ok, err, reject, arith, ◌==◌, length, bind_steps, if_steps, Bool-cases, ok-injective,
  wrap64,
}
use awesome_zero_platform.Base.Text.{Text, text_eq}
use awesome_zero_platform.Base.Trio.{Trio, at_seat}
use awesome_zero_platform.Carddeck.Deck.{count}
use awesome_zero_platform.Playing
use awesome_zero_platform.Playing.{Action, write_play, write_pass}
use awesome_zero_platform.Playing.Invariant.{
  Inv, play-eq-ok, pass-eq-ok, play-Inv, pass-Inv, history-write_pass, passed_action,
}
use awesome_zero_platform.Settlement
use awesome_zero_platform.Settlement.{calculate}
use awesome_zero_platform.Settlement.Played.{cards_of}
use awesome_zero_platform.LiveHand.{
  Error, Game, Command, Outcome, lifted, of_playing, of_settlement,
}
use awesome_zero_platform.LiveHand.Decode.{
  Json, play_version, pass_version, decode_play, decode_pass, payload_version,
}
use awesome_zero_platform.LiveHand.Cards.{remove_held_cards}
use awesome_zero_platform.LiveHand.Apply.{
  Candidate, play_turn, pass_turn, turn, conclude, take_turn, finish_game, settlement_input,
  completed_payload, apply_playing, or_missing,
}
use awesome_zero_platform.LiveHand.Conserved.{
  in_hands, in_hands-set_seat, cards_of-snoc, remove_held_cards-count,
}

lifted-eq_ok :
    {E A : Type 0} (wrap : E → Error) (r : Result E A) (a : A) → lifted wrap r ≡ ok a → r ≡ ok a
lifted-eq_ok wrap (ok b) a h = ap ok (ok-injective h)
lifted-eq_ok wrap (err e) a h = cc

-- A candidate after a turn: the play keeps its invariant, and every card is where it was or on the
-- table.
pub record Turned (hands : Trio (List ℕ)) (s : Playing.State) (candidate : Candidate) : Type 0 where
  pub keeps : Inv candidate.0
  pub conserved :
      (x : ℕ)
      → in_hands candidate.1 x + count x (cards_of candidate.0.history)
        ≡ in_hands hands x + count x (cards_of s.history)

write_play-cards :
    (s : Playing.State) (seat : ℕ) (cards : List ℕ) (p : _) (hand_empty : Bool) (x : ℕ)
    → count x (cards_of (write_play s seat cards p hand_empty).history)
      ≡ count x (cards_of s.history) + count x cards
unfolding write_play
write_play-cards s seat cards p hand_empty x = cards_of-snoc s.history _ x

write_pass-cards :
    (s : Playing.State) (seat x : ℕ)
    → count x (cards_of (write_pass s seat).history) ≡ count x (cards_of s.history)
write_pass-cards s seat x =
    rw (history-write_pass s seat) (omega (arith, cards_of-snoc s.history (passed_action s seat) x))

module _ (json : Json) (g : Game) (s : Playing.State) (c : Command) (v : Inv s) where
  play_turn-Turned :
      (candidate : Candidate) → play_turn json g s c ≡ ok candidate → Turned g.current s candidate
  unfolding play_turn
  play_turn-Turned candidate h =
      let hand = at_seat g.current c.actor_position in
      let (cards, decoded, h1) = bind_steps (decode_play json c.payload) _ candidate h in
      let (rest, removed, h2) = bind_steps (remove_held_cards hand cards) _ candidate h1 in
      let (t, lifts, h3) = bind_steps (lifted of_playing _) _ candidate h2 in
      let played = lifted-eq_ok of_playing _ t lifts in
      let (p, actor, e) = play-eq-ok s t c.actor_position cards (length rest == 0) played in
      let (lo, hi) = actor.seated in
      rw (← ok-injective h3) record {
        keeps = play-Inv s t c.actor_position cards (length rest == 0) v played;
        conserved = λ x. rw e (
            omega (
              arith,
              write_play-cards s c.actor_position cards p (length rest == 0) x,
              in_hands-set_seat g.current c.actor_position rest x lo hi,
              remove_held_cards-count hand cards rest x removed,
            ));
      }

  pass_turn-Turned :
      (candidate : Candidate) → pass_turn json g s c ≡ ok candidate → Turned g.current s candidate
  unfolding pass_turn
  pass_turn-Turned candidate h =
      let (decoded, _, h1) = bind_steps (decode_pass json c.payload) _ candidate h in
      let (t, lifts, h2) = bind_steps (lifted of_playing _) _ candidate h1 in
      let passed = lifted-eq_ok of_playing _ t lifts in
      let (lo, hi, is_open, in_turn, led, e) = pass-eq-ok s t c.actor_position passed in
      rw (← ok-injective h2) record {
        keeps = pass-Inv s t c.actor_position v passed;
        conserved = λ x. rw e (omega (arith, write_pass-cards s c.actor_position x));
      }

  pub turn-Turned :
      (version : Text) (candidate : Candidate)
      → turn json g s c version ≡ ok candidate
      → Turned g.current s candidate
  unfolding turn
  turn-Turned version candidate h = elim (Bool-cases (text_eq version play_version)) [
    | inl plays ↦ play_turn-Turned candidate (rw plays at h)
    | inr other ↦ elim (Bool-cases (text_eq version pass_version)) [
      | inl passes ↦ pass_turn-Turned candidate (rw (other, passes) at h)
      | inr neither ↦ ground arith
    ]
  ]

or_missing-eq_ok : (o : Option Playing.State) (s : Playing.State) → or_missing o ≡ ok s → o ≡ some s
or_missing-eq_ok none s h = cc
or_missing-eq_ok (some t) s h = ap some (ok-injective h)

-- How a turn that is accepted ends.
abbrev pub Concluded : Game → Candidate → Game → Outcome → Type 0
Concluded g candidate h o =
    (((candidate.0.complete ≡ true)
        × (points : Settlement.Points) × (calculate (settlement_input g candidate.0) ≡ ok points)
        × (h ≡ finish_game g candidate points))
      ⊎ ((candidate.0.complete ≡ false) × (h ≡ take_turn g candidate)))
    × (o.version ≡ wrap64 (g.version + 1))
    × (o.terminal ≡ candidate.0.complete)

module _ (sha256 : Text → Text) (g h : Game) (o : Outcome) where
  conclude-Concluded :
      (candidate : Candidate) → conclude sha256 g candidate ≡ ok (h, o) → Concluded g candidate h o
  unfolding conclude
  conclude-Concluded candidate e = elim (if_steps candidate.0.complete _ _ (ok (h, o)) e) [
    | inr (goes_on, e0) ↦
        let same = sym (ok-injective e0) in
        (
          inr (goes_on, ap (λ p. p.0) same),
          ap (λ p. p.1.version) same,
          ap (λ p. p.1.terminal) same ∙ sym goes_on,
        )
    | inl (done, e0) ↦
        let (points, settled, e1) = bind_steps (lifted of_settlement _) _ (h, o) e0 in
        let (final, completed, e2) =
          bind_steps (completed_payload sha256 g _ _ points candidate.1) _ (h, o) e1 in
        let same = sym (ok-injective e2) in
        (
          inl (done, points, lifted-eq_ok of_settlement _ points settled, ap (λ p. p.0) same),
          ap (λ p. p.1.version) same,
          ap (λ p. p.1.terminal) same ∙ sym done,
        )
  ]

  -- How the game after an accepted command of the play comes about.
  pub apply_playing-eq-ok :
      (json : Json) (c : Command)
      → apply_playing sha256 json g c ≡ ok (h, o)
      → (s : Playing.State) × (candidate : Candidate) × (version : Text) × (g.play ≡ some s)
        × (turn json g s c version ≡ ok candidate)
        × Concluded g candidate h o
  unfolding apply_playing
  apply_playing-eq-ok json c e =
      let (s, there, e0) = bind_steps (or_missing g.play) _ (h, o) e in
      let (version, read, e1) = bind_steps (payload_version json c.payload) _ (h, o) e0 in
      let wrong = not (c.actor_position == s.current_seat) in
      let (allowed, in_turn, e2) =
        bind_steps (reject wrong (of_playing Playing.wrong_turn)) _ (h, o) e1 in
      let (candidate, turned, e3) = bind_steps (turn json g s c version) _ (h, o) e2 in
      (
        s,
        candidate,
        version,
        or_missing-eq_ok g.play s there,
        turned,
        conclude-Concluded candidate e3,
      )
