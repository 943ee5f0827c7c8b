-- ===== src/LiveHand/Finish.antt =====
-- server/business/doudizhu/domain/livehand/game.go: a turn that the rules allow is carried out, also
-- where it ends the hand and needs a settlement and the codes of all cards.
use awesome_zero_platform.Base.{
  ℕ, ◌+◌, ◌≤◌, ◌<◌, ◌≡◌, refl, sym, ◌∙◌, bind_ok, bind_steps, ok-injective, subst, ap, inl, inr,
  true, false, not, ◌||◌, length, List, [], ◌∷◌, some, Result, ok, reject, ◌>>=◌, arith, ltb, ◌==◌,
  if_intro, Result-cases, wrap64,
}
use awesome_zero_platform.Base.Text.{Text, trim_space, is_empty}
use awesome_zero_platform.Base.Trio.{Trio}
use awesome_zero_platform.Carddeck.{card_code, deck_size}
use awesome_zero_platform.Carddeck.Codes.{parse_card-card_code}
use awesome_zero_platform.Carddeck.Deck.{count, copies}
use awesome_zero_platform.Carddeck.Transcript.{canonical_bytes}
use awesome_zero_platform.Playing
use awesome_zero_platform.Playing.Invariant
use awesome_zero_platform.Settlement
use awesome_zero_platform.Settlement.{calculate}
use awesome_zero_platform.Settlement.Total.{calculate_total}
use awesome_zero_platform.LiveHand.{
  playing, completed, lifted, of_settlement, of_playing, of_cards, instance_not_found,
  invalid_argument, TerminalPayload, Error, Game, Command, Outcome, CompletedPayload,
}
use awesome_zero_platform.LiveHand.Decode.{Json, payload_version}
use awesome_zero_platform.LiveHand.Cards.{card_codes}
use awesome_zero_platform.LiveHand.Apply.{
  Candidate, code_trio, completed_payload, conclude, play_outcome, take_turn, finish_game, turn,
  apply_playing, or_missing, abort,
}
use awesome_zero_platform.LiveHand.Conserved.{in_hands}
use awesome_zero_platform.LiveHand.Turns.{Turned, turn-Turned}
use awesome_zero_platform.LiveHand.Invariant.{Inv, Stage, take_turn-in_game}

card_code_total : (c : ℕ) → c < deck_size → (code : Text) × (card_code c ≡ ok code)
card_code_total c h = elim (Result-cases (card_code c)) [
  | inl (code, e) ↦ (code, e)
  | inr (e, refused) ↦ cc (refused, parse_card-card_code c h)
]

card_codes_total :
    (cards : List ℕ)
    → ((x : ℕ) → count x cards ≤ copies x)
    → (codes : List Text) × (card_codes cards ≡ ok codes)
unfolding card_codes
card_codes_total [] h = ([], refl)
card_codes_total (c ∷ cards) h =
    let (code, e) = card_code_total c (ground (arith, h c)) in
    let (codes, es) = card_codes_total cards (λ x. omega (arith, h x)) in
    (code ∷ codes, rw (e, es) refl)

code_trio_total :
    (hands : Trio (List ℕ))
    → ((x : ℕ) → in_hands hands x ≤ copies x)
    → (codes : Trio (List Text)) × (code_trio hands ≡ ok codes)
code_trio_total hands h =
    let (first, e) = card_codes_total hands.first (λ x. omega (arith, h x)) in
    let (second, f) = card_codes_total hands.second (λ x. omega (arith, h x)) in
    let (third, g) = card_codes_total hands.third (λ x. omega (arith, h x)) in
    (record { first = first; second = second; third = third }, rw (e, f, g) refl)

-- A result that is there, and tells whether the play is complete.
abbrev Concludes : Candidate → Result Error (Game × Outcome) → Type 0
Concludes candidate r =
    (h : Game) × (o : Outcome) × (r ≡ ok (h, o)) × (o.terminal ≡ candidate.0.complete)

module _ (sha256 : Text → Text) (g : Game) (bytes : Text)
    (encodes : canonical_bytes sha256 g.transcript ≡ ok bytes) (v : Inv g) where
  completed_payload_total :
      (version : ℕ) (play : Playing.Snapshot) (points : Settlement.Points) (hands : Trio (List ℕ))
      → ((x : ℕ) → in_hands hands x ≤ copies x)
      → (final : CompletedPayload) × (completed_payload sha256 g version play points hands
          ≡ ok final)
  unfolding completed_payload
  completed_payload_total version play points hands once =
      let (codes, e) = code_trio_total hands once in
      let (landlord, f) = card_codes_total g.setup.landlord_cards v.extra in
      elim (Result-cases (completed_payload sha256 g version play points hands)) [
        | inl built ↦ built
        | inr (x, refused) ↦ cc (rw (encodes, e, f) at refused)
      ]

  conclude_total :
      (s : Playing.State) (candidate : Candidate)
      → Stage playing g
      → g.play ≡ some s
      → Turned g.current s candidate
      → Concludes candidate (conclude sha256 g candidate)
  unfolding conclude
  conclude_total s candidate stage there turned =
      if_intro (Concludes candidate) candidate.0.complete _ _
        (λ done.
          let (old, held, keeps, open_play, seat, score) = stage in
          let all_cards = take_turn-in_game g s candidate there v turned in
          let (points, settled) =
            calculate_total g.landlord_seat g.winning_score candidate.0 seat.0 seat.1 score.0
              score.1 turned.keeps done (λ x. unfold take_turn in omega (arith, all_cards x)) in
          let (final, built) =
            completed_payload_total (wrap64 (g.version + 1)) (Playing.snapshot candidate.0) points
              candidate.1 (λ x. unfold take_turn in omega (arith, all_cards x)) in
          (
            finish_game g candidate points,
            play_outcome g (wrap64 (g.version + 1)) completed candidate.0 (some points) (some final)
                true,
            bind_ok (lifted of_settlement _) _ points (ap (lifted of_settlement) settled)
                ∙ bind_ok (completed_payload sha256 g _ _ points candidate.1) _ final built,
            sym done,
          ))
        (λ goes_on. (_, _, refl, sym goes_on))

-- If a live hand in play keeps its invariant and its transcript encodes, then a turn of the seat
-- whose turn it is that the rules of the play allow is accepted, and the outcome is terminal
-- exactly if the turn completes the play: neither the settlement nor the codes of the cards can
-- fail.
pub apply_playing_total :
    (sha256 : Text → Text) (json : Json) (g : Game) (c : Command) (bytes version : Text)
    (s : Playing.State) (candidate : Candidate)
    → Inv g
    → g.phase ≡ playing
    → canonical_bytes sha256 g.transcript ≡ ok bytes
    → g.play ≡ some s
    → payload_version json c.payload ≡ ok version
    → c.actor_position ≡ s.current_seat
    → turn json g s c version ≡ ok candidate
    → (h : Game) × (o : Outcome) × (apply_playing sha256 json g c ≡ ok (h, o))
      × (o.terminal ≡ candidate.0.complete)
unfolding apply_playing
apply_playing_total sha256 json g c bytes version s candidate v phase encodes there read seat
      turned =
    let stage = subst (λ p. Stage p g) phase v.stage in
    let (old, held, keeps, open_play, seats, score) = stage in
    let one : old ≡ s = cc (held, there) in
    let kept = subst Invariant.Inv one keeps in
    let moved = turn-Turned json g s c kept version candidate turned in
    let (h, o, concluded, ends) =
      conclude_total sha256 g bytes encodes v s candidate stage there moved in
    let last = λ (_ : Unit {0}). turn json g s c version >>= conclude sha256 g in
    let allowed : not (c.actor_position == s.current_seat) ≡ false = ground arith in
    (
      h,
      o,
      bind_ok (or_missing g.play) _ s (ap or_missing there)
          ∙ bind_ok (payload_version json c.payload) _ version read
          ∙ bind_ok
              (reject (not (c.actor_position == s.current_seat)) (of_playing Playing.wrong_turn))
              last tt (ap (λ b. reject b (of_playing Playing.wrong_turn)) allowed)
          ∙ bind_ok (turn json g s c version) (conclude sha256 g) candidate turned
          ∙ concluded,
      ends,
    )

allowed_reason :
    (reason : Text)
    → 1 ≤ length reason
    → length reason ≤ 128
    → (is_empty reason || ltb 128 (length reason)) ≡ false
allowed_reason [] some_text short = absurd (omega arith)
allowed_reason (b ∷ reason) some_text short = ground arith

-- A live hand that keeps its invariant, is not over and has a transcript that encodes is aborted
-- for every reason that has 1 to 128 bytes once it is trimmed: the result tells that reason and
-- the next version, and the hand is over and keeps its invariant.
pub abort_total :
    (sha256 : Text → Text) (g : Game) (reason bytes : Text)
    → Inv g
    → g.terminal ≡ false
    → canonical_bytes sha256 g.transcript ≡ ok bytes
    → 1 ≤ length (trim_space reason)
    → length (trim_space reason) ≤ 128
    → (h : Game) × (p : TerminalPayload) × (abort sha256 g reason ≡ ok (h, p))
      × Inv h
      × (h.terminal ≡ true)
      × (p.reason ≡ trim_space reason)
      × (p.state_version ≡ wrap64 (g.version + 1))
      × (h.version ≡ p.state_version)
unfolding abort
abort_total sha256 g reason bytes v runs encodes some_text short =
    let (current, e) = code_trio_total g.current (λ x. omega (arith, v.cards x)) in
    let (landlord, f) = card_codes_total g.setup.landlord_cards v.extra in
    let allowed : (is_empty (trim_space reason) || ltb 128 (length (trim_space reason))) ≡ false =
      allowed_reason (trim_space reason) some_text short in
    (
      _,
      _,
      bind_ok (reject g.terminal instance_not_found) _ tt
            (ap (λ b. reject b instance_not_found) runs)
          ∙ bind_ok
              (reject (is_empty (trim_space reason) || ltb 128 (length (trim_space reason)))
                invalid_argument)
              _ tt (ap (λ b. reject b invalid_argument) allowed)
          ∙ bind_ok (lifted of_cards (canonical_bytes sha256 g.transcript)) _ bytes
              (ap (lifted of_cards) encodes)
          ∙ bind_ok (lifted of_cards (code_trio g.current)) _ current (ap (lifted of_cards) e)
          ∙ bind_ok (lifted of_cards (card_codes g.setup.landlord_cards)) _ landlord
              (ap (lifted of_cards) f),
      record { stage = tt; cards = v.cards; extra = v.extra },
      refl,
      refl,
      refl,
      refl,
    )

-- A hand that is aborted keeps its invariant.
pub abort-Inv :
    (sha256 : Text → Text) (g h : Game) (reason : Text) (p : TerminalPayload)
    → Inv g
    → abort sha256 g reason ≡ ok (h, p)
    → Inv h
unfolding abort
abort-Inv sha256 g h reason p v e =
    let (_, _, e1) = bind_steps (reject g.terminal instance_not_found) _ (h, p) e in
    let (_, _, e2) =
      bind_steps
        (reject (is_empty (trim_space reason) || ltb 128 (length (trim_space reason)))
          invalid_argument)
        _ (h, p) e1 in
    let (bytes, _, e3) =
      bind_steps (lifted of_cards (canonical_bytes sha256 g.transcript)) _ (h, p) e2 in
    let (current, _, e4) = bind_steps (lifted of_cards (code_trio g.current)) _ (h, p) e3 in
    let (landlord, _, e5) =
      bind_steps (lifted of_cards (card_codes g.setup.landlord_cards)) _ (h, p) e4 in
    rw (ap (λ r. r.0) (sym (ok-injective e5)))
      record { stage = tt; cards = v.cards; extra = v.extra }
