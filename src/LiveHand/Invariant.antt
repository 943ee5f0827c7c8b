-- ===== src/LiveHand/Invariant.antt =====
-- server/business/doudizhu/domain/livehand/game.go: what holds of a live hand between two commands.
use awesome_zero_platform.Base.{
  ℕ, ◌+◌, ◌≤◌, ◌≡◌, refl, sym, ◌∙◌, subst, ap, inl, inr, true, false, not, ◌&&◌, if_intro, List, [],
  ◌∷◌, ◌++◌, none, some, Result, ok, err, arith, ◌==◌, Bool-cases, Result-cases, wrap64,
}
use awesome_zero_platform.Base.Text.{Text}
use awesome_zero_platform.Base.Trio.{at_seat}
use awesome_zero_platform.Bidding
use awesome_zero_platform.Bidding.Invariant as Auction
use awesome_zero_platform.Carddeck.Deck.{count, copies}
use awesome_zero_platform.Playing
use awesome_zero_platform.Settlement
use awesome_zero_platform.Settlement.Played.{count-append}
use awesome_zero_platform.Playing.Invariant as Turns
use awesome_zero_platform.LiveHand.{
  Phase, bidding, no_landlord, playing, completed, aborted, is_bidding, is_playing, Error,
  version_conflict, Game, Command, Outcome,
}
use awesome_zero_platform.LiveHand.Decode.{Json, decode_bid}
use awesome_zero_platform.LiveHand.Apply.{
  Candidate, bid_outcome, start_play, with_turns, after_bid, submitted, apply_score, take_turn,
  finish_game, apply_playing, apply, with_history, or_same,
}
use awesome_zero_platform.LiveHand.Conserved.{in_hands-set_seat, in_play, in_game}
use awesome_zero_platform.LiveHand.Turns.{Turned, turn-Turned, apply_playing-eq-ok}

-- What each phase adds.
abbrev pub Stage : Phase → Game → Type 0
Stage bidding g =
    Auction.Inv g.auction × (g.auction.complete ≡ false) × (g.play ≡ none) × (g.landlord_seat ≡ 0)
Stage playing g =
    (s : Playing.State) × (g.play ≡ some s)
    × Turns.Inv s
    × (s.complete ≡ false)
    × ((1 ≤ g.landlord_seat) × (g.landlord_seat ≤ 3))
    × ((1 ≤ g.winning_score) × (g.winning_score ≤ 3))
Stage no_landlord g = Unit {0}
Stage completed g = Unit {0}
Stage aborted g = Unit {0}

-- Every card of the deck stands in the game exactly once; the landlord's cards keep their record.
pub record Inv (g : Game) : Type 0 where
  pub stage : Stage g.phase g
  pub cards : (x : ℕ) → in_game g x ≡ copies x
  pub extra : (x : ℕ) → count x g.setup.landlord_cards ≤ copies x

new_state_total :
    (seat : ℕ) → 1 ≤ seat → seat ≤ 3 → (s : Playing.State) × (Playing.new_state seat ≡ ok s)
unfolding Playing.new_state
new_state_total seat lo hi = elim (Result-cases (Playing.new_state seat)) [
  | inl started ↦ started
  | inr (e, refused) ↦ absurd (ground arith)
]

start_play-Inv :
    (g : Game) (s : Playing.State)
    → g.play ≡ none
    → g.landlord_seat ≡ 0
    → ((x : ℕ) → in_game g x ≡ copies x)
    → ((x : ℕ) → count x g.setup.landlord_cards ≤ copies x)
    → 1 ≤ g.auction.landlord
    → g.auction.landlord ≤ 3
    → 1 ≤ g.auction.highest_score
    → g.auction.highest_score ≤ 3
    → Playing.new_state g.auction.landlord ≡ ok s
    → Inv (start_play g s)
unfolding start_play
start_play-Inv g s nothing open_seat cards extra lo hi least most started =
    let landlord = g.auction.landlord in
    let hand = at_seat g.current landlord in
    let begins = Turns.new_state-Inv landlord s started in
    let fresh : (s.history ≡ []) × (s.complete ≡ false) =
      unfold Playing.new_state in ground arith in
    let taken =
      λ (x : ℕ). in_hands-set_seat g.current landlord (hand ++ g.setup.landlord_cards) x lo hi in
    record {
      stage = (s, refl, begins, fresh.1, (lo, hi), (least, most));
      cards = λ x.
          ground (arith, cards x, taken x, count-append x hand g.setup.landlord_cards, fresh.0);
      extra = extra;
    }

-- What an accepted command leaves, from a game that has its version already.
record Accepted (g h : Game) (o : Outcome) : Type 0 where
  keeps : Inv h
  same_version : h.version ≡ g.version
  same_history : h.history ≡ g.history
  tells_version : o.version ≡ h.version
  tells_terminal : o.terminal ≡ h.terminal

after_bid-Accepted :
    (g : Game)
    → g.phase ≡ bidding
    → Auction.Inv g.auction
    → g.play ≡ none
    → g.landlord_seat ≡ 0
    → g.terminal ≡ false
    → ((x : ℕ) → in_game g x ≡ copies x)
    → ((x : ℕ) → count x g.setup.landlord_cards ≤ copies x)
    → (o : Outcome) × (h : Game) × (after_bid g ≡ (h, ok o)) × Accepted g h o
unfolding after_bid
after_bid-Accepted g phase v nothing open_seat runs cards extra =
    elim (Bool-cases g.auction.complete) [
      | inr goes_on ↦ (
        bid_outcome g false,
        g,
        rw goes_on refl,
        record {
          keeps = record {
            stage = subst (λ p. Stage p g) (sym phase) (v, goes_on, nothing, open_seat);
            cards = cards;
            extra = extra;
          };
          same_version = refl;
          same_history = refl;
          tells_version = refl;
          tells_terminal = sym runs;
        },
      )
      | inl done ↦ elim (v.done_outcome done) [
        | inl (score, nobody, seat) ↦ (
          bid_outcome (record g { phase = no_landlord }) true,
          record g { phase = no_landlord },
          rw (done, nobody) refl,
          record {
            keeps = record { stage = tt; cards = cards; extra = extra };
            same_version = refl;
            same_history = refl;
            tells_version = refl;
            tells_terminal = sym runs;
          },
        )
        | inr (score, somebody, seat) ↦
            let (lo, hi) = v.bidder_seated score in
            let seated : (1 ≤ g.auction.landlord) × (g.auction.landlord ≤ 3) = omega arith in
            let occupied : (g.auction.landlord == 0) ≡ false = ground arith in
            let (s, started) = new_state_total g.auction.landlord seated.0 seated.1 in
            (
              bid_outcome (start_play g s) false,
              start_play g s,
              rw (done, somebody, occupied) (unfold with_turns in rw started refl),
              record {
                keeps =
                    start_play-Inv g s nothing open_seat cards extra seated.0 seated.1 score
                      v.score_bound started;
                same_version = unfold start_play in refl;
                same_history = unfold start_play in refl;
                tells_version = refl;
                tells_terminal = unfold start_play in sym runs;
              },
            )
      ]
    ]

-- The result of a command: a refused one leaves the game as it is, an accepted one counts.
abbrev Kept : Game → List Command → Game × Result Error Outcome → Type 0
Kept g history (h, err e) = h ≡ g
Kept g history (h, ok o) =
    Inv h
    × (h.version ≡ wrap64 (g.version + 1))
    × (h.history ≡ history)
    × (o.version ≡ h.version)
    × (o.terminal ≡ h.terminal)

apply_score-Kept :
    (g : Game) (c : Command) (r : Result Error ℕ)
    → g.phase ≡ bidding
    → g.terminal ≡ false
    → Inv g
    → Kept g g.history (apply_score g c r)
unfolding apply_score submitted
apply_score-Kept g c (err e) phase runs v = refl
apply_score-Kept g c (ok score) phase runs v =
    elim (Result-cases (Bidding.submit g.auction c.actor_position score)) [
      | inr (e, refused) ↦ rw refused refl
      | inl (auction, accepted) ↦
          let (keeps, is_open, nothing, open_seat) = subst (λ p. Stage p g) phase v.stage in
          let bid : Game = record g { auction = auction; version = wrap64 (g.version + 1) } in
          let (o, h, e, a) =
            after_bid-Accepted bid phase
              (Auction.submit-Inv g.auction auction c.actor_position score keeps accepted) nothing
              open_seat runs v.cards v.extra in
          rw (accepted, e)
            (a.keeps, a.same_version, a.same_history, a.tells_version, a.tells_terminal)
    ]

pub take_turn-in_game :
    (g : Game) (s : Playing.State) (candidate : Candidate)
    → g.play ≡ some s
    → Inv g
    → Turned g.current s candidate
    → (x : ℕ) → in_game (take_turn g candidate) x ≡ copies x
unfolding take_turn
take_turn-in_game g s candidate there v turned x =
    let played = ap (λ o. in_play o x) there in omega (arith, v.cards x, turned.conserved x, played)

take_turn-Inv :
    (g : Game) (s : Playing.State) (candidate : Candidate)
    → g.phase ≡ playing
    → g.play ≡ some s
    → Inv g
    → Turned g.current s candidate
    → candidate.0.complete ≡ false
    → Inv (take_turn g candidate)
unfolding take_turn
take_turn-Inv g s candidate phase there v turned goes_on =
    let (old, e, keeps, runs, landlord, score) = subst (λ p. Stage p g) phase v.stage in
    record {
      stage =
          subst (λ p. Stage p (take_turn g candidate)) (sym phase)
            (candidate.0, refl, turned.keeps, goes_on, landlord, score);
      cards = take_turn-in_game g s candidate there v turned;
      extra = v.extra;
    }

finish_game-Inv :
    (g : Game) (s : Playing.State) (candidate : Candidate) (points : Settlement.Points)
    → g.play ≡ some s
    → Inv g
    → Turned g.current s candidate
    → Inv (finish_game g candidate points)
unfolding finish_game take_turn
finish_game-Inv g s candidate points there v turned = record {
  stage = tt;
  cards = take_turn-in_game g s candidate there v turned;
  extra = v.extra;
}

apply_playing-Kept :
    (sha256 : Text → Text) (json : Json) (g : Game) (c : Command)
    → g.phase ≡ playing
    → g.terminal ≡ false
    → Inv g
    → Kept g g.history (or_same g (apply_playing sha256 json g c))
apply_playing-Kept sha256 json g c phase runs v =
    elim (Result-cases (apply_playing sha256 json g c)) [
      | inr (e, refused) ↦ rw refused refl
      | inl ((h, o), accepted) ↦
          let (s, candidate, version, there, turned, (ends, tells, terminal)) =
            apply_playing-eq-ok sha256 g h o json c accepted in
          let (old, held, keeps, open_play, seat, score) = subst (λ p. Stage p g) phase v.stage in
          let one : old ≡ s = cc (held, there) in
          let moved = turn-Turned json g s c (subst Turns.Inv one keeps) version candidate turned in
          rw accepted (elim ends [
            | inl (done, points, settled, e) ↦ rw e (
              finish_game-Inv g s candidate points there v moved,
              (unfold finish_game take_turn in refl),
              (unfold finish_game take_turn in refl),
              (unfold finish_game take_turn in tells),
              (unfold finish_game take_turn in terminal ∙ done),
            )
            | inr (goes_on, e) ↦ rw e (
              take_turn-Inv g s candidate phase there v moved goes_on,
              (unfold take_turn in refl),
              (unfold take_turn in refl),
              (unfold take_turn in tells),
              (unfold take_turn in terminal ∙ goes_on ∙ sym runs),
            )
          ])
    ]

Stage-history :
    (p : Phase) (g : Game) (history : List Command)
    → Stage p g
    → Stage p (record g { history = history })
Stage-history bidding g history v = v
Stage-history playing g history v = v
Stage-history no_landlord g history v = v
Stage-history completed g history v = v
Stage-history aborted g history v = v

with_history-Kept :
    (g : Game) (c : Command) (p : Game × Result Error Outcome)
    → Kept g g.history p
    → Kept g (g.history ++ c ∷ []) (with_history c p)
unfolding with_history
with_history-Kept g c (h, err e) k = k
with_history-Kept g c (h, ok o) (keeps, version, history, told, ends) = (
  record {
    stage = Stage-history h.phase h (h.history ++ c ∷ []) keeps.stage;
    cards = keeps.cards;
    extra = keeps.extra;
  },
  version,
  ap (λ l. l ++ c ∷ []) history,
  told,
  ends,
)

is_playing-eq : (p : Phase) → is_playing p ≡ true → p ≡ playing
is_playing-eq p h = ground arith

is_bidding-eq :
    (p : Phase)
    → (not (is_bidding p) && not (is_playing p)) ≡ false
    → is_playing p ≡ false
    → p ≡ bidding
is_bidding-eq p h n = ground arith

apply-Kept :
    (sha256 : Text → Text) (json : Json) (g : Game) (c : Command)
    → Inv g
    → Kept g (g.history ++ c ∷ []) (apply sha256 json g c)
unfolding apply
apply-Kept sha256 json g c v =
    let P = Kept g (g.history ++ c ∷ []) in
    if_intro P g.terminal _ _ (λ over. refl)
      λ runs.
        if_intro P _ _ _ (λ idle. refl)
          λ active.
            if_intro P (not (c.expected_version == g.version)) (g, err version_conflict) _
              (λ stale. refl)
              λ current. with_history-Kept g c _ (
                if_intro (Kept g g.history) (is_playing g.phase) _ _
                  (λ plays. apply_playing-Kept sha256 json g c (is_playing-eq g.phase plays) runs v)
                  (λ bids.
                    apply_score-Kept g c (decode_bid json c.payload)
                      (is_bidding-eq g.phase active bids) runs v))

-- Whatever command is given to a live hand that keeps its invariant, the game that is left, after
-- an accepted command and after a refused one, keeps it: the state fits its phase, and every card
-- of the deck stands exactly once in a hand, on the table or face down.
pub apply_keeps :
    (sha256 : Text → Text) (json : Json) (g : Game) (c : Command)
    → Inv g
    → Inv (apply sha256 json g c).0
apply_keeps sha256 json g c v = keeps_of (apply sha256 json g c) (apply-Kept sha256 json g c v)
  where
    keeps_of : (p : Game × Result Error Outcome) → Kept g (g.history ++ c ∷ []) p → Inv p.0
    keeps_of (h, err e) k = subst Inv (sym k) v
    keeps_of (h, ok o) k = k.0

-- If a live hand that keeps its invariant refuses a command, the game is left as it was.
pub apply-unchanged :
    (sha256 : Text → Text) (json : Json) (g h : Game) (c : Command) (e : Error)
    → Inv g
    → apply sha256 json g c ≡ (h, err e)
    → h ≡ g
apply-unchanged sha256 json g h c e v refused =
    subst (Kept g (g.history ++ c ∷ [])) refused (apply-Kept sha256 json g c v)

-- If a live hand that keeps its invariant accepts a command, its version counts one more, wrapped
-- to 64 bits, its history ends with the command, and the outcome tells the new version and whether
-- the hand is over.
pub apply-counts :
    (sha256 : Text → Text) (json : Json) (g h : Game) (c : Command) (o : Outcome)
    → Inv g
    → apply sha256 json g c ≡ (h, ok o)
    → (h.version ≡ wrap64 (g.version + 1))
      × (h.history ≡ g.history ++ c ∷ [])
      × (o.version ≡ h.version)
      × (o.terminal ≡ h.terminal)
apply-counts sha256 json g h c o v accepted =
    let (keeps, version, history, told, ends) =
      subst (Kept g (g.history ++ c ∷ [])) accepted (apply-Kept sha256 json g c v) in
    (version, history, told, ends)
