-- ===== src/LiveHand/Conserved.antt =====
-- server/business/doudizhu/domain/livehand/game.go: no step of a live hand makes or loses a card.
use awesome_zero_platform.Base.{
  ℕ, ◌+◌, ◌≤◌, ◌≡◌, inl, inr, List, [], ◌∷◌, ◌++◌, Option, none, some, ok, arith, ◌==◌,
  if◌then◌else◌, Bool-cases, Option-cases, ok-injective,
}
use awesome_zero_platform.Base.Trio.{Trio, at_seat, set_seat}
use awesome_zero_platform.Carddeck.Deck.{count}
use awesome_zero_platform.Playing
use awesome_zero_platform.Playing.{Action, write_play, write_pass}
use awesome_zero_platform.Settlement.Played.{cards_of, count-append}
use awesome_zero_platform.LiveHand.{Game}
use awesome_zero_platform.LiveHand.Cards.{remove_card, remove_held_cards}

remove_card-count :
    (card : ℕ) (hand rest : List ℕ) (x : ℕ)
    → remove_card card hand ≡ some rest
    → count x hand ≡ count x rest + (if card == x then 1 else 0)
unfolding remove_card
remove_card-count card [] rest x h = cc
remove_card-count card (held ∷ hand) rest x h = elim (Bool-cases (held == card)) [
  | inl found ↦ ground arith
  | inr differs ↦ elim (Option-cases (remove_card card hand)) [
    | inl e ↦ ground arith
    | inr (later, e) ↦ ground (arith, remove_card-count card hand later x e)
  ]
]

-- The cards that leave a hand and those that stay are the cards of the hand.
pub remove_held_cards-count :
    (hand played rest : List ℕ) (x : ℕ)
    → remove_held_cards hand played ≡ ok rest
    → count x hand ≡ count x rest + count x played
unfolding remove_held_cards
remove_held_cards-count hand [] rest x h = rw (ok-injective h) (omega arith)
remove_held_cards-count hand (card ∷ played) rest x h =
    elim (Option-cases (remove_card card hand)) [
      | inl e ↦ cc (rw e at h)
      | inr (remaining, e) ↦ omega (
        arith,
        remove_card-count card hand remaining x e,
        remove_held_cards-count remaining played rest x (rw e at h),
      )
    ]

-- How often a card stands in the three hands.
abbrev pub in_hands : Trio (List ℕ) → ℕ → ℕ
in_hands hands x = count x hands.first + count x hands.second + count x hands.third

pub in_hands-set_seat :
    (hands : Trio (List ℕ)) (seat : ℕ) (cards : List ℕ) (x : ℕ)
    → 1 ≤ seat
    → seat ≤ 3
    → in_hands (set_seat hands seat cards) x + count x (at_seat hands seat)
      ≡ in_hands hands x + count x cards
in_hands-set_seat hands seat cards x lo hi = ground arith

pub cards_of-snoc :
    (history : List Action) (a : Action) (x : ℕ)
    → count x (cards_of (history ++ a ∷ [])) ≡ count x (cards_of history) + count x a.cards
cards_of-snoc [] a x = omega (arith, count-append x a.cards [])
cards_of-snoc (b ∷ history) a x = omega (
  arith,
  count-append x b.cards (cards_of (history ++ a ∷ [])),
  count-append x b.cards (cards_of history),
  cards_of-snoc history a x,
)

-- How often a card stands among those that were played.
abbrev pub in_play : Option Playing.State → ℕ → ℕ
in_play none x = 0
in_play (some s) x = count x (cards_of s.history)

-- How often a card stands in the game: in a hand, on the table, or face down before a landlord
-- takes the cards.
abbrev pub in_game : Game → ℕ → ℕ
in_game g x =
    in_hands g.current x
    + in_play g.play x
    + (if g.landlord_seat == 0 then count x g.setup.landlord_cards else 0)
