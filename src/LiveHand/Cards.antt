-- ===== src/LiveHand/Cards.antt =====
-- server/business/doudizhu/domain/livehand/game.go: the cards in a hand.
use awesome_zero_platform.Base.{
  ℕ, List, [], ◌∷◌, Option, none, some, Result, ok, err, ◌>>=◌, ◌==◌, if◌then◌else◌,
}
use awesome_zero_platform.Base.Text.{Text}
use awesome_zero_platform.Carddeck.{card_code}
use awesome_zero_platform.Carddeck
use awesome_zero_platform.LiveHand.{Error, card_not_held}

abbrev kept : ℕ → Option (List ℕ) → Option (List ℕ)
kept held none = none
kept held (some rest) = some (held ∷ rest)

-- The inner loop of `removeHeldCards`, with the removal of the card found.
unfoldable pub remove_card : ℕ → List ℕ → Option (List ℕ)
remove_card card [] = none
remove_card card (held ∷ rest) =
    if held == card then some rest else kept held (remove_card card rest)

abbrev or_not_held : Option (List ℕ) → Result Error (List ℕ)
or_not_held none = err card_not_held
or_not_held (some rest) = ok rest

-- `removeHeldCards`.
unfoldable pub remove_held_cards : List ℕ → List ℕ → Result Error (List ℕ)
unfolding remove_card
remove_held_cards hand [] = ok hand
remove_held_cards hand (card ∷ played) =
    or_not_held (remove_card card hand) >>= λ remaining. remove_held_cards remaining played

-- `cardCodes`.
unfoldable pub card_codes : List ℕ → Result Carddeck.Error (List Text)
card_codes [] = ok []
card_codes (card ∷ rest) =
    let later = card_codes rest in do code ← card_code card; codes ← later; ok (code ∷ codes)
