-- ===== src/Carddeck.antt =====
-- server/business/doudizhu/domain/carddeck/card.go: cards, their ranks and codes, and decks.
pub mod Codes
pub mod Deck
pub mod Deal
pub mod Random
pub mod Shuffle
pub mod Seed
pub mod Stream
pub mod Transcript
use awesome_zero_platform.Base.{
  ℕ, zero, suc, ◌+◌, ◌-◌, ◌*◌, ◌/◌, ◌%◌, Bool, true, false, not, ◌||◌, List, [], ◌∷◌, Option, none,
  some, Result, ok, err, ◌>>=◌, ◌>>◌, reject, ltb, leb, ◌==◌, if◌then◌else◌, length, get_or, set,
  replicate, drop,
}
use awesome_zero_platform.Base.Text.{Text, codes, text_eq}

-- errors.go.
pub data Error : Type 0 where
  invalid_argument verification_failed unsupported_version : Error

-- `Card` is a `uint8`, and so are `Suit` and `Rank`.
abbrev pub deck_size : ℕ
deck_size = 54

abbrev pub cards_per_seat : ℕ
cards_per_seat = 17

abbrev pub landlord_card_count : ℕ
landlord_card_count = 3

abbrev pub small_joker : ℕ
small_joker = 52

abbrev pub big_joker : ℕ
big_joker = 53

abbrev pub rank_three : ℕ
rank_three = 0

abbrev pub rank_ace : ℕ
rank_ace = 11

abbrev pub rank_two : ℕ
rank_two = 12

abbrev pub rank_small_joker : ℕ
rank_small_joker = 13

abbrev pub rank_big_joker : ℕ
rank_big_joker = 14

abbrev pub rank_codes : List Text
rank_codes =
    codes "3"
    ∷ codes "4"
    ∷ codes "5"
    ∷ codes "6"
    ∷ codes "7"
    ∷ codes "8"
    ∷ codes "9"
    ∷ codes "10"
    ∷ codes "J"
    ∷ codes "Q"
    ∷ codes "K"
    ∷ codes "A"
    ∷ codes "2"
    ∷ []

abbrev pub suit_codes : List ℕ
suit_codes = b'C' ∷ b'D' ∷ b'H' ∷ b'S' ∷ []

-- `Card.Valid`.
abbrev pub card_valid : ℕ → Bool
card_valid c = ltb c deck_size

abbrev pub is_joker : ℕ → Bool
is_joker c = c == small_joker || c == big_joker

-- `Card.Rank`.
unfoldable pub rank : ℕ → Result Error ℕ
rank c =
    if not (card_valid c)
    then err invalid_argument
    else if c == small_joker
    then ok rank_small_joker
    else if c == big_joker
    then ok rank_big_joker
    else ok (c / 4)

-- `Card.Suit`.
unfoldable pub suit : ℕ → Result Error ℕ
suit c = if not (card_valid c) || is_joker c then err invalid_argument else ok (c % 4)

-- Go drops the errors of `Rank` and `Suit` here, and goes on with their zero values.
abbrev or_zero : Result Error ℕ → ℕ
or_zero (ok n) = n
or_zero (err e) = 0

-- `Card.Code`.
unfoldable pub card_code : ℕ → Result Error Text
unfolding rank suit
card_code c =
    if not (card_valid c)
    then err invalid_argument
    else if c == small_joker
    then ok (codes "XJ")
    else if c == big_joker
    then ok (codes "YJ")
    else ok (get_or suit_codes (or_zero (suit c)) 0 ∷ get_or rank_codes (or_zero (rank c)) [])

-- The loop over `rankCodes`, from a given index on.
rank_index : ℕ → List Text → Text → Option ℕ
rank_index i [] text = none
rank_index i (c ∷ rest) text = elim (text_eq text c) [
  | true ↦ some i
  | false ↦ rank_index (suc i) rest text
]

parse_suit : ℕ → Result Error ℕ
parse_suit b =
    if b == b'C'
    then ok 0
    else if b == b'D'
    then ok 1
    else if b == b'H'
    then ok 2
    else if b == b'S'
    then ok 3
    else err invalid_argument

parse_rank : ℕ → Text → Result Error ℕ
unfolding rank_index
parse_rank suit text = elim (rank_index 0 rank_codes text) [
  | none ↦ err invalid_argument
  | some r ↦ ok (r * 4 + suit)
]

-- `ParseCard`.
unfoldable pub parse_card : Text → Result Error ℕ
unfolding text_eq parse_suit parse_rank
parse_card code =
    if text_eq code (codes "XJ")
    then ok small_joker
    else if text_eq code (codes "YJ")
    then ok big_joker
    else (do
      reject (ltb (length code) 2 || ltb 3 (length code)) invalid_argument
      suit ← parse_suit (get_or code 0 0)
      parse_rank suit (drop 1 code))

tabulate_from : ℕ → ℕ → List ℕ
tabulate_from i zero = []
tabulate_from i (suc n) = i ∷ tabulate_from (suc i) n

-- `CanonicalDeck`.
unfoldable pub canonical_deck : List ℕ
unfolding tabulate_from
canonical_deck = tabulate_from 0 deck_size

-- The loop of `Deck.Validate` over the cards that are left, with the cards seen so far.
unfoldable pub validate_from : List Bool → List ℕ → Result Error (Unit {0})
validate_from seen [] = ok tt
validate_from seen (c ∷ rest) =
    let later = validate_from (set seen c true) rest in
    do
      reject (not (card_valid c)) invalid_argument
      reject (get_or seen c false) invalid_argument
      later

-- `Deck.Validate`. A deck is an array of 54 cards, here a list.
unfoldable pub validate_deck : List ℕ → Result Error (Unit {0})
unfolding validate_from
validate_deck d = validate_from (replicate deck_size false) d
