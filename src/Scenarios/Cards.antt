-- ===== src/Scenarios/Cards.antt =====
-- Decks, shuffles and deals of server/business/doudizhu/domain/carddeck.

use awesome_zero_platform.Base.{
  ℕ, ◌≤◌, ◌<◌, ◌≡◌, refl, ◌++◌, replicate, List, [], ◌∷◌, some, ok, ◌>>=◌, arith, length, ◌↔◌,
}
use awesome_zero_platform.Base.Text.{Text, codes, text_eq}
use awesome_zero_platform.Carddeck.{
  deck_size, card_code, parse_card, canonical_deck, validate_deck, validate_from,
}
use awesome_zero_platform.Carddeck.Codes.{parse_card-card_code, card_code-parse_card}
use awesome_zero_platform.Carddeck.Deck.{count, copies, validate_deck_iff}
use awesome_zero_platform.Carddeck.Random.{word_mod, large_words}
use awesome_zero_platform.Carddeck.Random.Fair.{count_from, answers, uniform_fair}
use awesome_zero_platform.Carddeck.Seed.{all_zero}
use awesome_zero_platform.Carddeck.Stream.{
  Stream, new_stream, fill, of_bytes, read_loop, read, next_word,
}
use awesome_zero_platform.Carddeck.Shuffle.{shuffle_deck}
use awesome_zero_platform.Carddeck.Shuffle.Laws.{shuffle_deck-permutes, shuffle_deck_total}
use awesome_zero_platform.Carddeck.Deal.{DealResult, deal, validate_deal, reconstruct_deck}
use awesome_zero_platform.Carddeck.Deal.Laws.{deal_lossless}

-- An authentication code of 32 bytes whose words are 0 and the largest word in turn.
abbrev every_other : Text → Text → Text
every_other key bytes = replicate 8 0 ++ (replicate 8 255 ++ (replicate 8 0 ++ replicate 8 255))

abbrev stream : Stream
stream = record { key = replicate 32 1; counter = 0; block = replicate 32 0; offset = 32 }

stream_ok : new_stream (replicate 32 1) ≡ ok stream
unfolding new_stream all_zero
stream_ok = refl

enough_words : large_words (next_word every_other) 106 deck_size stream ≡ 53
unfolding large_words next_word read read_loop fill of_bytes
enough_words = refl

abbrev toy_hash : Text → Text
toy_hash text = 7 ∷ text

canonical_valid : validate_deck canonical_deck ≡ ok tt
unfolding validate_deck validate_from canonical_deck
canonical_valid = refl

canonical_length : length canonical_deck ≡ deck_size
unfolding canonical_deck
canonical_length = refl

shuffled :
    (out : List ℕ) × (t : Stream) × (shuffle_deck (next_word every_other) 106 canonical_deck stream
      ≡ ok (some (out, t)))
shuffled =
    shuffle_deck_total (next_word every_other) 106 canonical_deck stream canonical_valid
      (omega (arith, enough_words))

shuffle_deck_total_example :
    (out : List ℕ) × (t : Stream) × (shuffle_deck (next_word every_other) 106 canonical_deck stream
      ≡ ok (some (out, t)))
shuffle_deck_total_example =
    shuffle_deck_total (next_word every_other) 106 canonical_deck stream canonical_valid
      (omega (arith, enough_words))

shuffle_deck-permutes_example :
    (validate_deck canonical_deck ≡ ok tt)
    × (validate_deck shuffled.0 ≡ ok tt)
    × (length shuffled.0 ≡ deck_size)
    × ((x : ℕ) → count x shuffled.0 ≡ count x canonical_deck)
shuffle_deck-permutes_example =
    shuffle_deck-permutes (next_word every_other) 106 canonical_deck stream shuffled.0 shuffled.1
      canonical_length shuffled.2

validate_deck_iff_example :
    (validate_deck (3 ∷ 53 ∷ []) ≡ ok tt) ↔ ((x : ℕ) → count x (3 ∷ 53 ∷ []) ≤ copies x)
validate_deck_iff_example = validate_deck_iff (3 ∷ 53 ∷ [])

deal_lossless_example :
    (r : DealResult) × (deal toy_hash canonical_deck ≡ ok r)
    × (validate_deal toy_hash r ≡ ok tt)
    × (reconstruct_deck r ≡ canonical_deck)
deal_lossless_example = deal_lossless toy_hash canonical_deck canonical_length canonical_valid

uniform_fair_example :
    (k : ℕ) × (0 < k) × ((n : ℕ) → n < 54 → count_from (answers 54 n) 0 word_mod ≡ k)
uniform_fair_example = uniform_fair 54 (omega arith) (omega arith)

parse_card-card_code_example : (card_code 51 >>= parse_card) ≡ ok 51
parse_card-card_code_example = parse_card-card_code 51 (omega arith)

ten_of_spades : parse_card (codes "S10") ≡ ok 31
unfolding parse_card text_eq
ten_of_spades = refl

card_code-parse_card_example : (31 < deck_size) × (card_code 31 ≡ ok (codes "S10"))
card_code-parse_card_example = card_code-parse_card (codes "S10") 31 ten_of_spades
