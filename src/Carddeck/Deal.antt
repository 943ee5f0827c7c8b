-- ===== src/Carddeck/Deal.antt =====
-- server/business/doudizhu/domain/carddeck/deal.go: dealing a deck to three hands of 17 cards and three
-- landlord cards. SHA-256 is the parameter `sha256`, over the bytes that the code writes.
pub mod Laws
pub mod Counts
use awesome_zero_platform.Base.{
  ℕ, zero, suc, ◌+◌, ◌-◌, ◌*◌, ◌/◌, ◌%◌, Bool, true, false, not, ◌&&◌, ◌||◌, List, [], ◌∷◌, ◌++◌,
  map, Result, ok, err, ◌>>=◌, ◌>>◌, reject, ltb, if◌then◌else◌, length, get_or,
}
use awesome_zero_platform.Base.Trio.{Trio, at_seat}
use awesome_zero_platform.Base.Text.{Text, codes, text_eq}
use awesome_zero_platform.Carddeck.{
  Error, invalid_argument, verification_failed, deck_size, cards_per_seat, landlord_card_count,
  validate_deck,
}

pub record DealResult : Type 0 where
  pub hands : Trio (List ℕ)
  pub landlord_cards : List ℕ
  pub digest : Text

-- An array of `n` entries, given by its index, from index `i` on.
unfoldable pub tabulate : ℕ → ℕ → (ℕ → ℕ) → List ℕ
tabulate i zero f = []
tabulate i (suc n) f = f i ∷ tabulate (suc i) n f

-- `deck[round*3+seat]` for each round; here the seat is 0, 1 or 2.
abbrev pub hand_of : List ℕ → ℕ → List ℕ
hand_of deck seat = tabulate 0 cards_per_seat (λ round. get_or deck (round * 3 + seat) 0)

-- `ReconstructDeck`: entry `i` comes from round `i / 3` of seat `i % 3`, the last three from the
-- landlord's cards.
unfoldable pub reconstruct_deck : DealResult → List ℕ
unfolding tabulate
reconstruct_deck r = tabulate 0 deck_size λ i.
    if ltb i (deck_size - landlord_card_count)
    then get_or (at_seat r.hands (i % 3 + 1)) (i / 3) 0
    else get_or r.landlord_cards (i - (deck_size - landlord_card_count)) 0

-- encoding.go: big-endian lengths, a domain with a zero byte, a text with its length.
abbrev pub u16_bytes : ℕ → Text
u16_bytes n = (n / 256 % 256) ∷ (n % 256) ∷ []

abbrev pub u32_bytes : ℕ → Text
u32_bytes n = (n / 16777216 % 256) ∷ (n / 65536 % 256) ∷ (n / 256 % 256) ∷ (n % 256) ∷ []

abbrev pub domain_bytes : Text → Text
domain_bytes domain = domain ++ 0 ∷ []

abbrev pub text_bytes : Text → Text
text_bytes text = u32_bytes (length text) ++ text

abbrev pub hand_bytes : ℕ → List ℕ → Text
hand_bytes seat hand = seat ∷ (u16_bytes (length hand) ++ hand)

-- What `computeDigest` writes into the hash.
unfoldable pub deal_bytes : DealResult → Text
deal_bytes r =
    domain_bytes (codes "fair-doudizhu/deal-digest/v1")
    ++ (text_bytes (codes "fair-doudizhu-deal-v1")
        ++ (hand_bytes 1 r.hands.first
            ++ (hand_bytes 2 r.hands.second
                ++ (hand_bytes 3 r.hands.third
                    ++ (u16_bytes (length r.landlord_cards) ++ r.landlord_cards)))))

abbrev pub zero_digest : Text
zero_digest = tabulate 0 32 (λ _. 0)

module _ (sha256 : Text → Text) where
  -- `computeDigest`.
  unfoldable pub compute_digest : DealResult → Result Error Text
  unfolding deal_bytes
  compute_digest r = do validate_deck (reconstruct_deck r); ok (sha256 (deal_bytes r))

  -- `Deal`.
  unfoldable pub deal : List ℕ → Result Error DealResult
  deal deck = do
    validate_deck deck
    let dealt : DealResult = record {
      hands = record { first = hand_of deck 0; second = hand_of deck 1; third = hand_of deck 2 };
      landlord_cards =
          tabulate (deck_size - landlord_card_count) landlord_card_count (λ i. get_or deck i 0);
      digest = zero_digest;
    }
    digest ← compute_digest dealt
    ok (record dealt { digest = digest })

  -- `DealResult.Validate`.
  unfoldable pub validate_deal : DealResult → Result Error (Unit {0})
  validate_deal r = do
    validate_deck (reconstruct_deck r)
    digest ← compute_digest r
    reject (not (text_eq r.digest zero_digest) && not (text_eq r.digest digest)) verification_failed
