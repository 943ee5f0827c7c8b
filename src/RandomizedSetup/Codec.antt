-- ===== src/RandomizedSetup/Codec.antt =====
-- server/business/doudizhu/domain/randomizedsetup/module.go: the bytes of a setup.
use awesome_zero_platform.Base.{
  ℕ, zero, suc, ◌+◌, ◌*◌, ◌-◌, Bool, not, ◌&&◌, ◌||◌, List, [], ◌∷◌, ◌++◌, Result, ok, err, ◌>>=◌,
  ◌>>◌, reject, ltb, ◌==◌, length, take, drop, replicate,
}
use awesome_zero_platform.Base.Text.{Text, codes, text_eq, is_empty}
use awesome_zero_platform.Carddeck
use awesome_zero_platform.Carddeck.{validate_deck, deck_size, cards_per_seat, landlord_card_count}
use awesome_zero_platform.Carddeck.Deal.{DealResult, deal, u16_bytes}
use awesome_zero_platform.Carddeck.Transcript.{digest_deck}
use awesome_zero_platform.RandomizedSetup.{
  Setup, Error, verification_failed, unsupported_version, of_cards,
}

abbrev pub from_cards : {A : Type 0} → Result Carddeck.Error A → Result Error A
from_cards (ok a) = ok a
from_cards (err e) = err (of_cards e)

-- `writeString`: the size is two bytes.
abbrev pub string_bytes : Text → Text
string_bytes value = u16_bytes (length value) ++ value

-- The list `versions` of `decodeSetup`, which `encodeSetup` writes in the same order.
abbrev pub versions : List Text
versions =
    codes "DDZSETUP1"
    ∷ codes "fair-doudizhu-card-v1"
    ∷ codes "fair-doudizhu-deck-v1"
    ∷ codes "fair-doudizhu-shuffle-seed-v1"
    ∷ codes "fair-doudizhu-hmac-counter-v1"
    ∷ codes "fair-doudizhu-fisher-yates-v1"
    ∷ codes "fair-doudizhu-deal-v1"
    ∷ []

unfoldable pub strings_bytes : List Text → Text
strings_bytes [] = []
strings_bytes (v ∷ rest) = string_bytes v ++ strings_bytes rest

-- What `encodeSetup` writes.
unfoldable pub setup_bytes : Setup → Text
setup_bytes s =
    s.shuffle_seed
    ++ (s.deck_digest
        ++ (s.deck
            ++ (s.deal_digest
                ++ (s.hands.first ++ (s.hands.second ++ (s.hands.third ++ s.landlord_cards))))))

abbrev pub matches : DealResult → Setup → Bool
matches r s =
    text_eq r.hands.first s.hands.first
    && text_eq r.hands.second s.hands.second
    && text_eq r.hands.third s.hands.third
    && text_eq r.landlord_cards s.landlord_cards
    && text_eq r.digest s.deal_digest

-- A value that was read, and the bytes after it.
abbrev Read : Type 0
Read = Text × Text

-- `reader.Read` into an array of `n` bytes, `n` positive: an error at the end of the bytes only; an
-- array that is not filled keeps its zero bytes.
unfoldable pub read_array : ℕ → Text → Result Error Read
read_array n bytes = do
  reject (is_empty bytes) verification_failed
  ok (take n bytes ++ replicate (n - length (take n bytes)) 0, drop n bytes)

-- A loop of `ReadByte`.
unfoldable pub read_bytes : ℕ → Text → Result Error Read
read_bytes zero bytes = ok ([], bytes)
read_bytes (suc n) [] = err verification_failed
read_bytes (suc n) (b ∷ bytes) =
    let later = read_bytes n bytes in do (rest, left) ← later; ok (b ∷ rest, left)

abbrev number_of : Text → ℕ
number_of (high ∷ low ∷ rest) = high * 256 + low
number_of _ = 0

-- `readString`.
unfoldable pub read_string : Text → Result Error Read
read_string bytes = do
  (size, left) ← read_array 2 bytes
  reject (number_of size == 0 || ltb 128 (number_of size) || ltb (length left) (number_of size))
      verification_failed
  read_array (number_of size) left

-- The loop over `versions`.
unfoldable pub read_versions : List Text → Text → Result Error Text
read_versions [] bytes = ok bytes
read_versions (expected ∷ rest) bytes = do
  (actual, left) ← read_string bytes
  reject (not (text_eq actual expected)) unsupported_version
  read_versions rest left

-- The reads of `decodeSetup` after the versions.
unfoldable pub read_setup : Text → Result Error Setup
read_setup bytes = do
  (shuffle_seed, bytes1) ← read_array 32 bytes
  (deck_digest, bytes2) ← read_array 32 bytes1
  (deck, bytes3) ← read_bytes deck_size bytes2
  (deal_digest, bytes4) ← read_array 32 bytes3
  (first, bytes5) ← read_bytes cards_per_seat bytes4
  (second, bytes6) ← read_bytes cards_per_seat bytes5
  (third, bytes7) ← read_bytes cards_per_seat bytes6
  (landlord_cards, bytes8) ← read_bytes landlord_card_count bytes7
  reject (not (length bytes8 == 0)) verification_failed
  ok (record {
    shuffle_seed = shuffle_seed;
    deck = deck;
    deck_digest = deck_digest;
    hands = record { first = first; second = second; third = third };
    landlord_cards = landlord_cards;
    deal_digest = deal_digest;
  })

module _ (sha256 : Text → Text) where
  -- `encodeSetup`.
  unfoldable pub encode_setup : Setup → Result Error Text
  encode_setup s = do
    from_cards (validate_deck s.deck)
    digest ← from_cards (digest_deck sha256 s.deck)
    reject (not (text_eq digest s.deck_digest)) verification_failed
    dealt ← from_cards (deal sha256 s.deck)
    reject (not (matches dealt s)) verification_failed
    ok (strings_bytes versions ++ setup_bytes s)

  -- `decodeSetup`.
  unfoldable pub decode_setup : Text → Result Error Setup
  decode_setup payload = do
    left ← read_versions versions payload
    s ← read_setup left
    encoded ← encode_setup s
    ok s
