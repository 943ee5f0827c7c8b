-- ===== src/Carddeck/Transcript/Decode.antt =====
-- server/business/doudizhu/domain/carddeck/transcript_decode.go: reading the canonical bytes of a
-- transcript.
use awesome_zero_platform.Base.{
  ℕ, zero, suc, ◌+◌, ◌*◌, not, ◌||◌, List, [], ◌∷◌, ◌++◌, Result, ok, err, ◌>>=◌, ◌>>◌, reject, ltb,
  ◌==◌, if◌then◌else◌, length, take, drop,
}
use awesome_zero_platform.Base.Text.{Text, codes, text_eq, is_empty}
use awesome_zero_platform.Carddeck.{
  Error, invalid_argument, verification_failed, unsupported_version, deck_size, cards_per_seat,
  landlord_card_count,
}
use awesome_zero_platform.Carddeck.Transcript.{
  Transcript, TranscriptInput, Contribution, Versions, Fault, lifted, canonical_bytes,
  digest_transcript, verify_transcript,
}

-- A value that was read, and the bytes after it.
abbrev Read : Type 0 → Type 0
Read A = A × Text

-- `readFixed`, and the other calls of `io.ReadFull`: as many bytes as are wanted, or none.
unfoldable pub read_fixed : ℕ → Text → Result Error (Read Text)
read_fixed n bytes =
    if ltb (length bytes) n then err verification_failed else ok (take n bytes, drop n bytes)

-- `reader.ReadByte`.
unfoldable pub read_byte : Text → Result Error (Read ℕ)
read_byte [] = err verification_failed
read_byte (b ∷ bytes) = ok (b, bytes)

abbrev checked_domain : Text → Text → Result Error (Read Text)
checked_domain [] bytes = err verification_failed
checked_domain (b ∷ domain) bytes = ok (b ∷ domain, bytes)

-- The loop of `readCanonicalDomain`, for the number of bytes that it may still read.
unfoldable pub read_domain_from : ℕ → Text → Text → Result Error (Read Text)
read_domain_from zero domain bytes = err verification_failed
read_domain_from (suc left) domain [] = err verification_failed
read_domain_from (suc left) domain (b ∷ bytes) =
    let later = read_domain_from left (domain ++ b ∷ []) bytes in
    if b == 0 then checked_domain domain bytes else later

-- `readCanonicalDomain`: a domain has at most 128 bytes, and the loop runs once more.
unfoldable pub read_domain : Text → Result Error (Read Text)
unfolding read_domain_from
read_domain bytes = read_domain_from 129 [] bytes

-- A big-endian number.
abbrev number_from : ℕ → Text → ℕ
number_from acc [] = acc
number_from acc (b ∷ rest) = number_from (acc * 256 + b) rest

-- `readCanonicalString`.
unfoldable pub read_text : Text → Result Error (Read Text)
unfolding read_fixed
read_text bytes = do
  (size, left) ← read_fixed 4 bytes
  reject
      (ltb (number_from 0 size) 1
        || ltb 128 (number_from 0 size)
        || ltb (length left) (number_from 0 size))
      verification_failed
  read_fixed (number_from 0 size) left

-- `readCanonicalU16`.
unfoldable pub read_u16 : Text → Result Error (Read ℕ)
unfolding read_fixed
read_u16 bytes = do (size, left) ← read_fixed 2 bytes; ok (number_from 0 size, left)

-- `readCanonicalU16` and the check of the count.
unfoldable pub read_count : ℕ → Text → Result Error (Read (Unit {0}))
unfolding read_u16
read_count wanted bytes = do
  (count, left) ← read_u16 bytes
  reject (not (count == wanted)) verification_failed
  ok (tt, left)

-- A loop of `ReadByte` that fills an array of cards.
unfoldable pub read_cards : ℕ → Text → Result Error (Read (List ℕ))
unfolding read_byte
read_cards zero bytes = ok ([], bytes)
read_cards (suc n) bytes = do
  (card, left) ← read_byte bytes
  (cards, rest) ← read_cards n left
  ok (card ∷ cards, rest)

unfoldable pub read_contribution : Text → Result Error (Read Contribution)
unfolding read_byte read_fixed
read_contribution bytes = do
  (seat, bytes1) ← read_byte bytes
  (digest, bytes2) ← read_fixed 32 bytes1
  (commitment, bytes3) ← read_fixed 32 bytes2
  ok (record { seat = seat; digest = digest; commitment = commitment }, bytes3)

-- One round of the loop over the hands.
unfoldable pub read_hand : ℕ → Text → Result Error (Read (List ℕ))
unfolding read_byte read_count read_cards
read_hand seat bytes = do
  (actual, bytes1) ← read_byte bytes
  reject (not (actual == seat)) verification_failed
  (_, bytes2) ← read_count cards_per_seat bytes1
  read_cards cards_per_seat bytes2

unfoldable pub read_versions : Text → Result Error (Read Versions)
unfolding read_text
read_versions bytes = do
  (card, bytes1) ← read_text bytes
  (deck, bytes2) ← read_text bytes1
  (seed, bytes3) ← read_text bytes2
  (random, bytes4) ← read_text bytes3
  (shuffle, bytes5) ← read_text bytes4
  (deal, bytes6) ← read_text bytes5
  (transcript, bytes7) ← read_text bytes6
  ok (
    record {
      card = card;
      deck = deck;
      seed = seed;
      random = random;
      shuffle = shuffle;
      deal = deal;
      transcript = transcript;
    },
    bytes7,
  )

unfoldable pub read_input : Text → Result Error (Read TranscriptInput)
unfolding read_text read_fixed read_contribution
read_input bytes = do
  (hand_id, bytes1) ← read_text bytes
  (server_seed, bytes2) ← read_fixed 32 bytes1
  (server_commitment, bytes3) ← read_fixed 32 bytes2
  (first, bytes4) ← read_contribution bytes3
  (second, bytes5) ← read_contribution bytes4
  (third, bytes6) ← read_contribution bytes5
  (provider, bytes7) ← read_text bytes6
  (round, bytes8) ← read_text bytes7
  (digest, bytes9) ← read_fixed 32 bytes8
  (proof_ref, bytes10) ← read_text bytes9
  (key_id, bytes11) ← read_text bytes10
  (public_key_sha256, bytes12) ← read_fixed 32 bytes11
  ok (
    record {
      hand_id = hand_id;
      server_seed = server_seed;
      server_commitment = server_commitment;
      contributions = record { first = first; second = second; third = third };
      beacon = record {
        provider = provider;
        round = round;
        digest = digest;
        proof_ref = proof_ref;
      };
      reveal_key = record { key_id = key_id; public_key_sha256 = public_key_sha256 };
    },
    bytes12,
  )

module _ (sha256 : Text → Text) where
  -- The reads of `ParseTranscript`, and the digest of what was read.
  unfoldable pub read_transcript : Text → Result Error Transcript
  unfolding read_domain read_versions read_input read_count read_cards read_hand read_fixed
  read_transcript canonical = do
    reject (is_empty canonical) invalid_argument
    (domain, bytes0) ← read_domain canonical
    reject (not (text_eq domain (codes "fair-doudizhu/transcript-canonical/v1")))
        unsupported_version
    (versions, bytes1) ← read_versions bytes0
    (input, bytes2) ← read_input bytes1
    (shuffle_seed_digest, bytes3) ← read_fixed 32 bytes2
    (_, bytes4) ← read_count deck_size bytes3
    (deck, bytes5) ← read_cards deck_size bytes4
    (first, bytes6) ← read_hand 1 bytes5
    (second, bytes7) ← read_hand 2 bytes6
    (third, bytes8) ← read_hand 3 bytes7
    (_, bytes9) ← read_count landlord_card_count bytes8
    (landlord_cards, bytes10) ← read_cards landlord_card_count bytes9
    (deck_digest, bytes11) ← read_fixed 32 bytes10
    (deal_digest, bytes12) ← read_fixed 32 bytes11
    reject (not (length bytes12 == 0)) verification_failed
    ok (record {
      versions = versions;
      input = input;
      shuffle_seed_digest = shuffle_seed_digest;
      deck = deck;
      deck_digest = deck_digest;
      dealt = record {
        hands = record { first = first; second = second; third = third };
        landlord_cards = landlord_cards;
        digest = deal_digest;
      };
      deal_digest = deal_digest;
      transcript_digest = digest_transcript sha256 canonical;
    })

module _ (sha256 : Text → Text) (mac : Text → Text → Text) (fuel : ℕ) where
  -- `ParseTranscript`.
  unfoldable pub parse_transcript : Text → Result Fault Transcript
  parse_transcript canonical = do
    t ← lifted (read_transcript sha256 canonical)
    verify_transcript sha256 mac fuel t
    round_trip ← lifted (canonical_bytes sha256 t)
    lifted (reject (not (text_eq round_trip canonical)) verification_failed)
    ok t
