-- ===== src/Carddeck/Transcript.antt =====
-- server/business/doudizhu/domain/carddeck/transcript.go, and `Shuffle` of shuffle.go, which it calls.
pub mod Laws
pub mod Decode
pub mod Parsed
use awesome_zero_platform.Base.{
  ℕ, zero, suc, ◌+◌, Bool, true, false, not, ◌&&◌, ◌||◌, List, [], ◌∷◌, ◌++◌, Option, none, some,
  Result, ok, err, ◌>>=◌, ◌>>◌, reject, ltb, ◌==◌, if◌then◌else◌, length,
}
use awesome_zero_platform.Base.Text.{Text, codes, text_eq}
use awesome_zero_platform.Base.Trio.{Trio}
use awesome_zero_platform.Carddeck
use awesome_zero_platform.Carddeck.{
  invalid_argument, verification_failed, unsupported_version, canonical_deck, validate_deck,
  deck_size,
}
use awesome_zero_platform.Carddeck.Deal.{
  DealResult, deal, validate_deal, domain_bytes, text_bytes, u16_bytes, hand_bytes, zero_digest,
}
use awesome_zero_platform.Carddeck.Shuffle.{shuffle_deck}
use awesome_zero_platform.Carddeck.Seed.{
  validate_text, all_zero, ShuffleInput, derive_seed, server_commitment, client_commitment,
}
use awesome_zero_platform.Carddeck.Stream.{new_stream, next_word}

-- An error of the package, or the mark that a draw has used up its fuel.
pub data Fault : Type 0 where
  card_error : Carddeck.Error → Fault
  out_of_fuel : Fault

abbrev pub lifted : {A : Type 0} → Result Carddeck.Error A → Result Fault A
lifted (ok a) = ok a
lifted (err e) = err (card_error e)

abbrev pub drawn_or : {A : Type 0} → Result Carddeck.Error (Option A) → Result Fault A
drawn_or (ok none) = err out_of_fuel
drawn_or (ok (some a)) = ok a
drawn_or (err e) = err (card_error e)

pub record ShuffleResult : Type 0 where
  pub seed : Text
  pub deck : List ℕ
  pub deck_digest : Text

pub record Versions : Type 0 where
  pub card : Text
  pub deck : Text
  pub seed : Text
  pub random : Text
  pub shuffle : Text
  pub deal : Text
  pub transcript : Text

-- `CurrentAlgorithmVersions`.
unfoldable pub current_versions : Versions
current_versions = record {
  card = codes "fair-doudizhu-card-v1";
  deck = codes "fair-doudizhu-deck-v1";
  seed = codes "fair-doudizhu-shuffle-seed-v1";
  random = codes "fair-doudizhu-hmac-counter-v1";
  shuffle = codes "fair-doudizhu-fisher-yates-v1";
  deal = codes "fair-doudizhu-deal-v1";
  transcript = codes "fair-doudizhu-fairness-transcript-v1";
}

unfoldable pub versions_eq : Versions → Versions → Bool
versions_eq v w =
    text_eq v.card w.card
    && text_eq v.deck w.deck
    && text_eq v.seed w.seed
    && text_eq v.random w.random
    && text_eq v.shuffle w.shuffle
    && text_eq v.deal w.deal
    && text_eq v.transcript w.transcript

pub record Contribution : Type 0 where
  pub seat : ℕ
  pub digest : Text
  pub commitment : Text

pub record Beacon : Type 0 where
  pub provider : Text
  pub round : Text
  pub digest : Text
  pub proof_ref : Text

pub record RevealKey : Type 0 where
  pub key_id : Text
  pub public_key_sha256 : Text

pub record TranscriptInput : Type 0 where
  pub hand_id : Text
  pub server_seed : Text
  pub server_commitment : Text
  pub contributions : Trio Contribution
  pub beacon : Beacon
  pub reveal_key : RevealKey

-- The fields that a transcript shares with its input stand in `input`.
pub record Transcript : Type 0 where
  pub versions : Versions
  pub input : TranscriptInput
  pub shuffle_seed_digest : Text
  pub deck : List ℕ
  pub deck_digest : Text
  pub dealt : DealResult
  pub deal_digest : Text
  pub transcript_digest : Text

-- The bytes that `Transcript.CanonicalBytes` writes for one contribution.
abbrev contribution_bytes : Contribution → Text
contribution_bytes c = c.seat ∷ (c.digest ++ c.commitment)

unfoldable pub versions_bytes : Versions → Text
versions_bytes v =
    text_bytes v.card
    ++ (text_bytes v.deck
        ++ (text_bytes v.seed
            ++ (text_bytes v.random
                ++ (text_bytes v.shuffle ++ (text_bytes v.deal ++ text_bytes v.transcript)))))

unfoldable pub transcript_input_bytes : TranscriptInput → Text
transcript_input_bytes i =
    text_bytes i.hand_id
    ++ (i.server_seed
        ++ (i.server_commitment
            ++ (contribution_bytes i.contributions.first
                ++ (contribution_bytes i.contributions.second
                    ++ (contribution_bytes i.contributions.third
                        ++ (text_bytes i.beacon.provider
                            ++ (text_bytes i.beacon.round
                                ++ (i.beacon.digest
                                    ++ (text_bytes i.beacon.proof_ref
                                        ++ (text_bytes i.reveal_key.key_id
                                            ++ i.reveal_key.public_key_sha256))))))))))

unfoldable pub transcript_bytes : Transcript → Text
unfolding versions_bytes transcript_input_bytes
transcript_bytes t =
    domain_bytes (codes "fair-doudizhu/transcript-canonical/v1")
    ++ (versions_bytes t.versions
        ++ (transcript_input_bytes t.input
            ++ (t.shuffle_seed_digest
                ++ ((u16_bytes (length t.deck) ++ t.deck)
                    ++ (hand_bytes 1 t.dealt.hands.first
                        ++ (hand_bytes 2 t.dealt.hands.second
                            ++ (hand_bytes 3 t.dealt.hands.third
                                ++ ((u16_bytes (length t.dealt.landlord_cards)
                                      ++ t.dealt.landlord_cards)
                                    ++ (t.deck_digest ++ t.deal_digest)))))))))

-- `equal32`.
abbrev pub equal32 : Text → Text → Bool
equal32 l r = length l == 32 && length r == 32 && text_eq l r

-- `!=` on arrays of cards.
unfoldable pub deal_eq : DealResult → DealResult → Bool
deal_eq d e =
    text_eq d.hands.first e.hands.first
    && text_eq d.hands.second e.hands.second
    && text_eq d.hands.third e.hands.third
    && text_eq d.landlord_cards e.landlord_cards

abbrev pub shuffle_input_of : TranscriptInput → ShuffleInput
shuffle_input_of input = record {
  hand_id = input.hand_id;
  server_seed = input.server_seed;
  contributions = record {
    first = input.contributions.first.digest;
    second = input.contributions.second.digest;
    third = input.contributions.third.digest;
  };
  beacon_provider = input.beacon.provider;
  beacon_round = input.beacon.round;
  beacon_digest = input.beacon.digest;
}

-- The transcript before its digest is set; Go's zero value stands in the digest's place.
unfoldable pub undigested : TranscriptInput → ShuffleResult → DealResult → Transcript
undigested input shuffled dealt = record {
  versions = current_versions;
  input = input;
  shuffle_seed_digest = shuffled.seed;
  deck = shuffled.deck;
  deck_digest = shuffled.deck_digest;
  dealt = dealt;
  deal_digest = dealt.digest;
  transcript_digest = zero_digest;
}

-- The comparisons of `VerifyTranscript` with the transcript that it expects.
unfoldable pub same_transcript : Transcript → Transcript → Result Carddeck.Error (Unit {0})
same_transcript expected t = do
  reject (not (equal32 expected.shuffle_seed_digest t.shuffle_seed_digest)) verification_failed
  reject (not (text_eq expected.deck t.deck)) verification_failed
  reject (not (equal32 expected.deck_digest t.deck_digest)) verification_failed
  reject (not (deal_eq expected.dealt t.dealt)) verification_failed
  reject (not (equal32 expected.deal_digest t.deal_digest)) verification_failed
  reject (not (equal32 expected.transcript_digest t.transcript_digest)) verification_failed

module _ (sha256 : Text → Text) where
  -- `Deck.Digest` of card.go.
  unfoldable pub digest_deck : List ℕ → Result Carddeck.Error Text
  digest_deck deck = do
    validate_deck deck
    ok (
        sha256 (
          domain_bytes (codes "fair-doudizhu/deck-digest/v1")
          ++ (text_bytes (codes "fair-doudizhu-deck-v1") ++ (u16_bytes deck_size ++ deck))))

  -- One round of the loop of `validateTranscriptInput`.
  unfoldable pub validate_contribution : Text → ℕ → Contribution → Result Carddeck.Error (Unit {0})
  validate_contribution hand_id expected_seat c = do
    reject (not (c.seat == expected_seat)) invalid_argument
    commitment ← client_commitment sha256 hand_id expected_seat c.digest
    reject (not (equal32 commitment c.commitment)) verification_failed

  -- `validateTranscriptInput`.
  unfoldable pub validate_transcript_input : TranscriptInput → Result Carddeck.Error (Unit {0})
  validate_transcript_input input = do
    validate_text input.hand_id false
    commitment ← server_commitment sha256 input.hand_id input.server_seed
    reject (not (equal32 commitment input.server_commitment)) verification_failed
    validate_contribution input.hand_id 1 input.contributions.first
    validate_contribution input.hand_id 2 input.contributions.second
    validate_contribution input.hand_id 3 input.contributions.third
    validate_text input.beacon.provider false
    validate_text input.beacon.round false
    reject (all_zero input.beacon.digest) invalid_argument
    validate_text input.beacon.proof_ref false
    validate_text input.reveal_key.key_id false
    reject (all_zero input.reveal_key.public_key_sha256) invalid_argument

  -- `Transcript.CanonicalBytes`.
  unfoldable pub canonical_bytes : Transcript → Result Carddeck.Error Text
  canonical_bytes t = do
    reject (not (versions_eq t.versions current_versions)) unsupported_version
    validate_transcript_input t.input
    validate_deck t.deck
    validate_deal sha256 t.dealt
    ok (transcript_bytes t)

  -- `digestTranscript`.
  unfoldable pub digest_transcript : Text → Text
  digest_transcript canonical =
      sha256 (domain_bytes (codes "fair-doudizhu/transcript-digest/v1") ++ text_bytes canonical)

module _ (sha256 : Text → Text) (mac : Text → Text → Text) (fuel : ℕ) where
  -- `Shuffle`.
  unfoldable pub shuffle : ShuffleInput → Result Fault ShuffleResult
  shuffle input = do
    seed ← lifted (derive_seed sha256 input)
    stream ← lifted (new_stream seed)
    (deck, _) ← drawn_or (shuffle_deck (next_word mac) fuel canonical_deck stream)
    digest ← lifted (digest_deck sha256 deck)
    ok (record { seed = seed; deck = deck; deck_digest = digest })

  -- `BuildTranscript`.
  unfoldable pub build_transcript : TranscriptInput → Result Fault Transcript
  build_transcript input = do
    lifted (validate_transcript_input sha256 input)
    shuffled ← shuffle (shuffle_input_of input)
    dealt ← lifted (deal sha256 shuffled.deck)
    let t : Transcript = undigested input shuffled dealt
    canonical ← lifted (canonical_bytes sha256 t)
    ok (record t { transcript_digest = digest_transcript sha256 canonical })

  -- `VerifyTranscript`.
  unfoldable pub verify_transcript : Transcript → Result Fault (Unit {0})
  verify_transcript t = do
    lifted (reject (not (versions_eq t.versions current_versions)) unsupported_version)
    expected ← build_transcript t.input
    lifted (same_transcript expected t)
