-- ===== src/Scenarios/Live.antt =====
-- A live hand, from its setup to a new game.
use awesome_zero_platform.Base.{
  ℕ, ◌+◌, ◌≡◌, refl, Bool, true, List, [], ◌∷◌, ◌++◌, some, ok, replicate, length, arith,
}
use awesome_zero_platform.Base.Text.{Text, codes, text_eq, trim_space}
use awesome_zero_platform.Carddeck.{validate_deck, canonical_deck}
use awesome_zero_platform.Carddeck.Deal.{DealResult, deal, compute_digest, reconstruct_deck}
use awesome_zero_platform.Carddeck.Random.{uniform, threshold}
use awesome_zero_platform.Carddeck.Seed.{
  derive_seed, canonical_input, validate_input, validate_text, all_zero, server_commitment,
  client_commitment,
}
use awesome_zero_platform.Carddeck.Shuffle.{shuffle_deck, swap}
use awesome_zero_platform.Carddeck.Stream
use awesome_zero_platform.Carddeck.Stream.{next_word}
use awesome_zero_platform.Carddeck.Transcript.{
  Transcript, Versions, current_versions, versions_eq, shuffle, digest_deck, canonical_bytes,
  transcript_bytes, validate_transcript_input, validate_contribution,
}
use awesome_zero_platform.Hand.{dealing, client_reveal}
use awesome_zero_platform.Hand.Restore.{HandSnapshot, ContributionSnapshot}
use awesome_zero_platform.Gamecore.{
  Material, Artifact, validate_material, validate_identifier, validate_descriptor,
  validate_participants, validate_artifact, validate_payload, new_artifact, artifact_digest,
  descriptor_eq,
}
use awesome_zero_platform.RandomizedSetup.{Setup}
use awesome_zero_platform.RandomizedSetup.Codec.{versions, strings_bytes, setup_bytes, encode_setup}
use awesome_zero_platform.RandomizedSetup.Generate.{
  descriptor, artifact_version, shuffle_input, validate_commitments, validate_setup_material,
  generate_setup, decode_artifact, verify_setup,
}
use awesome_zero_platform.RandomizedSetup.RoundTrip.{Sized, decode_setup-encode_setup}
use awesome_zero_platform.LiveHand.Start.{transcript_input}
use awesome_zero_platform.Carddeck.Deal.{validate_deal}

-- Stand-ins for the functions outside the repository: every hash is 32 ones, every message
-- authentication code 32 times 255, every text is valid.
abbrev pub ones : Text
ones = replicate 32 1

abbrev pub test_hash : Text → Text
test_hash bytes = ones

abbrev pub test_mac : Text → Text → Text
test_mac key bytes = replicate 32 255

abbrev pub any_text : Text → Bool
any_text bytes = true

abbrev pub material : Material
material = record {
  descriptor = descriptor;
  instance_id = codes "hand-1";
  server_seed = replicate 32 7;
  server_commitment = ones;
  participants =
      record { position = 1; contribution = replicate 32 2; commitment = ones }
      ∷ record { position = 2; contribution = replicate 32 3; commitment = ones }
      ∷ record { position = 3; contribution = replicate 32 4; commitment = ones }
      ∷ [];
  beacon = record {
    provider = codes "drand";
    round = codes "9";
    digest = replicate 32 5;
    proof_ref = codes "proof";
  };
  reveal_key = record { key_id = codes "key"; public_key_sha256 = replicate 32 6 };
}

abbrev pub deck : List ℕ
deck =
    12 ∷ 8 ∷ 10 ∷ 9 ∷ 52 ∷ 36 ∷ 13 ∷ 7 ∷ 6 ∷ 22 ∷ 4 ∷ 3 ∷ 2 ∷ 48 ∷ 18 ∷ 33 ∷ 50 ∷ 19 ∷ 16 ∷ 20 ∷ 21
    ∷ 28 ∷ 45 ∷ 26 ∷ 25 ∷ 27 ∷ 46 ∷ 29 ∷ 23 ∷ 30 ∷ 32 ∷ 31 ∷ 34 ∷ 17 ∷ 37 ∷ 38 ∷ 11 ∷ 35 ∷ 39 ∷ 42
    ∷ 41 ∷ 43 ∷ 40 ∷ 44 ∷ 47 ∷ 5 ∷ 24 ∷ 49 ∷ 1 ∷ 53 ∷ 0 ∷ 15 ∷ 14 ∷ 51 ∷ []

abbrev pub dealt : DealResult
dealt = record {
  hands = record {
    first = 12 ∷ 9 ∷ 13 ∷ 22 ∷ 2 ∷ 33 ∷ 16 ∷ 28 ∷ 25 ∷ 29 ∷ 32 ∷ 17 ∷ 11 ∷ 42 ∷ 40 ∷ 5 ∷ 1 ∷ [];
    second = 8 ∷ 52 ∷ 7 ∷ 4 ∷ 48 ∷ 50 ∷ 20 ∷ 45 ∷ 27 ∷ 23 ∷ 31 ∷ 37 ∷ 35 ∷ 41 ∷ 44 ∷ 24 ∷ 53 ∷ [];
    third = 10 ∷ 36 ∷ 6 ∷ 3 ∷ 18 ∷ 19 ∷ 21 ∷ 26 ∷ 46 ∷ 30 ∷ 34 ∷ 38 ∷ 39 ∷ 43 ∷ 47 ∷ 49 ∷ 0 ∷ [];
  };
  landlord_cards = 15 ∷ 14 ∷ 51 ∷ [];
  digest = ones;
}

abbrev pub setup : Setup
setup = record {
  shuffle_seed = ones;
  deck = deck;
  deck_digest = ones;
  hands = dealt.hands;
  landlord_cards = dealt.landlord_cards;
  deal_digest = ones;
}

abbrev pub payload : Text
payload = strings_bytes versions ++ setup_bytes setup

abbrev pub artifact : Artifact
artifact = record {
  descriptor = descriptor;
  version = artifact_version;
  payload = payload;
  digest = ones;
}

pub shuffled_ok :
    shuffle test_hash test_mac 4 (shuffle_input material)
    ≡ ok (record { seed = ones; deck = deck; deck_digest = ones })
unfolding shuffle derive_seed canonical_input validate_input validate_text trim_space text_eq
    Stream.new_stream shuffle_deck digest_deck all_zero validate_deck canonical_deck uniform
    threshold next_word swap
shuffled_ok = refl

pub dealt_ok : deal test_hash deck ≡ ok dealt
unfolding deal validate_deck compute_digest reconstruct_deck
dealt_ok = refl

pub encoded_ok : encode_setup test_hash setup ≡ ok payload
unfolding encode_setup validate_deck digest_deck text_eq deal compute_digest reconstruct_deck
encoded_ok = refl

material_ok : validate_setup_material test_hash any_text material ≡ ok tt
unfolding validate_setup_material validate_material validate_descriptor validate_identifier
    trim_space text_eq all_zero validate_participants descriptor_eq server_commitment validate_text
    client_commitment validate_commitments
material_ok = refl

pub generated_ok : generate_setup test_hash test_mac any_text 4 material ≡ ok artifact
unfolding generate_setup new_artifact validate_descriptor validate_identifier trim_space text_eq
    validate_payload strings_bytes setup_bytes artifact_digest
generated_ok = rw (material_ok, shuffled_ok, dealt_ok, encoded_ok) refl

abbrev given : ℕ → ContributionSnapshot
given seat = record {
  seat = seat;
  committed = true;
  commitment = ones;
  revealed = true;
  digest = replicate 32 (seat + 1);
  record_ref = codes "record";
}

abbrev pub dealt_hand : HandSnapshot
dealt_hand = record {
  fairness_mode = client_reveal;
  id = codes "hand-1";
  room_id = codes "room-1";
  phase = dealing;
  seats = record {
    first = record { seat = 1; account_id = codes "ann" };
    second = record { seat = 2; account_id = codes "bob" };
    third = record { seat = 3; account_id = codes "cyd" };
  };
  server_commitment = ones;
  reveal_key_id = codes "key";
  reveal_public_key_sha256 = replicate 32 6;
  reveal_key_bound_at = 62135596801;
  beacon_plan = record { provider = codes "drand"; round = codes "9" };
  beacon = some (record {
    provider = codes "drand";
    round = codes "9";
    digest = replicate 32 5;
    proof_ref = codes "proof";
  });
  contributions = record { first = given 1; second = given 2; third = given 3 };
  termination_reason = [];
  version = 9;
}

artifact_ok : validate_artifact test_hash any_text artifact ≡ ok tt
unfolding validate_artifact validate_descriptor validate_identifier trim_space text_eq
    validate_payload strings_bytes setup_bytes all_zero artifact_digest
artifact_ok = refl

pub setup_Sized : Sized setup
setup_Sized = ground arith

pub decoded_ok : decode_artifact test_hash any_text artifact ≡ ok setup
unfolding decode_artifact descriptor_eq text_eq
decoded_ok =
    rw (artifact_ok, decode_setup-encode_setup test_hash setup payload setup_Sized encoded_ok) refl

pub verified_ok : verify_setup test_hash test_mac any_text 4 material artifact ≡ ok tt
unfolding verify_setup descriptor_eq text_eq strings_bytes setup_bytes
verified_ok = rw (artifact_ok, decoded_ok, generated_ok) refl

pub is_hash : (bytes : Text) → length (test_hash bytes) ≡ 32
is_hash bytes = refl

abbrev transcript_versions : Versions
transcript_versions = record {
  card = codes "fair-doudizhu-card-v1";
  deck = codes "fair-doudizhu-deck-v1";
  seed = codes "fair-doudizhu-shuffle-seed-v1";
  random = codes "fair-doudizhu-hmac-counter-v1";
  shuffle = codes "fair-doudizhu-fisher-yates-v1";
  deal = codes "fair-doudizhu-deal-v1";
  transcript = codes "fair-doudizhu-fairness-transcript-v1";
}

abbrev pub transcript : Transcript
transcript = record {
  versions = transcript_versions;
  input = transcript_input material;
  shuffle_seed_digest = ones;
  deck = deck;
  deck_digest = ones;
  dealt = dealt;
  deal_digest = ones;
  transcript_digest = ones;
}

pub canonical_ok : canonical_bytes test_hash transcript ≡ ok (transcript_bytes transcript)
unfolding canonical_bytes versions_eq text_eq current_versions validate_transcript_input
    validate_text trim_space server_commitment all_zero validate_contribution client_commitment
    validate_deck validate_deal reconstruct_deck compute_digest
canonical_ok = refl
