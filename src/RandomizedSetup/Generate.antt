-- ===== src/RandomizedSetup/Generate.antt =====
-- server/business/doudizhu/domain/randomizedsetup/module.go: making and verifying the setup of a hand.
use awesome_zero_platform.Base.{
  ℕ, zero, suc, Bool, not, ◌||◌, List, [], ◌∷◌, Result, ok, err, ◌>>=◌, ◌>>◌, reject,
}
use awesome_zero_platform.Base.Text.{Text, codes, text_eq}
use awesome_zero_platform.Carddeck.Deal.{deal, zero_digest}
use awesome_zero_platform.Carddeck.Seed.{ShuffleInput, server_commitment, client_commitment}
use awesome_zero_platform.Carddeck.Transcript
use awesome_zero_platform.Carddeck.Transcript.{shuffle}
use awesome_zero_platform.Gamecore
use awesome_zero_platform.Gamecore.{
  Descriptor, Material, Participant, Artifact, descriptor_eq, validate_material, validate_artifact,
  new_artifact,
}
use awesome_zero_platform.RandomizedSetup.{
  Setup, Error, verification_failed, unsupported_version, invalid_argument, of_core, of_cards,
  out_of_fuel,
}
use awesome_zero_platform.RandomizedSetup.Codec.{from_cards, encode_setup, decode_setup}

abbrev pub from_core : {A : Type 0} → Result Gamecore.Error A → Result Error A
from_core (ok a) = ok a
from_core (err e) = err (of_core e)

abbrev pub from_fault : {A : Type 0} → Result Transcript.Fault A → Result Error A
from_fault (ok a) = ok a
from_fault (err (Transcript.card_error e)) = err (of_cards e)
from_fault (err Transcript.out_of_fuel) = err out_of_fuel

-- `Descriptor`.
abbrev pub descriptor : Descriptor
descriptor = record {
  game_id = codes "doudizhu";
  ruleset_version = codes "doudizhu-standard-v1";
  module_version = codes "doudizhu-randomized-setup-v1";
  fairness_suite_id = codes "fair-doudizhu-carddeck-v1";
  participant_count = 3;
}

abbrev pub artifact_version : Text
artifact_version = codes "doudizhu-card-deal-artifact-v1"

-- `material.Participants[i]` of three; a position past the end is Go's panic, which the number of
-- participants that was checked before rules out.
abbrev pub participant : List Participant → ℕ → Participant
participant [] i = record { position = 0; contribution = zero_digest; commitment = zero_digest }
participant (p ∷ rest) zero = p
participant (p ∷ rest) (suc i) = participant rest i

-- The input of the shuffle.
abbrev pub shuffle_input : Material → ShuffleInput
shuffle_input m = record {
  hand_id = m.instance_id;
  server_seed = m.server_seed;
  contributions = record {
    first = (participant m.participants 0).contribution;
    second = (participant m.participants 1).contribution;
    third = (participant m.participants 2).contribution;
  };
  beacon_provider = m.beacon.provider;
  beacon_round = m.beacon.round;
  beacon_digest = m.beacon.digest;
}

module _ (sha256 : Text → Text) where
  -- The loop of `validateMaterial`.
  unfoldable pub validate_commitments : Text → List Participant → Result Error (Unit {0})
  validate_commitments hand_id [] = ok tt
  validate_commitments hand_id (p ∷ rest) =
      let later = validate_commitments hand_id rest in
      do
        commitment ← from_cards (client_commitment sha256 hand_id p.position p.contribution)
        reject (not (text_eq commitment p.commitment)) verification_failed
        later

module _ (sha256 : Text → Text) (valid_utf8 : Text → Bool) where
  -- `validateMaterial`.
  unfoldable pub validate_setup_material : Material → Result Error (Unit {0})
  validate_setup_material m = do
    from_core (validate_material valid_utf8 m)
    reject (not (descriptor_eq m.descriptor descriptor)) invalid_argument
    commitment ← from_cards (server_commitment sha256 m.instance_id m.server_seed)
    reject (not (text_eq commitment m.server_commitment)) verification_failed
    validate_commitments sha256 m.instance_id m.participants

  -- `DecodeArtifact`.
  unfoldable pub decode_artifact : Artifact → Result Error Setup
  decode_artifact a = do
    from_core (validate_artifact sha256 valid_utf8 a)
    reject (not (descriptor_eq a.descriptor descriptor)) verification_failed
    reject (not (text_eq a.version artifact_version)) unsupported_version
    decode_setup sha256 a.payload

module _ (sha256 : Text → Text) (mac : Text → Text → Text) (valid_utf8 : Text → Bool)
    (fuel : ℕ) where
  -- `GenerateSetup`.
  unfoldable pub generate_setup : Material → Result Error Artifact
  generate_setup m = do
    validate_setup_material sha256 valid_utf8 m
    shuffled ← from_fault (shuffle sha256 mac fuel (shuffle_input m))
    dealt ← from_cards (deal sha256 shuffled.deck)
    payload ← encode_setup sha256 (record {
      shuffle_seed = shuffled.seed;
      deck = shuffled.deck;
      deck_digest = shuffled.deck_digest;
      hands = dealt.hands;
      landlord_cards = dealt.landlord_cards;
      deal_digest = dealt.digest;
    })
    from_core (new_artifact sha256 valid_utf8 descriptor artifact_version payload)

  -- `VerifySetup`.
  unfoldable pub verify_setup : Material → Artifact → Result Error (Unit {0})
  verify_setup m a = do
    from_core (validate_artifact sha256 valid_utf8 a)
    reject (not (descriptor_eq a.descriptor descriptor)) verification_failed
    reject (not (text_eq a.version artifact_version)) unsupported_version
    decoded ← decode_artifact sha256 valid_utf8 a
    expected ← generate_setup m
    reject (not (text_eq a.digest expected.digest) || not (text_eq a.payload expected.payload))
        verification_failed
