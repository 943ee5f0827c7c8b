-- ===== src/Gamecore.antt =====
-- server/business/gamecore: identity.go, errors.go, encoding.go, fairness.go and the artifacts of
-- module.go. SHA-256 and the test for valid UTF-8 of the standard library are parameters.
pub mod Random
pub mod Final
pub mod Registry
pub mod Permutes
use awesome_zero_platform.Base.{
  ℕ, zero, suc, ◌+◌, Bool, true, false, not, ◌&&◌, ◌||◌, List, [], ◌∷◌, ◌++◌, Result, ok, err,
  ◌>>=◌, ◌>>◌, reject, ltb, leb, ◌==◌, if◌then◌else◌, length,
}
use awesome_zero_platform.Base.Text.{Text, codes, text_eq, is_empty, trim_space}
use awesome_zero_platform.Carddeck.Deal.{domain_bytes, text_bytes, zero_digest}
use awesome_zero_platform.Carddeck.Seed.{all_zero}

pub data Error : Type 0 where
  invalid_argument unsupported_version verification_failed duplicate_registration : Error
  module_not_found instance_not_found instance_exists finalization_pending : Error
  not_finalizing archive_failed : Error

pub record Descriptor : Type 0 where
  pub game_id : Text
  pub ruleset_version : Text
  pub module_version : Text
  pub fairness_suite_id : Text
  pub participant_count : ℕ

-- `==` on descriptors, `Descriptor.Equal`.
unfoldable pub descriptor_eq : Descriptor → Descriptor → Bool
descriptor_eq d e =
    text_eq d.game_id e.game_id
    && text_eq d.ruleset_version e.ruleset_version
    && text_eq d.module_version e.module_version
    && text_eq d.fairness_suite_id e.fairness_suite_id
    && d.participant_count == e.participant_count

pub record Participant : Type 0 where
  pub position : ℕ
  pub contribution : Text
  pub commitment : Text

pub record Beacon : Type 0 where
  pub provider : Text
  pub round : Text
  pub digest : Text
  pub proof_ref : Text

pub record RevealKey : Type 0 where
  pub key_id : Text
  pub public_key_sha256 : Text

pub record Material : Type 0 where
  pub descriptor : Descriptor
  pub instance_id : Text
  pub server_seed : Text
  pub server_commitment : Text
  pub participants : List Participant
  pub beacon : Beacon
  pub reveal_key : RevealKey

pub record Artifact : Type 0 where
  pub descriptor : Descriptor
  pub version : Text
  pub payload : Text
  pub digest : Text

-- `validatePayload`, which is never called with an empty payload allowed here.
unfoldable pub validate_payload : Text → Result Error (Unit {0})
validate_payload payload = do
  reject (is_empty payload) invalid_argument
  reject (ltb 16777216 (length payload)) invalid_argument

-- The loop of `FairnessMaterial.Validate` over the participants, from a position on.
unfoldable pub validate_participants : ℕ → List Participant → Result Error (Unit {0})
validate_participants wanted [] = ok tt
validate_participants wanted (p ∷ rest) =
    let later = validate_participants (suc wanted) rest in
    do
      reject (not (p.position == wanted)) invalid_argument
      reject (all_zero p.contribution) invalid_argument
      reject (all_zero p.commitment) invalid_argument
      later

module _ (valid_utf8 : Text → Bool) where
  -- `validateIdentifier`.
  unfoldable pub validate_identifier : Text → Result Error (Unit {0})
  validate_identifier value = do
    reject (is_empty (trim_space value)) invalid_argument
    reject (not (text_eq value (trim_space value))) invalid_argument
    reject (not (valid_utf8 value)) invalid_argument
    reject (ltb 128 (length value)) invalid_argument

  -- `Descriptor.Validate`.
  unfoldable pub validate_descriptor : Descriptor → Result Error (Unit {0})
  validate_descriptor d = do
    validate_identifier d.game_id
    validate_identifier d.ruleset_version
    validate_identifier d.module_version
    validate_identifier d.fairness_suite_id
    reject (ltb d.participant_count 1 || ltb 64 d.participant_count) invalid_argument

  -- `FairnessMaterial.Validate`.
  unfoldable pub validate_material : Material → Result Error (Unit {0})
  validate_material m = do
    validate_descriptor m.descriptor
    validate_identifier m.instance_id
    reject (all_zero m.server_seed) invalid_argument
    reject (all_zero m.server_commitment) invalid_argument
    reject (not (length m.participants == m.descriptor.participant_count)) invalid_argument
    validate_participants 1 m.participants
    validate_identifier m.beacon.provider
    validate_identifier m.beacon.round
    reject (all_zero m.beacon.digest) invalid_argument
    validate_identifier m.beacon.proof_ref
    validate_identifier m.reveal_key.key_id
    reject (all_zero m.reveal_key.public_key_sha256) invalid_argument

abbrev pub descriptor_bytes : Descriptor → Text
descriptor_bytes d =
    text_bytes d.game_id
    ++ (text_bytes d.ruleset_version
        ++ (text_bytes d.module_version
            ++ (text_bytes d.fairness_suite_id ++ d.participant_count ∷ [])))

module _ (sha256 : Text → Text) where
  -- `SetupArtifact.computeDigest`.
  unfoldable pub artifact_digest : Artifact → Text
  artifact_digest a = sha256 (
      domain_bytes (codes "gamecore/setup-artifact/v1")
      ++ (descriptor_bytes a.descriptor ++ (text_bytes a.version ++ text_bytes a.payload)))

module _ (sha256 : Text → Text) (valid_utf8 : Text → Bool) where
  -- `NewSetupArtifact`.
  unfoldable pub new_artifact : Descriptor → Text → Text → Result Error Artifact
  new_artifact descriptor version payload =
      let a : Artifact = record {
        descriptor = descriptor;
        version = version;
        payload = payload;
        digest = zero_digest;
      } in
      do
        validate_descriptor valid_utf8 descriptor
        validate_identifier valid_utf8 version
        validate_payload payload
        ok (record a { digest = artifact_digest sha256 a })

  -- `RestoreSetupArtifact`.
  unfoldable pub restore_artifact : Descriptor → Text → Text → Text → Result Error Artifact
  restore_artifact descriptor version payload digest = do
    a ← new_artifact descriptor version payload
    reject (all_zero digest || not (text_eq a.digest digest)) verification_failed
    ok a

  -- `SetupArtifact.Validate`.
  unfoldable pub validate_artifact : Artifact → Result Error (Unit {0})
  validate_artifact a = do
    validate_descriptor valid_utf8 a.descriptor
    validate_identifier valid_utf8 a.version
    validate_payload a.payload
    reject (all_zero a.digest || not (text_eq (artifact_digest sha256 a) a.digest))
        verification_failed
