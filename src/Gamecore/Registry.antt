-- ===== src/Gamecore/Registry.antt =====
-- server/business/gamecore: the registry of modules of module.go, and the digest of the material of
-- fairness.go. A registered module is a value with the functions of its interface.
pub mod Laws
pub mod Built
use awesome_zero_platform.Base.{
  ℕ, Bool, true, false, not, ◌&&◌, ◌||◌, List, [], ◌∷◌, ◌++◌, Option, some, none, Result, ok, err,
  ◌>>=◌, ◌>>◌, reject, if◌then◌else◌, length,
}
use awesome_zero_platform.Base.Text.{Text, codes, text_eq}
use awesome_zero_platform.Carddeck.Deal.{domain_bytes, text_bytes}
use awesome_zero_platform.Carddeck.Seed.{all_zero}
use awesome_zero_platform.Gamecore.{
  Error, invalid_argument, verification_failed, duplicate_registration, module_not_found,
  Descriptor, descriptor_eq, Participant, Material, Artifact, descriptor_bytes, validate_payload,
  validate_identifier, validate_descriptor, validate_material, artifact_digest,
}

-- `SetupArtifact.Validate`.
unfoldable pub validate_artifact :
    (Text → Text) → (Text → Bool) → Artifact → Result Error (Unit {0})
validate_artifact sha256 valid_utf8 a = do
  validate_descriptor valid_utf8 a.descriptor
  validate_identifier valid_utf8 a.version
  validate_payload a.payload
  reject (all_zero a.digest || not (text_eq (artifact_digest sha256 a) a.digest))
      verification_failed

-- The bytes of the participants in `FairnessMaterial.CanonicalDigest`.
unfoldable pub participants_bytes : List Participant → Text
participants_bytes [] = []
participants_bytes (p ∷ rest) =
    p.position ∷ (p.contribution ++ (p.commitment ++ participants_bytes rest))

unfoldable pub material_bytes : Material → Text
unfolding participants_bytes
material_bytes m =
    domain_bytes (codes "gamecore/fairness-material/v1")
    ++ (text_bytes (codes "gamecore-fairness-material-v1")
        ++ (descriptor_bytes m.descriptor
            ++ (text_bytes m.instance_id
                ++ (m.server_seed
                    ++ (m.server_commitment
                        ++ (length m.participants
                            ∷ (participants_bytes m.participants
                                ++ (text_bytes m.beacon.provider
                                    ++ (text_bytes m.beacon.round
                                        ++ (m.beacon.digest
                                            ++ (text_bytes m.beacon.proof_ref
                                                ++ (text_bytes m.reveal_key.key_id
                                                    ++ m.reveal_key.public_key_sha256))))))))))))

-- `FairnessMaterial.CanonicalDigest`, which is also the seed of `DeriveSeed`.
unfoldable pub material_digest : (Text → Text) → (Text → Bool) → Material → Result Error Text
unfolding material_bytes
material_digest sha256 valid_utf8 m = do
  validate_material valid_utf8 m
  ok (sha256 (material_bytes m))

pub record DescriptorKey : Type 0 where
  pub game_id : Text
  pub ruleset_version : Text
  pub module_version : Text

-- `Descriptor.Key`.
unfoldable pub descriptor_key : Descriptor → DescriptorKey
descriptor_key d = record {
  game_id = d.game_id;
  ruleset_version = d.ruleset_version;
  module_version = d.module_version;
}

-- The comparison of the keys of a map.
unfoldable pub key_eq : DescriptorKey → DescriptorKey → Bool
key_eq k l =
    text_eq k.game_id l.game_id
    && text_eq k.ruleset_version l.ruleset_version
    && text_eq k.module_version l.module_version

-- What a call can return: an error of gamecore or one of the module.
pub data Failure (E : Type 0) : Type 0 where
  core : Error → Failure E
  delegated : E → Failure E

abbrev pub of_core : {E A : Type 0} → Result Error A → Result (Failure E) A
of_core (ok a) = ok a
of_core (err e) = err (core e)

abbrev pub of_module : {E A : Type 0} → Result E A → Result (Failure E) A
of_module (ok a) = ok a
of_module (err e) = err (delegated e)

-- `RandomizedSetupModule`.
pub record SetupModule (E : Type 0) : Type 0 where
  pub descriptor : Descriptor
  pub generate : Material → Result E Artifact
  pub verify : Material → Artifact → Result E (Unit {0})

-- `registeredModule`, which holds the descriptor that the module had when it was registered.
pub record RegisteredModule (E : Type 0) : Type 0 where
  pub descriptor : Descriptor
  pub delegate : SetupModule E

module _ {E : Type 0} (sha256 : Text → Text) (valid_utf8 : Text → Bool) where
  -- `registeredModule.GenerateSetup`.
  unfoldable pub generate_setup : RegisteredModule E → Material → Result (Failure E) Artifact
  unfolding validate_artifact
  generate_setup m material = do
    of_core (reject (not (descriptor_eq material.descriptor m.descriptor)) invalid_argument)
    artifact ← of_module (m.delegate.generate material)
    of_core (validate_artifact sha256 valid_utf8 artifact)
    of_core (reject (not (descriptor_eq artifact.descriptor m.descriptor)) verification_failed)
    ok artifact

  -- `registeredModule.VerifySetup`.
  unfoldable pub verify_setup :
      RegisteredModule E → Material → Artifact → Result (Failure E) (Unit {0})
  unfolding validate_artifact
  verify_setup m material artifact = do
    of_core (
        reject
          (not (descriptor_eq material.descriptor m.descriptor)
            || not (descriptor_eq artifact.descriptor m.descriptor))
          invalid_argument)
    of_core (validate_artifact sha256 valid_utf8 artifact)
    of_module (m.delegate.verify material artifact)

-- The modules of a registry by their keys.
abbrev pub Registry : Type 0 → Type 0
Registry E = List (DescriptorKey × RegisteredModule E)

unfoldable pub find_module : {E : Type 0} → DescriptorKey → Registry E → Option (RegisteredModule E)
find_module key [] = none
find_module key ((k, m) ∷ registry) =
    let later = find_module key registry in if key_eq k key then some m else later

abbrev pub present : {A : Type 0} → Option A → Bool
present none = false
present (some a) = true

abbrev pub module_or : {A : Type 0} → Option A → Result Error A
module_or none = err module_not_found
module_or (some a) = ok a

module _ {E : Type 0} (valid_utf8 : Text → Bool) where
  -- `Registry.Register`.
  unfoldable pub register : SetupModule E → Registry E → Result Error (Registry E)
  unfolding descriptor_key find_module
  register m registry = do
    validate_descriptor valid_utf8 m.descriptor
    reject (present (find_module (descriptor_key m.descriptor) registry)) duplicate_registration
    ok (
        (descriptor_key m.descriptor, record { descriptor = m.descriptor; delegate = m })
        ∷ registry)

  unfoldable pub register_all : List (SetupModule E) → Registry E → Result Error (Registry E)
  unfolding register
  register_all [] registry = ok registry
  register_all (m ∷ modules) registry = do next ← register m registry; register_all modules next

  -- `NewRegistry`.
  unfoldable pub new_registry : List (SetupModule E) → Result Error (Registry E)
  unfolding register_all
  new_registry modules = register_all modules []

  -- `Registry.Lookup`.
  unfoldable pub lookup : DescriptorKey → Registry E → Result Error (RegisteredModule E)
  unfolding find_module
  lookup key registry = do
    validate_identifier valid_utf8 key.game_id
    validate_identifier valid_utf8 key.ruleset_version
    validate_identifier valid_utf8 key.module_version
    module_or (find_module key registry)
