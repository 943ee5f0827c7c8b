-- ===== src/Carddeck/Seed.antt =====
-- server/business/doudizhu/domain/carddeck/random.go: the input of a shuffle, its seed, and the
-- commitments; `validateText` of encoding.go. SHA-256 is the parameter `sha256`.
use awesome_zero_platform.Base.{
  ℕ, Bool, true, false, not, ◌&&◌, ◌||◌, [], ◌∷◌, ◌++◌, Result, ok, ◌>>=◌, ◌>>◌, reject, ltb, ◌==◌,
  length,
}
use awesome_zero_platform.Base.Text.{Text, codes, text_eq, is_empty, trim_space}
use awesome_zero_platform.Base.Trio.{Trio}
use awesome_zero_platform.Carddeck.{Error, invalid_argument}
use awesome_zero_platform.Carddeck.Deal.{domain_bytes, text_bytes}

-- `validateText`. The name of the field stands in the error's text only.
unfoldable pub validate_text : Text → Bool → Result Error (Unit {0})
validate_text value allow_empty = do
  reject (not allow_empty && is_empty (trim_space value)) invalid_argument
  reject (not (text_eq value (trim_space value))) invalid_argument
  reject (ltb 128 (length value)) invalid_argument

-- `allZero`: the bytes combined by `|` are 0 exactly if each is.
unfoldable pub all_zero : Text → Bool
all_zero [] = true
all_zero (b ∷ rest) = b == 0 && all_zero rest

pub record ShuffleInput : Type 0 where
  pub hand_id : Text
  pub server_seed : Text
  pub contributions : Trio Text
  pub beacon_provider : Text
  pub beacon_round : Text
  pub beacon_digest : Text

-- `ShuffleInput.Validate`.
unfoldable pub validate_input : ShuffleInput → Result Error (Unit {0})
validate_input input = do
  validate_text input.hand_id false
  reject (all_zero input.server_seed) invalid_argument
  reject (all_zero input.contributions.first) invalid_argument
  reject (all_zero input.contributions.second) invalid_argument
  reject (all_zero input.contributions.third) invalid_argument
  validate_text input.beacon_provider false
  validate_text input.beacon_round false
  reject (all_zero input.beacon_digest) invalid_argument

abbrev pub seed_domain : Text
seed_domain = codes "fair-doudizhu/shuffle-seed/v1"

abbrev pub seed_version : Text
seed_version = codes "fair-doudizhu-shuffle-seed-v1"

-- The bytes that `ShuffleInput.CanonicalBytes` writes.
unfoldable pub input_bytes : ShuffleInput → Text
input_bytes input =
    domain_bytes seed_domain
    ++ (text_bytes seed_version
        ++ (text_bytes input.hand_id
            ++ (input.server_seed
                ++ ((1 ∷ input.contributions.first)
                    ++ ((2 ∷ input.contributions.second)
                        ++ ((3 ∷ input.contributions.third)
                            ++ (text_bytes input.beacon_provider
                                ++ (text_bytes input.beacon_round ++ input.beacon_digest))))))))

-- `ShuffleInput.CanonicalBytes`.
unfoldable pub canonical_input : ShuffleInput → Result Error Text
canonical_input input = do validate_input input; ok (input_bytes input)

module _ (sha256 : Text → Text) where
  -- `ShuffleInput.DeriveSeed`.
  unfoldable pub derive_seed : ShuffleInput → Result Error Text
  derive_seed input = do encoded ← canonical_input input; ok (sha256 encoded)

  -- `ComputeServerCommitment`.
  unfoldable pub server_commitment : Text → Text → Result Error Text
  server_commitment hand_id seed = do
    validate_text hand_id false
    reject (all_zero seed) invalid_argument
    ok (
        sha256
          (domain_bytes (codes "fair-doudizhu/server-commit/v1") ++ (text_bytes hand_id ++ seed)))

  -- `ComputeClientCommitment`.
  unfoldable pub client_commitment : Text → ℕ → Text → Result Error Text
  client_commitment hand_id seat contribution = do
    validate_text hand_id false
    reject (ltb seat 1 || ltb 3 seat) invalid_argument
    reject (all_zero contribution) invalid_argument
    ok (
        sha256 (
          domain_bytes (codes "fair-doudizhu/client-commit/v1")
          ++ (text_bytes hand_id ++ seat ∷ contribution)))
