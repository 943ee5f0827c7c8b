-- ===== src/Gamecore/Final.antt =====
-- server/business/gamecore: the final records of runtime.go. SHA-256 and the test for valid UTF-8 are
-- parameters.
use awesome_zero_platform.Base.{
  ℕ, ◌≡◌, ap, subst, ◌∙◌, Bool, false, not, ◌&&◌, ◌||◌, ◌++◌, Result, ok, ◌>>=◌, ◌>>◌, reject, ◌==◌,
  bind_steps, ok-injective, arith,
}
use awesome_zero_platform.Base.Text.{Text, codes, text_eq, text_eq_refl}
use awesome_zero_platform.Carddeck.Deal.{domain_bytes, text_bytes, zero_digest}
use awesome_zero_platform.Carddeck.Seed.{all_zero}
use awesome_zero_platform.Carddeck.Stream.{u64_bytes}
use awesome_zero_platform.Gamecore.{
  Error, invalid_argument, verification_failed, Descriptor, descriptor_bytes, validate_payload,
  validate_identifier, validate_descriptor,
}

-- The two values of `FinalStatus`, which is a string.
abbrev pub final_completed : Text
final_completed = codes "completed"

abbrev pub final_aborted : Text
final_aborted = codes "aborted"

pub record FinalRecord : Type 0 where
  pub instance_id : Text
  pub descriptor : Descriptor
  pub status : Text
  pub version : ℕ
  pub payload : Text
  pub digest : Text

module _ (sha256 : Text → Text) where
  -- `FinalRecord.computeDigest`.
  unfoldable pub final_digest : FinalRecord → Text
  final_digest r = sha256 (
      domain_bytes (codes "gamecore/final-record/v1")
      ++ (text_bytes r.instance_id
          ++ (descriptor_bytes r.descriptor
              ++ (text_bytes r.status ++ (u64_bytes r.version ++ text_bytes r.payload)))))

digest_again : (d : Text) → all_zero d ≡ false → (all_zero d || not (text_eq d d)) ≡ false
digest_again d z = ground (arith, text_eq_refl d, z)

restored_same :
    (c : Result Error FinalRecord) (r : FinalRecord)
    → all_zero r.digest ≡ false
    → c ≡ ok r
    → (c >>= λ x. reject (all_zero r.digest || not (text_eq x.digest r.digest)) verification_failed)
      ≡ ok tt
restored_same c r z e =
    ap
      (λ y. y >>= λ x.
        reject (all_zero r.digest || not (text_eq x.digest r.digest)) verification_failed)
      e
    ∙ ap (λ b. reject b verification_failed) (digest_again r.digest z)

module _ (sha256 : Text → Text) (valid_utf8 : Text → Bool) where
  -- The checks of `NewFinalRecord`.
  unfoldable pub check_final : Text → Descriptor → Text → ℕ → Text → Result Error (Unit {0})
  check_final id descriptor status version payload = do
    validate_identifier valid_utf8 id
    validate_descriptor valid_utf8 descriptor
    reject (not (text_eq status final_completed) && not (text_eq status final_aborted))
        invalid_argument
    reject (version == 0) invalid_argument
    validate_payload payload

  -- `NewFinalRecord`.
  unfoldable pub new_final : Text → Descriptor → Text → ℕ → Text → Result Error FinalRecord
  unfolding check_final final_digest
  new_final id descriptor status version payload =
      let r : FinalRecord = record {
        instance_id = id;
        descriptor = descriptor;
        status = status;
        version = version;
        payload = payload;
        digest = zero_digest;
      } in
      do
        check_final id descriptor status version payload
        ok (record r { digest = final_digest sha256 r })

  -- `FinalRecord.Validate`.
  unfoldable pub validate_final : FinalRecord → Result Error (Unit {0})
  unfolding new_final
  validate_final r = do
    restored ← new_final r.instance_id r.descriptor r.status r.version r.payload
    reject (all_zero r.digest || not (text_eq restored.digest r.digest)) verification_failed

  -- A record that is made is valid, unless its digest is all zero.
  pub validate-new_final :
      (id : Text) (descriptor : Descriptor) (status : Text) (version : ℕ) (payload : Text)
      (r : FinalRecord)
      → new_final id descriptor status version payload ≡ ok r
      → all_zero r.digest ≡ false
      → validate_final r ≡ ok tt
  unfolding validate_final new_final
  validate-new_final id descriptor status version payload r h nonzero =
      let (_, checked, h1) = bind_steps (check_final id descriptor status version payload) _ r h in
      restored_same (new_final r.instance_id r.descriptor r.status r.version r.payload) r nonzero (
        subst (λ x. new_final x.instance_id x.descriptor x.status x.version x.payload ≡ ok r)
          (ok-injective h1) h)
