-- ===== src/Gamecore/Registry/Laws.antt =====
-- The registry of gamecore: what a lookup finds after a registration, and what a registered module
-- hands on.
use awesome_zero_platform.Base.{
  ◌≡◌, refl, ap, subst, ◌∙◌, Bool, true, false, not, ◌∷◌, some, Result, ok, err, ◌>>=◌, reject,
  if◌then◌else◌, bind_steps, ok-injective, arith,
}
use awesome_zero_platform.Base.Text.{Text, text_eq_refl}
use awesome_zero_platform.Gamecore.{
  Error, duplicate_registration, Descriptor, descriptor_eq, Material, Artifact, validate_identifier,
  validate_descriptor,
}
use awesome_zero_platform.Gamecore.Registry.{
  DescriptorKey, descriptor_key, key_eq, Failure, of_core, of_module, SetupModule, RegisteredModule,
  Registry, find_module, present, register, lookup, validate_artifact, generate_setup,
}

key_eq_refl : (k : DescriptorKey) → key_eq k k ≡ true
unfolding key_eq
key_eq_refl k =
    ground
      (arith, text_eq_refl k.game_id, text_eq_refl k.ruleset_version, text_eq_refl k.module_version)

module _ (valid_utf8 : Text → Bool) where
  pub identifiers_valid :
      (d : Descriptor)
      → validate_descriptor valid_utf8 d ≡ ok tt
      → (validate_identifier valid_utf8 d.game_id ≡ ok tt)
        × (validate_identifier valid_utf8 d.ruleset_version ≡ ok tt)
        × (validate_identifier valid_utf8 d.module_version ≡ ok tt)
  unfolding validate_descriptor
  identifiers_valid d h =
      let (_, e1, h1) = bind_steps (validate_identifier valid_utf8 d.game_id) _ tt h in
      let (_, e2, h2) = bind_steps (validate_identifier valid_utf8 d.ruleset_version) _ tt h1 in
      let (_, e3, h3) = bind_steps (validate_identifier valid_utf8 d.module_version) _ tt h2 in
      (e1, e2, e3)

pub find_head :
    {E : Type 0} (k : DescriptorKey) (m : RegisteredModule E) (r : Registry E)
    → find_module k ((k, m) ∷ r) ≡ some m
unfolding find_module
find_head k m r = ap (λ b. if b then some m else find_module k r) (key_eq_refl k)

module _ {E : Type 0} (valid_utf8 : Text → Bool) where
  not_rejected :
      (b : Bool) (r s : Registry E)
      → (reject b duplicate_registration >>= λ _. ok r) ≡ ok s
      → (b ≡ false) × (r ≡ s)
  not_rejected true r s h = cc
  not_rejected false r s h = (refl, ok-injective h)

  -- A module is registered only with a valid descriptor and under a key that is free, and it comes
  -- first in the registry.
  pub register_sound :
      (m : SetupModule E) (r s : Registry E)
      → register valid_utf8 m r ≡ ok s
      → (validate_descriptor valid_utf8 m.descriptor ≡ ok tt)
        × (present (find_module (descriptor_key m.descriptor) r) ≡ false)
        × ((descriptor_key m.descriptor, record { descriptor = m.descriptor; delegate = m }) ∷ r
            ≡ s)
  unfolding register
  register_sound m r s h =
      let (_, valid, h1) = bind_steps (validate_descriptor valid_utf8 m.descriptor) _ s h in
      let (free, e) = not_rejected (present (find_module (descriptor_key m.descriptor) r)) _ s h1 in
      (valid, free, e)

  -- After a registration, the key of the module finds the module with its descriptor.
  pub lookup-register :
      (m : SetupModule E) (r s : Registry E)
      → register valid_utf8 m r ≡ ok s
      → lookup valid_utf8 (descriptor_key m.descriptor) s
        ≡ ok (record { descriptor = m.descriptor; delegate = m })
  unfolding lookup descriptor_key
  lookup-register m r s h =
      let (valid, _, e) = register_sound m r s h in
      let (e1, e2, e3) = identifiers_valid valid_utf8 m.descriptor valid in
      let found : find_module (descriptor_key m.descriptor) s
          ≡ some (record { descriptor = m.descriptor; delegate = m }) =
        subst
          (λ x.
            find_module (descriptor_key m.descriptor) x
            ≡ some (record { descriptor = m.descriptor; delegate = m }))
          e (find_head (descriptor_key m.descriptor) _ r) in
      cc

core_ok :
    {E A : Type 0} (x : Result Error A) (a : A)
    → ◌≡◌ {A = Result (Failure E) A} (of_core x) (ok a)
    → x ≡ ok a
core_ok (ok b) a h = ap ok (ok-injective h)
core_ok (err e) a h = cc

module_ok : {E A : Type 0} (x : Result E A) (a : A) → of_module x ≡ ok a → x ≡ ok a
module_ok (ok b) a h = ap ok (ok-injective h)
module_ok (err e) a h = cc

guard_ok :
    {E A : Type 0} (b : Bool) (e : Error) (rest : Result (Failure E) A) (a : A)
    → (of_core (reject (not b) e) >>= λ _. rest) ≡ ok a
    → (b ≡ true) × (rest ≡ ok a)
guard_ok true e rest a h = (refl, h)
guard_ok false e rest a h = cc

module _ {E : Type 0} (sha256 : Text → Text) (valid_utf8 : Text → Bool) where
  -- A registered module hands on a setup only for a material with its descriptor, and only a valid
  -- artifact with its descriptor that the module generated.
  pub generate_setup_sound :
      (m : RegisteredModule E) (material : Material) (a : Artifact)
      → generate_setup sha256 valid_utf8 m material ≡ ok a
      → (descriptor_eq material.descriptor m.descriptor ≡ true)
        × (m.delegate.generate material ≡ ok a)
        × (validate_artifact sha256 valid_utf8 a ≡ ok tt)
        × (descriptor_eq a.descriptor m.descriptor ≡ true)
  unfolding generate_setup
  generate_setup_sound m material a h =
      let (same, h1) = guard_ok (descriptor_eq material.descriptor m.descriptor) _ _ a h in
      let (b, made, h2) = bind_steps (of_module (m.delegate.generate material)) _ a h1 in
      let (_, valid, h3) = bind_steps (of_core (validate_artifact sha256 valid_utf8 b)) _ a h2 in
      let (named, h4) = guard_ok (descriptor_eq b.descriptor m.descriptor) _ (ok b) a h3 in
      let e : b ≡ a = ok-injective h4 in
      (
        same,
        module_ok _ a (made ∙ ap ok e),
        subst (λ x. validate_artifact sha256 valid_utf8 x ≡ ok tt) e (core_ok _ tt valid),
        subst (λ x. descriptor_eq x.descriptor m.descriptor ≡ true) e named,
      )
