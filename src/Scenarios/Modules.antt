-- ===== src/Scenarios/Modules.antt =====
-- A registry of gamecore with two modules of the same game.
use awesome_zero_platform.Base.{◌≡◌, refl, Bool, true, [], ◌∷◌, ok, err}
use awesome_zero_platform.Base.Text.{Text, codes, trim_space, text_eq}
use awesome_zero_platform.Gamecore.{
  Error, module_not_found, Descriptor, validate_descriptor, validate_identifier,
}
use awesome_zero_platform.Gamecore.Registry.{
  SetupModule, RegisteredModule, Registry, descriptor_key, key_eq, find_module, register,
  register_all, new_registry, lookup,
}
use awesome_zero_platform.Gamecore.Registry.Built.{lookup-new_registry}

abbrev any_text : Text → Bool
any_text text = true

abbrev version : Text → Descriptor
version v = record {
  game_id = codes "doudizhu";
  ruleset_version = codes "r1";
  module_version = v;
  fairness_suite_id = codes "f1";
  participant_count = 3;
}

-- A module that generates and verifies nothing.
abbrev refusing : Text → SetupModule Error
refusing v = record {
  descriptor = version v;
  generate = λ material. err module_not_found;
  verify = λ material artifact. err module_not_found;
}

abbrev first : SetupModule Error
first = refusing (codes "v1")

abbrev second : SetupModule Error
second = refusing (codes "v2")

abbrev entry : SetupModule Error → RegisteredModule Error
entry m = record { descriptor = m.descriptor; delegate = m }

abbrev two_modules : Registry Error
two_modules =
    (descriptor_key second.descriptor, entry second)
    ∷ (descriptor_key first.descriptor, entry first)
    ∷ []

built : new_registry any_text (first ∷ second ∷ []) ≡ ok two_modules
unfolding new_registry register_all register find_module key_eq descriptor_key validate_descriptor
    validate_identifier trim_space text_eq
built = refl

lookup-new_registry_example :
    lookup any_text (descriptor_key first.descriptor) two_modules ≡ ok (entry first)
lookup-new_registry_example = lookup-new_registry any_text [] (second ∷ []) first two_modules built
