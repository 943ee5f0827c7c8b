-- ===== src/Gamecore/Registry/Built.antt =====
-- The registry that NewRegistry of gamecore/module.go builds: every module that it is given is found.
use awesome_zero_platform.Base.{
  ◌≡◌, sym, ap, subst, ◌∙◌, inl, inr, Bool, true, false, List, [], ◌∷◌, ◌++◌, some, ok, bind_steps,
  ok-injective, Bool-cases, arith,
}
use awesome_zero_platform.Base.Text.{Text, text_eq_iff}
use awesome_zero_platform.Gamecore.{validate_descriptor}
use awesome_zero_platform.Gamecore.Registry.{
  DescriptorKey, descriptor_key, key_eq, SetupModule, RegisteredModule, Registry, find_module,
  present, register, register_all, new_registry, lookup,
}
use awesome_zero_platform.Gamecore.Registry.Laws.{register_sound, identifiers_valid, find_head}

key_eq_sound : (k l : DescriptorKey) → key_eq k l ≡ true → k ≡ l
unfolding key_eq
key_eq_sound k l h =
    let e1 = (text_eq_iff k.game_id l.game_id).0 (ground (arith, h)) in
    let e2 = (text_eq_iff k.ruleset_version l.ruleset_version).0 (ground (arith, h)) in
    let e3 = (text_eq_iff k.module_version l.module_version).0 (ground (arith, h)) in cc

module _ {E : Type 0} where
  -- A module under a key that was free hides no other.
  find-cons :
      (key k : DescriptorKey) (x m : RegisteredModule E) (r : Registry E)
      → present (find_module k r) ≡ false
      → find_module key r ≡ some x
      → find_module key ((k, m) ∷ r) ≡ some x
  unfolding find_module
  find-cons key k x m r free h = elim (Bool-cases (key_eq k key)) [
    | inl same ↦
        let e : key ≡ k = sym (key_eq_sound k key same) in
        let hit : find_module k r ≡ some x = ap (λ y. find_module y r) (sym e) ∙ h in
        cc (ap present hit)
    | inr differs ↦ rw differs h
  ]

module _ {E : Type 0} (valid_utf8 : Text → Bool) where
  find-register :
      (m : SetupModule E) (r s : Registry E) (key : DescriptorKey) (x : RegisteredModule E)
      → register valid_utf8 m r ≡ ok s
      → find_module key r ≡ some x
      → find_module key s ≡ some x
  find-register m r s key x h found =
      let (_, free, e) = register_sound valid_utf8 m r s h in
      subst (λ y. find_module key y ≡ some x) e
        (find-cons key (descriptor_key m.descriptor) x _ r free found)

  find-register_all :
      (modules : List (SetupModule E)) (r s : Registry E) (key : DescriptorKey)
      (x : RegisteredModule E)
      → register_all valid_utf8 modules r ≡ ok s
      → find_module key r ≡ some x
      → find_module key s ≡ some x
  unfolding register_all
  find-register_all [] r s key x h found =
      subst (λ y. find_module key y ≡ some x) (ok-injective h) found
  find-register_all (m ∷ modules) r s key x h found =
      let (t, e, rest) = bind_steps (register valid_utf8 m r) _ s h in
      find-register_all modules t s key x rest (find-register m r t key x e found)

  registered :
      (before after : List (SetupModule E)) (m : SetupModule E) (r s : Registry E)
      → register_all valid_utf8 (before ++ m ∷ after) r ≡ ok s
      → (validate_descriptor valid_utf8 m.descriptor ≡ ok tt)
        × (find_module (descriptor_key m.descriptor) s
            ≡ some (record { descriptor = m.descriptor; delegate = m }))
  unfolding register_all
  registered [] after m r s h =
      let (t, e, rest) = bind_steps (register valid_utf8 m r) _ s h in
      let (valid, _, added) = register_sound valid_utf8 m r t e in
      (
        valid,
        find-register_all after t s (descriptor_key m.descriptor) _ rest (
            subst
              (λ y.
                find_module (descriptor_key m.descriptor) y
                ≡ some (record { descriptor = m.descriptor; delegate = m }))
              added (find_head (descriptor_key m.descriptor) _ r)),
      )
  registered (b ∷ before) after m r s h =
      let (t, e, rest) = bind_steps (register valid_utf8 b r) _ s h in
      registered before after m t s rest

  -- Every module of a list from which a registry is built is found in it under its own key, with
  -- the descriptor that it had: no module of the list takes the place of another.
  pub lookup-new_registry :
      (before after : List (SetupModule E)) (m : SetupModule E) (s : Registry E)
      → new_registry valid_utf8 (before ++ m ∷ after) ≡ ok s
      → lookup valid_utf8 (descriptor_key m.descriptor) s
        ≡ ok (record { descriptor = m.descriptor; delegate = m })
  unfolding new_registry lookup descriptor_key
  lookup-new_registry before after m s h =
      let (valid, found) = registered before after m [] s h in
      let (e1, e2, e3) = identifiers_valid valid_utf8 m.descriptor valid in cc
