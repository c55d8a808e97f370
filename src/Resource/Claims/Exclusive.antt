-- ===== src/Resource/Claims/Exclusive.antt =====
-- No command interface is lent twice, whatever the manager's clients and its hardware do.
use ros2_control.Base.{
  ◌≡◌, Bool, true, false, none, some, List, [], ◌∷◌, arith, Name, has_item, remove_item, IsUnique,
  remove_item-IsUnique, has_item-remove_item_self, has_item-remove_item_ne, lookup, emplace,
  lookup-assign, lookup-emplace, lookup-erase, has_key, Bool-cases, inl, inr, Option-cases,
  if◌then◌else◌,
}
use ros2_control.Hardware.Plugin.{Plugin}
use ros2_control.Resource.Storage.{ResourceManager, Interface}
use ros2_control.Resource.Interfaces
use ros2_control.Resource.Frame.{Store, store, set_component_state-KeepsStore}
use ros2_control.Resource.Frame.Cycles.{read-KeepsStore, write-KeepsStore}
use ros2_control.Resource.Frame.Switches.{prepare-KeepsStore, perform-KeepsStore}
use ros2_control.Resource.Claims.Loans
use ros2_control.Resource.Claims.Loans.{LoanSystem, Event, any_lent}

abbrev pub is_claimed : Name → List (Name × Bool) → Bool
is_claimed k m = elim (lookup k m) [ none ↦ false | some b ↦ b ]

-- The record of claims is that of the loans, every interface in store has an entry in it, and
-- nothing is lent twice.
pub record IsConsistent (st : Store) (loans : List Name) : Type 0 where
  pub lent : (k : Name) → is_claimed k st.0 ≡ has_item loans k
  pub stored : (k : Name) → has_key k st.0 ≡ has_key k st.1
  pub unique : IsUnique loans

module _ {D : Type 0} where
  claim-IsConsistent :
      (key : Name) (r : ResourceManager D) (loans : List Name)
      → IsConsistent (store r) loans
      → let (r', o) = Interfaces.claim_command_interface key r in
        IsConsistent (store r') (Loans.lend key o loans)
  unfolding Interfaces.claim_command_interface has_item
  claim-IsConsistent key r loans h = record {
    lent = λ k.
        ground
          (arith, h.lent k, h.stored key, lookup-assign key k true r.claimed_command_interface_map);
    stored = λ k.
        ground (
          arith,
          h.stored k,
          h.stored key,
          lookup-assign key k true r.claimed_command_interface_map,
        );
    unique = ground (arith, h.unique, h.lent key);
  }

  release-IsConsistent :
      (key : Name) (r : ResourceManager D) (loans : List Name)
      → has_item loans key ≡ true
      → IsConsistent (store r) loans
      → IsConsistent (store (Interfaces.release_command_interface key r)) (remove_item loans key)
  unfolding Interfaces.release_command_interface
  release-IsConsistent key r loans l h = record {
    lent = λ k. ground (
      arith,
      h.lent k,
      lookup-assign key k false r.claimed_command_interface_map,
      has_item-remove_item_self loans key h.unique,
      has_item-remove_item_ne loans key k,
    );
    stored = λ k.
        ground (
          arith,
          h.stored k,
          h.lent key,
          lookup-assign key k false r.claimed_command_interface_map,
        );
    unique = remove_item-IsUnique loans key h.unique;
  }

  insert-IsConsistent :
      (itf : Interface) (r : ResourceManager D) (loans : List Name)
      → has_key itf.name r.command_interface_map ≡ false
      → IsConsistent (store r) loans
      → IsConsistent
          (
            emplace itf.name false r.claimed_command_interface_map,
            emplace itf.name itf r.command_interface_map,
          )
          loans
  insert-IsConsistent itf r loans fresh h = record {
    lent = λ k.
        ground (arith, h.lent k, lookup-emplace itf.name k false r.claimed_command_interface_map);
    stored = λ k. ground (
      arith,
      h.stored k,
      lookup-emplace itf.name k false r.claimed_command_interface_map,
      lookup-emplace itf.name k itf r.command_interface_map,
    );
    unique = h.unique;
  }

  abbrev inserted : Interface → ResourceManager D → ResourceManager D
  inserted itf r = record r {
    command_interface_map = emplace itf.name itf r.command_interface_map;
    claimed_command_interface_map = emplace itf.name false r.claimed_command_interface_map;
  }

  add-cons :
      (itf : Interface) (interfaces : List Interface) (r : ResourceManager D)
      → (Interfaces.add_command_interfaces (itf ∷ interfaces) r).0 ≡ (
          if has_key itf.name r.command_interface_map
          then r
          else (Interfaces.add_command_interfaces interfaces (inserted itf r)).0)
  unfolding Interfaces.add_command_interfaces
  add-cons itf interfaces r = ground arith

  add-IsConsistent :
      (interfaces : List Interface) (r : ResourceManager D) (loans : List Name)
      → IsConsistent (store r) loans
      → IsConsistent (store (Interfaces.add_command_interfaces interfaces r).0) loans
  add-IsConsistent [] r loans h = unfold Interfaces.add_command_interfaces in h
  add-IsConsistent (itf ∷ interfaces) r loans h =
      rw (add-cons itf interfaces r) (elim (Bool-cases (has_key itf.name r.command_interface_map)) [
        | inl taken ↦ rw taken h
        | inr fresh ↦ rw fresh (
            add-IsConsistent interfaces (inserted itf r) loans
              (insert-IsConsistent itf r loans fresh h))
      ])

  import-IsConsistent :
      (controller : Name) (interfaces : List Interface) (r : ResourceManager D) (loans : List Name)
      → IsConsistent (store r) loans
      → IsConsistent
          (store (Interfaces.import_controller_reference_interfaces controller interfaces r).0)
          loans
  unfolding Interfaces.import_controller_reference_interfaces
  import-IsConsistent controller interfaces r loans h =
      ground (arith, add-IsConsistent interfaces r loans h)

  remove_all-IsConsistent :
      (names : List Name) (r : ResourceManager D) (loans : List Name)
      → any_lent loans names ≡ false
      → IsConsistent (store r) loans
      → IsConsistent (store (Interfaces.remove_command_interfaces names r)) loans
  unfolding Interfaces.remove_command_interfaces any_lent
  remove_all-IsConsistent [] r loans free h = h
  remove_all-IsConsistent (name ∷ names) r loans free h =
      remove_all-IsConsistent names _ loans (ground arith) (record {
        lent = λ k. ground (arith, h.lent k, lookup-erase name k r.claimed_command_interface_map);
        stored = λ k. ground (
          arith,
          h.stored k,
          lookup-erase name k r.claimed_command_interface_map,
          lookup-erase name k r.command_interface_map,
        );
        unique = h.unique;
      })

  any-remove-IsConsistent :
      (controller : Name) (s : LoanSystem D)
      → Loans.are_free controller s ≡ true
      → IsConsistent (store s.manager) s.loans
      → IsConsistent
          (store (Interfaces.remove_controller_reference_interfaces controller s.manager))
          s.loans
  unfolding Interfaces.remove_controller_reference_interfaces
  any-remove-IsConsistent controller s free h =
      elim (Option-cases (lookup controller s.manager.controllers_reference_interfaces_map)) [
        | inl e ↦ rw (e, Interfaces.remove_controller_reference_interfaces) h
        | inr (names, e) ↦
            rw (e, Interfaces.remove_controller_reference_interfaces)
              (remove_all-IsConsistent names _ s.loans (ground arith) h)
      ]

  abbrev Holds : LoanSystem D → Type 0
  Holds s = IsConsistent (store s.manager) s.loans

  step-IsConsistent :
      (p : Plugin D) (e : Event) (s : LoanSystem D) → Holds s → Holds (Loans.step p e s)
  unfolding Loans.step
  step-IsConsistent p (Event.claims key) s h = claim-IsConsistent key s.manager s.loans h
  step-IsConsistent p (Event.releases key) s h = elim (Bool-cases (has_item s.loans key)) [
    | inl e ↦ rw (e, Loans.step) (release-IsConsistent key s.manager s.loans e h)
    | inr e ↦ rw (e, Loans.step) h
  ]
  step-IsConsistent p (Event.imports controller interfaces) s h =
      import-IsConsistent controller interfaces s.manager s.loans h
  step-IsConsistent p (Event.removes controller) s h =
      elim (Bool-cases (Loans.are_free controller s)) [
        | inl e ↦ rw (e, Loans.step) (any-remove-IsConsistent controller s e h)
        | inr e ↦ rw (e, Loans.step) h
      ]
  step-IsConsistent p (Event.sets_state name target) s h =
      rw (set_component_state-KeepsStore p name target s.manager) h
  step-IsConsistent p (Event.reads env period) s h = rw (read-KeepsStore p env period s.manager) h
  step-IsConsistent p (Event.writes env period) s h = rw (write-KeepsStore p env period s.manager) h
  step-IsConsistent p (Event.prepares start stop) s h =
      rw (prepare-KeepsStore p start stop s.manager) h
  step-IsConsistent p (Event.performs start stop) s h =
      rw (perform-KeepsStore p start stop s.manager) h

  -- If the record of claims is consistent with the loans, it stays so in any history of claims,
  -- releases of live loans, imports and removals of free reference interfaces, lifecycle
  -- transitions, read and write cycles and mode switches, whatever the plugins do: an interface is
  -- recorded as claimed exactly if it is lent, and no interface is lent twice.
  pub run-IsConsistent :
      (p : Plugin D) (es : List Event) (s : LoanSystem D)
      → IsConsistent (store s.manager) s.loans
      → IsConsistent (store (Loans.run p es s).manager) (Loans.run p es s).loans
  unfolding Loans.run
  run-IsConsistent p [] s h = h
  run-IsConsistent p (e ∷ es) s h =
      run-IsConsistent p es (Loans.step p e s) (step-IsConsistent p e s h)
