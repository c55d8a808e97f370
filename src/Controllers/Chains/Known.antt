-- ===== src/Controllers/Chains/Known.antt =====
-- Which interfaces there can be: making the exports of a controller available adds none.
use ros2_control.Base.{
  ◌≡◌, Bool, true, some, List, Name, arith, has_item, has_item-add_items, lookup, inl, inr,
  Option-cases,
}
use ros2_control.Resource.Storage.{ResourceManager}
use ros2_control.Resource.Interfaces

-- The names of a list are in a set.
abbrev pub Within : (Name → Bool) → List Name → Type 0
Within known names = (k : Name) → has_item names k ≡ true → known k ≡ true

-- All interfaces that are available, or that controllers export, are known.
pub record KnownInterfaces {D : Type 0} (known : Name → Bool) (r : ResourceManager D) : Type 0 where
  pub commands : Within known r.available_command_interfaces
  pub states : Within known r.available_state_interfaces
  pub references :
      (c : Name) (names : List Name)
      → lookup c r.controllers_reference_interfaces_map ≡ some names
      → Within known names
  pub exported :
      (c : Name) (names : List Name)
      → lookup c r.controllers_exported_state_interfaces_map ≡ some names
      → Within known names

module _ {D : Type 0} (known : Name → Bool) where
  pub states_available-KnownInterfaces :
      (c : Name) (r : ResourceManager D)
      → KnownInterfaces known r
      → KnownInterfaces known (Interfaces.make_controller_exported_state_interfaces_available c r).0
  unfolding Interfaces.make_controller_exported_state_interfaces_available
  states_available-KnownInterfaces c r h =
      elim (Option-cases (lookup c r.controllers_exported_state_interfaces_map)) [
        | inl e ↦ rw (e, Interfaces.make_controller_exported_state_interfaces_available) h
        | inr (names, e) ↦
            rw (e, Interfaces.make_controller_exported_state_interfaces_available)
              (record {
                commands = h.commands;
                states = λ k i. ground (
                  arith,
                  has_item-add_items r.available_state_interfaces names k,
                  h.states k,
                  h.exported c names e k,
                );
                references = h.references;
                exported = h.exported;
              })
      ]

  pub references_available-KnownInterfaces :
      (c : Name) (r : ResourceManager D)
      → KnownInterfaces known r
      → KnownInterfaces known (Interfaces.make_controller_reference_interfaces_available c r).0
  unfolding Interfaces.make_controller_reference_interfaces_available
  references_available-KnownInterfaces c r h =
      elim (Option-cases (lookup c r.controllers_reference_interfaces_map)) [
        | inl e ↦ rw (e, Interfaces.make_controller_reference_interfaces_available) h
        | inr (names, e) ↦
            rw (e, Interfaces.make_controller_reference_interfaces_available)
              (record {
                commands = λ k i. ground (
                  arith,
                  has_item-add_items r.available_command_interfaces names k,
                  h.commands k,
                  h.references c names e k,
                );
                states = h.states;
                references = h.references;
                exported = h.exported;
              })
      ]
