-- ===== src/Resource/Claims/Loans.antt =====
-- The manager together with the loans that its clients hold. A `LoanedCommandInterface`
-- (loaned_command_interface.hpp) is the loan: its destructor releases the interface, once.
use ros2_control.Base.{
  Bool, false, not, ◌||◌, Option, none, some, List, [], ◌∷◌, Name, has_item, remove_item, lookup,
  Outcome, returned, thrown, if◌then◌else◌,
}
use ros2_control.Base.Int.{ℤ}
use ros2_control.Hardware.Types.{LifecycleState}
use ros2_control.Hardware.Plugin.{Plugin}
use ros2_control.Resource.Storage.{ResourceManager, Interface}
use ros2_control.Resource.Interfaces
use ros2_control.Resource.Components
use ros2_control.Resource.Cycle
use ros2_control.Resource.Cycle.{Surroundings}
use ros2_control.Resource.Switch

pub record LoanSystem (D : Type 0) : Type 0 where
  pub manager : ResourceManager D
  pub loans : List Name

pub data Event : Type 0 where
  claims releases : Name → Event
  imports : Name → List Interface → Event
  removes : Name → Event
  sets_state : Name → LifecycleState → Event
  reads writes : Surroundings → ℤ → Event
  prepares performs : List Name → List Name → Event

-- Whether one of the interfaces is lent.
unfoldable pub any_lent : List Name → List Name → Bool
any_lent loans [] = false
any_lent loans (name ∷ names) = has_item loans name || any_lent loans names

abbrev pub lend : Name → Outcome Interface → List Name → List Name
lend key (returned itf) loans = key ∷ loans
lend key thrown loans = loans

abbrev reference_interfaces : Option (List Name) → List Name
reference_interfaces none = []
reference_interfaces (some names) = names

module _ {D : Type 0} where
  -- Whether the controller's reference interfaces are free, as they are once all controllers that
  -- use them are inactive.
  abbrev pub are_free : Name → LoanSystem D → Bool
  are_free controller s = not (
      any_lent s.loans
        (reference_interfaces (lookup controller s.manager.controllers_reference_interfaces_map)))

  unfoldable pub step : Plugin D → Event → LoanSystem D → LoanSystem D
  step p (Event.claims key) s =
      let (r, o) = Interfaces.claim_command_interface key s.manager in
      record { manager = r; loans = lend key o s.loans }
  step p (Event.releases key) s =
      if has_item s.loans key
      then record {
        manager = Interfaces.release_command_interface key s.manager;
        loans = remove_item s.loans key;
      }
      else s
  step p (Event.imports controller interfaces) s = record s {
    manager = (Interfaces.import_controller_reference_interfaces controller interfaces s.manager).0;
  }
  step p (Event.removes controller) s =
      if are_free controller s
      then record s {
        manager = Interfaces.remove_controller_reference_interfaces controller s.manager;
      }
      else s
  step p (Event.sets_state name target) s = record s {
    manager = (Components.set_component_state p name target s.manager).0;
  }
  step p (Event.reads env period) s = record s { manager = (Cycle.read p env period s.manager).0 }
  step p (Event.writes env period) s = record s { manager = (Cycle.write p env period s.manager).0 }
  step p (Event.prepares start stop) s = record s {
    manager = (Switch.prepare_command_mode_switch p start stop s.manager).0;
  }
  step p (Event.performs start stop) s = record s {
    manager = (Switch.perform_command_mode_switch p start stop s.manager).0;
  }

  unfoldable pub run : Plugin D → List Event → LoanSystem D → LoanSystem D
  run p [] s = s
  run p (e ∷ es) s = run p es (step p e s)
