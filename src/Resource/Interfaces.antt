-- ===== src/Resource/Interfaces.antt =====
-- The interfaces that hardware and chainable controllers export, who may use them, and who does
-- (`add_state_interfaces` to `remove_command_interfaces` of `ResourceStorage`, and
-- `claim_state_interface` to `command_interface_is_available` of `ResourceManager`).
use ros2_control.Base.{
  Bool, true, false, Option, none, some, List, [], ◌∷◌, ◌++◌, if◌then◌else◌, Name, has_item,
  add_items, remove_items, lookup, assign, emplace, erase, has_key, returned, thrown, ◌>>=◌, ◌>>◌,
  done, raise, modify, read_state, branch,
}
use ros2_control.Resource.Storage.{ResourceManager, ManagerAction, Interface}

module _ {D : Type 0} where
  -- `add_state_interface`: `thrown` if the name is taken.
  unfoldable pub add_state_interface : Interface → ManagerAction D Name
  add_state_interface itf r =
      branch (has_key itf.name r.state_interface_map) raise
        (do
          modify λ s. record s { state_interface_map = emplace itf.name itf s.state_interface_map }
          done itf.name)
        r

  -- The exception is caught for each interface, unless exceptions are passed on.
  unfoldable pub caught_add_state_interface : Interface → ManagerAction D (List Name)
  unfolding add_state_interface
  caught_add_state_interface itf r =
      let (r', added) = add_state_interface itf r in
      elim added [
        | returned name ↦ (r', returned (name ∷ []))
        | thrown ↦ if r'.handle_exceptions then (r', returned []) else (r', thrown)
      ]

  unfoldable pub add_state_interfaces : List Interface → ManagerAction D (List Name)
  unfolding caught_add_state_interface
  add_state_interfaces [] = done []
  add_state_interfaces (itf ∷ interfaces) = do
    names ← caught_add_state_interface itf
    more ← add_state_interfaces interfaces
    done (names ++ more)

  unfoldable pub remove_state_interfaces : List Name → ResourceManager D → ResourceManager D
  remove_state_interfaces [] r = r
  remove_state_interfaces (name ∷ names) r =
      remove_state_interfaces names
        (record r { state_interface_map = erase name r.state_interface_map })

  unfoldable pub insert_command_interface : Interface → ManagerAction D (Unit {0})
  insert_command_interface itf r =
      branch (has_key itf.name r.command_interface_map) raise
        (modify
          λ s. record s { command_interface_map = emplace itf.name itf s.command_interface_map })
        r

  abbrev start_unclaimed : Name → ResourceManager D → ResourceManager D
  start_unclaimed key r = record r {
    claimed_command_interface_map = emplace key false r.claimed_command_interface_map;
  }

  unfoldable pub add_command_interfaces : List Interface → ManagerAction D (List Name)
  unfolding insert_command_interface
  add_command_interfaces [] = done []
  add_command_interfaces (itf ∷ interfaces) = do
    insert_command_interface itf
    modify (start_unclaimed itf.name)
    more ← add_command_interfaces interfaces
    done (itf.name ∷ more)

  unfoldable pub remove_command_interfaces : List Name → ResourceManager D → ResourceManager D
  remove_command_interfaces [] r = r
  remove_command_interfaces (name ∷ names) r = remove_command_interfaces names (record r {
    command_interface_map = erase name r.command_interface_map;
    claimed_command_interface_map = erase name r.claimed_command_interface_map;
  })

  unfoldable pub state_interface_is_available : Name → ResourceManager D → Bool
  state_interface_is_available name r = has_item r.available_state_interfaces name

  unfoldable pub command_interface_is_available : Name → ResourceManager D → Bool
  command_interface_is_available name r = has_item r.available_command_interfaces name

  abbrev pub command_interface_exists : Name → ResourceManager D → Bool
  command_interface_exists key r = has_key key r.command_interface_map

  abbrev at : {A : Type 0} → Option A → ManagerAction D A
  at none = raise
  at (some a) = done a

  unfoldable pub claim_state_interface : Name → ManagerAction D Interface
  unfolding state_interface_is_available
  claim_state_interface key r =
      branch (state_interface_is_available key r) (at (lookup key r.state_interface_map)) raise r

  unfoldable pub command_interface_is_claimed : Name → ManagerAction D Bool
  unfolding command_interface_is_available
  command_interface_is_claimed key r =
      branch (command_interface_is_available key r)
        (at (lookup key r.claimed_command_interface_map)) (done false) r

  abbrev set_claimed : Name → Bool → ResourceManager D → ResourceManager D
  set_claimed key b r = record r {
    claimed_command_interface_map = assign key b r.claimed_command_interface_map;
  }

  unfoldable pub claim_unclaimed : Name → Bool → ManagerAction D Interface
  claim_unclaimed key true = raise
  claim_unclaimed key false = do
    modify (set_claimed key true)
    map ← read_state (λ r. r.command_interface_map)
    at (lookup key map)

  -- The interface that is returned stands for the loan: its destructor calls
  -- `release_command_interface` with the same key.
  unfoldable pub claim_command_interface : Name → ManagerAction D Interface
  unfolding command_interface_is_available command_interface_is_claimed claim_unclaimed
  claim_command_interface key r =
      branch (command_interface_is_available key r)
        (do claimed ← command_interface_is_claimed key; claim_unclaimed key claimed) raise r

  unfoldable pub release_command_interface : Name → ResourceManager D → ResourceManager D
  release_command_interface key r = set_claimed key false r

  unfoldable pub import_controller_exported_state_interfaces :
      Name → List Interface → ManagerAction D (Unit {0})
  unfolding add_state_interfaces
  import_controller_exported_state_interfaces controller interfaces = do
    names ← add_state_interfaces interfaces
    modify λ r. record r {
      controllers_exported_state_interfaces_map =
          assign controller names r.controllers_exported_state_interfaces_map;
    }

  unfoldable pub import_controller_reference_interfaces :
      Name → List Interface → ManagerAction D (Unit {0})
  unfolding add_command_interfaces
  import_controller_reference_interfaces controller interfaces = do
    names ← add_command_interfaces interfaces
    modify λ r. record r {
      controllers_reference_interfaces_map =
          assign controller names r.controllers_reference_interfaces_map;
    }

  unfoldable pub make_controller_exported_state_interfaces_available :
      Name → ManagerAction D (Unit {0})
  make_controller_exported_state_interfaces_available controller = do
    map ← read_state (λ r. r.controllers_exported_state_interfaces_map)
    names ← at (lookup controller map)
    modify
        λ r. record r { available_state_interfaces = add_items r.available_state_interfaces names }

  unfoldable pub make_controller_exported_state_interfaces_unavailable :
      Name → ManagerAction D (Unit {0})
  make_controller_exported_state_interfaces_unavailable controller = do
    map ← read_state (λ r. r.controllers_exported_state_interfaces_map)
    names ← at (lookup controller map)
    modify λ r. record r {
      available_state_interfaces = remove_items r.available_state_interfaces names;
    }

  unfoldable pub make_controller_reference_interfaces_available : Name → ManagerAction D (Unit {0})
  make_controller_reference_interfaces_available controller = do
    map ← read_state (λ r. r.controllers_reference_interfaces_map)
    names ← at (lookup controller map)
    modify λ r. record r {
      available_command_interfaces = add_items r.available_command_interfaces names;
    }

  unfoldable pub make_controller_reference_interfaces_unavailable :
      Name → ManagerAction D (Unit {0})
  make_controller_reference_interfaces_unavailable controller = do
    map ← read_state (λ r. r.controllers_reference_interfaces_map)
    names ← at (lookup controller map)
    modify λ r. record r {
      available_command_interfaces = remove_items r.available_command_interfaces names;
    }

  unfoldable pub remove_controller_exported_state_interfaces :
      Name → ResourceManager D → ResourceManager D
  unfolding remove_state_interfaces
  remove_controller_exported_state_interfaces controller r =
      elim (lookup controller r.controllers_exported_state_interfaces_map) [
        | none ↦ r
        | some names ↦ remove_state_interfaces names (record r {
          controllers_exported_state_interfaces_map =
              erase controller r.controllers_exported_state_interfaces_map;
        })
      ]

  unfoldable pub remove_controller_reference_interfaces :
      Name → ResourceManager D → ResourceManager D
  unfolding remove_command_interfaces
  remove_controller_reference_interfaces controller r =
      elim (lookup controller r.controllers_reference_interfaces_map) [
        | none ↦ r
        | some names ↦ remove_command_interfaces names (record r {
          controllers_reference_interfaces_map =
              erase controller r.controllers_reference_interfaces_map;
        })
      ]
