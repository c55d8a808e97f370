-- ===== src/Resource/Cycle.antt =====
-- `ResourceManager::read` and `write`: one cycle over all components.
use ros2_control.Base.{
  ℕ, zero, suc, ◌+◌, Bool, true, not, ◌||◌, Option, none, some, [], ◌∷◌, ◌++◌, if◌then◌else◌, ◌==◌,
  length, Name, returned, thrown, ◌>>=◌, ◌>>◌, done, modify, read_state, when, branch,
}
use ros2_control.Base.Int.{ℤ, sub_ℕ}
use ros2_control.Hardware.Types.{LifecycleState, ReturnType, is_ok}
use ros2_control.Hardware.Plugin.{Plugin}
use ros2_control.Hardware.Component
use ros2_control.Hardware.Component.{HardwareComponent, Statistics, ComponentAction}
use ros2_control.Resource.Storage.{
  HardwareComponentInfo, ResourceManager, ManagerAction, ReadWriteStatus, Kind, container,
  hardware_info, touch_hardware_info, set_hardware_info, update_hardware_component_group_state,
}
use ros2_control.Resource.Transitions.{
  Focus, FocusAction, focus, on_hardware, on_manager, make_unavailable,
}
use ros2_control.Resource.Components.{set_component_state}

-- What the processor and rclcpp do with a `double`, as parameters: a double is the number that its 64
-- bits write. `seconds` and `from_seconds` are those of `rclcpp::Duration`, of nanoseconds.
pub record Doubles : Type 0 where
  -- the conversion of an unsigned number
  pub from_ℕ : ℕ → ℕ
  pub seconds : ℤ → ℕ
  pub from_seconds : ℕ → ℤ
  pub add : ℕ → ℕ → ℕ
  pub sub : ℕ → ℕ → ℕ
  pub mul : ℕ → ℕ → ℕ
  pub div : ℕ → ℕ → ℕ
  pub abs : ℕ → ℕ
  -- `<=`
  pub le : ℕ → ℕ → Bool

-- What other threads and the clock decide: whether the lock on the resources, or that on a
-- component's mutex, is held elsewhere, and the time at which a component's turn comes. With them, the
-- arithmetic of doubles.
pub record Surroundings : Type 0 where
  pub resources_locked : Bool
  pub is_locked : Name → Bool
  pub now : Name → ℕ
  pub doubles : Doubles

-- `1.0 / rate`
unfoldable pub period_of : Doubles → ℕ → ℕ
period_of d rate = d.div (d.from_ℕ 1) (d.from_ℕ rate)

-- How far a time in seconds is from one period: `std::abs(time * rate - 1.0)`.
unfoldable pub rate_error : Doubles → ℕ → ℕ → ℕ
rate_error d rate time = d.abs (d.sub (d.mul time (d.from_ℕ rate)) (d.from_ℕ 1))

-- `error_now <= error_if_skipped` for a rate in Hz, the manager's update rate and the elapsed time.
unfoldable pub is_due : Doubles → ℕ → ℕ → ℤ → Bool
unfolding period_of rate_error
is_due d rate update_rate elapsed =
    let error_now = rate_error d rate (d.seconds elapsed) in
    let error_if_skipped =
      rate_error d rate (d.add (d.seconds elapsed) (period_of d update_rate)) in
    d.le error_now error_if_skipped

-- The time since the last cycle; a first cycle is given one period of its rate.
unfoldable pub elapsed_since : Doubles → Option ℕ → ℕ → ℕ → ℤ
unfolding period_of
elapsed_since d none now rate = d.from_seconds (period_of d rate)
elapsed_since d (some last) now rate = sub_ℕ now last

abbrev pub refresh : Option Statistics → Statistics → Option Statistics
refresh none st = none
refresh (some old) st = some st

module _ {D : Type 0} where
  abbrev is_every_cycle : HardwareComponentInfo → ResourceManager D → Bool
  is_every_cycle info r = info.rw_rate == 0 || info.rw_rate == r.cm_update_rate

  -- Read or write a component if its own rate wants it in this cycle.
  unfoldable pub at_rate :
      Doubles
      → (ℕ → ℤ → ComponentAction D ReturnType)
      → Option ℕ
      → HardwareComponentInfo
      → ℕ
      → ℤ
      → FocusAction D ReturnType
  unfolding is_due elapsed_since
  at_rate d cycle last info now period f =
      let elapsed = elapsed_since d last now info.rw_rate in
      branch (is_every_cycle info f.manager) (on_hardware (cycle now period))
        (branch (is_due d info.rw_rate f.manager.cm_update_rate elapsed)
          (on_hardware (cycle now elapsed)) (done ReturnType.ok))
        f

  abbrev refresh_read_statistics : Focus D → Focus D
  refresh_read_statistics f =
      let info = hardware_info f.hardware.name f.manager in
      on_manager
        (set_hardware_info f.hardware.name (record info {
          read_statistics = refresh info.read_statistics f.hardware.read_statistics;
        }))
        f

  abbrev refresh_write_statistics : Focus D → Focus D
  refresh_write_statistics f =
      let info = hardware_info f.hardware.name f.manager in
      on_manager
        (set_hardware_info f.hardware.name (record info {
          write_statistics = refresh info.write_statistics f.hardware.write_statistics;
        }))
        f

  abbrev update_group : ReturnType → FocusAction D ReturnType
  update_group value f =
      let (r, o) = update_hardware_component_group_state f.hardware.group value f.manager in
      (record f { manager = r }, o)

  -- An exception counts as an error, unless exceptions are passed on.
  abbrev error_if_thrown : FocusAction D ReturnType → FocusAction D ReturnType
  error_if_thrown m f =
      let (f', o) = m f in
      elim o [
        | returned value ↦ (f', returned value)
        | thrown ↦
            if f'.manager.handle_exceptions then (f', returned ReturnType.error) else (f', thrown)
      ]

  abbrev note_failure : ReturnType → Bool → Name → ResourceManager D → ResourceManager D
  note_failure result named name r =
      let names = r.read_write_status.failed_hardware_names in
      record r {
        read_write_status = record {
          result = result;
          failed_hardware_names = if named then names ++ name ∷ [] else names;
        };
      }

  abbrev pub clear_status : ResourceManager D → ResourceManager D
  clear_status r = record r {
    read_write_status = record { result = ReturnType.ok; failed_hardware_names = [] };
  }

  abbrev pub get_name : Focus D → Name
  get_name f = f.hardware.name

  module _ (p : Plugin D) (env : Surroundings) (period : ℤ) where
    -- The body of the `try` block.
    unfoldable pub try_read : FocusAction D ReturnType
    try_read = do
      name ← read_state get_name
      modify (on_manager (touch_hardware_info name))
      info ← read_state λ f. hardware_info name f.manager
      last ← read_state λ f. f.hardware.last_read_cycle_time
      value ← at_rate env.doubles (Component.read p) last info (env.now name) period
      modify refresh_read_statistics
      update_group value

    -- A component that failed, or whose group did: `error`, and its interfaces are taken away.
    unfoldable pub fail_component : ReturnType → FocusAction D (Unit {0})
    fail_component result = do
      s ← on_hardware (Component.error p)
      name ← read_state get_name
      modify (on_manager (note_failure result true name))
      modify make_unavailable

    unfoldable pub read_unlocked : FocusAction D (Unit {0})
    read_unlocked = do
      value ← error_if_thrown try_read
      when (not (is_ok value)) (fail_component ReturnType.error)

    unfoldable pub read_component : FocusAction D (Unit {0})
    read_component f = branch (env.is_locked f.hardware.name) (done tt) read_unlocked f

    -- The components from index `i` on, `n` of them.
    unfoldable pub read_components : Kind → ℕ → ℕ → ManagerAction D (Unit {0})
    read_components k zero i = done tt
    read_components k (suc n) i = do focus k i read_component; read_components k n (i + 1)

    unfoldable pub read_all : Kind → ManagerAction D (Unit {0})
    read_all k r = read_components k (length (container k r)) 0 r

    unfoldable pub read : ManagerAction D ReadWriteStatus
    read = do
      modify clear_status
      when (not env.resources_locked)
          (do read_all Kind.actuator; read_all Kind.sensor; read_all Kind.system)
      read_state λ r. r.read_write_status

    unfoldable pub try_write : FocusAction D ReturnType
    try_write = do
      name ← read_state get_name
      modify (on_manager (touch_hardware_info name))
      info ← read_state λ f. hardware_info name f.manager
      last ← read_state λ f. f.hardware.last_write_cycle_time
      value ← at_rate env.doubles (Component.write p) last info (env.now name) period
      modify refresh_write_statistics
      update_group value

    -- The write itself; `ok` for a component whose mutex is held elsewhere.
    unfoldable pub write_unlocked : FocusAction D ReturnType
    write_unlocked f =
        branch (env.is_locked f.hardware.name) (done ReturnType.ok) (error_if_thrown try_write) f

    -- What a DEACTIVATE does: `set_component_state` finds the component by its name.
    unfoldable pub deactivate_component : Name → ManagerAction D (Unit {0})
    deactivate_component name = do
      s ← set_component_state p name LifecycleState.inactive
      named ← read_state λ r. r.return_failed_hardware_names_on_return_deactivate_write_cycle
      modify (note_failure ReturnType.deactivate named name)

    unfoldable pub after_write : Kind → ℕ → ReturnType → ManagerAction D (Unit {0})
    after_write k i ReturnType.ok = done tt
    after_write k i ReturnType.error = focus k i (fail_component ReturnType.error)
    after_write k i ReturnType.deactivate = do
      name ← focus k i (read_state get_name)
      deactivate_component name

    unfoldable pub write_component : Kind → ℕ → ManagerAction D (Unit {0})
    write_component k i = do value ← focus k i write_unlocked; after_write k i value

    unfoldable pub write_components : Kind → ℕ → ℕ → ManagerAction D (Unit {0})
    write_components k zero i = done tt
    write_components k (suc n) i = do write_component k i; write_components k n (i + 1)

    unfoldable pub write_all : Kind → ManagerAction D (Unit {0})
    write_all k r = write_components k (length (container k r)) 0 r

    unfoldable pub write : ManagerAction D ReadWriteStatus
    write = do
      modify clear_status
      when (not env.resources_locked) (do write_all Kind.actuator; write_all Kind.system)
      read_state λ r. r.read_write_status
