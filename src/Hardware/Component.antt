-- ===== src/Hardware/Component.antt =====
-- hardware_interface/src/hardware_component.cpp, and the parts of hardware_component_interface.cpp
-- that it calls. A method is an action on the component: the component afterwards, and what was
-- returned or that an exception passed through. The component's mutex is held throughout, so a call
-- is one step.
pub mod Lifecycle
pub mod Cycles
use ros2_control.Base.{
  ℕ, ◌-◌, Bool, true, false, not, ◌&&◌, ◌||◌, Option, none, some, List, [], ◌∷◌, ◌++◌,
  if◌then◌else◌, ltb, Name, Outcome, returned, thrown, Action, ◌>>=◌, ◌>>◌, done, modify,
  read_state, when, branch,
}
use ros2_control.Base.Int.{ℤ, sub_ℕ}
use ros2_control.Hardware.Types.{
  LifecycleState, CallbackReturn, ReturnType, CycleStatus, requires_no_action, is_unknown,
  is_unconfigured, is_inactive, is_active, is_finalized, is_ok, is_error,
}
use ros2_control.Hardware.Plugin.{Plugin, Callback}

-- `HardwareComponentStatisticsCollector`: what was handed to `add_measurement` since the last
-- reset, in nanoseconds (the source hands on microseconds and the rate in Hz, as doubles).
pub record Statistics : Type 0 where
  pub execution_time : List ℕ
  pub periodicity : List ℤ

abbrev pub no_statistics : Statistics
no_statistics = record { execution_time = []; periodicity = [] }

-- A cycle time is `none` while its clock type is RCL_CLOCK_UNINITIALIZED.
pub record HardwareComponent (D : Type 0) : Type 0 where
  pub name : Name
  pub group : Name
  pub is_sensor : Bool
  pub is_async : Bool
  pub lifecycle_state : LifecycleState
  pub introspection : Bool
  pub last_read_cycle_time : Option ℕ
  pub last_write_cycle_time : Option ℕ
  pub read_statistics : Statistics
  pub write_statistics : Statistics
  pub read_return_info : ReturnType
  pub write_return_info : ReturnType
  pub read_execution_time : ℕ
  pub write_execution_time : ℕ
  pub device : D

abbrev pub ComponentAction : Type 0 → Type 0 → Type 0
ComponentAction D = Action (HardwareComponent D)

module _ {D : Type 0} where
  unfoldable pub set_lifecycle_state : LifecycleState → HardwareComponent D → HardwareComponent D
  set_lifecycle_state s c = record c { lifecycle_state = s }

  unfoldable pub enable_introspection : Bool → HardwareComponent D → HardwareComponent D
  enable_introspection b c = record c { introspection = b }

  abbrev pub get_lifecycle_state : HardwareComponent D → LifecycleState
  get_lifecycle_state c = c.lifecycle_state

  unfoldable pub prepare_for_activation : HardwareComponent D → HardwareComponent D
  prepare_for_activation c = record c {
    read_return_info = ReturnType.ok;
    read_execution_time = 0;
    write_return_info = ReturnType.ok;
    write_execution_time = 0;
  }

  -- The bookkeeping at the head of `activate`.
  unfoldable pub reset_cycles : HardwareComponent D → HardwareComponent D
  reset_cycles c = record c {
    last_read_cycle_time = none;
    last_write_cycle_time = none;
    read_statistics = no_statistics;
    write_statistics = if c.is_sensor then c.write_statistics else no_statistics;
  }

  abbrev pub become : LifecycleState → ComponentAction D (Unit {0})
  become s = modify λ c. record c { lifecycle_state = s }

  unfoldable pub call : Callback D → ComponentAction D CallbackReturn
  call f c = let (d, r) = f c.lifecycle_state c.device in (record c { device = d }, r)

  module _ (p : Plugin D) where
    unfoldable pub pause_async_operations : HardwareComponent D → HardwareComponent D
    pause_async_operations c =
        if c.is_async then record c { device = p.pause_execution c.device } else c

    unfoldable pub after_error : CallbackReturn → ComponentAction D (Unit {0})
    after_error CallbackReturn.success = become LifecycleState.unconfigured
    after_error CallbackReturn.failure = become LifecycleState.finalized
    after_error CallbackReturn.error = become LifecycleState.finalized

    unfoldable pub error : ComponentAction D LifecycleState
    unfolding enable_introspection pause_async_operations call after_error
    error = do
      modify (enable_introspection false)
      s ← read_state get_lifecycle_state
      when (not (is_unknown s) && not (is_unconfigured s))
          (do modify pause_async_operations; r ← call p.on_error; after_error r)
      read_state get_lifecycle_state

    abbrev handle_error : ComponentAction D (Unit {0})
    handle_error = do s ← error; become s

    unfoldable pub after_init : CallbackReturn → ComponentAction D (Unit {0})
    after_init CallbackReturn.success = become LifecycleState.unconfigured
    after_init CallbackReturn.failure = become LifecycleState.finalized
    after_init CallbackReturn.error = become LifecycleState.finalized

    unfoldable pub initialize : ComponentAction D LifecycleState
    unfolding call after_init
    initialize = do
      s ← read_state get_lifecycle_state
      when (is_unknown s) (do r ← call (λ _. p.init); after_init r)
      read_state get_lifecycle_state

    unfoldable pub after_configure : CallbackReturn → ComponentAction D (Unit {0})
    unfolding error
    after_configure CallbackReturn.success = become LifecycleState.inactive
    after_configure CallbackReturn.failure = become LifecycleState.unconfigured
    after_configure CallbackReturn.error = handle_error

    unfoldable pub configure : ComponentAction D LifecycleState
    unfolding pause_async_operations call after_configure
    configure = do
      s ← read_state get_lifecycle_state
      when (is_unconfigured s)
          (do modify pause_async_operations; r ← call p.on_configure; after_configure r)
      read_state get_lifecycle_state

    unfoldable pub after_cleanup : CallbackReturn → ComponentAction D (Unit {0})
    unfolding error
    after_cleanup CallbackReturn.success = become LifecycleState.unconfigured
    after_cleanup CallbackReturn.failure = handle_error
    after_cleanup CallbackReturn.error = handle_error

    unfoldable pub cleanup : ComponentAction D LifecycleState
    unfolding enable_introspection pause_async_operations call after_cleanup
    cleanup = do
      modify (enable_introspection false)
      s ← read_state get_lifecycle_state
      when (is_inactive s)
          (do modify pause_async_operations; r ← call p.on_cleanup; after_cleanup r)
      read_state get_lifecycle_state

    unfoldable pub after_shutdown : CallbackReturn → ComponentAction D (Unit {0})
    unfolding error
    after_shutdown CallbackReturn.success = become LifecycleState.finalized
    after_shutdown CallbackReturn.failure = handle_error
    after_shutdown CallbackReturn.error = handle_error

    unfoldable pub shutdown : ComponentAction D LifecycleState
    unfolding enable_introspection pause_async_operations call after_shutdown
    shutdown = do
      modify (enable_introspection false)
      s ← read_state get_lifecycle_state
      when (not (is_unknown s) && not (is_finalized s))
          (do modify pause_async_operations; r ← call p.on_shutdown; after_shutdown r)
      read_state get_lifecycle_state

    unfoldable pub after_activate : CallbackReturn → ComponentAction D (Unit {0})
    unfolding error enable_introspection
    after_activate CallbackReturn.success = do
      modify (enable_introspection true)
      become LifecycleState.active
    after_activate CallbackReturn.failure = become LifecycleState.inactive
    after_activate CallbackReturn.error = handle_error

    unfoldable pub activate : ComponentAction D LifecycleState
    unfolding reset_cycles pause_async_operations prepare_for_activation call after_activate
    activate = do
      modify reset_cycles
      s ← read_state get_lifecycle_state
      when (is_inactive s) (do
        modify pause_async_operations
        modify prepare_for_activation
        r ← call p.on_activate
        after_activate r)
      read_state get_lifecycle_state

    unfoldable pub after_deactivate : CallbackReturn → ComponentAction D (Unit {0})
    unfolding error
    after_deactivate CallbackReturn.success = become LifecycleState.inactive
    after_deactivate CallbackReturn.failure = become LifecycleState.active
    after_deactivate CallbackReturn.error = handle_error

    unfoldable pub deactivate : ComponentAction D LifecycleState
    unfolding enable_introspection pause_async_operations call after_deactivate
    deactivate = do
      modify (enable_introspection false)
      s ← read_state get_lifecycle_state
      when (is_active s)
          (do modify pause_async_operations; r ← call p.on_deactivate; after_deactivate r)
      read_state get_lifecycle_state

    -- `trigger_read` of a component that is not asynchronous
    unfoldable pub timed_read : ℕ → ℤ → ComponentAction D CycleStatus
    timed_read time period c =
        let (d, r) = p.read time period c.device in
        let c' : HardwareComponent D = record c { device = d } in
        elim r [
          | returned v ↦ (
            c',
            returned (record {
              successful = true;
              result = v;
              execution_time = some (p.steady_clock d - p.steady_clock c.device);
            }),
          )
          | thrown ↦ (c', thrown)
        ]

    -- of one that is: what the thread noted of its last run, while it is woken for the next
    unfoldable pub async_read : ℕ → ℤ → ComponentAction D CycleStatus
    async_read time period c =
        let (d, triggered) = p.trigger_async_callback time period c.device in
        let spent = if ltb 0 c.read_execution_time then some c.read_execution_time else none in
        let result = if triggered then c.read_return_info else ReturnType.ok in
        (
          record c { device = d },
          returned (record { successful = triggered; result = result; execution_time = spent }),
        )

    unfoldable pub trigger_read : ℕ → ℤ → ComponentAction D CycleStatus
    unfolding timed_read async_read
    trigger_read time period c =
        branch c.is_async (async_read time period) (timed_read time period) c

    unfoldable pub timed_write : ℕ → ℤ → ComponentAction D CycleStatus
    timed_write time period c =
        let (d, r) = p.write time period c.device in
        let c' : HardwareComponent D = record c { device = d } in
        elim r [
          | returned v ↦ (
            c',
            returned (record {
              successful = true;
              result = v;
              execution_time = some (p.steady_clock d - p.steady_clock c.device);
            }),
          )
          | thrown ↦ (c', thrown)
        ]

    unfoldable pub async_write : ComponentAction D CycleStatus
    async_write c =
        let spent = if ltb 0 c.write_execution_time then some c.write_execution_time else none in
        (
          c,
          returned
              (record { successful = true; result = c.write_return_info; execution_time = spent }),
        )

    unfoldable pub trigger_write : ℕ → ℤ → ComponentAction D CycleStatus
    unfolding timed_write async_write
    trigger_write time period c = branch c.is_async async_write (timed_write time period) c

    abbrev add_execution_time : Option ℕ → Statistics → Statistics
    add_execution_time none st = st
    add_execution_time (some t) st = record st { execution_time = st.execution_time ++ t ∷ [] }

    abbrev add_period : Option ℕ → ℕ → Statistics → Statistics
    add_period none time st = st
    add_period (some last) time st = record st {
      periodicity = st.periodicity ++ sub_ℕ time last ∷ [];
    }

    unfoldable pub record_read : ℕ → CycleStatus → HardwareComponent D → HardwareComponent D
    record_read time status c =
        if status.successful
        then record c {
          read_statistics =
              add_period c.last_read_cycle_time time
                (add_execution_time status.execution_time c.read_statistics);
          last_read_cycle_time = some time;
        }
        else c

    unfoldable pub record_write : ℕ → CycleStatus → HardwareComponent D → HardwareComponent D
    record_write time status c =
        if status.successful
        then record c {
          write_statistics =
              add_period c.last_write_cycle_time time
                (add_execution_time status.execution_time c.write_statistics);
          last_write_cycle_time = some time;
        }
        else c

    unfoldable pub active_read : ℕ → ℤ → ComponentAction D ReturnType
    unfolding trigger_read record_read error
    active_read time period = do
      status ← trigger_read time period
      when (is_error status.result) (do s ← error; done tt)
      modify (record_read time status)
      done status.result

    abbrev idle_read : ℕ → ComponentAction D ReturnType
    idle_read time c = (record c { last_read_cycle_time = some time }, returned ReturnType.ok)

    unfoldable pub read : ℕ → ℤ → ComponentAction D ReturnType
    unfolding active_read requires_no_action
    read time period c =
        let s = c.lifecycle_state in
        branch (requires_no_action s) (idle_read time)
          (branch (is_inactive s || is_active s) (active_read time period) (done ReturnType.ok)) c

    unfoldable pub active_write : ℕ → ℤ → ComponentAction D ReturnType
    unfolding trigger_write record_write error
    active_write time period = do
      status ← trigger_write time period
      when (is_error status.result) (do s ← error; done tt)
      modify (record_write time status)
      done status.result

    abbrev idle_write : ℕ → ComponentAction D ReturnType
    idle_write time c = (record c { last_write_cycle_time = some time }, returned ReturnType.ok)

    unfoldable pub write : ℕ → ℤ → ComponentAction D ReturnType
    unfolding active_write requires_no_action
    write time period c =
        let s = c.lifecycle_state in
        branch c.is_sensor (done ReturnType.ok)
          (branch (requires_no_action s) (idle_write time)
            (branch (is_active s) (active_write time period) (done ReturnType.ok)))
          c

    unfoldable pub prepare_command_mode_switch :
        List Name → List Name → ComponentAction D ReturnType
    prepare_command_mode_switch start stop c =
        let (d, r) = p.prepare_command_mode_switch start stop c.device in
        (record c { device = d }, r)

    unfoldable pub perform_command_mode_switch :
        List Name → List Name → ComponentAction D ReturnType
    perform_command_mode_switch start stop c =
        let (d, r) = p.perform_command_mode_switch start stop c.device in
        (record c { device = d }, r)
