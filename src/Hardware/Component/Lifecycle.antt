-- ===== src/Hardware/Component/Lifecycle.antt =====
-- The lifecycle of a component (hardware_component.cpp): which transitions its methods make.
use ros2_control.Base.{
  ℕ, ◌≡◌, ◌↔◌, ◌⊎◌, Bool, true, false, ◌||◌, ◌&&◌, List, [], ◌∷◌, arith, returned, All, inr,
}
use ros2_control.Base.Int.{ℤ}
use ros2_control.Hardware.Types.{
  LifecycleState, CallbackReturn, is_unknown, is_unconfigured, is_inactive, is_active, is_finalized,
}
use ros2_control.Hardware.Plugin.{Plugin}
use ros2_control.Hardware.Component
use ros2_control.Hardware.Component.{HardwareComponent}

pub data Method : Type 0 where
  initializes configures cleans_up shuts_down activates deactivates handles_error : Method
  reads writes : ℕ → ℤ → Method

unfoldable pub is_handles_error : Method → Bool
is_handles_error Method.handles_error = true
is_handles_error _ = false

-- The component after a call, whether the call returned or threw.
unfoldable pub next : {D : Type 0} → Plugin D → Method → HardwareComponent D → HardwareComponent D
next p Method.initializes c = (Component.initialize p c).0
next p Method.configures c = (Component.configure p c).0
next p Method.cleans_up c = (Component.cleanup p c).0
next p Method.shuts_down c = (Component.shutdown p c).0
next p Method.activates c = (Component.activate p c).0
next p Method.deactivates c = (Component.deactivate p c).0
next p Method.handles_error c = (Component.error p c).0
next p (Method.reads time period) c = (Component.read p time period c).0
next p (Method.writes time period) c = (Component.write p time period c).0

unfoldable pub run :
    {D : Type 0} → Plugin D → List Method → HardwareComponent D → HardwareComponent D
run p [] c = c
run p (m ∷ ms) c = run p ms (next p m c)

abbrev same : LifecycleState → LifecycleState → Bool
same LifecycleState.unknown t = is_unknown t
same LifecycleState.unconfigured t = is_unconfigured t
same LifecycleState.inactive t = is_inactive t
same LifecycleState.active t = is_active t
same LifecycleState.finalized t = is_finalized t

-- A component whose error handling is done is unconfigured again, or finalized.
abbrev gives_up : LifecycleState → Bool
gives_up t = is_unconfigured t || is_finalized t

-- The transitions of each method, besides staying in the same state.
abbrev pub moves : Method → LifecycleState → LifecycleState → Bool
moves Method.initializes s t = is_unknown s && gives_up t
moves Method.configures s t = is_unconfigured s && is_inactive t
moves Method.cleans_up s t = is_inactive s && gives_up t
moves Method.shuts_down s t =
    (is_unconfigured s && is_finalized t) || ((is_inactive s || is_active s) && gives_up t)
moves Method.activates s t = is_inactive s && (is_active t || gives_up t)
moves Method.deactivates s t = is_active s && (is_inactive t || gives_up t)
moves Method.handles_error s t =
    ((is_inactive s || is_active s) && gives_up t) || (is_finalized s && is_unconfigured t)
moves (Method.reads time period) s t = (is_inactive s || is_active s) && gives_up t
moves (Method.writes time period) s t = is_active s && gives_up t

abbrev pub Allowed : Method → LifecycleState → LifecycleState → Type 0
Allowed m s t = (same s t || moves m s t) ≡ true

module _ {D : Type 0} (p : Plugin D) (c : HardwareComponent D) where
  error-Allowed :
      Allowed Method.handles_error c.lifecycle_state (Component.error p c).0.lifecycle_state
  unfolding Component.error
  error-Allowed = ground arith

  initialize-Allowed :
      Allowed Method.initializes c.lifecycle_state (Component.initialize p c).0.lifecycle_state
  unfolding Component.initialize
  initialize-Allowed = ground arith

  configure-Allowed :
      Allowed Method.configures c.lifecycle_state (Component.configure p c).0.lifecycle_state
  unfolding Component.configure
  configure-Allowed = ground arith

  cleanup-Allowed :
      Allowed Method.cleans_up c.lifecycle_state (Component.cleanup p c).0.lifecycle_state
  unfolding Component.cleanup
  cleanup-Allowed = ground arith

  shutdown-Allowed :
      Allowed Method.shuts_down c.lifecycle_state (Component.shutdown p c).0.lifecycle_state
  unfolding Component.shutdown
  shutdown-Allowed = ground arith

  activate-Allowed :
      Allowed Method.activates c.lifecycle_state (Component.activate p c).0.lifecycle_state
  unfolding Component.activate
  activate-Allowed = ground arith

  deactivate-Allowed :
      Allowed Method.deactivates c.lifecycle_state (Component.deactivate p c).0.lifecycle_state
  unfolding Component.deactivate
  deactivate-Allowed = ground arith

  read-Allowed :
      (time : ℕ) (period : ℤ)
      → Allowed
          (Method.reads time period)
          c.lifecycle_state
          (Component.read p time period c).0.lifecycle_state
  unfolding Component.read
  read-Allowed time period = ground arith

  write-Allowed :
      (time : ℕ) (period : ℤ)
      → Allowed
          (Method.writes time period)
          c.lifecycle_state
          (Component.write p time period c).0.lifecycle_state
  unfolding Component.write
  write-Allowed time period = ground arith

-- Whatever the plugin returns or throws, a call leaves the component in the state it was in or makes
-- a transition that the table `moves` has for its method: configuring leads from unconfigured to
-- inactive only, an activation from inactive to active or, by way of `on_error`, to unconfigured or
-- finalized, and so on.
pub next-Allowed :
    {D : Type 0} (p : Plugin D) (m : Method) (c : HardwareComponent D)
    → Allowed m c.lifecycle_state (next p m c).lifecycle_state
unfolding next
next-Allowed p Method.initializes c = initialize-Allowed p c
next-Allowed p Method.configures c = configure-Allowed p c
next-Allowed p Method.cleans_up c = cleanup-Allowed p c
next-Allowed p Method.shuts_down c = shutdown-Allowed p c
next-Allowed p Method.activates c = activate-Allowed p c
next-Allowed p Method.deactivates c = deactivate-Allowed p c
next-Allowed p Method.handles_error c = error-Allowed p c
next-Allowed p (Method.reads time period) c = read-Allowed p c time period
next-Allowed p (Method.writes time period) c = write-Allowed p c time period

-- A history without a call of `error` from outside never leaves the finalized state.
pub run-finalized :
    {D : Type 0} (p : Plugin D) (ms : List Method) (c : HardwareComponent D)
    → All (λ m. is_handles_error m ≡ false) ms
    → c.lifecycle_state ≡ LifecycleState.finalized
    → (run p ms c).lifecycle_state ≡ LifecycleState.finalized
unfolding run is_handles_error
run-finalized p [] c h e = e
run-finalized p (m ∷ ms) c (h, hs) e =
    run-finalized p ms (next p m c) hs (step m h (next-Allowed p m c))
  where
    step :
        (m : Method)
        → is_handles_error m ≡ false
        → Allowed m c.lifecycle_state (next p m c).lifecycle_state
        → (next p m c).lifecycle_state ≡ LifecycleState.finalized
    step Method.handles_error h a = cc
    step m h a = ground arith

-- A component is active after `activate` exactly if it was active, or was inactive and `on_activate`
-- returned success; `on_activate` is called after the asynchronous thread has been paused.
pub activate-active_iff :
    {D : Type 0} (p : Plugin D) (c : HardwareComponent D)
    → let d = (Component.pause_async_operations p c).device in
      ((Component.activate p c).0.lifecycle_state ≡ LifecycleState.active) ↔ (
        (c.lifecycle_state ≡ LifecycleState.active)
        ⊎ ((c.lifecycle_state ≡ LifecycleState.inactive)
            × ((p.on_activate LifecycleState.inactive d).1 ≡ returned CallbackReturn.success)))
unfolding Component.activate Component.pause_async_operations
activate-active_iff p c = ground arith

-- If `on_configure` of an unconfigured component returns an error, `configure` returns unconfigured
-- and `on_error` is not called: the device is as `on_configure` left it.
pub configure-error :
    {D : Type 0} (p : Plugin D) (c : HardwareComponent D)
    → c.lifecycle_state ≡ LifecycleState.unconfigured
    → let called =
        p.on_configure LifecycleState.unconfigured (Component.pause_async_operations p c).device in
      called.1 ≡ returned CallbackReturn.error
      → Component.configure p c ≡ (
        record c { introspection = false; device = called.0 },
        returned LifecycleState.unconfigured,
      )
unfolding Component.configure Component.pause_async_operations
configure-error p c s e = ground arith

configure-success :
    {D : Type 0} (p : Plugin D) (c : HardwareComponent D)
    → c.lifecycle_state ≡ LifecycleState.unconfigured
    → ((d : D) → (p.on_configure LifecycleState.unconfigured d).1 ≡ returned CallbackReturn.success)
    → (Component.configure p c).0.lifecycle_state ≡ LifecycleState.inactive
unfolding Component.configure Component.pause_async_operations
configure-success p c s h = ground (arith, h (Component.pause_async_operations p c).device)

activate-success :
    {D : Type 0} (p : Plugin D) (c : HardwareComponent D)
    → c.lifecycle_state ≡ LifecycleState.inactive
    → ((d : D) → (p.on_activate LifecycleState.inactive d).1 ≡ returned CallbackReturn.success)
    → (Component.activate p c).0.lifecycle_state ≡ LifecycleState.active
activate-success p c s h =
    (activate-active_iff p c).1 (inr (s, h (Component.pause_async_operations p c).device))

-- `error` on a finalized component calls `on_error` again, on the device as the pause of its thread
-- left it. If that returns success, the component is unconfigured with the device as `on_error` left
-- it, and where `on_configure` and `on_activate` always return success, it is active after `configure`
-- and `activate`.
pub error_revives :
    {D : Type 0} (p : Plugin D) (c : HardwareComponent D)
    → c.lifecycle_state ≡ LifecycleState.finalized
    → let called =
        p.on_error LifecycleState.finalized (Component.pause_async_operations p c).device in
      called.1 ≡ returned CallbackReturn.success
      → ((d : D)
          → (p.on_configure LifecycleState.unconfigured d).1 ≡ returned CallbackReturn.success)
      → ((d : D) → (p.on_activate LifecycleState.inactive d).1 ≡ returned CallbackReturn.success)
      → (Component.error p c ≡ (
        record c {
          lifecycle_state = LifecycleState.unconfigured;
          introspection = false;
          device = called.0;
        },
        returned LifecycleState.unconfigured,
      ))
        × ((run p
              (Method.handles_error ∷ Method.configures ∷ Method.activates ∷ [])
              c).lifecycle_state
            ≡ LifecycleState.active)
unfolding Component.error Component.pause_async_operations run next
error_revives p c s e configured activated =
    let c' = (Component.error p c).0 in
    let unconfigured : c'.lifecycle_state ≡ LifecycleState.unconfigured = ground arith in
    let inactive = configure-success p c' unconfigured configured in
    (ground arith, activate-success p (Component.configure p c').0 inactive activated)
