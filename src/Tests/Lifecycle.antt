-- ===== src/Tests/Lifecycle.antt =====
-- The lifecycle of a component.
use ros2_control.Base.{◌≡◌, ◌≢◌, refl, ◌↔◌, ◌⊎◌, false, [], ◌∷◌, returned}
use ros2_control.Base.Int.{pos}
use ros2_control.Hardware.Types.{LifecycleState, CallbackReturn}
use ros2_control.Hardware.Component
use ros2_control.Hardware.Component.Lifecycle
use ros2_control.Hardware.Component.Lifecycle.{Method, Allowed, is_handles_error}
use ros2_control.Hardware.Component.Cycles
use ros2_control.Tests.Fixtures.{willing, failing, arm}

-- Up to active and down again.
round_trip :
    (Lifecycle.run willing
      (Method.initializes ∷ Method.configures ∷ Method.activates ∷ [])
      (arm LifecycleState.unknown)).lifecycle_state
    ≡ LifecycleState.active
unfolding Lifecycle.run Lifecycle.next Component.initialize Component.configure Component.activate
round_trip = refl

next-Allowed_example :
    Allowed Method.activates LifecycleState.inactive
      (Lifecycle.next failing Method.activates (arm LifecycleState.inactive)).lifecycle_state
next-Allowed_example = Lifecycle.next-Allowed failing Method.activates (arm LifecycleState.inactive)

run-finalized_example :
    (Lifecycle.run willing
      (Method.configures ∷ Method.activates ∷ [])
      (arm LifecycleState.finalized)).lifecycle_state
    ≡ LifecycleState.finalized
unfolding is_handles_error
run-finalized_example =
    Lifecycle.run-finalized willing (Method.configures ∷ Method.activates ∷ [])
      (arm LifecycleState.finalized) (refl, (refl, tt)) refl

activate-active_iff_example :
    ((Component.activate willing (arm LifecycleState.inactive)).0.lifecycle_state
      ≡ LifecycleState.active)
    ↔ ((◌≡◌ {A = LifecycleState} LifecycleState.inactive LifecycleState.active)
        ⊎ ((◌≡◌ {A = LifecycleState} LifecycleState.inactive LifecycleState.inactive)
            × ((willing.on_activate LifecycleState.inactive
                  (Component.pause_async_operations willing (arm LifecycleState.inactive)).device).1
                ≡ returned CallbackReturn.success)))
activate-active_iff_example = Lifecycle.activate-active_iff willing (arm LifecycleState.inactive)

configure-error_example :
    let called =
      failing.on_configure LifecycleState.unconfigured
        (Component.pause_async_operations failing (arm LifecycleState.unconfigured)).device in
    Component.configure failing (arm LifecycleState.unconfigured) ≡ (
      record (arm LifecycleState.unconfigured) { introspection = false; device = called.0 },
      returned LifecycleState.unconfigured,
    )
configure-error_example =
    Lifecycle.configure-error failing (arm LifecycleState.unconfigured) refl refl

error_revives_example :
    (Component.error willing (arm LifecycleState.finalized) ≡ (
      record (arm LifecycleState.finalized) {
        lifecycle_state = LifecycleState.unconfigured;
        introspection = false;
        device =
            (willing.on_error LifecycleState.finalized
              (Component.pause_async_operations willing (arm LifecycleState.finalized)).device).0;
      },
      returned LifecycleState.unconfigured,
    ))
    × ((Lifecycle.run willing
          (Method.handles_error ∷ Method.configures ∷ Method.activates ∷ [])
          (arm LifecycleState.finalized)).lifecycle_state
        ≡ LifecycleState.active)
error_revives_example =
    Lifecycle.error_revives willing (arm LifecycleState.finalized) refl refl (λ d. refl) λ d. refl

read_error_example :
    let c = arm LifecycleState.active in
    let c' = (Component.read failing 7 (pos 3) c).0 in
    let read = (Component.trigger_read failing 7 (pos 3) c).0 in
    let called =
      failing.on_error c.lifecycle_state (Component.pause_async_operations failing read).device in
    (c'.device ≡ called.0)
    × (((called.1 ≡ returned CallbackReturn.success)
          × (c'.lifecycle_state ≡ LifecycleState.unconfigured))
        ⊎ ((called.1 ≢ returned CallbackReturn.success)
            × (c'.lifecycle_state ≡ LifecycleState.finalized)))
unfolding Component.read
read_error_example = Cycles.read_error failing 7 (pos 3) (arm LifecycleState.active) refl
