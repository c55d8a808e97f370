-- ===== src/Resource/Frame/Switches.antt =====
-- Mode switches keep the claims and the stored command interfaces.
use ros2_control.Base.{ℕ, zero, suc, ◌+◌, refl, Bool, true, false, List, arith, Name, length}
use ros2_control.Hardware.Types.{ReturnType}
use ros2_control.Hardware.Plugin.{Plugin}
use ros2_control.Hardware.Component
use ros2_control.Hardware.Component.{HardwareComponent, ComponentAction}
use ros2_control.Resource.Storage.{Kind}
use ros2_control.Resource.Transitions
use ros2_control.Resource.Transitions.{Focus, FocusAction}
use ros2_control.Resource.Switch
use ros2_control.Resource.Frame.{KeepsStore, KeepsFocus, focus-KeepsStore}

module _ {D : Type 0} where
  module _ (call : List Name → List Name → ComponentAction D ReturnType)
      (start stop : List Name) where
    switch_component-KeepsFocus : KeepsFocus (Switch.switch_component call start stop)
    unfolding Switch.switch_component Switch.switch_share
    switch_component-KeepsFocus f = ground arith

    switch_components-KeepsStore :
        (k : Kind) (n i : ℕ) (ret : Bool)
        → KeepsStore (Switch.switch_components call start stop k n i ret)
    unfolding Switch.switch_components
    switch_components-KeepsStore k zero i ret r = refl
    switch_components-KeepsStore k (suc n) i ret r =
        let one = Transitions.focus k i (Switch.switch_component call start stop) r in
        ground (
          arith,
          focus-KeepsStore k i (Switch.switch_component call start stop) switch_component-KeepsFocus
              r,
          switch_components-KeepsStore k n (i + 1) ret one.0,
          switch_components-KeepsStore k n (i + 1) false one.0,
        )

    switch_all-KeepsStore : KeepsStore (Switch.switch_all call start stop)
    unfolding Switch.switch_all Switch.switch_container
    switch_all-KeepsStore r =
        let first = (Switch.switch_container call start stop Kind.actuator r).0 in
        ground (
          arith,
          switch_components-KeepsStore Kind.actuator (length r.actuators) 0 true r,
          switch_components-KeepsStore Kind.system (length first.systems) 0 true first,
        )

  module _ (p : Plugin D) (start stop : List Name) where
    pub prepare-KeepsStore : KeepsStore (Switch.prepare_command_mode_switch p start stop)
    unfolding Switch.prepare_command_mode_switch
    prepare-KeepsStore r =
        ground (arith, switch_all-KeepsStore (Component.prepare_command_mode_switch p) start stop r)

    pub perform-KeepsStore : KeepsStore (Switch.perform_command_mode_switch p start stop)
    unfolding Switch.perform_command_mode_switch
    perform-KeepsStore r =
        ground (arith, switch_all-KeepsStore (Component.perform_command_mode_switch p) start stop r)
