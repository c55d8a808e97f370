-- ===== src/Controllers/Callback/Report.antt =====
-- What the result of a switch says of the controllers.
use ros2_control.Base.{
  ◌≡◌, true, false, some, List, [], ◌∷◌, Name, arith, has_item, name_discrete, if◌then◌else◌,
}
use ros2_control.Hardware.Types.{is_active}
use ros2_control.Resource.Storage.{ResourceManager}
use ros2_control.Controllers.Spec.{ControllerPlugin, ControllerSpec, find_controller}
use ros2_control.Controllers.Callback
use ros2_control.Controllers.Configuration.{get_command_interfaces_names}
use ros2_control.Controllers.Callback.{is_as_requested}

module _ {D E : Type 0} (p : ControllerPlugin E) (r : ResourceManager D)
    (activate_list deactivate_list : List Name) where
  -- For every controller of the list: after `evaluate_switch_result` its claimed interfaces are its
  -- command interfaces if it is active, and none otherwise, and nothing else of it is changed; and
  -- where the result is `OK` the controller is active if it is in the activate list, and not active if
  -- it is in the deactivate list only.
  pub evaluate_switch_result-find :
      (name : Name) (spec : ControllerSpec E) (specs : List (ControllerSpec E))
      → find_controller name specs ≡ some spec
      → let (specs', ok) =
          Callback.evaluate_switch_result p r activate_list deactivate_list specs in
        let claims =
          if is_active spec.c.lifecycle_state
          then get_command_interfaces_names p spec.c r
          else [] in
        (find_controller name specs' ≡ some (record spec { claimed_interfaces = claims }))
        × (ok ≡ true → has_item activate_list name ≡ true → is_active spec.c.lifecycle_state ≡ true)
        × (ok ≡ true
            → has_item deactivate_list name ≡ true
            → has_item activate_list name ≡ false
            → is_active spec.c.lifecycle_state ≡ false)
  unfolding Callback.evaluate_switch_result find_controller
  evaluate_switch_result-find name spec [] f = ground (arith, f)
  evaluate_switch_result-find name spec (s ∷ specs) f = elim (name_discrete s.name name) [
    | yes q ↦
        let same : s ≡ spec = ground (arith, f, q) in
        rw⁻¹ same (
          ground (arith, q),
          λ ok a. ground (arith, ok, a, q),
          λ ok d a. ground (arith, ok, a, d, q),
        )
    | no q ↦
        let rest = evaluate_switch_result-find name spec specs (ground (arith, f, q)) in
        (
          ground (arith, rest.0, q),
          λ ok. rest.1 (ground (arith, ok)),
          λ ok. rest.2 (ground (arith, ok)),
        )
  ]
