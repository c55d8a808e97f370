-- ===== src/Controllers/Changes.antt =====
-- What a switch changes of one controller and of its interfaces: `set_chained_mode`,
-- `release_interfaces`, the calls of the lifecycle node, and the availability of what a chainable
-- controller exports.
use ros2_control.Base.{
  Bool, false, not, ◌&&◌, none, some, List, [], if◌then◌else◌, Name, returned, thrown, ◌>>◌,
}
use ros2_control.Hardware.Types.{is_active}
use ros2_control.Resource.Storage.{ManagerAction}
use ros2_control.Resource.Interfaces.{
  make_controller_exported_state_interfaces_available,
  make_controller_exported_state_interfaces_unavailable,
  make_controller_reference_interfaces_available, make_controller_reference_interfaces_unavailable,
}
use ros2_control.Controllers.Spec.{
  ControllerPlugin, Controller, ControllerSpec, ControllerManager, CmAction, Transition,
  find_controller, put_controller,
}
use ros2_control.Controllers.Loans.{release_loans}

-- What the controller holds goes back.
abbrev pub drop_interfaces : {E : Type 0} → Controller E → Controller E
drop_interfaces c = record c { command_interfaces = []; state_interfaces = [] }

-- A call of the node: the loans go back if `on_error` was called.
abbrev pub after_call : {E : Type 0} → Controller E → Transition E → Controller E
after_call {E} c t =
    let c' : Controller E = record c { device = t.device; lifecycle_state = t.state } in
    if t.released then drop_interfaces c' else c'

-- `set_chained_mode`: a chainable controller that is active, or refuses, stays in its mode.
unfoldable pub set_chained_mode :
    {E : Type 0} → ControllerPlugin E → Bool → Controller E → Controller E
set_chained_mode p mode c =
    let (e, agreed) = p.on_set_chained_mode mode c.device in
    if c.is_chainable && not (is_active c.lifecycle_state)
    then record c { device = e; in_chained_mode = if agreed then mode else c.in_chained_mode }
    else c

module _ {D E : Type 0} where
  abbrev pub on_resources : {A : Type 0} → ManagerAction D A → CmAction D E A
  on_resources m s = let (r, o) = m s.resource_manager in (record s { resource_manager = r }, o)

  abbrev pub put_spec : ControllerSpec E → ControllerManager D E → ControllerManager D E
  put_spec spec s = record s { controllers = put_controller spec.name spec s.controllers }

  abbrev pub put_c : ControllerSpec E → Controller E → ControllerManager D E → ControllerManager D E
  put_c spec c = put_spec (record spec { c = c })

  abbrev pub give_back : List Name → ControllerManager D E → ControllerManager D E
  give_back loans s = record s { resource_manager = release_loans loans s.resource_manager }

  -- `release_interfaces` of a controller that is in the list.
  unfoldable pub release_interfaces :
      ControllerSpec E → ControllerManager D E → ControllerManager D E
  release_interfaces spec s =
      put_c spec (drop_interfaces spec.c) (give_back spec.c.command_interfaces s)

  unfoldable pub run_transition :
      ControllerSpec E → Transition E → ControllerManager D E → ControllerManager D E
  run_transition spec t s =
      put_c spec (after_call spec.c t)
        (give_back (if t.released then spec.c.command_interfaces else []) s)

  -- Look the controller up again after it has changed.
  abbrev pub with_controller :
      Name → (ControllerSpec E → CmAction D E (Unit {0})) → CmAction D E (Unit {0})
  with_controller name f s = elim (find_controller name s.controllers) [
    | none ↦ (s, returned tt)
    | some spec ↦ f spec s
  ]

  abbrev pub make_exported_available : Name → CmAction D E (Unit {0})
  make_exported_available name = do
    on_resources (make_controller_exported_state_interfaces_available name)
    on_resources (make_controller_reference_interfaces_available name)

  abbrev pub make_exported_unavailable : Name → CmAction D E (Unit {0})
  make_exported_unavailable name = do
    on_resources (make_controller_exported_state_interfaces_unavailable name)
    on_resources (make_controller_reference_interfaces_unavailable name)

  -- `catch (...) { handle_exceptions ? void() : throw; }`
  abbrev pub handled : CmAction D E (Unit {0}) → CmAction D E (Unit {0})
  handled m s =
      let (s', o) = m s in
      elim o [
        | returned u ↦ (s', returned u)
        | thrown ↦ if s'.handle_exceptions then (s', returned tt) else (s', thrown)
      ]

  abbrev pub finish_switch : ControllerManager D E → ControllerManager D E
  finish_switch s = record s { switch_params = record s.switch_params { do_switch = false } }
