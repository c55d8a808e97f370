-- ===== src/Controllers/Callback/Refusal.antt =====
-- A strict request for a controller that is not there is refused as a whole.
use ros2_control.Base.{
  ℕ, ◌≡◌, ◌⊎◌, Bool, true, false, none, List, [], ◌∷◌, ◌++◌, Name, arith, has_item, returned,
}
use ros2_control.Hardware.Plugin.{Plugin}
use ros2_control.Controllers.Spec.{
  ControllerPlugin, ControllerSpec, ControllerManager, Strictness, find_controller, is_strict,
}
use ros2_control.Controllers.Requests
use ros2_control.Controllers.Callback
use ros2_control.Controllers.Callback.{Environment, are_lists_empty, effective, reset}

list_controllers-missing :
    {E : Type 0} (strictness : Strictness) (specs : List (ControllerSpec E))
    (names request : List Name) (result : Bool) (missing : Name)
    → is_strict strictness ≡ true
    → has_item names missing ≡ true
    → find_controller missing specs ≡ none
    → (Requests.list_controllers strictness specs names request result).1 ≡ false
unfolding Requests.list_controllers has_item
list_controllers-missing strictness specs [] request result missing b i f = ground (arith, i)
list_controllers-missing strictness specs (name ∷ names) request result missing b i f = ground (
  arith,
  b,
  i,
  f,
  list_controllers-missing strictness specs names (request ++ name ∷ []) true missing b,
)

module _ {D E : Type 0} (p : ControllerPlugin E) (fuel : ℕ) (hw : Plugin D)
    (env : Environment D E) where
  -- With an initialized resource manager and no request left from before, a switch whose strictness
  -- is `STRICT`, given or as the default, and that names a controller to activate or to deactivate
  -- that is not in the list of controllers, returns `ERROR`, and of the state it has changed nothing
  -- but reset the options of the switch.
  pub switch_controller_cb-missing :
      (activate deactivate : List Name) (strictness : Strictness) (asap : Bool)
      (s : ControllerManager D E) (missing : Name)
      → env.initialized ≡ true
      → are_lists_empty s.switch_params ≡ true
      → is_strict (effective s.default_is_strict strictness) ≡ true
      → find_controller missing s.controllers ≡ none
      → (has_item activate missing ≡ true) ⊎ (has_item deactivate missing ≡ true)
      → Callback.switch_controller_cb p fuel hw env activate deactivate strictness asap s
        ≡ (record s { switch_params = reset s.switch_params }, returned false)
  unfolding Callback.switch_controller_cb Callback.request_switch
  switch_controller_cb-missing activate deactivate strictness asap s missing init e b f i =
      let strictness' = effective s.default_is_strict strictness in
      ground (
        arith,
        init,
        e,
        list_controllers-missing strictness' s.controllers activate [] true missing b,
        list_controllers-missing strictness' s.controllers deactivate [] true missing b,
        f,
        i,
      )
