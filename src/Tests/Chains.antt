-- ===== src/Tests/Chains.antt =====
-- The chain of two controllers has no cycle: "traj" ranks above "pid".
use ros2_control.Base.{
  lookup, ℕ, ◌<◌, ◌≡◌, ◌⊎◌, refl, sym, subst, inl, inr, true, Option, some, [], ◌∷◌, Name, arith,
  Outcome, returned, ite, name_discrete, has_item,
}
use ros2_control.Hardware.Types.{LifecycleState}
use ros2_control.Controllers.Configuration
use ros2_control.Resource.Storage.{ResourceManager}
use ros2_control.Controllers.Spec.{
  ControllerManager, Strictness, ControllerSpec, SwitchParams, find_controller,
}
use ros2_control.Controllers.Chains
use ros2_control.Controllers.Requests
use ros2_control.Controllers.Chains.Known.{KnownInterfaces}
use ros2_control.Controllers.Chains.Termination
use ros2_control.Tests.Chain.{code, pair, manager, no_request, robot, controller}

abbrev both_requested : SwitchParams
both_requested = record no_request { activate_request = "pid" ∷ "traj" ∷ [] }

abbrev traj : ControllerSpec ℕ
traj = controller "traj" 1 LifecycleState.inactive

abbrev pid : ControllerSpec ℕ
pid = controller "pid" 0 LifecycleState.inactive

abbrev rank : Name → ℕ
rank name = ite (name_discrete name "traj") 1 0

find-pair :
    (spec : ControllerSpec ℕ)
    → find_controller spec.name (pair LifecycleState.inactive) ≡ some spec
    → (traj ≡ spec) ⊎ (pid ≡ spec)
unfolding find_controller
find-pair spec f = elim (name_discrete "traj" spec.name) [
  | yes q ↦ inl (ground (arith, f, q))
  | no q ↦ inr (ground (arith, f, q))
]

has_item-one : (x k : Name) → has_item (x ∷ []) k ≡ true → x ≡ k
unfolding has_item
has_item-one x k i = elim (name_discrete x k) [ yes q ↦ q | no q ↦ ground (arith, i, q) ]

abbrev chained : Name → Outcome (Option (ControllerSpec ℕ))
chained itf = Configuration.is_interface_a_chained_interface itf (pair LifecycleState.inactive)

-- Where an interface of the controller leads.
abbrev Leads : ControllerSpec ℕ → Type 0
Leads spec =
    (following : ControllerSpec ℕ) (itf : Name) (r : ResourceManager ℕ)
    → has_item (Chains.all_interfaces code spec r) itf ≡ true
    → Configuration.is_interface_a_chained_interface itf (pair LifecycleState.inactive)
      ≡ returned (some following)
    → rank following.name < rank spec.name

traj-Leads : Leads traj
unfolding Configuration.get_command_interfaces_names Configuration.get_state_interfaces_names
    Configuration.select_interfaces Configuration.is_interface_a_chained_interface
    Configuration.interface_prefix find_controller name_discrete
traj-Leads following itf r i c =
    let same : "pid/position" ≡ itf = has_item-one "pid/position" itf i in
    let c' : chained "pid/position" ≡ returned (some following) =
      subst (λ x. chained x ≡ returned (some following)) (sym same) c in
    let found : pid ≡ following = ground (arith, c') in
    subst (λ f. rank f.name < rank traj.name) found (omega arith)

pid-Leads : Leads pid
unfolding Configuration.get_command_interfaces_names Configuration.get_state_interfaces_names
    Configuration.select_interfaces Configuration.is_interface_a_chained_interface
    Configuration.interface_prefix find_controller name_discrete
pid-Leads following itf r i c =
    let same : "joint1/position" ≡ itf = has_item-one "joint1/position" itf i in
    let c' : chained "joint1/position" ≡ returned (some following) =
      subst (λ x. chained x ≡ returned (some following)) (sym same) c in
    ground (arith, c')

rank-smaller :
    (spec following : ControllerSpec ℕ) (itf : Name) (r : ResourceManager ℕ)
    → find_controller spec.name (pair LifecycleState.inactive) ≡ some spec
    → KnownInterfaces (λ name. true) r
    → has_item (Chains.all_interfaces code spec r) itf ≡ true
    → Configuration.is_interface_a_chained_interface itf (pair LifecycleState.inactive)
      ≡ returned (some following)
    → following.c.is_chainable ≡ true
    → rank following.name < rank spec.name
rank-smaller spec following itf r f k i c h = elim (find-pair spec f) [
  | inl q ↦ subst Leads q traj-Leads following itf r i c
  | inr q ↦ subst Leads q pid-Leads following itf r i c
]

everything-KnownInterfaces : KnownInterfaces (λ name. true) robot
everything-KnownInterfaces = record {
  commands = λ k i. refl;
  states = λ k i. refl;
  references = λ c names e k i. refl;
  exported = λ c names e k i. refl;
}

check_following_controllers_for_activate-FinishesAt_example : ¬ (
    (Chains.check_following_controllers_for_activate code 2 traj
      (manager LifecycleState.inactive both_requested)).1
    ≡ returned Chains.Verdict.unfinished)
unfolding find_controller name_discrete
check_following_controllers_for_activate-FinishesAt_example =
    Termination.check_following_controllers_for_activate-FinishesAt (λ name. true)
      (pair LifecycleState.inactive) code rank rank-smaller 2 traj
      (manager LifecycleState.inactive both_requested) (omega arith) refl refl
      everything-KnownInterfaces

-- "top" stays active and precedes "traj", which precedes "pid". In a best-effort switch "pid" passes
-- because "traj" is to be deactivated, and then "traj" is refused: "pid" alone is deactivated.
abbrev stack : ControllerManager ℕ ℕ
stack = record (manager LifecycleState.active no_request) {
  controllers = controller "top" 1 LifecycleState.active ∷ pair LifecycleState.active;
  controller_chained_reference_interfaces_cache = ("pid", "traj" ∷ []) ∷ ("traj", "top" ∷ []) ∷ [];
  switch_params = record no_request { deactivate_request = "pid" ∷ "traj" ∷ [] };
}

follower_is_stranded :
    let (s, passed) =
      Requests.check_deactivations code 5 Strictness.best_effort [] ("pid" ∷ "traj" ∷ []) stack in
    (passed ≡ returned true) × (s.switch_params.deactivate_request ≡ "pid" ∷ [])
unfolding find_controller name_discrete has_item lookup Requests.check_deactivations
    Requests.after_check Requests.check_deactivation
    Chains.check_preceding_controllers_for_deactivate
follower_is_stranded = (refl, refl)
