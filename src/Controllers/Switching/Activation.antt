-- ===== src/Controllers/Switching/Activation.antt =====
-- The activation of controllers, and whole switches, keep the accounts of loans.
use ros2_control.Base.{
  refl, sym, subst, Bool, true, false, Option, none, some, List, [], ◌∷◌, ◌++◌, Name, arith,
  Outcome, returned, thrown, ◌>>◌, done, when, inl, inr, ◌&&◌, Option-cases, add_items,
}
use ros2_control.Hardware.Types.{LifecycleState, is_active}
use ros2_control.Resource.Storage.{ManagerAction}
use ros2_control.Resource.Interfaces
use ros2_control.Resource.Frame.{KeepsStore}
use ros2_control.Controllers.Spec.{
  ControllerPlugin, ControllerSpec, ControllerManager, CmAction, Transition, find_controller,
}
use ros2_control.Controllers.Configuration.{
  get_command_interfaces_names, get_state_interfaces_names,
}
use ros2_control.Controllers.Loans
use ros2_control.Controllers.Changes
use ros2_control.Controllers.Switching
use ros2_control.Controllers.Switching.Accounts.{
  Accounts, loans_of, claim_command_interfaces-Accounts, release_loans-Accounts,
}
use ros2_control.Controllers.Switching.Ownership.{held, Holds, Found, exchange-Holds, find-put}
use ros2_control.Controllers.Switching.Steps.{
  Keeps, KeepsFor, bind-Holds, bind-Keeps, if-Holds, branch-Holds, when-Keeps, put-Keeps,
  release_interfaces-Keeps, run_transition-Keeps, found, with_controller-Keeps,
  make_exported_available-Keeps, make_exported_unavailable-Keeps,
}

module _ {D : Type 0} where
  claim_state_interfaces-KeepsStore :
      (handle : Bool) (keys : List Name)
      → KeepsStore {D = D} (Loans.claim_state_interfaces handle keys)
  unfolding Loans.claim_state_interfaces Interfaces.claim_state_interface
  claim_state_interfaces-KeepsStore handle [] r = refl
  claim_state_interfaces-KeepsStore handle (key ∷ keys) r =
      ground (arith, claim_state_interfaces-KeepsStore handle keys r)

module _ {D E : Type 0} (p : ControllerPlugin E) where
  pub make_all_available-Keeps :
      (names : List Name) → Keeps {D = D} {A = Unit {0}} (Switching.make_all_available p names)
  unfolding Switching.make_all_available
  make_all_available-Keeps [] = λ s h. h
  make_all_available-Keeps (name ∷ names) =
      let body : ControllerSpec E → CmAction D E (Unit {0}) =
        λ spec. when spec.c.is_chainable (Changes.make_exported_available name) in
      bind-Keeps (Changes.with_controller name body) (λ _. Switching.make_all_available p names)
        (with_controller-Keeps name body λ spec. λ s f.
          when-Keeps spec.c.is_chainable (Changes.make_exported_available name)
            (make_exported_available-Keeps name) s)
        λ _. make_all_available-Keeps names

  -- A chainable controller's exported interfaces change their availability, with a result at the end.
  when_chainable-Keeps :
      (b : Bool) (m : CmAction D E (Unit {0})) (o : Bool × List Name)
      → Keeps m
      → Keeps (when b m >> done o)
  when_chainable-Keeps b m o hm =
      bind-Keeps (when b m) (λ _. done o) (when-Keeps b m hm) λ _. λ s h. h

  settle_activation-Keeps :
      (name : Name) (cmds : List Name) (state : LifecycleState)
      → Keeps {D = D} (Switching.settle_activation p name cmds state)
  unfolding Switching.settle_activation
  settle_activation-Keeps name cmds state s h =
      elim (Option-cases (find_controller name s.controllers)) [
        | inl e ↦ rw (e, Switching.settle_activation) h
        | inr (spec, e) ↦
            rw (e, Switching.settle_activation)
              (branch-Holds (is_active state) _ _ s
                (when_chainable-Keeps spec.c.is_chainable (Changes.make_exported_available name)
                  (true, []) (make_exported_available-Keeps name) s h)
                (when_chainable-Keeps spec.c.is_chainable (Changes.make_exported_unavailable name)
                  (false, cmds) (make_exported_unavailable-Keeps name)
                  (Changes.release_interfaces spec s)
                  (release_interfaces-Keeps spec s (found name s spec e) h)))
      ]

  call_activate-Keeps : KeepsFor {D = D} (Switching.call_activate p)
  unfolding Switching.call_activate Loans.release_loans
  call_activate-Keeps spec s f h =
      let t : Transition E = p.activate spec.c.lifecycle_state spec.c.device in
      let fresh : ControllerSpec E = record spec {
        periodicity_statistics = [];
        execution_time_statistics = [];
      } in
      let s' = Changes.put_spec fresh s in
      let h' =
        run_transition-Keeps fresh t s' (find-put spec.name spec fresh s.controllers refl f)
          (put-Keeps spec fresh s refl f refl h) in
      if-Holds t.raised _ _ _ h'

  activate_with-Keeps :
      (spec : ControllerSpec E) (cmds loans states : List Name) (s : ControllerManager D E)
      → Found spec s
      → Holds loans s
      → Holds [] (Switching.activate_with p spec cmds loans states s).0
  unfolding Switching.activate_with Switching.assign_interfaces
  activate_with-Keeps spec cmds loans states s f h =
      let spec' : ControllerSpec E = record spec {
        c = record spec.c { command_interfaces = loans; state_interfaces = states };
      } in
      let s' = Switching.assign_interfaces p spec loans states s in
      let h' : Holds [] s' =
        exchange-Holds spec spec' spec.c.command_interfaces loans s refl f (λ k. refl) h in
      let h'' =
        call_activate-Keeps spec' s' (find-put spec.name spec spec' s.controllers refl f) h' in
      bind-Holds (Switching.call_activate p spec') (Switching.settle_activation p spec.name cmds) s'
        h'' λ state. settle_activation-Keeps spec.name cmds state _ h''

  with_states-Keeps :
      (loans : List Name) (m : CmAction D E (Bool × List Name)) (o : Outcome Bool)
      (s : ControllerManager D E)
      → Holds loans s
      → Holds [] (m s).0
      → Holds [] (Switching.with_states p loans m o s).0
  with_states-Keeps loans m thrown s h hm =
      release_loans-Accounts loans (held s.controllers) s.resource_manager h
  with_states-Keeps loans m (returned false) s h hm =
      release_loans-Accounts loans (held s.controllers) s.resource_manager h
  with_states-Keeps loans m (returned true) s h hm = hm

  claim_states-Keeps :
      (spec : ControllerSpec E) (cmds loans : List Name) (s : ControllerManager D E)
      → Found spec s
      → Holds loans s
      → Holds [] (Switching.claim_states p spec cmds loans s).0
  unfolding Switching.claim_states
  claim_states-Keeps spec cmds loans s f h =
      let states = get_state_interfaces_names p spec.c s.resource_manager in
      let m : ManagerAction D Bool = Loans.claim_state_interfaces s.handle_exceptions states in
      let (s', o) = Changes.on_resources m s in
      let h' : Holds loans s' =
        subst (λ st. Accounts st (loans ++ held s.controllers))
          (sym (claim_state_interfaces-KeepsStore s.handle_exceptions states s.resource_manager))
          h in
      with_states-Keeps loans _ o s' h' (activate_with-Keeps spec cmds loans states s' f h')

  with_loans-Keeps :
      (f : List Name → CmAction D E (Bool × List Name)) (o : Outcome (Option (List Name)))
      (s : ControllerManager D E)
      → Holds (loans_of o) s
      → ((loans : List Name) → Holds loans s → Holds [] (f loans s).0)
      → Holds [] (Switching.with_loans p f o s).0
  with_loans-Keeps f thrown s h hf = h
  with_loans-Keeps f (returned none) s h hf = h
  with_loans-Keeps f (returned (some loans)) s h hf = hf loans h

  activate_spec-Keeps : KeepsFor {D = D} (Switching.activate_spec p)
  unfolding Switching.activate_spec
  activate_spec-Keeps spec s f h =
      let cmds = get_command_interfaces_names p spec.c s.resource_manager in
      let m : ManagerAction D (Option (List Name)) =
        Loans.claim_command_interfaces s.handle_exceptions cmds [] in
      let (s', o) = Changes.on_resources m s in
      with_loans-Keeps (Switching.claim_states p spec cmds) o s'
        (claim_command_interfaces-Accounts s.handle_exceptions cmds [] (held s.controllers)
          s.resource_manager h)
        λ loans. claim_states-Keeps spec cmds loans s' f

  activate_one-Keeps : (name : Name) → Keeps {D = D} (Switching.activate_one p name)
  unfolding Switching.activate_one Loans.release_loans
  activate_one-Keeps name s h = elim (Option-cases (find_controller name s.controllers)) [
    | inl e ↦ rw (e, Switching.activate_one) h
    | inr (spec, e) ↦
        let f = found name s spec e in
        let spec' : ControllerSpec E = record spec { last_update_cycle_time = 0 } in
        rw (e, Switching.activate_one)
          (activate_spec-Keeps spec' (Changes.put_spec spec' s)
            (find-put spec.name spec spec' s.controllers refl f)
            (put-Keeps spec spec' s refl f refl h))
  ]

  pub activate_all-Keeps :
      (names : List Name) (successful : Bool) (failed : List Name)
      → Keeps {D = D} (Switching.activate_all p names successful failed)
  unfolding Switching.activate_all
  activate_all-Keeps [] successful failed = λ s h. h
  activate_all-Keeps (name ∷ names) successful failed =
      bind-Keeps (Switching.activate_one p name)
        (λ one. Switching.activate_all p names (successful && one.0) (add_items failed one.1))
        (activate_one-Keeps name)
        λ one. activate_all-Keeps names (successful && one.0) (add_items failed one.1)
