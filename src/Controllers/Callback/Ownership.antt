-- ===== src/Controllers/Callback/Ownership.antt =====
-- A whole call of `switch_controller_cb` keeps the accounts of loans.
use ros2_control.Base.{
  ℕ, ◌≡◌, refl, sym, ap, subst, Bool, true, false, not, ◌&&◌, Option, none, some, List, [], ◌∷◌,
  ◌++◌, Name, is_empty, ◌>>◌, done, raise, modify, branch, inl, inr, Option-cases, if◌then◌else◌,
}
use ros2_control.Hardware.Types.{is_active, is_inactive}
use ros2_control.Hardware.Plugin.{Plugin}
use ros2_control.Resource.Storage.{ResourceManager}
use ros2_control.Resource.UsedBy
use ros2_control.Resource.Frame.{store}
use ros2_control.Resource.Switch
use ros2_control.Controllers.Spec.{
  ControllerPlugin, ControllerSpec, ControllerManager, CmAction, Strictness,
}
use ros2_control.Controllers.Loans
use ros2_control.Controllers.Changes
use ros2_control.Controllers.Chains
use ros2_control.Controllers.Chains.{Verdict}
use ros2_control.Controllers.Conflicts
use ros2_control.Controllers.Conflicts.{Marks}
use ros2_control.Controllers.Requests
use ros2_control.Controllers.Switching
use ros2_control.Controllers.Switching.Accounts.{Accounts}
use ros2_control.Controllers.Switching.Ownership.{held, Holds}
use ros2_control.Controllers.Switching.Steps.{
  Keeps, bind-Keeps, branch-Keeps, put-Keeps, with_controller-Keeps,
}
use ros2_control.Controllers.Switching.Conservation.{prepare-Keeps, manage_switch-Holds}
use ros2_control.Controllers.Callback.Keeping.{
  cache-store, propagate-Keeps, check_activations-Keeps, check_deactivations-Keeps,
}
use ros2_control.Controllers.Callback
use ros2_control.Controllers.Callback.{Environment, are_lists_empty, effective, reset}

if-store :
    {D : Type 0} (b : Bool) (r r' : ResourceManager D)
    → store r ≡ store r'
    → store (if b then r else r') ≡ store r'
if-store true r r' e = e
if-store false r r' e = refl

module _ {D E : Type 0} (p : ControllerPlugin E) (r : ResourceManager D)
    (activate_list deactivate_list : List Name) where
  held-evaluate :
      (specs : List (ControllerSpec E))
      → held (Callback.evaluate_switch_result p r activate_list deactivate_list specs).0
        ≡ held specs
  unfolding Callback.evaluate_switch_result held
  held-evaluate [] = refl
  held-evaluate (spec ∷ specs) = ap (λ l. spec.c.command_interfaces ++ l) (held-evaluate specs)

module _ {D E : Type 0} (p : ControllerPlugin E) where
  collect-Holds :
      (spec : ControllerSpec E) (m : Marks) (s : ControllerManager D E)
      → Holds [] s
      → Holds [] (Conflicts.collect p spec m s)
  unfolding Conflicts.collect
  collect-Holds spec m s h =
      let r = s.resource_manager in
      let itfs = Chains.all_interfaces p spec r in
      subst (λ st. Accounts st (held s.controllers))
        (sym (
          if-store m.in_activate_list (UsedBy.cache_controller_to_hardware spec.name itfs r) r
            (cache-store spec.name itfs r)))
        h

  resolve_conflicts-Keeps :
      (strictness : Strictness) (specs : List (ControllerSpec E))
      → Keeps {D = D} (Conflicts.resolve_conflicts p strictness specs)
  unfolding Conflicts.resolve_conflicts
  resolve_conflicts-Keeps strictness [] s h = h
  resolve_conflicts-Keeps strictness (spec ∷ specs) s h =
      let l = spec.c.lifecycle_state in
      elim (Option-cases (
        Conflicts.resolve_marks strictness spec.name (is_active l) (is_inactive l)
          s.switch_params)) [
            | inl e ↦ rw (e, Conflicts.resolve_conflicts) h
            | inr (m, e) ↦
                rw (e, Conflicts.resolve_conflicts)
                  (resolve_conflicts-Keeps strictness specs (Conflicts.collect p spec m s)
                    (collect-Holds spec m s h))
          ]

module _ {D E : Type 0} where
  or_clear-Keeps :
      (m : CmAction D E Bool) (rest : CmAction D E (Option Bool))
      → Keeps m
      → Keeps rest
      → Keeps (Callback.or_clear m rest)
  or_clear-Keeps m rest hm hr =
      bind-Keeps m (λ ok. branch ok rest (Callback.return_cleared false)) hm
        λ ok. branch-Keeps ok rest (Callback.return_cleared false) hr λ s h. h

  guarded-Keeps :
      (m : CmAction D E Bool) (rest : CmAction D E (Option Bool))
      → Keeps m
      → Keeps rest
      → Keeps (Callback.guarded m rest)
  guarded-Keeps m rest hm hr =
      bind-Keeps m (λ ok. branch ok rest (done (some false))) hm
        λ ok. branch-Keeps ok rest (done (some false)) hr λ s h. h

  return_if_idle-Keeps : Keeps {D = D} {E = E} Callback.return_if_idle
  return_if_idle-Keeps s =
      branch-Keeps (Callback.is_idle s.switch_params) (Callback.return_cleared true) (done none)
        (λ s h. h) (λ s h. h) s

  go_on-Keeps :
      (rest : CmAction D E Bool) (o : Option Bool) → Keeps rest → Keeps (Callback.go_on rest o)
  go_on-Keeps rest none hr = hr
  go_on-Keeps rest (some b) hr = λ s h. h

  unless_returned-Keeps :
      (m : CmAction D E (Option Bool)) (rest : CmAction D E Bool)
      → Keeps m
      → Keeps rest
      → Keeps (Callback.unless_returned m rest)
  unless_returned-Keeps m rest hm hr =
      bind-Keeps m (Callback.go_on rest) hm λ o. go_on-Keeps rest o hr

module _ {D E : Type 0} (p : ControllerPlugin E) (fuel : ℕ) where
  check_requests-Keeps :
      (strictness : Strictness) → Keeps {D = D} (Callback.check_requests p fuel strictness)
  unfolding Callback.check_requests Callback.check_startable Callback.check_stoppable
  check_requests-Keeps strictness s =
      bind-Keeps (Chains.propagate_deactivation_of_chained_mode p s.controllers)
        (λ _. Callback.check_startable p fuel strictness) (propagate-Keeps p fuel s.controllers)
        (λ _ s.
          let start = s.switch_params.activate_request in
          guarded-Keeps (Requests.check_activations p fuel strictness [] start)
            (Callback.check_stoppable p fuel strictness)
            (check_activations-Keeps p fuel strictness [] start)
            (λ s.
              let stop = s.switch_params.deactivate_request in
              guarded-Keeps (Requests.check_deactivations p fuel strictness [] stop)
                Callback.return_if_idle (check_deactivations-Keeps p fuel strictness [] stop)
                return_if_idle-Keeps s)
            s)
        s

  resolve_requests-Keeps :
      (strictness : Strictness) → Keeps {D = D} (Callback.resolve_requests p fuel strictness)
  unfolding Callback.resolve_requests
  resolve_requests-Keeps strictness s =
      guarded-Keeps (Conflicts.resolve_conflicts p strictness s.controllers) Callback.return_if_idle
        (resolve_conflicts-Keeps p strictness s.controllers) return_if_idle-Keeps s

  prepare_controllers-Keeps :
      (names : List Name) → Keeps {D = D} (Callback.prepare_controllers p fuel names)
  unfolding Callback.prepare_controllers Loans.release_loans
  prepare_controllers-Keeps [] = λ s h. h
  prepare_controllers-Keeps (name ∷ names) =
      let body : ControllerSpec E → CmAction D E (Unit {0}) = λ spec. modify (
        Changes.put_c spec (record spec.c { device = p.prepare_for_deactivation spec.c.device })) in
      bind-Keeps (Changes.with_controller name body)
        (λ _. Callback.prepare_controllers p fuel names)
        (with_controller-Keeps name body λ spec s f h.
          put-Keeps spec
            (record spec {
              c = record spec.c { device = p.prepare_for_deactivation spec.c.device };
            })
            s refl f refl h)
        λ _. prepare_controllers-Keeps names

  module _ (hw : Plugin D) (env : Environment D E) where
    prepare_hardware-Keeps : Keeps (Callback.prepare_hardware p fuel hw env)
    prepare_hardware-Keeps s =
        let start = s.switch_params.activate_command_interface_request in
        let stop = s.switch_params.deactivate_command_interface_request in
        branch-Keeps (is_empty start && is_empty stop) (done true)
          (Changes.on_resources (Switch.prepare_command_mode_switch hw start stop)) (λ s h. h)
          (prepare-Keeps hw start stop) s

    prepare_requests-Keeps : Keeps (Callback.prepare_requests p fuel hw env)
    unfolding Callback.prepare_requests Callback.prepare_switch
    prepare_requests-Keeps =
        or_clear-Keeps (Callback.check_availability p fuel) (Callback.prepare_switch p fuel hw env)
          (λ s h. h)
          λ s.
            let names = s.switch_params.deactivate_request in
            let prepare : CmAction D E Bool = Callback.prepare_hardware p fuel hw env in
            bind-Keeps (Callback.prepare_controllers p fuel names)
              (λ _. Callback.or_clear prepare (done none)) (prepare_controllers-Keeps names)
              (λ _. or_clear-Keeps prepare (done none) prepare_hardware-Keeps λ s h. h) s

    module _
        (other_threads : (s : ControllerManager D E)
          → Holds [] s
          → Holds [] (env.wait_until_switched s).0 × Holds [] (env.wait_until_ready s).0) where
      wait_or_switch-Keeps : (asap : Bool) → Keeps (Callback.wait_or_switch p fuel hw env asap)
      unfolding Callback.wait_or_switch
      wait_or_switch-Keeps asap =
          let manage : CmAction D E (Unit {0}) = Switching.manage_switch p hw env.is_locked in
          let now : CmAction D E (Option Bool) = manage >> done none in
          let switched : CmAction D E Bool = Callback.wait env.wait_until_switched in
          let ready : CmAction D E Bool = Callback.wait env.wait_until_ready in
          branch-Keeps asap (Callback.or_clear switched (done none)) (Callback.or_clear ready now)
            (or_clear-Keeps switched (done none) (λ s h. (other_threads s h).0) λ s h. h)
            (or_clear-Keeps ready now (λ s h. (other_threads s h).1)
              (bind-Keeps manage (λ _. done none) (manage_switch-Holds p hw env.is_locked)
                λ _. λ s h. h))

      report-Keeps : Keeps (Callback.report p fuel hw env)
      unfolding Callback.report
      report-Keeps s h =
          let q = s.switch_params in
          subst (Accounts (store s.resource_manager))
            (sym (
              held-evaluate p s.resource_manager q.activate_request q.deactivate_request
                s.controllers))
            h

      run_switch-Keeps :
          (strictness : Strictness) (asap : Bool)
          → Keeps (Callback.run_switch p fuel hw env strictness asap)
      unfolding Callback.run_switch
      run_switch-Keeps strictness asap s h = wait_or_switch-Keeps asap _ h

      switch_requested-Keeps :
          (strictness : Strictness) (asap : Bool)
          → Keeps (Callback.switch_requested p fuel hw env strictness asap)
      unfolding Callback.switch_requested
      switch_requested-Keeps strictness asap =
          let report : CmAction D E Bool = Callback.report p fuel hw env in
          let run : CmAction D E (Option Bool) =
            Callback.run_switch p fuel hw env strictness asap in
          let prepare : CmAction D E (Option Bool) = Callback.prepare_requests p fuel hw env in
          let resolve : CmAction D E (Option Bool) = Callback.resolve_requests p fuel strictness in
          let check : CmAction D E (Option Bool) = Callback.check_requests p fuel strictness in
          let after_prepare = Callback.unless_returned run report in
          let after_resolve = Callback.unless_returned prepare after_prepare in
          unless_returned-Keeps check (Callback.unless_returned resolve after_resolve)
            (check_requests-Keeps strictness)
            (unless_returned-Keeps resolve after_resolve (resolve_requests-Keeps strictness) (
              unless_returned-Keeps prepare after_prepare prepare_requests-Keeps
                (unless_returned-Keeps run report (run_switch-Keeps strictness asap) report-Keeps)))

      request_switch-Keeps :
          (strictness : Strictness) (asap : Bool) (stop start : List Name × Bool)
          → Keeps (Callback.request_switch p fuel hw env strictness asap stop start)
      unfolding Callback.request_switch
      request_switch-Keeps strictness asap stop start =
          branch-Keeps (stop.1 && start.1) _ (done false)
            (λ s h. switch_requested-Keeps strictness asap _ h) λ s h. h

      -- Where the controllers of the list hold together one loan of each interface that is recorded
      -- as claimed and no other loans, and an interface has a record exactly if it is stored, it is
      -- so again after a call of `switch_controller_cb`, for any request and whatever the hardware's
      -- and the controllers' own calls do, also where an exception comes out of it, provided that
      -- what the other threads do while it waits keeps it so.
      pub switch_controller_cb-Holds :
          (activate deactivate : List Name) (strictness : Strictness) (asap : Bool)
          (s : ControllerManager D E)
          → Holds [] s
          → Holds []
              (Callback.switch_controller_cb p fuel hw env activate deactivate strictness asap s).0
      unfolding Callback.switch_controller_cb
      switch_controller_cb-Holds activate deactivate strictness asap s h =
          let s' : ControllerManager D E = record s {
            switch_params = Callback.reset s.switch_params;
          } in
          let strictness' = Callback.effective s.default_is_strict strictness in
          let stop = Requests.list_controllers strictness' s.controllers deactivate [] true in
          let start = Requests.list_controllers strictness' s.controllers activate [] true in
          let run : CmAction D E Bool =
            Callback.request_switch p fuel hw env strictness' asap stop start in
          branch-Keeps (not env.initialized) (done false)
            (λ t. branch (are_lists_empty s.switch_params) run raise s') (λ t h. h)
            (λ t k.
              branch-Keeps (are_lists_empty s.switch_params) run raise
                (request_switch-Keeps strictness' asap stop start) (λ t h. h) s' h)
            s h
