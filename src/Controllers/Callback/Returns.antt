-- ===== src/Controllers/Callback/Returns.antt =====
-- Each part of `switch_controller_cb`, and the whole, clears the requests before it returns.
use ros2_control.Base.{
  ℕ, ◌≡◌, refl, Bool, true, false, not, ◌&&◌, Option, none, some, List, [], Name, arith, returned,
  ◌>>=◌, ◌>>◌, done, raise, branch, inl, inr, Outcome-cases,
}
use ros2_control.Hardware.Plugin.{Plugin}
use ros2_control.Controllers.Spec.{ControllerPlugin, ControllerManager, CmAction, Strictness}
use ros2_control.Controllers.Chains
use ros2_control.Controllers.Chains.{Verdict}
use ros2_control.Controllers.Requests
use ros2_control.Controllers.Conflicts
use ros2_control.Controllers.Callback
use ros2_control.Controllers.Callback.{Environment, are_lists_empty}
use ros2_control.Controllers.Switching
use ros2_control.Controllers.Callback.Emptied.{
  Emptied, EmptiesAt, Empties, bind-EmptiesAt, branch-EmptiesAt, check_activations-Empties,
  check_deactivations-Empties, resolve_conflicts-Empties,
}

abbrev has_result : Option Bool → Bool
has_result none = false
has_result (some b) = true

abbrev always : Bool → Bool
always b = true

module _ {D E : Type 0} where
  nothing-Empties : Empties {D = D} {E = E} has_result (done none)
  nothing-Empties s a e h = ground arith

  return_cleared-Empties :
      (b : Bool) → Empties {D = D} {E = E} has_result (Callback.return_cleared b)
  return_cleared-Empties b s a e h = refl

  return_if_idle-Empties : Empties {D = D} {E = E} has_result Callback.return_if_idle
  return_if_idle-Empties s =
      branch-EmptiesAt has_result (Callback.is_idle s.switch_params) (Callback.return_cleared true)
        (done none) s (λ b. return_cleared-Empties true s) λ b. λ a e h. ground arith

  guarded-Empties :
      (m : CmAction D E Bool) (rest : CmAction D E (Option Bool))
      → Empties not m
      → Empties has_result rest
      → Empties has_result (Callback.guarded m rest)
  guarded-Empties m rest hm hr s =
      bind-EmptiesAt has_result m (λ ok. branch ok rest (done (some false))) s
        λ ok e.
          branch-EmptiesAt has_result ok rest (done (some false)) (m s).0 (λ b. hr (m s).0)
            λ b. λ a e' h. hm s ok e (ground (arith, b))

  or_clear-Empties :
      (m : CmAction D E Bool) (rest : CmAction D E (Option Bool))
      → Empties has_result rest
      → Empties has_result (Callback.or_clear m rest)
  or_clear-Empties m rest hr s =
      bind-EmptiesAt has_result m (λ ok. branch ok rest (Callback.return_cleared false)) s
        λ ok e.
          branch-EmptiesAt has_result ok rest (Callback.return_cleared false) (m s).0
            (λ b. hr (m s).0) λ b. return_cleared-Empties false (m s).0

  unless_returned-Empties :
      (m : CmAction D E (Option Bool)) (rest : CmAction D E Bool)
      → Empties has_result m
      → Empties always rest
      → Empties always (Callback.unless_returned m rest)
  unless_returned-Empties m rest hm hr s = elim (Outcome-cases (m s).1) [
    | inl e ↦ rw (e, ◌>>=◌) λ b eb h. ground arith
    | inr (none, e) ↦ rw (e, ◌>>=◌) (hr (m s).0)
    | inr (some b, e) ↦ rw (e, ◌>>=◌) λ b' e' h. hm s (some b) e refl
  ]

  module _ (p : ControllerPlugin E) (fuel : ℕ) where
    check_stoppable-Empties :
        (strictness : Strictness)
        → Empties {D = D} {E = E} has_result (Callback.check_stoppable p fuel strictness)
    unfolding Callback.check_stoppable
    check_stoppable-Empties strictness s =
        let names = s.switch_params.deactivate_request in
        guarded-Empties (Requests.check_deactivations p fuel strictness [] names)
          Callback.return_if_idle (check_deactivations-Empties p fuel strictness [] names)
          return_if_idle-Empties s

    check_requests-Empties :
        (strictness : Strictness)
        → Empties {D = D} {E = E} has_result (Callback.check_requests p fuel strictness)
    unfolding Callback.check_requests Callback.check_startable
    check_requests-Empties strictness s =
        bind-EmptiesAt has_result (Chains.propagate_deactivation_of_chained_mode p s.controllers)
          (λ _. Callback.check_startable p fuel strictness) s
          λ u e.
            let s' = (Chains.propagate_deactivation_of_chained_mode p s.controllers s).0 in
            let names = s'.switch_params.activate_request in
            guarded-Empties (Requests.check_activations p fuel strictness [] names)
              (Callback.check_stoppable p fuel strictness)
              (check_activations-Empties p fuel strictness [] names)
              (check_stoppable-Empties strictness) s'

    resolve_requests-Empties :
        (strictness : Strictness)
        → Empties {D = D} {E = E} has_result (Callback.resolve_requests p fuel strictness)
    unfolding Callback.resolve_requests
    resolve_requests-Empties strictness s =
        guarded-Empties (Conflicts.resolve_conflicts p strictness s.controllers)
          Callback.return_if_idle (resolve_conflicts-Empties p fuel strictness s.controllers)
          return_if_idle-Empties s

    module _ (hw : Plugin D) (env : Environment D E) where
      prepare_requests-Empties : Empties has_result (Callback.prepare_requests p fuel hw env)
      unfolding Callback.prepare_requests Callback.prepare_switch
      prepare_requests-Empties =
          or_clear-Empties (Callback.check_availability p fuel)
            (Callback.prepare_switch p fuel hw env)
            λ s.
              let names = s.switch_params.deactivate_request in
              bind-EmptiesAt has_result (Callback.prepare_controllers p fuel names)
                (λ _. Callback.or_clear (Callback.prepare_hardware p fuel hw env) (done none)) s
                λ u e.
                  or_clear-Empties (Callback.prepare_hardware p fuel hw env) (done none)
                    nothing-Empties (Callback.prepare_controllers p fuel names s).0

      wait_or_switch-Empties :
          (asap : Bool) → Empties has_result (Callback.wait_or_switch p fuel hw env asap)
      unfolding Callback.wait_or_switch
      wait_or_switch-Empties asap s =
          let switch' : CmAction D E (Unit {0}) = Switching.manage_switch p hw env.is_locked in
          let now : CmAction D E (Option Bool) = switch' >> done none in
          let switched : CmAction D E (Option Bool) =
            Callback.or_clear (Callback.wait env.wait_until_switched) (done none) in
          let ready : CmAction D E (Option Bool) =
            Callback.or_clear (Callback.wait env.wait_until_ready) now in
          branch-EmptiesAt has_result asap switched ready s
            (λ b.
              or_clear-Empties (Callback.wait env.wait_until_switched) (done none) nothing-Empties
                s)
            λ b.
              or_clear-Empties (Callback.wait env.wait_until_ready) now
                (λ t.
                  bind-EmptiesAt has_result switch' (λ _. done none) t
                    λ u e. nothing-Empties (switch' t).0)
                s

      switch_requested-Empties :
          (strictness : Strictness) (asap : Bool)
          → Empties always (Callback.switch_requested p fuel hw env strictness asap)
      unfolding Callback.switch_requested Callback.run_switch Callback.report
      switch_requested-Empties strictness asap =
          let report : CmAction D E Bool = Callback.report p fuel hw env in
          let run : CmAction D E (Option Bool) =
            Callback.run_switch p fuel hw env strictness asap in
          let prepare : CmAction D E (Option Bool) = Callback.prepare_requests p fuel hw env in
          let resolve : CmAction D E (Option Bool) = Callback.resolve_requests p fuel strictness in
          let check : CmAction D E (Option Bool) = Callback.check_requests p fuel strictness in
          let after_prepare = Callback.unless_returned run report in
          let after_resolve = Callback.unless_returned prepare after_prepare in
          unless_returned-Empties check (Callback.unless_returned resolve after_resolve)
            (check_requests-Empties strictness)
            (unless_returned-Empties resolve after_resolve (resolve_requests-Empties strictness) (
              unless_returned-Empties prepare after_prepare prepare_requests-Empties (
                unless_returned-Empties run report (λ s. wait_or_switch-Empties asap _)
                  λ s a e h. refl)))

      request_switch-EmptiesAt :
          (strictness : Strictness) (asap : Bool) (stop start : List Name × Bool)
          (s : ControllerManager D E)
          → Emptied s
          → EmptiesAt always (Callback.request_switch p fuel hw env strictness asap stop start) s
      unfolding Callback.request_switch
      request_switch-EmptiesAt strictness asap stop start s h =
          branch-EmptiesAt always (stop.1 && start.1) _ (done false) s
            (λ b. switch_requested-Empties strictness asap _) λ b. λ a e h'. h

      -- Where no request is left from before, none is left after `switch_controller_cb` returns,
      -- whatever it returns and whatever the other threads did, so that the next call does not
      -- throw for it. (An exception on the way leaves what was requested.)
      pub switch_controller_cb-Emptied :
          (activate deactivate : List Name) (strictness : Strictness) (asap : Bool)
          (s : ControllerManager D E) (result : Bool)
          → Emptied s
          → (Callback.switch_controller_cb p fuel hw env activate deactivate strictness asap s).1
            ≡ returned result
          → Emptied
              (Callback.switch_controller_cb p fuel hw env activate deactivate strictness asap s).0
      unfolding Callback.switch_controller_cb
      switch_controller_cb-Emptied activate deactivate strictness asap s result h e =
          let s' : ControllerManager D E = record s {
            switch_params = Callback.reset s.switch_params;
          } in
          let strictness' = Callback.effective s.default_is_strict strictness in
          let stop = Requests.list_controllers strictness' s.controllers deactivate [] true in
          let start = Requests.list_controllers strictness' s.controllers activate [] true in
          let run : CmAction D E Bool =
            Callback.request_switch p fuel hw env strictness' asap stop start in
          branch-EmptiesAt always (not env.initialized) (done false)
            (λ t. branch (are_lists_empty s.switch_params) run raise s') s (λ b. λ a e' h'. h)
            (λ b.
              branch-EmptiesAt always (are_lists_empty s.switch_params) run raise s'
                (λ c. request_switch-EmptiesAt strictness' asap stop start s' h)
                λ c. λ a e' h'. ground arith)
            result e refl
