-- ===== src/Controllers/Switching/Deactivation.antt =====
-- The deactivation of controllers, and changes of their chained mode, keep the accounts of loans.
use ros2_control.Base.{
  ◌≡◌, refl, Bool, false, List, [], ◌∷◌, Name, arith, modify, when, inl, inr, Bool-cases, not,
}
use ros2_control.Hardware.Types.{is_active}
use ros2_control.Controllers.Spec.{
  Controller, ControllerPlugin, ControllerSpec, CmAction, Transition,
}
use ros2_control.Controllers.Loans
use ros2_control.Controllers.Changes
use ros2_control.Controllers.Switching
use ros2_control.Controllers.Switching.Ownership.{Holds, Found, find-put}
use ros2_control.Controllers.Switching.Steps.{
  Keeps, KeepsFor, bind-Keeps, branch-Holds, when-Holds, handled-Holds, put-Keeps,
  release_interfaces-Keeps, run_transition-Keeps, with_controller-Keeps,
  make_exported_unavailable-Keeps,
}

module _ {E : Type 0} (p : ControllerPlugin E) where
  set_chained_mode-loans :
      (mode : Bool) (c : Controller E)
      → (Changes.set_chained_mode p mode c).command_interfaces ≡ c.command_interfaces
  unfolding Changes.set_chained_mode
  set_chained_mode-loans mode c = ground arith

module _ {D E : Type 0} (p : ControllerPlugin E) where
  try_deactivate-Keeps : KeepsFor {D = D} {A = Unit {0}} (Switching.try_deactivate p)
  unfolding Switching.try_deactivate Changes.run_transition Changes.release_interfaces
      Loans.release_loans
  try_deactivate-Keeps spec s f h =
      let t : Transition E = p.deactivate spec.c.lifecycle_state spec.c.device in
      let c' = Changes.after_call spec.c t in
      let spec' : ControllerSpec E = record spec { c = c' } in
      let s' = Changes.run_transition spec t s in
      let f' : Found spec' s' = find-put spec.name spec spec' s.controllers refl f in
      let h' : Holds [] s' = run_transition-Keeps spec t s f h in
      let free : ControllerSpec E = record spec { c = Changes.drop_interfaces c' } in
      let f'' : Found free (Changes.release_interfaces spec' s') =
        find-put spec.name spec' free s'.controllers refl f' in
      let s'' = Changes.release_interfaces spec' s' in
      let h'' : Holds [] s'' = release_interfaces-Keeps spec' s' f' h' in
      let chained : ControllerSpec E = record free {
        c = Changes.set_chained_mode p false free.c;
      } in
      elim (Bool-cases t.raised) [
        | inl e ↦ rw e h'
        | inr e ↦ rw e (
            branch-Holds spec.c.is_chainable _ _ s''
              (make_exported_unavailable-Keeps spec.name (Changes.put_spec chained s'')
                (put-Keeps free chained s'' refl f'' (set_chained_mode-loans p false free.c) h''))
              h'')
      ]

  deactivate_one-Keeps :
      (name : Name) → Keeps {D = D} {A = Unit {0}} (Switching.deactivate_one p name)
  unfolding Switching.deactivate_one
  deactivate_one-Keeps name =
      let body : ControllerSpec E → CmAction D E (Unit {0}) = λ spec.
        when (is_active spec.c.lifecycle_state)
          (Changes.handled (Switching.try_deactivate p spec)) in
      with_controller-Keeps name body λ spec s f h.
        when-Holds (is_active spec.c.lifecycle_state) _ s
          (handled-Holds (Switching.try_deactivate p spec) s (try_deactivate-Keeps spec s f h)) h

  pub deactivate_controllers-Keeps :
      (names : List Name) → Keeps {D = D} {A = Unit {0}} (Switching.deactivate_controllers p names)
  unfolding Switching.deactivate_controllers
  deactivate_controllers-Keeps [] = λ s h. h
  deactivate_controllers-Keeps (name ∷ names) =
      bind-Keeps (Switching.deactivate_one p name) (λ _. Switching.deactivate_controllers p names)
        (deactivate_one-Keeps name) λ _. deactivate_controllers-Keeps names

  pub switch_chained_mode-Keeps :
      (mode : Bool) (names : List Name)
      → Keeps {D = D} {A = Unit {0}} (Switching.switch_chained_mode p mode names)
  unfolding Switching.switch_chained_mode Loans.release_loans
  switch_chained_mode-Keeps mode [] = λ s h. h
  switch_chained_mode-Keeps mode (name ∷ names) =
      let body : ControllerSpec E → CmAction D E (Unit {0}) = λ spec.
        when (not (is_active spec.c.lifecycle_state))
          (modify (Changes.put_c spec (Changes.set_chained_mode p mode spec.c))) in
      bind-Keeps (Changes.with_controller name body)
        (λ _. Switching.switch_chained_mode p mode names)
        (with_controller-Keeps name body λ spec s f h.
          when-Holds (not (is_active spec.c.lifecycle_state)) _ s
            (put-Keeps spec (record spec { c = Changes.set_chained_mode p mode spec.c }) s refl f
              (set_chained_mode-loans p mode spec.c) h)
            h)
        λ _. switch_chained_mode-Keeps mode names
