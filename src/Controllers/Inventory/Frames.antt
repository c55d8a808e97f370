-- ===== src/Controllers/Inventory/Frames.antt =====
-- What keeps the names of the controllers and the chains.
use ros2_control.Base.{
  refl, Bool, true, false, not, ◌&&◌, ◌||◌, Name, Option-cases, Outcome-cases, inl, inr, ◌>>=◌,
  done, raise, branch, arith,
}
use ros2_control.Hardware.Types.{is_unconfigured, is_inactive, is_active, is_finalized}
use ros2_control.Resource.Storage.{ManagerAction}
use ros2_control.Controllers.Spec.{
  Controller, ControllerSpec, ControllerManager, CmAction, Transition, find_controller,
}
use ros2_control.Controllers.Changes
use ros2_control.Controllers.Loading
use ros2_control.Controllers.Loading.{ControllerLoader}
use ros2_control.Controllers.Unloading
use ros2_control.Controllers.Configuring
use ros2_control.Controllers.Sorting.Keeping.{names-put}
use ros2_control.Controllers.Inventory.{Same, Same-refl, Same-trans}

module _ {D E : Type 0} where
  -- Whether it returns or throws.
  abbrev pub KeepsNames : {A : Type 0} → CmAction D E A → Type 0
  KeepsNames m = (s : ControllerManager D E) → Same s (m s).0

  pub bind-KeepsNames :
      {A B : Type 0} (m : CmAction D E A) (f : A → CmAction D E B)
      → KeepsNames m
      → ((a : A) → KeepsNames (f a))
      → KeepsNames (m >>= f)
  bind-KeepsNames m f hm hf s = elim (Outcome-cases (m s).1) [
    | inl o ↦ rw (o, ◌>>=◌) (hm s)
    | inr (a, o) ↦ rw (o, ◌>>=◌) (Same-trans (hm s) (hf a (m s).0))
  ]

  pub branch-KeepsNames :
      {A : Type 0} (b : Bool) (m n : CmAction D E A)
      → KeepsNames m
      → KeepsNames n
      → KeepsNames (branch b m n)
  branch-KeepsNames true m n hm hn = hm
  branch-KeepsNames false m n hm hn = hn

  pub put_c-Same :
      (spec : ControllerSpec E) (c : Controller E) (s : ControllerManager D E)
      → Same s (Changes.put_c spec c s)
  put_c-Same spec c s = record {
    names = names-put (record spec { c = c }) s.controllers;
    specs = refl;
  }

  pub run_transition-Same :
      (spec : ControllerSpec E) (t : Transition E) (s : ControllerManager D E)
      → Same s (Changes.run_transition spec t s)
  unfolding Changes.run_transition
  run_transition-Same spec t s = record {
    names = names-put (record spec { c = Changes.after_call spec.c t }) s.controllers;
    specs = refl;
  }

  pub on_resources-KeepsNames :
      {A : Type 0} (m : ManagerAction D A) → KeepsNames (Changes.on_resources m)
  on_resources-KeepsNames m s = record { names = refl; specs = refl }

  pub caught-KeepsNames : KeepsNames {A = Bool} Loading.caught
  caught-KeepsNames s =
      branch-KeepsNames s.handle_exceptions (done false) raise Same-refl Same-refl s

  pub cleanup_exported-Same :
      (spec : ControllerSpec E) (s : ControllerManager D E)
      → Same s (Unloading.cleanup_controller_exported_interfaces spec s)
  unfolding Unloading.cleanup_controller_exported_interfaces
  cleanup_exported-Same spec s = record { names = ground arith; specs = ground arith }

  module _ (lo : ControllerLoader E) where
    pub cleanup_spec-KeepsNames :
        (spec : ControllerSpec E) → KeepsNames (Unloading.cleanup_spec {D = D} lo spec)
    unfolding Unloading.cleanup_spec
    cleanup_spec-KeepsNames spec s =
        let t = lo.cleanup spec.c.lifecycle_state spec.c.device in
        let s' = Unloading.cleanup_controller_exported_interfaces spec s in
        Same-trans (Same-trans (cleanup_exported-Same spec s) (run_transition-Same spec t s')) (
          branch-KeepsNames t.raised Loading.caught (done (is_unconfigured t.state))
            caught-KeepsNames Same-refl (Changes.run_transition spec t s'))

    pub cleanup_controller-KeepsNames :
        (name : Name) → KeepsNames (Unloading.cleanup_controller {D = D} lo name)
    unfolding Unloading.cleanup_controller
    cleanup_controller-KeepsNames name s =
        elim (Option-cases (find_controller name s.controllers)) [
          | inl e ↦ rw (e, Unloading.cleanup_controller) (Same-refl s)
          | inr (spec, e) ↦
              let state = spec.c.lifecycle_state in
              let clean : CmAction D E Bool = Unloading.cleanup_spec lo spec in
              let rest : CmAction D E Bool =
                branch (is_active state || is_finalized state) (done false) clean in
              rw (e, Unloading.cleanup_controller)
                (branch-KeepsNames (is_unconfigured state) (done true) rest Same-refl
                  (branch-KeepsNames (is_active state || is_finalized state) (done false) clean
                    Same-refl (cleanup_spec-KeepsNames spec))
                  s)
        ]

    pub undo-KeepsNames :
        (name : Name) → KeepsNames (Configuring.undo_configuration {D = D} lo name)
    unfolding Configuring.undo_configuration
    undo-KeepsNames name s = elim (Option-cases (find_controller name s.controllers)) [
      | inl e ↦ rw (e, Configuring.undo_configuration) (Same-refl s)
      | inr (spec, e) ↦
          let clean : CmAction D E Bool = Unloading.cleanup_spec lo spec in
          rw (e, Configuring.undo_configuration)
            (bind-KeepsNames clean (λ _. done false) (cleanup_spec-KeepsNames spec) (λ _. Same-refl)
              s)
    ]

    pub shutdown_found-KeepsNames :
        (name : Name) → KeepsNames (Unloading.shutdown_found {D = D} lo name)
    unfolding Unloading.shutdown_controller
    shutdown_found-KeepsNames name s = elim (Option-cases (find_controller name s.controllers)) [
      | inl e ↦ rw (e, Unloading.shutdown_found) (Same-refl s)
      | inr (spec, e) ↦
          let state = spec.c.lifecycle_state in
          let t = lo.shutdown state spec.c.device in
          let raised = t.raised && not s.handle_exceptions in
          rw (e, Unloading.shutdown_found)
            (branch-KeepsNames (is_inactive state || is_unconfigured state)
              (Unloading.shutdown_controller lo spec) (done tt)
              (λ s. Same-trans (run_transition-Same spec t s) (
                branch-KeepsNames (t.raised && not s.handle_exceptions) raise (done tt) Same-refl
                  Same-refl (Changes.run_transition spec t s)))
              Same-refl s)
    ]
