-- ===== src/Controllers/Switching/Steps.antt =====
-- Every step of a switch keeps the accounts of loans.
use ros2_control.Base.{
  ◌≡◌, refl, sym, Bool, true, false, some, [], Name, arith, Outcome, ◌>>=◌, when, branch, inl, inr,
  Outcome-cases, if◌then◌else◌, Bool-cases, Option-cases, subst,
}
use ros2_control.Resource.Storage.{ManagerAction}
use ros2_control.Resource.Interfaces
use ros2_control.Resource.Frame.{KeepsStore}
use ros2_control.Controllers.Spec.{
  ControllerSpec, ControllerManager, CmAction, Transition, find_controller,
}
use ros2_control.Controllers.Loans
use ros2_control.Controllers.Changes
use ros2_control.Controllers.Switching.Accounts.{Accounts, copies}
use ros2_control.Controllers.Switching.Ownership.{held, Holds, Found, exchange-Holds, find-name}

module _ {D E : Type 0} where
  abbrev pub Keeps : {A : Type 0} → CmAction D E A → Type 0
  Keeps m = (s : ControllerManager D E) → Holds [] s → Holds [] (m s).0

  pub bind-Holds :
      {A B : Type 0} (m : CmAction D E A) (f : A → CmAction D E B) (s : ControllerManager D E)
      → Holds [] (m s).0
      → ((a : A) → Holds [] (f a (m s).0).0)
      → Holds [] ((m >>= f) s).0
  bind-Holds m f s hm hf = elim (Outcome-cases (m s).1) [
    | inl e ↦ rw (e, ◌>>=◌) hm
    | inr (a, e) ↦ rw (e, ◌>>=◌) (hf a)
  ]

  pub bind-Keeps :
      {A B : Type 0} (m : CmAction D E A) (f : A → CmAction D E B)
      → Keeps m
      → ((a : A) → Keeps (f a))
      → Keeps (m >>= f)
  bind-Keeps m f hm hf s h = bind-Holds m f s (hm s h) λ a. hf a (m s).0 (hm s h)

  pub if-Holds :
      {A : Type 0} (b : Bool) (s : ControllerManager D E) (o o' : Outcome A)
      → Holds [] s
      → Holds [] (if◌then◌else◌ {A = ControllerManager D E × Outcome A} b (s, o) (s, o')).0
  if-Holds true s o o' h = h
  if-Holds false s o o' h = h

  pub branch-Holds :
      {A : Type 0} (b : Bool) (m n : CmAction D E A) (s : ControllerManager D E)
      → Holds [] (m s).0
      → Holds [] (n s).0
      → Holds [] (branch b m n s).0
  branch-Holds true m n s hm hn = hm
  branch-Holds false m n s hm hn = hn

  pub branch-Keeps :
      {A : Type 0} (b : Bool) (m n : CmAction D E A) → Keeps m → Keeps n → Keeps (branch b m n)
  branch-Keeps true m n hm hn = hm
  branch-Keeps false m n hm hn = hn

  pub when-Holds :
      (b : Bool) (m : CmAction D E (Unit {0})) (s : ControllerManager D E)
      → Holds [] (m s).0
      → Holds [] s
      → Holds [] (when b m s).0
  when-Holds true m s hm h = hm
  when-Holds false m s hm h = h

  pub when-Keeps : (b : Bool) (m : CmAction D E (Unit {0})) → Keeps m → Keeps (when b m)
  when-Keeps true m hm = hm
  when-Keeps false m hm = λ s h. h

  pub on_resources-Keeps :
      {A : Type 0} (m : ManagerAction D A) → KeepsStore m → Keeps (Changes.on_resources m)
  on_resources-Keeps m keeps s h =
      subst (λ st. Accounts st (held s.controllers)) (sym (keeps s.resource_manager)) h

  -- A controller that keeps its loans may be changed.
  pub put-Keeps :
      (spec spec' : ControllerSpec E) (s : ControllerManager D E)
      → spec'.name ≡ spec.name
      → Found spec s
      → spec'.c.command_interfaces ≡ spec.c.command_interfaces
      → Holds [] s
      → Holds [] (Changes.put_spec spec' s)
  unfolding Loans.release_loans
  put-Keeps spec spec' s e f same h =
      exchange-Holds spec spec' [] [] s e f (λ k. ground (arith, same)) h

  pub release_interfaces-Keeps :
      (spec : ControllerSpec E) (s : ControllerManager D E)
      → Found spec s
      → Holds [] s
      → Holds [] (Changes.release_interfaces spec s)
  unfolding Changes.release_interfaces
  release_interfaces-Keeps spec s f h =
      exchange-Holds spec (record spec { c = Changes.drop_interfaces spec.c })
        spec.c.command_interfaces [] s refl f (λ k. refl) h

  pub run_transition-Keeps :
      (spec : ControllerSpec E) (t : Transition E) (s : ControllerManager D E)
      → Found spec s
      → Holds [] s
      → Holds [] (Changes.run_transition spec t s)
  unfolding Changes.run_transition copies
  run_transition-Keeps spec t s f h =
      exchange-Holds spec (record spec { c = Changes.after_call spec.c t })
        (if t.released then spec.c.command_interfaces else []) [] s refl f (λ k. ground arith) h

  -- What looks a controller up and keeps the accounts.
  abbrev pub KeepsFor : {A : Type 0} → (ControllerSpec E → CmAction D E A) → Type 0
  KeepsFor f =
      (spec : ControllerSpec E) (s : ControllerManager D E)
      → Found spec s
      → Holds [] s
      → Holds [] (f spec s).0

  pub found :
      (name : Name) (s : ControllerManager D E) (spec : ControllerSpec E)
      → find_controller name s.controllers ≡ some spec
      → Found spec s
  found name s spec e =
      subst (λ n. find_controller n s.controllers ≡ some spec)
        (sym (find-name name spec s.controllers e)) e

  pub with_controller-Keeps :
      (name : Name) (f : ControllerSpec E → CmAction D E (Unit {0}))
      → KeepsFor f
      → Keeps (Changes.with_controller name f)
  with_controller-Keeps name f hf s h = elim (Option-cases (find_controller name s.controllers)) [
    | inl e ↦ rw (e, Changes.with_controller) h
    | inr (spec, e) ↦ rw (e, Changes.with_controller) (hf spec s (found name s spec e) h)
  ]

  pub make_exported_available-Keeps : (name : Name) → Keeps (Changes.make_exported_available name)
  unfolding Interfaces.make_controller_exported_state_interfaces_available
      Interfaces.make_controller_reference_interfaces_available
  make_exported_available-Keeps name =
      let states : ManagerAction D (Unit {0}) =
        Interfaces.make_controller_exported_state_interfaces_available name in
      let references : ManagerAction D (Unit {0}) =
        Interfaces.make_controller_reference_interfaces_available name in
      bind-Keeps (Changes.on_resources states) (λ _. Changes.on_resources references)
        (on_resources-Keeps states λ r. ground arith)
        λ _. on_resources-Keeps references λ r. ground arith

  pub make_exported_unavailable-Keeps :
      (name : Name) → Keeps (Changes.make_exported_unavailable name)
  unfolding Interfaces.make_controller_exported_state_interfaces_unavailable
      Interfaces.make_controller_reference_interfaces_unavailable
  make_exported_unavailable-Keeps name =
      let states : ManagerAction D (Unit {0}) =
        Interfaces.make_controller_exported_state_interfaces_unavailable name in
      let references : ManagerAction D (Unit {0}) =
        Interfaces.make_controller_reference_interfaces_unavailable name in
      bind-Keeps (Changes.on_resources states) (λ _. Changes.on_resources references)
        (on_resources-Keeps states λ r. ground arith)
        λ _. on_resources-Keeps references λ r. ground arith

  pub handled-Holds :
      (m : CmAction D E (Unit {0})) (s : ControllerManager D E)
      → Holds [] (m s).0
      → Holds [] (Changes.handled m s).0
  handled-Holds m s hm = elim (Outcome-cases (m s).1) [
    | inl e ↦ elim (Bool-cases (m s).0.handle_exceptions) [
      | inl b ↦ rw (e, b, Changes.handled) hm
      | inr b ↦ rw (e, b, Changes.handled) hm
    ]
    | inr (a, e) ↦ rw (e, Changes.handled) hm
  ]
