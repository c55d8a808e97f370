-- ===== src/Controllers/Requests/Stoppable.antt =====
-- The loop over the controllers to deactivate, in a strict switch: nothing that stays active depends
-- on them.
use ros2_control.Base.{
  ℕ, ◌≡◌, refl, sym, ap, ◌∙◌, Bool, true, false, some, List, [], ◌∷◌, ◌++◌, Name, arith, has_item,
  returned, inl, inr, Option-cases, name_discrete, subst,
}
use ros2_control.Hardware.Types.{is_active, is_inactive}
use ros2_control.Controllers.Spec.{
  ControllerPlugin, ControllerSpec, ControllerManager, CmAction, Strictness, SwitchParams,
  find_controller, is_strict,
}
use ros2_control.Controllers.Chains
use ros2_control.Controllers.Chains.{Verdict, lets_go, all_let_go, preceding_controllers}
use ros2_control.Controllers.Requests

module _ {E : Type 0} (q : SwitchParams) (specs : List (ControllerSpec E)) where
  all_let_go-lets_go :
      (names : List Name) (c : Name) (preceding : ControllerSpec E)
      → all_let_go q specs names ≡ true
      → has_item names c ≡ true
      → find_controller c specs ≡ some preceding
      → lets_go q preceding ≡ true
  unfolding has_item
  all_let_go-lets_go [] c preceding a i f = ground arith
  all_let_go-lets_go (name ∷ names) c preceding a i f =
      ground (arith, all_let_go-lets_go names c preceding, f, i, a)

module _ {D E : Type 0} (p : ControllerPlugin E) (fuel : ℕ) (strictness : Strictness) where
  -- The controller is there and active, and the check of its preceding controllers is passed.
  abbrev IsStoppable : ControllerManager D E → Name → Type 0
  IsStoppable s name =
      (spec : ControllerSpec E) × (find_controller name s.controllers ≡ some spec)
      × (Requests.check_deactivation p fuel spec s ≡ Verdict.ok)

  -- One round of a strict switch passes only with the verdict `ok`.
  after_check-ok :
      (kept names : List Name) (name : Name) (go_on : List Name → CmAction D E Bool) (v : Verdict)
      (s : ControllerManager D E)
      → is_strict strictness ≡ true
      → let after =
          Requests.after_check p fuel strictness Requests.put_deactivate kept name names go_on v
            s in
        after.1 ≡ returned true → (v ≡ Verdict.ok) × (after ≡ go_on (kept ++ name ∷ []) s)
  unfolding Requests.after_check
  after_check-ok kept names name go_on Verdict.ok s b e = (refl, refl)
  after_check-ok kept names name go_on Verdict.unfinished s b e = ground (arith, e)
  after_check-ok kept names name go_on Verdict.error s b e = ground (arith, b, e)

  with_head :
      (name : Name) (names : List Name) (s : ControllerManager D E)
      → IsStoppable s name
      → ((k : Name) → has_item names k ≡ true → IsStoppable s k)
      → (k : Name) → has_item (name ∷ names) k ≡ true
      → IsStoppable s k
  unfolding has_item
  with_head name names s h hs k i = elim (name_discrete name k) [
    | yes q ↦ subst (IsStoppable s) q h
    | no q ↦ hs k (ground (arith, i, q))
  ]

  strict-lem :
      (kept names : List Name) (s : ControllerManager D E)
      → is_strict strictness ≡ true
      → (Requests.check_deactivations p fuel strictness kept names s).1 ≡ returned true
      → ((Requests.check_deactivations p fuel strictness kept names s).0 ≡ s)
        × ((k : Name) → has_item names k ≡ true → IsStoppable s k)
  unfolding Requests.check_deactivations has_item
  strict-lem kept [] s b e = (refl, λ k i. ground arith)
  strict-lem kept (name ∷ names) s b e =
      let run : List Name → CmAction D E Bool =
        λ kept'. Requests.check_deactivations p fuel strictness kept' names in
      elim (Option-cases (find_controller name s.controllers)) [
        | inl f ↦ ground (arith, e, f)
        | inr (spec, f) ↦
            let v = Requests.check_deactivation p fuel spec s in
            let after =
              Requests.after_check p fuel strictness Requests.put_deactivate kept name names run v
                s in
            let round : Requests.check_deactivations p fuel strictness kept (name ∷ names) s
                ≡ after =
              rw (f, Requests.check_deactivations) refl in
            let (passed, goes_on) =
              after_check-ok kept names name run v s b (ap (λ r. r.1) (sym round) ∙ e) in
            let whole = round ∙ goes_on in
            let (same, rest) =
              strict-lem (kept ++ name ∷ []) names s b (ap (λ r. r.1) (sym whole) ∙ e) in
            (ap (λ r. r.0) whole ∙ same, with_head name names s (spec, f, passed) rest)
      ]

  is_active_of :
      (spec : ControllerSpec E) (s : ControllerManager D E)
      → Requests.check_deactivation p fuel spec s ≡ Verdict.ok
      → is_active spec.c.lifecycle_state ≡ true
  unfolding Requests.check_deactivation
  is_active_of spec s ok = ground (arith, ok)

  preceding_of :
      (spec : ControllerSpec E) (s : ControllerManager D E)
      → Requests.check_deactivation p fuel spec s ≡ Verdict.ok
      → (c : Name) (preceding : ControllerSpec E) → spec.c.is_chainable ≡ true
      → has_item (preceding_controllers spec.name s) c ≡ true
      → find_controller c s.controllers ≡ some preceding
      → (is_active preceding.c.lifecycle_state ≡ true
          → has_item s.switch_params.deactivate_request preceding.name ≡ true)
        × (is_inactive preceding.c.lifecycle_state ≡ true
            → has_item s.switch_params.activate_request preceding.name ≡ false)
  unfolding Requests.check_deactivation Chains.check_preceding_controllers_for_deactivate
  preceding_of spec s ok c preceding chainable i f =
      let q = s.switch_params in
      let lets =
        all_let_go-lets_go q s.controllers (preceding_controllers spec.name s) c preceding
          (ground (arith, ok, chainable)) i f in
      (λ a. ground (arith, lets, a), λ a. ground (arith, lets, a))

  -- Where the loop of `switch_controller_cb` over the controllers to deactivate, started on the whole
  -- request with the strictness `STRICT`, lets the callback go on, it has changed nothing, every
  -- controller of the request is in the list of controllers and is active, and for a chainable one of
  -- them each preceding controller that is recorded for it and is in the list is in the deactivate
  -- request if it is active, and not in the activate request if it is inactive.
  pub check_deactivations-AllStoppable :
      (s : ControllerManager D E)
      → is_strict strictness ≡ true
      → (Requests.check_deactivations p fuel strictness [] s.switch_params.deactivate_request s).1
        ≡ returned true
      → ((Requests.check_deactivations p fuel strictness [] s.switch_params.deactivate_request s).0
          ≡ s)
        × ((name : Name)
            → has_item s.switch_params.deactivate_request name ≡ true
            → (spec : ControllerSpec E) × (find_controller name s.controllers ≡ some spec)
              × (is_active spec.c.lifecycle_state ≡ true)
              × ((c : Name) (preceding : ControllerSpec E)
                  → spec.c.is_chainable ≡ true
                  → has_item (preceding_controllers spec.name s) c ≡ true
                  → find_controller c s.controllers ≡ some preceding
                  → (is_active preceding.c.lifecycle_state ≡ true
                      → has_item s.switch_params.deactivate_request preceding.name ≡ true)
                    × (is_inactive preceding.c.lifecycle_state ≡ true
                        → has_item s.switch_params.activate_request preceding.name ≡ false)))
  check_deactivations-AllStoppable s b e =
      let (same, stoppable) = strict-lem [] s.switch_params.deactivate_request s b e in
      (
        same,
        λ name i.
            let (spec, f, ok) = stoppable name i in
            (spec, f, is_active_of spec s ok, preceding_of spec s ok),
      )
