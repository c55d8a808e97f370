-- ===== src/Controllers/Callback/Emptied.antt =====
-- `switch_controller_cb` leaves no request behind where it returns.
use ros2_control.Base.{
  ℕ, ◌≡◌, refl, Bool, true, false, not, List, [], ◌∷◌, ◌++◌, Name, arith, returned, ◌>>=◌, branch,
  inl, inr, Outcome-cases, Option-cases,
}
use ros2_control.Hardware.Types.{is_active, is_inactive}
use ros2_control.Controllers.Spec.{
  ControllerPlugin, ControllerSpec, ControllerManager, CmAction, Strictness, find_controller,
  is_strict, is_best_effort,
}
use ros2_control.Controllers.Chains.{Verdict}
use ros2_control.Controllers.Requests
use ros2_control.Controllers.Conflicts
use ros2_control.Controllers.Callback.{are_lists_empty}

module _ {D E : Type 0} where
  abbrev pub Emptied : ControllerManager D E → Type 0
  Emptied s = are_lists_empty s.switch_params ≡ true

  -- Where the action ends at `s` with a value of the kind, the requests are empty.
  abbrev pub EmptiesAt : {A : Type 0} → (A → Bool) → CmAction D E A → ControllerManager D E → Type 0
  EmptiesAt {A} kind m s = (a : A) → (m s).1 ≡ returned a → kind a ≡ true → Emptied (m s).0

  abbrev pub Empties : {A : Type 0} → (A → Bool) → CmAction D E A → Type 0
  Empties kind m = (s : ControllerManager D E) → EmptiesAt kind m s

  pub bind-EmptiesAt :
      {A B : Type 0} (kind : B → Bool) (m : CmAction D E A) (f : A → CmAction D E B)
      (s : ControllerManager D E)
      → ((a : A) → (m s).1 ≡ returned a → EmptiesAt kind (f a) (m s).0)
      → EmptiesAt kind (m >>= f) s
  bind-EmptiesAt kind m f s hf = elim (Outcome-cases (m s).1) [
    | inl e ↦ λ b eb h. ground (arith, e)
    | inr (a, e) ↦ rw (e, ◌>>=◌) (hf a e)
  ]

  pub branch-EmptiesAt :
      {A : Type 0} (kind : A → Bool) (b : Bool) (m n : CmAction D E A) (s : ControllerManager D E)
      → (b ≡ true → EmptiesAt kind m s)
      → (b ≡ false → EmptiesAt kind n s)
      → EmptiesAt kind (branch b m n) s
  branch-EmptiesAt kind true m n s hm hn = hm refl
  branch-EmptiesAt kind false m n s hm hn = hn refl

  module _ (p : ControllerPlugin E) (fuel : ℕ) where
    after_check-Empties :
        (strictness : Strictness) (put : List Name → ControllerManager D E → ControllerManager D E)
        (kept : List Name) (name : Name) (names : List Name) (go_on : List Name → CmAction D E Bool)
        (v : Verdict)
        → ((kept' : List Name) → Empties not (go_on kept'))
        → Empties not (Requests.after_check p fuel strictness put kept name names go_on v)
    unfolding Requests.after_check
    after_check-Empties strictness put kept name names go_on Verdict.ok hg s =
        hg (kept ++ name ∷ []) s
    after_check-Empties strictness put kept name names go_on Verdict.unfinished hg s =
        λ a e h. ground arith
    after_check-Empties strictness put kept name names go_on Verdict.error hg s =
        branch-EmptiesAt not (is_strict strictness) _ _ s (λ b. λ a e h. refl)
          λ b.
            branch-EmptiesAt not (is_best_effort strictness) _ _ s
              (λ c. hg kept (put (kept ++ names) s)) λ c. hg (kept ++ name ∷ []) s

    pub check_activations-Empties :
        (strictness : Strictness) (kept names : List Name)
        → Empties not (Requests.check_activations p fuel strictness kept names)
    unfolding Requests.check_activations
    check_activations-Empties strictness kept [] s = λ a e h. ground (arith, e)
    check_activations-Empties strictness kept (name ∷ names) s =
        elim (Option-cases (find_controller name s.controllers)) [
          | inl e ↦ rw (e, Requests.check_activations) λ a e' h. ground arith
          | inr (spec, e) ↦
              rw (e, Requests.check_activations)
                (bind-EmptiesAt not (Requests.check_activation p fuel spec)
                  (Requests.after_check p fuel strictness Requests.put_activate kept name names
                    λ kept'. Requests.check_activations p fuel strictness kept' names)
                  s
                  λ v ev.
                    after_check-Empties strictness Requests.put_activate kept name names
                      (λ kept'. Requests.check_activations p fuel strictness kept' names) v
                      (λ kept'. check_activations-Empties strictness kept' names)
                      (Requests.check_activation p fuel spec s).0)
        ]

    pub check_deactivations-Empties :
        (strictness : Strictness) (kept names : List Name)
        → Empties not (Requests.check_deactivations p fuel strictness kept names)
    unfolding Requests.check_deactivations
    check_deactivations-Empties strictness kept [] s = λ a e h. ground (arith, e)
    check_deactivations-Empties strictness kept (name ∷ names) s =
        elim (Option-cases (find_controller name s.controllers)) [
          | inl e ↦ rw (e, Requests.check_deactivations) λ a e' h. ground arith
          | inr (spec, e) ↦
              rw (e, Requests.check_deactivations)
                (after_check-Empties strictness Requests.put_deactivate kept name names
                  (λ kept'. Requests.check_deactivations p fuel strictness kept' names)
                  (Requests.check_deactivation p fuel spec s)
                  (λ kept'. check_deactivations-Empties strictness kept' names) s)
        ]

    pub resolve_conflicts-Empties :
        (strictness : Strictness) (specs : List (ControllerSpec E))
        → Empties not (Conflicts.resolve_conflicts p strictness specs)
    unfolding Conflicts.resolve_conflicts
    resolve_conflicts-Empties strictness [] s = λ a e h. ground (arith, e)
    resolve_conflicts-Empties strictness (spec ∷ specs) s =
        let l = spec.c.lifecycle_state in
        elim (Option-cases (
          Conflicts.resolve_marks strictness spec.name (is_active l) (is_inactive l)
            s.switch_params)) [
              | inl e ↦ rw (e, Conflicts.resolve_conflicts) λ a e' h. refl
              | inr (m, e) ↦
                  rw (e, Conflicts.resolve_conflicts)
                    (resolve_conflicts-Empties strictness specs (Conflicts.collect p spec m s))
            ]
