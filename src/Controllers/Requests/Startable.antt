-- ===== src/Controllers/Requests/Startable.antt =====
-- The loop over the controllers to activate leaves those that can be started.
use ros2_control.Base.{
  ℕ, ◌≡◌, refl, sym, ap, ◌∙◌, Bool, true, false, ◌&&◌, ◌||◌, Option, none, some, List, [], ◌∷◌,
  ◌++◌, Name, arith, has_item, has_item-append, Outcome, returned, ◌>>=◌, branch, inl, inr,
  Outcome-cases, Option-cases, name_discrete, subst,
}
use ros2_control.Hardware.Types.{is_active, is_inactive}
use ros2_control.Controllers.Spec.{
  ControllerPlugin, ControllerSpec, ControllerManager, CmAction, Strictness, find_controller,
  is_strict, is_best_effort,
}
use ros2_control.Controllers.Chains.{Verdict}
use ros2_control.Controllers.Requests
use ros2_control.Controllers.Requests.View.{view, check_activation-view}

module _ {E : Type 0} where
  -- Inactive, or active and restarted by the same request.
  abbrev pub can_start : List Name → ControllerSpec E → Bool
  can_start deactivate spec =
      is_inactive spec.c.lifecycle_state
      || is_active spec.c.lifecycle_state && has_item deactivate spec.name

  abbrev can_start? : List Name → Option (ControllerSpec E) → Bool
  can_start? deactivate none = false
  can_start? deactivate (some spec) = can_start deactivate spec

  abbrev pub is_startable : List Name → List (ControllerSpec E) → Name → Bool
  is_startable deactivate specs name = can_start? deactivate (find_controller name specs)

module _ {D E : Type 0} (p : ControllerPlugin E) (fuel : ℕ) where
  check_state_and_chain-can_start :
      (spec : ControllerSpec E) (s : ControllerManager D E)
      → (Requests.check_state_and_chain p fuel spec s).1 ≡ returned Verdict.ok
      → can_start s.switch_params.deactivate_request spec ≡ true
  unfolding Requests.check_state_and_chain
  check_state_and_chain-can_start spec s e = ground (arith, e)

  check_activation-can_start :
      (spec : ControllerSpec E) (s : ControllerManager D E)
      → (Requests.check_activation p fuel spec s).1 ≡ returned Verdict.ok
      → can_start s.switch_params.deactivate_request spec ≡ true
  unfolding Requests.check_activation
  check_activation-can_start spec s e = ground (arith, e, check_state_and_chain-can_start spec s)

append-step : (xs : List Name) (x : Name) (ys : List Name) → xs ++ (x ∷ ys) ≡ (xs ++ x ∷ []) ++ ys
append-step [] x ys = refl
append-step (y ∷ xs) x ys = ap (λ zs. y ∷ zs) (append-step xs x ys)

module _ {E : Type 0} (cs : List (ControllerSpec E)) (d : List Name) where
  abbrev pub AllStartable : List Name → Type 0
  AllStartable names = (k : Name) → has_item names k ≡ true → is_startable d cs k ≡ true

  append-AllStartable :
      (xs ys : List Name) → AllStartable xs → AllStartable ys → AllStartable (xs ++ ys)
  append-AllStartable xs ys hx hy k e = ground (arith, has_item-append xs ys k, hx k, hy k, e)

  one-AllStartable : (name : Name) → is_startable d cs name ≡ true → AllStartable (name ∷ [])
  unfolding has_item
  one-AllStartable name h k e = elim (name_discrete name k) [
    | yes q ↦ subst (λ n. is_startable d cs n ≡ true) q h
    | no q ↦ ground (arith, e, q)
  ]

module _ {D E : Type 0} (cs : List (ControllerSpec E)) (d : List Name) where
  -- A loop that has come through leaves controllers that can be started.
  abbrev Done : ControllerManager D E × Outcome Bool → Type 0
  Done r =
      r.1 ≡ returned true
      → (names : List Name) × (view r.0 ≡ (cs, names, d)) × AllStartable cs d names

  branch-Done :
      (b : Bool) (m n : CmAction D E Bool) (s : ControllerManager D E)
      → (b ≡ true → Done (m s))
      → (b ≡ false → Done (n s))
      → Done (branch b m n s)
  branch-Done true m n s hm hn = hm refl
  branch-Done false m n s hm hn = hn refl

  module _ (p : ControllerPlugin E) (fuel : ℕ) (strictness : Strictness)
      (known : is_strict strictness || is_best_effort strictness ≡ true) where
    after_check-Done :
        (kept : List Name) (name : Name) (names : List Name) (go_on : List Name → CmAction D E Bool)
        (v : Verdict) (s : ControllerManager D E)
        → view s ≡ (cs, kept ++ (name ∷ names), d)
        → AllStartable cs d kept
        → (v ≡ Verdict.ok → is_startable d cs name ≡ true)
        → ((kept' : List Name) (t : ControllerManager D E)
            → view t ≡ (cs, kept' ++ names, d)
            → AllStartable cs d kept'
            → Done (go_on kept' t))
        → Done
            (Requests.after_check p fuel strictness Requests.put_activate kept name names go_on v s)
    unfolding Requests.after_check
    after_check-Done kept name names go_on Verdict.ok s w h hv hg =
        hg (kept ++ name ∷ []) s (w ∙ ap (λ xs. (cs, xs, d)) (append-step kept name names))
          (append-AllStartable cs d kept (name ∷ []) h (one-AllStartable cs d name (hv refl)))
    after_check-Done kept name names go_on Verdict.unfinished s w h hv hg = λ e. ground arith
    after_check-Done kept name names go_on Verdict.error s w h hv hg =
        branch-Done (is_strict strictness) _ _ s (λ b. λ e. ground arith)
          λ b.
            branch-Done (is_best_effort strictness) _ _ s
              (λ c.
                hg kept (Requests.put_activate (kept ++ names) s)
                  (ap (λ v. (v.0, kept ++ names, v.2)) w) h)
              λ c. ground (arith, known, b, c)

    passed-is_startable :
        (name : Name) (spec : ControllerSpec E) (s : ControllerManager D E) {xs : List Name}
        → find_controller name s.controllers ≡ some spec
        → view s ≡ (cs, xs, d)
        → (Requests.check_activation p fuel spec s).1 ≡ returned Verdict.ok
        → is_startable d cs name ≡ true
    passed-is_startable name spec s e w o =
        subst (λ v. is_startable v.2 v.0 name ≡ true) w
          (rw e (check_activation-can_start p fuel spec s o))

    check_activations-Done :
        (kept names : List Name) (s : ControllerManager D E)
        → view s ≡ (cs, kept ++ names, d)
        → AllStartable cs d kept
        → Done (Requests.check_activations p fuel strictness kept names s)
    unfolding Requests.check_activations has_item
    check_activations-Done kept [] s w h =
        λ e. (kept ++ [], w, append-AllStartable cs d kept [] h λ k i. ground arith)
    check_activations-Done kept (name ∷ names) s w h =
        elim (Option-cases (find_controller name s.controllers)) [
          | inl e ↦ rw (e, Requests.check_activations) λ t. ground arith
          | inr (spec, e) ↦
              let check : CmAction D E Verdict = Requests.check_activation p fuel spec in
              let go_on : List Name → CmAction D E Bool =
                λ kept'. Requests.check_activations p fuel strictness kept' names in
              elim (Outcome-cases (check s).1) [
                | inl o ↦ rw (e, Requests.check_activations, o, ◌>>=◌) λ t. ground arith
                | inr (v, o) ↦
                    rw (e, Requests.check_activations, o, ◌>>=◌)
                      (after_check-Done kept name names go_on v (check s).0
                        (check_activation-view p fuel spec s ∙ w) h
                        (λ q. passed-is_startable name spec s e w (o ∙ ap (λ x. returned x) q))
                        λ kept' t. check_activations-Done kept' names t)
              ]
        ]

module _ {D E : Type 0} (p : ControllerPlugin E) (fuel : ℕ) (strictness : Strictness) where
  abbrev pub check_all : CmAction D E Bool
  check_all s = Requests.check_activations p fuel strictness [] s.switch_params.activate_request s

  -- Where the loop of `switch_controller_cb` over the controllers to activate, started on the whole
  -- request with the strictness `STRICT` or `BEST_EFFORT`, lets the callback go on, every controller
  -- that is left in the activate request is in the list of controllers, and it is inactive, or active
  -- and in the deactivate request as well; the loop has changed neither the controllers nor the
  -- deactivate request.
  pub check_activations-AllStartable :
      (s : ControllerManager D E)
      → is_strict strictness || is_best_effort strictness ≡ true
      → (check_all s).1 ≡ returned true
      → ((check_all s).0.controllers ≡ s.controllers)
        × ((check_all s).0.switch_params.deactivate_request ≡ s.switch_params.deactivate_request)
        × AllStartable s.controllers s.switch_params.deactivate_request
            (check_all s).0.switch_params.activate_request
  unfolding has_item
  check_activations-AllStartable s known e =
      let cs = s.controllers in
      let d = s.switch_params.deactivate_request in
      let (names, w, h) =
        check_activations-Done cs d p fuel strictness known [] s.switch_params.activate_request s
          refl (λ k i. ground arith) e in
      (ap (λ v. v.0) w, ap (λ v. v.2) w, subst (AllStartable cs d) (sym (ap (λ v. v.1) w)) h)
