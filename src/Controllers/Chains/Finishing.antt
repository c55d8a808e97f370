-- ===== src/Controllers/Chains/Finishing.antt =====
-- Steps of the check of a chain: they keep the controllers and the known interfaces, and come to an
-- end where the checks in them do.
use ros2_control.Base.{
  ◌≡◌, refl, Bool, true, false, not, List, [], ◌∷◌, ◌++◌, Name, arith, has_item, Outcome, returned,
  ◌>>=◌, ◌>>◌, done, when, branch, inl, inr, Outcome-cases,
}
use ros2_control.Resource.Interfaces
use ros2_control.Controllers.Spec.{ControllerSpec, ControllerManager, CmAction, SwitchParams}
use ros2_control.Controllers.Changes
use ros2_control.Controllers.Chains
use ros2_control.Controllers.Chains.{Verdict, all_interfaces}
use ros2_control.Controllers.Chains.Known.{
  KnownInterfaces, states_available-KnownInterfaces, references_available-KnownInterfaces,
}

module _ {D E : Type 0} (known : Name → Bool) (cs : List (ControllerSpec E)) where
  -- The controllers are those of the list, and their interfaces are known.
  abbrev pub Keeping : ControllerManager D E → Type 0
  Keeping s = (s.controllers ≡ cs) × KnownInterfaces known s.resource_manager

  abbrev pub Preserves : CmAction D E (Unit {0}) → Type 0
  Preserves m = (s : ControllerManager D E) → Keeping s → Keeping (m s).0

  -- The check comes to an end, and what it leaves can be checked again.
  abbrev pub FinishesAt : CmAction D E Verdict → ControllerManager D E → Type 0
  FinishesAt m s = Keeping (m s).0 × ¬ ((m s).1 ≡ returned Verdict.unfinished)

  bind-Preserves : (m n : CmAction D E (Unit {0})) → Preserves m → Preserves n → Preserves (m >> n)
  bind-Preserves m n hm hn s h = elim (Outcome-cases (m s).1) [
    | inl e ↦ rw (e, ◌>>=◌) (hm s h)
    | inr (a, e) ↦ rw (e, ◌>>=◌) (hn (m s).0 (hm s h))
  ]

  when-Preserves : (b : Bool) (m : CmAction D E (Unit {0})) → Preserves m → Preserves (when b m)
  when-Preserves true m hm = hm
  when-Preserves false m hm = λ s h. h

  on_params-Preserves : (f : SwitchParams → SwitchParams) → Preserves (Chains.on_params f)
  on_params-Preserves f s h = h

  make_reachable-Preserves :
      (is_reference : Bool) (name : Name) → Preserves (Chains.make_reachable is_reference name)
  make_reachable-Preserves is_reference name =
      let states : CmAction D E (Unit {0}) =
        Changes.on_resources
          (Interfaces.make_controller_exported_state_interfaces_available name) in
      let references : CmAction D E (Unit {0}) =
        Changes.on_resources (Interfaces.make_controller_reference_interfaces_available name) in
      let push : SwitchParams → SwitchParams =
        λ q. record q { to_chained_mode_request = q.to_chained_mode_request ++ name ∷ [] } in
      bind-Preserves states (when is_reference (Chains.enter_chained name))
        (λ s h. (h.0, states_available-KnownInterfaces known name s.resource_manager h.1))
        (when-Preserves is_reference (Chains.enter_chained name) (
          bind-Preserves references (Chains.on_params push)
            (λ s h. (h.0, references_available-KnownInterfaces known name s.resource_manager h.1))
            (on_params-Preserves push)))

  pub branch-At :
      {A : Type 0} (P : ControllerManager D E × Outcome A → Type 0) (b : Bool)
      (m n : CmAction D E A) (s : ControllerManager D E)
      → (b ≡ true → P (m s))
      → (b ≡ false → P (n s))
      → P (branch b m n s)
  branch-At P true m n s hm hn = hm refl
  branch-At P false m n s hm hn = hn refl

  keep_following-Preserves :
      (cmds : List Name) (itf : Name) (following : ControllerSpec E)
      → Preserves (Chains.keep_following cmds itf following)
  unfolding Chains.keep_following
  keep_following-Preserves cmds itf following s h =
      let b = not (has_item s.switch_params.to_chained_mode_request following.name) in
      let enter : CmAction D E (Unit {0}) =
        Chains.make_reachable (has_item cmds itf) following.name in
      branch-At (λ r. Keeping r.0) following.c.in_chained_mode (Chains.stay_chained following.name)
        (when b enter) s (λ c. h)
        λ c.
          when-Preserves b enter (make_reachable-Preserves (has_item cmds itf) following.name) s h

  if_ok-FinishesAt :
      (v : Verdict) (rest : CmAction D E Verdict) (s : ControllerManager D E)
      → Keeping s
      → ¬ (v ≡ Verdict.unfinished)
      → FinishesAt rest s
      → FinishesAt (Chains.if_ok v rest) s
  if_ok-FinishesAt Verdict.ok rest s h nv hr = hr
  if_ok-FinishesAt Verdict.error rest s h nv hr = (h, λ t. ground arith)
  if_ok-FinishesAt Verdict.unfinished rest s h nv hr = (h, λ t. nv refl)

  pub and_then-FinishesAt :
      (m rest : CmAction D E Verdict) (s : ControllerManager D E)
      → FinishesAt m s
      → FinishesAt rest (m s).0
      → FinishesAt (m >>= λ v. Chains.if_ok v rest) s
  and_then-FinishesAt m rest s h hr = elim (Outcome-cases (m s).1) [
    | inl e ↦ rw (e, ◌>>=◌) (h.0, λ t. ground arith)
    | inr (v, e) ↦
        rw (e, ◌>>=◌) (if_ok-FinishesAt v rest (m s).0 h.0 (λ t. h.1 (rw (e, t) refl)) hr)
  ]

  pub kept-FinishesAt :
      (cmds : List Name) (itf : Name) (following : ControllerSpec E) (s : ControllerManager D E)
      → Keeping s
      → FinishesAt (Chains.keep_following cmds itf following >> done Verdict.ok) s
  kept-FinishesAt cmds itf following s h =
      let keep : CmAction D E (Unit {0}) = Chains.keep_following cmds itf following in
      let kept = keep_following-Preserves cmds itf following s h in
      elim (Outcome-cases (keep s).1) [
        | inl e ↦ rw (e, ◌>>=◌) (kept, λ t. ground arith)
        | inr (u, e) ↦ rw (e, ◌>>=◌) (kept, λ t. ground arith)
      ]
