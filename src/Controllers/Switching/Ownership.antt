-- ===== src/Controllers/Switching/Ownership.antt =====
-- Loans have one owner: the controllers of the list and the call that is under way hold together
-- exactly the loans of the interfaces that are recorded as claimed.
use ros2_control.Base.{◌+◌, ◌≡◌, some, List, [], ◌∷◌, ◌++◌, Name, arith}
use ros2_control.Resource.Frame.{store}
use ros2_control.Controllers.Spec.{
  ControllerSpec, ControllerManager, find_controller, put_controller,
}
use ros2_control.Controllers.Changes
use ros2_control.Controllers.Switching.Accounts.{
  Accounts, Accounts-move, copies, copies-append, release_loans-Accounts,
}

module _ {E : Type 0} where
  -- All loans of the controllers of a list.
  unfoldable pub held : List (ControllerSpec E) → List Name
  held [] = []
  held (s ∷ ss) = s.c.command_interfaces ++ held ss

  pub copies-held-put :
      (k name : Name) (spec spec' : ControllerSpec E) (cs : List (ControllerSpec E))
      → find_controller name cs ≡ some spec
      → copies k (held (put_controller name spec' cs)) + copies k spec.c.command_interfaces
        ≡ copies k (held cs) + copies k spec'.c.command_interfaces
  unfolding held put_controller find_controller
  copies-held-put k name spec spec' [] e = ground arith
  copies-held-put k name spec spec' (s ∷ ss) e = ground (
    arith,
    copies-held-put k name spec spec' ss,
    copies-append k s.c.command_interfaces (held ss),
    copies-append k spec'.c.command_interfaces (held ss),
    copies-append k s.c.command_interfaces (held (put_controller name spec' ss)),
  )

  pub find-put :
      (name : Name) (spec spec' : ControllerSpec E) (cs : List (ControllerSpec E))
      → spec'.name ≡ name
      → find_controller name cs ≡ some spec
      → find_controller name (put_controller name spec' cs) ≡ some spec'
  unfolding put_controller find_controller
  find-put name spec spec' [] e h = ground arith
  find-put name spec spec' (s ∷ ss) e h = ground (arith, find-put name spec spec' ss e)

  pub find-name :
      (name : Name) (spec : ControllerSpec E) (cs : List (ControllerSpec E))
      → find_controller name cs ≡ some spec
      → spec.name ≡ name
  unfolding find_controller
  find-name name spec [] h = ground arith
  find-name name spec (s ∷ ss) h = ground (arith, find-name name spec ss)

module _ {D E : Type 0} where
  -- The loans at hand, `loans`, and those of the controllers.
  abbrev pub Holds : List Name → ControllerManager D E → Type 0
  Holds loans s = Accounts (store s.resource_manager) (loans ++ held s.controllers)

  abbrev pub Found : ControllerSpec E → ControllerManager D E → Type 0
  Found spec s = find_controller spec.name s.controllers ≡ some spec

  -- Loans go back and a controller changes: the accounts hold where those that the controller had,
  -- and those at hand, are the ones that went back and that it has now.
  pub exchange-Holds :
      (spec spec' : ControllerSpec E) (back loans : List Name) (s : ControllerManager D E)
      → spec'.name ≡ spec.name
      → Found spec s
      → ((k : Name)
          → copies k back + copies k spec'.c.command_interfaces
            ≡ copies k spec.c.command_interfaces + copies k loans)
      → Holds loans s
      → Holds [] (Changes.put_spec spec' (Changes.give_back back s))
  exchange-Holds spec spec' back loans s e f same h =
      let rest = held (put_controller spec'.name spec' s.controllers) in
      release_loans-Accounts back rest s.resource_manager (
        Accounts-move (loans ++ held s.controllers) (back ++ rest)
          (λ k. ground (
            arith,
            same k,
            copies-append k back rest,
            copies-append k loans (held s.controllers),
            copies-held-put k spec'.name spec spec' s.controllers,
          ))
          h)
