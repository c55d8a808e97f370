-- ===== src/Controllers/Loans.antt =====
-- Loans of interfaces while a controller is activated: what `activate_controllers` claims, and what
-- goes back where loans are destroyed (`release_command_interface` is their deleter).
use ros2_control.Base.{
  Bool, true, false, Option, none, some, List, [], ◌∷◌, ◌++◌, if◌then◌else◌, Name, Outcome,
  returned, thrown,
}
use ros2_control.Resource.Storage.{ResourceManager, ManagerAction}
use ros2_control.Resource.Interfaces.{
  claim_command_interface, claim_state_interface, command_interface_is_claimed,
  release_command_interface,
}

module _ {D : Type 0} where
  -- The destruction of loans, in the order of the vector.
  unfoldable pub release_loans : List Name → ResourceManager D → ResourceManager D
  release_loans [] r = r
  release_loans (key ∷ keys) r = release_loans keys (release_command_interface key r)

  -- One round of the loop over the command interfaces: `some` is a new loan, `none` a conflict or an
  -- exception that was handled.
  unfoldable pub claim_one : Bool → Name → ManagerAction D (Option Name)
  claim_one handle_exceptions key r =
      let (r', claimed) = command_interface_is_claimed key r in
      elim claimed [
        | thrown ↦ (r', thrown)
        | returned already ↦
            let (r'', o) = claim_command_interface key r' in
            if already then (r', returned none) else elim o [
              | returned itf ↦ (r'', returned (some key))
              | thrown ↦ if handle_exceptions then (r'', returned none) else (r'', thrown)
            ]
      ]

  -- What follows a round: without a new loan those so far go back, also when an exception passes.
  abbrev pub or_give_back :
      List Name
      → (Name → ManagerAction D (Option (List Name)))
      → Outcome (Option Name)
      → ManagerAction D (Option (List Name))
  or_give_back loans f thrown r = (release_loans loans r, thrown)
  or_give_back loans f (returned none) r = (release_loans loans r, returned none)
  or_give_back loans f (returned (some loan)) r = f loan r

  -- The whole loop.
  unfoldable pub claim_command_interfaces :
      Bool → List Name → List Name → ManagerAction D (Option (List Name))
  claim_command_interfaces handle_exceptions [] loans r = (r, returned (some loans))
  claim_command_interfaces handle_exceptions (key ∷ keys) loans r =
      let (r', o) = claim_one handle_exceptions key r in
      or_give_back loans
        (λ loan. claim_command_interfaces handle_exceptions keys (loans ++ loan ∷ [])) o r'

  -- Whether all state interfaces could be claimed; a claim of a state interface is not recorded.
  unfoldable pub claim_state_interfaces : Bool → List Name → ManagerAction D Bool
  claim_state_interfaces handle_exceptions [] r = (r, returned true)
  claim_state_interfaces handle_exceptions (key ∷ keys) r =
      let (r', o) = claim_state_interface key r in
      elim o [
        | returned itf ↦ claim_state_interfaces handle_exceptions keys r'
        | thrown ↦ if handle_exceptions then (r', returned false) else (r', thrown)
      ]
