-- ===== src/Controllers/Switching/Accounts.antt =====
-- Accounts of loans: every interface that is recorded as claimed is among the loans once, and no
-- other is. Loans are counted, so that they can be moved between their holders.
use ros2_control.Base.{
  ℕ, ◌+◌, ◌≡◌, refl, ◌∙◌, Bool, true, false, Option, none, some, List, [], ◌∷◌, ◌++◌, ite, Name,
  name_discrete, arith, lookup-assign, has_key, Outcome, returned, thrown,
}
use ros2_control.Resource.Storage.{ResourceManager, ManagerAction}
use ros2_control.Resource.Interfaces
use ros2_control.Resource.Frame.{Store, store}
use ros2_control.Resource.Claims.Exclusive.{is_claimed}
use ros2_control.Controllers.Loans

-- How often a name is among the loans.
unfoldable pub copies : Name → List Name → ℕ
copies k [] = 0
copies k (x ∷ xs) = ite (name_discrete x k) (copies k xs + 1) (copies k xs)

pub copies-append : (k : Name) (xs ys : List Name) → copies k (xs ++ ys) ≡ copies k xs + copies k ys
unfolding copies
copies-append k [] ys = omega arith
copies-append k (x ∷ xs) ys = ground (arith, copies-append k xs ys)

copies-move :
    (x : Name) (own loans : List Name) (k : Name)
    → copies k ((own ++ x ∷ []) ++ loans) ≡ copies k (x ∷ (own ++ loans))
unfolding copies
copies-move x [] loans k = refl
copies-move x (y ∷ own) loans k = ground (arith, copies-move x own loans k)

abbrev bit : Bool → ℕ
bit true = 1
bit false = 0

pub record Accounts (st : Store) (loans : List Name) : Type 0 where
  pub counted : (k : Name) → copies k loans ≡ bit (is_claimed k st.0)
  pub stored : (k : Name) → has_key k st.0 ≡ has_key k st.1

pub Accounts-move :
    {st : Store} (xs ys : List Name)
    → ((k : Name) → copies k ys ≡ copies k xs)
    → Accounts st xs
    → Accounts st ys
Accounts-move xs ys same h = record { counted = λ k. same k ∙ h.counted k; stored = h.stored }

abbrev pub loan_of : Outcome (Option Name) → List Name
loan_of (returned (some key)) = key ∷ []
loan_of (returned none) = []
loan_of thrown = []

abbrev pub loans_of : Outcome (Option (List Name)) → List Name
loans_of (returned (some keys)) = keys
loans_of (returned none) = []
loans_of thrown = []

module _ {D : Type 0} where
  claim_one-Accounts :
      (handle : Bool) (key : Name) (r : ResourceManager D) (loans : List Name)
      → Accounts (store r) loans
      → let (r', o) = Loans.claim_one handle key r in Accounts (store r') (loan_of o ++ loans)
  unfolding Loans.claim_one Interfaces.claim_command_interface copies
  claim_one-Accounts handle key r loans h = record {
    counted = λ k. ground (
      arith,
      h.counted k,
      h.counted key,
      h.stored key,
      lookup-assign key k true r.claimed_command_interface_map,
    );
    stored = λ k.
        ground (
          arith,
          h.stored k,
          h.stored key,
          lookup-assign key k true r.claimed_command_interface_map,
        );
  }

  release_one-Accounts :
      (key : Name) (loans : List Name) (r : ResourceManager D)
      → Accounts (store r) (key ∷ loans)
      → Accounts (store (Interfaces.release_command_interface key r)) loans
  unfolding Interfaces.release_command_interface copies
  release_one-Accounts key loans r h = record {
    counted =
        λ k. ground (arith, h.counted k, lookup-assign key k false r.claimed_command_interface_map);
    stored = λ k. ground (
      arith,
      h.stored k,
      h.stored key,
      h.counted key,
      lookup-assign key k false r.claimed_command_interface_map,
    );
  }

  pub release_loans-Accounts :
      (keys loans : List Name) (r : ResourceManager D)
      → Accounts (store r) (keys ++ loans)
      → Accounts (store (Loans.release_loans keys r)) loans
  unfolding Loans.release_loans
  release_loans-Accounts [] loans r h = h
  release_loans-Accounts (key ∷ keys) loans r h =
      release_loans-Accounts keys loans (Interfaces.release_command_interface key r)
        (release_one-Accounts key (keys ++ loans) r h)

  abbrev Claims : List Name → ManagerAction D (Option (List Name)) → ResourceManager D → Type 0
  Claims loans m r = let (r', o) = m r in Accounts (store r') (loans_of o ++ loans)

  or_give_back-Claims :
      (own loans : List Name) (f : Name → ManagerAction D (Option (List Name)))
      (o : Outcome (Option Name)) (r : ResourceManager D)
      → Accounts (store r) (loan_of o ++ (own ++ loans))
      → ((loan : Name) → Accounts (store r) ((own ++ loan ∷ []) ++ loans) → Claims loans (f loan) r)
      → Claims loans (Loans.or_give_back own f o) r
  or_give_back-Claims own loans f thrown r h g = release_loans-Accounts own loans r h
  or_give_back-Claims own loans f (returned none) r h g = release_loans-Accounts own loans r h
  or_give_back-Claims own loans f (returned (some loan)) r h g = g loan (
      Accounts-move (loan ∷ (own ++ loans)) ((own ++ loan ∷ []) ++ loans)
        (copies-move loan own loans) h)

  -- Whatever the loop over the command interfaces comes to, the loans that it hands on are recorded,
  -- and no others.
  pub claim_command_interfaces-Accounts :
      (handle : Bool) (keys own loans : List Name) (r : ResourceManager D)
      → Accounts (store r) (own ++ loans)
      → Claims loans (Loans.claim_command_interfaces handle keys own) r
  unfolding Loans.claim_command_interfaces
  claim_command_interfaces-Accounts handle [] own loans r h = h
  claim_command_interfaces-Accounts handle (key ∷ keys) own loans r h =
      let (r', o) = Loans.claim_one handle key r in
      or_give_back-Claims own loans _ o r' (claim_one-Accounts handle key r (own ++ loans) h)
        λ loan. claim_command_interfaces-Accounts handle keys (own ++ loan ∷ []) loans r'
