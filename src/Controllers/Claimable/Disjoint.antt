-- ===== src/Controllers/Claimable/Disjoint.antt =====
-- What passes the check of the interfaces can be claimed, and no interface is wanted twice.
use ros2_control.Base.{
  ◌≡◌, refl, sym, ap, ◌∙◌, true, false, none, some, List, [], ◌∷◌, ◌++◌, Name, arith, has_item,
  has_item-append, IsUnique, append_new-IsUnique, returned, Outcome-cases, Option-cases, Bool-cases,
  inl, inr, if◌then◌else◌, name_discrete, subst,
}
use ros2_control.Resource.Storage.{ResourceManager}
use ros2_control.Resource.Interfaces.{command_interface_is_claimed, command_interface_is_available}
use ros2_control.Controllers.Spec.{ControllerPlugin, ControllerSpec, find_controller}
use ros2_control.Controllers.Configuration.{get_command_interfaces_names}
use ros2_control.Controllers.Claimable
use ros2_control.Controllers.Claimable.{all_states_available, is_individual}

abbrev pub append_assoc : (xs ys zs : List Name) → xs ++ (ys ++ zs) ≡ (xs ++ ys) ++ zs
append_assoc [] ys zs = refl
append_assoc (x ∷ xs) ys zs = ap (λ l. x ∷ l) (append_assoc xs ys zs)

append_nil : (xs : List Name) → xs ++ [] ≡ xs
append_nil [] = refl
append_nil (x ∷ xs) = ap (λ l. x ∷ l) (append_nil xs)

module _ {D E : Type 0} (p : ControllerPlugin E) (specs : List (ControllerSpec E))
    (r : ResourceManager D) where
  -- The command interfaces of the controllers that are activated and not restarted.
  unfoldable pub wanted : List Name → List Name → List Name
  wanted deactivation_list [] = []
  wanted deactivation_list (name ∷ names) =
      if has_item deactivation_list name
      then wanted deactivation_list names
      else elim (find_controller name specs) [
        | none ↦ wanted deactivation_list names
        | some spec ↦ get_command_interfaces_names p spec.c r ++ wanted deactivation_list names
      ]

  -- The command interfaces that a controller gives back when it is deactivated.
  abbrev pub gives_back : ControllerSpec E → List Name
  gives_back spec =
      let config = p.command_interface_configuration spec.c.device in
      if is_individual config.kind then config.names else spec.claimed_interfaces

  abbrev pub AllListed : List Name → Type 0
  AllListed names =
      (name : Name)
      → has_item names name ≡ true
      → (spec : ControllerSpec E) × (find_controller name specs ≡ some spec)

  -- One of the controllers gives the interface back.
  abbrev pub IsGivenBack : List Name → Name → Type 0
  IsGivenBack names itf =
      (name : Name) × (spec : ControllerSpec E) × (has_item names name ≡ true)
      × (find_controller name specs ≡ some spec)
      × (has_item (gives_back spec) itf ≡ true)

  later_IsGivenBack :
      (name : Name) (names : List Name) (itf : Name)
      → IsGivenBack names itf
      → IsGivenBack (name ∷ names) itf
  unfolding has_item
  later_IsGivenBack name names itf (n, spec, h, f, g) = (n, spec, ground arith, f, g)

  -- One round of the loop over the controllers to deactivate.
  give_one :
      (name : Name) (names available : List Name)
      → Claimable.future_available p specs r (name ∷ names) ≡ some available
      → (spec : ControllerSpec E) × (rest : List Name) × (find_controller name specs ≡ some spec)
        × (Claimable.future_available p specs r names ≡ some rest)
        × (available ≡ gives_back spec ++ rest)
  unfolding Claimable.future_available
  give_one name names available e = elim (Option-cases (find_controller name specs)) [
    | inl f ↦ ground (arith, f, e)
    | inr (spec, f) ↦ elim (Option-cases (Claimable.future_available p specs r names)) [
      | inl g ↦ ground (arith, f, g, e)
      | inr (rest, g) ↦ (spec, rest, f, g, ground (arith, f, g, e))
    ]
  ]

  future_available-lem :
      (names available : List Name)
      → Claimable.future_available p specs r names ≡ some available
      → AllListed names × ((itf : Name) → has_item available itf ≡ true → IsGivenBack names itf)
  unfolding Claimable.future_available has_item
  future_available-lem [] available e = (λ n h. ground arith, λ itf h. ground arith)
  future_available-lem (name ∷ names) available e =
      let (spec, rest, f, g, same) = give_one name names available e in
      let (listed, given) = future_available-lem names rest g in
      (
        λ n h. elim (name_discrete name n) [
          | yes q ↦ (spec, subst (λ k. find_controller k specs ≡ some spec) q f)
          | no q ↦ listed n (ground arith)
        ],
        λ itf h. elim (Bool-cases (has_item (gives_back spec) itf)) [
          | inl b ↦ (name, spec, ground arith, f, b)
          | inr b ↦
              later_IsGivenBack name names itf
                (given itf (ground (arith, has_item-append (gives_back spec) rest itf, same, h, b)))
        ],
      )

module _ {D E : Type 0} (p : ControllerPlugin E) (specs : List (ControllerSpec E))
    (r : ResourceManager D) (available : List Name) where
  -- The interface is available, and it is not claimed or is given back.
  abbrev CanClaim : Name → Type 0
  CanClaim itf =
      (command_interface_is_available itf r ≡ true)
      × ((command_interface_is_claimed itf r).1 ≡ returned true → has_item available itf ≡ true)

  abbrev AllCanClaim : List Name → Type 0
  AllCanClaim itfs = (k : Name) → has_item itfs k ≡ true → CanClaim k

  cons-AllCanClaim :
      (itf : Name) (itfs : List Name) → CanClaim itf → AllCanClaim itfs → AllCanClaim (itf ∷ itfs)
  unfolding has_item
  cons-AllCanClaim itf itfs h hs k i = elim (name_discrete itf k) [
    | yes q ↦ subst CanClaim q h
    | no q ↦ hs k (ground (arith, i, q))
  ]

  -- One round: the interface is new and can be claimed.
  take_one :
      (itf : Name) (itfs taken result : List Name)
      → Claimable.take_commands p specs r available (itf ∷ itfs) taken ≡ returned (some result)
      → CanClaim itf
        × (has_item taken itf ≡ false)
        × (Claimable.take_commands p specs r available itfs (taken ++ itf ∷ [])
            ≡ returned (some result))
  unfolding Claimable.take_commands
  take_one itf itfs taken result e = elim (Outcome-cases (command_interface_is_claimed itf r).1) [
    | inl c ↦ ground (arith, c, e)
    | inr (claimed, c) ↦ ground (arith, c, e)
  ]

  take_commands-lem :
      (itfs taken result : List Name)
      → Claimable.take_commands p specs r available itfs taken ≡ returned (some result)
      → IsUnique taken
      → AllCanClaim itfs × (result ≡ taken ++ itfs) × IsUnique result
  unfolding Claimable.take_commands has_item
  take_commands-lem [] taken result e u =
      let same : taken ≡ result = ground (arith, e) in
      (λ k i. ground arith, sym same ∙ sym (append_nil taken), subst IsUnique same u)
  take_commands-lem (itf ∷ itfs) taken result e u =
      let (can, fresh, rest) = take_one itf itfs taken result e in
      let (cans, same, unique) =
        take_commands-lem itfs (taken ++ itf ∷ []) result rest
          (append_new-IsUnique taken itf fresh u) in
      (cons-AllCanClaim itf itfs can cans, same ∙ sym (append_assoc taken (itf ∷ []) itfs), unique)

  -- One round for a controller that is not restarted.
  claim_round :
      (d : List Name) (name : Name) (names taken : List Name)
      → has_item d name ≡ false
      → Claimable.check_claims p specs r available d (name ∷ names) taken ≡ returned true
      → (spec : ControllerSpec E) × (result : List Name) × (find_controller name specs ≡ some spec)
        × (Claimable.take_commands p specs r available
              (get_command_interfaces_names p spec.c r)
              taken
            ≡ returned (some result))
        × (Claimable.check_claims p specs r available d names result ≡ returned true)
  unfolding Claimable.check_claims
  claim_round d name names taken b e = elim (Option-cases (find_controller name specs)) [
    | inl f ↦ ground (arith, b, f, e)
    | inr (spec, f) ↦
        let cmds = get_command_interfaces_names p spec.c r in
        elim (Outcome-cases (Claimable.take_commands p specs r available cmds taken)) [
          | inl t ↦ ground (arith, b, f, t, e)
          | inr (none, t) ↦ ground (arith, b, f, t, e)
          | inr (some result, t) ↦ (spec, result, f, t, ground (arith, b, f, t, e))
        ]
  ]

  append-AllCanClaim :
      (xs ys : List Name) → AllCanClaim xs → AllCanClaim ys → AllCanClaim (xs ++ ys)
  append-AllCanClaim xs ys hx hy k i = elim (Bool-cases (has_item xs k)) [
    | inl b ↦ hx k b
    | inr b ↦ hy k (ground (arith, has_item-append xs ys k, b, i))
  ]

  check_claims-lem :
      (d names taken : List Name)
      → Claimable.check_claims p specs r available d names taken ≡ returned true
      → IsUnique taken
      → AllCanClaim (wanted p specs r d names) × IsUnique (taken ++ wanted p specs r d names)
  unfolding Claimable.check_claims wanted has_item
  check_claims-lem d [] taken e u = (λ k i. ground arith, subst IsUnique (sym (append_nil taken)) u)
  check_claims-lem d (name ∷ names) taken e u = elim (Bool-cases (has_item d name)) [
    | inl b ↦ rw (b, wanted) (check_claims-lem d names taken (ground (arith, b, e)) u)
    | inr b ↦
        let (spec, result, f, t, rest) = claim_round d name names taken b e in
        let cmds = get_command_interfaces_names p spec.c r in
        let (cans, same, unique) = take_commands-lem cmds taken result t u in
        let (cans', unique') = check_claims-lem d names result rest unique in
        rw (b, f, wanted)
          (
            append-AllCanClaim cmds (wanted p specs r d names) cans cans',
            subst IsUnique
                (ap (λ l. l ++ wanted p specs r d names) same
                  ∙ sym (append_assoc taken cmds (wanted p specs r d names)))
                unique',
          )
  ]

module _ {D E : Type 0} (p : ControllerPlugin E) (specs : List (ControllerSpec E))
    (r : ResourceManager D) where
  -- Where `check_for_interfaces_availability_to_activate` lets a switch go on, the controllers to
  -- deactivate are all in the list; every command interface that a controller to activate wants,
  -- unless it is restarted, is available, and, where it is claimed, one of the controllers to
  -- deactivate gives it back: it names the interface in its configuration, or has claimed it, as its
  -- kind of configuration says; and no interface is wanted twice, by one of these controllers or by
  -- two.
  pub check_for_interfaces_availability-AllCanClaim :
      (activation_list deactivation_list : List Name)
      → Claimable.check_for_interfaces_availability_to_activate p specs r activation_list
          deactivation_list
        ≡ returned true
      → AllListed p specs r deactivation_list
        × ((itf : Name)
            → has_item (wanted p specs r deactivation_list activation_list) itf ≡ true
            → (command_interface_is_available itf r ≡ true)
              × ((command_interface_is_claimed itf r).1 ≡ returned true
                  → IsGivenBack p specs r deactivation_list itf))
        × IsUnique (wanted p specs r deactivation_list activation_list)
  unfolding Claimable.check_for_interfaces_availability_to_activate
  check_for_interfaces_availability-AllCanClaim activation_list d e =
      elim (Option-cases (Claimable.future_available p specs r d)) [
        | inl f ↦ ground (arith, f, e)
        | inr (available, f) ↦
            let (cans, unique) =
              check_claims-lem p specs r available d activation_list [] (ground (arith, f, e)) tt in
            let (listed, given) = future_available-lem p specs r d available f in
            (listed, λ itf h. ((cans itf h).0, λ c. given itf ((cans itf h).1 c)), unique)
      ]
