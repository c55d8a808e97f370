-- ===== src/Controllers/Sorting/Complete.antt =====
-- The order has every controller once.
use ros2_control.Base.{
  ℕ, zero, suc, ◌≤◌, ◌≡◌, Bool, true, false, inl, inr, Bool-cases, subst, List, [], ◌∷◌, length,
  Name, name_discrete, has_item, has_key, lookup, IsUnique, arith,
}
use ros2_control.Controllers.Topology.{ChainSpecs, chain_of}
use ros2_control.Controllers.Sorting
use ros2_control.Controllers.Sorting.Bounds.{
  Fits, find-lt, place-le, has_item-insert, insert-IsUnique,
}

-- No name of the list is lost, and none stands twice.
pub record Extends (names names' : List Name) : Type 0 where
  pub unique : IsUnique names'
  pub kept : (a : Name) → has_item names a ≡ true → has_item names' a ≡ true

abbrev pub Go : Type 0
Go = Name → ℕ → Bool → List Name → List Name

abbrev pub GoExtends : Go → Type 0
GoExtends go =
    (name : Name) (i : ℕ) (append : Bool) (names : List Name)
    → IsUnique names
    → Fits i append names
    → Extends names (go name i append names)

Extends-refl : (names : List Name) → IsUnique names → Extends names names
Extends-refl names u = record { unique = u; kept = λ a h. h }

Extends-trans : {xs ys zs : List Name} → Extends xs ys → Extends ys zs → Extends xs zs
Extends-trans e f = record { unique = f.unique; kept = λ a h. f.kept a (e.kept a h) }

pub find-Fits :
    (append : Bool) (name : Name) (names : List Name)
    → has_item names name ≡ true
    → Fits (Sorting.find names name) append names
find-Fits true name names h = omega (arith, find-lt names name h)
find-Fits false name names h = omega (arith, find-lt names name h)

pub visit-Extends :
    (go : Go) (append : Bool) (name : Name) (ctrls names : List Name)
    → GoExtends go
    → IsUnique names
    → has_item names name ≡ true
    → Extends names (Sorting.visit go append name ctrls names)
unfolding Sorting.visit
visit-Extends go append name [] names g u h = Extends-refl names u
visit-Extends go append name (c ∷ cs) names g u h =
    let e = g c (Sorting.find names name) append names u (find-Fits append name names h) in
    Extends-trans e (visit-Extends go append name cs _ g e.unique (e.kept name h))

pub insert-Extends :
    (i : ℕ) (name : Name) (names : List Name)
    → has_item names name ≡ false
    → i ≤ length names
    → IsUnique names
    → Extends names (Sorting.insert i name names)
insert-Extends i name names n h u = record {
  unique = insert-IsUnique i name names n h u;
  kept = λ a k. ground (arith, has_item-insert i name names a h);
}

pub has_item-insert_self :
    (i : ℕ) (name : Name) (names : List Name)
    → i ≤ length names
    → has_item (Sorting.insert i name names) name ≡ true
has_item-insert_self i name names h = ground (arith, has_item-insert i name names name h)

-- A controller and its neighbours are placed, where the calls for these keep the order.
place_chain :
    (fuel : ℕ) (m : ChainSpecs) (name : Name) (i : ℕ) (append : Bool) (names : List Name)
    → GoExtends (Sorting.update_list_with_controller_chain fuel m)
    → IsUnique names
    → Fits i append names
    → let names' = Sorting.update_list_with_controller_chain (suc fuel) m name i append names in
      Extends names names' × (has_item names' name ≡ true)
unfolding Sorting.update_list_with_controller_chain
place_chain fuel m name i append names g u f =
    let spec = chain_of name m in
    let go = Sorting.update_list_with_controller_chain fuel m in
    let at = Sorting.place spec i append names in
    let le = place-le spec i append names f in
    elim (Bool-cases (has_item names name)) [
      | inl e ↦ rw (e, Sorting.update_list_with_controller_chain) (Extends-refl names u, e)
      | inr e ↦
          let x = insert-Extends at name names e le u in
          let has = has_item-insert_self at name names le in
          let y = visit-Extends go true name spec.following_controllers _ g x.unique has in
          let has' = y.kept name has in
          let z = visit-Extends go false name spec.preceding_controllers _ g y.unique has' in
          rw (e, Sorting.update_list_with_controller_chain)
            (Extends-trans x (Extends-trans y z), z.kept name has')
    ]

pub update-Extends :
    (fuel : ℕ) (m : ChainSpecs) → GoExtends (Sorting.update_list_with_controller_chain fuel m)
unfolding Sorting.update_list_with_controller_chain
update-Extends zero m name i append names u f = Extends-refl names u
update-Extends (suc fuel) m name i append names u f =
    (place_chain fuel m name i append names (update-Extends fuel m) u f).0

order_names-Extends :
    (fuel : ℕ) (m rest : ChainSpecs) (names : List Name)
    → IsUnique names
    → Extends names (Sorting.order_names fuel m rest names)
unfolding Sorting.order_names
order_names-Extends fuel m [] names u = Extends-refl names u
order_names-Extends fuel m ((name, spec) ∷ rest) names u =
    let e = update-Extends fuel m name (length names) false names u (omega arith) in
    Extends-trans e (order_names-Extends fuel m rest _ e.unique)

order_names-has_item :
    (fuel : ℕ) (m rest : ChainSpecs) (names : List Name) (a : Name)
    → IsUnique names
    → has_key a rest ≡ true
    → has_item (Sorting.order_names (suc fuel) m rest names) a ≡ true
unfolding Sorting.order_names lookup
order_names-has_item fuel m [] names a u h = ground arith
order_names-has_item fuel m ((name, spec) ∷ rest) names a u h =
    let e = update-Extends (suc fuel) m name (length names) false names u (omega arith) in
    let names' =
      Sorting.update_list_with_controller_chain (suc fuel) m name (length names) false names in
    let placed =
      place_chain fuel m name (length names) false names (update-Extends fuel m) u (omega arith) in
    elim (name_discrete name a) [
      | yes p ↦
          (order_names-Extends (suc fuel) m rest names' e.unique).kept a
            (subst (λ n. has_item names' n ≡ true) p placed.1)
      | no p ↦ order_names-has_item fuel m rest names' a e.unique (ground arith)
    ]

-- With any fuel the order has every name of the chain specs, and none twice.
pub order_names-IsUnique : (fuel : ℕ) (m : ChainSpecs) → IsUnique (Sorting.order_names fuel m m [])
order_names-IsUnique fuel m = (order_names-Extends fuel m m [] tt).unique

pub order_names-has_key :
    (fuel : ℕ) (m : ChainSpecs) (a : Name)
    → has_key a m ≡ true
    → has_item (Sorting.order_names (suc fuel) m m []) a ≡ true
order_names-has_key fuel m a h = order_names-has_item fuel m m [] a tt h
