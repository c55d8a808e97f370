-- ===== src/Controllers/Sorting/Termination.antt =====
-- The recursion of `update_list_with_controller_chain` ends: each call that goes on places a
-- controller, so that its depth is at most the number of controllers.
use ros2_control.Base.{
  ℕ, zero, suc, ◌+◌, ◌≤◌, ◌<◌, ◌≡◌, refl, sym, ap, ◌∙◌, Bool, true, false, inl, inr, Bool-cases,
  List, [], ◌∷◌, length, if◌then◌else◌, Name, has_item, has_key, keys, has_item-keys, IsUnique,
  arith,
}
use ros2_control.Controllers.Topology.{ChainSpecs, chain_of}
use ros2_control.Controllers.Sorting
use ros2_control.Controllers.Sorting.Bounds.{Fits, place-le}
use ros2_control.Controllers.Sorting.Complete.{
  Go, GoExtends, find-Fits, insert-Extends, has_item-insert_self, visit-Extends, update-Extends,
}

-- How many names are still to be placed.
pub missing : List Name → List Name → ℕ
missing [] names = 0
missing (k ∷ ks) names = (if has_item names k then 0 else 1) + missing ks names

pub missing-le_of_kept :
    (ks xs ys : List Name)
    → ((a : Name) → has_item xs a ≡ true → has_item ys a ≡ true)
    → missing ks ys ≤ missing ks xs
unfolding missing
missing-le_of_kept [] xs ys h = omega arith
missing-le_of_kept (k ∷ ks) xs ys h = ground (arith, h k, missing-le_of_kept ks xs ys h)

pub missing-lt_of_placed :
    (ks xs ys : List Name) (name : Name)
    → ((a : Name) → has_item xs a ≡ true → has_item ys a ≡ true)
    → has_item ks name ≡ true
    → has_item xs name ≡ false
    → has_item ys name ≡ true
    → missing ks ys < missing ks xs
unfolding missing has_item
missing-lt_of_placed [] xs ys name h k n y = ground arith
missing-lt_of_placed (k ∷ ks) xs ys name h hk n y =
    ground (arith, h k, missing-le_of_kept ks xs ys h, missing-lt_of_placed ks xs ys name h)

pub missing-le : (ks xs : List Name) → missing ks xs ≤ length ks
unfolding missing
missing-le [] xs = omega arith
missing-le (k ∷ ks) xs = ground (arith, missing-le ks xs)

pub length-keys : {V : Type 0} (m : List (Name × V)) → length (keys m) ≡ length m
length-keys [] = refl
length-keys (x ∷ m) = ap suc (length-keys m)

-- The chains name only controllers that have an entry.
pub record IsClosed (m : ChainSpecs) : Type 0 where
  pub following :
      (a b : Name) → has_item (chain_of a m).following_controllers b ≡ true → has_key b m ≡ true
  pub preceding :
      (a b : Name) → has_item (chain_of a m).preceding_controllers b ≡ true → has_key b m ≡ true

module _ (m : ChainSpecs) where
  abbrev Agree : ℕ → Go → Go → Type 0
  Agree fuel go go' =
      (name : Name) (i : ℕ) (append : Bool) (names : List Name)
      → has_key name m ≡ true
      → IsUnique names
      → Fits i append names
      → missing (keys m) names < fuel
      → go name i append names ≡ go' name i append names

  visit-Agree :
      (fuel : ℕ) (go go' : Go) (append : Bool) (name : Name) (ctrls names : List Name)
      → GoExtends go
      → Agree fuel go go'
      → ((b : Name) → has_item ctrls b ≡ true → has_key b m ≡ true)
      → IsUnique names
      → has_item names name ≡ true
      → missing (keys m) names < fuel
      → Sorting.visit go append name ctrls names ≡ Sorting.visit go' append name ctrls names
  unfolding Sorting.visit has_item
  visit-Agree fuel go go' append name [] names g same known u h lt = refl
  visit-Agree fuel go go' append name (c ∷ cs) names g same known u h lt =
      let i = Sorting.find names name in
      let f = find-Fits append name names h in
      let e = g c i append names u f in
      let names' = go c i append names in
      let le = missing-le_of_kept (keys m) names names' e.kept in
      visit-Agree fuel go go' append name cs names' g same (λ b k. known b (ground arith)) e.unique
        (e.kept name h) (omega arith)
      ∙ ap (λ l. Sorting.visit go' append name cs l)
          (same c i append names (known c (ground arith)) u f lt)

  module _ (closed : IsClosed m) where
    update_list-Agree :
        (fuel : ℕ)
        → Agree fuel
            (Sorting.update_list_with_controller_chain fuel m)
            (Sorting.update_list_with_controller_chain (suc fuel) m)
    unfolding Sorting.update_list_with_controller_chain
    update_list-Agree zero name i append names k u f lt = absurd (omega arith)
    update_list-Agree (suc fuel) name i append names k u f lt =
        let spec = chain_of name m in
        let go = Sorting.update_list_with_controller_chain fuel m in
        let go' = Sorting.update_list_with_controller_chain (suc fuel) m in
        let at = Sorting.place spec i append names in
        let le = place-le spec i append names f in
        elim (Bool-cases (has_item names name)) [
          | inl e ↦ rw (e, Sorting.update_list_with_controller_chain) refl
          | inr e ↦
              let ext = update-Extends fuel m in
              let names' = Sorting.insert at name names in
              let x = insert-Extends at name names e le u in
              let has = has_item-insert_self at name names le in
              let fewer =
                missing-lt_of_placed (keys m) names names' name x.kept (has_item-keys m name ∙ k) e
                  has in
              let y =
                visit-Extends go true name spec.following_controllers names' ext x.unique has in
              let names'' = Sorting.visit go true name spec.following_controllers names' in
              let fewer' = missing-le_of_kept (keys m) names' names'' y.kept in
              rw (e, Sorting.update_list_with_controller_chain)
                (visit-Agree fuel go go' false name spec.preceding_controllers names'' ext
                    (update_list-Agree fuel) (closed.preceding name) y.unique (y.kept name has)
                    (omega arith)
                  ∙ ap (λ l. Sorting.visit go' false name spec.preceding_controllers l)
                      (visit-Agree fuel go go' true name spec.following_controllers names' ext
                        (update_list-Agree fuel) (closed.following name) x.unique has
                        (omega arith)))
        ]

    order_names-suc :
        (fuel : ℕ) (rest : ChainSpecs) (names : List Name)
        → ((a : Name) → has_item (keys rest) a ≡ true → has_key a m ≡ true)
        → IsUnique names
        → length (keys m) < fuel
        → Sorting.order_names fuel m rest names ≡ Sorting.order_names (suc fuel) m rest names
    unfolding Sorting.order_names has_item
    order_names-suc fuel [] names known u lt = refl
    order_names-suc fuel ((name, spec) ∷ rest) names known u lt =
        let e = update-Extends fuel m name (length names) false names u (omega arith) in
        order_names-suc fuel rest _ (λ a h. known a (ground arith)) e.unique lt
        ∙ ap (λ l. Sorting.order_names (suc fuel) m rest l)
            (update_list-Agree fuel name (length names) false names (known name (ground arith)) u
              (omega arith) (omega (arith, missing-le (keys m) names)))

    -- Where the chains name only controllers that have an entry, the recursion is at most one deeper
    -- than there are entries: any more fuel gives the same order. Cycles in the chains included.
    pub order_names-enough :
        (more : ℕ)
        → Sorting.order_names (more + suc (length m)) m m []
          ≡ Sorting.order_names (suc (length m)) m m []
    order_names-enough zero = ap (λ n. Sorting.order_names n m m []) (omega arith)
    order_names-enough (suc more) =
        let fuel = more + suc (length m) in
        let one_more : suc more + suc (length m) ≡ suc fuel = omega arith in
        rw one_more (
          sym (
            order_names-suc fuel m [] (λ a h. sym (has_item-keys m a) ∙ h) tt
              (omega (arith, length-keys m)))
          ∙ order_names-enough more)
