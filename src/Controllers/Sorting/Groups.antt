-- ===== src/Controllers/Sorting/Groups.antt =====
-- The groups of chained controllers that sorting records.
use ros2_control.Base.{
  ℕ, zero, suc, ◌+◌, ◌≤◌, ◌<◌, ◌≡◌, subst, ◌∙◌, ap, sym, ◌↔◌, Bool, true, false, ◌||◌, inl, inr,
  Bool-cases, Option-cases, some, none, List, [], ◌∷◌, length, Name, name_discrete, has_item,
  has_item-add_item, has_key, keys, has_item-keys, lookup, add_item, IsUnique, arith,
}
use ros2_control.Controllers.Spec.{ControllerSpec, ControllerChainSpec, find_controller}
use ros2_control.Controllers.Topology
use ros2_control.Controllers.Topology.{ChainSpecs, chain_of}
use ros2_control.Controllers.Sorting
use ros2_control.Controllers.Sorting.Keeping.{
  names_of, with_group, found-name, sort_controllers-find,
}
use ros2_control.Controllers.Switching.Ownership.{find-name}
use ros2_control.Controllers.Sorting.Termination.{
  IsClosed, missing, missing-le, missing-le_of_kept, missing-lt_of_placed, length-keys,
}

-- `b` precedes or follows `a`.
abbrev pub is_neighbour : ChainSpecs → Name → Name → Bool
is_neighbour m a b =
    has_item (chain_of a m).preceding_controllers b
    || has_item (chain_of a m).following_controllers b

-- The controllers that a chain joins to a controller, in any direction.
pub data Linked (m : ChainSpecs) (a : Name) : Name → Type 0 where
  start : Linked m a a
  next : {b : Name} (c : Name) → Linked m a b → is_neighbour m b c ≡ true → Linked m a c

module _ (m : ChainSpecs) where
  -- No name is lost, and the neighbours of each new name are there.
  record Explored (names out : List Name) : Type 0 where
    kept : (b : Name) → has_item names b ≡ true → has_item out b ≡ true
    closed :
        (a b : Name)
        → has_item out a ≡ true
        → has_item names a ≡ false
        → is_neighbour m a b ≡ true
        → has_item out b ≡ true

  Explored-refl : (names : List Name) → Explored names names
  Explored-refl names = record { kept = λ b h. h; closed = λ a b h n. absurd (ground arith) }

  Explored-trans : {xs ys zs : List Name} → Explored xs ys → Explored ys zs → Explored xs zs
  Explored-trans {ys = ys} e f = record {
    kept = λ b h. f.kept b (e.kept b h);
    closed = λ a b h n k. elim (Bool-cases (has_item ys a)) [
      | inl y ↦ f.kept b (e.closed a b y n k)
      | inr y ↦ f.closed a b h y k
    ];
  }

  abbrev Explores : ℕ → Type 0
  Explores fuel =
      (name : Name) (names : List Name)
      → has_key name m ≡ true
      → missing (keys m) (add_item names name) < fuel
      → let out = Topology.get_full_chain_spec fuel m name names in
        Explored names out
        × (has_item out name ≡ true)
        × ((b : Name) → is_neighbour m name b ≡ true → has_item out b ≡ true)

  add_item-placed : (names : List Name) (name : Name) → has_item (add_item names name) name ≡ true
  add_item-placed names name = ground (arith, has_item-add_item names name name)

  neighbour-placed :
      (name : Name) (spec : ControllerChainSpec) (b : Name) (out : List Name)
      → lookup name m ≡ some spec
      → (has_item spec.following_controllers b ≡ true → has_item out b ≡ true)
      → (has_item spec.preceding_controllers b ≡ true → has_item out b ≡ true)
      → is_neighbour m name b ≡ true
      → has_item out b ≡ true
  neighbour-placed name spec b out e f p h = ground (arith, e, f, p, h)

  -- The name itself may count as new, where its neighbours are there.
  with_name :
      (names out : List Name) (name : Name)
      → Explored (add_item names name) out
      → ((b : Name) → is_neighbour m name b ≡ true → has_item out b ≡ true)
      → Explored names out
  with_name names out name x near = record {
    kept = λ b h. x.kept b (ground (arith, has_item-add_item names name b, h));
    closed = λ a b h n k. elim (name_discrete name a) [
      | yes q ↦ near b (subst (λ c. is_neighbour m c b ≡ true) (sym q) k)
      | no q ↦ x.closed a b h (ground (arith, has_item-add_item names name a, n, q)) k
    ];
  }

  -- A name that is not yet there leaves fewer that are missing.
  missing-add_item :
      (name : Name) (names : List Name)
      → has_key name m ≡ true
      → has_item names name ≡ false
      → missing (keys m) (add_item names name) < missing (keys m) names
  unfolding has_item
  missing-add_item name names k n =
      missing-lt_of_placed (keys m) names (add_item names name) name
        (λ a h. ground (arith, has_item-add_item names name a, h)) (has_item-keys m name ∙ k) n
        (ground (arith, has_item-add_item names name name))

  visit-Explored :
      (fuel : ℕ) (ctrls names : List Name)
      → Explores fuel
      → ((b : Name) → has_item ctrls b ≡ true → has_key b m ≡ true)
      → missing (keys m) names ≤ fuel
      → let out = Topology.visit_chain (Topology.get_full_chain_spec fuel m) ctrls names in
        Explored names out × ((b : Name) → has_item ctrls b ≡ true → has_item out b ≡ true)
  unfolding Topology.visit_chain has_item
  visit-Explored fuel [] names g known le = (Explored-refl names, λ b h. ground arith)
  visit-Explored fuel (c ∷ cs) names g known le = elim (Bool-cases (has_item names c)) [
    | inl e ↦
        let (x, all) = visit-Explored fuel cs names g (λ b h. known b (ground arith)) le in
        rw (e, Topology.visit_chain) (x, λ b h. ground (arith, all b, x.kept c e, h))
    | inr e ↦
        let k = known c (ground arith) in
        let (y, placed, rest) = g c names k (omega (arith, missing-add_item c names k e)) in
        let names' = Topology.get_full_chain_spec fuel m c names in
        let fewer = missing-le_of_kept (keys m) names names' y.kept in
        let (x, all) =
          visit-Explored fuel cs names' g (λ b h. known b (ground arith)) (omega arith) in
        rw (e, Topology.visit_chain)
          (Explored-trans y x, λ b h. ground (arith, all b, x.kept c placed, h))
  ]

  module _ (closed : IsClosed m) where
    get_full_chain-Explores : (fuel : ℕ) → Explores fuel
    unfolding Topology.get_full_chain_spec
    get_full_chain-Explores zero name names k lt = absurd (omega arith)
    get_full_chain-Explores (suc fuel) name names k lt = elim (Option-cases (lookup name m)) [
      | inl e ↦ absurd (ground (arith, e, k))
      | inr (spec, e) ↦
          let g = get_full_chain-Explores fuel in
          let go = Topology.get_full_chain_spec fuel m in
          let l1 = add_item names name in
          let l2 = Topology.visit_chain go spec.following_controllers l1 in
          let out = Topology.visit_chain go spec.preceding_controllers l2 in
          let following = λ (b : Name) (h : has_item spec.following_controllers b ≡ true).
            closed.following name b (ground (arith, e, h)) in
          let preceding = λ (b : Name) (h : has_item spec.preceding_controllers b ≡ true).
            closed.preceding name b (ground (arith, e, h)) in
          let (x, fs) =
            visit-Explored fuel spec.following_controllers l1 g following (omega arith) in
          let fewer = missing-le_of_kept (keys m) l1 l2 x.kept in
          let (y, ps) =
            visit-Explored fuel spec.preceding_controllers l2 g preceding (omega arith) in
          let z = Explored-trans x y in
          let near = λ (b : Name) (h : is_neighbour m name b ≡ true).
            neighbour-placed name spec b out e (λ h. y.kept b (fs b h)) (ps b) h in
          let near' =
            λ (b : Name)
                (h : has_item spec.preceding_controllers b || has_item spec.following_controllers b
                  ≡ true).
              near b (ground (arith, e, h)) in
          rw (e, Topology.get_full_chain_spec)
            (with_name names out name z near, z.kept name (add_item-placed names name), near')
    ]

    -- With fuel above the number of entries, the group is the controllers linked to this one.
    group-Explored :
        (fuel : ℕ) (name : Name)
        → has_key name m ≡ true
        → length m < fuel
        → Explores fuel
        → let out = Topology.get_full_chain_spec fuel m name (add_item [] name) in
          (has_item out name ≡ true)
          × ((a b : Name)
              → has_item out a ≡ true
              → is_neighbour m a b ≡ true
              → has_item out b ≡ true)
    unfolding has_item add_item
    group-Explored fuel name k lt g =
        let (x, at, near) =
          g name (add_item [] name) k (
            omega (arith, length-keys m, missing-le (keys m) (add_item (add_item [] name) name))) in
        let out = Topology.get_full_chain_spec fuel m name (add_item [] name) in
        (
          at,
          λ a b h n. elim (name_discrete name a) [
            | yes q ↦ near b (subst (λ c. is_neighbour m c b ≡ true) (sym q) n)
            | no q ↦ x.closed a b h (ground (arith, q)) n
          ],
        )

    Linked-placed :
        (name b : Name) (out : List Name)
        → has_item out name ≡ true
        → ((a b : Name) → has_item out a ≡ true → is_neighbour m a b ≡ true → has_item out b ≡ true)
        → Linked m name b
        → has_item out b ≡ true
    Linked-placed name b out at near start = at
    Linked-placed name b out at near (next {b = a} c l n) =
        near a b (Linked-placed name a out at near l) n

  -- What is found is linked.
  module _ (root : Name) where
    abbrev AllLinked : List Name → Type 0
    AllLinked names = (b : Name) → has_item names b ≡ true → Linked m root b

    visit-AllLinked :
        (go : Name → List Name → List Name) (ctrls names : List Name)
        → ((name : Name) (names : List Name)
            → Linked m root name
            → AllLinked names
            → AllLinked (go name names))
        → AllLinked ctrls
        → AllLinked names
        → AllLinked (Topology.visit_chain go ctrls names)
    unfolding Topology.visit_chain has_item
    visit-AllLinked go [] names g hs h = h
    visit-AllLinked go (c ∷ cs) names g hs h = elim (Bool-cases (has_item names c)) [
      | inl e ↦
          rw (e, Topology.visit_chain)
            (visit-AllLinked go cs names g (λ b k. hs b (ground arith)) h)
      | inr e ↦
          rw (e, Topology.visit_chain)
            (visit-AllLinked go cs (go c names) g (λ b k. hs b (ground arith))
              (g c names (hs c (ground arith)) h))
    ]

    add-AllLinked :
        (names : List Name) (name : Name)
        → Linked m root name
        → AllLinked names
        → AllLinked (add_item names name)
    add-AllLinked names name l h b k = elim (name_discrete name b) [
      | yes q ↦ subst (Linked m root) q l
      | no q ↦ h b (ground (arith, has_item-add_item names name b, k, q))
    ]

    get_full_chain-AllLinked :
        (fuel : ℕ) (name : Name) (names : List Name)
        → Linked m root name
        → AllLinked names
        → AllLinked (Topology.get_full_chain_spec fuel m name names)
    unfolding Topology.get_full_chain_spec
    get_full_chain-AllLinked zero name names l h = h
    get_full_chain-AllLinked (suc fuel) name names l h = elim (Option-cases (lookup name m)) [
      | inl e ↦ rw (e, Topology.get_full_chain_spec) h
      | inr (spec, e) ↦
          let go = Topology.get_full_chain_spec fuel m in
          let g = get_full_chain-AllLinked fuel in
          let l1 = add_item names name in
          let l2 = Topology.visit_chain go spec.following_controllers l1 in
          rw (e, Topology.get_full_chain_spec)
            (visit-AllLinked go spec.preceding_controllers l2 g
              (λ b k. next b l (ground (arith, e, k)))
              (visit-AllLinked go spec.following_controllers l1 g
                (λ b k. next b l (ground (arith, e, k))) (add-AllLinked names name l h)))
    ]

  abbrev pub IsGroup : Name → List Name → Type 0
  IsGroup name group = (b : Name) → (has_item group b ≡ true) ↔ Linked m name b

  get_full_chain-IsGroup :
      (fuel : ℕ) (name : Name)
      → IsClosed m
      → has_key name m ≡ true
      → length m < fuel
      → IsGroup name (Topology.get_full_chain_spec fuel m name (add_item [] name))
  unfolding has_item add_item
  get_full_chain-IsGroup fuel name closed k lt b =
      let out = Topology.get_full_chain_spec fuel m name (add_item [] name) in
      let (at, near) = group-Explored closed fuel name k lt (get_full_chain-Explores closed fuel) in
      let nothing : AllLinked name [] = λ b h. absurd (ground arith) in
      let only = add-AllLinked name [] name start nothing in
      (
        get_full_chain-AllLinked name fuel name (add_item [] name) start only b,
        Linked-placed closed name b out at near,
      )

-- Where every controller of the list has its one entry in the chain specs, and these name only
-- controllers that have an entry, sorting the list with fuel above the number of entries keeps each of
-- its controllers with nothing changed but its group, which is set to the controllers that a chain
-- joins to it, itself included, in any direction and over any number of others; it adds no controller,
-- and lists none twice.
pub sort_controllers-IsGroup :
    {E : Type 0} (more : ℕ) (m : ChainSpecs) (specs : List (ControllerSpec E))
    → IsUnique (keys m)
    → IsClosed m
    → ((n : Name) → has_item (names_of specs) n ≡ true → has_key n m ≡ true)
    → let specs' = Sorting.sort_controllers (more + suc (length m)) m specs in
      ((n : Name) (spec : ControllerSpec E)
        → find_controller n specs ≡ some spec
        → (group : List Name) × (find_controller n specs'
            ≡ some (record spec { controllers_chain_group = group }))
          × IsGroup m n group)
      × ((n : Name) → find_controller n specs ≡ none → find_controller n specs' ≡ none)
      × IsUnique (names_of specs')
sort_controllers-IsGroup more m specs u closed known =
    let fuel = more + length m in
    let (found, unique) = sort_controllers-find fuel m specs u known in
    let same : more + suc (length m) ≡ suc fuel = omega arith in
    rw same (
      λ n spec e.
          let listed : has_item (names_of specs) n ≡ true =
            ground (arith, found-name n spec specs e, find-name n spec specs e) in
          let group = Topology.get_full_chain_spec (suc fuel) m n (add_item [] n) in
          (
            group,
            found n ∙ ap (with_group group) e,
            get_full_chain-IsGroup m (suc fuel) n closed (known n listed) (omega arith),
          ),
      λ n e.
          found n ∙ ap (with_group (Topology.get_full_chain_spec (suc fuel) m n (add_item [] n))) e,
      unique,
    )
