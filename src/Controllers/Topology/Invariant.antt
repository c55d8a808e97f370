-- ===== src/Controllers/Topology/Invariant.antt =====
-- The invariant of the chain specs: they have an entry for each controller and no other, each link
-- stands in the lists of both of its ends, once, and its ends are controllers.
use ros2_control.Base.{
  ◌≡◌, refl, sym, ap, ◌∙◌, subst, true, false, ◌||◌, List, [], ◌∷◌, if◌then◌else◌, Name,
  name_discrete, name_eq, has_item, remove_item, has_item-remove_item_ne, keys, lookup-erase, erase,
  IsUnique, arith,
}
use ros2_control.Controllers.Topology
use ros2_control.Controllers.Topology.{ChainSpecs, chain_of}
use ros2_control.Controllers.Topology.Links.{following, preceding, follows, precedes}
use ros2_control.Controllers.Topology.Cleanup.{
  leave_following-IsUnique, leave_preceding-IsUnique, following-leave_following,
  preceding-leave_preceding, precedes-leave_following, follows-leave_preceding,
  keys-leave_following, keys-leave_preceding,
}

pub record IsChainMap (controllers : List Name) (m : ChainSpecs) : Type 0 where
  pub keys_are : keys m ≡ controllers
  pub mirrored : (a b : Name) → follows b a m ≡ precedes a b m
  pub known_following : (a b : Name) → follows b a m ≡ true → has_item controllers b ≡ true
  pub known_preceding : (a b : Name) → precedes a b m ≡ true → has_item controllers a ≡ true
  pub unique_following : (a : Name) → IsUnique (following a m)
  pub unique_preceding : (b : Name) → IsUnique (preceding b m)

keys-erase_none :
    (c : Name) (m : ChainSpecs) → has_item (keys m) c ≡ false → keys (erase c m) ≡ keys m
unfolding erase has_item
keys-erase_none c [] h = refl
keys-erase_none c ((k, v) ∷ m) h = ground (arith, keys-erase_none c m)

keys-erase :
    (c : Name) (m : ChainSpecs) → IsUnique (keys m) → keys (erase c m) ≡ remove_item (keys m) c
unfolding erase remove_item
keys-erase c [] u = refl
keys-erase c ((k, v) ∷ m) u = ground (arith, keys-erase c m u.1, keys-erase_none c m)

module _ (ks : List Name) (m : ChainSpecs) (h : IsChainMap ks m) (c : Name) where
  abbrev left : ChainSpecs
  left = Topology.leave_following c (following c m) m

  abbrev alone : ChainSpecs
  alone = Topology.leave_preceding c (preceding c m) left

  left-IsUnique : (x : Name) → IsUnique (following x left)
  left-IsUnique x =
      subst IsUnique (sym (following-leave_following c (following c m) m x)) (h.unique_following x)

  -- The controller is in no chain afterwards, and all other links are as they were.
  pub cleanup-follows :
      (a b : Name)
      → follows b a (Topology.controller_chain_spec_cleanup m c)
        ≡ (if name_eq c a || name_eq c b then false else follows b a m)
  unfolding Topology.controller_chain_spec_cleanup has_item
  cleanup-follows a b = ground (
    arith,
    lookup-erase c a alone,
    follows-leave_preceding c (preceding c m) left b a (left-IsUnique a),
    following-leave_following c (following c m) m a,
    h.mirrored a c,
  )

  pub cleanup-precedes :
      (a b : Name)
      → precedes a b (Topology.controller_chain_spec_cleanup m c)
        ≡ (if name_eq c a || name_eq c b then false else precedes a b m)
  unfolding Topology.controller_chain_spec_cleanup has_item
  cleanup-precedes a b = ground (
    arith,
    lookup-erase c b alone,
    preceding-leave_preceding c (preceding c m) left b,
    precedes-leave_following c (following c m) m a b (h.unique_preceding b),
    h.mirrored c b,
  )

  keys-alone : keys alone ≡ ks
  keys-alone =
      let first : keys left ≡ keys m =
        keys-leave_following c (following c m) m (λ b e. rw h.keys_are (h.known_following c b e)) in
      keys-leave_preceding c (preceding c m) left
        (λ b e. rw (first, h.keys_are) (h.known_preceding b c e))
      ∙ first
      ∙ h.keys_are

  following-cleanup-IsUnique :
      (a : Name) → IsUnique (following a (Topology.controller_chain_spec_cleanup m c))
  unfolding Topology.controller_chain_spec_cleanup
  following-cleanup-IsUnique a =
      let u = leave_preceding-IsUnique c (preceding c m) left a (left-IsUnique a) in
      elim (name_discrete c a) [
        | yes e ↦
            let gone : following a (erase c alone) ≡ [] = ground (arith, lookup-erase c a alone) in
            subst IsUnique (sym gone) tt
        | no e ↦
            let same : following a (erase c alone) ≡ following a alone =
              ground (arith, lookup-erase c a alone) in
            subst IsUnique (sym same) u
      ]

  preceding-cleanup-IsUnique :
      (b : Name) → IsUnique (preceding b (Topology.controller_chain_spec_cleanup m c))
  unfolding Topology.controller_chain_spec_cleanup
  preceding-cleanup-IsUnique b =
      let u = leave_following-IsUnique c (following c m) m b (h.unique_preceding b) in
      let u' = subst IsUnique (sym (preceding-leave_preceding c (preceding c m) left b)) u in
      elim (name_discrete c b) [
        | yes e ↦
            let gone : preceding b (erase c alone) ≡ [] = ground (arith, lookup-erase c b alone) in
            subst IsUnique (sym gone) tt
        | no e ↦
            let same : preceding b (erase c alone) ≡ preceding b alone =
              ground (arith, lookup-erase c b alone) in
            subst IsUnique (sym same) u'
      ]

  pub cleanup-IsChainMap :
      IsUnique ks → IsChainMap (remove_item ks c) (Topology.controller_chain_spec_cleanup m c)
  cleanup-IsChainMap u = record {
    keys_are =
        unfold Topology.controller_chain_spec_cleanup in
        (keys-erase c alone (subst IsUnique (sym keys-alone) u)
          ∙ ap (λ l. remove_item l c) keys-alone);
    mirrored = λ a b. ground (arith, cleanup-follows a b, cleanup-precedes a b, h.mirrored a b);
    known_following = λ a b e.
        ground (arith, cleanup-follows a b, h.known_following a b, has_item-remove_item_ne ks c b);
    known_preceding = λ a b e.
        ground (arith, cleanup-precedes a b, h.known_preceding a b, has_item-remove_item_ne ks c a);
    unique_following = following-cleanup-IsUnique;
    unique_preceding = preceding-cleanup-IsUnique;
  }
