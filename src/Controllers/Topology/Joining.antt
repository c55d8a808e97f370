-- ===== src/Controllers/Topology/Joining.antt =====
-- A link between two controllers keeps the invariant of the chain specs.
use ros2_control.Base.{
  ◌≡◌, sym, ◌∙◌, subst, true, List, ite, Name, name_discrete, has_item, add_item, add_item-IsUnique,
  keys, keys-assign, IsUnique, arith,
}
use ros2_control.Controllers.Topology
use ros2_control.Controllers.Topology.{ChainSpecs, chain_of, link_command, link_state}
use ros2_control.Controllers.Topology.Links.{
  following, preceding, following-put_following, preceding-put_following, preceding-put_preceding,
  following-put_preceding, follows-join_following, precedes-join_following, follows-join_preceding,
  precedes-join_preceding,
}
use ros2_control.Controllers.Topology.Invariant.{IsChainMap}

-- What the two joins of controllers do to the lists of one controller.
put-IsUnique :
    (a x item : Name) (l l' l'' : List Name)
    → l'' ≡ ite (name_discrete a x) (add_item l item) l'
    → IsUnique l
    → IsUnique l'
    → IsUnique l''
put-IsUnique a x item l l' l'' e u u' = elim (name_discrete a x) [
  | yes p ↦
      let same : l'' ≡ add_item l item = ground (arith, e) in
      subst IsUnique (sym same) (add_item-IsUnique l item u)
  | no p ↦ let same : l'' ≡ l' = ground (arith, e) in subst IsUnique (sym same) u'
]

module _ (ks : List Name) (a b : Name) (m : ChainSpecs) (h : IsChainMap ks m)
    (ha : has_item ks a ≡ true) (hb : has_item ks b ≡ true) where
  keys-put_following : (l : List Name) → keys (Topology.put_following a l m) ≡ ks
  unfolding Topology.put_following
  keys-put_following l =
      keys-assign a (record (chain_of a m) { following_controllers = l }) m (rw h.keys_are ha)
      ∙ h.keys_are

  keys-put_preceding : (l : List Name) → keys (Topology.put_preceding a l m) ≡ ks
  unfolding Topology.put_preceding
  keys-put_preceding l =
      keys-assign a (record (chain_of a m) { preceding_controllers = l }) m (rw h.keys_are ha)
      ∙ h.keys_are

  keys-join_following : keys (Topology.join_following a b m) ≡ ks
  unfolding Topology.join_following Topology.put_preceding
  keys-join_following =
      let l = add_item (following a m) b in
      let m' = Topology.put_following a l m in
      let l' = add_item (preceding b m') a in
      keys-assign b (record (chain_of b m') { preceding_controllers = l' }) m'
        (rw (keys-put_following l) hb)
      ∙ keys-put_following l

  keys-join_preceding : keys (Topology.join_preceding a b m) ≡ ks
  unfolding Topology.join_preceding Topology.put_following
  keys-join_preceding =
      let l = add_item (preceding a m) b in
      let m' = Topology.put_preceding a l m in
      let l' = add_item (following b m') a in
      keys-assign b (record (chain_of b m') { following_controllers = l' }) m'
        (rw (keys-put_preceding l) hb)
      ∙ keys-put_preceding l

  following-join_following-IsUnique :
      (x : Name) → IsUnique (following x (Topology.join_following a b m))
  unfolding Topology.join_following
  following-join_following-IsUnique x =
      let l = add_item (following a m) b in
      let m' = Topology.put_following a l m in
      put-IsUnique a x b (following a m) (following x m) _
        (following-put_preceding b x (add_item (preceding b m') a) m'
          ∙ following-put_following a x l m)
        (h.unique_following a) (h.unique_following x)

  preceding-join_following-IsUnique :
      (x : Name) → IsUnique (preceding x (Topology.join_following a b m))
  unfolding Topology.join_following
  preceding-join_following-IsUnique x =
      let l = add_item (following a m) b in
      let m' = Topology.put_following a l m in
      put-IsUnique b x a (preceding b m') (preceding x m') _
        (preceding-put_preceding b x (add_item (preceding b m') a) m')
        (subst IsUnique (sym (preceding-put_following a b l m)) (h.unique_preceding b))
        (subst IsUnique (sym (preceding-put_following a x l m)) (h.unique_preceding x))

  preceding-join_preceding-IsUnique :
      (x : Name) → IsUnique (preceding x (Topology.join_preceding a b m))
  unfolding Topology.join_preceding
  preceding-join_preceding-IsUnique x =
      let l = add_item (preceding a m) b in
      let m' = Topology.put_preceding a l m in
      put-IsUnique a x b (preceding a m) (preceding x m) _
        (preceding-put_following b x (add_item (following b m') a) m'
          ∙ preceding-put_preceding a x l m)
        (h.unique_preceding a) (h.unique_preceding x)

  following-join_preceding-IsUnique :
      (x : Name) → IsUnique (following x (Topology.join_preceding a b m))
  unfolding Topology.join_preceding
  following-join_preceding-IsUnique x =
      let l = add_item (preceding a m) b in
      let m' = Topology.put_preceding a l m in
      put-IsUnique b x a (following b m') (following x m') _
        (following-put_following b x (add_item (following b m') a) m')
        (subst IsUnique (sym (following-put_preceding a b l m)) (h.unique_following b))
        (subst IsUnique (sym (following-put_preceding a x l m)) (h.unique_following x))

  pub join_following-IsChainMap : IsChainMap ks (Topology.join_following a b m)
  join_following-IsChainMap = record {
    keys_are = keys-join_following;
    mirrored = λ x y. ground (
      arith,
      follows-join_following a b x y m,
      precedes-join_following a b x y m,
      h.mirrored x y,
    );
    known_following =
        λ x y e. ground (arith, follows-join_following a b x y m, h.known_following x y);
    known_preceding =
        λ x y e. ground (arith, precedes-join_following a b x y m, h.known_preceding x y);
    unique_following = following-join_following-IsUnique;
    unique_preceding = preceding-join_following-IsUnique;
  }

  pub join_preceding-IsChainMap : IsChainMap ks (Topology.join_preceding a b m)
  join_preceding-IsChainMap = record {
    keys_are = keys-join_preceding;
    mirrored = λ x y. ground (
      arith,
      follows-join_preceding a b x y m,
      precedes-join_preceding a b x y m,
      h.mirrored x y,
    );
    known_following =
        λ x y e. ground (arith, follows-join_preceding a b x y m, h.known_following x y);
    known_preceding =
        λ x y e. ground (arith, precedes-join_preceding a b x y m, h.known_preceding x y);
    unique_following = following-join_preceding-IsUnique;
    unique_preceding = preceding-join_preceding-IsUnique;
  }
