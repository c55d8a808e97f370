-- ===== src/Controllers/Topology/Cleanup.antt =====
-- `controller_chain_spec_cleanup` takes a controller out of all chains.
use ros2_control.Base.{
  ◌≡◌, refl, sym, ◌∙◌, subst, true, false, ◌&&◌, List, [], ◌∷◌, if◌then◌else◌, Name, name_discrete,
  name_eq, has_item, remove_item, remove_item-IsUnique, has_item-remove_item_self,
  has_item-remove_item_ne, keys, keys-assign, IsUnique, arith,
}
use ros2_control.Controllers.Topology
use ros2_control.Controllers.Topology.{ChainSpecs, chain_of}
use ros2_control.Controllers.Topology.Links.{
  following, preceding, follows, precedes, following-put_following, preceding-put_following,
  preceding-put_preceding, following-put_preceding,
}

pub remove_item-has :
    (xs : List Name) (c a : Name)
    → IsUnique xs
    → has_item (remove_item xs c) a ≡ (if name_eq c a then false else has_item xs a)
remove_item-has xs c a u =
    ground (arith, has_item-remove_item_self xs c u, has_item-remove_item_ne xs c a)

abbrev without_following : Name → Name → ChainSpecs → ChainSpecs
without_following c f m = Topology.put_preceding f (remove_item (preceding f m) c) m

abbrev without_preceding : Name → Name → ChainSpecs → ChainSpecs
without_preceding c p m = Topology.put_following p (remove_item (following p m) c) m

without_following-IsUnique :
    (c f x : Name) (m : ChainSpecs)
    → IsUnique (preceding x m)
    → IsUnique (preceding x (without_following c f m))
without_following-IsUnique c f x m u = elim (name_discrete f x) [
  | yes e ↦
      let same = preceding-put_preceding f x (remove_item (preceding f m) c) m in
      let u' = remove_item-IsUnique (preceding x m) c u in
      subst IsUnique (sym (same ∙ ground (arith, e))) u'
  | no e ↦
      let same = preceding-put_preceding f x (remove_item (preceding f m) c) m in
      subst IsUnique (sym (same ∙ ground (arith, e))) u
]

without_preceding-IsUnique :
    (c p x : Name) (m : ChainSpecs)
    → IsUnique (following x m)
    → IsUnique (following x (without_preceding c p m))
without_preceding-IsUnique c p x m u = elim (name_discrete p x) [
  | yes e ↦
      let same = following-put_following p x (remove_item (following p m) c) m in
      let u' = remove_item-IsUnique (following x m) c u in
      subst IsUnique (sym (same ∙ ground (arith, e))) u'
  | no e ↦
      let same = following-put_following p x (remove_item (following p m) c) m in
      subst IsUnique (sym (same ∙ ground (arith, e))) u
]

module _ (c : Name) where
  pub leave_following-IsUnique :
      (fs : List Name) (m : ChainSpecs) (x : Name)
      → IsUnique (preceding x m)
      → IsUnique (preceding x (Topology.leave_following c fs m))
  unfolding Topology.leave_following
  leave_following-IsUnique [] m x u = u
  leave_following-IsUnique (f ∷ fs) m x u =
      leave_following-IsUnique fs (without_following c f m) x (without_following-IsUnique c f x m u)

  pub leave_preceding-IsUnique :
      (ps : List Name) (m : ChainSpecs) (x : Name)
      → IsUnique (following x m)
      → IsUnique (following x (Topology.leave_preceding c ps m))
  unfolding Topology.leave_preceding
  leave_preceding-IsUnique [] m x u = u
  leave_preceding-IsUnique (p ∷ ps) m x u =
      leave_preceding-IsUnique ps (without_preceding c p m) x (without_preceding-IsUnique c p x m u)

  pub following-leave_following :
      (fs : List Name) (m : ChainSpecs) (x : Name)
      → following x (Topology.leave_following c fs m) ≡ following x m
  unfolding Topology.leave_following
  following-leave_following [] m x = refl
  following-leave_following (f ∷ fs) m x =
      following-leave_following fs (without_following c f m) x
      ∙ following-put_preceding f x (remove_item (preceding f m) c) m

  pub preceding-leave_preceding :
      (ps : List Name) (m : ChainSpecs) (x : Name)
      → preceding x (Topology.leave_preceding c ps m) ≡ preceding x m
  unfolding Topology.leave_preceding
  preceding-leave_preceding [] m x = refl
  preceding-leave_preceding (p ∷ ps) m x =
      preceding-leave_preceding ps (without_preceding c p m) x
      ∙ preceding-put_following p x (remove_item (following p m) c) m

  pub precedes-leave_following :
      (fs : List Name) (m : ChainSpecs) (a x : Name)
      → IsUnique (preceding x m)
      → precedes a x (Topology.leave_following c fs m)
        ≡ (if has_item fs x && name_eq c a then false else precedes a x m)
  unfolding Topology.leave_following has_item
  precedes-leave_following [] m a x u = refl
  precedes-leave_following (f ∷ fs) m a x u = ground (
    arith,
    precedes-leave_following fs (without_following c f m) a x
        (without_following-IsUnique c f x m u),
    preceding-put_preceding f x (remove_item (preceding f m) c) m,
    remove_item-has (preceding x m) c a u,
  )

  pub follows-leave_preceding :
      (ps : List Name) (m : ChainSpecs) (a x : Name)
      → IsUnique (following x m)
      → follows a x (Topology.leave_preceding c ps m)
        ≡ (if has_item ps x && name_eq c a then false else follows a x m)
  unfolding Topology.leave_preceding has_item
  follows-leave_preceding [] m a x u = refl
  follows-leave_preceding (p ∷ ps) m a x u = ground (
    arith,
    follows-leave_preceding ps (without_preceding c p m) a x (without_preceding-IsUnique c p x m u),
    following-put_following p x (remove_item (following p m) c) m,
    remove_item-has (following x m) c a u,
  )

  pub keys-leave_following :
      (fs : List Name) (m : ChainSpecs)
      → ((b : Name) → has_item fs b ≡ true → has_item (keys m) b ≡ true)
      → keys (Topology.leave_following c fs m) ≡ keys m
  unfolding Topology.leave_following Topology.put_preceding has_item
  keys-leave_following [] m h = refl
  keys-leave_following (f ∷ fs) m h =
      let spec = record (chain_of f m) { preceding_controllers = remove_item (preceding f m) c } in
      let same : keys (without_following c f m) ≡ keys m =
        keys-assign f spec m (h f (ground arith)) in
      keys-leave_following fs (without_following c f m) (λ b e. rw same (h b (ground arith))) ∙ same

  pub keys-leave_preceding :
      (ps : List Name) (m : ChainSpecs)
      → ((b : Name) → has_item ps b ≡ true → has_item (keys m) b ≡ true)
      → keys (Topology.leave_preceding c ps m) ≡ keys m
  unfolding Topology.leave_preceding Topology.put_following has_item
  keys-leave_preceding [] m h = refl
  keys-leave_preceding (p ∷ ps) m h =
      let spec = record (chain_of p m) { following_controllers = remove_item (following p m) c } in
      let same : keys (without_preceding c p m) ≡ keys m =
        keys-assign p spec m (h p (ground arith)) in
      keys-leave_preceding ps (without_preceding c p m) (λ b e. rw same (h b (ground arith))) ∙ same
