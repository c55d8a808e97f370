-- ===== src/Controllers/Topology/Links.antt =====
-- A link between two controllers stands in the lists of both.
use ros2_control.Base.{
  ◌≡◌, Bool, ◌||◌, ◌&&◌, List, ite, Name, name_discrete, name_eq, has_item, add_item,
  has_item-add_item, lookup-assign, arith,
}
use ros2_control.Controllers.Topology
use ros2_control.Controllers.Topology.{ChainSpecs, chain_of, no_chain}

abbrev pub following : Name → ChainSpecs → List Name
following a m = (chain_of a m).following_controllers

abbrev pub preceding : Name → ChainSpecs → List Name
preceding a m = (chain_of a m).preceding_controllers

pub following-put_following :
    (a x : Name) (l : List Name) (m : ChainSpecs)
    → following x (Topology.put_following a l m) ≡ ite (name_discrete a x) l (following x m)
unfolding Topology.put_following
following-put_following a x l m =
    ground (arith, lookup-assign a x (record (chain_of a m) { following_controllers = l }) m)

pub preceding-put_following :
    (a x : Name) (l : List Name) (m : ChainSpecs)
    → preceding x (Topology.put_following a l m) ≡ preceding x m
unfolding Topology.put_following
preceding-put_following a x l m =
    ground (arith, lookup-assign a x (record (chain_of a m) { following_controllers = l }) m)

pub preceding-put_preceding :
    (a x : Name) (l : List Name) (m : ChainSpecs)
    → preceding x (Topology.put_preceding a l m) ≡ ite (name_discrete a x) l (preceding x m)
unfolding Topology.put_preceding
preceding-put_preceding a x l m =
    ground (arith, lookup-assign a x (record (chain_of a m) { preceding_controllers = l }) m)

pub following-put_preceding :
    (a x : Name) (l : List Name) (m : ChainSpecs)
    → following x (Topology.put_preceding a l m) ≡ following x m
unfolding Topology.put_preceding
following-put_preceding a x l m =
    ground (arith, lookup-assign a x (record (chain_of a m) { preceding_controllers = l }) m)

-- Whether `b` follows `a`, by the one list and by the other.
abbrev pub follows : Name → Name → ChainSpecs → Bool
follows b a m = has_item (following a m) b

abbrev pub precedes : Name → Name → ChainSpecs → Bool
precedes a b m = has_item (preceding b m) a

module _ (a b x y : Name) (m : ChainSpecs) where
  pub follows-join_following :
      follows y x (Topology.join_following a b m) ≡ follows y x m || (name_eq a x && name_eq b y)
  unfolding Topology.join_following
  follows-join_following =
      let m' = Topology.put_following a (add_item (following a m) b) m in
      ground (
        arith,
        following-put_preceding b x (add_item (preceding b m') a) m',
        following-put_following a x (add_item (following a m) b) m,
        has_item-add_item (following a m) b y,
      )

  pub precedes-join_following :
      precedes x y (Topology.join_following a b m) ≡ precedes x y m || (name_eq a x && name_eq b y)
  unfolding Topology.join_following
  precedes-join_following =
      let m' = Topology.put_following a (add_item (following a m) b) m in
      ground (
        arith,
        preceding-put_preceding b y (add_item (preceding b m') a) m',
        preceding-put_following a y (add_item (following a m) b) m,
        preceding-put_following a b (add_item (following a m) b) m,
        has_item-add_item (preceding b m) a x,
      )

  pub follows-join_preceding :
      follows y x (Topology.join_preceding a b m) ≡ follows y x m || (name_eq b x && name_eq a y)
  unfolding Topology.join_preceding
  follows-join_preceding =
      let m' = Topology.put_preceding a (add_item (preceding a m) b) m in
      ground (
        arith,
        following-put_following b x (add_item (following b m') a) m',
        following-put_preceding a x (add_item (preceding a m) b) m,
        following-put_preceding a b (add_item (preceding a m) b) m,
        has_item-add_item (following b m) a y,
      )

  pub precedes-join_preceding :
      precedes x y (Topology.join_preceding a b m) ≡ precedes x y m || (name_eq b x && name_eq a y)
  unfolding Topology.join_preceding
  precedes-join_preceding =
      let m' = Topology.put_preceding a (add_item (preceding a m) b) m in
      ground (
        arith,
        preceding-put_following b y (add_item (following b m') a) m',
        preceding-put_preceding a y (add_item (preceding a m) b) m,
        has_item-add_item (preceding a m) b x,
      )
