-- ===== src/Controllers/Sorting/Bounds.antt =====
-- Where a controller is inserted into the order: never past the end.
use ros2_control.Base.{
  ℕ, zero, suc, ◌+◌, ◌≤◌, ◌<◌, ◌≡◌, Bool, true, false, List, [], ◌∷◌, length, if◌then◌else◌, Name,
  name_eq, ◌||◌, has_item, IsUnique, arith,
}
use ros2_control.Controllers.Spec.{ControllerChainSpec}
use ros2_control.Controllers.Sorting

pub find-lt : (xs : List Name) (a : Name) → has_item xs a ≡ true → Sorting.find xs a < length xs
unfolding Sorting.find has_item
find-lt [] a h = ground arith
find-lt (x ∷ xs) a h = ground (arith, find-lt xs a)

earliest-le : (ctrls : List Name) (i : ℕ) (names : List Name) → Sorting.earliest ctrls i names ≤ i
unfolding Sorting.earliest
earliest-le [] i names = omega arith
earliest-le (c ∷ cs) i names =
    ground (arith, earliest-le cs i names, earliest-le cs (Sorting.find names c) names)

latest-lt :
    (ctrls : List Name) (i k : ℕ) (names : List Name)
    → i < k
    → length names ≤ k
    → Sorting.latest ctrls i names < k
unfolding Sorting.latest
latest-lt [] i k names h l = h
latest-lt (c ∷ cs) i k names h l =
    ground
      (arith, find-lt names c, latest-lt cs i k names, latest-lt cs (Sorting.find names c) k names)

-- What `insert` and `insert` after the iterator need of it.
abbrev pub Fits : ℕ → Bool → List Name → Type 0
Fits iterator append names = (if append then iterator + 1 else iterator) ≤ length names

-- A controller that is placed from an iterator of the list, its end only where it is not placed after
-- it, is inserted at most at the end of the list.
pub place-le :
    (spec : ControllerChainSpec) (iterator : ℕ) (append : Bool) (names : List Name)
    → Fits iterator append names
    → Sorting.place spec iterator append names ≤ length names
unfolding Sorting.place
place-le spec i true names h =
    let e = Sorting.earliest spec.following_controllers i names in
    omega (
      arith,
      earliest-le spec.following_controllers i names,
      latest-lt spec.preceding_controllers e (length names) names,
    )
place-le spec i false names h =
    let e = Sorting.earliest spec.following_controllers i names in
    omega (
      arith,
      earliest-le spec.following_controllers i names,
      latest-lt spec.preceding_controllers e (length names + 1) names,
    )

pub has_item-insert :
    (i : ℕ) (name : Name) (xs : List Name) (a : Name)
    → i ≤ length xs
    → has_item (Sorting.insert i name xs) a ≡ name_eq name a || has_item xs a
unfolding Sorting.insert has_item
has_item-insert zero name xs a h = ground arith
has_item-insert (suc i) name [] a h = ground arith
has_item-insert (suc i) name (x ∷ xs) a h = ground (arith, has_item-insert i name xs a)

pub insert-IsUnique :
    (i : ℕ) (name : Name) (xs : List Name)
    → has_item xs name ≡ false
    → i ≤ length xs
    → IsUnique xs
    → IsUnique (Sorting.insert i name xs)
unfolding Sorting.insert has_item
insert-IsUnique zero name xs n h u = (n, u)
insert-IsUnique (suc i) name [] n h u = ground arith
insert-IsUnique (suc i) name (x ∷ xs) n h u =
    ground (arith, insert-IsUnique i name xs, has_item-insert i name xs x)
