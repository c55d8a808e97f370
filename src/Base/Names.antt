-- ===== src/Base/Names.antt =====
-- `std::string` names and `std::vector<std::string>` lists of them
-- (hardware_interface/include/hardware_interface/helpers.hpp).
use Prim.Native.String.{String}
use text.Mathlib.Text.{◌==◌ as str_eq}
use text.Mathlib.TextEquality.{eq_iff}
use mathlib.Core.Path.{◌≡◌, refl}
use mathlib.Core.Logic.{◌≢◌, inl, inr, ite}
use mathlib.Core.Bool.{Bool, true, false, ◌||◌}
use mathlib.Core.List.{List, [], ◌∷◌, ◌++◌}
use native.Mathlib.Omega.{arith}
use ros2_control.Base.Tests.{if◌then◌else◌, Bool-cases}

abbrev pub Name : Type 0
Name = String

ne_of_str_eq : (a b : Name) → str_eq a b ≡ false → ¬ (a ≡ b)
ne_of_str_eq a b e p = ground (arith, (eq_iff a b).1 p)

unfoldable pub name_discrete : Discrete Name
unfolding Bool-cases ne_of_str_eq
name_discrete a b = elim (Bool-cases (str_eq a b)) [
  | inl e ↦ yes ((eq_iff a b).0 e)
  | inr e ↦ no (ne_of_str_eq a b e)
]

abbrev pub name_eq : Name → Name → Bool
name_eq a b = ite (name_discrete a b) true false

unfoldable pub has_item : List Name → Name → Bool
has_item [] item = false
has_item (x ∷ xs) item = ite (name_discrete x item) true (has_item xs item)

unfoldable pub add_item : List Name → Name → List Name
unfolding has_item
add_item vector item = if has_item vector item then vector else vector ++ item ∷ []

unfoldable pub add_items : List Name → List Name → List Name
unfolding add_item
add_items vector [] = vector
add_items vector (item ∷ items) = add_items (add_item vector item) items

-- The container afterwards; whether an item was removed is `has_item` before.
unfoldable pub remove_item : List Name → Name → List Name
remove_item [] item = []
remove_item (x ∷ xs) item = ite (name_discrete x item) xs (x ∷ remove_item xs item)

unfoldable pub remove_items : List Name → List Name → List Name
unfolding remove_item
remove_items vector [] = vector
remove_items vector (item ∷ items) = remove_items (remove_item vector item) items

-- No name stands twice.
abbrev pub IsUnique : List Name → Type 0
IsUnique [] = Unit {0}
IsUnique (x ∷ xs) = (has_item xs x ≡ false) × IsUnique xs

pub has_item-append :
    (xs ys : List Name) (a : Name) → has_item (xs ++ ys) a ≡ has_item xs a || has_item ys a
unfolding has_item
has_item-append [] ys a = refl
has_item-append (x ∷ xs) ys a = ground (arith, has_item-append xs ys a)

pub has_item-add_item :
    (xs : List Name) (item a : Name)
    → has_item (add_item xs item) a ≡ has_item xs a || name_eq item a
unfolding add_item has_item
has_item-add_item xs item a = ground (arith, has_item-append xs (item ∷ []) a)

pub has_item-add_items :
    (xs items : List Name) (a : Name)
    → has_item (add_items xs items) a ≡ has_item xs a || has_item items a
unfolding add_items has_item
has_item-add_items xs [] a = ground arith
has_item-add_items xs (item ∷ items) a =
    ground (arith, has_item-add_items (add_item xs item) items a, has_item-add_item xs item a)

pub has_item-remove_item_ne :
    (xs : List Name) (item a : Name) → item ≢ a → has_item (remove_item xs item) a ≡ has_item xs a
unfolding has_item remove_item
has_item-remove_item_ne [] item a h = refl
has_item-remove_item_ne (x ∷ xs) item a h = ground (arith, has_item-remove_item_ne xs item a h)

pub has_item-remove_item_self :
    (xs : List Name) (item : Name) → IsUnique xs → has_item (remove_item xs item) item ≡ false
unfolding has_item remove_item
has_item-remove_item_self [] item u = refl
has_item-remove_item_self (x ∷ xs) item u = ground (arith, has_item-remove_item_self xs item u.1)

pub has_item-remove_item_le :
    (xs : List Name) (item a : Name)
    → has_item xs a ≡ false
    → has_item (remove_item xs item) a ≡ false
unfolding has_item remove_item
has_item-remove_item_le [] item a h = refl
has_item-remove_item_le (x ∷ xs) item a h = ground (arith, has_item-remove_item_le xs item a)

pub remove_item-IsUnique :
    (xs : List Name) (item : Name) → IsUnique xs → IsUnique (remove_item xs item)
unfolding remove_item
remove_item-IsUnique [] item u = tt
remove_item-IsUnique (x ∷ xs) item u =
    ground (arith, remove_item-IsUnique xs item u.1, has_item-remove_item_le xs item x)

pub append_new-IsUnique :
    (xs : List Name) (a : Name) → has_item xs a ≡ false → IsUnique xs → IsUnique (xs ++ a ∷ [])
unfolding has_item
append_new-IsUnique [] a h u = (refl, tt)
append_new-IsUnique (x ∷ xs) a h u =
    ground (arith, append_new-IsUnique xs a, has_item-append xs (a ∷ []) x)

pub add_item-IsUnique : (xs : List Name) (item : Name) → IsUnique xs → IsUnique (add_item xs item)
unfolding add_item
add_item-IsUnique xs item u = ground (arith, append_new-IsUnique xs item)

pub add_items-IsUnique : (xs items : List Name) → IsUnique xs → IsUnique (add_items xs items)
unfolding add_items
add_items-IsUnique xs [] u = u
add_items-IsUnique xs (item ∷ items) u =
    add_items-IsUnique (add_item xs item) items (add_item-IsUnique xs item u)

pub remove_items-IsUnique : (xs items : List Name) → IsUnique xs → IsUnique (remove_items xs items)
unfolding remove_items
remove_items-IsUnique xs [] u = u
remove_items-IsUnique xs (item ∷ items) u =
    remove_items-IsUnique (remove_item xs item) items (remove_item-IsUnique xs item u)

has_item-remove_items_le :
    (xs items : List Name) (a : Name)
    → has_item xs a ≡ false
    → has_item (remove_items xs items) a ≡ false
unfolding remove_items
has_item-remove_items_le xs [] a h = h
has_item-remove_items_le xs (item ∷ items) a h =
    has_item-remove_items_le (remove_item xs item) items a (has_item-remove_item_le xs item a h)

-- Removing from a list without repetitions leaves exactly the names that were not to be removed.
pub has_item-remove_items :
    (xs items : List Name) (a : Name)
    → IsUnique xs
    → has_item (remove_items xs items) a ≡ (if has_item items a then false else has_item xs a)
unfolding remove_items has_item
has_item-remove_items xs [] a u = refl
has_item-remove_items xs (item ∷ items) a u = elim (name_discrete item a) [
  | yes p ↦ ground (
    arith,
    has_item-remove_items_le (remove_item xs item) items a,
    has_item-remove_item_self xs item u,
  )
  | no p ↦ ground (
    arith,
    has_item-remove_items (remove_item xs item) items a (remove_item-IsUnique xs item u),
    has_item-remove_item_ne xs item a p,
  )
]
