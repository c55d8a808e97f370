-- ===== src/Base/Maps.antt =====
-- `std::map` and `std::unordered_map` from names, as association lists.
use mathlib.Core.Path.{◌≡◌, refl}
use mathlib.Core.Logic.{ite}
use mathlib.Core.Bool.{Bool, true, false}
use mathlib.Core.Option.{Option, none, some}
use mathlib.Core.List.{List, [], ◌∷◌}
use native.Mathlib.Omega.{arith}
use ros2_control.Base.Names.{Name, name_discrete, has_item}

module _ {ℓ} {V : Type ℓ} where
  unfoldable pub lookup : Name → List (Name × V) → Option V
  lookup k [] = none
  lookup k ((j, v) ∷ m) = ite (name_discrete j k) (some v) (lookup k m)

  -- `m[k] = v` and `m.insert_or_assign(k, v)`
  unfoldable pub assign : Name → V → List (Name × V) → List (Name × V)
  assign k v [] = (k, v) ∷ []
  assign k v ((j, w) ∷ m) = ite (name_discrete j k) ((k, v) ∷ m) ((j, w) ∷ assign k v m)

  -- `m.emplace(k, v)`: an entry that is there stays as it is.
  unfoldable pub emplace : Name → V → List (Name × V) → List (Name × V)
  emplace k v [] = (k, v) ∷ []
  emplace k v ((j, w) ∷ m) = ite (name_discrete j k) ((j, w) ∷ m) ((j, w) ∷ emplace k v m)

  unfoldable pub erase : Name → List (Name × V) → List (Name × V)
  erase k [] = []
  erase k ((j, w) ∷ m) = ite (name_discrete j k) (erase k m) ((j, w) ∷ erase k m)

  abbrev pub has_key : Name → List (Name × V) → Bool
  has_key k m = elim (lookup k m) [ none ↦ false | some v ↦ true ]

  abbrev pub keys : List (Name × V) → List Name
  keys [] = []
  keys ((j, w) ∷ m) = j ∷ keys m

  pub has_item-keys : (m : List (Name × V)) (k : Name) → has_item (keys m) k ≡ has_key k m
  unfolding lookup has_item
  has_item-keys [] k = refl
  has_item-keys ((j, w) ∷ m) k = ground (arith, has_item-keys m k)

  pub lookup-none :
      (m : List (Name × V)) (k : Name) → has_item (keys m) k ≡ false → lookup k m ≡ none
  lookup-none m k h = ground (arith, has_item-keys m k)

  pub keys-assign :
      (k : Name) (v : V) (m : List (Name × V))
      → has_item (keys m) k ≡ true
      → keys (assign k v m) ≡ keys m
  unfolding assign has_item
  keys-assign k v [] h = ground arith
  keys-assign k v ((j, w) ∷ m) h = ground (arith, keys-assign k v m)

  pub lookup-assign :
      (k j : Name) (v : V) (m : List (Name × V))
      → lookup j (assign k v m) ≡ ite (name_discrete k j) (some v) (lookup j m)
  unfolding lookup assign
  lookup-assign k j v [] = refl
  lookup-assign k j v ((i, w) ∷ m) = ground (arith, lookup-assign k j v m)

  pub lookup-emplace :
      (k j : Name) (v : V) (m : List (Name × V))
      → lookup j (emplace k v m)
        ≡ elim (lookup j m) [ some w ↦ some w | none ↦ ite (name_discrete k j) (some v) none ]
  unfolding lookup emplace
  lookup-emplace k j v [] = ground arith
  lookup-emplace k j v ((i, w) ∷ m) = ground (arith, lookup-emplace k j v m)

  pub lookup-erase :
      (k j : Name) (m : List (Name × V))
      → lookup j (erase k m) ≡ ite (name_discrete k j) none (lookup j m)
  unfolding lookup erase
  lookup-erase k j [] = ground arith
  lookup-erase k j ((i, w) ∷ m) = ground (arith, lookup-erase k j m)
