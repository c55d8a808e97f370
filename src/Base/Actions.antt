-- ===== src/Base/Actions.antt =====
-- C++ calls that may throw, over a state that keeps what was changed before the exception.
use mathlib.Core.Path.{◌≡◌, refl}
use mathlib.Core.Logic.{◌⊎◌, inl, inr}
use mathlib.Core.Bool.{Bool, true, false}
use mathlib.Core.List.{List, [], ◌∷◌}

pub data Outcome {ℓ} (A : Type ℓ) : Type ℓ where
  returned : A → Outcome A
  thrown : Outcome A

abbrev pub Action {ℓ κ} : Type ℓ → Type κ → Type (ℓ ⊔ κ)
Action S A = S → S × Outcome A

infixl 5 ◌>>=◌ ◌>>◌
abbrev pub ◌>>=◌ {ℓ κ μ} :
    {S : Type ℓ} {A : Type κ} {B : Type μ} → Action S A → (A → Action S B) → Action S B
◌>>=◌ m f s = let (s', r) = m s in elim r [ returned a ↦ f a s' | thrown ↦ (s', thrown) ]

abbrev pub ◌>>◌ {ℓ κ μ} :
    {S : Type ℓ} {A : Type κ} {B : Type μ} → Action S A → Action S B → Action S B
m >> k = m >>= λ _. k

abbrev pub done {ℓ κ} : {S : Type ℓ} {A : Type κ} → A → Action S A
done a s = (s, returned a)

abbrev pub raise {ℓ κ} : {S : Type ℓ} {A : Type κ} → Action S A
raise s = (s, thrown)

abbrev pub modify {ℓ} : {S : Type ℓ} → (S → S) → Action S (Unit {0})
modify f s = (f s, returned tt)

abbrev pub read_state {ℓ κ} : {S : Type ℓ} {A : Type κ} → (S → A) → Action S A
read_state f s = (s, returned (f s))

abbrev pub when {ℓ} : {S : Type ℓ} → Bool → Action S (Unit {0}) → Action S (Unit {0})
when true m = m
when false m = done tt

-- A test between two actions.
abbrev pub branch {ℓ κ} : {S : Type ℓ} {A : Type κ} → Bool → Action S A → Action S A → Action S A
branch true m n s = m s
branch false m n s = n s

pub Outcome-cases {ℓ} : {A : Type ℓ} (o : Outcome A) → (o ≡ thrown) ⊎ ((a : A) × (o ≡ returned a))
Outcome-cases (returned a) = inr (a, refl)
Outcome-cases thrown = inl refl

-- The elements pass one after the other, up to the first that does not.
abbrev pub all_pass {ℓ} : {A : Type ℓ} → (A → Outcome Bool) → List A → Outcome Bool
all_pass f [] = returned true
all_pass f (x ∷ xs) = elim (f x) [
  | thrown ↦ thrown
  | returned false ↦ returned false
  | returned true ↦ all_pass f xs
]
