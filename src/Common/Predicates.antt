-- ===== src/Common/Predicates.antt =====
-- A predicate of every element of a list, by recursion, so that it computes to a tuple.
use Prim.Native.Nat.{ℕ, zero, suc}
use mathlib.Core.Path.{◌≡◌}
use mathlib.Core.Logic.{inl, inr}
use mathlib.Core.Bool.{Bool, true}
use mathlib.Core.List.{List, [], ◌∷◌, ◌++◌}
use mathlib.Core.Option.{none, some}
use manage_deploy.Common.Tests.{Bool-cases}
use manage_deploy.Common.Lists.{get_elem?, set, select}

abbrev pub Each {ℓ} : {A : Type ℓ} → (A → Type 0) → List A → Type 0
Each P [] = Unit {0}
Each P (x ∷ xs) = P x × Each P xs

module _ {ℓ} {A : Type ℓ} where
  pub Each-imp : {P Q : A → Type 0} (xs : List A) → ((x : A) → P x → Q x) → Each P xs → Each Q xs
  Each-imp [] f h = tt
  Each-imp (x ∷ xs) f h = (f x h.0, Each-imp xs f h.1)

  pub Each-append : (P : A → Type 0) (xs ys : List A) → Each P xs → Each P ys → Each P (xs ++ ys)
  Each-append P [] ys hx hy = hy
  Each-append P (x ∷ xs) ys hx hy = (hx.0, Each-append P xs ys hx.1 hy)

  pub Each-get :
      (P : A → Type 0) (xs : List A) (k : ℕ) {x : A} → get_elem? xs k ≡ some x → Each P xs → P x
  Each-get P [] k e h = elim (absurd_none e) [ ]
    where
      absurd_none : {x : A} → none ≡ some x → ⊥
      absurd_none e = cc
  Each-get P (y ∷ ys) zero {x} e h = go y x e h.0
    where
      go : (y x : A) → some y ≡ some x → P y → P x
      go y x e p = let q : y ≡ x = cc in rw q at p
  Each-get P (y ∷ ys) (suc k) e h = Each-get P ys k e h.1

  pub Each-set :
      (P : A → Type 0) (xs : List A) (k : ℕ) (v : A) → Each P xs → P v → Each P (set xs k v)
  Each-set P [] k v h p = tt
  Each-set P (x ∷ xs) zero v h p = (p, h.1)
  Each-set P (x ∷ xs) (suc k) v h p = (h.0, Each-set P xs k v h.1 p)

  pub Each-and : (P Q : A → Type 0) (xs : List A) → Each P xs → Each Q xs → Each (λ x. P x × Q x) xs
  Each-and P Q [] p q = tt
  Each-and P Q (x ∷ xs) p q = ((p.0, q.0), Each-and P Q xs p.1 q.1)

  -- What passes a selection keeps its property, and has the test as one more.
  pub Each-select :
      (P Q : A → Type 0) (p : A → Bool) (xs : List A)
      → ((x : A) → p x ≡ true → P x → Q x)
      → Each P xs
      → Each Q (select p xs)
  Each-select P Q p [] f h = tt
  Each-select P Q p (x ∷ xs) f h = elim (Bool-cases (p x)) [
    | inl e ↦ rw e (f x e h.0, Each-select P Q p xs f h.1)
    | inr e ↦ rw e (Each-select P Q p xs f h.1)
  ]

  pub Each-all : (P : A → Type 0) (xs : List A) → ((x : A) → P x) → Each P xs
  Each-all P [] f = tt
  Each-all P (x ∷ xs) f = (f x, Each-all P xs f)
