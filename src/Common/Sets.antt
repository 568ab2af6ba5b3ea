-- ===== src/Common/Sets.antt =====
-- Sets and dicts over numbers: shared elements, elements added and dropped.
use Prim.Native.Nat.{ℕ}
use mathlib.Core.Path.{◌≡◌, refl}
use mathlib.Core.Logic.{◌⊎◌, inl, inr}
use mathlib.Core.Bool.{Bool, true, false, ◌||◌}
use mathlib.Core.List.{List, [], ◌∷◌}
use native.Mathlib.Omega.{arith}
use manage_deploy.Common.Tests.{◌==◌, ==_iff, Bool-cases}
use manage_deploy.Common.Lists.{
  contains, add, all_in, keys, put, delete, is_empty, contains-add, contains-keys-delete_ne,
}
use manage_deploy.Common.Predicates.{Each}

-- The two lists share an element.
abbrev pub meets : List ℕ → List ℕ → Bool
meets [] ys = false
meets (x ∷ xs) ys = contains x ys || meets xs ys

pub meets-intro :
    (xs ys : List ℕ) (a : ℕ) → contains a xs ≡ true → contains a ys ≡ true → meets xs ys ≡ true
meets-intro [] ys a h m = h
meets-intro (x ∷ xs) ys a h m = elim (Bool-cases (a == x)) [
  | inl e ↦ let here : contains x ys ≡ true = rw ((==_iff a x).0 e) at m in ground arith
  | inr e ↦ let later = meets-intro xs ys a (ground arith) m in ground arith
]

-- Dropping one element of the second list.
pub meets-drop :
    (xs ys zs : List ℕ) (b : ℕ)
    → ((a : ℕ) → contains a ys ≡ true → (a ≡ b) ⊎ (contains a zs ≡ true))
    → meets xs ys ≡ true
    → (contains b xs ≡ true) ⊎ (meets xs zs ≡ true)
meets-drop [] ys zs b f h = inr h
meets-drop (x ∷ xs) ys zs b f h = elim (Bool-cases (contains x ys)) [
  | inl m ↦ elim (f x m) [ inl e ↦ inl (ground arith) | inr m' ↦ inr (ground arith) ]
  | inr m ↦ elim (meets-drop xs ys zs b f (ground arith)) [
    | inl c ↦ inl (ground arith)
    | inr c ↦ inr (ground arith)
  ]
]

pub meets_mono :
    (xs ys zs : List ℕ)
    → ((a : ℕ) → contains a ys ≡ true → contains a zs ≡ true)
    → meets xs ys ≡ true
    → meets xs zs ≡ true
meets_mono [] ys zs f h = h
meets_mono (x ∷ xs) ys zs f h = elim (Bool-cases (contains x ys)) [
  | inl m ↦ let n = f x m in ground arith
  | inr m ↦ let rest = meets_mono xs ys zs f (ground arith) in ground arith
]

pub all_in-add_cases :
    (xs s : List ℕ) (b : ℕ)
    → all_in xs (add b s) ≡ true
    → (contains b xs ≡ true) ⊎ (all_in xs s ≡ true)
all_in-add_cases [] s b h = inr refl
all_in-add_cases (x ∷ xs) s b h = elim (Bool-cases (b == x)) [
  | inl e ↦ inl (ground arith)
  | inr e ↦ elim (all_in-add_cases xs s b (ground arith)) [
    | inl m ↦ inl (ground arith)
    | inr m ↦ inr (ground (arith, contains-add x b s))
  ]
]

pub is_empty-add : (b : ℕ) (s : List ℕ) → is_empty (add b s) ≡ false
is_empty-add b [] = refl
is_empty-add b (x ∷ xs) = ground arith

pub contains-keys-delete :
    (a k : ℕ) (m : List (ℕ × ℕ))
    → contains a (keys m) ≡ true
    → (a ≡ k) ⊎ (contains a (keys (delete k m)) ≡ true)
contains-keys-delete a k m h = elim (Bool-cases (a == k)) [
  | inl e ↦ inl ((==_iff a k).0 e)
  | inr e ↦ inr (rw (contains-keys-delete_ne a k m e) h)
]

pub Each-put :
    (P : ℕ × ℕ → Type 0) (m : List (ℕ × ℕ)) (k v : ℕ) → Each P m → P (k, v) → Each P (put k v m)
Each-put P [] k v h p = (p, tt)
Each-put P ((j, w) ∷ m) k v h p = elim (Bool-cases (k == j)) [
  | inl q ↦ rw q (p, h.1)
  | inr q ↦ rw q (h.0, Each-put P m k v h.1 p)
]

pub Each-delete : (P : ℕ × ℕ → Type 0) (m : List (ℕ × ℕ)) (k : ℕ) → Each P m → Each P (delete k m)
Each-delete P [] k h = h
Each-delete P ((j, w) ∷ m) k h = elim (Bool-cases (k == j)) [
  | inl q ↦ rw q h.1
  | inr q ↦ rw q (h.0, Each-delete P m k h.1)
]
