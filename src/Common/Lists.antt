-- ===== src/Common/Lists.antt =====
-- Lists measured by native numbers, and lists of numbers read as Python's sets and dicts.
use Prim.Native.Nat.{ℕ, zero, suc, ◌+◌, ◌≤◌}
use mathlib.Core.Path.{◌≡◌, refl, ap}
use mathlib.Core.Bool.{Bool, true, false, not, ◌&&◌, ◌||◌}
use mathlib.Core.List.{List, [], ◌∷◌, ◌++◌}
use mathlib.Core.Option.{Option, none, some}
use native.Mathlib.Omega.{arith}
use manage_deploy.Common.Tests.{◌==◌, if◌then◌else◌}

module _ {ℓ} {A : Type ℓ} where
  abbrev pub length : List A → ℕ
  length [] = 0
  length (x ∷ xs) = suc (length xs)

  abbrev pub get_elem? : List A → ℕ → Option A
  get_elem? [] i = none
  get_elem? (x ∷ xs) zero = some x
  get_elem? (x ∷ xs) (suc i) = get_elem? xs i

  -- A write out of bounds changes nothing.
  abbrev pub set : List A → ℕ → A → List A
  set [] i v = []
  set (x ∷ xs) zero v = v ∷ xs
  set (x ∷ xs) (suc i) v = x ∷ set xs i v

  abbrev pub take : ℕ → List A → List A
  take zero xs = []
  take (suc n) [] = []
  take (suc n) (x ∷ xs) = x ∷ take n xs

  abbrev pub is_empty : List A → Bool
  is_empty [] = true
  is_empty (x ∷ xs) = false

  -- The elements that pass a Boolean test.
  abbrev pub select : (A → Bool) → List A → List A
  select p [] = []
  select p (x ∷ xs) = let rest = select p xs in if p x then x ∷ rest else rest

  -- The first element that passes a test.
  abbrev pub find : (A → Bool) → List A → Option A
  find p [] = none
  find p (x ∷ xs) = let rest = find p xs in if p x then some x else rest

  pub length-append : (xs ys : List A) → length (xs ++ ys) ≡ length xs + length ys
  length-append [] ys = omega arith
  length-append (x ∷ xs) ys = omega (arith, length-append xs ys)

  pub length-set : (xs : List A) (k : ℕ) (v : A) → length (set xs k v) ≡ length xs
  length-set [] k v = refl
  length-set (x ∷ xs) zero v = refl
  length-set (x ∷ xs) (suc k) v = ap suc (length-set xs k v)

  pub length-select_le : (p : A → Bool) (xs : List A) → length (select p xs) ≤ length xs
  length-select_le p [] = omega arith
  length-select_le p (x ∷ xs) = ground (arith, length-select_le p xs)

-- `x in s`
abbrev pub contains : ℕ → List ℕ → Bool
contains a [] = false
contains a (x ∷ xs) = a == x || contains a xs

-- `s.add(x)`
abbrev pub add : ℕ → List ℕ → List ℕ
add a s = if contains a s then s else a ∷ s

-- `s` without `x`
abbrev pub remove : ℕ → List ℕ → List ℕ
remove a [] = []
remove a (x ∷ xs) = let rest = remove a xs in if a == x then rest else x ∷ rest

-- Every element of the first list stands in the second.
abbrev pub all_in : List ℕ → List ℕ → Bool
all_in [] s = true
all_in (x ∷ xs) s = contains x s && all_in xs s

abbrev pub keys {ℓ} : {V : Type ℓ} → List (ℕ × V) → List ℕ
keys [] = []
keys ((k, v) ∷ m) = k ∷ keys m

-- `d[k] = v`
abbrev pub put {ℓ} : {V : Type ℓ} → ℕ → V → List (ℕ × V) → List (ℕ × V)
put k v [] = (k, v) ∷ []
put k v ((j, w) ∷ m) = if k == j then (k, v) ∷ m else (j, w) ∷ put k v m

-- `del d[k]`
abbrev pub delete {ℓ} : {V : Type ℓ} → ℕ → List (ℕ × V) → List (ℕ × V)
delete k [] = []
delete k ((j, w) ∷ m) = if k == j then m else (j, w) ∷ delete k m

pub contains_self : (a : ℕ) (s : List ℕ) → contains a (a ∷ s) ≡ true
contains_self a s = ground arith

pub contains-add : (a b : ℕ) (s : List ℕ) → contains a (add b s) ≡ (a == b || contains a s)
contains-add a b s = ground (arith, contains-of_eq a b s)
  where
    contains-of_eq : (a b : ℕ) (s : List ℕ) → a ≡ b → contains a s ≡ contains b s
    contains-of_eq a b s e = rw e

pub contains-remove :
    (a b : ℕ) (s : List ℕ) → contains a (remove b s) ≡ (not (a == b) && contains a s)
contains-remove a b [] = ground arith
contains-remove a b (x ∷ xs) = ground (arith, contains-remove a b xs)

pub contains-append :
    (a : ℕ) (xs ys : List ℕ) → contains a (xs ++ ys) ≡ (contains a xs || contains a ys)
contains-append a [] ys = refl
contains-append a (x ∷ xs) ys = ground (arith, contains-append a xs ys)

pub contains-keys-put {ℓ} :
    {V : Type ℓ} (a k : ℕ) (v : V) (m : List (ℕ × V))
    → contains a (keys (put k v m)) ≡ (a == k || contains a (keys m))
contains-keys-put a k v [] = refl
contains-keys-put a k v ((j, w) ∷ m) = ground (arith, contains-keys-put a k v m)

-- Deleting one key keeps every other one.
pub contains-keys-delete_ne {ℓ} :
    {V : Type ℓ} (a k : ℕ) (m : List (ℕ × V))
    → (a == k) ≡ false
    → contains a (keys (delete k m)) ≡ contains a (keys m)
contains-keys-delete_ne a k [] h = refl
contains-keys-delete_ne a k ((j, w) ∷ m) h = ground (arith, contains-keys-delete_ne a k m h)

pub length-put {ℓ} :
    {V : Type ℓ} (k : ℕ) (v : V) (m : List (ℕ × V)) → length (put k v m) ≤ length m + 1
length-put k v [] = omega arith
length-put k v ((j, w) ∷ m) = ground (arith, length-put k v m)

pub length-delete {ℓ} : {V : Type ℓ} (k : ℕ) (m : List (ℕ × V)) → length (delete k m) ≤ length m
length-delete k [] = omega arith
length-delete k ((j, w) ∷ m) = ground (arith, length-delete k m)

pub all_in_iff :
    (xs s : List ℕ) (a : ℕ) → all_in xs s ≡ true → contains a xs ≡ true → contains a s ≡ true
all_in_iff [] s a h m = ground arith
all_in_iff (x ∷ xs) s a h m = ground (arith, all_in_iff xs s a)

pub all_in-add : (xs s : List ℕ) (b : ℕ) → all_in xs s ≡ true → all_in xs (add b s) ≡ true
all_in-add [] s b h = refl
all_in-add (x ∷ xs) s b h = ground (arith, contains-add x b s, all_in-add xs s b)

pub all_in-intro :
    (xs s : List ℕ) → ((a : ℕ) → contains a xs ≡ true → contains a s ≡ true) → all_in xs s ≡ true
all_in-intro [] s h = refl
all_in-intro (x ∷ xs) s h =
    let head = h x (contains_self x xs) in
    let tail = all_in-intro xs s (λ a m. h a (ground arith)) in ground arith

-- Some element, if there is one.
abbrev pub pick : List ℕ → ℕ
pick [] = 0
pick (x ∷ xs) = x

pub pick-contains : (xs : List ℕ) → is_empty xs ≡ false → contains (pick xs) xs ≡ true
pick-contains [] h = absurd (ground arith)
pick-contains (x ∷ xs) h = contains_self x xs
