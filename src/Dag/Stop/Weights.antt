-- ===== src/Dag/Stop/Weights.antt =====
-- Weights on lists, for the measure of the stop loop (backend/services/dag_executor.py).
use manage_deploy.Common.{
  ==_iff, Bool, Bool-cases, List, [], add, arith, contains, contains_self, delete, false, get_elem?,
  if◌then◌else◌, inl, inr, keys, length, put, remove, set, some, suc, true, zero, ||-intro_right, ℕ,
  ◌++◌, ◌+◌, ◌==◌, ◌∷◌, ◌≡◌, ◌≤◌,
}
use manage_deploy.Dag.Stop.Loop.{StopPhase, StopTask}

-- The weight of a list whose elements all weigh the same.
abbrev pub weigh {ℓ} : {A : Type ℓ} → ℕ → List A → ℕ
weigh w [] = 0
weigh w (x ∷ xs) = w + weigh w xs

abbrev pub times : ℕ → ℕ → ℕ
times zero w = 0
times (suc n) w = w + times n w

pub weigh-append {ℓ} :
    {A : Type ℓ} (w : ℕ) (xs ys : List A) → weigh w (xs ++ ys) ≡ weigh w xs + weigh w ys
weigh-append w [] ys = omega arith
weigh-append w (x ∷ xs) ys = omega (arith, weigh-append w xs ys)

pub weigh-times {ℓ} : {A : Type ℓ} (n w : ℕ) (xs : List A) → length xs ≤ n → weigh w xs ≤ times n w
weigh-times n w [] h = omega arith
weigh-times zero w (x ∷ xs) h = absurd (omega arith)
weigh-times (suc n) w (x ∷ xs) h = omega (arith, weigh-times n w xs (omega arith))

pub weigh-remove_le : (w k : ℕ) (xs : List ℕ) → weigh w (remove k xs) ≤ weigh w xs
weigh-remove_le w k [] = omega arith
weigh-remove_le w k (x ∷ xs) = ground (arith, weigh-remove_le w k xs)

pub weigh-remove :
    (w k : ℕ) (xs : List ℕ) → contains k xs ≡ true → weigh w (remove k xs) + w ≤ weigh w xs
weigh-remove w k [] h = absurd (ground arith)
weigh-remove w k (x ∷ xs) h = ground (arith, weigh-remove w k xs, weigh-remove_le w k xs)

pub weigh-add : (w k : ℕ) (xs : List ℕ) → weigh w (add k xs) ≤ weigh w xs + w
weigh-add w k xs = ground arith

pub weigh-put : (w k v : ℕ) (m : List (ℕ × ℕ)) → weigh w (put k v m) ≤ weigh w m + w
weigh-put w k v [] = omega arith
weigh-put w k v ((j, u) ∷ m) = ground (arith, weigh-put w k v m)

pub weigh-delete :
    (w k : ℕ) (m : List (ℕ × ℕ)) → contains k (keys m) ≡ true → weigh w (delete k m) + w ≡ weigh w m
weigh-delete w k [] h = absurd (ground arith)
weigh-delete w k ((j, u) ∷ m) h = ground (arith, weigh-delete w k m)

-- The weight of the elements that have not been seen.
abbrev pub unseen : ℕ → (ℕ → Bool) → List ℕ → ℕ
unseen w seen [] = 0
unseen w seen (x ∷ xs) = (if seen x then 0 else w) + unseen w seen xs

pub unseen_mono :
    (w : ℕ) (f g : ℕ → Bool) (xs : List ℕ)
    → ((a : ℕ) → contains a xs ≡ true → f a ≡ true → g a ≡ true)
    → unseen w g xs ≤ unseen w f xs
unseen_mono w f g [] h = omega arith
unseen_mono w f g (x ∷ xs) h =
    let rest = unseen_mono w f g xs (λ a m. h a (||-intro_right (a == x) (contains a xs) m)) in
    let here = h x (contains_self x xs) in ground arith

pub unseen_drop :
    (w : ℕ) (f g : ℕ → Bool) (xs : List ℕ) (k : ℕ)
    → ((a : ℕ) → contains a xs ≡ true → f a ≡ true → g a ≡ true)
    → contains k xs ≡ true
    → f k ≡ false
    → g k ≡ true
    → unseen w g xs + w ≤ unseen w f xs
unseen_drop w f g [] k h m a b = absurd (ground arith)
unseen_drop w f g (x ∷ xs) k h m a b =
    let later =
      λ (y : ℕ) (n : contains y xs ≡ true). h y (||-intro_right (y == x) (contains y xs) n) in
    elim (Bool-cases (k == x)) [
      | inl e ↦
          let same : k ≡ x = (==_iff k x).0 e in
          let old : f x ≡ false = rw same at a in
          let new : g x ≡ true = rw same at b in
          let rest = unseen_mono w f g xs later in rw (old, new) (omega (arith, rest))
      | inr e ↦
          let rest = unseen_drop w f g xs k later (ground arith) a b in
          let here = h x (contains_self x xs) in ground arith
    ]

-- What a coroutine has still to do.
abbrev pub phase_weight : StopPhase → ℕ
phase_weight StopPhase.created = 2
phase_weight StopPhase.calling = 1
phase_weight StopPhase.over = 0

abbrev pub phases : List StopTask → ℕ
phases [] = 0
phases (t ∷ ts) = phase_weight t.phase + phases ts

pub phases-append :
    (ts : List StopTask) (t : StopTask) → phases (ts ++ t ∷ []) ≡ phases ts + phase_weight t.phase
phases-append [] t = omega arith
phases-append (u ∷ ts) t = omega (arith, phases-append ts t)

pub phases-set :
    (ts : List StopTask) (k : ℕ) (t u : StopTask)
    → get_elem? ts k ≡ some t
    → phases (set ts k u) + phase_weight t.phase ≡ phases ts + phase_weight u.phase
phases-set [] k t u e = absurd (ground arith)
phases-set (x ∷ ts) zero t u e = let same : x ≡ t = ground arith in rw same (omega arith)
phases-set (x ∷ ts) (suc k) t u e = omega (arith, phases-set ts k t u e)
