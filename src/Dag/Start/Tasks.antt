-- ===== src/Dag/Start/Tasks.antt =====
-- The list of coroutines that `execute_dag_start` (backend/services/dag_executor.py) has created.
use manage_deploy.Common.{
  Bool-cases, Each, List, Option, [], arith, contains, contains_self, get_elem?, inl, inr, length,
  none, refl, set, some, suc, true, zero, ℕ, ◌++◌, ◌==◌, ◌∷◌, ◌≡◌, ◌||◌, ||-intro_right,
}
use manage_deploy.Dag.Start.State.{Phase, Task, find_key}

abbrev pub task_ids : List Task → List ℕ
task_ids [] = []
task_ids (t ∷ ts) = t.node.id ∷ task_ids ts

-- The node of the task with a number.
abbrev pub node_at : List Task → ℕ → Option ℕ
node_at tasks u = elim (get_elem? tasks u) [ none ↦ none | some t ↦ some t.node.id ]

pub find_key-Each :
    (P : ℕ × ℕ → Type 0) (m : List (ℕ × ℕ)) (u k : ℕ) → find_key u m ≡ some k → Each P m → P (k, u)
find_key-Each P [] u k e h = absurd (ground arith)
find_key-Each P ((j, v) ∷ m) u k e h = elim (Bool-cases (v == u)) [
  | inl q ↦
      let same : j ≡ k = ground arith in let task : v ≡ u = ground arith in rw (same, task) at h.0
  | inr q ↦ find_key-Each P m u k (ground arith) h.1
]

-- The list of tasks, grown by one or with one phase changed.
module _ (t : Task) where
  pub task_ids-set :
      (ts : List Task) (k : ℕ) (p : Phase)
      → get_elem? ts k ≡ some t
      → task_ids (set ts k (record t { phase = p })) ≡ task_ids ts
  task_ids-set [] k p e = refl
  task_ids-set (u ∷ ts) zero p e = let same : u ≡ t = ground arith in rw same
  task_ids-set (u ∷ ts) (suc k) p e = rw (task_ids-set ts k p e)

  pub node_at-set :
      (ts : List Task) (k : ℕ) (p : Phase) (v : ℕ)
      → get_elem? ts k ≡ some t
      → node_at (set ts k (record t { phase = p })) v ≡ node_at ts v
  node_at-set [] k p v e = refl
  node_at-set (u ∷ ts) zero p zero e = let same : u ≡ t = ground arith in rw same
  node_at-set (u ∷ ts) zero p (suc v) e = refl
  node_at-set (u ∷ ts) (suc k) p zero e = refl
  node_at-set (u ∷ ts) (suc k) p (suc v) e = node_at-set ts k p v e

  pub task_ids-append :
      (ts : List Task) (a : ℕ)
      → contains a (task_ids (ts ++ t ∷ [])) ≡ (contains a (task_ids ts) || a == t.node.id)
  task_ids-append [] a = ground arith
  task_ids-append (u ∷ ts) a = ground (arith, task_ids-append ts a)

  pub node_at-append :
      (ts : List Task) (v k : ℕ) → node_at ts v ≡ some k → node_at (ts ++ t ∷ []) v ≡ some k
  node_at-append [] v k e = absurd (ground arith)
  node_at-append (u ∷ ts) zero k e = e
  node_at-append (u ∷ ts) (suc v) k e = node_at-append ts v k e

  pub node_at_end : (ts : List Task) → node_at (ts ++ t ∷ []) (length ts) ≡ some t.node.id
  node_at_end [] = refl
  node_at_end (u ∷ ts) = node_at_end ts

  pub task_ids_get :
      (ts : List Task) (k : ℕ) → get_elem? ts k ≡ some t → contains t.node.id (task_ids ts) ≡ true
  task_ids_get [] k e = absurd (ground arith)
  task_ids_get (u ∷ ts) zero e =
      let same : u ≡ t = ground arith in rw same (contains_self t.node.id (task_ids ts))
  task_ids_get (u ∷ ts) (suc k) e = ||-intro_right _ _ (task_ids_get ts k e)
