-- ===== src/Dag/Start/State.antt =====
-- The state of `execute_dag_start` (backend/services/dag_executor.py): the variables of its loop,
-- the coroutines that it created, and where each stands.
use manage_deploy.Common.{
  ℕ, Bool, Option, none, some, List, [], ◌∷◌, ◌==◌, if◌then◌else◌, add, get_elem?, is_none,
}
use manage_deploy.Dag.Graph.{NodeRow}
use manage_deploy.Dag.Messages.{Message}
use manage_deploy.Dag.Nodes.{Store}

-- Where a coroutine `start_and_monitor` waits.
pub data Phase : Type 0 where
  created starting checking stopping : Phase
  done : Bool → Phase

pub record Task : Type 0 where
  pub node : NodeRow
  pub phase : Phase

-- Where the loop stands: at its head, in the inner `while`, in `asyncio.wait`, in the `for` over
-- `done`, in the `for` over the downstream nodes, in the rollback, or behind its end.
pub data Pc : Type 0 where
  head fill waiting : Pc
  process : List ℕ → Pc
  visit : List NodeRow → List ℕ → Pc
  rollback : List ℕ → Pc
  finished : Bool → Pc

-- `running` maps a node to the number of its task in `tasks`, which keeps every task ever made.
pub record Run : Type 0 where
  pub store : Store
  pub started : List ℕ
  pub failed : List ℕ
  pub pending : List ℕ
  pub tasks : List Task
  pub running : List (ℕ × ℕ)
  pub pc : Pc

-- The answer of `wait_for_health`: `none` is `(True, None)`.
pub data Health : Type 0 where
  healthy : Health
  unhealthy : Option Message → Health

abbrev pub to_set : List ℕ → List ℕ
to_set [] = []
to_set (x ∷ xs) = add x (to_set xs)

abbrev pub union : List ℕ → List ℕ → List ℕ
union [] ys = ys
union (x ∷ xs) ys = add x (union xs ys)

abbrev pub result_of : Phase → Option Bool
result_of (done b) = some b
result_of _ = none

-- `task.result()` of a task that is done.
abbrev pub task_result : List Task → ℕ → Option Bool
task_result tasks k = elim (get_elem? tasks k) [ none ↦ none | some t ↦ result_of t.phase ]

-- The tasks of `running.values()` that `asyncio.wait` returns as done.
abbrev pub done_tasks : List Task → List (ℕ × ℕ) → List ℕ
done_tasks tasks [] = []
done_tasks tasks ((k, t) ∷ m) =
    let rest = done_tasks tasks m in if is_none (task_result tasks t) then rest else t ∷ rest

-- The inner `for nid, t in running_nodes.items()`.
abbrev pub find_key : ℕ → List (ℕ × ℕ) → Option ℕ
find_key t [] = none
find_key t ((k, u) ∷ m) = let rest = find_key t m in if u == t then some k else rest
