-- ===== src/Dag/Start/Cover.antt =====
-- No node is forgotten by `execute_dag_start` (backend/services/dag_executor.py): as long as no
-- node has failed, each node whose upstream nodes are started is pending, has a task, or will be
-- seen when the task of an upstream node comes back.
pub mod Main
pub mod Coroutine
use manage_deploy.Common.{
  Bool, Each, List, contains, false, is_empty, keys, meets, not, some, true, ℕ, ◌≡◌, ◌||◌,
}
use manage_deploy.Dag.Graph.{Graph, get_all_instance_nodes, ids, upstream_ids}
use manage_deploy.Dag.Start.Moves.{to_visit}
use manage_deploy.Dag.Start.Order.{IsReady}
use manage_deploy.Dag.Start.State.{Phase, Run, done, stopping}
use manage_deploy.Dag.Start.Tasks.{node_at, task_ids}

-- What the result of a task, or its absence, says of the sets of the loop.
abbrev pub phase_ok : List ℕ → List ℕ → List ℕ → ℕ → Phase → Bool
phase_ok started failed waits k (done true) = contains k started
phase_ok started failed waits k (done false) = not (is_empty failed)
phase_ok started failed waits k stopping = not (is_empty failed)
phase_ok started failed waits k _ = contains k waits || contains k started || not (is_empty failed)

abbrev pub covered : Graph → ℕ → Run → ℕ → Bool
covered g i r k =
    contains k r.pending
    || contains k (task_ids r.tasks)
    || meets (upstream_ids g i k) (keys r.running)
    || contains k (to_visit r.pc)

pub record IsCovered (g : Graph) (i : ℕ) (r : Run) : Type 0 where
  pub tasks_ok :
      Each (λ t. phase_ok r.started r.failed (keys r.running) t.node.id t.phase ≡ true) r.tasks
  pub started_tasked : (k : ℕ) → contains k r.started ≡ true → contains k (task_ids r.tasks) ≡ true
  pub running_tasked : Each (λ p. node_at r.tasks p.1 ≡ some p.0) r.running
  pub all_covered :
      (k : ℕ)
      → contains k (ids (get_all_instance_nodes g i)) ≡ true
      → is_empty r.failed ≡ true
      → IsReady g i r.started k
      → covered g i r k ≡ true
