-- ===== src/Dag/Start/Monitor.antt =====
-- The coroutine `start_and_monitor` of `execute_dag_start` (backend/services/dag_executor.py), a
-- step of which runs it up to its next await.
use manage_deploy.Common.{ℕ, true, false, Option, none, some, List, add, get_elem?, set}
use manage_deploy.Enums.{NodeStatus}
use manage_deploy.Dag.Graph.{Graph}
use manage_deploy.Dag.Messages.{Message, AgentResult}
use manage_deploy.Dag.Nodes.{Store, update_node_status, start_node, stop_node}
use manage_deploy.Dag.Start.State.{
  healthy, Phase, created, starting, checking, stopping, done, Task, Run, Health, unhealthy,
}

abbrev pub set_phase : Run → ℕ → Task → Phase → List Task
set_phase r k t p = set r.tasks k (record t { phase = p })

-- One step of the coroutine `start_and_monitor` with number `k`.
unfoldable pub after_start : Run → ℕ → Task → Store × Option Message → Run
after_start r k t (st, none) = record r {
  store = update_node_status st t.node.id NodeStatus.running none;
  tasks = set_phase r k t checking;
}
after_start r k t (st, some m) = record r {
  store = update_node_status st t.node.id NodeStatus.failed (some m);
  failed = add t.node.id r.failed;
  tasks = set_phase r k t (done false);
}

unfoldable pub after_health : Run → ℕ → Task → Health → Run
after_health r k t healthy = record r {
  store = update_node_status r.store t.node.id NodeStatus.ready none;
  started = add t.node.id r.started;
  tasks = set_phase r k t (done true);
}
after_health r k t (unhealthy error) = record r {
  store = update_node_status r.store t.node.id NodeStatus.failed error;
  failed = add t.node.id r.failed;
  tasks = set_phase r k t stopping;
}

unfoldable pub monitor : Graph → ℕ → ℕ → AgentResult → Health → Run → Task → Phase → Option Run
unfolding after_start after_health
monitor g i k reply verdict r t created = some (record r {
  store = update_node_status r.store t.node.id NodeStatus.starting none;
  tasks = set_phase r k t starting;
})
monitor g i k reply verdict r t starting =
    some (after_start r k t (start_node g i t.node reply r.store))
monitor g i k reply verdict r t checking = some (after_health r k t verdict)
monitor g i k reply verdict r t stopping = some (record r {
  store = (stop_node g t.node reply r.store).0;
  tasks = set_phase r k t (done false);
})
monitor g i k reply verdict r t (done b) = none

unfoldable pub start_and_monitor : Graph → ℕ → ℕ → AgentResult → Health → Run → Option Run
unfolding monitor
start_and_monitor g i k reply verdict r = elim (get_elem? r.tasks k) [
  | none ↦ none
  | some t ↦ monitor g i k reply verdict r t t.phase
]
