-- ===== src/Dag/Start/Entry.antt =====
-- `execute_dag_start` (backend/services/dag_executor.py) up to its loop, and the interleavings of
-- the loop with the coroutines that it creates.
use manage_deploy.Common.{
  ℕ, ◌≡◌, Bool, true, false, not, ◌&&◌, ◌||◌, Option, none, some, [], if◌then◌else◌, is_empty,
}
use manage_deploy.Enums.{TaskStatus, is_running, is_starting}
use manage_deploy.Dag.Graph.{Graph, ids, get_root_nodes}
use manage_deploy.Dag.Messages.{Message, instance_not_found, waiting_for_network, AgentResult}
use manage_deploy.Dag.Nodes.{Store, set_instance}
use manage_deploy.Dag.Start.State.{head, Run, Health, to_set}
use manage_deploy.Dag.Start.Loop.{advance}
use manage_deploy.Dag.Start.Monitor.{start_and_monitor}

-- What `execute_dag_start` does before its loop: it returns, or goes into the loop.
pub data Begin : Type 0 where
  returned : Store → Bool → Option Message → Begin
  loop : Run → Begin

abbrev pub first_run : Graph → ℕ → Store → Run
first_run g i st = record {
  store = st;
  started = [];
  failed = [];
  pending = to_set (ids (get_root_nodes g i));
  tasks = [];
  running = [];
  pc = head;
}

unfoldable pub begin_loop : Graph → ℕ → ℕ → Store → Begin
begin_loop g i now st =
    if is_empty (get_root_nodes g i)
    then returned
        (set_instance st (λ t. record t { status = TaskStatus.running; start_time = some now }))
        true none
    else loop (first_run g i st)

unfoldable pub execute_dag_start : Graph → ℕ → Bool → Option ℕ → ℕ → Store → Begin
unfolding begin_loop
execute_dag_start g i claimed_start (some order) now st =
    returned st false (some (waiting_for_network order))
execute_dag_start g i claimed_start none now st = elim st.instance_row [
  | none ↦ returned st false (some instance_not_found)
  | some t ↦
      if is_running t.status || is_starting t.status && not claimed_start
      then returned st true none
      else begin_loop g i now
          (set_instance st (λ t. record t { status = TaskStatus.starting; error_message = none }))
]

-- Some coroutine makes a step: the loop, or a `start_and_monitor` that it created.
pub data Step (g : Graph) (i : ℕ) (r s : Run) : Type 0 where
  main :
      (now choice : ℕ) (reply : AgentResult)
      → advance g i now choice reply r ≡ some s
      → Step g i r s
  task :
      (k : ℕ) (reply : AgentResult) (verdict : Health)
      → start_and_monitor g i k reply verdict r ≡ some s
      → Step g i r s

pub data Reach (g : Graph) (i : ℕ) (r : Run) : Run → Type 0 where
  here : Reach g i r r
  next : {s t : Run} → Reach g i r s → Step g i s t → Reach g i r t
