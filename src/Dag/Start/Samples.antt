-- ===== src/Dag/Start/Samples.antt =====
-- Small instances on which `execute_dag_start` (backend/services/dag_executor.py) is run.
use mathlib.Core.Option.{map}
use manage_deploy.Common.{
  List, Option, [], all_in, arith, false, is_empty, none, refl, some, true, ℕ, ◌++◌, ◌∷◌, ◌≡◌,
}
use manage_deploy.Dag.Graph.{
  EdgeRow, Graph, NodeRow, get_all_instance_nodes, get_downstream_nodes, get_node_by_id,
  get_root_nodes, get_upstream_nodes, ids, upstream_ids,
}
use manage_deploy.Dag.Messages.{AgentResult}
use manage_deploy.Dag.Nodes.{
  Store, remove_node, start_node, stop_node, update_node_status, update_task_status,
}
use manage_deploy.Dag.Start.Entry.{execute_dag_start, first_run}
use manage_deploy.Dag.Start.Loop.{advance, leave}
use manage_deploy.Dag.Start.Monitor.{start_and_monitor}
use manage_deploy.Dag.Start.Outcome.{running_all_ready, upstream_first}
use manage_deploy.Dag.Start.Progress.{CanGoOn, start_goes_on}
use manage_deploy.Dag.Start.Schedules.{Action, main_step, play, play-Reach, task_step}
use manage_deploy.Dag.Start.State.{Run, done, healthy}
use manage_deploy.Dag.Start.Tasks.{task_ids}
use manage_deploy.Enums.{NodeStatus, TaskStatus}

abbrev row : ℕ → NodeRow
row k = record { id = k; instance_id = 7; node_id = 50; scratch = false }

abbrev edge : ℕ → ℕ → EdgeRow
edge a b = record { instance_id = 7; from_node_id = a; to_node_id = b }

-- Node 1, then node 2.
abbrev chain : Graph
chain = record {
  nodes = row 1 ∷ row 2 ∷ [];
  edges = edge 1 2 ∷ [];
  machines = 50 ∷ [];
  templates = 60 ∷ [];
}

-- Nodes 1 and 2, then node 3.
abbrev join : Graph
join = record {
  nodes = row 1 ∷ row 2 ∷ row 3 ∷ [];
  edges = edge 1 3 ∷ edge 2 3 ∷ [];
  machines = 50 ∷ [];
  templates = 60 ∷ [];
}

abbrev fresh_store : Store
fresh_store = record {
  instance_row = some (record {
    id = 7;
    template_id = 60;
    status = TaskStatus.starting;
    error_message = none;
    start_time = none;
    end_time = none;
  });
  node_state = λ k. record {
    status = NodeStatus.pending;
    container_id = none;
    container_name = none;
    error_message = none;
  };
  events = [];
}

abbrev fine : AgentResult
fine = record { success = true; status_code = some 200; error = []; container_id = some 9 }

-- What a run of a schedule unfolds.
program : Unit {0}
unfolding play advance start_and_monitor get_root_nodes get_downstream_nodes get_upstream_nodes
    get_node_by_id upstream_ids get_all_instance_nodes start_node stop_node remove_node
    update_node_status update_task_status execute_dag_start
program = tt

abbrev start_one : ℕ → ℕ → List Action
start_one node k =
    main_step 0
    ∷ main_step node
    ∷ main_step 0
    ∷ task_step k healthy
    ∷ task_step k healthy
    ∷ task_step k healthy
    ∷ main_step 0
    ∷ main_step k
    ∷ main_step 0
    ∷ main_step 0
    ∷ []

chain_acts : List Action
chain_acts = start_one 1 0 ++ main_step 0 ∷ start_one 2 1

chain_end : Option Run
chain_end = play chain 7 fine chain_acts (first_run chain 7 fresh_store)

chain_run : Run
unfolding chain_end
chain_run = elim chain_end [ none ↦ first_run chain 7 fresh_store | some r ↦ r ]

chain_played : play chain 7 fine chain_acts (first_run chain 7 fresh_store) ≡ some chain_run
unfolding program chain_run chain_acts
chain_played = refl

-- The loop's last step.
chain_done : Run
unfolding chain_run leave
chain_done = leave 0 chain_run

running_all_ready_example :
    (is_empty chain_run.failed ≡ true)
    × (all_in (ids (get_all_instance_nodes chain 7)) chain_done.started ≡ true)
unfolding program chain_done chain_acts
running_all_ready_example =
    running_all_ready chain 7 (λ k. k) fresh_store chain_run chain_done 0 0 fine (refl, tt)
      (omega arith)
      (play-Reach chain 7 fine chain_acts (first_run chain 7 fresh_store) chain_run chain_played)
      refl refl

upstream_first_example : all_in (upstream_ids chain 7 2) chain_run.started ≡ true
unfolding program chain_run chain_acts
upstream_first_example =
    upstream_first chain 7 fresh_store chain_run 1 (record { node = row 2; phase = done true })
      (play-Reach chain 7 fine chain_acts (first_run chain 7 fresh_store) chain_run chain_played)
      refl

-- While the loop asks for the downstream nodes of node 1, the coroutine of node 2 comes up. So
-- node 3 is put in line by node 1, and once more by node 2, when it has a coroutine already.
race_acts : List Action
race_acts =
    main_step 0
    ∷ main_step 1
    ∷ main_step 2
    ∷ main_step 0
    ∷ task_step 0 healthy
    ∷ task_step 0 healthy
    ∷ task_step 1 healthy
    ∷ task_step 1 healthy
    ∷ task_step 0 healthy
    ∷ main_step 0
    ∷ main_step 0
    ∷ task_step 1 healthy
    ∷ main_step 0
    ∷ main_step 0
    ∷ main_step 0
    ∷ main_step 0
    ∷ main_step 3
    ∷ main_step 0
    ∷ task_step 2 healthy
    ∷ main_step 0
    ∷ main_step 1
    ∷ main_step 0
    ∷ main_step 0
    ∷ main_step 0
    ∷ main_step 0
    ∷ main_step 3
    ∷ []

race_end : Option Run
race_end = play join 7 fine race_acts (first_run join 7 fresh_store)

twice_started : map (λ r. task_ids r.tasks) race_end ≡ some (1 ∷ 2 ∷ 3 ∷ 3 ∷ [])
unfolding program race_end race_acts
twice_started = refl

start_goes_on_example : CanGoOn chain 7 fine healthy chain_run
unfolding program chain_run chain_acts
start_goes_on_example =
    start_goes_on chain 7 fresh_store chain_run fine healthy
      (play-Reach chain 7 fine chain_acts (first_run chain 7 fresh_store) chain_run chain_played)
      (λ b e. absurd (ground arith))
