-- ===== src/Dag/Stop/Samples.antt =====
-- A small instance on which `execute_dag_stop` (backend/services/dag_executor.py) is run.
use manage_deploy.Dag.Graph.{
  get_leaf_nodes, get_upstream_nodes, get_downstream_nodes, downstream_ids,
}
use manage_deploy.Common.{
  List, Option, Option-cases, [], all_in, arith, false, inl, inr, none, refl, some, true, ℕ, ◌++◌,
  ◌-◌, ◌∷◌, ◌≡◌, ◌≤◌,
}
use manage_deploy.Dag.Graph.{
  Graph, NodeRow, downstream_ids, get_all_instance_nodes, get_downstream_nodes, get_leaf_nodes,
  get_node_by_id, get_upstream_nodes, ids,
}
use manage_deploy.Dag.Messages.{AgentResult}
use manage_deploy.Dag.Nodes.{Store, stop_node, update_node_status, update_task_status}
use manage_deploy.Dag.Stop.Loop.{
  StopReach, StopRun, StopStep, execute_dag_stop, finish_stop, first_stop, here, main, next, over,
  stop_advance, stop_node_async, task,
}
use manage_deploy.Dag.Stop.Outcome.{downstream_first, stop_deals_with_all}
use manage_deploy.Dag.Stop.Progress.{CanGoOn, stop_goes_on}
use manage_deploy.Dag.Stop.Termination.{steps, stop_bound, stop_ends}
use manage_deploy.Enums.{NodeStatus, TaskStatus}

data StopAction : Type 0 where
  main_step : (choice : ℕ) → StopAction
  task_step : (k : ℕ) → StopAction

unfoldable stop_act : Graph → ℕ → AgentResult → StopAction → StopRun → Option StopRun
stop_act g i reply (main_step choice) r = stop_advance g i 0 choice r
stop_act g i reply (task_step k) r = stop_node_async g k reply r

unfoldable stop_play : Graph → ℕ → AgentResult → List StopAction → StopRun → Option StopRun
unfolding stop_act
stop_play g i reply [] r = some r
stop_play g i reply (a ∷ acts) r = elim (stop_act g i reply a r) [
  | none ↦ none
  | some s ↦ stop_play g i reply acts s
]

StopReach-trans :
    {g : Graph} {i : ℕ} {r s t : StopRun}
    → StopReach g i r s
    → StopReach g i s t
    → StopReach g i r t
StopReach-trans p here = p
StopReach-trans p (next q st) = next (StopReach-trans p q) st

stop_act-StopStep :
    (g : Graph) (i : ℕ) (reply : AgentResult) (a : StopAction) (r s : StopRun)
    → stop_act g i reply a r ≡ some s
    → StopStep g i r s
unfolding stop_act
stop_act-StopStep g i reply (main_step choice) r s e = main 0 choice e
stop_act-StopStep g i reply (task_step k) r s e = task k reply e

stop_play-StopReach :
    (g : Graph) (i : ℕ) (reply : AgentResult) (acts : List StopAction) (r s : StopRun)
    → stop_play g i reply acts r ≡ some s
    → StopReach g i r s
unfolding stop_play
stop_play-StopReach g i reply [] r s e = let same : r ≡ s = ground arith in rw (← same) here
stop_play-StopReach g i reply (a ∷ acts) r s e = elim (Option-cases (stop_act g i reply a r)) [
  | inl q ↦ absurd (ground arith)
  | inr (t, q) ↦
      StopReach-trans (next here (stop_act-StopStep g i reply a r t q))
        (stop_play-StopReach g i reply acts t s (ground arith))
]

abbrev row : ℕ → NodeRow
row k = record { id = k; instance_id = 7; node_id = 50; scratch = false }

-- Node 1, then node 2.
abbrev chain : Graph
chain = record {
  nodes = row 1 ∷ row 2 ∷ [];
  edges = record { instance_id = 7; from_node_id = 1; to_node_id = 2 } ∷ [];
  machines = 50 ∷ [];
  templates = 60 ∷ [];
}

abbrev running_store : Store
running_store = record {
  instance_row = some (record {
    id = 7;
    template_id = 60;
    status = TaskStatus.running;
    error_message = none;
    start_time = none;
    end_time = none;
  });
  node_state = λ k. record {
    status = NodeStatus.running;
    container_id = some 9;
    container_name = none;
    error_message = none;
  };
  events = [];
}

abbrev fine : AgentResult
fine = record { success = true; status_code = some 200; error = []; container_id = none }

program : Unit {0}
unfolding stop_play stop_advance stop_node_async get_leaf_nodes get_downstream_nodes
    get_upstream_nodes get_node_by_id downstream_ids get_all_instance_nodes stop_node
    update_node_status update_task_status execute_dag_stop
program = tt

abbrev stop_one : ℕ → ℕ → List StopAction
stop_one node k =
    main_step 0
    ∷ main_step node
    ∷ main_step 0
    ∷ task_step k
    ∷ task_step k
    ∷ main_step 0
    ∷ main_step k
    ∷ main_step 0
    ∷ main_step 0
    ∷ []

stop_acts : List StopAction
stop_acts = stop_one 2 0 ++ main_step 0 ∷ stop_one 1 1

stop_end : Option StopRun
stop_end = stop_play chain 7 fine stop_acts (first_stop chain 7 running_store)

stop_run : StopRun
unfolding stop_end
stop_run = elim stop_end [ none ↦ first_stop chain 7 running_store | some r ↦ r ]

stop_played : stop_play chain 7 fine stop_acts (first_stop chain 7 running_store) ≡ some stop_run
unfolding program stop_run stop_acts
stop_played = refl

stop_left : StopRun
unfolding stop_run finish_stop
stop_left = finish_stop 0 stop_run

stop_order : stop_run.stopped ≡ 1 ∷ 2 ∷ []
unfolding program stop_run stop_acts
stop_order = refl

stop_deals_with_all_example : all_in (ids (get_all_instance_nodes chain 7)) stop_left.stopped ≡ true
unfolding program stop_left stop_acts
stop_deals_with_all_example =
    stop_deals_with_all chain 7 (λ k. 5 - k) running_store stop_run stop_left 0 0 (refl, tt)
      (omega arith, tt)
      (stop_play-StopReach chain 7 fine stop_acts (first_stop chain 7 running_store) stop_run
        stop_played)
      refl refl

downstream_first_example : all_in (downstream_ids chain 7 1) stop_run.stopped ≡ true
unfolding program stop_run stop_acts
downstream_first_example =
    downstream_first chain 7 running_store stop_run 1 (record { node = row 1; phase = over })
      (refl, tt)
      (stop_play-StopReach chain 7 fine stop_acts (first_stop chain 7 running_store) stop_run
        stop_played)
      refl

stop_goes_on_example : CanGoOn chain 7 fine stop_run
unfolding program stop_run stop_acts
stop_goes_on_example =
    stop_goes_on chain 7 running_store stop_run fine
      (stop_play-StopReach chain 7 fine stop_acts (first_stop chain 7 running_store) stop_run
        stop_played)
      (λ e. absurd (ground arith))

stop_ends_example :
    steps (
      stop_play-StopReach chain 7 fine stop_acts
        (first_stop chain 7 running_store)
        stop_run
        stop_played)
    ≤ stop_bound chain 7
unfolding program stop_run stop_acts
stop_ends_example =
    stop_ends chain 7 running_store stop_run (refl, tt)
      (stop_play-StopReach chain 7 fine stop_acts (first_stop chain 7 running_store) stop_run
        stop_played)
