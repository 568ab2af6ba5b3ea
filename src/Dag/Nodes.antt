-- ===== src/Dag/Nodes.antt =====
-- The operations of `DAGExecutor` on one node (backend/services/dag_executor.py). The node agent
-- is outside: its answer is an argument of the operation. `Store` holds the columns that the
-- executor writes, of one instance, of its nodes by identifier, and the events it records.
use manage_deploy.Common.{ℕ, not, Option, none, some, List, ◌∷◌, ◌==◌, if◌then◌else◌, contains}
use manage_deploy.Enums.{TaskStatus, NodeStatus}
use manage_deploy.Dag.Graph.{Graph, NodeRow}
use manage_deploy.Dag.Messages.{
  Message, machine_not_found, instance_not_found, template_not_found, is_truthy, AgentResult,
  format_agent_error, Operation, start_container, stop_container, delete_container,
  node_agent_error, of_node, failure, TaskEvent,
}

pub record NodeState : Type 0 where
  pub status : NodeStatus
  pub container_id : Option ℕ
  pub container_name : Option (ℕ × ℕ)
  pub error_message : Option Message

pub record TaskInstance : Type 0 where
  pub id : ℕ
  pub template_id : ℕ
  pub status : TaskStatus
  pub error_message : Option Message
  pub start_time : Option ℕ
  pub end_time : Option ℕ

pub record Store : Type 0 where
  pub instance_row : Option TaskInstance
  pub node_state : ℕ → NodeState
  pub events : List TaskEvent

-- Assigns the columns of one node row.
abbrev pub set_node : Store → ℕ → NodeState → Store
set_node st k v = record st { node_state = λ j. if j == k then v else st.node_state j }

-- Assigns the columns of the instance row, if there is one.
abbrev pub set_instance : Store → (TaskInstance → TaskInstance) → Store
set_instance st f = record st {
  instance_row = elim st.instance_row [ none ↦ none | some t ↦ some (f t) ];
}

unfoldable pub update_node_status : Store → ℕ → NodeStatus → Option Message → Store
update_node_status st k status error =
    let s = st.node_state k in
    let old = s.error_message in
    set_node st k (record s {
      status = status;
      error_message = elim error [ none ↦ old | some m ↦ if is_truthy m then some m else old ];
    })

unfoldable pub update_task_status : Store → TaskStatus → Store
update_task_status st status = set_instance st (λ t. record t { status = status })

unfoldable pub record_agent_failure_event : Store → ℕ → ℕ → Operation → AgentResult → Store
record_agent_failure_event st i k operation result = record st {
  events =
      record {
        instance_id = i;
        node_id = some k;
        event_type = node_agent_error;
        old_status = some (of_node (st.node_state k).status);
        new_status = of_node NodeStatus.failed;
        message = failure operation (format_agent_error result);
      }
      ∷ st.events;
}

-- The lookups of `start_node` before its agent call, and the refusal of the first that fails.
unfoldable pub check_start : Graph → NodeRow → Store → Option Message
check_start g n st =
    if not (contains n.node_id g.machines)
    then some (machine_not_found n.node_id)
    else elim st.instance_row [
      | none ↦ some instance_not_found
      | some t ↦ if contains t.template_id g.templates then none else some template_not_found
    ]

-- `none` for the error is the result `(True, None)`.
unfoldable pub start_node : Graph → ℕ → NodeRow → AgentResult → Store → Store × Option Message
unfolding check_start record_agent_failure_event
start_node g i n result st = elim (check_start g n st) [
  | some m ↦ (st, some m)
  | none ↦
      if result.success
      then (
        set_node st n.id (record (st.node_state n.id) {
          container_id = result.container_id;
          container_name = some (i, n.id);
        }),
        none,
      )
      else (
        record_agent_failure_event st i n.id start_container result,
        some (format_agent_error result),
      )
]

unfoldable pub stop_node : Graph → NodeRow → AgentResult → Store → Store × Option Message
unfolding record_agent_failure_event
stop_node g n result st =
    if not (contains n.node_id g.machines)
    then (st, none)
    else if result.success
    then (st, none)
    else (
      record_agent_failure_event st n.instance_id n.id stop_container result,
      some (format_agent_error result),
    )

unfoldable pub remove_node : Graph → NodeRow → AgentResult → Store → Store × Option Message
unfolding update_node_status record_agent_failure_event
remove_node g n result st =
    if not (contains n.node_id g.machines)
    then (st, none)
    else if result.success
    then (
      update_node_status
          (set_node st n.id (record (st.node_state n.id) {
            container_id = none;
            container_name = none;
            error_message = none;
          }))
          n.id NodeStatus.stopped none,
      none,
    )
    else (
      record_agent_failure_event st n.instance_id n.id delete_container result,
      some (format_agent_error result),
    )
