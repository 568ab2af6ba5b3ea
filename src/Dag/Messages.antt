-- ===== src/Dag/Messages.antt =====
-- The texts that backend/services/dag_executor.py and backend/services/health_checker.py store and
-- return, one constructor for each f-string; a text from outside is the list of its characters.
use manage_deploy.Common.{ℕ, Bool, true, false, Option, none, some, List, [], take}
use manage_deploy.Enums.{NodeStatus, TaskStatus}

-- What a health check wants and its configuration lacks.
pub data Setting : Type 0 where
  port url keyword container : Setting

pub data Message : Type 0 where
  machine_not_found : ℕ → Message
  instance_not_found : Message
  template_not_found : Message
  waiting_for_network : ℕ → Message
  unreachable : List ℕ → Message
  http : ℕ → List ℕ → Message
  not_specified : Setting → Message
  container_status : ℕ → Message
  health_check_failed : Message
  container_not_running : Message
  unknown_error : Message
  nodes_failed : List ℕ → Message
  text : List ℕ → Message

-- `if error_message:`; only a text from outside can be empty.
abbrev pub is_truthy : Message → Bool
is_truthy (text []) = false
is_truthy _ = true

-- `message or default`
abbrev pub or_else : Option Message → Message → Message
or_else none d = d
or_else (some (text [])) d = d
or_else (some m) d = m

-- The second part of what an agent call returns; a missing key is `none` or the empty text.
pub record AgentResult : Type 0 where
  pub success : Bool
  pub status_code : Option ℕ
  pub error : List ℕ
  pub container_id : Option ℕ

unfoldable pub format_agent_error : AgentResult → Message
format_agent_error r = elim r.status_code [
  | none ↦ unreachable (take 500 r.error)
  | some status ↦ http status (take 500 r.error)
]

pub data Operation : Type 0 where
  start_container stop_container delete_container : Operation

pub data EventType : Type 0 where
  node_agent_error reconcile_stale_container auto_cleanup_error : EventType

pub data StatusText : Type 0 where
  of_node : NodeStatus → StatusText
  of_task : TaskStatus → StatusText
  cleanup_failed : StatusText

-- Both parts are far below the 2048 characters at which the code cuts the whole text.
pub data EventMessage : Type 0 where
  failure : Operation → Message → EventMessage
  note : List ℕ → EventMessage

pub record TaskEvent : Type 0 where
  pub instance_id : ℕ
  pub node_id : Option ℕ
  pub event_type : EventType
  pub old_status : Option StatusText
  pub new_status : StatusText
  pub message : EventMessage
