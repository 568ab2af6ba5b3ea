-- ===== src/Instances.antt =====
-- Starting an instance: start_instance, _start_instance_with_preflight and batch_start_instances of
-- backend/api/instances.py, with instance_waiting_for_network_ready of
-- backend/services/routing_network.py, over the orders and instances of Routing.Board. What
-- _preflight_instance_plan and execute_dag_start (Dag.Start) come to is an argument: each may write
-- to the session, commit and raise. Of a text only what it is about is kept.
pub mod Agree
pub mod Batch
pub mod Waits
mod Samples
use manage_deploy.Common.{
  Bool, List, Option, [], false, if◌then◌else◌, none, not, put, select, some, true, ℕ, ◌&&◌, ◌++◌,
  ◌∷◌,
}
use manage_deploy.Enums.{RoutingStatus, TaskStatus}
use manage_deploy.Routing.Placements.{is_same}
use manage_deploy.Routing.Board.{Board, RoutedOrder, RoutingResult}

-- What a database session sees, and what it has committed so far (backend/database.py).
pub record Session : Type 0 where
  pub committed : Board
  pub view : Board

-- The session of a new request.
abbrev pub opened : Board → Session
opened b = record { committed = b; view = b }

-- What became of a call: its answer, or an exception, with the session that it leaves.
pub data Call {ℓ} (A : Type ℓ) : Type ℓ where
  returned : Session → A → Call A
  broke : Session → Call A

pub data Detail : Type 0 where
  not_found : Detail
  already_running : Detail
  wrong_status : TaskStatus → Detail
  awaits_network : ℕ → Detail
  preflight_failed : Detail
  of_executor : Option ℕ → Detail
  unknown_error : Detail
  of_exception : Detail

abbrev pub network_ready_required : Option RoutingResult → Bool
network_ready_required none = false
network_ready_required (some r) = r.network_ready_required && not r.network_ready

abbrev pub is_binding_ready : RoutingStatus → Bool
is_binding_ready RoutingStatus.network_binding_ready = true
is_binding_ready _ = false

-- The query of `instance_waiting_for_network_ready`.
abbrev pub waiting_orders : ℕ → List RoutedOrder → List RoutedOrder
waiting_orders i os =
    select (λ o. is_same i o.materialized_instance_id && is_binding_ready o.routing_status) os

-- `scalar_one_or_none` raises where there is more than one row.
pub data Waiting : Type 0 where
  nobody : Waiting
  waits : ℕ → Waiting
  multiple_rows : Waiting

abbrev pub one_waiting : List RoutedOrder → Waiting
one_waiting [] = nobody
one_waiting (o ∷ []) = if network_ready_required o.routing_result then waits o.id else nobody
one_waiting (o ∷ p ∷ ps) = multiple_rows

unfoldable pub instance_waiting_for_network_ready : ℕ → List RoutedOrder → Waiting
instance_waiting_for_network_ready i os = one_waiting (waiting_orders i os)

-- `status in (PENDING, SCHEDULED, STOPPED, FAILED)`
abbrev pub may_start : TaskStatus → Bool
may_start TaskStatus.pending = true
may_start TaskStatus.scheduled = true
may_start TaskStatus.stopped = true
may_start TaskStatus.failed = true
may_start _ = false

-- `status in (RUNNING, STARTING)`
abbrev pub is_up : TaskStatus → Bool
is_up TaskStatus.running = true
is_up TaskStatus.starting = true
is_up _ = false

pub data StartReply : Type 0 where
  message : Detail → StartReply
  started : StartReply
  http_error : ℕ → Detail → StartReply
  server_error : StartReply

pub data Attempt : Type 0 where
  answered : Bool → Detail → Attempt
  raised : Attempt

-- The answer of a batch, with its session.
pub record BatchResult : Type 0 where
  pub session : Session
  pub succeeded : List ℕ
  pub failed : List (ℕ × Detail)

abbrev pub is_answer : StartReply → Bool
is_answer (message d) = true
is_answer started = true
is_answer (http_error c d) = false
is_answer server_error = false

-- `get_db`: the session is committed behind an answer, and rolled back behind an exception, the
-- HTTPException of a refusal included.
abbrev pub end_request : Session × StartReply → Board × StartReply
end_request (s, r) = (if is_answer r then s.view else s.committed, r)

module _ (preflight : ℕ → Session → Call Bool)
    (execute_dag_start : ℕ → Session → Call (Bool × Option ℕ)) where
  -- The last two steps of `start_instance`.
  abbrev pub execute_reply : Call (Bool × Option ℕ) → Session × StartReply
  execute_reply (broke s) = (s, server_error)
  execute_reply (returned s (success, error)) =
      (s, if success then started else http_error 500 (of_executor error))

  abbrev pub preflight_reply : ℕ → Call Bool → Session × StartReply
  preflight_reply i (broke s) = (s, server_error)
  preflight_reply i (returned s ok) =
      if not ok then (s, http_error 400 preflight_failed) else execute_reply (execute_dag_start i s)

  -- The body of the handler.
  unfoldable pub start_body : ℕ → Session → Session × StartReply
  start_body i s = elim (s.view.instances i) [
    | none ↦ (s, http_error 404 not_found)
    | some t ↦
        if is_up t
        then (s, message already_running)
        else if not (may_start t)
        then (s, http_error 400 (wrong_status t))
        else elim (instance_waiting_for_network_ready i s.view.orders) [
          | multiple_rows ↦ (s, server_error)
          | waits o ↦ (s, http_error 409 (awaits_network o))
          | nobody ↦ preflight_reply i (preflight i s)
        ]
  ]

  -- The request: the handler with its session, and what is in the database behind it.
  unfoldable pub start_instance : ℕ → Board → Board × StartReply
  unfolding start_body
  start_instance i b = end_request (start_body i (opened b))

  -- The last two steps of `_start_instance_with_preflight`.
  abbrev pub execute_attempt : Call (Bool × Option ℕ) → Session × Attempt
  execute_attempt (broke s) = (s, raised)
  execute_attempt (returned s (success, error)) = (s, answered success (of_executor error))

  abbrev pub preflight_attempt : ℕ → Call Bool → Session × Attempt
  preflight_attempt i (broke s) = (s, raised)
  preflight_attempt i (returned s ok) =
      if not ok
      then (s, answered false preflight_failed)
      else execute_attempt (execute_dag_start i s)

  unfoldable pub start_instance_with_preflight : ℕ → Session → Session × Attempt
  start_instance_with_preflight i s = elim (s.view.instances i) [
    | none ↦ (s, answered false not_found)
    | some t ↦
        if is_up t
        then (s, answered true already_running)
        else if not (may_start t)
        then (s, answered false (wrong_status t))
        else elim (instance_waiting_for_network_ready i s.view.orders) [
          | multiple_rows ↦ (s, raised)
          | waits o ↦ (s, answered false (awaits_network o))
          | nobody ↦ preflight_attempt i (preflight i s)
        ]
  ]

  -- `error or "Unknown error"`
  abbrev pub or_unknown : Detail → Detail
  or_unknown (of_executor none) = unknown_error
  or_unknown d = d

  -- An exception is caught: the session goes on with what it has written.
  abbrev pub record_attempt : ℕ → Session × Attempt → BatchResult → BatchResult
  record_attempt i (s, raised) r = record r { session = s; failed = put i of_exception r.failed }
  record_attempt i (s, answered true d) r = record r {
    session = s;
    succeeded = r.succeeded ++ (i ∷ []);
  }
  record_attempt i (s, answered false d) r = record r {
    session = s;
    failed = put i (or_unknown d) r.failed;
  }

  -- The loop of `batch_start_instances`.
  unfoldable pub batch_start : List ℕ → BatchResult → BatchResult
  batch_start [] r = r
  batch_start (i ∷ is) r =
      batch_start is (record_attempt i (start_instance_with_preflight i r.session) r)

  unfoldable pub batch_start_instances : List ℕ → Board → BatchResult
  unfolding batch_start
  batch_start_instances is b =
      batch_start is (record { session = opened b; succeeded = []; failed = [] })

  -- What is in the database behind a batch: its answer commits the session.
  abbrev pub batch_board : BatchResult → Board
  batch_board r = r.session.view
