-- ===== src/Routing/Router.antt =====
-- The handlers of the external router (backend/api/routing.py): claim, requeue, fail, result and
-- network-ready, on the row of the order. The states of the linked routing request and conversation
-- are not modelled. Whether the order's graph has edges and whether the platform routes it itself
-- are arguments, and so are whether a start is asked for and the order is not a benchmark's, and what
-- execute_dag_start (Dag.Start) makes of the statuses of the instances. The metadata of a confirmation
-- is left out.
use manage_deploy.Scheduling.{Jobs, schedule_task_start, schedule_task_end}
use manage_deploy.Common.{
  Bool, Option, [], false, if◌then◌else◌, is_empty, is_none, leb, ltb, none, not, some, true, ℕ,
  ◌&&◌, ◌||◌,
}
use manage_deploy.Enums.{OrderStatus, RoutingStatus, TaskStatus, is_routed}
use manage_deploy.Routing.Board.{
  Board, RoutedOrder, RoutingResult, end_of, find_order, start_of, write_instance, write_order,
}
use manage_deploy.Routing.Result.{Payload, Platform, Reply, receive_routing_result}
use manage_deploy.Scheduling.{Jobs}

pub data RouterReply : Type 0 where
  refused : ℕ → RouterReply
  accepted : RouterReply

abbrev pub is_routing_pending : RoutingStatus → Bool
is_routing_pending RoutingStatus.pending = true
is_routing_pending _ = false

abbrev pub is_computing : RoutingStatus → Bool
is_computing RoutingStatus.computing = true
is_computing _ = false

-- `routing_status in {COMPUTING, FAILED}`
abbrev pub may_fail : RoutingStatus → Bool
may_fail RoutingStatus.computing = true
may_fail RoutingStatus.failed = true
may_fail _ = false

-- Behind the lookup.
unfoldable pub claim_found : Bool → Bool → RoutedOrder → Board → Board × RouterReply
claim_found has_edges is_internal o b =
    if not (is_routing_pending o.routing_status)
    then (b, refused 409)
    else if is_empty o.routing_input_dag || not has_edges
    then (b, refused 422)
    else if is_internal
    then (b, refused 409)
    else (
      record b {
        orders = write_order (record o { routing_status = RoutingStatus.computing }) b.orders;
      },
      accepted,
    )

unfoldable pub requeue_found : RoutedOrder → Board → Board × RouterReply
requeue_found o b = if not (is_computing o.routing_status) then (b, refused 409) else (
  record b { orders = write_order (record o { routing_status = RoutingStatus.pending }) b.orders },
  accepted,
)

abbrev pub failed_order : RoutedOrder → RoutedOrder
failed_order o = record o { routing_status = RoutingStatus.failed; status = OrderStatus.failed }

unfoldable pub fail_found : RoutedOrder → Board → Board × RouterReply
fail_found o b =
    if not (may_fail o.routing_status)
    then (b, refused 409)
    else (record b { orders = write_order (failed_order o) b.orders }, accepted)

-- `mark_network_ready` of backend/services/routing_network.py.
abbrev pub mark_network_ready : Option RoutingResult → RoutingResult
mark_network_ready none = record {
  placements = [];
  network_ready_required = false;
  network_ready = true;
}
mark_network_ready (some r) = record r { network_ready = true }

-- The order after the confirmation.
abbrev pub confirmed_order : RoutedOrder → RoutedOrder
confirmed_order o = record o {
  routing_result = some (mark_network_ready o.routing_result);
  routing_status = RoutingStatus.completed;
  status =
      if is_none o.materialized_instance_id && o.deployment.route_only
      then OrderStatus.completed
      else o.status;
}

-- `time and time <= now`
abbrev pub is_past : ℕ → Option ℕ → Bool
is_past now none = false
is_past now (some t) = leb t now

abbrev pub has_row : (ℕ → Option TaskStatus) → ℕ → Bool
has_row instances i = not (is_none (instances i))

-- What execute_dag_start makes of the statuses, and whether it raises; it writes no order.
pub record Executed : Type 0 where
  pub instances : ℕ → Option TaskStatus
  pub raises : Bool

abbrev pub end_job : ℕ → ℕ → RoutedOrder → Jobs → Jobs
end_job now i o jobs = elim (end_of o) [
  | none ↦ jobs
  | some t ↦ if ltb now t then schedule_task_end now i t jobs else jobs
]

module _ (execute_dag_start : ℕ → (ℕ → Option TaskStatus) → Executed) (now : ℕ)
    (auto_start : Bool) where
  -- A start at once; its exception is caught.
  abbrev pub start_now : ℕ → RoutedOrder → Board → Board
  start_now i o b =
      let x = execute_dag_start i b.instances in
      record b {
        instances = x.instances;
        jobs = if x.raises then b.jobs else end_job now i o b.jobs;
      }

  -- A start that was asked for.
  abbrev pub start_or_schedule : ℕ → RoutedOrder → Board → Board
  start_or_schedule i o b = elim (start_of o) [
    | none ↦ start_now i o b
    | some t ↦
        if ltb now t
        then record b { jobs = end_job now i o (schedule_task_start now i t b.jobs) }
        else start_now i o b
  ]

  -- The confirmation with an instance.
  unfoldable pub confirm_instance : ℕ → RoutedOrder → Board → Board
  confirm_instance i o b =
      let n = confirmed_order o in
      if not (has_row b.instances i)
      then record b { orders = write_order n b.orders }
      else if is_past now (end_of o)
      then record b {
        orders = write_order (record n { status = OrderStatus.failed }) b.orders;
        instances = write_instance i TaskStatus.expired b.instances;
      }
      else let written = record b { orders = write_order n b.orders } in
        if auto_start then start_or_schedule i o written else written

  unfoldable pub confirm_found : RoutedOrder → Board → Board × RouterReply
  unfolding confirm_instance
  confirm_found o b =
      if not (is_routed o.routing_status)
      then (b, refused 409)
      else elim o.materialized_instance_id [
        | none ↦ (record b { orders = write_order (confirmed_order o) b.orders }, accepted)
        | some i ↦ (confirm_instance i o b, accepted)
      ]

-- The lookup that the handlers share.
abbrev pub with_order :
    ℕ → Board → (RoutedOrder → Board → Board × RouterReply) → Board × RouterReply
with_order id b handle = elim (find_order id b.orders) [
  | none ↦ (b, refused 404)
  | some o ↦ if o.is_deleted then (b, refused 404) else handle o b
]

unfoldable pub claim_routing_order : Bool → Bool → ℕ → Board → Board × RouterReply
unfolding claim_found
claim_routing_order has_edges is_internal id b = with_order id b (claim_found has_edges is_internal)

unfoldable pub requeue_routing_order : ℕ → Board → Board × RouterReply
unfolding requeue_found
requeue_routing_order id b = with_order id b requeue_found

unfoldable pub fail_routing_order : ℕ → Board → Board × RouterReply
unfolding fail_found
fail_routing_order id b = with_order id b fail_found

unfoldable pub confirm_network_ready :
    (ℕ → (ℕ → Option TaskStatus) → Executed) → ℕ → Bool → ℕ → Board → Board × RouterReply
unfolding confirm_found
confirm_network_ready execute_dag_start now auto_start id b =
    with_order id b (confirm_found execute_dag_start now auto_start)

-- The router's entrance for a result: only a claimed order gets one.
unfoldable pub receive_routing_order_result : Platform → ℕ → ℕ → Payload → ℕ → Board → Board × Reply
unfolding receive_routing_result
receive_routing_order_result pf now fresh payload id b = elim (find_order id b.orders) [
  | none ↦ (b, Reply.refused 404)
  | some o ↦
      if o.is_deleted
      then (b, Reply.refused 404)
      else if is_none o.materialized_instance_id && not (is_computing o.routing_status)
      then (b, Reply.refused 409)
      else receive_routing_result pf now fresh payload id b
]
