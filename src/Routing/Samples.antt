-- ===== src/Routing/Samples.antt =====
-- Small tables for receive_routing_result and cancel_order (backend/api/orders.py).
use manage_deploy.Common.{
  Bool, [], false, if◌then◌else◌, none, not, refl, some, true, ℕ, ◌==◌, ◌∷◌, ◌≡◌,
}
use manage_deploy.Enums.{OrderStatus, RoutingStatus, TaskStatus}
use manage_deploy.Routing.Apart.{IsApart, clash}
use manage_deploy.Routing.Board.{
  Board, RoutedOrder, gpu_slot_conflict, has_conflict, holds_slots, names_instance, order_gpu_slots,
  time_windows_overlap, write_instance,
}
use manage_deploy.Routing.Cancel.{CancelReply, cancel_order}
use manage_deploy.Routing.Guard.{accept-IsApart}
use manage_deploy.Routing.Placements.{
  RoutingPlacement, complete_placements, compute_gpu_slots, compute_role, dag_node_of,
  fixed_endpoint, normalize_placements, placement_is_deployable, sink_role, source_role,
}
use manage_deploy.Routing.Replies.{cancelled-receive, receive_again}
use manage_deploy.Routing.Result.{
  Accepted, Machine, NodeKind, Payload, Platform, Reply, accept_order, accept_result, bind_instance,
  bound_order, created, deploy, effective_placements, enabled_names, finish_result, over,
  receive_routing_result, routing_order, validate_placements,
}

abbrev waiting : ℕ → ℕ → ℕ → RoutedOrder
waiting id starts ends = record {
  id = id;
  is_deleted = false;
  template_id = 5;
  catalog = none;
  source_name = some 2;
  destination_name = some 3;
  business_start_time = some starts;
  business_end_time = some ends;
  scheduled_start_time = none;
  scheduled_end_time = none;
  deployment = record { deployable_roles = none; non_deployable_roles = none; route_only = false };
  is_terminal_transfer = false;
  routing_input_dag = [];
  status = OrderStatus.pending;
  routing_status = RoutingStatus.pending;
  routing_result = none;
  materialized_instance_id = none;
}

abbrev machine : ℕ → Bool → Machine
machine id is_worker = record {
  id = id;
  hostname = id;
  topology_node_id = none;
  is_compute_alias = is_worker;
  is_terminal_alias = not is_worker;
  is_schedulable = true;
  is_routable = true;
  is_deleted = false;
  node_kind = if is_worker then NodeKind.worker else NodeKind.terminal;
}

abbrev small_platform : Platform
small_platform = record {
  machines = machine 31 true ∷ machine 32 false ∷ machine 33 false ∷ [];
  templates = λ t. if t == 5 then some (compute_role ∷ source_role ∷ sink_role ∷ []) else none;
}

abbrev placement : ℕ → ℕ → RoutingPlacement
placement role host = record {
  task_node_id = role;
  topology_node_id = some host;
  gpu_device = none;
}

abbrev at_once : Payload
at_once = record {
  placements = placement source_role 32 ∷ placement compute_role 31 ∷ placement sink_role 33 ∷ [];
  require_network_ready = false;
}

-- Orders 10 and 11 overlap, 12 starts when 10 ends.
abbrev three_orders : Board
three_orders = record {
  orders = waiting 10 100 200 ∷ waiting 11 150 250 ∷ waiting 12 200 300 ∷ [];
  instances = λ i. none;
  jobs = record { starts = []; ends = [] };
}

abbrev first : Board × Reply
first = receive_routing_result small_platform 50 77 at_once 10 three_orders

abbrev second : Board × Reply
second = receive_routing_result small_platform 50 78 at_once 11 first.0

abbrev third : Board × Reply
third = receive_routing_result small_platform 50 79 at_once 12 second.0

replies :
    (first.1 ≡ Reply.deployed 77)
    × (second.1 ≡ Reply.refused 409)
    × (third.1 ≡ Reply.deployed 79)
    × (names_instance 78 first.0.orders ≡ false)
    × (names_instance 79 second.0.orders ≡ false)
unfolding receive_routing_result accept_result accept_order finish_result deploy bind_instance
    validate_placements effective_placements gpu_slot_conflict compute_gpu_slots holds_slots
    enabled_names time_windows_overlap order_gpu_slots complete_placements fixed_endpoint
    normalize_placements has_conflict dag_node_of placement_is_deployable
replies = (refl, refl, refl, refl, refl)

abbrev racing : Accepted
racing = accept_result small_platform 50 77 at_once 10 three_orders

abbrev racing_order : RoutedOrder
racing_order =
    routing_order (waiting 10 100 200)
      (effective_placements (waiting 10 100 200) at_once.placements)

abbrev is_created : Accepted → Bool
is_created (over b r) = false
is_created (created b o i) = true

abbrev tables : Accepted → Board
tables (over b r) = b
tables (created b o i) = b

racing_created : racing ≡ created (tables racing) racing_order 77
unfolding receive_routing_result accept_result accept_order finish_result deploy bind_instance
    validate_placements effective_placements gpu_slot_conflict compute_gpu_slots holds_slots
    enabled_names time_windows_overlap order_gpu_slots complete_placements fixed_endpoint
    normalize_placements has_conflict dag_node_of placement_is_deployable
racing_created = refl

accept-IsApart_example :
    IsApart
      (tables racing).instances
      three_orders.orders
      (bound_order small_platform 50 77 at_once racing_order 77)
accept-IsApart_example =
    accept-IsApart small_platform 50 77 at_once 10 three_orders (tables racing) racing_order 77 refl
      racing_created

receive_again_example :
    (receive_routing_result small_platform 60 90 at_once 10 first.0 ≡ (first.0, Reply.already 77))
    × (cancel_order true 10 first.0 ≡ (first.0, CancelReply.refused 400))
receive_again_example =
    receive_again small_platform 50 77 at_once 10 three_orders 60 90 77 at_once replies.0

cancelled-receive_example :
    receive_routing_result small_platform 50 77 at_once 10 (cancel_order true 10 three_orders).0
    ≡ ((cancel_order true 10 three_orders).0, Reply.refused 409)
cancelled-receive_example =
    cancelled-receive small_platform 50 77 at_once 10 three_orders (waiting 10 100 200) refl refl
      refl refl

-- Instance 77 is stopped, its slot goes to order 11, and then 77 is started again: the start of an
-- instance does not look at the slots.
abbrev stopped : Board
stopped = record first.0 { instances = write_instance 77 TaskStatus.stopped first.0.instances }

abbrev taken : Board × Reply
taken = receive_routing_result small_platform 50 78 at_once 11 stopped

restarted_clash :
    clash
      (write_instance 77 TaskStatus.starting taken.0.instances)
      (bound_order small_platform 50 77 at_once
        (routing_order
          (waiting 10 100 200)
          (effective_placements (waiting 10 100 200) at_once.placements))
        77)
      (bound_order small_platform 50 78 at_once
        (routing_order
          (waiting 11 150 250)
          (effective_placements (waiting 11 150 250) at_once.placements))
        78)
    ≡ true
unfolding receive_routing_result accept_result accept_order finish_result deploy bind_instance
    validate_placements effective_placements gpu_slot_conflict compute_gpu_slots holds_slots
    enabled_names time_windows_overlap order_gpu_slots complete_placements fixed_endpoint
    normalize_placements has_conflict dag_node_of placement_is_deployable
restarted_clash = refl

-- A second result is accepted before the first one has written its order: two instances.
accepted_twice :
    (is_created racing ≡ true)
    × (is_created (accept_result small_platform 51 78 at_once 10 (tables racing)) ≡ true)
unfolding receive_routing_result accept_result accept_order finish_result deploy bind_instance
    validate_placements effective_placements gpu_slot_conflict compute_gpu_slots holds_slots
    enabled_names time_windows_overlap order_gpu_slots complete_placements fixed_endpoint
    normalize_placements has_conflict dag_node_of placement_is_deployable
accepted_twice = (refl, refl)
