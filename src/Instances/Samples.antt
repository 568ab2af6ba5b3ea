-- ===== src/Instances/Samples.antt =====
-- The start of small instances (backend/api/instances.py).
use manage_deploy.Common.{
  Bool, Option, [], contains, false, if◌then◌else◌, keys, none, not, refl, some, true, ℕ, ◌==◌,
  ◌||◌, ◌∷◌, ◌≡◌,
}
use manage_deploy.Enums.{OrderStatus, RoutingStatus, TaskStatus}
use manage_deploy.Instances.{
  Session, batch_board, opened, start_body, Call, Detail, batch_start, batch_start_instances, broke,
  instance_waiting_for_network_ready, nobody, returned, start_instance,
  start_instance_with_preflight,
}
use manage_deploy.Instances.Agree.{is_well, reply_outcome}
use manage_deploy.Instances.Batch.{batch_start-accounted}
use manage_deploy.Instances.Waits.{start-waits}
use manage_deploy.Routing.Board.{Board, gpu_slot_conflict, has_conflict, write_instance}
use manage_deploy.Routing.Placements.{
  complete_placements, compute_gpu_slots, compute_role, dag_node_of, fixed_endpoint,
  normalize_placements, placement_is_deployable, sink_role, source_role,
}
use manage_deploy.Routing.Result.{
  Machine, NodeKind, Payload, Platform, Reply, accept_order, accept_result, bind_instance, deploy,
  effective_placements, enabled_names, finish_result, receive_routing_result, validate_placements,
}
use manage_deploy.Routing.Router.{Executed, confirm_network_ready}

-- The check passes, and the executor starts all but instance 4, where it fails, and 5, where it
-- writes a status and raises.
abbrev passes : ℕ → Session → Call Bool
passes i s = returned s true

abbrev with_status : ℕ → TaskStatus → Board → Board
with_status i t b = record b { instances = write_instance i t b.instances }

abbrev starts : ℕ → Session → Call (Bool × Option ℕ)
starts i s =
    if i == 5
    then broke (record s { view = with_status i TaskStatus.starting s.view })
    else if i == 4
    then returned s (false, some 9)
    else returned (opened (with_status i TaskStatus.running s.view)) (true, none)

abbrev stopped_instances : Board
stopped_instances = record {
  orders = [];
  instances = λ i. if i == 8 then none else some TaskStatus.stopped;
  jobs = record { starts = []; ends = [] };
}

-- The batch leaves the status that the route takes back.
left_behind :
    ((start_instance passes starts 5 stopped_instances).0.instances 5 ≡ some TaskStatus.stopped)
    × ((batch_board passes starts
            (batch_start_instances passes starts (5 ∷ []) stopped_instances)).instances
          5
        ≡ some TaskStatus.starting)
unfolding start_instance start_body batch_start_instances batch_start start_instance_with_preflight
    instance_waiting_for_network_ready
left_behind = (refl, refl)

batch_start-accounted_example :
    (contains 5 (batch_start_instances passes starts (3 ∷ 5 ∷ 8 ∷ []) stopped_instances).succeeded
      || contains 5
          (keys (batch_start_instances passes starts (3 ∷ 5 ∷ 8 ∷ []) stopped_instances).failed))
    ≡ true
batch_start-accounted_example =
    batch_start-accounted passes starts (3 ∷ 5 ∷ 8 ∷ []) stopped_instances 5

-- Of five starts two succeed: the second of instance 3 finds it running.
batch :
    let r = batch_start_instances passes starts (3 ∷ 4 ∷ 5 ∷ 8 ∷ 3 ∷ []) stopped_instances in
    (r.succeeded ≡ 3 ∷ 3 ∷ [])
    × (r.failed
        ≡ (4, Detail.of_executor (some 9)) ∷ (5, Detail.of_exception) ∷ (8, Detail.not_found) ∷ [])
unfolding batch_start_instances batch_start start_instance_with_preflight
    instance_waiting_for_network_ready
batch = (refl, refl)

abbrev machine : ℕ → Bool → Machine
machine id is_worker = record {
  id = id;
  hostname = id;
  topology_node_id = none;
  is_compute_alias = is_worker;
  is_terminal_alias = not is_worker;
  is_schedulable = true;
  is_routable = true;
  is_deleted = false;
  node_kind = if is_worker then NodeKind.worker else NodeKind.terminal;
}

abbrev platform : Platform
platform = record {
  machines = machine 31 true ∷ machine 32 false ∷ machine 33 false ∷ [];
  templates = λ t. some (compute_role ∷ source_role ∷ sink_role ∷ []);
}

abbrev claimed : Board
claimed = record {
  orders =
      record {
        id = 10;
        is_deleted = false;
        template_id = 5;
        catalog = none;
        source_name = some 2;
        destination_name = some 3;
        business_start_time = some 40;
        business_end_time = some 200;
        scheduled_start_time = none;
        scheduled_end_time = none;
        deployment = record {
          deployable_roles = none;
          non_deployable_roles = none;
          route_only = false;
        };
        is_terminal_transfer = false;
        routing_input_dag = [];
        status = OrderStatus.pending;
        routing_status = RoutingStatus.computing;
        routing_result = none;
        materialized_instance_id = none;
      }
      ∷ [];
  instances = λ i. none;
  jobs = record { starts = []; ends = [] };
}

abbrev to_be_confirmed : Payload
to_be_confirmed = record {
  placements =
      record { task_node_id = source_role; topology_node_id = some 32; gpu_device = none }
      ∷ record { task_node_id = compute_role; topology_node_id = some 31; gpu_device = none }
      ∷ record { task_node_id = sink_role; topology_node_id = some 33; gpu_device = none }
      ∷ [];
  require_network_ready = true;
}

-- The executor of the confirmation.
abbrev runs : ℕ → (ℕ → Option TaskStatus) → Executed
runs i f = record { instances = write_instance i TaskStatus.running f; raises = false }

abbrev routed : Board × Reply
routed = receive_routing_result platform 50 77 to_be_confirmed 10 claimed

deployed_first : routed.1 ≡ Reply.deployed 77
unfolding receive_routing_result accept_result accept_order finish_result deploy bind_instance
    validate_placements effective_placements gpu_slot_conflict compute_gpu_slots enabled_names
    complete_placements fixed_endpoint normalize_placements has_conflict dag_node_of
    placement_is_deployable
deployed_first = refl

start-waits_example :
    ((start_instance passes starts 77 routed.0).0 ≡ routed.0)
    × (is_well (reply_outcome (start_instance passes starts 77 routed.0).1) ≡ false)
    × (instance_waiting_for_network_ready 77
          (confirm_network_ready runs 60 true 10 routed.0).0.orders
        ≡ nobody)
start-waits_example =
    start-waits passes starts platform 50 77 to_be_confirmed 10 claimed runs 60 true 77 refl refl
      deployed_first
