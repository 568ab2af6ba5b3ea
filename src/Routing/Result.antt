-- ===== src/Routing/Result.antt =====
-- The handler receive_routing_result (backend/api/orders.py) with _create_instance_from_template
-- (backend/api/instances.py) for the instance that it makes. The creation commits before the order
-- is written, so the handler is the two steps `accept_result` and `bind_instance`. A refusal raises,
-- and nothing that was written before it is kept.
use manage_deploy.Common.{
  Bool, List, Option, [], all_in, contains, false, if◌then◌else◌, is_empty, none, not, select, some,
  true, ℕ, ◌&&◌, ◌++◌, ◌+◌, ◌==◌, ◌||◌, ◌∷◌,
}
use manage_deploy.Scheduling.{schedule_task_start, schedule_task_end}
use manage_deploy.Enums.{OrderStatus, RoutingStatus, TaskStatus, is_awaiting_route}
use manage_deploy.Routing.Board.{
  Board, Catalog, RoutedOrder, end_of, find_order, gpu_slot_conflict, start_of, write_instance,
  write_order,
}
use manage_deploy.Routing.Placements.{
  DagNode, Deployment, RoutingPlacement, complete_placements, compute_role, is_compute_role,
  is_endpoint_role, is_same, normalize_placements, placement_is_deployable, sink_role, source_role,
  worker_role,
}

pub data NodeKind : Type 0 where
  worker terminal both : NodeKind

-- A row of the node table, and whether its host name is one of the known aliases.
pub record Machine : Type 0 where
  pub id : ℕ
  pub hostname : ℕ
  pub topology_node_id : Option ℕ
  pub is_compute_alias : Bool
  pub is_terminal_alias : Bool
  pub is_schedulable : Bool
  pub is_routable : Bool
  pub is_deleted : Bool
  pub node_kind : NodeKind

-- The nodes, and the names of the nodes of each template.
pub record Platform : Type 0 where
  pub machines : List Machine
  pub templates : ℕ → Option (List ℕ)

pub record Payload : Type 0 where
  pub placements : List RoutingPlacement
  pub require_network_ready : Bool

pub data Reply : Type 0 where
  refused : ℕ → Reply
  raised : Reply
  already : ℕ → Reply
  not_deployed : Reply
  deployed : ℕ → Reply

abbrev pub can_host_compute : Machine → Bool
can_host_compute m =
    m.is_compute_alias
    && (m.is_schedulable
        && (m.is_routable
            && (not m.is_deleted && elim m.node_kind [ NodeKind.worker ↦ true | _ ↦ false ])))

abbrev pub can_host_endpoint : Machine → Bool
can_host_endpoint m =
    m.is_terminal_alias
    && (m.is_schedulable
        && (m.is_routable
            && (not m.is_deleted && elim m.node_kind [ NodeKind.terminal ↦ true | _ ↦ false ])))

-- The query of `_resolve_topology_node`.
abbrev pub machines_named : Option ℕ → List Machine → List Machine
machines_named none ms = []
machines_named (some raw) ms =
    select
      (λ m.
        not m.is_deleted && (m.id == raw || (m.hostname == raw || is_same raw m.topology_node_id)))
      ms

-- The checks on the machine of a deployed placement.
abbrev pub check_host : ℕ → Machine → Option Reply
check_host role m =
    if is_compute_role role
    then if can_host_compute m then none else some (refused 422)
    else if is_endpoint_role role
    then if can_host_endpoint m then none else some (refused 422)
    else none

abbrev pub check_hosts : ℕ → List Machine → Option Reply
check_hosts role [] = some (refused 422)
check_hosts role (m ∷ []) = check_host role m
check_hosts role (m ∷ n ∷ ms) = some raised

-- `_validate_deployable_placements`; `resolve_node_id` makes the same query again.
unfoldable pub validate_placements :
    Platform → Deployment → List DagNode → List RoutingPlacement → Option Reply
validate_placements pf d dag [] = none
validate_placements pf d dag (p ∷ ps) =
    if not (placement_is_deployable d dag p.task_node_id)
    then validate_placements pf d dag ps
    else elim (check_hosts p.task_node_id (machines_named p.topology_node_id pf.machines)) [
      | some r ↦ some r
      | none ↦ validate_placements pf d dag ps
    ]

-- The template node of a role.
abbrev pub template_node_name : Option Catalog → ℕ → ℕ
template_node_name none role = role
template_node_name (some c) role =
    let name =
      (if role == source_role
        then c.source_node_name
        else if role == compute_role || role == worker_role
        then c.compute_node_name
        else if role == sink_role
        then c.sink_node_name
        else none) in
    elim name [ none ↦ role | some n ↦ n ]

-- `enabled_template_node_names`
unfoldable pub enabled_names : RoutedOrder → List RoutingPlacement → List ℕ → List ℕ
enabled_names o [] names = names
enabled_names o (p ∷ ps) names =
    if not (placement_is_deployable o.deployment o.routing_input_dag p.task_node_id)
    then enabled_names o ps names
    else let name = template_node_name o.catalog p.task_node_id in
      enabled_names o ps (if contains name names then names else names ++ name ∷ [])

unfoldable pub effective_placements : RoutedOrder → List RoutingPlacement → List RoutingPlacement
unfolding complete_placements normalize_placements
effective_placements o ps =
    normalize_placements
      (complete_placements o.deployment o.routing_input_dag o.source_name o.destination_name ps)

-- The persisted result, before the instance is there.
abbrev pub routing_order : RoutedOrder → List RoutingPlacement → RoutedOrder
routing_order o ps = record o {
  routing_status = RoutingStatus.computing;
  routing_result =
      some (record { placements = ps; network_ready_required = false; network_ready = false });
}

abbrev pub ready_status : Bool → RoutingStatus
ready_status required =
    if required then RoutingStatus.network_binding_ready else RoutingStatus.completed

-- Nothing is to be deployed.
abbrev pub route_only_order : RoutedOrder → Payload → List RoutingPlacement → RoutedOrder
route_only_order o payload ps =
    let required = o.is_terminal_transfer && payload.require_network_ready in
    record o {
      materialized_instance_id = none;
      status = if o.deployment.route_only then OrderStatus.pending else OrderStatus.completed;
      routing_status = ready_status required;
      routing_result = some (record {
        placements = ps;
        network_ready_required = required;
        network_ready = not required;
      });
    }

-- `_create_instance_from_template` for the names of the placements: the refusal, if there is one.
abbrev pub refuses_instance : Platform → RoutedOrder → List ℕ → Option Reply
refuses_instance pf o names =
    elim (pf.templates (elim o.catalog [ none ↦ o.template_id | some c ↦ c.template_id ])) [
      | none ↦ some (refused 404)
      | some known ↦ if all_in names known then none else some (refused 400)
    ]

abbrev pub start_time : ℕ → RoutedOrder → ℕ
start_time now o = elim (start_of o) [ none ↦ now | some t ↦ t ]

abbrev pub end_time : ℕ → RoutedOrder → ℕ
end_time now o = elim (end_of o) [ none ↦ start_time now o + 3600 | some t ↦ t ]

-- A scheduled instance has its jobs at once.
abbrev pub create_instance : ℕ → ℕ → RoutedOrder → Bool → Board → Board
create_instance now fresh o immediate b = record b {
  instances =
      write_instance fresh (if immediate then TaskStatus.pending else TaskStatus.scheduled)
        b.instances;
  jobs =
      if immediate
      then b.jobs
      else schedule_task_end now fresh (end_time now o)
          (schedule_task_start now fresh (start_time now o) b.jobs);
}

-- The replies that are exceptions.
abbrev pub is_error : Reply → Bool
is_error (refused c) = true
is_error raised = true
is_error _ = false

pub data Accepted : Type 0 where
  over : Board → Reply → Accepted
  created : Board → RoutedOrder → ℕ → Accepted

module _ (pf : Platform) (now fresh : ℕ) (payload : Payload) where
  -- Behind the checks of the placements and of the slots.
  unfoldable pub deploy : RoutedOrder → List RoutingPlacement → Board → Accepted
  deploy o ps b =
      let names = enabled_names o ps [] in
      if is_empty names
      then over (record b { orders = write_order (route_only_order o payload ps) b.orders })
          not_deployed
      else elim (refuses_instance pf o names) [
        | some r ↦ over (record b { orders = write_order (routing_order o ps) b.orders }) r
        | none ↦
            created
              (create_instance now fresh o payload.require_network_ready
                (record b { orders = write_order (routing_order o ps) b.orders }))
              (routing_order o ps) fresh
      ]

  -- Behind the lookup of the order. An order with an instance is answered with it; the routing request
  -- and the conversation that are brought in step with it then are not among these tables.
  unfoldable pub accept_order : RoutedOrder → Board → Accepted
  unfolding deploy
  accept_order o b = elim o.materialized_instance_id [
    | some i ↦ over b (already i)
    | none ↦
        if not (is_awaiting_route o.routing_status)
        then over b (refused 409)
        else let ps = effective_placements o payload.placements in
          elim (validate_placements pf o.deployment o.routing_input_dag ps) [
            | some r ↦ over b r
            | none ↦ if gpu_slot_conflict b o ps then over b (refused 409) else deploy o ps b
          ]
  ]

  -- Up to the commit of the creation.
  unfoldable pub accept_result : ℕ → Board → Accepted
  unfolding accept_order
  accept_result id b = elim (find_order id b.orders) [
    | none ↦ over b (refused 404)
    | some o ↦ if o.is_deleted then over b (refused 404) else accept_order o b
  ]

  -- `mark_network_binding_ready` and the columns of a materialized order.
  abbrev pub bound_order : RoutedOrder → ℕ → RoutedOrder
  bound_order o i = record o {
    materialized_instance_id = some i;
    status = OrderStatus.materialized;
    routing_status = ready_status payload.require_network_ready;
    routing_result = elim o.routing_result [
      | none ↦ none
      | some r ↦ some (record r {
        network_ready_required = payload.require_network_ready;
        network_ready = not payload.require_network_ready;
      })
    ];
  }

  -- Behind the commit of the creation.
  unfoldable pub bind_instance : RoutedOrder → ℕ → Board → Board
  bind_instance o i b = record b { orders = write_order (bound_order o i) b.orders }

  -- Behind the creation; a handler that raises is rolled back to the tables that it has found, since
  -- it has committed nothing by then (`get_db` of backend/database.py).
  unfoldable pub finish_result : Board → Accepted → Board × Reply
  unfolding bind_instance
  finish_result found (over b r) = (if is_error r then found else b, r)
  finish_result found (created b o i) = (bind_instance o i b, deployed i)

  unfoldable pub receive_routing_result : ℕ → Board → Board × Reply
  unfolding finish_result accept_result
  receive_routing_result id b = finish_result b (accept_result id b)
