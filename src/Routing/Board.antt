-- ===== src/Routing/Board.antt =====
-- The tables that receive_routing_result of backend/api/orders.py reads and writes, and its check of
-- the GPU slots. An order has the columns that the handler uses; of its runtime_config the
-- deployment plan and the parts of the routing result that decide something.
use manage_deploy.Common.{
  Bool, List, Option, [], false, find, if◌then◌else◌, is_empty, leb, none, not, some, true, ℕ, ◌&&◌,
  ◌==◌, ◌||◌, ◌∷◌,
}
use manage_deploy.Enums.{OrderStatus, RoutingStatus, TaskStatus, is_materialized, is_routed}
use manage_deploy.Routing.Placements.{
  DagNode, Deployment, RoutingPlacement, compute_gpu_slots, is_same, or_else, share_slot,
}
use manage_deploy.Scheduling.{Jobs}

pub record RoutingResult : Type 0 where
  pub placements : List RoutingPlacement
  pub network_ready_required : Bool
  pub network_ready : Bool

-- The template of the task type, with the names of its nodes.
pub record Catalog : Type 0 where
  pub template_id : ℕ
  pub source_node_name : Option ℕ
  pub compute_node_name : Option ℕ
  pub sink_node_name : Option ℕ

pub record RoutedOrder : Type 0 where
  pub id : ℕ
  pub is_deleted : Bool
  pub template_id : ℕ
  pub catalog : Option Catalog
  pub source_name : Option ℕ
  pub destination_name : Option ℕ
  pub business_start_time : Option ℕ
  pub business_end_time : Option ℕ
  pub scheduled_start_time : Option ℕ
  pub scheduled_end_time : Option ℕ
  pub deployment : Deployment
  pub is_terminal_transfer : Bool
  pub routing_input_dag : List DagNode
  pub status : OrderStatus
  pub routing_status : RoutingStatus
  pub routing_result : Option RoutingResult
  pub materialized_instance_id : Option ℕ

-- The orders, the status of each instance, and the jobs of the scheduler.
pub record Board : Type 0 where
  pub orders : List RoutedOrder
  pub instances : ℕ → Option TaskStatus
  pub jobs : Jobs

abbrev pub find_order : ℕ → List RoutedOrder → Option RoutedOrder
find_order i os = find (λ o. o.id == i) os

-- The row of an order is written.
abbrev pub write_order : RoutedOrder → List RoutedOrder → List RoutedOrder
write_order o [] = []
write_order o (p ∷ ps) = (if p.id == o.id then o else p) ∷ write_order o ps

abbrev pub write_instance : ℕ → TaskStatus → (ℕ → Option TaskStatus) → ℕ → Option TaskStatus
write_instance i status f j = if j == i then some status else f j

-- Some order names the instance.
abbrev pub names_instance : ℕ → List RoutedOrder → Bool
names_instance i [] = false
names_instance i (o ∷ os) = is_same i o.materialized_instance_id || names_instance i os

abbrev pub start_of : RoutedOrder → Option ℕ
start_of o = or_else o.business_start_time o.scheduled_start_time

abbrev pub end_of : RoutedOrder → Option ℕ
end_of o = or_else o.business_end_time o.scheduled_end_time

-- Both times are known, and the first order ends before the second starts.
abbrev pub ends_before : RoutedOrder → RoutedOrder → Bool
ends_before a b = elim (start_of b) [
  | none ↦ false
  | some s ↦ elim (end_of a) [ none ↦ false | some e ↦ leb e s ]
]

-- `_time_windows_overlap`
unfoldable pub time_windows_overlap : RoutedOrder → RoutedOrder → Bool
time_windows_overlap left right = not (ends_before right left) && not (ends_before left right)

-- `_order_compute_gpu_slots`
unfoldable pub order_gpu_slots : RoutedOrder → List (ℕ × ℕ)
order_gpu_slots o = elim o.routing_result [ none ↦ [] | some r ↦ compute_gpu_slots r.placements ]

-- `status in active_statuses`
abbrev pub occupies : TaskStatus → Bool
occupies TaskStatus.pending = true
occupies TaskStatus.scheduled = true
occupies TaskStatus.starting = true
occupies TaskStatus.running = true
occupies TaskStatus.stopping = true
occupies _ = false

abbrev pub is_occupied : (ℕ → Option TaskStatus) → ℕ → Bool
is_occupied instances i = elim (instances i) [ none ↦ false | some s ↦ occupies s ]

abbrev pub has_active_instance : (ℕ → Option TaskStatus) → Option ℕ → Bool
has_active_instance instances none = false
has_active_instance instances (some i) = is_occupied instances i

-- The query of `_ensure_no_active_gpu_slot_conflicts`
abbrev pub is_bound : RoutedOrder → Bool
is_bound o = not o.is_deleted && (is_routed o.routing_status && is_materialized o.status)

-- The order passes the query, and its instance is active.
unfoldable pub holds_slots : (ℕ → Option TaskStatus) → RoutedOrder → Bool
holds_slots instances o = is_bound o && has_active_instance instances o.materialized_instance_id

-- The loop over the candidates.
unfoldable pub has_conflict :
    (ℕ → Option TaskStatus) → RoutedOrder → List (ℕ × ℕ) → List RoutedOrder → Bool
has_conflict instances o requested [] = false
has_conflict instances o requested (c ∷ cs) =
    not (c.id == o.id)
      && (holds_slots instances c
          && (time_windows_overlap o c && share_slot requested (order_gpu_slots c)))
    || has_conflict instances o requested cs

-- `_ensure_no_active_gpu_slot_conflicts`
unfoldable pub gpu_slot_conflict : Board → RoutedOrder → List RoutingPlacement → Bool
unfolding has_conflict
gpu_slot_conflict b o placements =
    let requested = compute_gpu_slots placements in
    if is_empty requested then false else has_conflict b.instances o requested b.orders
