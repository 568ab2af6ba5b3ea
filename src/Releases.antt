-- ===== src/Releases.antt =====
-- backend/services/routing_resource_events.py: one release event for each GPU that an order held.
-- Host names, devices and order identifiers are numbers. The session is its unflushed events, the
-- visible rows, and whether the flush of an event meets the unique constraint (a row that another
-- transaction wrote and the query does not see).
pub mod Once
pub mod Instance
mod Samples
use manage_deploy.Common.{
  Bool, List, Option, [], false, if◌then◌else◌, none, select, some, true, ℕ, ◌&&◌, ◌+◌, ◌==◌, ◌||◌,
  ◌∷◌,
}

-- The lower-cased `task_node_id` of a placement.
pub data Role : Type 0 where
  compute worker infer train other : Role

abbrev pub is_compute : Role → Bool
is_compute other = false
is_compute _ = true

pub record Placement : Type 0 where
  pub role : Role
  pub topology_node_id : Option ℕ
  pub gpu_device : Option ℕ

-- An item of `placements`: a dict, or something else that is passed over.
pub data Item : Type 0 where
  dict : Placement → Item
  junk : Item

pub record Order : Type 0 where
  pub id : ℕ
  pub materialized_instance_id : Option ℕ
  pub external_routing_id : Option ℕ
  pub benchmark_run_id : Option ℕ
  pub task_type : Option ℕ
  pub placements : List Item

pub record ResourceEvent : Type 0 where
  pub order_id : ℕ
  pub external_routing_id : Option ℕ
  pub benchmark_run_id : Option ℕ
  pub task_type : Option ℕ
  pub node_hostname : ℕ
  pub resource_id : ℕ
  pub amount : ℕ
  pub reason : ℕ

abbrev pub placements_of : List Item → List Placement
placements_of [] = []
placements_of (dict p ∷ items) = p ∷ placements_of items
placements_of (junk ∷ items) = placements_of items

abbrev pub gpu_ids : Placement → List ℕ
gpu_ids p = elim p.gpu_device [ none ↦ [] | some d ↦ d ∷ [] ]

-- A release event of the order for the host and the device.
abbrev pub event_exists : List ResourceEvent → ℕ → ℕ → ℕ → Bool
event_exists [] o h d = false
event_exists (e ∷ es) o h d =
    e.order_id == o && (e.node_hostname == h && e.resource_id == d) || event_exists es o h d

-- `TaskOrder.materialized_instance_id == instance_id`
abbrev pub orders_of : ℕ → List Order → List Order
orders_of i orders =
    select (λ o. elim o.materialized_instance_id [ none ↦ false | some j ↦ j == i ]) orders

module _ (pending : List ResourceEvent) (conflicts : ℕ → ℕ → ℕ → Bool) (reason : ℕ) where
  abbrev release_event : Order → ℕ → ℕ → ResourceEvent
  release_event o h d = record {
    order_id = o.id;
    external_routing_id = o.external_routing_id;
    benchmark_run_id = o.benchmark_run_id;
    task_type = o.task_type;
    node_hostname = h;
    resource_id = d;
    amount = 1;
    reason = reason;
  }

  -- The body of the inner loop: the rows, and the number of events emitted.
  unfoldable pub emit_gpu : Order → ℕ → ℕ → List ResourceEvent × ℕ → List ResourceEvent × ℕ
  emit_gpu o h d (rows, emitted) =
      if event_exists pending o.id h d || event_exists rows o.id h d
      then (rows, emitted)
      else if conflicts o.id h d
      then (rows, emitted)
      else (release_event o h d ∷ rows, emitted + 1)

  unfoldable pub emit_gpus : Order → ℕ → List ℕ → List ResourceEvent × ℕ → List ResourceEvent × ℕ
  unfolding emit_gpu
  emit_gpus o h [] acc = acc
  emit_gpus o h (d ∷ ds) acc = emit_gpus o h ds (emit_gpu o h d acc)

  unfoldable pub emit_placement :
      Order → Placement → List ResourceEvent × ℕ → List ResourceEvent × ℕ
  unfolding emit_gpus
  emit_placement o p acc =
      if is_compute p.role
      then elim p.topology_node_id [ none ↦ acc | some h ↦ emit_gpus o h (gpu_ids p) acc ]
      else acc

  unfoldable pub emit_placements :
      Order → List Placement → List ResourceEvent × ℕ → List ResourceEvent × ℕ
  unfolding emit_placement
  emit_placements o [] acc = acc
  emit_placements o (p ∷ ps) acc = emit_placements o ps (emit_placement o p acc)

  unfoldable pub emit_release_events_for_order : Order → List ResourceEvent → List ResourceEvent × ℕ
  unfolding emit_placements
  emit_release_events_for_order o rows = emit_placements o (placements_of o.placements) (rows, 0)

  -- The orders of the instance, one after the other.
  unfoldable pub emit_orders : List Order → List ResourceEvent × ℕ → List ResourceEvent × ℕ
  unfolding emit_release_events_for_order
  emit_orders [] acc = acc
  emit_orders (o ∷ os) (rows, emitted) =
      let (rows', n) = emit_release_events_for_order o rows in emit_orders os (rows', emitted + n)

  unfoldable pub emit_release_events_for_instance :
      Option ℕ → List Order → List ResourceEvent → List ResourceEvent × ℕ
  unfolding emit_orders
  emit_release_events_for_instance none orders rows = (rows, 0)
  emit_release_events_for_instance (some i) orders rows = emit_orders (orders_of i orders) (rows, 0)
