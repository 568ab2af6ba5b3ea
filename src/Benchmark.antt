-- ===== src/Benchmark.antt =====
-- The start of benchmark orders in rounds: the loop of _advance_controlled_benchmark_run and
-- _benchmark_compute_slot (backend/api/orders.py). What the network and the checks before a start
-- answer for an instance is an argument; the flush of the claimed status does not fail here, and the
-- recovery, the clean-up and the report around the loop are not modelled.
use manage_deploy.Routing.Placements.{
  RoutingPlacement, compute_role, worker_role, default_compute_gpu,
}
use manage_deploy.Common.{
  Bool, List, Option, [], contains, false, if◌then◌else◌, leb, length, none, not, some, true, ℕ,
  ◌&&◌, ◌+◌, ◌==◌, ◌||◌, ◌∷◌,
}
use manage_deploy.Enums.{TaskStatus}
use manage_deploy.Routing.Placements.{RoutingPlacement}
pub mod Cases
pub mod Counts
pub mod Bounds
pub mod Reasons
mod Samples

-- The compute host with all its GPUs, or one GPU of it: the code's "{host}:node" and
-- "{host}:gpu={gpu}". A missing host is the text "unknown".
pub data Slot : Type 0 where
  node_slot : Option ℕ → Slot
  gpu_slot : Option ℕ → ℕ → Slot

abbrev pub is_same_host : Option ℕ → Option ℕ → Bool
is_same_host none none = true
is_same_host none (some b) = false
is_same_host (some a) none = false
is_same_host (some a) (some b) = a == b

abbrev pub is_same_slot : Slot → Slot → Bool
is_same_slot (node_slot h) (node_slot k) = is_same_host h k
is_same_slot (node_slot h) (gpu_slot k g) = false
is_same_slot (gpu_slot h g) (node_slot k) = false
is_same_slot (gpu_slot h f) (gpu_slot k g) = is_same_host h k && f == g

-- A routing result, and whether its metadata allocate whole nodes.
pub record BenchmarkResult : Type 0 where
  pub is_node_allocated : Bool
  pub placements : List RoutingPlacement

-- An order that is MATERIALIZED, with the two places of a routing result in its runtime_config.
pub record BenchmarkOrder : Type 0 where
  pub id : ℕ
  pub materialized_instance_id : Option ℕ
  pub routing_result : Option BenchmarkResult
  pub business_result : Option BenchmarkResult

-- `_benchmark_routing_result`
abbrev pub benchmark_result : BenchmarkOrder → BenchmarkResult
benchmark_result o = elim o.routing_result [
  | some r ↦ r
  | none ↦ elim o.business_result [
    | some r ↦ r
    | none ↦ record { is_node_allocated = false; placements = [] }
  ]
]

-- The first placement of a compute or worker role.
abbrev pub compute_placement : List RoutingPlacement → Option RoutingPlacement
compute_placement [] = none
compute_placement (p ∷ ps) =
    let rest = compute_placement ps in
    if p.task_node_id == compute_role || p.task_node_id == worker_role then some p else rest

abbrev pub placement_host : Option RoutingPlacement → Option ℕ
placement_host none = none
placement_host (some p) = p.topology_node_id

abbrev pub placement_gpu : Option RoutingPlacement → ℕ
placement_gpu none = default_compute_gpu
placement_gpu (some p) = elim p.gpu_device [ none ↦ default_compute_gpu | some g ↦ g ]

-- `_benchmark_compute_slot`
unfoldable pub benchmark_compute_slot : BenchmarkOrder → Slot
benchmark_compute_slot o =
    let r = benchmark_result o in
    let p = compute_placement r.placements in
    if r.is_node_allocated
    then node_slot (placement_host p)
    else gpu_slot (placement_host p) (placement_gpu p)

-- What the checks before a start come to.
pub data Preflight : Type 0 where
  passes conflicts raises : Preflight

-- The request, and what the round finds: the evaluated instances, those that wait for the network
-- and the checks of each instance.
pub record Round : Type 0 where
  pub max_parallel : ℕ
  pub per_compute_slot_limit : ℕ
  pub retry_failed : Bool
  pub evaluated : List ℕ
  pub waits_for_network : ℕ → Bool
  pub preflight : ℕ → Preflight

-- The variables of the loop. The statuses are those of `instance_map`; `failed`, `skipped_busy` and
-- `waiting_resource` hold orders, `started` instances, the newest first.
pub record Progress : Type 0 where
  pub statuses : ℕ → Option TaskStatus
  pub active_by_slot : Slot → ℕ
  pub started : List ℕ
  pub failed : List ℕ
  pub skipped_busy : List ℕ
  pub waiting_resource : List ℕ

abbrev pub is_active : TaskStatus → Bool
is_active TaskStatus.running = true
is_active TaskStatus.starting = true
is_active _ = false

-- `startable_statuses`
abbrev pub is_startable : Bool → TaskStatus → Bool
is_startable retry_failed TaskStatus.pending = true
is_startable retry_failed TaskStatus.scheduled = true
is_startable retry_failed TaskStatus.stopped = true
is_startable retry_failed TaskStatus.failed = retry_failed
is_startable retry_failed _ = false

-- The order has an instance that is not evaluated and that runs or starts.
abbrev pub is_active_order : List ℕ → (ℕ → Option TaskStatus) → BenchmarkOrder → Bool
is_active_order evaluated statuses o = elim o.materialized_instance_id [
  | none ↦ false
  | some i ↦ not (contains i evaluated) && elim (statuses i) [ none ↦ false | some s ↦ is_active s ]
]

-- The first loop: how many active orders each slot has.
unfoldable pub active_orders : List ℕ → (ℕ → Option TaskStatus) → List BenchmarkOrder → Slot → ℕ
unfolding benchmark_compute_slot
active_orders evaluated statuses [] k = 0
active_orders evaluated statuses (o ∷ os) k =
    (if is_active_order evaluated statuses o && is_same_slot k (benchmark_compute_slot o)
      then 1
      else 0)
    + active_orders evaluated statuses os k

abbrev pub write_status : ℕ → TaskStatus → (ℕ → Option TaskStatus) → ℕ → Option TaskStatus
write_status i s f j = if j == i then some s else f j

-- `active_by_slot[slot] += 1`
abbrev pub count_up : Slot → (Slot → ℕ) → Slot → ℕ
count_up k n j = if is_same_slot j k then n j + 1 else n j

module _ (r : Round) where
  abbrev pub claim : BenchmarkOrder → ℕ → Progress → Progress
  claim o i s = record s {
    statuses = write_status i TaskStatus.starting s.statuses;
    active_by_slot = count_up (benchmark_compute_slot o) s.active_by_slot;
    started = i ∷ s.started;
  }

  -- Behind the checks of the status.
  unfoldable pub try_start : BenchmarkOrder → ℕ → Progress → Progress
  unfolding benchmark_compute_slot
  try_start o i s =
      if r.waits_for_network i
      then record s { waiting_resource = o.id ∷ s.waiting_resource }
      else if leb r.per_compute_slot_limit (s.active_by_slot (benchmark_compute_slot o))
      then record s {
        skipped_busy = o.id ∷ s.skipped_busy;
        waiting_resource = o.id ∷ s.waiting_resource;
      }
      else elim (r.preflight i) [
        | Preflight.passes ↦ claim o i s
        | Preflight.conflicts ↦ record s { waiting_resource = o.id ∷ s.waiting_resource }
        | Preflight.raises ↦ record s { failed = o.id ∷ s.failed }
      ]

  -- One round of the loop.
  unfoldable pub advance_order : BenchmarkOrder → Progress → Progress
  unfolding try_start
  advance_order o s = elim o.materialized_instance_id [
    | none ↦ s
    | some i ↦ if contains i r.evaluated then s else elim (s.statuses i) [
      | none ↦ record s { failed = o.id ∷ s.failed }
      | some status ↦
          if is_active status
          then s
          else if not (is_startable r.retry_failed status)
          then record s { failed = o.id ∷ s.failed }
          else try_start o i s
    ]
  ]

  unfoldable pub advance_orders : List BenchmarkOrder → Progress → Progress
  unfolding advance_order
  advance_orders [] s = s
  advance_orders (o ∷ os) s =
      if leb r.max_parallel (length s.started) then s else advance_orders os (advance_order o s)

  -- The two loops, on the statuses that the round finds.
  unfoldable pub advance_run : List BenchmarkOrder → (ℕ → Option TaskStatus) → Progress
  unfolding advance_orders
  advance_run orders statuses = advance_orders orders (record {
    statuses = statuses;
    active_by_slot = active_orders r.evaluated statuses orders;
    started = [];
    failed = [];
    skipped_busy = [];
    waiting_resource = [];
  })
