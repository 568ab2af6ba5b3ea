-- ===== src/Benchmark/Samples.antt =====
-- A round of benchmark starts (backend/api/orders.py) over four orders on one host.
use manage_deploy.Benchmark.{BenchmarkOrder, Preflight, Round, Slot, active_orders, advance_run}
use manage_deploy.Benchmark.Bounds.{advance_run-within}
use manage_deploy.Benchmark.Counts.{IsDistinct}
use manage_deploy.Routing.Placements.{compute_role}
use manage_deploy.Common.{
  List, Option, [], arith, false, if◌then◌else◌, length, ltb, max, none, some, ℕ, ◌==◌, ◌∷◌, ◌≤◌,
}
use manage_deploy.Enums.{TaskStatus}

abbrev on_gpu : ℕ → ℕ → ℕ → BenchmarkOrder
on_gpu id i gpu = record {
  id = id;
  materialized_instance_id = some i;
  routing_result = some (record {
    is_node_allocated = false;
    placements =
        record { task_node_id = compute_role; topology_node_id = some 31; gpu_device = some gpu }
        ∷ [];
  });
  business_result = none;
}

-- The first two orders want one GPU; the instance of the third one has failed.
abbrev four_orders : List BenchmarkOrder
four_orders = on_gpu 1 101 0 ∷ on_gpu 2 102 0 ∷ on_gpu 3 103 1 ∷ on_gpu 4 104 1 ∷ []

abbrev found : ℕ → Option TaskStatus
found i =
    if i == 103
    then some TaskStatus.failed
    else if ltb i 105
    then some TaskStatus.scheduled
    else none

abbrev one_each : Round
one_each = record {
  max_parallel = 3;
  per_compute_slot_limit = 1;
  retry_failed = false;
  evaluated = [];
  waits_for_network = λ i. false;
  preflight = λ i. Preflight.passes;
}

four_orders-IsDistinct : IsDistinct four_orders
four_orders-IsDistinct = ground arith

advance_run-within_example :
    (length (advance_run one_each four_orders found).started ≤ 3)
    × ((k : Slot)
        → active_orders [] (advance_run one_each four_orders found).statuses four_orders k
          ≤ max 1 (active_orders [] found four_orders k))
advance_run-within_example = advance_run-within one_each four_orders found four_orders-IsDistinct
