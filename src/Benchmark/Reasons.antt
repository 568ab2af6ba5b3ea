-- ===== src/Benchmark/Reasons.antt =====
-- Each order of a round of benchmark starts (_advance_controlled_benchmark_run of
-- backend/api/orders.py): why it was started, or what it is reported as.
use manage_deploy.Benchmark.{BenchmarkOrder, Preflight, Progress, Round, is_active, is_startable}
use manage_deploy.Common.{◌⊎◌, Bool, Each, Option, contains, false, none, some, true, ℕ, ◌||◌, ◌≡◌}
use manage_deploy.Enums.{TaskStatus}

abbrev pub runs : (ℕ → Option TaskStatus) → ℕ → Bool
runs f i = elim (f i) [ none ↦ false | some t ↦ is_active t ]

module _ (r : Round) where
  abbrev pub needs_no_start : (ℕ → Option TaskStatus) → Option ℕ → Bool
  needs_no_start f none = true
  needs_no_start f (some i) = contains i r.evaluated || runs f i

  -- The order needs no start, or stands in the report as failed or waiting.
  abbrev pub is_accounted : Progress → BenchmarkOrder → Bool
  is_accounted s o =
      (contains o.id s.failed || contains o.id s.waiting_resource)
      || needs_no_start s.statuses o.materialized_instance_id

  -- A start may be made of the instance.
  abbrev pub IsStartable : (ℕ → Option TaskStatus) → ℕ → Type 0
  IsStartable statuses i =
      (contains i r.evaluated ≡ false)
      × (r.waits_for_network i ≡ false)
      × (r.preflight i ≡ Preflight.passes)
      × (elim (statuses i) [ none ↦ false | some t ↦ is_startable r.retry_failed t ] ≡ true)

  -- Every instance is as it was, or was started.
  abbrev IsFrom : (ℕ → Option TaskStatus) → Progress → Type 0
  IsFrom before s =
      ((j : ℕ) → (s.statuses j ≡ before j) ⊎ (s.statuses j ≡ some TaskStatus.starting))
      × Each (IsStartable before) s.started
