-- ===== src/Benchmark/Bounds.antt =====
-- The two limits of a round of benchmark starts (_advance_controlled_benchmark_run of
-- backend/api/orders.py).
use manage_deploy.Benchmark.{
  BenchmarkOrder, Progress, Round, Slot, active_orders, advance_order, advance_orders, advance_run,
  benchmark_compute_slot, claim, gpu_slot, is_active, is_same_host, is_same_slot, node_slot,
}
use manage_deploy.Benchmark.Cases.{Advanced, advance_order-Advanced}
use manage_deploy.Benchmark.Counts.{IsCounted, IsDistinct, distinct-IsCounted}
use manage_deploy.Common.{
  &&-true, ==_iff, Bool-cases, Each, List, Option, [], ap, arith, contains, false, inl, inr, leb,
  length, max, none, refl, some, true, ℕ, ◌<◌, ◌==◌, ◌∷◌, ◌≡◌, ◌≤◌,
}
use manage_deploy.Enums.{TaskStatus}

is_same_host-eq : (a b : Option ℕ) → is_same_host a b ≡ true → a ≡ b
is_same_host-eq none none h = refl
is_same_host-eq none (some b) h = absurd (ground arith)
is_same_host-eq (some a) none h = absurd (ground arith)
is_same_host-eq (some a) (some b) h = ap some ((==_iff a b).0 h)

is_same_slot-eq : (j k : Slot) → is_same_slot j k ≡ true → j ≡ k
is_same_slot-eq (node_slot h) (node_slot k) e = ap node_slot (is_same_host-eq h k e)
is_same_slot-eq (node_slot h) (gpu_slot k g) e = absurd (ground arith)
is_same_slot-eq (gpu_slot h f) (node_slot k) e = absurd (ground arith)
is_same_slot-eq (gpu_slot h f) (gpu_slot k g) e =
    let p = &&-true (is_same_host h k) (f == g) e in
    let hosts = is_same_host-eq h k p.0 in let gpus = (==_iff f g).0 p.1 in rw (hosts, gpus) refl

module _ (r : Round) (all : List BenchmarkOrder) (before : ℕ → Option TaskStatus) where
  -- What the loop keeps: the counts are true, and both limits hold.
  abbrev IsWithin : Progress → Type 0
  IsWithin s =
      ((k : Slot) → s.active_by_slot k ≡ active_orders r.evaluated s.statuses all k)
      × ((k : Slot)
          → s.active_by_slot k
            ≤ max r.per_compute_slot_limit (active_orders r.evaluated before all k))
      × (length s.started ≤ r.max_parallel)

  claim-IsWithin :
      (o : BenchmarkOrder) (i : ℕ) (st : TaskStatus) (s : Progress)
      → IsCounted r.evaluated all o
      → o.materialized_instance_id ≡ some i
      → contains i r.evaluated ≡ false
      → s.statuses i ≡ some st
      → is_active st ≡ false
      → s.active_by_slot (benchmark_compute_slot o) < r.per_compute_slot_limit
      → length s.started < r.max_parallel
      → IsWithin s
      → IsWithin (claim r o i s)
  claim-IsWithin o i st s n m c t a l p w = (
    (λ k. let more = n s.statuses i st m c t a k in let was = w.0 k in ground arith),
    (λ k. elim (Bool-cases (is_same_slot k (benchmark_compute_slot o))) [
      | inl e ↦
          let here : s.active_by_slot k < r.per_compute_slot_limit =
            rw (is_same_slot-eq k (benchmark_compute_slot o) e) l in
          rw e (omega (arith, here))
      | inr e ↦ rw e (w.1 k)
    ]),
    omega (arith, p),
  )

  Advanced-IsWithin :
      (o : BenchmarkOrder) (s t : Progress)
      → IsCounted r.evaluated all o
      → length s.started < r.max_parallel
      → IsWithin s
      → Advanced r o s t
      → IsWithin t
  Advanced-IsWithin o s t n p w (Advanced.done d) = w
  Advanced-IsWithin o s t n p w Advanced.fails = w
  Advanced-IsWithin o s t n p w Advanced.waits = w
  Advanced-IsWithin o s t n p w Advanced.is_busy = w
  Advanced-IsWithin o s t n p w (Advanced.starts i st m c q a b v l e) =
      claim-IsWithin o i st s n m c q a l p w

  advance_orders-IsWithin :
      (os : List BenchmarkOrder) (s : Progress)
      → Each (IsCounted r.evaluated all) os
      → IsWithin s
      → IsWithin (advance_orders r os s)
  unfolding advance_orders
  advance_orders-IsWithin [] s n w = w
  advance_orders-IsWithin (o ∷ os) s n w =
      elim (Bool-cases (leb r.max_parallel (length s.started))) [
        | inl l ↦ rw l w
        | inr l ↦ rw l (
            advance_orders-IsWithin os (advance_order r o s) n.1 (
              Advanced-IsWithin o s (advance_order r o s) n.0 (ground arith) w
                (advance_order-Advanced r o s)))
      ]

-- Where no instance belongs to two orders, a round starts at most as many instances as it may, and
-- leaves no slot with more active orders than its limit, unless it had them before.
pub advance_run-within :
    (r : Round) (orders : List BenchmarkOrder) (statuses : ℕ → Option TaskStatus)
    → IsDistinct orders
    → (length (advance_run r orders statuses).started ≤ r.max_parallel)
      × ((k : Slot)
          → active_orders r.evaluated (advance_run r orders statuses).statuses orders k
            ≤ max r.per_compute_slot_limit (active_orders r.evaluated statuses orders k))
unfolding advance_run
advance_run-within r orders statuses d =
    let first : Progress = record {
      statuses = statuses;
      active_by_slot = active_orders r.evaluated statuses orders;
      started = [];
      failed = [];
      skipped_busy = [];
      waiting_resource = [];
    } in
    let w =
      advance_orders-IsWithin r orders statuses orders first
        (distinct-IsCounted r.evaluated orders d) (λ k. refl, λ k. omega arith, omega arith) in
    (w.2, λ k. rw (← w.0 k) (w.1 k))
