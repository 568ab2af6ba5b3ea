-- ===== src/Benchmark/Cases.antt =====
-- What one round of the loop in _advance_controlled_benchmark_run (backend/api/orders.py) does with
-- an order.
use manage_deploy.Benchmark.{
  BenchmarkOrder, Preflight, Progress, Round, advance_order, benchmark_compute_slot, claim,
  is_active, is_startable, try_start,
}
use manage_deploy.Common.{
  Bool-cases, Option-cases, arith, contains, false, inl, inr, leb, none, refl, some, true, ℕ, ◌<◌,
  ◌||◌, ◌∷◌, ◌≡◌,
}
use manage_deploy.Enums.{TaskStatus}

module _ (r : Round) (o : BenchmarkOrder) (s : Progress) where
  -- Nothing is to be done: no instance, an evaluated one, or one that is active.
  abbrev pub IsDone : Type 0
  IsDone =
      elim o.materialized_instance_id [
        | none ↦ true
        | some i ↦
            contains i r.evaluated || elim (s.statuses i) [ none ↦ false | some t ↦ is_active t ]
      ]
      ≡ true

  pub data Advanced : Progress → Type 0 where
    done : IsDone → Advanced s
    fails : Advanced (record s { failed = o.id ∷ s.failed })
    waits : Advanced (record s { waiting_resource = o.id ∷ s.waiting_resource })
    is_busy : Advanced (record s {
      skipped_busy = o.id ∷ s.skipped_busy;
      waiting_resource = o.id ∷ s.waiting_resource;
    })
    starts :
        (i : ℕ) (st : TaskStatus)
        → o.materialized_instance_id ≡ some i
        → contains i r.evaluated ≡ false
        → s.statuses i ≡ some st
        → is_active st ≡ false
        → is_startable r.retry_failed st ≡ true
        → r.waits_for_network i ≡ false
        → s.active_by_slot (benchmark_compute_slot o) < r.per_compute_slot_limit
        → r.preflight i ≡ Preflight.passes
        → Advanced (claim r o i s)

  try_start-Advanced :
      (i : ℕ) (st : TaskStatus)
      → o.materialized_instance_id ≡ some i
      → contains i r.evaluated ≡ false
      → s.statuses i ≡ some st
      → is_active st ≡ false
      → is_startable r.retry_failed st ≡ true
      → Advanced (try_start r o i s)
  unfolding try_start
  try_start-Advanced i st m c t a b = elim (Bool-cases (r.waits_for_network i)) [
    | inl q ↦ rw q waits
    | inr q ↦
        elim (Bool-cases
          (leb r.per_compute_slot_limit (s.active_by_slot (benchmark_compute_slot o)))) [
            | inl l ↦ rw (q, l) is_busy
            | inr l ↦ rw (q, l) (answered q (ground arith) (r.preflight i) refl)
          ]
  ]
    where
      answered :
          r.waits_for_network i ≡ false
          → s.active_by_slot (benchmark_compute_slot o) < r.per_compute_slot_limit
          → (v : Preflight) → r.preflight i ≡ v
          → Advanced (elim v [
            | Preflight.passes ↦ claim r o i s
            | Preflight.conflicts ↦ record s { waiting_resource = o.id ∷ s.waiting_resource }
            | Preflight.raises ↦ record s { failed = o.id ∷ s.failed }
          ])
      answered q l Preflight.passes e = starts i st m c t a b q l e
      answered q l Preflight.conflicts e = waits
      answered q l Preflight.raises e = fails

  pub advance_order-Advanced : Advanced (advance_order r o s)
  unfolding advance_order
  advance_order-Advanced = elim (Option-cases o.materialized_instance_id) [
    | inl m ↦ let e : advance_order r o s ≡ s = ground arith in rw e (done (ground arith))
    | inr (i, m) ↦ elim (Bool-cases (contains i r.evaluated)) [
      | inl c ↦ let e : advance_order r o s ≡ s = ground arith in rw e (done (ground arith))
      | inr c ↦ elim (Option-cases (s.statuses i)) [
        | inl t ↦
            let e : advance_order r o s ≡ record s { failed = o.id ∷ s.failed } = ground arith in
            rw e fails
        | inr (st, t) ↦ elim (Bool-cases (is_active st)) [
          | inl a ↦ let e : advance_order r o s ≡ s = ground arith in rw e (done (ground arith))
          | inr a ↦ elim (Bool-cases (is_startable r.retry_failed st)) [
            | inr q ↦
                let e : advance_order r o s ≡ record s { failed = o.id ∷ s.failed } =
                  ground arith in
                rw e fails
            | inl q ↦
                let e : advance_order r o s ≡ try_start r o i s = ground arith in
                rw e (try_start-Advanced i st m c t a q)
          ]
        ]
      ]
    ]
  ]
