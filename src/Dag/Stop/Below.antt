-- ===== src/Dag/Stop/Below.antt =====
-- Every step of `execute_dag_stop` and its coroutines (backend/services/dag_executor.py) lessens the
-- weight of the state.
use manage_deploy.Common.{
  Bool-cases, List, Option, Option-cases, [], arith, contains, get_elem?, inl, inr, is_empty,
  length, ltb, none, not, refl, remove, set, some, true, ℕ, ◌&&◌, ◌<◌, ◌∷◌, ◌≡◌,
}
use manage_deploy.Dag.Graph.{Graph}
use manage_deploy.Dag.Messages.{AgentResult, Message}
use manage_deploy.Dag.Nodes.{Store, stop_node}
use manage_deploy.Dag.Stop.Cover.{StopInv}
use manage_deploy.Dag.Stop.Loop.{
  StopPc, StopPhase, StopRun, StopTask, after_stop, calling, created, fill, finish_stop, finished,
  head, launch_stop, over, over_tasks, process, stop_at, stop_done, stop_fill, stop_node_async,
  stop_node_at, stop_process, stop_visit, stop_wait, visit, waiting,
}
use manage_deploy.Dag.Stop.Measure.{
  stop_done-less, stop_fill-less, stop_visit-less, stop_wait-less, stop_weight,
}
use manage_deploy.Dag.Stop.Turns.{
  StopTurns, launch_stop-StopTurns, same-StopTurns, stop_done-StopTurns, stop_visit-StopTurns,
}
use manage_deploy.Dag.Stop.Weights.{phase_weight, phases-set}

module _ (g : Graph) (i : ℕ) where
  -- A step has less before it, and keeps the turns.
  abbrev pub IsBelow : StopRun → StopRun → Type 0
  IsBelow r s = (stop_weight g i s < stop_weight g i r) × StopTurns g s

  back_to_head :
      (ds : List ℕ) (r : StopRun)
      → r.pc ≡ process ds
      → is_empty ds ≡ true
      → stop_weight g i (record r { pc = head }) < stop_weight g i r
  unfolding stop_weight
  back_to_head [] r p d = rw p (omega arith)
  back_to_head (d' ∷ ds) r p d = absurd (ground arith)

  -- A coroutine goes on to its next phase.
  phase-IsBelow :
      (k : ℕ) (r s : StopRun) (t u : StopTask)
      → get_elem? r.tasks k ≡ some t
      → phase_weight u.phase < phase_weight t.phase
      → s.stopped ≡ r.stopped
      → s.pending ≡ r.pending
      → s.running ≡ r.running
      → s.pc ≡ r.pc
      → s.tasks ≡ set r.tasks k u
      → StopTurns g r
      → IsBelow r s
  phase-IsBelow k r s t u got l a b c d e h =
      let sum = phases-set r.tasks k t u got in
      (
        unfold stop_weight in rw (a, b, c, d, e) (omega (arith, sum, l)),
        same-StopTurns g a b c (rw d h.visits) h,
      )

  task-IsBelow :
      (k : ℕ) (reply : AgentResult) (c : StopPhase) (r s : StopRun) (t : StopTask)
      → t.phase ≡ c
      → get_elem? r.tasks k ≡ some t
      → stop_node_at g k reply r t c ≡ some s
      → StopTurns g r
      → IsBelow r s
  unfolding stop_node_at after_stop
  task-IsBelow k reply created r s t p got e h =
      phase-IsBelow k r s t (record t { phase = calling }) got (rw p (omega arith)) (ground arith)
        (ground arith) (ground arith) (ground arith) (ground arith) h
  task-IsBelow k reply calling r s t p got e h =
      went (stop_node g t.node reply r.store) (ground arith)
    where
      went : (out : Store × Option Message) → after_stop r k t out ≡ s → IsBelow r s
      went (st, none) q =
          phase-IsBelow k r s t (record t { phase = over }) got (rw p (omega arith)) (ground arith)
            (ground arith) (ground arith) (ground arith) (ground arith) h
      went (st, some m) q =
          phase-IsBelow k r s t (record t { phase = over }) got (rw p (omega arith)) (ground arith)
            (ground arith) (ground arith) (ground arith) (ground arith) h
  task-IsBelow k reply over r s t p got e h = absurd (ground arith)

  pub async-IsBelow :
      (k : ℕ) (reply : AgentResult) (r s : StopRun)
      → stop_node_async g k reply r ≡ some s
      → StopTurns g r
      → IsBelow r s
  unfolding stop_node_async
  async-IsBelow k reply r s e h = elim (Option-cases (get_elem? r.tasks k)) [
    | inl q ↦ absurd (ground arith)
    | inr (t, q) ↦ task-IsBelow k reply t.phase r s t refl q (ground arith) h
  ]

  module _ (now choice : ℕ) where
    fill-IsBelow :
        (r s : StopRun)
        → r.pc ≡ fill
        → stop_fill g now choice r ≡ some s
        → StopTurns g r
        → StopTurns g s
    unfolding stop_fill finish_stop
    fill-IsBelow r s p e h =
        elim (Bool-cases (not (is_empty r.pending) && ltb (length r.running) 10)) [
          | inl c ↦ elim (Bool-cases (contains choice r.pending)) [
            | inl m ↦
                let same : launch_stop g choice r ≡ s = ground arith in
                rw (← same) (launch_stop-StopTurns g choice r p (ground arith) m h)
            | inr m ↦ absurd (ground arith)
          ]
          | inr c ↦ elim (Bool-cases (is_empty r.running)) [
            | inl d ↦
                let same : finish_stop now r ≡ s = ground arith in
                rw (← same) (same-StopTurns g refl refl refl tt h)
            | inr d ↦
                let same : record r { pc = waiting } ≡ s = ground arith in
                rw (← same) (same-StopTurns g refl refl refl tt h)
          ]
        ]

    pub stop_at-IsBelow :
        (c : StopPc) (r s : StopRun)
        → r.pc ≡ c
        → stop_at g i now choice c r ≡ some s
        → StopInv g i r
        → StopTurns g r
        → IsBelow r s
    unfolding stop_at finish_stop
    stop_at-IsBelow head r s p e inv h =
        elim (Bool-cases (is_empty r.pending && is_empty r.running)) [
          | inl d ↦
              let same : finish_stop now r ≡ s = ground arith in
              rw (← same)
                (unfold stop_weight in rw p (omega arith), same-StopTurns g refl refl refl tt h)
          | inr d ↦
              let same : record r { pc = fill } ≡ s = ground arith in
              rw (← same)
                (unfold stop_weight in rw p (omega arith), same-StopTurns g refl refl refl tt h)
        ]
    stop_at-IsBelow fill r s p e inv h =
        (stop_fill-less g i now choice r s p e, fill-IsBelow r s p e h)
    stop_at-IsBelow waiting r s p e inv h = (
      stop_wait-less g i r s p e h,
      unfold stop_wait in
          elim (Bool-cases (is_empty (over_tasks r.tasks r.running))) [
            | inl d ↦ absurd (ground arith)
            | inr d ↦
                let same : record r { pc = process (over_tasks r.tasks r.running) } ≡ s =
                  ground arith in
                rw (← same) (same-StopTurns g refl refl refl tt h)
          ],
    )
    stop_at-IsBelow (process ds) r s p e inv h =
        unfold stop_process in
        elim (Bool-cases (is_empty ds)) [
          | inl d ↦
              let same : record r { pc = head } ≡ s = ground arith in
              rw (← same) (back_to_head ds r p d, same-StopTurns g refl refl refl tt h)
          | inr d ↦ elim (Bool-cases (contains choice ds)) [
            | inl m ↦
                let same : stop_done g i choice (remove choice ds) r ≡ s = ground arith in
                rw (← same) (
                  stop_done-less g i choice ds r p m,
                  stop_done-StopTurns g i choice (remove choice ds) r inv h,
                )
            | inr m ↦ absurd (ground arith)
          ]
        ]
    stop_at-IsBelow (visit [] rest) r s p e inv h =
        let same : record r { pc = process rest } ≡ s = ground arith in
        rw (← same) (unfold stop_weight in rw p (omega arith), same-StopTurns g refl refl refl tt h)
    stop_at-IsBelow (visit (u ∷ us) rest) r s p e inv h =
        let same : stop_visit g i u us rest r ≡ s = ground arith in
        rw (← same) (stop_visit-less g i u us rest r p h, stop_visit-StopTurns g i u us rest r p h)
    stop_at-IsBelow finished r s p e inv h = absurd (ground arith)
