-- ===== src/Dag/Stop/Steps.antt =====
-- Every step of `execute_dag_stop` (backend/services/dag_executor.py) keeps the invariant of the stop.
use manage_deploy.Common.{
  Bool-cases, Each-get, Each-set, List, Option, Option-cases, [], arith, contains, get_elem?, inl,
  inr, is_empty, length, ltb, none, not, refl, remove, set, some, ℕ, ◌&&◌, ◌∷◌, ◌≡◌,
}
use manage_deploy.Dag.Graph.{Graph}
use manage_deploy.Dag.Messages.{AgentResult, Message}
use manage_deploy.Dag.Nodes.{Store, stop_node}
use manage_deploy.Dag.Stop.Cover.{
  StopInv, launch_stop-StopInv, same-StopInv, stop_done-StopInv, stop_ids, stop_ids-set,
  stop_visit-StopInv,
}
use manage_deploy.Dag.Stop.Loop.{
  StopPc, StopPhase, StopReach, StopRun, StopTask, after_stop, calling, created, fill, finish_stop,
  finished, head, here, launch_stop, main, next, over, over_tasks, process, stop_advance, stop_at,
  stop_done, stop_fill, stop_node_async, stop_node_at, stop_process, stop_visit, stop_wait, task,
  visit, waiting,
}

module _ (g : Graph) (i now choice : ℕ) where
  stop_fill-StopInv :
      (r s : StopRun)
      → r.pc ≡ fill
      → stop_fill g now choice r ≡ some s
      → StopInv g i r
      → StopInv g i s
  unfolding stop_fill finish_stop
  stop_fill-StopInv r s p e h =
      elim (Bool-cases (not (is_empty r.pending) && ltb (length r.running) 10)) [
        | inl c ↦ elim (Bool-cases (contains choice r.pending)) [
          | inl m ↦
              let same : launch_stop g choice r ≡ s = ground arith in
              rw (← same) (launch_stop-StopInv g i choice r m h)
          | inr m ↦ absurd (ground arith)
        ]
        | inr c ↦ elim (Bool-cases (is_empty r.running)) [
          | inl d ↦
              same-StopInv g i (ground arith) (ground arith) (ground arith) (ground arith)
                (ground arith) h
          | inr d ↦
              same-StopInv g i (ground arith) (ground arith) (ground arith) (ground arith)
                (ground arith) h
        ]
      ]

  stop_process-StopInv :
      (ds : List ℕ) (r s : StopRun)
      → r.pc ≡ process ds
      → stop_process g i choice ds r ≡ some s
      → StopInv g i r
      → StopInv g i s
  unfolding stop_process
  stop_process-StopInv ds r s p e h = elim (Bool-cases (is_empty ds)) [
    | inl d ↦
        same-StopInv g i (ground arith) (ground arith) (ground arith) (ground arith) (ground arith)
          h
    | inr d ↦ elim (Bool-cases (contains choice ds)) [
      | inl m ↦
          let same : stop_done g i choice (remove choice ds) r ≡ s = ground arith in
          rw (← same) (stop_done-StopInv g i choice ds (remove choice ds) r p h)
      | inr m ↦ absurd (ground arith)
    ]
  ]

  stop_at-StopInv :
      (c : StopPc) (r s : StopRun)
      → r.pc ≡ c
      → stop_at g i now choice c r ≡ some s
      → StopInv g i r
      → StopInv g i s
  unfolding stop_at finish_stop
  stop_at-StopInv head r s p e h = elim (Bool-cases (is_empty r.pending && is_empty r.running)) [
    | inl d ↦
        same-StopInv g i (ground arith) (ground arith) (ground arith) (ground arith) (ground arith)
          h
    | inr d ↦
        same-StopInv g i (ground arith) (ground arith) (ground arith) (ground arith) (ground arith)
          h
  ]
  stop_at-StopInv fill r s p e h = stop_fill-StopInv r s p e h
  stop_at-StopInv waiting r s p e h =
      unfold stop_wait in
      elim (Bool-cases (is_empty (over_tasks r.tasks r.running))) [
        | inl d ↦ absurd (ground arith)
        | inr d ↦
            same-StopInv g i (ground arith) (ground arith) (ground arith) (ground arith)
              (ground arith) h
      ]
  stop_at-StopInv (process ds) r s p e h = stop_process-StopInv ds r s p e h
  stop_at-StopInv (visit [] rest) r s p e h =
      same-StopInv g i (ground arith) (ground arith) (ground arith) (ground arith) (ground arith) h
  stop_at-StopInv (visit (u ∷ us) rest) r s p e h =
      let same : stop_visit g i u us rest r ≡ s = ground arith in
      rw (← same) (stop_visit-StopInv g i u us rest r p h)
  stop_at-StopInv finished r s p e h = absurd (ground arith)

  pub stop_advance-StopInv :
      (r s : StopRun) → stop_advance g i now choice r ≡ some s → StopInv g i r → StopInv g i s
  unfolding stop_advance
  stop_advance-StopInv r s e h = stop_at-StopInv r.pc r s refl e h

-- A coroutine changes the store and its own phase.
phase-StopInv :
    (g : Graph) (i k : ℕ) (r s : StopRun) (t : StopTask) (p : StopPhase)
    → get_elem? r.tasks k ≡ some t
    → s.stopped ≡ r.stopped
    → s.pending ≡ r.pending
    → s.running ≡ r.running
    → s.pc ≡ r.pc
    → s.tasks ≡ set r.tasks k (record t { phase = p })
    → StopInv g i r
    → StopInv g i s
phase-StopInv g i k r s t p got a b c d e h =
    let same : stop_ids s.tasks ≡ stop_ids r.tasks = rw e (stop_ids-set r.tasks t k p got) in
    record {
      pending_free = λ j m. rw a (h.pending_free j (rw b at m));
      tasks_free =
          rw (a, e) (Each-set _ r.tasks k _ h.tasks_free (Each-get _ r.tasks k got h.tasks_free));
      tasked = λ j. rw (same, a, c) (h.tasked j);
      all_covered = λ j m f. rw (b, same, d) (h.all_covered j m (rw a at f));
    }

module _ (g : Graph) (i k : ℕ) (reply : AgentResult) where
  stop_node_at-StopInv :
      (c : StopPhase) (r s : StopRun) (t : StopTask)
      → get_elem? r.tasks k ≡ some t
      → stop_node_at g k reply r t c ≡ some s
      → StopInv g i r
      → StopInv g i s
  unfolding stop_node_at after_stop
  stop_node_at-StopInv created r s t got e h =
      phase-StopInv g i k r s t calling got (ground arith) (ground arith) (ground arith)
        (ground arith) (ground arith) h
  stop_node_at-StopInv calling r s t got e h =
      went (stop_node g t.node reply r.store) (ground arith)
    where
      went : (out : Store × Option Message) → after_stop r k t out ≡ s → StopInv g i s
      went (st, none) q =
          phase-StopInv g i k r s t over got (ground arith) (ground arith) (ground arith)
            (ground arith) (ground arith) h
      went (st, some m) q =
          phase-StopInv g i k r s t over got (ground arith) (ground arith) (ground arith)
            (ground arith) (ground arith) h
  stop_node_at-StopInv over r s t got e h = absurd (ground arith)

  pub stop_node_async-StopInv :
      (r s : StopRun) → stop_node_async g k reply r ≡ some s → StopInv g i r → StopInv g i s
  unfolding stop_node_async
  stop_node_async-StopInv r s e h = elim (Option-cases (get_elem? r.tasks k)) [
    | inl q ↦ absurd (ground arith)
    | inr (t, q) ↦ stop_node_at-StopInv t.phase r s t q (ground arith) h
  ]

pub StopReach-StopInv :
    {g : Graph} {i : ℕ} {r s : StopRun} → StopReach g i r s → StopInv g i r → StopInv g i s
StopReach-StopInv here h = h
StopReach-StopInv {g} {i} (next {s} {t} p (main now choice e)) h =
    stop_advance-StopInv g i now choice s t e (StopReach-StopInv p h)
StopReach-StopInv {g} {i} (next {s} {t} p (task k reply e)) h =
    stop_node_async-StopInv g i k reply s t e (StopReach-StopInv p h)
