-- ===== src/Dag/Stop/Live.antt =====
-- What keeps `execute_dag_stop` (backend/services/dag_executor.py) going: the loop waits only for
-- tasks that exist.
use manage_deploy.Common.{
  Bool, Bool-cases, Each, Each-delete, Each-imp, Each-put, List, Option, Option-cases, [], ap,
  arith, contains, get_elem?, inl, inr, is_empty, length, length-append, length-set, ltb, none, not,
  refl, remove, set, some, true, ℕ, ◌&&◌, ◌<◌, ◌∙◌, ◌∷◌, ◌≡◌,
}
use manage_deploy.Dag.Graph.{Graph, get_node_by_id}
use manage_deploy.Dag.Messages.{AgentResult, Message}
use manage_deploy.Dag.Nodes.{Store, stop_node}
use manage_deploy.Dag.Start.State.{find_key}
use manage_deploy.Dag.Stop.Loop.{
  StopPc, StopPhase, StopReach, StopRun, StopTask, after_stop, calling, created, fill, finish_stop,
  finished, head, here, launch_stop, main, next, over, process, stop_advance, stop_at, stop_done,
  stop_fill, stop_node_async, stop_node_at, stop_process, stop_visit, stop_wait, task, visit,
  waiting,
}

-- The loop waits only for something.
abbrev pub waits_ok : StopPc → List (ℕ × ℕ) → Bool
waits_ok waiting m = not (is_empty m)
waits_ok _ m = true

-- The entries of `running` name tasks.
pub record StopLive (r : StopRun) : Type 0 where
  pub valid : Each (λ q. q.1 < length r.tasks) r.running
  pub waits : waits_ok r.pc r.running ≡ true

same-StopLive :
    {r s : StopRun}
    → s.tasks ≡ r.tasks
    → s.running ≡ r.running
    → waits_ok s.pc r.running ≡ true
    → StopLive r
    → StopLive s
same-StopLive a b w h = record { valid = rw (a, b) h.valid; waits = rw b w }

module _ (g : Graph) (i now choice : ℕ) where
  launch_stop-StopLive :
      (k : ℕ) (r : StopRun) → r.pc ≡ fill → StopLive r → StopLive (launch_stop g k r)
  unfolding launch_stop
  launch_stop-StopLive k r p h = elim (Option-cases (get_node_by_id g k)) [
    | inl q ↦ rw (q, launch_stop) (record { valid = h.valid; waits = rw p refl })
    | inr (n, q) ↦
        rw (q, launch_stop)
          (record {
            valid =
                let longer = length-append r.tasks (record { node = n; phase = created } ∷ []) in
                Each-put _ r.running k (length r.tasks)
                  (Each-imp r.running (λ q b. omega (arith, longer, b)) h.valid)
                  (omega (arith, longer));
            waits = rw p refl;
          })
  ]

  stop_fill-StopLive :
      (r s : StopRun) → r.pc ≡ fill → stop_fill g now choice r ≡ some s → StopLive r → StopLive s
  unfolding stop_fill finish_stop
  stop_fill-StopLive r s p e h =
      elim (Bool-cases (not (is_empty r.pending) && ltb (length r.running) 10)) [
        | inl c ↦ elim (Bool-cases (contains choice r.pending)) [
          | inl m ↦
              let same : launch_stop g choice r ≡ s = ground arith in
              rw (← same) (launch_stop-StopLive choice r p h)
          | inr m ↦ absurd (ground arith)
        ]
        | inr c ↦ same-StopLive (ground arith) (ground arith) (ground arith) h
      ]

  stop_done-StopLive :
      (u : ℕ) (rest : List ℕ) (r : StopRun) → StopLive r → StopLive (stop_done g i u rest r)
  unfolding stop_done
  stop_done-StopLive u rest r h = elim (Option-cases (find_key u r.running)) [
    | inl q ↦ rw (q, stop_done) (record { valid = h.valid; waits = refl })
    | inr (k, q) ↦
        rw (q, stop_done) (record { valid = Each-delete _ r.running k h.valid; waits = refl })
  ]

  stop_at-StopLive :
      (c : StopPc) (r s : StopRun)
      → r.pc ≡ c
      → stop_at g i now choice c r ≡ some s
      → StopLive r
      → StopLive s
  unfolding stop_at finish_stop
  stop_at-StopLive head r s p e h = same-StopLive (ground arith) (ground arith) (ground arith) h
  stop_at-StopLive fill r s p e h = stop_fill-StopLive r s p e h
  stop_at-StopLive waiting r s p e h =
      unfold stop_wait in same-StopLive (ground arith) (ground arith) (ground arith) h
  stop_at-StopLive (process ds) r s p e h =
      unfold stop_process in
      elim (Bool-cases (is_empty ds)) [
        | inl d ↦ same-StopLive (ground arith) (ground arith) (ground arith) h
        | inr d ↦ elim (Bool-cases (contains choice ds)) [
          | inl m ↦
              let same : stop_done g i choice (remove choice ds) r ≡ s = ground arith in
              rw (← same) (stop_done-StopLive choice (remove choice ds) r h)
          | inr m ↦ absurd (ground arith)
        ]
      ]
  stop_at-StopLive (visit [] rest) r s p e h =
      same-StopLive (ground arith) (ground arith) (ground arith) h
  stop_at-StopLive (visit (u ∷ us) rest) r s p e h =
      unfold stop_visit in same-StopLive (ground arith) (ground arith) (ground arith) h
  stop_at-StopLive finished r s p e h = absurd (ground arith)

phase-StopLive :
    (k : ℕ) (r s : StopRun) (t : StopTask)
    → s.tasks ≡ set r.tasks k t
    → s.running ≡ r.running
    → s.pc ≡ r.pc
    → StopLive r
    → StopLive s
phase-StopLive k r s t a b c h =
    let same : length s.tasks ≡ length r.tasks = ap length a ∙ length-set r.tasks k t in
    record { valid = rw (b, same) h.valid; waits = rw (b, c) h.waits }

module _ (g : Graph) (k : ℕ) (reply : AgentResult) where
  stop_node_at-StopLive :
      (c : StopPhase) (r s : StopRun) (t : StopTask)
      → stop_node_at g k reply r t c ≡ some s
      → StopLive r
      → StopLive s
  unfolding stop_node_at after_stop
  stop_node_at-StopLive created r s t e h =
      phase-StopLive k r s (record t { phase = calling }) (ground arith) (ground arith)
        (ground arith) h
  stop_node_at-StopLive calling r s t e h = went (stop_node g t.node reply r.store) (ground arith)
    where
      went : (out : Store × Option Message) → after_stop r k t out ≡ s → StopLive s
      went (st, none) q =
          phase-StopLive k r s (record t { phase = over }) (ground arith) (ground arith)
            (ground arith) h
      went (st, some m) q =
          phase-StopLive k r s (record t { phase = over }) (ground arith) (ground arith)
            (ground arith) h
  stop_node_at-StopLive over r s t e h = absurd (ground arith)

  stop_node_async-StopLive :
      (r s : StopRun) → stop_node_async g k reply r ≡ some s → StopLive r → StopLive s
  unfolding stop_node_async
  stop_node_async-StopLive r s e h = elim (Option-cases (get_elem? r.tasks k)) [
    | inl q ↦ absurd (ground arith)
    | inr (t, q) ↦ stop_node_at-StopLive t.phase r s t (ground arith) h
  ]

pub StopReach-StopLive :
    {g : Graph} {i : ℕ} {r s : StopRun} → StopReach g i r s → StopLive r → StopLive s
unfolding stop_advance
StopReach-StopLive here h = h
StopReach-StopLive {g} {i} (next {s} {t} p (main now choice e)) h =
    stop_at-StopLive g i now choice s.pc s t refl e (StopReach-StopLive p h)
StopReach-StopLive {g} {i} (next {s} {t} p (task k reply e)) h =
    stop_node_async-StopLive g k reply s t e (StopReach-StopLive p h)
