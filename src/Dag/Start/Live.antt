-- ===== src/Dag/Start/Live.antt =====
-- What keeps `execute_dag_start` (backend/services/dag_executor.py) going: the loop waits only for
-- tasks that exist, and goes over tasks that are done.
use manage_deploy.Common.{
  Bool, Bool-cases, Each, Each-delete, Each-imp, Each-put, List, Option, Option-cases, [], all_in,
  ap, arith, contains, delete, false, get_elem?, if◌then◌else◌, inl, inr, is_empty, is_none, length,
  length-append, length-set, ltb, none, not, refl, remove, set, some, suc, true, zero, ℕ, ◌&&◌,
  ◌++◌, ◌<◌, ◌==◌, ◌∙◌, ◌∷◌, ◌≡◌,
}
use manage_deploy.Dag.Graph.{Graph, NodeRow, get_downstream_nodes, get_node_by_id, upstream_ids}
use manage_deploy.Dag.Messages.{AgentResult, Message}
use manage_deploy.Dag.Nodes.{Store, start_node}
use manage_deploy.Dag.Start.Entry.{Reach, here, main, next, task}
use manage_deploy.Dag.Start.Loop.{
  advance, at_done, at_fill, at_head, at_pc, at_process, at_rollback, at_visit, at_wait, launch,
  leave,
}
use manage_deploy.Dag.Start.Monitor.{
  after_health, after_start, monitor, set_phase, start_and_monitor,
}
use manage_deploy.Dag.Start.State.{
  Health, Pc, Phase, Run, Task, checking, created, done, done_tasks, fill, find_key, finished, head,
  healthy, process, result_of, rollback, starting, stopping, task_result, unhealthy, visit, waiting,
}

-- The loop waits only for something.
abbrev pub waits_ok : Pc → List (ℕ × ℕ) → Bool
waits_ok waiting m = not (is_empty m)
waits_ok _ m = true

-- The tasks that the loop has still to go over.
abbrev pub to_process : Pc → List ℕ
to_process (process ds) = ds
to_process (visit us rest) = rest
to_process _ = []

abbrev pub IsOver : List Task → ℕ → Type 0
IsOver ts k = is_none (task_result ts k) ≡ false

-- The entries of `running` name tasks, and what is still to be gone over is done.
pub record IsLive (r : Run) : Type 0 where
  pub valid : Each (λ q. q.1 < length r.tasks) r.running
  pub waits : waits_ok r.pc r.running ≡ true
  pub over : Each (IsOver r.tasks) (to_process r.pc)

same-IsLive :
    {r s : Run}
    → s.tasks ≡ r.tasks
    → s.running ≡ r.running
    → waits_ok s.pc r.running ≡ true
    → Each (IsOver r.tasks) (to_process s.pc)
    → IsLive r
    → IsLive s
same-IsLive a b w o h = record { valid = rw (a, b) h.valid; waits = rw b w; over = rw a o }

done_tasks-IsOver : (ts : List Task) (m : List (ℕ × ℕ)) → Each (IsOver ts) (done_tasks ts m)
done_tasks-IsOver ts [] = tt
done_tasks-IsOver ts ((k, t) ∷ m) = elim (Bool-cases (is_none (task_result ts t))) [
  | inl e ↦ rw e (done_tasks-IsOver ts m)
  | inr e ↦ rw e (e, done_tasks-IsOver ts m)
]

Each-remove : (P : ℕ → Type 0) (k : ℕ) (xs : List ℕ) → Each P xs → Each P (remove k xs)
Each-remove P k [] h = h
Each-remove P k (x ∷ xs) h = elim (Bool-cases (k == x)) [
  | inl e ↦ rw e (Each-remove P k xs h.1)
  | inr e ↦ rw e (h.0, Each-remove P k xs h.1)
]

task_result-append : (ts : List Task) (t : Task) (k : ℕ) → IsOver ts k → IsOver (ts ++ t ∷ []) k
task_result-append [] t k h = absurd (ground arith)
task_result-append (u ∷ ts) t zero h = h
task_result-append (u ∷ ts) t (suc k) h = task_result-append ts t k h

task_result-set :
    (ts : List Task) (k : ℕ) (t u : Task) (j : ℕ)
    → get_elem? ts k ≡ some t
    → result_of t.phase ≡ none
    → IsOver ts j
    → IsOver (set ts k u) j
task_result-set [] k t u j got e h = h
task_result-set (x ∷ ts) zero t u zero got e h = absurd (ground arith)
task_result-set (x ∷ ts) zero t u (suc j) got e h = h
task_result-set (x ∷ ts) (suc k) t u zero got e h = h
task_result-set (x ∷ ts) (suc k) t u (suc j) got e h = task_result-set ts k t u j got e h

module _ (g : Graph) (i now choice : ℕ) (reply : AgentResult) where
  launch-IsLive : (k : ℕ) (r : Run) → r.pc ≡ fill → IsLive r → IsLive (launch g k r)
  unfolding launch
  launch-IsLive k r p h = elim (Option-cases (get_node_by_id g k)) [
    | inl q ↦ rw (q, launch) (record { valid = h.valid; waits = h.waits; over = h.over })
    | inr (n, q) ↦
        rw (q, launch)
          (record {
            valid =
                let longer = length-append r.tasks (record { node = n; phase = created } ∷ []) in
                Each-put _ r.running k (length r.tasks)
                  (Each-imp r.running (λ q b. omega (arith, longer, b)) h.valid)
                  (omega (arith, longer));
            waits = rw p refl;
            over = rw p tt;
          })
  ]

  leave-IsLive : (r : Run) → IsLive r → IsLive (leave now r)
  unfolding leave
  leave-IsLive r h = elim (Bool-cases (is_empty r.failed)) [
    | inl e ↦ rw (e, leave) (record { valid = h.valid; waits = refl; over = tt })
    | inr e ↦ rw (e, leave) (record { valid = h.valid; waits = refl; over = tt })
  ]

  at_fill-IsLive : (r s : Run) → r.pc ≡ fill → at_fill g now choice r ≡ some s → IsLive r → IsLive s
  unfolding at_fill
  at_fill-IsLive r s p e h =
      elim (Bool-cases (not (is_empty r.pending) && ltb (length r.running) 10)) [
        | inl c ↦ elim (Bool-cases (contains choice r.pending)) [
          | inl m ↦
              let same : launch g choice r ≡ s = ground arith in
              rw (← same) (launch-IsLive choice r p h)
          | inr m ↦ absurd (ground arith)
        ]
        | inr c ↦ elim (Bool-cases (is_empty r.running)) [
          | inl d ↦ let same : leave now r ≡ s = ground arith in rw (← same) (leave-IsLive r h)
          | inr d ↦
              let same : record r { pc = waiting } ≡ s = ground arith in
              rw (← same) (record { valid = h.valid; waits = ground arith; over = tt })
        ]
      ]

  at_done-IsLive :
      (u : ℕ) (success : Bool) (rest : List ℕ) (r : Run)
      → Each (IsOver r.tasks) rest
      → IsLive r
      → IsLive (at_done g i u success rest r)
  unfolding at_done
  at_done-IsLive u success rest r o h = elim (Option-cases (find_key u r.running)) [
    | inl q ↦ rw (q, at_done) (record { valid = h.valid; waits = refl; over = o })
    | inr (k, q) ↦ rw (q, at_done) (by_result k success)
  ]
    where
      by_result :
          (k : ℕ) (b : Bool)
          → IsLive (record r {
            running = delete k r.running;
            pc = if b then visit (get_downstream_nodes g i k) rest else process rest;
          })
      by_result k true = record {
        valid = Each-delete _ r.running k h.valid;
        waits = refl;
        over = o;
      }
      by_result k false = record {
        valid = Each-delete _ r.running k h.valid;
        waits = refl;
        over = o;
      }

  at_process-IsLive :
      (ds : List ℕ) (r s : Run)
      → r.pc ≡ process ds
      → at_process g i choice ds r ≡ some s
      → IsLive r
      → IsLive s
  unfolding at_process
  at_process-IsLive ds r s p e h = elim (Bool-cases (is_empty ds)) [
    | inl d ↦ same-IsLive (ground arith) (ground arith) (ground arith) (after_all d) h
    | inr d ↦ elim (Bool-cases (contains choice ds)) [
      | inl m ↦ elim (Option-cases (task_result r.tasks choice)) [
        | inl q ↦ absurd (ground arith)
        | inr (success, q) ↦
            let same : at_done g i choice success (remove choice ds) r ≡ s = ground arith in
            rw (← same) (
              at_done-IsLive choice success (remove choice ds) r
                (Each-remove (IsOver r.tasks) choice ds (rw p at h.over)) h)
      ]
      | inr m ↦ absurd (ground arith)
    ]
  ]
    where
      after_all : is_empty ds ≡ true → Each (IsOver r.tasks) (to_process s.pc)
      after_all d = let next : s.pc ≡ head = ground arith in rw next tt

  at_visit-IsLive :
      (d : NodeRow) (ds : List NodeRow) (rest : List ℕ) (r : Run)
      → Each (IsOver r.tasks) rest
      → IsLive r
      → IsLive (at_visit g i d ds rest r)
  unfolding at_visit
  at_visit-IsLive d ds rest r o h =
      elim (Bool-cases
        (all_in (upstream_ids g i d.id) r.started && not (contains d.id r.started))) [
          | inl q ↦ rw (q, at_visit) (record { valid = h.valid; waits = refl; over = o })
          | inr q ↦ rw (q, at_visit) (record { valid = h.valid; waits = refl; over = o })
        ]

  at_head-IsLive : (r : Run) → IsLive r → IsLive (at_head now r)
  unfolding at_head
  at_head-IsLive r h =
      elim (Bool-cases (is_empty r.failed && not (is_empty r.pending && is_empty r.running))) [
        | inl e ↦
            let same : record r { pc = fill } ≡ at_head now r = ground arith in
            rw (← same) (record { valid = h.valid; waits = refl; over = tt })
        | inr e ↦
            let same : leave now r ≡ at_head now r = ground arith in rw (← same) (leave-IsLive r h)
      ]

  at_wait-IsLive : (r s : Run) → at_wait r ≡ some s → IsLive r → IsLive s
  unfolding at_wait
  at_wait-IsLive r s e h = elim (Bool-cases (is_empty (done_tasks r.tasks r.running))) [
    | inl d ↦ absurd (ground arith)
    | inr d ↦
        let same : record r { pc = process (done_tasks r.tasks r.running) } ≡ s = ground arith in
        rw (← same)
          (record { valid = h.valid; waits = refl; over = done_tasks-IsOver r.tasks r.running })
  ]

  at_pc-IsLive :
      (c : Pc) (r s : Run)
      → r.pc ≡ c
      → at_pc g i now choice reply c r ≡ some s
      → IsLive r
      → IsLive s
  unfolding at_pc
  at_pc-IsLive head r s p e h =
      let same : at_head now r ≡ s = ground arith in rw (← same) (at_head-IsLive r h)
  at_pc-IsLive fill r s p e h = at_fill-IsLive r s p e h
  at_pc-IsLive waiting r s p e h = at_wait-IsLive r s e h
  at_pc-IsLive (process ds) r s p e h = at_process-IsLive ds r s p e h
  at_pc-IsLive (visit [] rest) r s p e h =
      let same : record r { pc = process rest } ≡ s = ground arith in
      rw (← same) (record { valid = h.valid; waits = refl; over = rw p at h.over })
  at_pc-IsLive (visit (d ∷ ds) rest) r s p e h =
      let same : at_visit g i d ds rest r ≡ s = ground arith in
      rw (← same) (at_visit-IsLive d ds rest r (rw p at h.over) h)
  at_pc-IsLive (rollback []) r s p e h =
      let same : at_rollback g reply choice [] r ≡ s = ground arith in
      rw (← same) (unfold at_rollback in record { valid = h.valid; waits = refl; over = tt })
  at_pc-IsLive (rollback (k ∷ ks)) r s p e h =
      let same : at_rollback g reply choice (k ∷ ks) r ≡ s = ground arith in
      rw (← same) (unfold at_rollback in record { valid = h.valid; waits = refl; over = tt })
  at_pc-IsLive (finished b) r s p e h = absurd (ground arith)

phase-IsLive :
    (k : ℕ) (r s : Run) (t : Task) (p : Phase)
    → get_elem? r.tasks k ≡ some t
    → result_of t.phase ≡ none
    → s.tasks ≡ set_phase r k t p
    → s.running ≡ r.running
    → s.pc ≡ r.pc
    → IsLive r
    → IsLive s
phase-IsLive k r s t p got open_phase a b c h =
    let same : length s.tasks ≡ length r.tasks = ap length a ∙ length-set r.tasks k _ in
    record {
      valid = rw (b, same) h.valid;
      waits = rw (b, c) h.waits;
      over =
          rw (a, c)
            (Each-imp (to_process r.pc) (λ j o. task_result-set r.tasks k t _ j got open_phase o)
              h.over);
    }

module _ (g : Graph) (i k : ℕ) (reply : AgentResult) (verdict : Health) where
  monitor-IsLive :
      (c : Phase) (r s : Run) (t : Task)
      → get_elem? r.tasks k ≡ some t
      → t.phase ≡ c
      → monitor g i k reply verdict r t c ≡ some s
      → IsLive r
      → IsLive s
  unfolding monitor
  monitor-IsLive created r s t got p e h =
      phase-IsLive k r s t starting got (rw p refl) (ground arith) (ground arith) (ground arith) h
  monitor-IsLive starting r s t got p e h =
      went (start_node g i t.node reply r.store) (ground arith)
    where
      went : (out : Store × Option Message) → after_start r k t out ≡ s → IsLive s
      went (st, none) q =
          unfold after_start in
          phase-IsLive k r s t checking got (rw p refl) (ground arith) (ground arith) (ground arith)
            h
      went (st, some m) q =
          unfold after_start in
          phase-IsLive k r s t (done false) got (rw p refl) (ground arith) (ground arith)
            (ground arith) h
  monitor-IsLive checking r s t got p e h = judged verdict (ground arith)
    where
      judged : (v : Health) → after_health r k t v ≡ s → IsLive s
      judged healthy q =
          unfold after_health in
          phase-IsLive k r s t (done true) got (rw p refl) (ground arith) (ground arith)
            (ground arith) h
      judged (unhealthy m) q =
          unfold after_health in
          phase-IsLive k r s t stopping got (rw p refl) (ground arith) (ground arith) (ground arith)
            h
  monitor-IsLive stopping r s t got p e h =
      phase-IsLive k r s t (done false) got (rw p refl) (ground arith) (ground arith) (ground arith)
        h
  monitor-IsLive (done b) r s t got p e h = absurd (ground arith)

  start_and_monitor-IsLive :
      (r s : Run) → start_and_monitor g i k reply verdict r ≡ some s → IsLive r → IsLive s
  unfolding start_and_monitor
  start_and_monitor-IsLive r s e h = elim (Option-cases (get_elem? r.tasks k)) [
    | inl q ↦ absurd (ground arith)
    | inr (t, q) ↦ monitor-IsLive t.phase r s t q refl (ground arith) h
  ]

pub Reach-IsLive : {g : Graph} {i : ℕ} {r s : Run} → Reach g i r s → IsLive r → IsLive s
unfolding advance
Reach-IsLive here h = h
Reach-IsLive {g} {i} (next {s} {t} p (main now choice reply e)) h =
    at_pc-IsLive g i now choice reply s.pc s t refl e (Reach-IsLive p h)
Reach-IsLive {g} {i} (next {s} {t} p (task k reply verdict e)) h =
    start_and_monitor-IsLive g i k reply verdict s t e (Reach-IsLive p h)
