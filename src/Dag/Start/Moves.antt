-- ===== src/Dag/Start/Moves.antt =====
-- What a step of `execute_dag_start` (backend/services/dag_executor.py) does to the loop's
-- variables, by cases: the form in which the invariants are proved.
use manage_deploy.Common.{
  ℕ, ◌≡◌, refl, Bool, true, false, not, ◌&&◌, Option, none, some, List, [], ◌∷◌, arith, get_elem?,
  contains, add, remove, is_empty, if◌then◌else◌, Bool-cases, Option-cases, inl, inr, ltb, length,
  ◌⊎◌,
}
use manage_deploy.Dag.Graph.{Graph, NodeRow, ids}
use manage_deploy.Dag.Messages.{AgentResult, Message}
use manage_deploy.Dag.Nodes.{start_node, Store}
use manage_deploy.Dag.Start.State.{
  Phase, created, starting, checking, stopping, done, Task, Pc, head, fill, waiting, process, visit,
  rollback, finished, Run, Health, healthy, unhealthy, task_result,
}
use manage_deploy.Dag.Start.Loop.{
  leave, at_head, at_fill, at_wait, at_process, at_done, at_visit, at_rollback, launch, advance,
}
use manage_deploy.Dag.Start.Loop
use manage_deploy.Dag.Start.Monitor
use manage_deploy.Dag.Start.Monitor.{set_phase, start_and_monitor, after_start, after_health}

-- The downstream nodes that the loop still has to look at.
abbrev pub to_visit : Pc → List ℕ
to_visit (visit ds rest) = ids ds
to_visit _ = []

-- Nothing but the place and the store changes.
pub record Quiet (r s : Run) : Type 0 where
  pub started : s.started ≡ r.started
  pub failed : s.failed ≡ r.failed
  pub pending : s.pending ≡ r.pending
  pub tasks : s.tasks ≡ r.tasks
  pub running : s.running ≡ r.running
  pub visits : to_visit s.pc ≡ to_visit r.pc

pub data MainMove (g : Graph) (i : ℕ) (r s : Run) : Type 0 where
  quiet : Quiet r s → MainMove g i r s
  launched :
      (k : ℕ)
      → r.pc ≡ fill
      → contains k r.pending ≡ true
      → ltb (length r.running) 10 ≡ true
      → s ≡ launch g k r
      → MainMove g i r s
  processed :
      (ds : List ℕ) (k : ℕ) (success : Bool) (rest : List ℕ)
      → r.pc ≡ process ds
      → task_result r.tasks k ≡ some success
      → s ≡ at_done g i k success rest r
      → MainMove g i r s
  visited :
      (d : NodeRow) (ds : List NodeRow) (rest : List ℕ)
      → r.pc ≡ visit (d ∷ ds) rest
      → s ≡ at_visit g i d ds rest r
      → MainMove g i r s

leave-Quiet : (now : ℕ) (r : Run) → to_visit r.pc ≡ [] → Quiet r (leave now r)
unfolding leave
leave-Quiet now r e = ground arith

at_head-Quiet : (now : ℕ) (r : Run) → r.pc ≡ head → Quiet r (at_head now r)
unfolding at_head
at_head-Quiet now r e = ground (arith, leave-Quiet now r)

Quiet-cast : {r s t : Run} → s ≡ t → Quiet r s → Quiet r t
Quiet-cast e q = rw e at q

at_fill_rest : ℕ → Run → Run
at_fill_rest now r = if is_empty r.running then leave now r else record r { pc = waiting }

at_fill_rest-Quiet : (now : ℕ) (r : Run) → r.pc ≡ fill → Quiet r (at_fill_rest now r)
unfolding at_fill_rest
at_fill_rest-Quiet now r e = ground (arith, leave-Quiet now r)

at_fill_cases :
    (g : Graph) (now choice : ℕ) (r s : Run)
    → at_fill g now choice r ≡ some s
    → (contains choice r.pending ≡ true)
        × (ltb (length r.running) 10 ≡ true)
        × (s ≡ launch g choice r)
      ⊎ (at_fill_rest now r ≡ s)
unfolding at_fill at_fill_rest
at_fill_cases g now choice r s e =
    elim (Bool-cases (not (is_empty r.pending) && ltb (length r.running) 10)) [
      | inl c ↦ inl (ground arith, ground arith, ground arith)
      | inr c ↦ inr (ground arith)
    ]

at_fill-Move :
    (g : Graph) (i now choice : ℕ) (r s : Run)
    → r.pc ≡ fill
    → at_fill g now choice r ≡ some s
    → MainMove g i r s
at_fill-Move g i now choice r s p e = elim (at_fill_cases g now choice r s e) [
  | inl (m, l, q) ↦ launched choice p m l q
  | inr q ↦ quiet (Quiet-cast q (at_fill_rest-Quiet now r p))
]

at_wait-Quiet : (r s : Run) → r.pc ≡ waiting → at_wait r ≡ some s → Quiet r s
unfolding at_wait
at_wait-Quiet r s p e = ground arith

at_process-Move :
    (g : Graph) (i choice : ℕ) (ds : List ℕ) (r s : Run)
    → r.pc ≡ process ds
    → at_process g i choice ds r ≡ some s
    → MainMove g i r s
unfolding at_process
at_process-Move g i choice [] r s p e = quiet (ground arith)
at_process-Move g i choice (d ∷ ds) r s p e = elim (Option-cases (task_result r.tasks choice)) [
  | inl q ↦ absurd (ground arith)
  | inr (success, q) ↦ processed (d ∷ ds) choice success (remove choice (d ∷ ds)) p q (ground arith)
]

at_rollback-Quiet :
    (g : Graph) (reply : AgentResult) (choice : ℕ) (ks : List ℕ) (r : Run)
    → r.pc ≡ rollback ks
    → Quiet r (at_rollback g reply choice ks r)
unfolding at_rollback
at_rollback-Quiet g reply choice [] r p = ground arith
at_rollback-Quiet g reply choice (k ∷ ks) r p = ground arith

at_pc-Move :
    (g : Graph) (i now choice : ℕ) (reply : AgentResult) (c : Pc) (r s : Run)
    → r.pc ≡ c
    → Loop.at_pc g i now choice reply c r ≡ some s
    → MainMove g i r s
unfolding Loop.at_pc
at_pc-Move g i now choice reply head r s p e =
    quiet (Quiet-cast (ground arith) (at_head-Quiet now r p))
at_pc-Move g i now choice reply fill r s p e = at_fill-Move g i now choice r s p e
at_pc-Move g i now choice reply waiting r s p e = quiet (at_wait-Quiet r s p e)
at_pc-Move g i now choice reply (process ds) r s p e = at_process-Move g i choice ds r s p e
at_pc-Move g i now choice reply (visit [] rest) r s p e = quiet (ground arith)
at_pc-Move g i now choice reply (visit (d ∷ ds) rest) r s p e = visited d ds rest p (ground arith)
at_pc-Move g i now choice reply (rollback []) r s p e =
    quiet (Quiet-cast (ground arith) (at_rollback-Quiet g reply choice [] r p))
at_pc-Move g i now choice reply (rollback (k ∷ ks)) r s p e =
    quiet (Quiet-cast (ground arith) (at_rollback-Quiet g reply choice (k ∷ ks) r p))
at_pc-Move g i now choice reply (finished b) r s p e = absurd (ground arith)

pub advance-Move :
    (g : Graph) (i now choice : ℕ) (reply : AgentResult) (r s : Run)
    → advance g i now choice reply r ≡ some s
    → MainMove g i r s
unfolding advance
advance-Move g i now choice reply r s e = at_pc-Move g i now choice reply r.pc r s refl e

-- What a coroutine leaves alone.
pub record TaskFrame (r s : Run) : Type 0 where
  pub pending : s.pending ≡ r.pending
  pub running : s.running ≡ r.running
  pub pc : s.pc ≡ r.pc

-- A phase in which the coroutine has neither failed nor come to its end.
abbrev pub is_open : Phase → Bool
is_open created = true
is_open starting = true
is_open checking = true
is_open _ = false

pub data TaskMove (r s : Run) (k : ℕ) (t : Task) : Type 0 where
  went_on :
      (p : Phase)
      → is_open t.phase ≡ true
      → is_open p ≡ true
      → s.started ≡ r.started
      → s.failed ≡ r.failed
      → s.tasks ≡ set_phase r k t p
      → TaskMove r s k t
  went_ready :
      t.phase ≡ checking
      → s.started ≡ add t.node.id r.started
      → s.failed ≡ r.failed
      → s.tasks ≡ set_phase r k t (done true)
      → TaskMove r s k t
  went_wrong :
      (p : Phase)
      → (p ≡ stopping) ⊎ (p ≡ done false)
      → s.started ≡ r.started
      → s.failed ≡ add t.node.id r.failed
      → s.tasks ≡ set_phase r k t p
      → TaskMove r s k t
  stopped :
      t.phase ≡ stopping
      → s.started ≡ r.started
      → s.failed ≡ r.failed
      → s.tasks ≡ set_phase r k t (done false)
      → TaskMove r s k t

after_start-Move :
    (r s : Run) (k : ℕ) (t : Task) (out : Store × Option Message)
    → t.phase ≡ starting
    → after_start r k t out ≡ s
    → TaskFrame r s × TaskMove r s k t
unfolding after_start
after_start-Move r s k t (st, none) p e = (
  ground arith,
  went_on checking (ground arith) refl (ground arith) (ground arith) (ground arith),
)
after_start-Move r s k t (st, some m) p e =
    (ground arith, went_wrong (done false) (inr refl) (ground arith) (ground arith) (ground arith))

after_health-Move :
    (r s : Run) (k : ℕ) (t : Task) (verdict : Health)
    → t.phase ≡ checking
    → after_health r k t verdict ≡ s
    → TaskFrame r s × TaskMove r s k t
unfolding after_health
after_health-Move r s k t healthy p e =
    (ground arith, went_ready p (ground arith) (ground arith) (ground arith))
after_health-Move r s k t (unhealthy m) p e =
    (ground arith, went_wrong stopping (inl refl) (ground arith) (ground arith) (ground arith))

monitor-Move :
    (g : Graph) (i k : ℕ) (reply : AgentResult) (verdict : Health) (r s : Run) (t : Task)
    (p : Phase)
    → t.phase ≡ p
    → Monitor.monitor g i k reply verdict r t p ≡ some s
    → TaskFrame r s × TaskMove r s k t
unfolding Monitor.monitor
monitor-Move g i k reply verdict r s t created p e = (
  ground arith,
  went_on starting (ground arith) refl (ground arith) (ground arith) (ground arith),
)
monitor-Move g i k reply verdict r s t starting p e =
    after_start-Move r s k t (start_node g i t.node reply r.store) p (ground arith)
monitor-Move g i k reply verdict r s t checking p e =
    after_health-Move r s k t verdict p (ground arith)
monitor-Move g i k reply verdict r s t stopping p e =
    (ground arith, stopped p (ground arith) (ground arith) (ground arith))
monitor-Move g i k reply verdict r s t (done b) p e = absurd (ground arith)

pub start_and_monitor-Move :
    (g : Graph) (i k : ℕ) (reply : AgentResult) (verdict : Health) (r s : Run)
    → start_and_monitor g i k reply verdict r ≡ some s
    → (t : Task) × (get_elem? r.tasks k ≡ some t) × TaskFrame r s × TaskMove r s k t
unfolding start_and_monitor
start_and_monitor-Move g i k reply verdict r s e = elim (Option-cases (get_elem? r.tasks k)) [
  | inl q ↦ absurd (ground arith)
  | inr (t, q) ↦
      let (frame, move) = monitor-Move g i k reply verdict r s t t.phase refl (ground arith) in
      (t, q, frame, move)
]
