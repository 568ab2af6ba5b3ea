-- ===== src/Dag/Start/Outcome.antt =====
-- What `execute_dag_start` (backend/services/dag_executor.py) has done when it returns, whatever
-- the interleaving of its coroutines and the answers of the agent.
use manage_deploy.Common.{
  ==_iff, Bool-cases, Each, Each-and, Each-get, List, [], all_in, all_in-intro, ap, arith, contains,
  contains-add, false, get_elem?, inl, inr, is_empty, keys, meets, refl, some, suc, sym, true, zero,
  ℕ, ◌<◌, ◌==◌, ◌||◌, ◌∙◌, ◌∷◌, ◌≡◌,
}
use manage_deploy.Dag.Graph.{
  EdgeRow, Graph, edges_of, get_all_instance_nodes, get_root_nodes, ids, upstream_ids,
}
use manage_deploy.Dag.Graph.Neighbours.{
  IsRanked, IsWellFormed, root_of_no_upstream, upstream-root, upstream_ids_edge,
}
use manage_deploy.Dag.Messages.{AgentResult}
use manage_deploy.Dag.Nodes.{Store}
use manage_deploy.Dag.Start.Cover.{IsCovered, covered, phase_ok}
use manage_deploy.Dag.Start.Cover.Coroutine.{TaskMove-IsCovered}
use manage_deploy.Dag.Start.Cover.Main.{MainMove-IsCovered}
use manage_deploy.Dag.Start.Entry.{Reach, Step, first_run, here, main, next, task}
use manage_deploy.Dag.Start.Idle.{IsIdle, advance-IsIdle, advance-started}
use manage_deploy.Dag.Start.Loop.{advance}
use manage_deploy.Dag.Start.Moves.{advance-Move, start_and_monitor-Move, to_visit}
use manage_deploy.Dag.Start.Order.{IsOrdered, IsReady, Reach-IsOrdered}
use manage_deploy.Dag.Start.State.{Phase, Run, Task, finished, to_set}
use manage_deploy.Dag.Start.Tasks.{task_ids}

pub contains-to_set : (xs : List ℕ) (k : ℕ) → contains k (to_set xs) ≡ contains k xs
contains-to_set [] k = refl
contains-to_set (x ∷ xs) k =
    contains-add k x (to_set xs) ∙ ap (λ b. k == x || b) (contains-to_set xs k)

module _ (g : Graph) (i : ℕ) (st : Store) where
  first_run-IsOrdered : IsOrdered g i (first_run g i st)
  first_run-IsOrdered = record {
    pending_ready = λ k m.
        let root : contains k (ids (get_root_nodes g i)) ≡ true =
          sym (contains-to_set (ids (get_root_nodes g i)) k) ∙ m in
        rw (upstream-root g i k root);
    tasks_ready = tt;
  }

  first_run-IsCovered : IsWellFormed g i → IsCovered g i (first_run g i st)
  first_run-IsCovered wf = record {
    tasks_ok = tt;
    started_tasked = λ k m. absurd (ground arith);
    running_tasked = tt;
    all_covered = λ k m e d.
        let root = root_of_no_upstream g i k wf m d in
        let there : contains k (to_set (ids (get_root_nodes g i))) ≡ true =
          contains-to_set (ids (get_root_nodes g i)) k ∙ root in
        ground arith;
  }

module _ (g : Graph) (i : ℕ) where
  Step-IsCovered : {r s : Run} → Step g i r s → IsCovered g i r → IsCovered g i s
  Step-IsCovered {r} {s} (main now choice reply e) h =
      MainMove-IsCovered g i (advance-Move g i now choice reply r s e) h
  Step-IsCovered {r} {s} (task k reply verdict e) h =
      let (t, got, frame, move) = start_and_monitor-Move g i k reply verdict r s e in
      TaskMove-IsCovered g i k t got frame move h

  Reach-IsCovered : {r s : Run} → Reach g i r s → IsCovered g i r → IsCovered g i s
  Reach-IsCovered here h = h
  Reach-IsCovered (next p step) h = Step-IsCovered step (Reach-IsCovered p h)

-- In every interleaving of the start of an instance, each coroutine that was ever created works on
-- a node all of whose upstream nodes had come up before: they are among the started ones.
pub upstream_first :
    (g : Graph) (i : ℕ) (st : Store) (r : Run) (k : ℕ) (t : Task)
    → Reach g i (first_run g i st) r
    → get_elem? r.tasks k ≡ some t
    → all_in (upstream_ids g i t.node.id) r.started ≡ true
upstream_first g i st r k t p e =
    Each-get _ r.tasks k e (Reach-IsOrdered g i p (first_run-IsOrdered g i st)).tasks_ready

started_of_task :
    (started failed waits : List ℕ) (ts : List Task) (k : ℕ)
    → Each (λ t. phase_ok started failed waits t.node.id t.phase ≡ true) ts
    → is_empty failed ≡ true
    → is_empty waits ≡ true
    → contains k (task_ids ts) ≡ true
    → contains k started ≡ true
started_of_task started failed waits [] k h a b m = absurd (ground arith)
started_of_task started failed waits (t ∷ ts) k h a b m = elim (Bool-cases (k == t.node.id)) [
  | inl e ↦ rw ((==_iff k t.node.id).0 e) (came_up waits t.phase h.0 b)
  | inr e ↦ started_of_task started failed waits ts k h.1 a b (ground arith)
]
  where
    came_up :
        (waits : List ℕ) (p : Phase)
        → phase_ok started failed waits t.node.id p ≡ true
        → is_empty waits ≡ true
        → contains t.node.id started ≡ true
    came_up [] p o b = ground arith
    came_up (w ∷ ws) p o b = absurd (ground arith)

keys-is_empty : (m : List (ℕ × ℕ)) → is_empty m ≡ true → is_empty (keys m) ≡ true
keys-is_empty [] h = refl
keys-is_empty (x ∷ m) h = absurd (ground arith)

abbrev RisesInside : Graph → ℕ → (ℕ → ℕ) → EdgeRow → Type 0
RisesInside g i rank e =
    (contains e.from_node_id (ids (get_all_instance_nodes g i)) ≡ true)
    × (rank e.from_node_id < rank e.to_node_id)

module _ (g : Graph) (i : ℕ) (rank : ℕ → ℕ) (r : Run) (h : IsCovered g i r) (idle : IsIdle r)
    (wf : IsWellFormed g i) (ranked : IsRanked g i rank) where
  started_when_idle :
      (k : ℕ)
      → contains k (ids (get_all_instance_nodes g i)) ≡ true
      → IsReady g i r.started k
      → contains k r.started ≡ true
  started_when_idle k m d =
      let c = h.all_covered k m idle.no_failed d in
      started_of_task r.started r.failed (keys r.running) r.tasks k h.tasks_ok idle.no_failed
        (keys-is_empty r.running idle.no_running) (has_task c)
    where
      meets-nil : (xs ys : List ℕ) → is_empty ys ≡ true → meets xs ys ≡ false
      meets-nil [] ys e = refl
      meets-nil (x ∷ xs) [] e = meets-nil xs [] e
      meets-nil (x ∷ xs) (y ∷ ys) e = absurd (ground arith)

      contains-empty : (ys : List ℕ) → is_empty ys ≡ true → contains k ys ≡ false
      contains-empty [] e = refl
      contains-empty (y ∷ ys) e = absurd (ground arith)

      has_task : covered g i r k ≡ true → contains k (task_ids r.tasks) ≡ true
      has_task c =
          let visits : contains k (to_visit r.pc) ≡ false = rw idle.no_visits refl in
          ground (
            arith,
            meets-nil (upstream_ids g i k) (keys r.running)
                (keys-is_empty r.running idle.no_running),
            contains-empty r.pending idle.no_pending,
            visits,
            c,
          )

  -- By induction on a bound of the rank.
  all_started :
      (bound k : ℕ)
      → rank k < bound
      → contains k (ids (get_all_instance_nodes g i)) ≡ true
      → contains k r.started ≡ true
  all_started zero k b m = absurd (omega arith)
  all_started (suc bound) k b m =
      let below = all_started bound in
      started_when_idle k m (
        all_in-intro (upstream_ids g i k) r.started (λ u up.
          step below u
            (upstream_ids_edge g i _ u k (Each-and _ _ (edges_of g.edges i) wf ranked) up)))
    where
      step :
          ((j : ℕ)
            → rank j < bound
            → contains j (ids (get_all_instance_nodes g i)) ≡ true
            → contains j r.started ≡ true)
          → (u : ℕ)
          → (e : EdgeRow) × (e.from_node_id ≡ u) × (e.to_node_id ≡ k) × RisesInside g i rank e
          → contains u r.started ≡ true
      step below u (e, from, to, (inside, rises)) =
          let lower : rank u < rank k = rw (from, to) at rises in
          below u (omega arith) (rw from at inside)

-- When the start of an instance with an acyclic graph succeeds, in whatever interleaving, every
-- node of the instance has come up and none has failed. The edges start at nodes of the instance.
pub running_all_ready :
    (g : Graph) (i : ℕ) (rank : ℕ → ℕ) (st : Store) (r s : Run) (now choice : ℕ)
    (reply : AgentResult)
    → IsWellFormed g i
    → IsRanked g i rank
    → Reach g i (first_run g i st) r
    → advance g i now choice reply r ≡ some s
    → s.pc ≡ finished true
    → (is_empty r.failed ≡ true) × (all_in (ids (get_all_instance_nodes g i)) s.started ≡ true)
running_all_ready g i rank st r s now choice reply wf ranked p e f =
    let idle = advance-IsIdle g i now choice reply r s e f in
    let cover = Reach-IsCovered g i p (first_run-IsCovered g i st wf) in
    (
      idle.no_failed,
      rw (advance-started g i now choice reply r s e) (
          all_in-intro (ids (get_all_instance_nodes g i)) r.started
            (λ k m. all_started g i rank r cover idle wf ranked (suc (rank k)) k (omega arith) m)),
    )
