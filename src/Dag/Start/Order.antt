-- ===== src/Dag/Start/Order.antt =====
-- Dependencies come first in `execute_dag_start` (backend/services/dag_executor.py): an invariant
-- of every interleaving of its loop.
use manage_deploy.Common.{
  &&-true, ==_iff, Bool, Bool-cases, Each, Each-append, Each-get, Each-imp, Each-set, List,
  Option-cases, add, all_in, all_in-add, arith, contains, contains-add, contains-remove, false,
  get_elem?, inl, inr, not, refl, remove, some, true, ℕ, ◌&&◌, ◌==◌, ◌≡◌, ◌⊎◌,
}
use manage_deploy.Dag.Graph.{Graph, NodeRow, get_node_by_id, upstream_ids}
use manage_deploy.Dag.Graph.Lookup.{get_node_by_id-id}
use manage_deploy.Dag.Start.Entry.{Reach, Step, here, main, next, task}
use manage_deploy.Dag.Start.Loop.{at_done, at_visit, launch}
use manage_deploy.Dag.Start.Monitor.{set_phase}
use manage_deploy.Dag.Start.Moves.{
  MainMove, TaskFrame, TaskMove, advance-Move, launched, processed, quiet, start_and_monitor-Move,
  stopped, visited, went_on, went_ready, went_wrong,
}
use manage_deploy.Dag.Start.State.{Phase, Run, Task, done, find_key}

-- Every upstream node has been started.
abbrev pub IsReady : Graph → ℕ → List ℕ → ℕ → Type 0
IsReady g i started k = all_in (upstream_ids g i k) started ≡ true

pub record IsOrdered (g : Graph) (i : ℕ) (r : Run) : Type 0 where
  pub pending_ready : (k : ℕ) → contains k r.pending ≡ true → IsReady g i r.started k
  pub tasks_ready : Each (λ t. IsReady g i r.started t.node.id) r.tasks

module _ (g : Graph) (i : ℕ) where
  IsOrdered-same :
      {r s : Run}
      → s.started ≡ r.started
      → s.pending ≡ r.pending
      → s.tasks ≡ r.tasks
      → IsOrdered g i r
      → IsOrdered g i s
  IsOrdered-same a b c h = record {
    pending_ready = λ k m. rw a (h.pending_ready k (rw b at m));
    tasks_ready = rw (a, c) h.tasks_ready;
  }

  launch-IsOrdered :
      (k : ℕ) (r : Run)
      → contains k r.pending ≡ true
      → IsOrdered g i r
      → IsOrdered g i (launch g k r)
  unfolding launch
  launch-IsOrdered k r m h = elim (Option-cases (get_node_by_id g k)) [
    | inl q ↦
        rw (q, launch)
          (record {
            pending_ready = λ j mj. h.pending_ready j (remove_sub j mj);
            tasks_ready = h.tasks_ready;
          })
    | inr (n, q) ↦
        rw (q, launch)
          (record {
            pending_ready = λ j mj. h.pending_ready j (remove_sub j mj);
            tasks_ready =
                Each-append _ r.tasks _ h.tasks_ready
                  (rw (get_node_by_id-id g k n q) (h.pending_ready k m), tt);
          })
  ]
    where
      remove_sub : (j : ℕ) → contains j (remove k r.pending) ≡ true → contains j r.pending ≡ true
      remove_sub j mj = ground (arith, contains-remove j k r.pending)

  at_done-IsOrdered :
      (k : ℕ) (success : Bool) (rest : List ℕ) (r : Run)
      → IsOrdered g i r
      → IsOrdered g i (at_done g i k success rest r)
  unfolding at_done
  at_done-IsOrdered k success rest r h = elim (Option-cases (find_key k r.running)) [
    | inl q ↦ rw (q, at_done) (IsOrdered-same refl refl refl h)
    | inr (n, q) ↦ rw (q, at_done) (IsOrdered-same refl refl refl h)
  ]

  at_visit-IsOrdered :
      (d : NodeRow) (ds : List NodeRow) (rest : List ℕ) (r : Run)
      → IsOrdered g i r
      → IsOrdered g i (at_visit g i d ds rest r)
  unfolding at_visit
  at_visit-IsOrdered d ds rest r h =
      elim (Bool-cases
        (all_in (upstream_ids g i d.id) r.started && not (contains d.id r.started))) [
          | inl q ↦
              rw (q, at_visit)
                (record {
                  pending_ready = λ j mj. added (&&-true _ _ q).0 j (Bool-cases (j == d.id)) mj;
                  tasks_ready = h.tasks_ready;
                })
          | inr q ↦ rw (q, at_visit) (IsOrdered-same refl refl refl h)
        ]
    where
      added :
          IsReady g i r.started d.id
          → (j : ℕ) → ((j == d.id) ≡ true) ⊎ ((j == d.id) ≡ false)
          → contains j (add d.id r.pending) ≡ true
          → IsReady g i r.started j
      added upstream j (inl e) mj = rw ((==_iff j d.id).0 e) upstream
      added upstream j (inr e) mj =
          h.pending_ready j (ground (arith, contains-add j d.id r.pending))

  MainMove-IsOrdered : {r s : Run} → MainMove g i r s → IsOrdered g i r → IsOrdered g i s
  MainMove-IsOrdered (quiet q) h = IsOrdered-same q.started q.pending q.tasks h
  MainMove-IsOrdered (launched k p m l e) h = rw e (launch-IsOrdered k _ m h)
  MainMove-IsOrdered (processed ds k success rest p q e) h =
      rw e (at_done-IsOrdered k success rest _ h)
  MainMove-IsOrdered (visited d ds rest p e) h = rw e (at_visit-IsOrdered d ds rest _ h)

  -- The task list and the set of started nodes as a coroutine leaves them.
  IsOrdered-task :
      {r s : Run} (k : ℕ) (t : Task) (p : Phase)
      → get_elem? r.tasks k ≡ some t
      → ((j : ℕ) → IsReady g i r.started j → IsReady g i s.started j)
      → s.pending ≡ r.pending
      → s.tasks ≡ set_phase r k t p
      → IsOrdered g i r
      → IsOrdered g i s
  IsOrdered-task {r} {s} k t p got grows e f h = record {
    pending_ready = λ j m. grows j (h.pending_ready j (rw e at m));
    tasks_ready = rw f (
        Each-set _ r.tasks k _ (Each-imp r.tasks (λ u. grows u.node.id) h.tasks_ready)
          (grows t.node.id (Each-get _ r.tasks k got h.tasks_ready)));
  }

  TaskMove-IsOrdered :
      {r s : Run} (k : ℕ) (t : Task)
      → get_elem? r.tasks k ≡ some t
      → TaskFrame r s
      → TaskMove r s k t
      → IsOrdered g i r
      → IsOrdered g i s
  TaskMove-IsOrdered k t got f (went_on p _ _ a _ c) h =
      IsOrdered-task k t p got (λ j m. rw a m) f.pending c h
  TaskMove-IsOrdered {r} k t got f (went_ready _ a _ c) h =
      IsOrdered-task k t (done true) got
        (λ j m. rw a (all_in-add (upstream_ids g i j) r.started t.node.id m)) f.pending c h
  TaskMove-IsOrdered k t got f (went_wrong p _ a _ c) h =
      IsOrdered-task k t p got (λ j m. rw a m) f.pending c h
  TaskMove-IsOrdered k t got f (stopped _ a _ c) h =
      IsOrdered-task k t (done false) got (λ j m. rw a m) f.pending c h

  pub Step-IsOrdered : {r s : Run} → Step g i r s → IsOrdered g i r → IsOrdered g i s
  Step-IsOrdered {r} {s} (main now choice reply e) h =
      MainMove-IsOrdered (advance-Move g i now choice reply r s e) h
  Step-IsOrdered {r} {s} (task k reply verdict e) h =
      let (t, got, frame, move) = start_and_monitor-Move g i k reply verdict r s e in
      TaskMove-IsOrdered k t got frame move h

  pub Reach-IsOrdered : {r s : Run} → Reach g i r s → IsOrdered g i r → IsOrdered g i s
  Reach-IsOrdered here h = h
  Reach-IsOrdered (next p st) h = Step-IsOrdered st (Reach-IsOrdered p h)
