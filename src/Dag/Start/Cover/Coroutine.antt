-- ===== src/Dag/Start/Cover/Coroutine.antt =====
-- The moves of a coroutine `start_and_monitor` (backend/services/dag_executor.py) forget no node.
use manage_deploy.Common.{
  ==_iff, Bool-cases, Each, Each-get, Each-imp, Each-set, List, add, all_in-add_cases, ap, arith,
  contains, contains-add, false, get_elem?, inl, inr, is_empty, is_empty-add, keys, meets-intro,
  not, refl, some, true, ℕ, ◌==◌, ◌||◌, ◌∙◌, ◌≡◌, ◌⊎◌,
}
use manage_deploy.Dag.Graph.{Graph, get_all_instance_nodes, ids, upstream_ids}
use manage_deploy.Dag.Start.Cover.{IsCovered, covered, phase_ok}
use manage_deploy.Dag.Start.Monitor.{set_phase}
use manage_deploy.Dag.Start.Moves.{
  TaskFrame, TaskMove, is_open, stopped, went_on, went_ready, went_wrong,
}
use manage_deploy.Dag.Start.Order.{IsReady}
use manage_deploy.Dag.Start.State.{Phase, Run, Task, checking, done, stopping}
use manage_deploy.Dag.Start.Tasks.{node_at, node_at-set, task_ids, task_ids-set, task_ids_get}

phase_ok-open :
    (started failed waits : List ℕ) (k : ℕ) (p q : Phase)
    → is_open p ≡ true
    → is_open q ≡ true
    → phase_ok started failed waits k p ≡ true
    → phase_ok started failed waits k q ≡ true
phase_ok-open started failed waits k p q a b h = ground arith

-- A node is added to those started.
phase_ok-started :
    (started failed waits : List ℕ) (b k : ℕ) (p : Phase)
    → phase_ok started failed waits k p ≡ true
    → phase_ok (add b started) failed waits k p ≡ true
phase_ok-started started failed waits b k p h = ground (arith, contains-add k b started)

-- A node is added to those failed.
phase_ok-failed :
    (started failed waits : List ℕ) (b k : ℕ) (p : Phase)
    → phase_ok started failed waits k p ≡ true
    → phase_ok started (add b failed) waits k p ≡ true
phase_ok-failed started failed waits b k p h = ground (arith, is_empty-add b failed)

module _ (g : Graph) (i : ℕ) {r s : Run} (k : ℕ) (t : Task) (p : Phase)
    (got : get_elem? r.tasks k ≡ some t) (f : TaskFrame r s) (set : s.tasks ≡ set_phase r k t p)
    (h : IsCovered g i r) where
  ids_same : task_ids s.tasks ≡ task_ids r.tasks
  ids_same = ap task_ids set ∙ task_ids-set t r.tasks k p got

  running_same : Each (λ q. node_at s.tasks q.1 ≡ some q.0) s.running
  running_same =
      rw (f.running, set)
        (Each-imp r.running (λ q e. node_at-set t r.tasks k p q.1 got ∙ e) h.running_tasked)

  -- The other columns decide: the phases stay right, and a node that becomes ready is covered.
  changed-IsCovered :
      ((j : ℕ) (q : Phase)
        → phase_ok r.started r.failed (keys r.running) j q ≡ true
        → phase_ok s.started s.failed (keys r.running) j q ≡ true)
      → phase_ok s.started s.failed (keys r.running) t.node.id p ≡ true
      → ((j : ℕ) → contains j s.started ≡ true → (contains j r.started ≡ true) ⊎ (j ≡ t.node.id))
      → ((j : ℕ)
          → contains j (ids (get_all_instance_nodes g i)) ≡ true
          → is_empty s.failed ≡ true
          → IsReady g i s.started j
          → covered g i r j ≡ true)
      → IsCovered g i s
  changed-IsCovered keep now grown cover = record {
    tasks_ok =
        rw (f.running, set)
          (Each-set _ r.tasks k _ (Each-imp r.tasks (λ u. keep u.node.id u.phase) h.tasks_ok) now);
    started_tasked = λ j m. rw ids_same (elim (grown j m) [
      | inl old ↦ h.started_tasked j old
      | inr new ↦ rw new (task_ids_get t r.tasks k got)
    ]);
    running_tasked = running_same;
    all_covered = λ j m e d. rw (f.pending, ids_same, f.running, f.pc) (cover j m e d);
  }

module _ (g : Graph) (i : ℕ) where
  -- A node newly ready hangs below the node that was started.
  ready_below :
      (r : Run) (k j : ℕ)
      → (contains k (keys r.running) || contains k r.started || not (is_empty r.failed)) ≡ true
      → IsCovered g i r
      → contains j (ids (get_all_instance_nodes g i)) ≡ true
      → is_empty r.failed ≡ true
      → IsReady g i (add k r.started) j
      → covered g i r j ≡ true
  ready_below r k j w h m e d = elim (Bool-cases (contains k r.started)) [
    | inl old ↦ h.all_covered j m e (rw old at d)
    | inr new ↦ elim (all_in-add_cases (upstream_ids g i j) r.started k d) [
      | inl up ↦
          let both = meets-intro (upstream_ids g i j) (keys r.running) k up (ground arith) in
          ground arith
      | inr same ↦ h.all_covered j m e same
    ]
  ]

  pub TaskMove-IsCovered :
      {r s : Run} (k : ℕ) (t : Task)
      → get_elem? r.tasks k ≡ some t
      → TaskFrame r s
      → TaskMove r s k t
      → IsCovered g i r
      → IsCovered g i s
  TaskMove-IsCovered {r} {s} k t got f (went_on p open_t open_p a b c) h =
      changed-IsCovered g i k t p got f c h (λ j q o. rw (a, b) o)
        (rw (a, b)
          (phase_ok-open r.started r.failed (keys r.running) t.node.id t.phase p open_t open_p
            (Each-get _ r.tasks k got h.tasks_ok)))
        (λ j m. inl (rw a at m)) (λ j m e d. h.all_covered j m (rw b at e) (rw a at d))
  TaskMove-IsCovered {r} {s} k t got f (went_ready q a b c) h =
      changed-IsCovered g i k t (done true) got f c h
        (λ j p o. rw (a, b) (phase_ok-started r.started r.failed (keys r.running) t.node.id j p o))
        (rw a (ground (arith, contains-add t.node.id t.node.id r.started)))
        (λ j m. added j (Bool-cases (j == t.node.id)) (rw a at m))
        (λ j m e d. ready_below r t.node.id j waits h m (rw b at e) (rw a at d))
    where
      added :
          (j : ℕ)
          → ((j == t.node.id) ≡ true) ⊎ ((j == t.node.id) ≡ false)
          → contains j (add t.node.id r.started) ≡ true
          → (contains j r.started ≡ true) ⊎ (j ≡ t.node.id)
      added j (inl e) m = inr ((==_iff j t.node.id).0 e)
      added j (inr e) m = inl (ground (arith, contains-add j t.node.id r.started))

      waits :
          (contains t.node.id (keys r.running)
            || contains t.node.id r.started
            || not (is_empty r.failed))
          ≡ true
      waits =
          phase_ok-open r.started r.failed (keys r.running) t.node.id t.phase checking
            (ground arith) refl (Each-get _ r.tasks k got h.tasks_ok)
  TaskMove-IsCovered {r} {s} k t got f (went_wrong p w a b c) h =
      changed-IsCovered g i k t p got f c h
        (λ j q o. rw (a, b) (phase_ok-failed r.started r.failed (keys r.running) t.node.id j q o))
        (wrong w) (λ j m. inl (rw a at m))
        (λ j m e d. absurd (ground (arith, is_empty-add t.node.id r.failed)))
    where
      wrong :
          (p ≡ stopping) ⊎ (p ≡ done false)
          → phase_ok s.started s.failed (keys r.running) t.node.id p ≡ true
      wrong w = ground (arith, is_empty-add t.node.id r.failed)
  TaskMove-IsCovered {r} {s} k t got f (stopped q a b c) h =
      changed-IsCovered g i k t (done false) got f c h (λ j p o. rw (a, b) o)
        (rw b (over (Each-get _ r.tasks k got h.tasks_ok))) (λ j m. inl (rw a at m))
        (λ j m e d. h.all_covered j m (rw b at e) (rw a at d))
    where
      over :
          phase_ok r.started r.failed (keys r.running) t.node.id t.phase ≡ true
          → not (is_empty r.failed) ≡ true
      over o = ground arith
