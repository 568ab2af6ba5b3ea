-- ===== src/Dag/Start/Cover/Main.antt =====
-- The moves of the loop of `execute_dag_start` (backend/services/dag_executor.py) forget no node.
use manage_deploy.Common.{
  ==_iff, Bool, Bool-cases, Each-append, Each-delete, Each-get, Each-imp, Each-put, List,
  Option-cases, [], all_in, arith, contains, contains-add, contains-keys-delete,
  contains-keys-delete_ne, contains-keys-put, contains-remove, delete, false, get_elem?,
  if◌then◌else◌, inl, inr, is_empty, keys, length, meets, meets-drop, meets_mono, none, not, put,
  remove, some, true, ℕ, ◌&&◌, ◌++◌, ◌==◌, ◌||◌, ◌∷◌, ◌≡◌, ◌⊎◌, ◌∙◌, ap,
}
use manage_deploy.Dag.Graph.{
  Graph, NodeRow, get_all_instance_nodes, get_downstream_nodes, get_node_by_id, ids, upstream_ids,
}
use manage_deploy.Dag.Graph.Lookup.{get_node_by_id-id, get_node_by_id-some}
use manage_deploy.Dag.Graph.Neighbours.{downstream_of_upstream, instance_nodes-in_table}
use manage_deploy.Dag.Start.Cover.{IsCovered, covered, phase_ok}
use manage_deploy.Dag.Start.Loop.{at_done, at_visit, launch}
use manage_deploy.Dag.Start.Moves.{MainMove, Quiet, launched, processed, quiet, visited}
use manage_deploy.Dag.Start.Order.{IsReady}
use manage_deploy.Dag.Start.State.{
  Phase, Run, Task, checking, created, done, fill, find_key, process, result_of, starting, stopping,
  task_result, visit,
}
use manage_deploy.Dag.Start.Tasks.{
  find_key-Each, node_at, node_at-append, node_at_end, task_ids-append,
}

-- A larger set of waiting nodes.
phase_ok-waits :
    (started failed ys zs : List ℕ) (k : ℕ) (p : Phase)
    → ((a : ℕ) → contains a ys ≡ true → contains a zs ≡ true)
    → phase_ok started failed ys k p ≡ true
    → phase_ok started failed zs k p ≡ true
phase_ok-waits started failed ys zs k (done true) f h = h
phase_ok-waits started failed ys zs k (done false) f h = h
phase_ok-waits started failed ys zs k stopping f h = h
phase_ok-waits started failed ys zs k p f h = elim (Bool-cases (contains k ys)) [
  | inl m ↦ let n = f k m in ground arith
  | inr m ↦ ground arith
]

-- A key is deleted whose node has a result.
phase_ok-delete :
    (started failed : List ℕ) (b : ℕ) (m : List (ℕ × ℕ)) (k : ℕ) (p : Phase)
    → (contains b started || not (is_empty failed)) ≡ true
    → phase_ok started failed (keys m) k p ≡ true
    → phase_ok started failed (keys (delete b m)) k p ≡ true
phase_ok-delete started failed b m k (done true) e h = h
phase_ok-delete started failed b m k (done false) e h = h
phase_ok-delete started failed b m k stopping e h = h
phase_ok-delete started failed b m k p e h = elim (Bool-cases (k == b)) [
  | inl q ↦
      let same : k ≡ b = (==_iff k b).0 q in
      let known : (contains k started || not (is_empty failed)) ≡ true = rw same e in ground arith
  | inr q ↦ rw (contains-keys-delete_ne k b m q) h
]

module _ (g : Graph) (i : ℕ) where
  Quiet-IsCovered : {r s : Run} → Quiet r s → IsCovered g i r → IsCovered g i s
  Quiet-IsCovered q h = record {
    tasks_ok = rw (q.started, q.failed, q.running, q.tasks) h.tasks_ok;
    started_tasked = λ k m. rw q.tasks (h.started_tasked k (rw q.started at m));
    running_tasked = rw (q.running, q.tasks) h.running_tasked;
    all_covered = λ k m e d.
        rw (q.pending, q.tasks, q.running, q.visits)
          (h.all_covered k m (rw q.failed at e) (rw q.started at d));
  }

  launch_some-IsCovered :
      (k : ℕ) (n : NodeRow) (r : Run)
      → n.id ≡ k
      → r.pc ≡ fill
      → IsCovered g i r
      → IsCovered g i (record r {
        pending = remove k r.pending;
        tasks = r.tasks ++ record { node = n; phase = created } ∷ [];
        running = put k (length r.tasks) r.running;
      })
  launch_some-IsCovered k n r same p h = record {
    tasks_ok =
        Each-append _ r.tasks _
          (Each-imp r.tasks
            (λ t. phase_ok-waits r.started r.failed (keys r.running) _ t.node.id t.phase grows)
            h.tasks_ok)
          (fresh, tt);
    started_tasked = λ j m. rw (task_ids-append t r.tasks j) (or_left _ (h.started_tasked j m));
    running_tasked =
        Each-put _ r.running k (length r.tasks)
          (Each-imp r.running (λ q. node_at-append t r.tasks q.1 q.0) h.running_tasked)
          (node_at_end t r.tasks ∙ ap some same);
    all_covered = λ j m e d. moved j (h.all_covered j m e d);
  }
    where
      t : Task
      t = record { node = n; phase = created }

      or_left : {a : Bool} (b : Bool) → a ≡ true → (a || b) ≡ true
      or_left {a} b e = ground arith

      grows :
          (a : ℕ)
          → contains a (keys r.running) ≡ true
          → contains a (keys (put k (length r.tasks) r.running)) ≡ true
      grows a m = ground (arith, contains-keys-put {0} a k (length r.tasks) r.running)

      fresh :
          phase_ok r.started r.failed (keys (put k (length r.tasks) r.running)) n.id created ≡ true
      fresh = rw same (ground (arith, contains-keys-put {0} k k (length r.tasks) r.running))

      moved :
          (j : ℕ)
          → covered g i r j ≡ true
          → covered g i
              (record r {
                pending = remove k r.pending;
                tasks = r.tasks ++ t ∷ [];
                running = put k (length r.tasks) r.running;
              })
              j
            ≡ true
      moved j c = elim (Bool-cases (meets (upstream_ids g i j) (keys r.running))) [
        | inl m ↦
            let m' =
              meets_mono (upstream_ids g i j) (keys r.running)
                (keys (put k (length r.tasks) r.running)) grows m in
            ground arith
        | inr m ↦ ground (arith, contains-remove j k r.pending, task_ids-append t r.tasks j, same)
      ]

  launch-IsCovered :
      (k : ℕ) (r : Run) → r.pc ≡ fill → IsCovered g i r → IsCovered g i (launch g k r)
  unfolding launch
  launch-IsCovered k r p h = elim (Option-cases (get_node_by_id g k)) [
    | inl q ↦
        rw (q, launch)
          (record {
            tasks_ok = h.tasks_ok;
            started_tasked = h.started_tasked;
            running_tasked = h.running_tasked;
            all_covered = λ j m e d.
                let c = h.all_covered j m e d in
                let other = missing q j m in ground (arith, contains-remove j k r.pending);
          })
    | inr (n, q) ↦ rw (q, launch) (launch_some-IsCovered k n r (get_node_by_id-id g k n q) p h)
  ]
    where
      missing :
          get_node_by_id g k ≡ none
          → (j : ℕ) → contains j (ids (get_all_instance_nodes g i)) ≡ true
          → (j == k) ≡ false
      missing q j m = elim (Bool-cases (j == k)) [
        | inl e ↦
            let (n, found) = get_node_by_id-some g j (instance_nodes-in_table g i j m) in
            let same : j ≡ k = (==_iff j k).0 e in
            let none_there : get_node_by_id g j ≡ none = rw same q in cc
        | inr e ↦ e
      ]

  result-phase_ok :
      (r : Run) (u : ℕ) (success : Bool) (k : ℕ)
      → task_result r.tasks u ≡ some success
      → node_at r.tasks u ≡ some k
      → IsCovered g i r
      → (if success then contains k r.started else not (is_empty r.failed)) ≡ true
  result-phase_ok r u success k e n h = elim (Option-cases (get_elem? r.tasks u)) [
    | inl q ↦ absurd (ground arith)
    | inr (t, q) ↦
        let good = Each-get _ r.tasks u q h.tasks_ok in
        let same : t.node.id ≡ k = ground arith in
        by_phase t.node.id k success t.phase same (ground arith) good
  ]
    where
      by_phase :
          (j k : ℕ) (success : Bool) (p : Phase)
          → j ≡ k
          → result_of p ≡ some success
          → phase_ok r.started r.failed (keys r.running) j p ≡ true
          → (if success then contains k r.started else not (is_empty r.failed)) ≡ true
      by_phase j k success (done true) same e good =
          let here : contains j r.started ≡ true = good in
          let yes_success : success ≡ true = ground arith in rw (yes_success, ← same) here
      by_phase j k success (done false) same e good = ground arith
      by_phase j k success created same e good = absurd (ground arith)
      by_phase j k success starting same e good = absurd (ground arith)
      by_phase j k success checking same e good = absurd (ground arith)
      by_phase j k success stopping same e good = absurd (ground arith)

  at_done_some-IsCovered :
      (u : ℕ) (success : Bool) (ds rest : List ℕ) (k : ℕ) (r : Run)
      → r.pc ≡ process ds
      → (if success then contains k r.started else not (is_empty r.failed)) ≡ true
      → IsCovered g i r
      → IsCovered g i (record r {
        running = delete k r.running;
        pc = if success then visit (get_downstream_nodes g i k) rest else process rest;
      })
  at_done_some-IsCovered u success ds rest k r p e h = record {
    tasks_ok =
        Each-imp r.tasks
          (λ t.
            phase_ok-delete r.started r.failed k r.running t.node.id t.phase (settled success e))
          h.tasks_ok;
    started_tasked = h.started_tasked;
    running_tasked = Each-delete _ r.running k h.running_tasked;
    all_covered = λ j m f d. moved success e j m f (h.all_covered j m f d);
  }
    where
      settled :
          (b : Bool)
          → (if b then contains k r.started else not (is_empty r.failed)) ≡ true
          → (contains k r.started || not (is_empty r.failed)) ≡ true
      settled true e = ground arith
      settled false e = ground arith

      moved :
          (b : Bool)
          → (if b then contains k r.started else not (is_empty r.failed)) ≡ true
          → (j : ℕ) → contains j (ids (get_all_instance_nodes g i)) ≡ true
          → is_empty r.failed ≡ true
          → covered g i r j ≡ true
          → covered g i
              (record r {
                running = delete k r.running;
                pc = if b then visit (get_downstream_nodes g i k) rest else process rest;
              })
              j
            ≡ true
      moved false e j m f c = absurd (ground arith)
      moved true e j m f c = elim (Bool-cases (meets (upstream_ids g i j) (keys r.running))) [
        | inl both ↦
            elim (meets-drop (upstream_ids g i j) (keys r.running) (keys (delete k r.running)) k
              (λ a. contains-keys-delete a k r.running) both) [
                | inl up ↦
                    let down =
                      downstream_of_upstream g i k j (instance_nodes-in_table g i j m) up in
                    ground arith
                | inr still ↦ ground arith
              ]
        | inr apart ↦ ground arith
      ]

  at_done-IsCovered :
      (u : ℕ) (success : Bool) (ds rest : List ℕ) (r : Run)
      → r.pc ≡ process ds
      → task_result r.tasks u ≡ some success
      → IsCovered g i r
      → IsCovered g i (at_done g i u success rest r)
  unfolding at_done
  at_done-IsCovered u success ds rest r p e h = elim (Option-cases (find_key u r.running)) [
    | inl q ↦ rw (q, at_done) (Quiet-IsCovered (ground arith) h)
    | inr (k, q) ↦
        rw (q, at_done)
          (at_done_some-IsCovered u success ds rest k r p
            (result-phase_ok r u success k e (find_key-Each _ r.running u k q h.running_tasked) h)
            h)
  ]

  at_visit-IsCovered :
      (d : NodeRow) (ds : List NodeRow) (rest : List ℕ) (r : Run)
      → r.pc ≡ visit (d ∷ ds) rest
      → IsCovered g i r
      → IsCovered g i (at_visit g i d ds rest r)
  unfolding at_visit
  at_visit-IsCovered d ds rest r p h =
      elim (Bool-cases
        (all_in (upstream_ids g i d.id) r.started && not (contains d.id r.started))) [
          | inl q ↦
              rw (q, at_visit)
                (record {
                  tasks_ok = h.tasks_ok;
                  started_tasked = h.started_tasked;
                  running_tasked = h.running_tasked;
                  all_covered = λ j m e f.
                      let c = h.all_covered j m e f in
                      ground (arith, contains-add j d.id r.pending);
                })
          | inr q ↦
              rw (q, at_visit)
                (record {
                  tasks_ok = h.tasks_ok;
                  started_tasked = h.started_tasked;
                  running_tasked = h.running_tasked;
                  all_covered =
                      λ j m e f. passed q j f (h.all_covered j m e f) (Bool-cases (j == d.id));
                })
        ]
    where
      passed :
          (all_in (upstream_ids g i d.id) r.started && not (contains d.id r.started)) ≡ false
          → (j : ℕ) → IsReady g i r.started j
          → covered g i r j ≡ true
          → ((j == d.id) ≡ true) ⊎ ((j == d.id) ≡ false)
          → covered g i (record r { pc = visit ds rest }) j ≡ true
      passed q j f c (inl e) =
          let upstream : all_in (upstream_ids g i d.id) r.started ≡ true =
            rw ((==_iff j d.id).0 e) at f in
          let same : j ≡ d.id = (==_iff j d.id).0 e in
          let there : contains d.id r.started ≡ true = ground arith in
          let here : contains j r.started ≡ true = rw same there in
          let kept = h.started_tasked j here in ground arith
      passed q j f c (inr e) = ground arith

  pub MainMove-IsCovered : {r s : Run} → MainMove g i r s → IsCovered g i r → IsCovered g i s
  MainMove-IsCovered (quiet q) h = Quiet-IsCovered q h
  MainMove-IsCovered (launched k p m l e) h = rw e (launch-IsCovered k _ p h)
  MainMove-IsCovered (processed ds k success rest p q e) h =
      rw e (at_done-IsCovered k success ds rest _ p q h)
  MainMove-IsCovered (visited d ds rest p e) h = rw e (at_visit-IsCovered d ds rest _ p h)
