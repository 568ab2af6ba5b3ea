-- ===== src/Dag/Stop/Turns.antt =====
-- Each node takes one turn in `execute_dag_stop` (backend/services/dag_executor.py): the nodes in
-- line, at work and stopped are apart, and no more than ten are at work.
use manage_deploy.Dag.Graph.{edges_of, get_upstream_nodes, get_downstream_nodes, downstream_ids}
use manage_deploy.Dag.Graph.Neighbours.{downstream_rows_of_upstream}
use manage_deploy.Dag.Start.State.{find_key}
use manage_deploy.Common.{
  ◌∙◌, ==_iff, Bool-cases, Each, List, Option-cases, [], all_in, all_in_iff, arith, contains,
  contains-add, contains-keys-put, contains-remove, delete, false, inl, inr, keys, length,
  length-delete, length-put, not, refl, true, ℕ, ◌&&◌, ◌<◌, ◌==◌, ◌∷◌, ◌≡◌, ◌≤◌,
}
use manage_deploy.Dag.Graph.{
  Graph, NodeRow, downstream_ids, edges_of, get_downstream_nodes, get_node_by_id,
  get_upstream_nodes, ids,
}
use manage_deploy.Dag.Stop.Cover.{IsFree, StopInv, stop_ids}
use manage_deploy.Dag.Stop.Keys.{
  Each-ids, IsOnce, delete-IsOnce, delete_idle, differs, find_key-in_keys, in_table, put-IsOnce,
  still, task_free, upstream-in_table,
}
use manage_deploy.Dag.Stop.Loop.{StopPc, StopRun, fill, launch_stop, stop_done, stop_visit, visit}

abbrev pub visit_rows : StopPc → List NodeRow
visit_rows (visit us rest) = us
visit_rows _ = []

abbrev pub IsNext : Graph → List (ℕ × ℕ) → NodeRow → Type 0
IsNext g m u = (contains u.id (keys m) ≡ false) × (contains u.id (ids g.nodes) ≡ true)

pub record StopTurns (g : Graph) (r : StopRun) : Type 0 where
  pub room : length r.running ≤ 10
  pub once : IsOnce r.running
  pub stopped_idle : (k : ℕ) → contains k r.stopped ≡ true → contains k (keys r.running) ≡ false
  pub pending_idle :
      (k : ℕ)
      → contains k r.pending ≡ true
      → (contains k (keys r.running) ≡ false) × (contains k r.stopped ≡ false)
  pub known : (k : ℕ) → contains k (keys r.running) ≡ true → contains k (ids g.nodes) ≡ true
  pub visits : Each (IsNext g r.running) (visit_rows r.pc)

module _ (g : Graph) where
  pub same-StopTurns :
      {r s : StopRun}
      → s.stopped ≡ r.stopped
      → s.pending ≡ r.pending
      → s.running ≡ r.running
      → Each (IsNext g r.running) (visit_rows s.pc)
      → StopTurns g r
      → StopTurns g s
  same-StopTurns a b c e h = record {
    room = rw c h.room;
    once = rw c h.once;
    stopped_idle = λ k m. rw c (h.stopped_idle k (rw a at m));
    pending_idle = λ k m. rw (c, a) (h.pending_idle k (rw b at m));
    known = λ k m. h.known k (rw c at m);
    visits = rw c e;
  }

  pub launch_stop-StopTurns :
      (k : ℕ) (r : StopRun)
      → r.pc ≡ fill
      → length r.running < 10
      → contains k r.pending ≡ true
      → StopTurns g r
      → StopTurns g (launch_stop g k r)
  unfolding launch_stop
  launch_stop-StopTurns k r p l m h = elim (Option-cases (get_node_by_id g k)) [
    | inl q ↦
        rw (q, launch_stop)
          (record {
            room = h.room;
            once = h.once;
            stopped_idle = h.stopped_idle;
            pending_idle = λ j mj. h.pending_idle j (ground (arith, contains-remove j k r.pending));
            known = h.known;
            visits = rw p tt;
          })
    | inr (n, q) ↦
        let new = h.pending_idle k m in
        rw (q, launch_stop)
          (record {
            room =
                let longer = length-put {0} k (length r.tasks) r.running in omega (arith, longer);
            once = put-IsOnce k (length r.tasks) r.running new.0 h.once;
            stopped_idle = λ j s.
                let other = differs j k r.stopped s new.1 in
                contains-keys-put {0} j k (length r.tasks) r.running
                ∙ ground (arith, h.stopped_idle j s);
            pending_idle = λ j mj.
                let kept : contains j r.pending ≡ true =
                  ground (arith, contains-remove j k r.pending) in
                let other : (j == k) ≡ false = ground (arith, contains-remove j k r.pending) in
                let old = h.pending_idle j kept in
                (contains-keys-put {0} j k (length r.tasks) r.running ∙ ground arith, old.1);
            known = λ j mj. elim (Bool-cases (j == k)) [
              | inl e ↦ rw ((==_iff j k).0 e) (in_table g.nodes k n (unfold get_node_by_id in q))
              | inr e ↦
                  h.known j (ground (arith, contains-keys-put {0} j k (length r.tasks) r.running))
            ];
            visits = rw p tt;
          })
  ]

  pub stop_visit-StopTurns :
      (i : ℕ) (u : NodeRow) (us : List NodeRow) (rest : List ℕ) (r : StopRun)
      → r.pc ≡ visit (u ∷ us) rest
      → StopTurns g r
      → StopTurns g (stop_visit g i u us rest r)
  unfolding stop_visit
  stop_visit-StopTurns i u us rest r p h =
      let v : Each (IsNext g r.running) (u ∷ us) = rw p at h.visits in
      elim (Bool-cases
        (all_in (downstream_ids g i u.id) r.stopped && not (contains u.id r.stopped))) [
          | inl q ↦
              rw (q, stop_visit)
                (record {
                  room = h.room;
                  once = h.once;
                  stopped_idle = h.stopped_idle;
                  pending_idle = λ j m. elim (Bool-cases (j == u.id)) [
                    | inl e ↦ rw ((==_iff j u.id).0 e) (v.0.0, ground arith)
                    | inr e ↦ h.pending_idle j (ground (arith, contains-add j u.id r.pending))
                  ];
                  known = h.known;
                  visits = v.1;
                })
          | inr q ↦ rw (q, stop_visit) (same-StopTurns refl refl refl v.1 h)
        ]

  -- An upstream node of one that is at work is not at work, nor has it been.
  upstream-IsNext :
      (i k : ℕ) (r : StopRun)
      → StopInv g i r
      → StopTurns g r
      → contains k (keys r.running) ≡ true
      → (u : NodeRow) → contains u.id (ids (get_upstream_nodes g i k)) ≡ true
      → IsNext g r.running u
  unfolding get_upstream_nodes downstream_ids get_downstream_nodes
  upstream-IsNext i k r inv h there u m = (
    elim (Bool-cases (contains u.id (keys r.running))) [
      | inr e ↦ e
      | inl e ↦
          let tasked : contains u.id (stop_ids r.tasks) ≡ true = inv.tasked u.id ∙ (ground arith) in
          let free = task_free (IsFree g i r.stopped) r.tasks u.id tasked inv.tasks_free in
          let down =
            downstream_rows_of_upstream g.nodes (edges_of g.edges i) u.id k (h.known k there) m in
          let early : contains k r.stopped ≡ true =
            all_in_iff (downstream_ids g i u.id) r.stopped k free down in
          let idle = h.stopped_idle k early in absurd (ground arith)
    ],
    upstream-in_table g.nodes (edges_of g.edges i) k u.id m,
  )

  pub stop_done-StopTurns :
      (i u : ℕ) (rest : List ℕ) (r : StopRun)
      → StopInv g i r
      → StopTurns g r
      → StopTurns g (stop_done g i u rest r)
  unfolding stop_done
  stop_done-StopTurns i u rest r inv h = elim (Option-cases (find_key u r.running)) [
    | inl q ↦ rw (q, stop_done) (same-StopTurns refl refl refl tt h)
    | inr (k, q) ↦
        let there = find_key-in_keys r.running u k q in
        let gone = delete-IsOnce k r.running h.once in
        rw (q, stop_done)
          (record {
            room = let shorter = length-delete {0} k r.running in omega (arith, shorter, h.room);
            once = gone.0;
            stopped_idle = λ j s. elim (Bool-cases (j == k)) [
              | inl e ↦ rw ((==_iff j k).0 e) gone.1
              | inr e ↦
                  delete_idle j k r.running
                    (h.stopped_idle j (ground (arith, contains-add j k r.stopped)))
            ];
            pending_idle = λ j m.
                let old = h.pending_idle j m in
                let other : (j == k) ≡ false =
                  let apart = differs k j (keys r.running) there old.0 in ground arith in
                (delete_idle j k r.running old.0, ground (arith, contains-add j k r.stopped));
            known = λ j m. h.known j (still j k r.running m);
            visits = Each-ids (IsNext g (delete k r.running)) (get_upstream_nodes g i k) (λ u m.
                let next = upstream-IsNext i k r inv h there u m in
                (delete_idle u.id k r.running next.0, next.1));
          })
  ]
