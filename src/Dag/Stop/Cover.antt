-- ===== src/Dag/Stop/Cover.antt =====
-- The invariant of `execute_dag_stop` (backend/services/dag_executor.py): downstream nodes go first,
-- and no node is forgotten.
use manage_deploy.Common.{
  &&-true, ==_iff, Bool-cases, Each, Each-append, Each-imp, List, Option-cases, [], add, all_in,
  all_in-add, all_in-add_cases, arith, contains, contains-add, contains-keys-delete_ne,
  contains-keys-put, contains-remove, delete, false, get_elem?, inl, inr, keys, length, none, not,
  refl, remove, set, some, suc, true, zero, ||-intro_right, ℕ, ◌&&◌, ◌++◌, ◌==◌, ◌||◌, ◌∷◌, ◌≡◌,
  ◌⊎◌,
}
use manage_deploy.Dag.Graph.{
  Graph, NodeRow, downstream_ids, get_all_instance_nodes, get_node_by_id, ids,
}
use manage_deploy.Dag.Graph.Lookup.{get_node_by_id-id, get_node_by_id-some}
use manage_deploy.Dag.Graph.Neighbours.{instance_nodes-in_table}
use manage_deploy.Dag.Graph.Reversed.{upstream_of_downstream}
use manage_deploy.Dag.Start.State.{find_key}
use manage_deploy.Dag.Stop.Loop.{
  StopPc, StopPhase, StopRun, StopTask, created, launch_stop, process, stop_done, stop_visit, visit,
}

abbrev pub stop_ids : List StopTask → List ℕ
stop_ids [] = []
stop_ids (t ∷ ts) = t.node.id ∷ stop_ids ts

abbrev pub stop_visits : StopPc → List ℕ
stop_visits (visit us rest) = ids us
stop_visits _ = []

-- Every downstream node has been stopped.
abbrev pub IsFree : Graph → ℕ → List ℕ → ℕ → Type 0
IsFree g i stopped k = all_in (downstream_ids g i k) stopped ≡ true

pub record StopInv (g : Graph) (i : ℕ) (r : StopRun) : Type 0 where
  pub pending_free : (k : ℕ) → contains k r.pending ≡ true → IsFree g i r.stopped k
  pub tasks_free : Each (λ t. IsFree g i r.stopped t.node.id) r.tasks
  pub tasked :
      (k : ℕ)
      → contains k (stop_ids r.tasks) ≡ (contains k (keys r.running) || contains k r.stopped)
  pub all_covered :
      (k : ℕ)
      → contains k (ids (get_all_instance_nodes g i)) ≡ true
      → IsFree g i r.stopped k
      → (contains k r.pending || contains k (stop_ids r.tasks) || contains k (stop_visits r.pc))
        ≡ true

stop_ids-append :
    (ts : List StopTask) (t : StopTask) (a : ℕ)
    → contains a (stop_ids (ts ++ t ∷ [])) ≡ (contains a (stop_ids ts) || a == t.node.id)
stop_ids-append [] t a = ground arith
stop_ids-append (u ∷ ts) t a = ground (arith, stop_ids-append ts t a)

pub stop_ids-set :
    (ts : List StopTask) (t : StopTask) (k : ℕ) (p : StopPhase)
    → get_elem? ts k ≡ some t
    → stop_ids (set ts k (record t { phase = p })) ≡ stop_ids ts
stop_ids-set [] t k p e = refl
stop_ids-set (u ∷ ts) t zero p e = let same : u ≡ t = ground arith in rw same
stop_ids-set (u ∷ ts) t (suc k) p e = rw (stop_ids-set ts t k p e)

module _ (g : Graph) (i : ℕ) where
  -- Nothing but the store and the place changes.
  pub same-StopInv :
      {r s : StopRun}
      → s.stopped ≡ r.stopped
      → s.pending ≡ r.pending
      → s.tasks ≡ r.tasks
      → s.running ≡ r.running
      → stop_visits s.pc ≡ stop_visits r.pc
      → StopInv g i r
      → StopInv g i s
  same-StopInv a b c d e h = record {
    pending_free = λ k m. rw a (h.pending_free k (rw b at m));
    tasks_free = rw (a, c) h.tasks_free;
    tasked = λ k. rw (a, c, d) (h.tasked k);
    all_covered = λ k m f. rw (b, c, e) (h.all_covered k m (rw a at f));
  }

  pub launch_stop-StopInv :
      (k : ℕ) (r : StopRun)
      → contains k r.pending ≡ true
      → StopInv g i r
      → StopInv g i (launch_stop g k r)
  unfolding launch_stop
  launch_stop-StopInv k r m h = elim (Option-cases (get_node_by_id g k)) [
    | inl q ↦
        rw (q, launch_stop)
          (record {
            pending_free = λ j mj. h.pending_free j (kept j mj);
            tasks_free = h.tasks_free;
            tasked = h.tasked;
            all_covered = λ j inside f.
                let c = h.all_covered j inside f in
                let other = missing q j inside in ground (arith, contains-remove j k r.pending);
          })
    | inr (n, q) ↦
        rw (q, launch_stop)
          (record {
            pending_free = λ j mj. h.pending_free j (kept j mj);
            tasks_free =
                Each-append _ r.tasks _ h.tasks_free
                  (rw (get_node_by_id-id g k n q) (h.pending_free k m), tt);
            tasked = λ j.
                let same = get_node_by_id-id g k n q in
                let old = h.tasked j in
                ground (
                  arith,
                  stop_ids-append r.tasks (record { node = n; phase = created }) j,
                  contains-keys-put {0} j k (length r.tasks) r.running,
                );
            all_covered = λ j inside f.
                let same = get_node_by_id-id g k n q in
                let c = h.all_covered j inside f in
                ground (
                  arith,
                  contains-remove j k r.pending,
                  stop_ids-append r.tasks (record { node = n; phase = created }) j,
                );
          })
  ]
    where
      kept : (j : ℕ) → contains j (remove k r.pending) ≡ true → contains j r.pending ≡ true
      kept j mj = ground (arith, contains-remove j k r.pending)

      missing :
          get_node_by_id g k ≡ none
          → (j : ℕ) → contains j (ids (get_all_instance_nodes g i)) ≡ true
          → (j == k) ≡ false
      missing q j inside = elim (Bool-cases (j == k)) [
        | inl e ↦
            let (n, found) = get_node_by_id-some g j (instance_nodes-in_table g i j inside) in
            let same : j ≡ k = (==_iff j k).0 e in
            let none_there : get_node_by_id g j ≡ none = rw same q in cc
        | inr e ↦ e
      ]

  pub stop_done-StopInv :
      (u : ℕ) (ds rest : List ℕ) (r : StopRun)
      → r.pc ≡ process ds
      → StopInv g i r
      → StopInv g i (stop_done g i u rest r)
  unfolding stop_done
  stop_done-StopInv u ds rest r p h = elim (Option-cases (find_key u r.running)) [
    | inl q ↦ rw (q, stop_done) (same-StopInv refl refl refl refl (ground arith) h)
    | inr (k, q) ↦
        rw (q, stop_done)
          (record {
            pending_free =
                λ j m. all_in-add (downstream_ids g i j) r.stopped k (h.pending_free j m);
            tasks_free =
                Each-imp r.tasks (λ t. all_in-add (downstream_ids g i t.node.id) r.stopped k)
                  h.tasks_free;
            tasked = λ j. moved k (find_key-contains r.running u k q) j;
            all_covered = λ j inside f.
                elim (all_in-add_cases (downstream_ids g i j) r.stopped k f) [
                  | inl down ↦
                      let seen =
                        upstream_of_downstream g i k j (instance_nodes-in_table g i j inside)
                          down in
                      ground arith
                  | inr old ↦ let c = h.all_covered j inside old in ground arith
                ];
          })
  ]
    where
      find_key-contains :
          (m : List (ℕ × ℕ)) (u k : ℕ) → find_key u m ≡ some k → contains k (keys m) ≡ true
      find_key-contains [] u k e = absurd (ground arith)
      find_key-contains ((j, v) ∷ m) u k e = elim (Bool-cases (v == u)) [
        | inl q ↦ let same : j ≡ k = ground arith in ground arith
        | inr q ↦ ||-intro_right _ _ (find_key-contains m u k (ground arith))
      ]

      moved :
          (k : ℕ)
          → contains k (keys r.running) ≡ true
          → (j : ℕ)
          → contains j (stop_ids r.tasks)
            ≡ (contains j (keys (delete k r.running)) || contains j (add k r.stopped))
      moved k there j = elim (Bool-cases (j == k)) [
        | inl e ↦
            let same : j ≡ k = (==_iff j k).0 e in
            let was : contains j (keys r.running) ≡ true = rw same there in
            let old = h.tasked j in ground (arith, contains-add j k r.stopped)
        | inr e ↦
            let old = h.tasked j in
            ground (arith, contains-add j k r.stopped, contains-keys-delete_ne {0} j k r.running e)
      ]

  pub stop_visit-StopInv :
      (u : NodeRow) (us : List NodeRow) (rest : List ℕ) (r : StopRun)
      → r.pc ≡ visit (u ∷ us) rest
      → StopInv g i r
      → StopInv g i (stop_visit g i u us rest r)
  unfolding stop_visit
  stop_visit-StopInv u us rest r p h =
      elim (Bool-cases
        (all_in (downstream_ids g i u.id) r.stopped && not (contains u.id r.stopped))) [
          | inl q ↦
              rw (q, stop_visit)
                (record {
                  pending_free = λ j m. added (&&-true _ _ q).0 j (Bool-cases (j == u.id)) m;
                  tasks_free = h.tasks_free;
                  tasked = h.tasked;
                  all_covered = λ j inside f.
                      let c = h.all_covered j inside f in
                      ground (arith, contains-add j u.id r.pending);
                })
          | inr q ↦
              rw (q, stop_visit)
                (record {
                  pending_free = h.pending_free;
                  tasks_free = h.tasks_free;
                  tasked = h.tasked;
                  all_covered = λ j inside f.
                      passed q j f (h.all_covered j inside f) (Bool-cases (j == u.id));
                })
        ]
    where
      added :
          IsFree g i r.stopped u.id
          → (j : ℕ) → ((j == u.id) ≡ true) ⊎ ((j == u.id) ≡ false)
          → contains j (add u.id r.pending) ≡ true
          → IsFree g i r.stopped j
      added down j (inl e) m = rw ((==_iff j u.id).0 e) down
      added down j (inr e) m = h.pending_free j (ground (arith, contains-add j u.id r.pending))

      passed :
          (all_in (downstream_ids g i u.id) r.stopped && not (contains u.id r.stopped)) ≡ false
          → (j : ℕ) → IsFree g i r.stopped j
          → (contains j r.pending || contains j (stop_ids r.tasks) || contains j (stop_visits r.pc))
            ≡ true
          → ((j == u.id) ≡ true) ⊎ ((j == u.id) ≡ false)
          → (contains j r.pending || contains j (stop_ids r.tasks) || contains j (ids us)) ≡ true
      passed q j f c (inl e) =
          let same : j ≡ u.id = (==_iff j u.id).0 e in
          let down : all_in (downstream_ids g i u.id) r.stopped ≡ true = rw same at f in
          let there : contains u.id r.stopped ≡ true = ground arith in
          let here : contains j r.stopped ≡ true = rw same there in
          let old = h.tasked j in ground arith
      passed q j f c (inr e) = ground arith
