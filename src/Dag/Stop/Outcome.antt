-- ===== src/Dag/Stop/Outcome.antt =====
-- What `execute_dag_stop` (backend/services/dag_executor.py) has done at its end, whatever the
-- interleaving of its coroutines and the answers of the agent.
use manage_deploy.Common.{
  Bool-cases, Each, Each-and, Each-get, List, [], all_in, all_in-intro, arith, contains, false,
  get_elem?, inl, inr, is_empty, keys, length, ltb, not, refl, some, suc, sym, true, zero, ℕ, ◌&&◌,
  ◌<◌, ◌∙◌, ◌∷◌, ◌≡◌,
}
use manage_deploy.Dag.Graph.{
  EdgeRow, Graph, downstream_ids, edges_of, get_all_instance_nodes, get_leaf_nodes, ids,
}
use manage_deploy.Dag.Graph.Reversed.{
  EndsInside, downstream-leaf, downstream_ids_edge, leaf_of_no_downstream,
}
use manage_deploy.Dag.Nodes.{Store}
use manage_deploy.Dag.Start.Outcome.{contains-to_set}
use manage_deploy.Dag.Start.State.{to_set}
use manage_deploy.Dag.Stop.Cover.{StopInv, stop_visits}
use manage_deploy.Dag.Stop.Loop.{
  StopPc, StopReach, StopRun, StopTask, fill, finish_stop, finished, first_stop, head, launch_stop,
  process, stop_advance, stop_at, stop_done, stop_fill, stop_process, stop_visit, stop_wait, visit,
  waiting,
}
use manage_deploy.Dag.Stop.Steps.{StopReach-StopInv}

module _ (g : Graph) (i : ℕ) (st : Store) where
  pub first_stop-StopInv : EndsInside g i → StopInv g i (first_stop g i st)
  first_stop-StopInv wf = record {
    pending_free = λ k m.
        let leaf : contains k (ids (get_leaf_nodes g i)) ≡ true =
          sym (contains-to_set (ids (get_leaf_nodes g i)) k) ∙ m in
        rw (downstream-leaf g i k leaf);
    tasks_free = tt;
    tasked = λ k. refl;
    all_covered = λ k m d.
        let leaf = leaf_of_no_downstream g i k wf m d in
        let there : contains k (to_set (ids (get_leaf_nodes g i))) ≡ true =
          contains-to_set (ids (get_leaf_nodes g i)) k ∙ leaf in
        ground arith;
  }

-- In every interleaving of the stop of an instance, each coroutine that was ever created stops a
-- node all of whose downstream nodes had been dealt with before: they are among the stopped ones.
-- The edges of the instance end at its nodes.
pub downstream_first :
    (g : Graph) (i : ℕ) (st : Store) (r : StopRun) (k : ℕ) (t : StopTask)
    → EndsInside g i
    → StopReach g i (first_stop g i st) r
    → get_elem? r.tasks k ≡ some t
    → all_in (downstream_ids g i t.node.id) r.stopped ≡ true
downstream_first g i st r k t wf p e =
    Each-get _ r.tasks k e (StopReach-StopInv p (first_stop-StopInv g i st wf)).tasks_free

-- The loop leaves only with nothing pending or running.
record StopIdle (r s : StopRun) : Type 0 where
  no_pending : is_empty r.pending ≡ true
  no_running : is_empty r.running ≡ true
  no_visits : stop_visits r.pc ≡ []
  kept : s.stopped ≡ r.stopped

launch_stop-pc : (g : Graph) (k : ℕ) (r : StopRun) → (launch_stop g k r).pc ≡ r.pc
unfolding launch_stop
launch_stop-pc g k r = ground arith

has_room : (xs : List (ℕ × ℕ)) → is_empty xs ≡ true → ltb (length xs) 10 ≡ true
has_room [] h = refl
has_room (x ∷ xs) h = absurd (ground arith)

stop_fill-StopIdle :
    (g : Graph) (now choice : ℕ) (r s : StopRun)
    → r.pc ≡ fill
    → stop_fill g now choice r ≡ some s
    → s.pc ≡ finished
    → StopIdle r s
unfolding stop_fill finish_stop
stop_fill-StopIdle g now choice r s p e f =
    elim (Bool-cases (not (is_empty r.pending) && ltb (length r.running) 10)) [
      | inl c ↦ absurd (ground (arith, launch_stop-pc g choice r))
      | inr c ↦ elim (Bool-cases (is_empty r.running)) [
        | inl d ↦ let small = has_room r.running d in ground arith
        | inr d ↦ absurd (ground arith)
      ]
    ]

stop_at-StopIdle :
    (g : Graph) (i now choice : ℕ) (c : StopPc) (r s : StopRun)
    → r.pc ≡ c
    → stop_at g i now choice c r ≡ some s
    → s.pc ≡ finished
    → StopIdle r s
unfolding stop_at finish_stop
stop_at-StopIdle g i now choice head r s p e f = ground arith
stop_at-StopIdle g i now choice fill r s p e f = stop_fill-StopIdle g now choice r s p e f
stop_at-StopIdle g i now choice waiting r s p e f = absurd (unfold stop_wait in ground arith)
stop_at-StopIdle g i now choice (process ds) r s p e f =
    absurd (unfold stop_process stop_done in ground arith)
stop_at-StopIdle g i now choice (visit [] rest) r s p e f = absurd (ground arith)
stop_at-StopIdle g i now choice (visit (u ∷ us) rest) r s p e f =
    absurd (unfold stop_visit in ground arith)
stop_at-StopIdle g i now choice finished r s p e f = absurd (ground arith)

-- Along every edge of the instance the rank falls.
abbrev pub FallsInside : Graph → ℕ → (ℕ → ℕ) → Type 0
FallsInside g i rank = Each (λ e. rank e.to_node_id < rank e.from_node_id) (edges_of g.edges i)

abbrev StaysInside : Graph → ℕ → (ℕ → ℕ) → EdgeRow → Type 0
StaysInside g i rank e =
    (contains e.to_node_id (ids (get_all_instance_nodes g i)) ≡ true)
    × (rank e.to_node_id < rank e.from_node_id)

module _ (g : Graph) (i : ℕ) (rank : ℕ → ℕ) (r : StopRun) (h : StopInv g i r)
    (no_pending : is_empty r.pending ≡ true) (no_running : is_empty r.running ≡ true)
    (no_visits : stop_visits r.pc ≡ []) (wf : EndsInside g i) (ranked : FallsInside g i rank) where
  stopped_when_idle :
      (k : ℕ)
      → contains k (ids (get_all_instance_nodes g i)) ≡ true
      → all_in (downstream_ids g i k) r.stopped ≡ true
      → contains k r.stopped ≡ true
  stopped_when_idle k m d =
      let c = h.all_covered k m d in
      let visits : contains k (stop_visits r.pc) ≡ false = rw no_visits refl in
      let tasked = h.tasked k in
      ground (arith, nowhere r.pending no_pending, unused r.running no_running)
    where
      nowhere : (xs : List ℕ) → is_empty xs ≡ true → contains k xs ≡ false
      nowhere [] e = refl
      nowhere (x ∷ xs) e = absurd (ground arith)

      unused : (m : List (ℕ × ℕ)) → is_empty m ≡ true → contains k (keys m) ≡ false
      unused [] e = refl
      unused (x ∷ m) e = absurd (ground arith)

  -- By induction on a bound of the rank.
  all_stopped :
      (bound k : ℕ)
      → rank k < bound
      → contains k (ids (get_all_instance_nodes g i)) ≡ true
      → contains k r.stopped ≡ true
  all_stopped zero k b m = absurd (omega arith)
  all_stopped (suc bound) k b m =
      let below = all_stopped bound in
      stopped_when_idle k m (
        all_in-intro (downstream_ids g i k) r.stopped (λ d down.
          step below d
            (downstream_ids_edge g i _ d k (Each-and _ _ (edges_of g.edges i) wf ranked) down)))
    where
      step :
          ((j : ℕ)
            → rank j < bound
            → contains j (ids (get_all_instance_nodes g i)) ≡ true
            → contains j r.stopped ≡ true)
          → (d : ℕ)
          → (e : EdgeRow) × (e.to_node_id ≡ d) × (e.from_node_id ≡ k) × StaysInside g i rank e
          → contains d r.stopped ≡ true
      step below d (e, to, from, (inside, falls)) =
          let lower : rank d < rank k = rw (from, to) at falls in
          below d (omega arith) (rw to at inside)

-- When the stop of an instance with an acyclic graph leaves its loop, in whatever interleaving,
-- every node of the instance has been dealt with. The edges of the instance end at its nodes, and
-- a rank that falls along them shows that the graph has no cycle.
pub stop_deals_with_all :
    (g : Graph) (i : ℕ) (rank : ℕ → ℕ) (st : Store) (r s : StopRun) (now choice : ℕ)
    → EndsInside g i
    → FallsInside g i rank
    → StopReach g i (first_stop g i st) r
    → stop_advance g i now choice r ≡ some s
    → s.pc ≡ finished
    → all_in (ids (get_all_instance_nodes g i)) s.stopped ≡ true
unfolding stop_advance
stop_deals_with_all g i rank st r s now choice wf ranked p e f =
    let idle = stop_at-StopIdle g i now choice r.pc r s refl e f in
    let inv = StopReach-StopInv p (first_stop-StopInv g i st wf) in
    rw idle.kept (
      all_in-intro (ids (get_all_instance_nodes g i)) r.stopped (λ k m.
        all_stopped g i rank r inv idle.no_pending idle.no_running idle.no_visits wf ranked
          (suc (rank k)) k (omega arith) m))
