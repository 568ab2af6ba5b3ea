-- ===== src/Dag/Stop/Measure.antt =====
-- A weight of the states of `execute_dag_stop` (backend/services/dag_executor.py) that every step of
-- the loop lessens.
use manage_deploy.Dag.Graph.{edges_of, get_upstream_nodes, downstream_ids}
use manage_deploy.Dag.Start.State.{find_key}
use manage_deploy.Common.{
  ◌+◌, ==_iff, Bool, Bool-cases, Each, List, Option-cases, add, all_in, arith, contains,
  contains-add, contains-keys-delete_ne, contains-keys-put, contains-remove, delete, false,
  if◌then◌else◌, inl, inr, is_empty, keys, length, ltb, none, not, put, refl, remove, some, true, ℕ,
  ◌&&◌, ◌<◌, ◌==◌, ◌||◌, ◌∷◌, ◌≡◌, ◌≤◌,
}
use manage_deploy.Dag.Graph.{
  Graph, NodeRow, downstream_ids, edges_of, get_node_by_id, get_upstream_nodes, ids,
}
use manage_deploy.Dag.Graph.Lookup.{get_node_by_id-some}
use manage_deploy.Dag.Stop.Found.{
  any_found, any_found-intro, any_found-remove, is_found, over_tasks-found, over_tasks-length,
  upstream_rows-length,
}
use manage_deploy.Dag.Stop.Keys.{find_key-in_keys}
use manage_deploy.Dag.Stop.Loop.{
  StopPc, StopRun, created, fill, finish_stop, finished, head, launch_stop, over_tasks, process,
  stop_done, stop_fill, stop_visit, stop_wait, visit, waiting,
}
use manage_deploy.Dag.Stop.Turns.{IsNext, StopTurns}
use manage_deploy.Dag.Stop.Weights.{
  phases, phases-append, times, unseen, unseen_drop, unseen_mono, weigh, weigh-add, weigh-delete,
  weigh-put, weigh-remove, weigh-times,
}

-- As many rows as an upstream query can return.
abbrev pub upstream_bound : Graph → ℕ → ℕ
upstream_bound g i = weigh (length g.nodes) (edges_of g.edges i)

module _ (g : Graph) (i : ℕ) where
  -- A task that is over, a running node and a node in line.
  unfoldable pub task_weight : ℕ
  task_weight = upstream_bound g i + 2

  unfoldable pub node_weight : ℕ
  unfolding task_weight
  node_weight = times 10 task_weight + 4

  abbrev pub line_weight : ℕ
  line_weight = node_weight + 3

  abbrev pub round_weight : List ℕ → List (ℕ × ℕ) → ℕ
  round_weight ds m = (if any_found ds m then 0 else node_weight) + weigh task_weight ds

  abbrev pub place_weight : StopPc → List (ℕ × ℕ) → ℕ
  place_weight head m = node_weight + 2
  place_weight fill m = node_weight + 1
  place_weight waiting m = node_weight
  place_weight (process ds) m = round_weight ds m + 3
  place_weight (visit us rest) m = round_weight rest m + 4 + length us
  place_weight finished m = 0

  abbrev pub is_seen : StopRun → ℕ → Bool
  is_seen r k = contains k r.pending || (contains k (keys r.running) || contains k r.stopped)

  unfoldable pub stop_weight : StopRun → ℕ
  stop_weight r =
      unseen line_weight (is_seen r) (ids g.nodes)
      + weigh line_weight r.pending
      + weigh node_weight r.running
      + phases r.tasks
      + place_weight r.pc r.running

no_row :
    (g : Graph) (k : ℕ)
    → get_node_by_id g k ≡ none
    → (a : ℕ) → contains a (ids g.nodes) ≡ true
    → (a == k) ≡ false
no_row g k q a inside = elim (Bool-cases (a == k)) [
  | inl e ↦
      let (n, found) = get_node_by_id-some g a inside in
      let same : a ≡ k = (==_iff a k).0 e in
      let none_there : get_node_by_id g a ≡ none = rw same q in cc
  | inr e ↦ e
]

module _ (g : Graph) (i : ℕ) where
  launch_stop-less :
      (k : ℕ) (r : StopRun)
      → r.pc ≡ fill
      → contains k r.pending ≡ true
      → stop_weight g i (launch_stop g k r) < stop_weight g i r
  unfolding launch_stop stop_weight
  launch_stop-less k r p m = elim (Option-cases (get_node_by_id g k)) [
    | inl q ↦
        let less = weigh-remove (line_weight g i) k r.pending m in
        let seen =
          unseen_mono (line_weight g i) (is_seen g i r)
            (is_seen g i (record r { pending = remove k r.pending })) (ids g.nodes)
            (λ a inside h.
              let other : (a == k) ≡ false = no_row g k q a inside in
              ground (arith, contains-remove a k r.pending)) in
        rw (q, launch_stop) (omega (arith, less, seen))
    | inr (n, q) ↦
        let less = weigh-remove (line_weight g i) k r.pending m in
        let more = weigh-put (node_weight g i) k (length r.tasks) r.running in
        let new = phases-append r.tasks (record { node = n; phase = created }) in
        let seen =
          unseen_mono (line_weight g i) (is_seen g i r)
            (is_seen g i (record r {
              pending = remove k r.pending;
              running = put k (length r.tasks) r.running;
            }))
            (ids g.nodes)
            (λ a inside h. ground (
              arith,
              contains-remove a k r.pending,
              contains-keys-put {0} a k (length r.tasks) r.running,
            )) in
        rw (q, launch_stop) (rw p (omega (arith, less, seen, more, new)))
  ]

  pub stop_fill-less :
      (now choice : ℕ) (r s : StopRun)
      → r.pc ≡ fill
      → stop_fill g now choice r ≡ some s
      → stop_weight g i s < stop_weight g i r
  unfolding stop_fill finish_stop
  stop_fill-less now choice r s p e =
      elim (Bool-cases (not (is_empty r.pending) && ltb (length r.running) 10)) [
        | inl c ↦ elim (Bool-cases (contains choice r.pending)) [
          | inl m ↦
              let same : launch_stop g choice r ≡ s = ground arith in
              rw (← same) (launch_stop-less choice r p m)
          | inr m ↦ absurd (ground arith)
        ]
        | inr c ↦ elim (Bool-cases (is_empty r.running)) [
          | inl d ↦
              let same : finish_stop now r ≡ s = ground arith in
              rw (← same) (unfold stop_weight in rw p (omega arith))
          | inr d ↦
              let same : record r { pc = waiting } ≡ s = ground arith in
              rw (← same) (unfold stop_weight in rw p (omega arith))
        ]
      ]

  pub stop_wait-less :
      (r s : StopRun)
      → r.pc ≡ waiting
      → stop_wait r ≡ some s
      → StopTurns g r
      → stop_weight g i s < stop_weight g i r
  unfolding stop_wait
  stop_wait-less r s p e h = elim (Bool-cases (is_empty (over_tasks r.tasks r.running))) [
    | inl d ↦ absurd (ground arith)
    | inr d ↦
        let ds = over_tasks r.tasks r.running in
        let same : record r { pc = process ds } ≡ s = ground arith in
        let found = over_tasks-found r.tasks r.running d in
        let few = over_tasks-length r.tasks r.running in
        let small = weigh-times 10 (task_weight g i) ds (omega (arith, few, h.room)) in
        rw (← same) (unfold stop_weight node_weight in rw (p, found) (omega (arith, small)))
  ]

  pub stop_visit-less :
      (u : NodeRow) (us : List NodeRow) (rest : List ℕ) (r : StopRun)
      → r.pc ≡ visit (u ∷ us) rest
      → StopTurns g r
      → stop_weight g i (stop_visit g i u us rest r) < stop_weight g i r
  unfolding stop_visit stop_weight
  stop_visit-less u us rest r p h =
      let v : Each (IsNext g r.running) (u ∷ us) = rw p at h.visits in
      elim (Bool-cases
        (all_in (downstream_ids g i u.id) r.stopped && not (contains u.id r.stopped))) [
          | inl q ↦ elim (Bool-cases (contains u.id r.pending)) [
            | inl m ↦ rw (q, stop_visit) (rw (p, m) (omega arith))
            | inr m ↦
                let seen =
                  unseen_drop (line_weight g i) (is_seen g i r)
                    (is_seen g i (record r { pending = add u.id r.pending })) (ids g.nodes) u.id
                    (λ a inside k. ground (arith, contains-add a u.id r.pending)) v.0.1
                    (ground (arith, v.0.0)) (ground (arith, contains-add u.id u.id r.pending)) in
                let more = weigh-add (line_weight g i) u.id r.pending in
                rw (q, stop_visit) (rw p (omega (arith, seen, more)))
          ]
          | inr q ↦ rw (q, stop_visit) (rw p (omega arith))
        ]

  round_le :
      (ds : List ℕ) (m : List (ℕ × ℕ))
      → round_weight g i ds m ≤ node_weight g i + weigh (task_weight g i) ds
  round_le ds m = elim (Bool-cases (any_found ds m)) [
    | inl e ↦ rw e (omega arith)
    | inr e ↦ rw e (omega arith)
  ]

  pub stop_done-less :
      (d : ℕ) (ds : List ℕ) (r : StopRun)
      → r.pc ≡ process ds
      → contains d ds ≡ true
      → stop_weight g i (stop_done g i d (remove d ds) r) < stop_weight g i r
  unfolding stop_done stop_weight
  stop_done-less d ds r p m = elim (Option-cases (find_key d r.running)) [
    | inl q ↦
        let fewer = weigh-remove (task_weight g i) d ds m in
        let nowhere : is_found d r.running ≡ false = rw q refl in
        let same = any_found-remove ds d r.running nowhere in
        rw (q, stop_done) (rw (p, same) (unfold task_weight in omega (arith, fewer)))
    | inr (k, q) ↦
        let there = find_key-in_keys r.running d k q in
        let fewer = weigh-remove (task_weight g i) d ds m in
        let less = weigh-delete (node_weight g i) k r.running there in
        let found = any_found-intro ds d r.running m (rw q refl) in
        let rows : length (get_upstream_nodes g i k) ≤ upstream_bound g i =
          unfold get_upstream_nodes in upstream_rows-length g.nodes (edges_of g.edges i) k in
        let seen =
          unseen_mono (line_weight g i) (is_seen g i r)
            (is_seen g i (record r { running = delete k r.running; stopped = add k r.stopped }))
            (ids g.nodes)
            (λ a inside h. elim (Bool-cases (a == k)) [
              | inl e ↦ ground (arith, contains-add a k r.stopped)
              | inr e ↦
                  ground
                    (arith, contains-add a k r.stopped, contains-keys-delete_ne {0} a k r.running e)
            ]) in
        rw (q, stop_done)
          (rw (p, found)
            (let round = round_le (remove d ds) (delete k r.running) in
              unfold task_weight in omega (arith, fewer, less, rows, seen, round)))
  ]
