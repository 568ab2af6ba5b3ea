-- ===== src/Dag/Stop/Termination.antt =====
-- `execute_dag_stop` (backend/services/dag_executor.py) ends, whatever the event loop and the agents
-- do.
use manage_deploy.Dag.Graph.{from_ids, edges_of, get_leaf_nodes}
use manage_deploy.Dag.Start.State.{to_set}
use manage_deploy.Common.{
  ◌+◌, Bool, List, [], arith, contains, not, refl, select, suc, ℕ, ◌&&◌, ◌==◌, ◌∷◌, ◌≡◌, ◌≤◌,
}
use manage_deploy.Dag.Graph.{Graph, NodeRow, edges_of, from_ids, get_leaf_nodes, ids}
use manage_deploy.Dag.Graph.Reversed.{EndsInside}
use manage_deploy.Dag.Nodes.{Store}
use manage_deploy.Dag.Stop.Below.{async-IsBelow, stop_at-IsBelow}
use manage_deploy.Dag.Stop.Cover.{StopInv}
use manage_deploy.Dag.Stop.Loop.{
  StopReach, StopRun, first_stop, here, main, next, stop_advance, task,
}
use manage_deploy.Dag.Stop.Measure.{is_seen, line_weight, node_weight, stop_weight}
use manage_deploy.Dag.Stop.Outcome.{first_stop-StopInv}
use manage_deploy.Dag.Stop.Steps.{StopReach-StopInv}
use manage_deploy.Dag.Stop.Turns.{StopTurns}
use manage_deploy.Dag.Stop.Weights.{unseen, weigh, weigh-add}

abbrev pub steps : {g : Graph} {i : ℕ} {r s : StopRun} → StopReach g i r s → ℕ
steps here = 0
steps (next p q) = suc (steps p)

first_stop-StopTurns : (g : Graph) (i : ℕ) (st : Store) → StopTurns g (first_stop g i st)
first_stop-StopTurns g i st = record {
  room = omega arith;
  once = tt;
  stopped_idle = λ k m. refl;
  pending_idle = λ k m. (refl, refl);
  known = λ k m. absurd (ground arith);
  visits = tt;
}

reach-below :
    {g : Graph} {i : ℕ} {r s : StopRun}
    → (p : StopReach g i r s) → StopInv g i r
    → StopTurns g r
    → (steps p + stop_weight g i s ≤ stop_weight g i r) × StopTurns g s
reach-below here inv h = (omega arith, h)
reach-below {g} {i} (next {s} {t} p (main now choice e)) inv h =
    let (before, turns) = reach-below p inv h in
    let (less, after) =
      stop_at-IsBelow g i now choice s.pc s t refl (unfold stop_advance in e)
        (StopReach-StopInv p inv) turns in
    (omega (arith, before, less), after)
reach-below {g} {i} (next {s} {t} p (task k reply e)) inv h =
    let (before, turns) = reach-below p inv h in
    let (less, after) = async-IsBelow g i k reply s t e turns in
    (omega (arith, before, less), after)

-- As many steps as a stop of the instance can take: with n nodes and e edges of the instance, a task
-- weighs n * e + 2, a running node ten times as much and 4, a node in line 3 more, and each node
-- stands in line once and is seen once.
unfoldable pub stop_bound : Graph → ℕ → ℕ
stop_bound g i =
    weigh (line_weight g i) g.nodes + weigh (line_weight g i) g.nodes + (node_weight g i + 2)

weigh-ids : (w : ℕ) (ns : List NodeRow) → weigh w (ids ns) ≡ weigh w ns
weigh-ids w [] = refl
weigh-ids w (n ∷ ns) = rw (weigh-ids w ns) refl

weigh-to_set : (w : ℕ) (xs : List ℕ) → weigh w (to_set xs) ≤ weigh w xs
weigh-to_set w [] = omega arith
weigh-to_set w (x ∷ xs) = omega (arith, weigh-to_set w xs, weigh-add w x (to_set xs))

weigh-select : (w : ℕ) (p : NodeRow → Bool) (ns : List NodeRow) → weigh w (select p ns) ≤ weigh w ns
weigh-select w p [] = omega arith
weigh-select w p (n ∷ ns) = ground (arith, weigh-select w p ns)

unseen-weigh : (w : ℕ) (f : ℕ → Bool) (xs : List ℕ) → unseen w f xs ≤ weigh w xs
unseen-weigh w f [] = omega arith
unseen-weigh w f (x ∷ xs) = ground (arith, unseen-weigh w f xs)

first_stop-weight :
    (g : Graph) (i : ℕ) (st : Store) → stop_weight g i (first_stop g i st) ≤ stop_bound g i
unfolding stop_weight stop_bound
first_stop-weight g i st =
    let w = line_weight g i in
    let leaves = ids (get_leaf_nodes g i) in
    let a = unseen-weigh w (is_seen g i (first_stop g i st)) (ids g.nodes) in
    let b = weigh-ids w g.nodes in
    let c = weigh-to_set w leaves in
    let d = weigh-ids w (get_leaf_nodes g i) in
    let e : weigh w (get_leaf_nodes g i) ≤ weigh w g.nodes =
      unfold get_leaf_nodes in
      weigh-select w
        (λ n. n.instance_id == i && not (contains n.id (from_ids (edges_of g.edges i)))) g.nodes in
    omega (arith, a, b, c, d, e)

-- The stop of an instance ends: no run of the loop and its coroutines takes more steps than the
-- bound, which depends on the nodes and the edges only, whatever the event loop chooses and the
-- agents answer. The edges of the instance end at its nodes.
pub stop_ends :
    (g : Graph) (i : ℕ) (st : Store) (r : StopRun)
    → EndsInside g i
    → (p : StopReach g i (first_stop g i st) r) → steps p ≤ stop_bound g i
stop_ends g i st r wf p =
    let (below, turns) =
      reach-below p (first_stop-StopInv g i st wf) (first_stop-StopTurns g i st) in
    let first = first_stop-weight g i st in omega (arith, below, first)
