-- ===== src/Dag/Graph/Lookup.antt =====
-- Facts on the graph queries of backend/services/dag_executor.py that the loops rely on.
use manage_deploy.Common.{
  ==_iff, Bool-cases, List, [], arith, contains, find, inl, inr, some, true, ℕ, ◌==◌, ◌∷◌, ◌≡◌,
}
use manage_deploy.Dag.Graph.{Graph, NodeRow, get_node_by_id, ids}

find-id : (ns : List NodeRow) (k : ℕ) (n : NodeRow) → find (λ m. m.id == k) ns ≡ some n → n.id ≡ k
find-id [] k n e = absurd (ground arith)
find-id (m ∷ ns) k n e = elim (Bool-cases (m.id == k)) [
  | inl q ↦ let same : m ≡ n = ground arith in rw (← same) ((==_iff m.id k).0 q)
  | inr q ↦ find-id ns k n (ground arith)
]

pub get_node_by_id-id : (g : Graph) (k : ℕ) (n : NodeRow) → get_node_by_id g k ≡ some n → n.id ≡ k
unfolding get_node_by_id
get_node_by_id-id g k n e = find-id g.nodes k n e

find-ne-none :
    (ns : List NodeRow) (k : ℕ)
    → contains k (ids ns) ≡ true
    → (n : NodeRow) × (find (λ m. m.id == k) ns ≡ some n)
find-ne-none [] k e = absurd (ground arith)
find-ne-none (m ∷ ns) k e = elim (Bool-cases (m.id == k)) [
  | inl q ↦ (m, ground arith)
  | inr q ↦ let (n, found) = find-ne-none ns k (ground arith) in (n, ground arith)
]

-- A node of the table is found.
pub get_node_by_id-some :
    (g : Graph) (k : ℕ)
    → contains k (ids g.nodes) ≡ true
    → (n : NodeRow) × (get_node_by_id g k ≡ some n)
unfolding get_node_by_id
get_node_by_id-some g k e = find-ne-none g.nodes k e
