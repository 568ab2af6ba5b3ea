-- ===== src/Dag/Graph/Reversed.antt =====
-- The graph queries of backend/services/dag_executor.py against the edges, read from the leaves: the
-- facts on upstream nodes, over the reversed edges.
use manage_deploy.Common.{
  Each, Each-imp, List, [], all_in, arith, contains, false, refl, true, ℕ, ◌∷◌, ◌≡◌,
}
use manage_deploy.Dag.Graph.{
  EdgeRow, Graph, NodeRow, downstream_ids, downstream_rows, edges_of, from_ids,
  get_all_instance_nodes, get_downstream_nodes, get_leaf_nodes, get_upstream_nodes, ids, to_ids,
  upstream_rows,
}
use manage_deploy.Dag.Graph.Neighbours.{
  downstream_rows_of_upstream, ids-select, ids-select_mono, instance_nodes-in_table, not_in_to_ids,
  upstream_rows-nil, upstream_rows_edge,
}

flip_edge : EdgeRow → EdgeRow
flip_edge e = record {
  instance_id = e.instance_id;
  from_node_id = e.to_node_id;
  to_node_id = e.from_node_id;
}

flip_edges : List EdgeRow → List EdgeRow
flip_edges [] = []
flip_edges (e ∷ es) = flip_edge e ∷ flip_edges es

downstream_rows-flip :
    (ns : List NodeRow) (es : List EdgeRow) (k : ℕ)
    → downstream_rows ns es k ≡ upstream_rows ns (flip_edges es) k
unfolding flip_edges flip_edge
downstream_rows-flip ns [] k = refl
downstream_rows-flip ns (e ∷ es) k = rw (downstream_rows-flip ns es k)

upstream_rows-flip :
    (ns : List NodeRow) (es : List EdgeRow) (k : ℕ)
    → upstream_rows ns es k ≡ downstream_rows ns (flip_edges es) k
unfolding flip_edges flip_edge
upstream_rows-flip ns [] k = refl
upstream_rows-flip ns (e ∷ es) k = rw (upstream_rows-flip ns es k)

from_ids-flip : (es : List EdgeRow) → from_ids es ≡ to_ids (flip_edges es)
unfolding flip_edges flip_edge
from_ids-flip [] = refl
from_ids-flip (e ∷ es) = rw (from_ids-flip es)

Each-flip :
    (P : EdgeRow → Type 0) (es : List EdgeRow)
    → Each P es
    → Each (λ e. P (flip_edge e)) (flip_edges es)
unfolding flip_edges flip_edge
Each-flip P [] h = tt
Each-flip P (e ∷ es) h = (h.0, Each-flip P es h.1)

-- Every edge of the instance ends at a node of the instance.
abbrev pub EndsInside : Graph → ℕ → Type 0
EndsInside g i =
    Each (λ e. contains e.to_node_id (ids (get_all_instance_nodes g i)) ≡ true) (edges_of g.edges i)

module _ (g : Graph) (i : ℕ) where
  pub downstream-leaf :
      (k : ℕ) → contains k (ids (get_leaf_nodes g i)) ≡ true → downstream_ids g i k ≡ []
  unfolding downstream_ids get_downstream_nodes get_leaf_nodes
  downstream-leaf k h =
      let (n, same, test) = ids-select _ g.nodes k h in
      let outside : contains n.id (from_ids (edges_of g.edges i)) ≡ false = ground arith in
      rw (
        downstream_rows-flip g.nodes (edges_of g.edges i) k,
        upstream_rows-nil g.nodes (flip_edges (edges_of g.edges i)) k
            (rw (same, from_ids-flip) at outside),
      )

  pub downstream_ids_edge :
      (Q : EdgeRow → Type 0) (d k : ℕ)
      → Each Q (edges_of g.edges i)
      → contains d (downstream_ids g i k) ≡ true
      → (e : EdgeRow) × (e.to_node_id ≡ d) × (e.from_node_id ≡ k) × Q e
  unfolding downstream_ids get_downstream_nodes flip_edge
  downstream_ids_edge Q d k all h =
      let (e, from, to, q) =
        upstream_rows_edge (λ e. Q (flip_edge e)) g.nodes (flip_edges (edges_of g.edges i)) d k
          (Each-flip Q (edges_of g.edges i) all)
          (rw (downstream_rows-flip g.nodes (edges_of g.edges i) k) at h) in
      (flip_edge e, from, to, q)

  pub upstream_of_downstream :
      (d u : ℕ)
      → contains u (ids g.nodes) ≡ true
      → contains d (downstream_ids g i u) ≡ true
      → contains u (ids (get_upstream_nodes g i d)) ≡ true
  unfolding downstream_ids get_upstream_nodes get_downstream_nodes
  upstream_of_downstream d u m h = rw (upstream_rows-flip g.nodes (edges_of g.edges i) d) (
      downstream_rows_of_upstream g.nodes (flip_edges (edges_of g.edges i)) d u m
        (rw (downstream_rows-flip g.nodes (edges_of g.edges i) u) at h))

  -- A node of the instance with no downstream node is a leaf.
  pub leaf_of_no_downstream :
      (k : ℕ)
      → EndsInside g i
      → contains k (ids (get_all_instance_nodes g i)) ≡ true
      → all_in (downstream_ids g i k) [] ≡ true
      → contains k (ids (get_leaf_nodes g i)) ≡ true
  unfolding downstream_ids get_downstream_nodes get_leaf_nodes get_all_instance_nodes flip_edge
  leaf_of_no_downstream k wf m h =
      let outside =
        not_in_to_ids g.nodes (flip_edges (edges_of g.edges i)) k
          (Each-flip _ (edges_of g.edges i)
            (Each-imp (edges_of g.edges i) (λ e. instance_nodes-in_table g i e.to_node_id) wf))
          (rw (downstream_rows-flip g.nodes (edges_of g.edges i) k) at h) in
      ids-select_mono _ _ g.nodes k
        (λ n same test.
          let absent : contains n.id (from_ids (edges_of g.edges i)) ≡ false =
            rw (same, from_ids-flip) outside in
          ground arith)
        m
