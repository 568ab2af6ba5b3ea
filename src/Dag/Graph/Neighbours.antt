-- ===== src/Dag/Graph/Neighbours.antt =====
-- Roots, leaves and neighbours of the graph queries of backend/services/dag_executor.py.
use manage_deploy.Common.{
  Bool, Bool-cases, Each, Each-imp, List, [], all_in, arith, contains, contains-append, false, inl,
  inr, refl, select, sym, true, ||-true, ℕ, ◌++◌, ◌<◌, ◌==◌, ◌∷◌, ◌≡◌,
}
use manage_deploy.Dag.Graph.{
  EdgeRow, Graph, NodeRow, downstream_rows, edges_of, get_all_instance_nodes, get_downstream_nodes,
  get_root_nodes, get_upstream_nodes, ids, rows_of, to_ids, upstream_ids, upstream_rows,
}

pub ids-append : (xs ys : List NodeRow) → ids (xs ++ ys) ≡ ids xs ++ ids ys
ids-append [] ys = refl
ids-append (x ∷ xs) ys = rw (ids-append xs ys)

-- An identifier of a selection is that of a row which passes.
pub ids-select :
    (p : NodeRow → Bool) (ns : List NodeRow) (k : ℕ)
    → contains k (ids (select p ns)) ≡ true
    → (n : NodeRow) × (n.id ≡ k) × (p n ≡ true)
ids-select p [] k h = absurd (ground arith)
ids-select p (n ∷ ns) k h = elim (Bool-cases (p n)) [
  | inl q ↦ elim (Bool-cases (k == n.id)) [
    | inl same ↦ (n, ground arith, q)
    | inr other ↦ ids-select p ns k (ground arith)
  ]
  | inr q ↦ ids-select p ns k (ground arith)
]

-- A weaker test selects more identifiers.
pub ids-select_mono :
    (p q : NodeRow → Bool) (ns : List NodeRow) (k : ℕ)
    → ((n : NodeRow) → n.id ≡ k → p n ≡ true → q n ≡ true)
    → contains k (ids (select p ns)) ≡ true
    → contains k (ids (select q ns)) ≡ true
ids-select_mono p q [] k f h = absurd (ground arith)
ids-select_mono p q (n ∷ ns) k f h = elim (Bool-cases (p n)) [
  | inl a ↦ elim (Bool-cases (k == n.id)) [
    | inl same ↦ let b = f n (ground arith) a in ground arith
    | inr other ↦ let rest = ids-select_mono p q ns k f (ground arith) in ground arith
  ]
  | inr a ↦ let rest = ids-select_mono p q ns k f (ground arith) in ground arith
]

pub ids-rows_of :
    (ns : List NodeRow) (k : ℕ)
    → contains k (ids ns) ≡ true
    → contains k (ids (rows_of ns k)) ≡ true
ids-rows_of [] k h = h
ids-rows_of (n ∷ ns) k h = ground (arith, ids-rows_of ns k)

rows_of-ids : (ns : List NodeRow) (j k : ℕ) → contains j (ids (rows_of ns k)) ≡ true → j ≡ k
rows_of-ids ns j k h = let (n, same, test) = ids-select (λ n. n.id == k) ns j h in ground arith

-- An upstream identifier stands behind an edge, of which `Q` holds.
pub upstream_rows_edge :
    (Q : EdgeRow → Type 0) (ns : List NodeRow) (es : List EdgeRow) (u k : ℕ)
    → Each Q es
    → contains u (ids (upstream_rows ns es k)) ≡ true
    → (e : EdgeRow) × (e.from_node_id ≡ u) × (e.to_node_id ≡ k) × Q e
upstream_rows_edge Q ns [] u k all h = absurd (ground arith)
upstream_rows_edge Q ns (e ∷ es) u k all h = elim (Bool-cases (e.to_node_id == k)) [
  | inl q ↦
      let split : contains u (ids (rows_of ns e.from_node_id) ++ ids (upstream_rows ns es k))
          ≡ true =
        rw (← ids-append (rows_of ns e.from_node_id) (upstream_rows ns es k)) (ground arith) in
      elim (||-true _ _ (
        rw (contains-append u (ids (rows_of ns e.from_node_id)) (ids (upstream_rows ns es k))) at
          split)) [
            | inl near ↦ (e, sym (rows_of-ids ns u e.from_node_id near), ground arith, all.0)
            | inr far ↦ upstream_rows_edge Q ns es u k all.1 far
          ]
  | inr q ↦ upstream_rows_edge Q ns es u k all.1 (ground arith)
]

pub upstream_rows-nil :
    (ns : List NodeRow) (es : List EdgeRow) (k : ℕ)
    → contains k (to_ids es) ≡ false
    → upstream_rows ns es k ≡ []
upstream_rows-nil ns [] k h = refl
upstream_rows-nil ns (e ∷ es) k h = ground (arith, upstream_rows-nil ns es k)

-- Both ends of an edge see each other.
pub downstream_rows_of_upstream :
    (ns : List NodeRow) (es : List EdgeRow) (u d : ℕ)
    → contains d (ids ns) ≡ true
    → contains u (ids (upstream_rows ns es d)) ≡ true
    → contains d (ids (downstream_rows ns es u)) ≡ true
downstream_rows_of_upstream ns [] u d m h = absurd (ground arith)
downstream_rows_of_upstream ns (e ∷ es) u d m h = elim (Bool-cases (e.to_node_id == d)) [
  | inl q ↦
      let split : contains u (ids (rows_of ns e.from_node_id) ++ ids (upstream_rows ns es d))
          ≡ true =
        rw (← ids-append (rows_of ns e.from_node_id) (upstream_rows ns es d)) (ground arith) in
      elim (||-true _ _ (
        rw (contains-append u (ids (rows_of ns e.from_node_id)) (ids (upstream_rows ns es d))) at
          split)) [
            | inl near ↦
                let same = rows_of-ids ns u e.from_node_id near in
                let target : e.to_node_id ≡ d = ground arith in
                let hit : (e.from_node_id == u) ≡ true = ground arith in
                let there : contains d (ids (rows_of ns e.to_node_id)) ≡ true =
                  rw target (ids-rows_of ns d m) in
                ground (
                  arith,
                  ids-append (rows_of ns e.to_node_id) (downstream_rows ns es u),
                  contains-append d (ids (rows_of ns e.to_node_id)) (ids (downstream_rows ns es u)),
                )
            | inr far ↦ keep (downstream_rows_of_upstream ns es u d m far)
          ]
  | inr q ↦ keep (downstream_rows_of_upstream ns es u d m (ground arith))
]
  where
    keep :
        contains d (ids (downstream_rows ns es u)) ≡ true
        → contains d (ids (downstream_rows ns (e ∷ es) u)) ≡ true
    keep later = ground (
      arith,
      ids-append (rows_of ns e.to_node_id) (downstream_rows ns es u),
      contains-append d (ids (rows_of ns e.to_node_id)) (ids (downstream_rows ns es u)),
    )

-- Every edge of the instance starts at a node of the instance (the foreign keys of the tables).
abbrev pub IsWellFormed : Graph → ℕ → Type 0
IsWellFormed g i =
    Each (λ e. contains e.from_node_id (ids (get_all_instance_nodes g i)) ≡ true)
      (edges_of g.edges i)

-- The rank grows along every edge of the instance, so its graph has no cycle.
abbrev pub IsRanked : Graph → ℕ → (ℕ → ℕ) → Type 0
IsRanked g i rank = Each (λ e. rank e.from_node_id < rank e.to_node_id) (edges_of g.edges i)

module _ (g : Graph) (i : ℕ) where
  pub instance_nodes-in_table :
      (k : ℕ)
      → contains k (ids (get_all_instance_nodes g i)) ≡ true
      → contains k (ids g.nodes) ≡ true
  unfolding get_all_instance_nodes
  instance_nodes-in_table k h =
      rw (select_all g.nodes) at
        (ids-select_mono (λ n. n.instance_id == i) (λ n. true) g.nodes k (λ n _ _. refl) h)
    where
      select_all : (ns : List NodeRow) → select (λ n. true) ns ≡ ns
      select_all [] = refl
      select_all (n ∷ ns) = rw (select_all ns)

  pub upstream-root :
      (k : ℕ) → contains k (ids (get_root_nodes g i)) ≡ true → upstream_ids g i k ≡ []
  unfolding upstream_ids get_upstream_nodes get_root_nodes
  upstream-root k h =
      let (n, same, test) = ids-select _ g.nodes k h in
      let outside : contains n.id (to_ids (edges_of g.edges i)) ≡ false = ground arith in
      rw (upstream_rows-nil g.nodes (edges_of g.edges i) k (rw same at outside))

  pub upstream_ids_edge :
      (Q : EdgeRow → Type 0) (u k : ℕ)
      → Each Q (edges_of g.edges i)
      → contains u (upstream_ids g i k) ≡ true
      → (e : EdgeRow) × (e.from_node_id ≡ u) × (e.to_node_id ≡ k) × Q e
  unfolding upstream_ids get_upstream_nodes
  upstream_ids_edge Q u k all h = upstream_rows_edge Q g.nodes (edges_of g.edges i) u k all h

  pub downstream_of_upstream :
      (u d : ℕ)
      → contains d (ids g.nodes) ≡ true
      → contains u (upstream_ids g i d) ≡ true
      → contains d (ids (get_downstream_nodes g i u)) ≡ true
  unfolding upstream_ids get_upstream_nodes get_downstream_nodes
  downstream_of_upstream u d m h = downstream_rows_of_upstream g.nodes (edges_of g.edges i) u d m h

all_in-nil : (xs : List ℕ) (a : ℕ) → all_in xs [] ≡ true → contains a xs ≡ true → ⊥
all_in-nil [] a h m = cc
all_in-nil (x ∷ xs) a h m = cc

pub not_in_to_ids :
    (ns : List NodeRow) (es : List EdgeRow) (k : ℕ)
    → Each (λ e. contains e.from_node_id (ids ns) ≡ true) es
    → all_in (ids (upstream_rows ns es k)) [] ≡ true
    → contains k (to_ids es) ≡ false
not_in_to_ids ns [] k all h = refl
not_in_to_ids ns (e ∷ es) k all h = elim (Bool-cases (e.to_node_id == k)) [
  | inl q ↦
      let near = ids-rows_of ns e.from_node_id all.0 in
      let joined : contains e.from_node_id (ids (upstream_rows ns (e ∷ es) k)) ≡ true = ground (
        arith,
        ids-append (rows_of ns e.from_node_id) (upstream_rows ns es k),
        contains-append e.from_node_id (ids (rows_of ns e.from_node_id))
            (ids (upstream_rows ns es k)),
      ) in
      absurd (all_in-nil (ids (upstream_rows ns (e ∷ es) k)) e.from_node_id h joined)
  | inr q ↦ ground (arith, not_in_to_ids ns es k all.1)
]

-- A node of the instance with no upstream node is a root.
pub root_of_no_upstream :
    (g : Graph) (i k : ℕ)
    → IsWellFormed g i
    → contains k (ids (get_all_instance_nodes g i)) ≡ true
    → all_in (upstream_ids g i k) [] ≡ true
    → contains k (ids (get_root_nodes g i)) ≡ true
unfolding upstream_ids get_upstream_nodes get_root_nodes get_all_instance_nodes
root_of_no_upstream g i k wf m h =
    let outside =
      not_in_to_ids g.nodes (edges_of g.edges i) k
        (Each-imp (edges_of g.edges i) (λ e. instance_nodes-in_table g i e.from_node_id) wf) h in
    ids-select_mono _ _ g.nodes k
      (λ n same test.
        let absent : contains n.id (to_ids (edges_of g.edges i)) ≡ false = rw same outside in
        ground arith)
      m
