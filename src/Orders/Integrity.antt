-- ===== src/Orders/Integrity.antt =====
-- The foreign keys of the runtime tables under the purges of backend/services/order_sync.py.
use mathlib.Core.Path.{subst}
use manage_deploy.Common.{
  ==_iff, Bool-cases, Each, Each-all, Each-and, Each-imp, Each-select, List, Option, [], arith,
  contains, false, inl, inr, none, not, refl, select, some, true, ℕ, ◌==◌, ◌∷◌, ◌≡◌,
}
use manage_deploy.Orders.Sync.{
  delete_evidence, delete_runtime, instances_by_source, purge_all,
  purge_instance_artifacts_preserve_evidence, purge_order_instance_artifacts,
  purge_order_instances_by_source_order, touches,
}
use manage_deploy.Orders.Tables.{
  EdgeKey, Evidence, InstanceRow, IsConsistent, NodeKey, Tables, exists, instance_ids, nodes_of,
  without,
}

instance_ids-select :
    (rows : List InstanceRow) (i k : ℕ)
    → (k == i) ≡ false
    → contains k (instance_ids rows) ≡ true
    → contains k (instance_ids (select (λ r. not (r.id == i)) rows)) ≡ true
instance_ids-select [] i k e h = h
instance_ids-select (r ∷ rows) i k e h = ground (arith, instance_ids-select rows i k e)

-- The nodes of another instance stay.
nodes_of-select :
    (ns : List NodeKey) (i j : ℕ)
    → (j == i) ≡ false
    → nodes_of (select (λ n. not (n.instance_id == i)) ns) j ≡ nodes_of ns j
nodes_of-select [] i j e = refl
nodes_of-select (n ∷ ns) i j e = ground (arith, nodes_of-select ns i j e)

-- An edge that stays is one of another instance.
other_edge :
    (i : ℕ) (t : Tables) (e : EdgeKey)
    → contains e.from_node_id (nodes_of t.nodes e.instance_id) ≡ true
    → touches (nodes_of t.nodes i) e ≡ false
    → (e.instance_id == i) ≡ false
other_edge i t e joins kept = elim (Bool-cases (e.instance_id == i)) [
  | inr q ↦ q
  | inl q ↦
      let same : e.instance_id ≡ i = (==_iff e.instance_id i).0 q in
      let inside : contains e.from_node_id (nodes_of t.nodes i) ≡ true =
        subst (λ k. contains e.from_node_id (nodes_of t.nodes k) ≡ true) same joins in
      absurd (ground arith)
]

delete_runtime-IsConsistent :
    (i : ℕ) (t : Tables) → IsConsistent t → IsConsistent (delete_runtime i t)
unfolding delete_runtime
delete_runtime-IsConsistent i t h = record {
  nodes_belong =
      Each-select _ _ _ t.nodes
        (λ n kept belongs. instance_ids-select t.instances i n.instance_id (ground arith) belongs)
        h.nodes_belong;
  edges_belong =
      Each-select _ _ _ t.edges
        (λ e kept both.
          instance_ids-select t.instances i e.instance_id (other_edge i t e both.1.0 (ground arith))
            both.0)
        (Each-and _ _ t.edges h.edges_belong h.edges_join);
  edges_join =
      Each-select _ _ _ t.edges
        (λ e kept joins.
          let same =
            nodes_of-select t.nodes i e.instance_id (other_edge i t e joins.0 (ground arith)) in
          (rw same joins.0, rw same joins.1))
        h.edges_join;
}

delete_evidence-IsConsistent :
    (i : ℕ) (t : Tables) → IsConsistent t → IsConsistent (delete_evidence i t)
unfolding delete_evidence
delete_evidence-IsConsistent i t h = record {
  nodes_belong = h.nodes_belong;
  edges_belong = h.edges_belong;
  edges_join = h.edges_join;
}

pub purge-IsConsistent :
    (i : Option ℕ) (t : Tables) → IsConsistent t → IsConsistent (purge_order_instance_artifacts i t)
unfolding purge_order_instance_artifacts
purge-IsConsistent none t h = h
purge-IsConsistent (some i) t h = elim (Bool-cases (exists t i)) [
  | inl e ↦ rw e (delete_runtime-IsConsistent i _ (delete_evidence-IsConsistent i t h))
  | inr e ↦ rw e (delete_evidence-IsConsistent i t h)
]

purge_all-IsConsistent : (is : List ℕ) (t : Tables) → IsConsistent t → IsConsistent (purge_all is t)
unfolding purge_all
purge_all-IsConsistent [] t h = h
purge_all-IsConsistent (i ∷ is) t h = purge_all-IsConsistent is _ (purge-IsConsistent (some i) t h)

preserve-IsConsistent :
    (i : Option ℕ) (t : Tables)
    → IsConsistent t
    → IsConsistent (purge_instance_artifacts_preserve_evidence i t).0
unfolding purge_instance_artifacts_preserve_evidence
preserve-IsConsistent none t h = h
preserve-IsConsistent (some i) t h = elim (Bool-cases (exists t i)) [
  | inl e ↦ rw e (
      delete_runtime-IsConsistent i _ (record {
        nodes_belong = h.nodes_belong;
        edges_belong = h.edges_belong;
        edges_join = h.edges_join;
      }))
  | inr e ↦ rw e h
]

-- The three purges keep the foreign keys: where every node and every edge belongs to an instance and
-- every edge joins two nodes of its own instance before, so it is behind.
pub purges-IsConsistent :
    (i : Option ℕ) (order : ℕ) (t : Tables)
    → IsConsistent t
    → IsConsistent (purge_order_instance_artifacts i t)
      × IsConsistent (purge_order_instances_by_source_order order t).0
      × IsConsistent (purge_instance_artifacts_preserve_evidence i t).0
unfolding purge_order_instances_by_source_order
purges-IsConsistent i order t h = (
  purge-IsConsistent i t h,
  purge_all-IsConsistent (instances_by_source order t.instances) t h,
  preserve-IsConsistent i t h,
)

-- No row of an instance is left but its metrics.
pub record IsPurged (i : ℕ) (t : Tables) : Type 0 where
  pub instances : exists t i ≡ false
  pub nodes : Each (λ n. (n.instance_id == i) ≡ false) t.nodes
  pub edges : Each (λ e. (e.instance_id == i) ≡ false) t.edges
  pub events : Each (λ r. (r.instance_id == i) ≡ false) t.events
  pub evaluations : Each (λ r. (r.instance_id == i) ≡ false) t.evaluations
  pub results : Each (λ r. (r.instance_id == i) ≡ false) t.results

without-Each :
    (i : ℕ) (rows : List Evidence) → Each (λ r. (r.instance_id == i) ≡ false) (without i rows)
without-Each i rows =
    Each-select (λ r. Unit {0}) _ _ rows (λ r kept u. ground arith) (Each-all _ rows (λ r. tt))

instance_ids-absent :
    (rows : List InstanceRow) (i : ℕ)
    → contains i (instance_ids (select (λ r. not (r.id == i)) rows)) ≡ false
instance_ids-absent [] i = refl
instance_ids-absent (r ∷ rows) i = ground (arith, instance_ids-absent rows i)

other_instance :
    (rows : List ℕ) (i j : ℕ) → contains i rows ≡ false → contains j rows ≡ true → (j == i) ≡ false
other_instance [] i j h m = absurd (ground arith)
other_instance (r ∷ rows) i j h m = ground (arith, other_instance rows i j)

-- Purging an instance leaves no row of it but its metrics: not the instance, no node, edge, event,
-- evaluation or result; every metric stays. The foreign keys hold before, and every edge joins two
-- nodes of its own instance.
pub purge-IsPurged :
    (i : ℕ) (t : Tables)
    → IsConsistent t
    → IsPurged i (purge_order_instance_artifacts (some i) t)
      × ((purge_order_instance_artifacts (some i) t).metrics ≡ t.metrics)
unfolding purge_order_instance_artifacts delete_runtime delete_evidence
purge-IsPurged i t h = elim (Bool-cases (exists t i)) [
  | inl e ↦ rw e (
    record {
      instances = instance_ids-absent t.instances i;
      nodes = Each-select _ _ _ t.nodes (λ n kept u. ground arith) h.nodes_belong;
      edges =
          Each-select _ _ _ t.edges (λ d kept joins. other_edge i t d joins.0 (ground arith))
            h.edges_join;
      events = without-Each i t.events;
      evaluations = without-Each i t.evaluations;
      results = without-Each i t.results;
    },
    refl,
  )
  | inr e ↦ rw e (
    record {
      instances = e;
      nodes =
          Each-imp t.nodes
            (λ n belongs. other_instance (instance_ids t.instances) i n.instance_id e belongs)
            h.nodes_belong;
      edges =
          Each-imp t.edges
            (λ d belongs. other_instance (instance_ids t.instances) i d.instance_id e belongs)
            h.edges_belong;
      events = without-Each i t.events;
      evaluations = without-Each i t.evaluations;
      results = without-Each i t.results;
    },
    refl,
  )
]
