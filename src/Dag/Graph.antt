-- ===== src/Dag/Graph.antt =====
-- The graph queries of backend/services/dag_executor.py over the tables of a task instance. The
-- columns here are those that the executor reads and never writes. An identifier is a string that
-- the code only compares, and stands here as a number.
pub mod Lookup
pub mod Neighbours
pub mod Reversed
use manage_deploy.Common.{
  ℕ, Bool, not, ◌&&◌, List, [], ◌∷◌, ◌++◌, ◌==◌, if◌then◌else◌, contains, select, Option, find,
}

pub record NodeRow : Type 0 where
  pub id : ℕ
  pub instance_id : ℕ
  pub node_id : ℕ
  pub scratch : Bool

pub record EdgeRow : Type 0 where
  pub instance_id : ℕ
  pub from_node_id : ℕ
  pub to_node_id : ℕ

pub record Graph : Type 0 where
  pub nodes : List NodeRow
  pub edges : List EdgeRow
  pub machines : List ℕ
  pub templates : List ℕ

abbrev pub ids : List NodeRow → List ℕ
ids [] = []
ids (n ∷ ns) = n.id ∷ ids ns

-- The edges of one instance.
abbrev pub edges_of : List EdgeRow → ℕ → List EdgeRow
edges_of es i = select (λ e. e.instance_id == i) es

abbrev pub to_ids : List EdgeRow → List ℕ
to_ids [] = []
to_ids (e ∷ es) = e.to_node_id ∷ to_ids es

abbrev pub from_ids : List EdgeRow → List ℕ
from_ids [] = []
from_ids (e ∷ es) = e.from_node_id ∷ from_ids es

unfoldable pub get_root_nodes : Graph → ℕ → List NodeRow
get_root_nodes g i =
    select (λ n. n.instance_id == i && not (contains n.id (to_ids (edges_of g.edges i)))) g.nodes

unfoldable pub get_leaf_nodes : Graph → ℕ → List NodeRow
get_leaf_nodes g i =
    select (λ n. n.instance_id == i && not (contains n.id (from_ids (edges_of g.edges i)))) g.nodes

-- The rows of the joined node table that an edge's end names.
abbrev pub rows_of : List NodeRow → ℕ → List NodeRow
rows_of ns k = select (λ n. n.id == k) ns

abbrev pub downstream_rows : List NodeRow → List EdgeRow → ℕ → List NodeRow
downstream_rows ns [] k = []
downstream_rows ns (e ∷ es) k =
    let rest = downstream_rows ns es k in
    if e.from_node_id == k then rows_of ns e.to_node_id ++ rest else rest

abbrev pub upstream_rows : List NodeRow → List EdgeRow → ℕ → List NodeRow
upstream_rows ns [] k = []
upstream_rows ns (e ∷ es) k =
    let rest = upstream_rows ns es k in
    if e.to_node_id == k then rows_of ns e.from_node_id ++ rest else rest

unfoldable pub get_downstream_nodes : Graph → ℕ → ℕ → List NodeRow
get_downstream_nodes g i k = downstream_rows g.nodes (edges_of g.edges i) k

unfoldable pub get_upstream_nodes : Graph → ℕ → ℕ → List NodeRow
get_upstream_nodes g i k = upstream_rows g.nodes (edges_of g.edges i) k

unfoldable pub get_node_by_id : Graph → ℕ → Option NodeRow
get_node_by_id g k = find (λ n. n.id == k) g.nodes

unfoldable pub get_all_instance_nodes : Graph → ℕ → List NodeRow
get_all_instance_nodes g i = select (λ n. n.instance_id == i) g.nodes

unfoldable pub upstream_ids : Graph → ℕ → ℕ → List ℕ
upstream_ids g i k = ids (get_upstream_nodes g i k)

unfoldable pub downstream_ids : Graph → ℕ → ℕ → List ℕ
downstream_ids g i k = ids (get_downstream_nodes g i k)
