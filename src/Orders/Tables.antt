-- ===== src/Orders/Tables.antt =====
-- The tables that backend/services/order_sync.py reads and writes (backend/models/__init__.py), with
-- the columns that it uses. An identifier is a number; an empty one is not distinguished from none.
use manage_deploy.Common.{
  Bool, Each, List, Option, [], contains, false, none, not, select, some, true, ℕ, ◌==◌, ◌∷◌, ◌≡◌,
}
use manage_deploy.Enums.{OrderStatus}

-- `order.error_message`: what is there, or one of the two texts that are written.
pub data OrderError : Type 0 where
  stored : ℕ → OrderError
  instance_deleted : ℕ → OrderError
  instance_gone : ℕ → OrderError

pub record TaskOrder : Type 0 where
  pub id : ℕ
  pub status : OrderStatus
  pub materialized_instance_id : Option ℕ
  pub error_message : Option OrderError

pub record InstanceRow : Type 0 where
  pub id : ℕ
  pub source_order_id : Option ℕ

pub record NodeKey : Type 0 where
  pub id : ℕ
  pub instance_id : ℕ

pub record EdgeKey : Type 0 where
  pub instance_id : ℕ
  pub from_node_id : ℕ
  pub to_node_id : ℕ

-- An evaluation, a result object, a metric or an event, of which only the instance matters.
pub record Evidence : Type 0 where
  pub id : ℕ
  pub instance_id : ℕ

pub record Tables : Type 0 where
  pub orders : List TaskOrder
  pub instances : List InstanceRow
  pub nodes : List NodeKey
  pub edges : List EdgeKey
  pub events : List Evidence
  pub evaluations : List Evidence
  pub results : List Evidence
  pub metrics : List Evidence

abbrev pub instance_ids : List InstanceRow → List ℕ
instance_ids [] = []
instance_ids (r ∷ rs) = r.id ∷ instance_ids rs

abbrev pub node_ids : List NodeKey → List ℕ
node_ids [] = []
node_ids (n ∷ ns) = n.id ∷ node_ids ns

abbrev pub is_instance : ℕ → Option ℕ → Bool
is_instance i none = false
is_instance i (some j) = j == i

-- `delete(T).where(T.instance_id == instance_id)`
abbrev pub without : ℕ → List Evidence → List Evidence
without i rows = select (λ r. not (r.instance_id == i)) rows

-- The nodes of the instance, `instance.nodes`.
abbrev pub nodes_of : List NodeKey → ℕ → List ℕ
nodes_of ns i = node_ids (select (λ n. n.instance_id == i) ns)

-- `select(TaskInstance)…scalar_one_or_none() is not None`
abbrev pub exists : Tables → ℕ → Bool
exists t i = contains i (instance_ids t.instances)

-- The foreign keys of the nodes and the edges; an edge joins nodes of its own instance.
pub record IsConsistent (t : Tables) : Type 0 where
  pub nodes_belong : Each (λ n. contains n.instance_id (instance_ids t.instances) ≡ true) t.nodes
  pub edges_belong : Each (λ e. contains e.instance_id (instance_ids t.instances) ≡ true) t.edges
  pub edges_join :
      Each
        (λ e.
          (contains e.from_node_id (nodes_of t.nodes e.instance_id) ≡ true)
          × (contains e.to_node_id (nodes_of t.nodes e.instance_id) ≡ true))
        t.edges
