-- ===== src/Orders/Sync.antt =====
-- backend/services/order_sync.py: the operations that keep orders and instances in step.
use manage_deploy.Common.{
  Bool, List, Option, [], contains, false, if◌then◌else◌, none, not, select, some, true, ℕ, ◌&&◌,
  ◌+◌, ◌==◌, ◌||◌, ◌∷◌,
}
use manage_deploy.Enums.{OrderStatus, is_materialized}
use manage_deploy.Orders.Tables.{
  EdgeKey, InstanceRow, OrderError, Tables, TaskOrder, exists, instance_deleted, instance_gone,
  instance_ids, is_instance, nodes_of, without,
}

abbrev pub keep_error : Option OrderError → OrderError → Option OrderError
keep_error none e = some e
keep_error (some old) e = some old

-- Changes the orders that pass a test, and counts them.
abbrev pub change_orders :
    (TaskOrder → Bool) → (TaskOrder → TaskOrder) → List TaskOrder → List TaskOrder
change_orders p f [] = []
change_orders p f (o ∷ os) = (if p o then f o else o) ∷ change_orders p f os

abbrev pub count_orders : (TaskOrder → Bool) → List TaskOrder → ℕ
count_orders p [] = 0
count_orders p (o ∷ os) = let rest = count_orders p os in if p o then rest + 1 else rest

abbrev pub cancelled_order : (ℕ → OrderError) → ℕ → TaskOrder → TaskOrder
cancelled_order why i o = record o {
  status = OrderStatus.cancelled;
  materialized_instance_id = none;
  error_message = keep_error o.error_message (why i);
}

unfoldable pub mark_orders_cancelled_for_instance : ℕ → Tables → Tables × ℕ
mark_orders_cancelled_for_instance i t = (
  record t {
    orders =
        change_orders (λ o. is_instance i o.materialized_instance_id)
          (cancelled_order instance_deleted i) t.orders;
  },
  count_orders (λ o. is_instance i o.materialized_instance_id) t.orders,
)

abbrev pub completes : ℕ → TaskOrder → Bool
completes i o = is_instance i o.materialized_instance_id && is_materialized o.status

unfoldable pub mark_orders_completed_for_instance : ℕ → Tables → Tables × ℕ
mark_orders_completed_for_instance i t = (
  record t {
    orders =
        change_orders (completes i) (λ o. record o { status = OrderStatus.completed }) t.orders;
  },
  count_orders (completes i) t.orders,
)

-- A materialized order whose instance is gone.
abbrev pub is_orphan : Tables → TaskOrder → Bool
is_orphan t o =
    is_materialized o.status
    && elim o.materialized_instance_id [ none ↦ false | some i ↦ not (exists t i) ]

abbrev pub orphaned_order : TaskOrder → TaskOrder
orphaned_order o = elim o.materialized_instance_id [
  | none ↦ o
  | some i ↦ cancelled_order instance_gone i o
]

unfoldable pub reconcile_orphan_orders : Tables → Tables × ℕ
reconcile_orphan_orders t = (
  record t { orders = change_orders (is_orphan t) orphaned_order t.orders },
  count_orders (is_orphan t) t.orders,
)

abbrev pub touches : List ℕ → EdgeKey → Bool
touches ks e = contains e.from_node_id ks || contains e.to_node_id ks

-- The deletions from the edges up to the instance itself.
unfoldable pub delete_runtime : ℕ → Tables → Tables
delete_runtime i t = record t {
  edges = select (λ e. not (touches (nodes_of t.nodes i) e)) t.edges;
  nodes = select (λ n. not (n.instance_id == i)) t.nodes;
  instances = select (λ r. not (r.id == i)) t.instances;
}

unfoldable pub delete_evidence : ℕ → Tables → Tables
delete_evidence i t = record t {
  evaluations = without i t.evaluations;
  results = without i t.results;
  events = without i t.events;
}

unfoldable pub purge_order_instance_artifacts : Option ℕ → Tables → Tables
purge_order_instance_artifacts none t = t
purge_order_instance_artifacts (some i) t =
    let t' = delete_evidence i t in if exists t i then delete_runtime i t' else t'

unfoldable pub purge_all : List ℕ → Tables → Tables
purge_all [] t = t
purge_all (i ∷ is) t = purge_all is (purge_order_instance_artifacts (some i) t)

abbrev pub instances_by_source : ℕ → List InstanceRow → List ℕ
instances_by_source o rows = instance_ids (select (λ r. is_instance o r.source_order_id) rows)

unfoldable pub purge_order_instances_by_source_order : ℕ → Tables → Tables × List ℕ
unfolding purge_all
purge_order_instances_by_source_order o t =
    let found = instances_by_source o t.instances in (purge_all found t, found)

unfoldable pub purge_instance_artifacts_preserve_evidence : Option ℕ → Tables → Tables × Bool
purge_instance_artifacts_preserve_evidence none t = (t, false)
purge_instance_artifacts_preserve_evidence (some i) t =
    if exists t i
    then (delete_runtime i (record t { events = without i t.events }), true)
    else (t, false)
