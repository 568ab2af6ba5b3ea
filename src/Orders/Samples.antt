-- ===== src/Orders/Samples.antt =====
-- Small tables for the operations of backend/services/order_sync.py.
use manage_deploy.Common.{[], arith, none, refl, some, ◌∷◌, ◌≡◌}
use manage_deploy.Enums.{OrderStatus}
use manage_deploy.Orders.Integrity.{IsPurged, purge-IsPurged, purges-IsConsistent}
use manage_deploy.Orders.Sync.{
  purge_instance_artifacts_preserve_evidence, purge_order_instance_artifacts,
  purge_order_instances_by_source_order, reconcile_orphan_orders,
}
use manage_deploy.Orders.Tables.{IsConsistent, Tables}

-- Instances 1 and 2; instance 1 has two nodes and an edge.
abbrev two_instances : Tables
two_instances = record {
  orders =
      record {
        id = 30;
        status = OrderStatus.materialized;
        materialized_instance_id = some 1;
        error_message = none;
      }
      ∷ record {
        id = 31;
        status = OrderStatus.materialized;
        materialized_instance_id = some 9;
        error_message = none;
      }
      ∷ [];
  instances =
      record { id = 1; source_order_id = some 30 } ∷ record { id = 2; source_order_id = none } ∷ [];
  nodes =
      record { id = 11; instance_id = 1 }
      ∷ record { id = 12; instance_id = 1 }
      ∷ record { id = 21; instance_id = 2 }
      ∷ [];
  edges = record { instance_id = 1; from_node_id = 11; to_node_id = 12 } ∷ [];
  events = record { id = 70; instance_id = 1 } ∷ [];
  evaluations = record { id = 71; instance_id = 1 } ∷ [];
  results = record { id = 72; instance_id = 2 } ∷ [];
  metrics = record { id = 73; instance_id = 1 } ∷ [];
}

two_instances-IsConsistent : IsConsistent two_instances
two_instances-IsConsistent = ground arith

purges-IsConsistent_example :
    IsConsistent (purge_order_instance_artifacts (some 1) two_instances)
    × IsConsistent (purge_order_instances_by_source_order 30 two_instances).0
    × IsConsistent (purge_instance_artifacts_preserve_evidence (some 1) two_instances).0
purges-IsConsistent_example =
    purges-IsConsistent (some 1) 30 two_instances two_instances-IsConsistent

purge-IsPurged_example :
    IsPurged 1 (purge_order_instance_artifacts (some 1) two_instances)
    × ((purge_order_instance_artifacts (some 1) two_instances).metrics ≡ two_instances.metrics)
purge-IsPurged_example = purge-IsPurged 1 two_instances two_instances-IsConsistent

-- Order 31 names an instance that is not there.
one_orphan : (reconcile_orphan_orders two_instances).1 ≡ 1
unfolding reconcile_orphan_orders
one_orphan = refl
