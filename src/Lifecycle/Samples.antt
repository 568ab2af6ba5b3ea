-- ===== src/Lifecycle/Samples.antt =====
-- The end of a small instance (backend/services/instance_lifecycle.py).
use manage_deploy.Common.{Bool, [], false, length, none, refl, some, true, ℕ, ◌∷◌, ◌≡◌}
use manage_deploy.Dag.Graph.{Graph, NodeRow}
use manage_deploy.Dag.Nodes.{Store}
use manage_deploy.Dag.Nodes.{remove_node}
use manage_deploy.Dag.Graph.{get_all_instance_nodes}
use manage_deploy.Orders.Sync.{completes, count_orders}
use manage_deploy.Enums.{NodeStatus, OrderStatus}
use manage_deploy.Lifecycle.{
  AgentReply, World, answered, auto_cleanup_instance, cleanup_instance_runtime, cleanup_nodes,
  has_runtime, raised, remove_one, run_stop,
}
use manage_deploy.Lifecycle.Ending.{
  IsEnded, auto_cleanup-IsEnded, run_stop-IsEnded, run_stop-releases,
}
use manage_deploy.Lifecycle.Runtime.{cleanup-clean, store_of}
use manage_deploy.Orders.Tables.{IsConsistent, Tables}
use manage_deploy.Releases.{emit_release_events_for_instance, Order, Role, dict}

abbrev row : ℕ → NodeRow
row k = record { id = k; instance_id = 7; node_id = 50; scratch = false }

abbrev two_nodes : Graph
two_nodes = record {
  nodes = row 1 ∷ row 2 ∷ [];
  edges = [];
  machines = 50 ∷ [];
  templates = 60 ∷ [];
}

abbrev stopped_store : Store
stopped_store = record {
  instance_row = none;
  node_state = λ k. record {
    status = NodeStatus.stopped;
    container_id = some 9;
    container_name = none;
    error_message = none;
  };
  events = [];
}

abbrev fine : ℕ → AgentReply
fine k =
    answered (record { success = true; status_code = some 200; error = []; container_id = none })

abbrev down : ℕ → AgentReply
down k = raised (1 ∷ [])

abbrev some_tables : Tables
some_tables = record {
  orders =
      record {
        id = 3;
        status = OrderStatus.materialized;
        materialized_instance_id = some 7;
        error_message = none;
      }
      ∷ [];
  instances = record { id = 7; source_order_id = some 3 } ∷ [];
  nodes = record { id = 1; instance_id = 7 } ∷ record { id = 2; instance_id = 7 } ∷ [];
  edges = record { instance_id = 7; from_node_id = 1; to_node_id = 2 } ∷ [];
  events = [];
  evaluations = record { id = 1; instance_id = 7 } ∷ [];
  results = [];
  metrics = record { id = 1; instance_id = 7 } ∷ [];
}

some_tables-IsConsistent : IsConsistent some_tables
some_tables-IsConsistent = record {
  nodes_belong = (refl, (refl, tt));
  edges_belong = (refl, tt);
  edges_join = ((refl, refl), tt);
}

abbrev placed : Order
placed = record {
  id = 3;
  materialized_instance_id = some 7;
  external_routing_id = none;
  benchmark_run_id = none;
  task_type = none;
  placements =
      dict (record { role = Role.compute; topology_node_id = some 2; gpu_device = some 0 }) ∷ [];
}

abbrev no_conflict : ℕ → ℕ → ℕ → Bool
no_conflict o h d = false

abbrev world : World
world = record { store = stopped_store; tables = some_tables; releases = [] }

cleanup-clean_example :
    has_runtime ((store_of (cleanup_instance_runtime two_nodes 7 fine stopped_store)).node_state 2)
    ≡ false
unfolding cleanup_instance_runtime cleanup_nodes remove_one remove_node get_all_instance_nodes
cleanup-clean_example = cleanup-clean two_nodes 7 fine stopped_store 1 (row 2) refl refl refl

auto_cleanup-IsEnded_example :
    let after = (auto_cleanup_instance two_nodes 7 down [] no_conflict (placed ∷ []) 1 world).0 in
    IsEnded 7 after × (after.tables.orders ≡ some_tables.orders)
auto_cleanup-IsEnded_example =
    auto_cleanup-IsEnded two_nodes 7 down [] no_conflict (placed ∷ []) 1 world
      some_tables-IsConsistent

run_stop-IsEnded_example :
    (count_orders
        (completes 7)
        (run_stop two_nodes 7 fine [] no_conflict (placed ∷ []) 1 2 true world).tables.orders
      ≡ 0)
    × IsEnded 7 (run_stop two_nodes 7 fine [] no_conflict (placed ∷ []) 1 2 false world)
run_stop-IsEnded_example =
    run_stop-IsEnded two_nodes 7 fine [] no_conflict (placed ∷ []) 1 2 true world
      some_tables-IsConsistent refl

run_stop-releases_example :
    (run_stop two_nodes 7 fine [] no_conflict (placed ∷ []) 1 2 false world).releases
    ≡ (run_stop two_nodes 7 fine [] no_conflict (placed ∷ []) 1 2 true world).releases
run_stop-releases_example =
    run_stop-releases two_nodes 7 fine [] no_conflict (placed ∷ []) 1 2 world

-- One event goes out.
one_release :
    length (run_stop two_nodes 7 fine [] no_conflict (placed ∷ []) 1 2 false world).releases ≡ 1
unfolding run_stop emit_release_events_for_instance
one_release = refl
