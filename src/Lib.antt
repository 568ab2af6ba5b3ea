-- ===== src/Lib.antt =====
-- Verification library of the deployment platform: the services of the backend that start, watch,
-- stop and clean up the containers of a task, with the data they keep.
--
-- A task instance is a graph of nodes, each a container on a machine. An order is materialized as
-- an instance; the scheduler starts and stops it at its times; the DAG executor asks the agents of
-- the machines to start the nodes in the order of the graph, waits for the health of each, and
-- stops them the other way round. When an instance ends, its orders are completed or cancelled, the
-- GPUs of its placements are released by events to the routing system, and its rows are purged.
-- Before, an external router places the parts of an order on hosts and GPUs; its result is checked
-- against the GPU slots of the other orders and turns the order into an instance. Orders of a
-- benchmark are started in rounds, a few at a time for each slot.
-- Ports of the nodes are allocated before, and checked against those of running nodes; a finished
-- task is evaluated against its business objective.
--
-- Files and code:
--   Common: lists, options, sets as lists without repetition, maps as association lists, and the
--   predicates `Each`, over the native numbers; no code of its own.
--   Enums: backend/enums.py.
--   Dag.Graph: the queries of backend/services/dag_executor.py (get_root_nodes, get_leaf_nodes,
--   get_upstream_nodes, get_downstream_nodes, get_node_by_id, get_all_instance_nodes,
--   _get_upstream_ids, _get_downstream_ids). Lookup, Neighbours and Reversed are its lemmas.
--   Dag.Messages, Dag.Nodes: the texts, and the operations on one node (start_node, stop_node,
--   remove_node, update_node_status, update_task_status, _record_agent_failure_event) over a store of
--   the instance, its nodes and the events.
--   Dag.Start: execute_dag_start with its coroutines start_and_monitor and _rollback_started_nodes.
--   `advance` is one step of the loop and `start_and_monitor` one of a coroutine, each up to the next
--   await; `Step` and `Reach` are the steps in whatever order the event loop takes them.
--   Dag.Stop: execute_dag_stop with the coroutines _stop_node_async, likewise.
--   Termination bounds its steps; Weights, Keys, Turns, Found, Measure and Below are the measure that
--   each step makes less.
--   Health: backend/services/health_checker.py (wait_for_health, _wait_for_running,
--   _perform_health_check and the four checks).
--   Orders: backend/services/order_sync.py, all six operations over tables as lists of rows.
--   Releases: backend/services/routing_resource_events.py (emit_release_events_for_order,
--   emit_release_events_for_instance).
--   Ports: extract_host_ports, extract_ports_from_values and find_running_port_conflict_records of
--   backend/services/port_plan.py, find_available_ports of node_agent/port_utils.py, and
--   _allocate_from_range and auto_allocate_ports of backend/services/auto_port_allocator.py. Resolve:
--   resolve_port_values of backend/services/instance_builder.py and ports_map_from_host_ports of
--   node_agent/port_utils.py; Bindings and RoundTrip are about the way back from such mappings.
--   Routing: receive_routing_result and cancel_order of backend/api/orders.py over a board of orders,
--   instances and jobs. Placements: the placements and who deploys them; Board: the tables and
--   _ensure_no_active_gpu_slot_conflicts; Result: the handler in two parts, since it commits the
--     instance (`accept_result`, with _create_instance_from_template of backend/api/instances.py)
--   before
--   it writes the order (`bind_instance`); a refusal rolls back what is not committed. Router:
--   claim_routing_order, requeue_routing_order, fail_routing_order, receive_routing_order_result and
--     confirm_routing_order_network_ready of backend/api/routing.py; what execute_dag_start makes
--   of the
--     statuses is an argument. Received, Apart, Rows: lemmas. Guard: what the check of the slots is
--   worth.
--   Instances: start_instance, _start_instance_with_preflight and batch_start_instances of
--   backend/api/instances.py, with instance_waiting_for_network_ready of
--     backend/services/routing_network.py, over a session as get_db of backend/database.py commits
--   it or
--     rolls it back. What the check of the plan and execute_dag_start come to is an argument.
--   Agree, Batch, Waits: the two ways to start, the batch, and the wait for the network.
--   Benchmark: _benchmark_compute_slot of backend/api/orders.py and the loop of
--   _advance_controlled_benchmark_run there that starts instances.
--   Scheduling: TaskScheduler and restore_pending_jobs of backend/services/scheduler.py, with
--   next_business_time of backend/services/time_utils.py.
--   Lifecycle: cleanup_instance_runtime and auto_cleanup_instance of
--   backend/services/instance_lifecycle.py, and the job _run_stop of backend/services/scheduler.py
--   behind its execute_dag_stop.
--   Evaluation: backend/services/business_evaluator.py.
--   A module Samples beside each component runs it on concrete data.
--
-- Conventions. An identifier, a name or another string that the code only compares is a number; a
-- text
-- that the code builds is a constructor of a type of messages. A database query is a selection from a
-- list of rows. The answers of the agents, of the sockets and of the database's constraints are
-- arguments, so that a theorem holds for every one of them. What a Python set or the event loop
-- chooses is an argument `choice` of the step. Two loops end with the range they go over, and so are
-- recursive on the number of rounds left: the attempts of a health check, and the ports of a range.
-- The loops of the executor are steps with no fuel: the theorems on them speak of every state that is
-- reached, of the step that leaves, and of a next step in every state but the end; the steps of a
-- stop are bounded by a number made of the nodes and edges of the instance. A theorem on
-- receive_routing_result as a whole is about a run in which nothing else writes between its two
-- parts;
-- what two runs at the same time come to is run in Routing.Samples. Times are whole seconds. A port
-- is a number from 1 to 65535 as
-- the code checks; no number is of a machine width.
--
-- Not modelled: the HTTP handlers (backend/api) but those named above, the routing requests and
-- conversations that they keep in step with an order, the parsing of intents by regular expressions
-- and by
-- a language model, the content of the container requests and the environment variables of the
-- containers, the routing payloads, the Docker and socket calls of the node agent, the workers, the
-- front end, and the scripts. An exception of the database is not modelled.
pub mod Common
pub mod Enums
pub mod Dag
pub mod Health
pub mod Orders
pub mod Releases
pub mod Ports
pub mod Scheduling
pub mod Evaluation
pub mod Lifecycle
pub mod Routing
pub mod Benchmark
pub mod Instances
