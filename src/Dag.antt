-- ===== src/Dag.antt =====
-- backend/services/dag_executor.py: the executor that starts and stops the containers of a task
-- instance along its dependency graph. `Graph` has the tables and the graph queries, `Nodes` the
-- operations on one node, `Start` and `Stop` the two concurrent loops.
pub mod Graph
pub mod Messages
pub mod Nodes
pub mod Start
pub mod Stop
