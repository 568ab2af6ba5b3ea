-- ===== src/Dag/Stop.antt =====
-- `execute_dag_stop` (backend/services/dag_executor.py): the loop that stops the nodes of an instance
-- against the order of its graph, at most ten at a time, with the coroutines `_stop_node_async`.
pub mod Loop
pub mod Cover
pub mod Steps
pub mod Outcome
mod Live
pub mod Progress
pub mod Weights
pub mod Keys
pub mod Turns
pub mod Found
pub mod Measure
pub mod Below
pub mod Termination
mod Samples
