-- ===== src/Dag/Start.antt =====
-- `execute_dag_start` (backend/services/dag_executor.py): the loop that starts the nodes of an
-- instance in the order of its graph, at most ten at a time, with its coroutines.
pub mod State
pub mod Loop
pub mod Monitor
pub mod Entry
mod Moves
mod Order
pub mod Tasks
pub mod Cover
mod Idle
pub mod Outcome
mod Schedules
mod Live
pub mod Progress
mod Samples
