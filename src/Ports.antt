-- ===== src/Ports.antt =====
-- Host ports: backend/services/port_plan.py, backend/services/auto_port_allocator.py and
-- node_agent/port_utils.py. `Extract` reads the ports of a mapping, `Search` looks for free ones,
-- `Allocate` fills the automatic ports of a node, `Conflicts` compares plans with running nodes.
pub mod Extract
pub mod Ascending
pub mod Search
pub mod Allocate
pub mod Conflicts
pub mod Resolve
pub mod Bindings
pub mod RoundTrip
mod Samples
