-- ===== src/Orders.antt =====
-- backend/services/order_sync.py: orders and the instances that they were turned into. `Tables` has
-- the rows, `Sync` the operations; `Integrity` and `Effects` prove what they leave behind.
pub mod Tables
pub mod Sync
pub mod Integrity
pub mod Effects
mod Samples
