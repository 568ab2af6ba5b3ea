-- ===== src/Routing.antt =====
-- How an order is turned into an instance when the external router sends its result: the handlers
-- receive_routing_result and cancel_order of backend/api/orders.py with the tables that they read
-- and write. `Placements` has the placements and the deployment policy, `Board` the tables, `Result`
-- and `Cancel` the handlers, `Router` those of the router in backend/api/routing.py; the others are
-- proofs on these.
pub mod Placements
pub mod Board
pub mod Result
pub mod Cancel
pub mod Router
pub mod Rows
pub mod Received
pub mod Apart
pub mod Guard
pub mod Replies
mod Samples
