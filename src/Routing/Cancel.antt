-- ===== src/Routing/Cancel.antt =====
-- The handler cancel_order (backend/api/orders.py) on the order's row. Whether the user owns the
-- order or is an administrator is an argument. The release events are those of `Releases`; the
-- conversation and the routing request of the order are not modelled.
use manage_deploy.Common.{Bool, if◌then◌else◌, none, not, some, ℕ}
use manage_deploy.Enums.{OrderStatus, RoutingStatus}
use manage_deploy.Routing.Board.{Board, RoutedOrder, find_order, write_order}

pub data CancelReply : Type 0 where
  refused : ℕ → CancelReply
  cancelled : CancelReply

abbrev pub cancelled_order : RoutedOrder → RoutedOrder
cancelled_order o = record o {
  status = OrderStatus.cancelled;
  routing_status = RoutingStatus.cancelled;
}

-- Behind the lookup.
unfoldable pub cancel_found : RoutedOrder → Board → Board × CancelReply
cancel_found o b = elim o.status [
  | OrderStatus.cancelled ↦ (b, cancelled)
  | OrderStatus.pending ↦
      (record b { orders = write_order (cancelled_order o) b.orders }, cancelled)
  | _ ↦ (b, refused 400)
]

unfoldable pub cancel_order : Bool → ℕ → Board → Board × CancelReply
unfolding cancel_found
cancel_order allowed id b = elim (find_order id b.orders) [
  | none ↦ (b, refused 404)
  | some o ↦
      if o.is_deleted
      then (b, refused 404)
      else if not allowed
      then (b, refused 403)
      else cancel_found o b
]
