-- ===== src/Routing/Replies.antt =====
-- What the reply of receive_routing_result (backend/api/orders.py) says about the tables, and what
-- a second result or a result after cancel_order comes to.
use manage_deploy.Common.{
  Bool-cases, ap, arith, false, inl, inr, none, refl, some, sym, true, ℕ, ◌≡◌,
}
use manage_deploy.Enums.{OrderStatus}
use manage_deploy.Routing.Board.{Board, RoutedOrder, find_order, write_order}
use manage_deploy.Routing.Cancel.{CancelReply, cancel_found, cancel_order, cancelled_order}
use manage_deploy.Routing.Received.{Received, receive-Received, kept, unplaced, placed}
use manage_deploy.Routing.Result.{
  Payload, Platform, Reply, accept_order, accept_result, bind_instance, bound_order, finish_result,
  is_error, over, receive_routing_result, routing_order,
}
use manage_deploy.Routing.Rows.{find_order-id, find_order-write, write_order-write_order}
use mathlib.Core.Path.{subst}

answers :
    (pf : Platform) (now fresh : ℕ) (payload : Payload) (id : ℕ) (b : Board) (n : RoutedOrder)
    (r : Reply)
    → find_order id b.orders ≡ some n
    → n.is_deleted ≡ false
    → accept_order pf now fresh payload n b ≡ over b r
    → receive_routing_result pf now fresh payload id b ≡ (b, r)
unfolding receive_routing_result accept_result finish_result
answers pf now fresh payload id b n r f d e =
    let accepted : accept_result pf now fresh payload id b ≡ over b r = ground arith in
    elim (Bool-cases (is_error r)) [ inl x ↦ rw (accepted, x) refl | inr x ↦ rw (accepted, x) refl ]

module _ (pf : Platform) (now fresh : ℕ) (payload : Payload) (id : ℕ) (b : Board) where
  -- A deployed order stands in the tables with its instance.
  deployed-outcome :
      (i : ℕ) (c : Board) (r : Reply)
      → Received pf now fresh payload id b c r
      → r ≡ Reply.deployed i
      → (n : RoutedOrder) × (find_order id c.orders ≡ some n)
        × (n.is_deleted ≡ false)
        × (n.materialized_instance_id ≡ some i)
        × (n.status ≡ OrderStatus.materialized)
  unfolding bind_instance
  deployed-outcome i c r (kept r' q) h = absurd (ground arith)
  deployed-outcome i c r (unplaced o ps f m) h = absurd (ground arith)
  deployed-outcome i c r (placed o ps f m d g e) h =
      let n = bound_order pf now fresh payload (routing_order o ps) fresh in
      let at_id : o.id ≡ id = find_order-id id b.orders o f in
      let there : find_order o.id (write_order n b.orders) ≡ some n =
        find_order-write n b.orders o (subst (λ t. find_order t b.orders ≡ some o) (sym at_id) f) in
      let same_instance : fresh ≡ i = ground arith in
      (
        n,
        rw (write_order-write_order n (routing_order o ps) b.orders refl)
            (subst (λ t. find_order t (write_order n b.orders) ≡ some n) at_id there),
        d,
        ap some same_instance,
        refl,
      )

  -- After the handler has run to its end and deployed an order, a further result, whatever it holds,
  -- is answered with the instance that the order has, the order's cancellation is refused, and
  -- neither changes an order, an instance or a job. Nothing else has written to these in between.
  pub receive_again :
      (later fresher i : ℕ) (other : Payload)
      → (receive_routing_result pf now fresh payload id b).1 ≡ Reply.deployed i
      → (receive_routing_result pf later fresher other id
            (receive_routing_result pf now fresh payload id b).0
          ≡ ((receive_routing_result pf now fresh payload id b).0, Reply.already i))
        × (cancel_order true id (receive_routing_result pf now fresh payload id b).0
            ≡ ((receive_routing_result pf now fresh payload id b).0, CancelReply.refused 400))
  unfolding cancel_order cancel_found
  receive_again later fresher i other h =
      let (n, f, d, m, s) =
        deployed-outcome i (receive_routing_result pf now fresh payload id b).0
          (receive_routing_result pf now fresh payload id b).1
          (receive-Received pf now fresh payload id b) h in
      (
        answers pf later fresher other id (receive_routing_result pf now fresh payload id b).0 n
            (Reply.already i) f d (unfold accept_order in (ground arith)),
        ground arith,
      )

  -- A result that comes in after a pending order without an instance was cancelled changes nothing.
  pub cancelled-receive :
      (o : RoutedOrder)
      → find_order id b.orders ≡ some o
      → o.is_deleted ≡ false
      → o.status ≡ OrderStatus.pending
      → o.materialized_instance_id ≡ none
      → receive_routing_result pf now fresh payload id (cancel_order true id b).0
        ≡ ((cancel_order true id b).0, Reply.refused 409)
  cancelled-receive o f d p m =
      let c = record b { orders = write_order (cancelled_order o) b.orders } in
      let at_id : o.id ≡ id = find_order-id id b.orders o f in
      let written : (cancel_order true id b).0 ≡ c =
        unfold cancel_order cancel_found in (ground arith) in
      let there : find_order o.id c.orders ≡ some (cancelled_order o) =
        find_order-write (cancelled_order o) b.orders o
          (subst (λ t. find_order t b.orders ≡ some o) (sym at_id) f) in
      rw written (
        answers pf now fresh payload id c (cancelled_order o) (Reply.refused 409)
          (subst (λ t. find_order t c.orders ≡ some (cancelled_order o)) at_id there) d
          (unfold accept_order in (ground arith)))
