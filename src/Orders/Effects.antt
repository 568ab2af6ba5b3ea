-- ===== src/Orders/Effects.antt =====
-- What the order updates of backend/services/order_sync.py do when they are made again.
use manage_deploy.Common.{
  Bool, Bool-cases, List, [], arith, false, inl, inr, refl, true, ℕ, ◌∷◌, ◌≡◌,
}
use manage_deploy.Enums.{OrderStatus}
use manage_deploy.Orders.Sync.{
  change_orders, completes, count_orders, is_orphan, mark_orders_completed_for_instance,
  orphaned_order, reconcile_orphan_orders,
}
use manage_deploy.Orders.Tables.{Tables, TaskOrder}

-- No order passes a test that every changed order fails, and every other one too.
count_orders-none :
    (p q : TaskOrder → Bool) (f : TaskOrder → TaskOrder) (os : List TaskOrder)
    → ((o : TaskOrder) → p o ≡ true → q (f o) ≡ false)
    → ((o : TaskOrder) → p o ≡ false → q o ≡ false)
    → count_orders q (change_orders p f os) ≡ 0
count_orders-none p q f [] a b = refl
count_orders-none p q f (o ∷ os) a b = elim (Bool-cases (p o)) [
  | inl e ↦ rw e (rw (a o e) (count_orders-none p q f os a b))
  | inr e ↦ rw e (rw (b o e) (count_orders-none p q f os a b))
]

-- A change that concerns no order changes nothing.
change_orders-none :
    (p : TaskOrder → Bool) (f : TaskOrder → TaskOrder) (os : List TaskOrder)
    → count_orders p os ≡ 0
    → change_orders p f os ≡ os
change_orders-none p f [] h = refl
change_orders-none p f (o ∷ os) h = elim (Bool-cases (p o)) [
  | inl e ↦ absurd (ground arith)
  | inr e ↦ rw e (rw (change_orders-none p f os (ground arith)))
]

-- No order of the instance is left that is only materialized.
pub mark_completed-none_left :
    (i : ℕ) (t : Tables)
    → count_orders (completes i) (mark_orders_completed_for_instance i t).0.orders ≡ 0
unfolding mark_orders_completed_for_instance
mark_completed-none_left i t =
    count_orders-none (completes i) (completes i) (λ o. record o { status = OrderStatus.completed })
      t.orders (λ o e. ground arith) (λ o e. e)

-- Marking the orders of an instance as completed once more changes nothing and reports 0 orders.
pub mark_completed_again :
    (i : ℕ) (t : Tables)
    → let marked = (mark_orders_completed_for_instance i t).0 in
      mark_orders_completed_for_instance i marked ≡ (marked, 0)
unfolding mark_orders_completed_for_instance
mark_completed_again i t =
    let none_left = mark_completed-none_left i t in
    let same =
      change_orders-none (completes i) (λ o. record o { status = OrderStatus.completed })
        (change_orders (completes i) (λ o. record o { status = OrderStatus.completed }) t.orders)
        none_left in
    rw (none_left, same)

is_orphan-changed :
    (t : Tables) (o : TaskOrder) → is_orphan t o ≡ true → is_orphan t (orphaned_order o) ≡ false
is_orphan-changed t o e = ground arith

-- After the orphans are reconciled no materialized order names an instance that is not there, and
-- reconciling once more changes nothing and reports 0 orders.
pub reconcile_again :
    (t : Tables)
    → let fixed = (reconcile_orphan_orders t).0 in
      (count_orders (is_orphan fixed) fixed.orders ≡ 0)
      × (reconcile_orphan_orders fixed ≡ (fixed, 0))
unfolding reconcile_orphan_orders
reconcile_again t =
    let none_left =
      count_orders-none (is_orphan t) (is_orphan t) orphaned_order t.orders (is_orphan-changed t)
        (λ o e. e) in
    let same =
      change_orders-none (is_orphan t) orphaned_order
        (change_orders (is_orphan t) orphaned_order t.orders) none_left in
    (none_left, rw (none_left, same))
