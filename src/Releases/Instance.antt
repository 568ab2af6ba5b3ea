-- ===== src/Releases/Instance.antt =====
-- The events of all orders of an instance (backend/services/routing_resource_events.py), made again.
use manage_deploy.Common.{
  Bool, Each, Each-imp, List, Option, [], arith, none, refl, some, true, ℕ, ◌+◌, ◌∙◌, ◌∷◌, ◌≡◌,
}
use manage_deploy.Releases.{
  Order, Placement, ResourceEvent, emit_orders, emit_placements, emit_release_events_for_instance,
  emit_release_events_for_order, orders_of, placements_of,
}
use manage_deploy.Releases.Once.{
  Kept, emit_placements-Adds, emit_placements-again, emit_placements-released, placement_released,
  placement_released-Kept,
}

module _ (pending : List ResourceEvent) (conflicts : ℕ → ℕ → ℕ → Bool) where
  -- Every GPU of a compute placement of the order is released.
  abbrev IsReleased : List ResourceEvent → Order → Type 0
  IsReleased rows o =
      Each (λ p. placement_released pending conflicts 0 o rows p ≡ true)
        (placements_of o.placements)

  same_placement :
      (reason reason' : ℕ) (o : Order) (rows : List ResourceEvent) (p : Placement)
      → placement_released pending conflicts reason o rows p
        ≡ placement_released pending conflicts reason' o rows p
  unfolding placement_released
  same_placement reason reason' o rows p = refl

  module _ (reason : ℕ) where
    emit_orders-Kept :
        (os : List Order) (rows : List ResourceEvent) (n : ℕ)
        → Kept rows (emit_orders pending conflicts reason os (rows, n)).0
    unfolding emit_orders emit_release_events_for_order
    emit_orders-Kept [] rows n = λ k h d e. e
    emit_orders-Kept (o ∷ os) rows n = λ k h d e. emit_orders-Kept os _ _ k h d (
        (emit_placements-Adds pending conflicts reason o (placements_of o.placements)
            (rows, 0)).kept
          k h d e)

    emit_orders-IsReleased :
        (os : List Order) (rows : List ResourceEvent) (n : ℕ)
        → Each (IsReleased (emit_orders pending conflicts reason os (rows, n)).0) os
    unfolding emit_orders emit_release_events_for_order
    emit_orders-IsReleased [] rows n = tt
    emit_orders-IsReleased (o ∷ os) rows n =
        let next =
          emit_placements pending conflicts reason o (placements_of o.placements) (rows, 0) in
        (
          Each-imp (placements_of o.placements)
              (λ p e.
                placement_released-Kept pending conflicts 0 o next.0 _ p
                  (emit_orders-Kept os next.0 (n + next.1))
                  (same_placement 0 reason o next.0 p ∙ e))
              (emit_placements-released pending conflicts reason o (placements_of o.placements)
                (rows, 0)),
          emit_orders-IsReleased os next.0 (n + next.1),
        )

    emit_orders-again :
        (os : List Order) (rows : List ResourceEvent) (n : ℕ)
        → Each (IsReleased rows) os
        → emit_orders pending conflicts reason os (rows, n) ≡ (rows, n)
    unfolding emit_orders emit_release_events_for_order
    emit_orders-again [] rows n h = refl
    emit_orders-again (o ∷ os) rows n h =
        let nothing =
          emit_placements-again pending conflicts reason o (placements_of o.placements) (rows, 0)
            (Each-imp (placements_of o.placements) (λ p e. same_placement reason 0 o rows p ∙ e)
              h.0) in
        let same : n + 0 ≡ n = omega arith in rw nothing (rw same (emit_orders-again os rows n h.1))

  -- When the GPUs of an instance have been released, a release of the same instance for whatever
  -- other reason emits nothing and leaves the rows as they are, with the same unflushed events and
  -- the same rows of other transactions.
  pub emit_for_instance_again :
      (first second : ℕ) (i : Option ℕ) (orders : List Order) (rows : List ResourceEvent)
      → let after = (emit_release_events_for_instance pending conflicts first i orders rows).0 in
        emit_release_events_for_instance pending conflicts second i orders after ≡ (after, 0)
  unfolding emit_release_events_for_instance
  emit_for_instance_again first second none orders rows = refl
  emit_for_instance_again first second (some i) orders rows =
      emit_orders-again second (orders_of i orders) _ 0
        (emit_orders-IsReleased first (orders_of i orders) rows 0)
