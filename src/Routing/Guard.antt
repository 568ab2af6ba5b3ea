-- ===== src/Routing/Guard.antt =====
-- What receive_routing_result (backend/api/orders.py) has made sure of when it has created an
-- instance.
use manage_deploy.Common.{
  Bool-cases, List, Option-cases, [], arith, false, if◌then◌else◌, inl, inr, is_empty, refl, ℕ, ◌≡◌,
}
use manage_deploy.Enums.{TaskStatus, is_awaiting_route}
use manage_deploy.Routing.Apart.{IsApart, holds_slots-write, searched-IsApart, slotless-IsApart}
use manage_deploy.Routing.Board.{
  Board, RoutedOrder, find_order, gpu_slot_conflict, names_instance, order_gpu_slots,
  time_windows_overlap, write_instance,
}
use manage_deploy.Routing.Placements.{RoutingPlacement, compute_gpu_slots}
use manage_deploy.Routing.Result.{
  Accepted, Payload, Platform, Reply, accept_order, accept_result, bound_order, created, deploy,
  effective_placements, enabled_names, over, refuses_instance, routing_order, validate_placements,
}

module _ (pf : Platform) (now fresh : ℕ) (payload : Payload) where
  bound-IsApart :
      (b : Board) (o : RoutedOrder) (ps : List RoutingPlacement) (s : TaskStatus)
      → gpu_slot_conflict b o ps ≡ false
      → names_instance fresh b.orders ≡ false
      → IsApart
          (write_instance fresh s b.instances)
          b.orders
          (bound_order pf now fresh payload (routing_order o ps) fresh)
  unfolding gpu_slot_conflict order_gpu_slots time_windows_overlap
  bound-IsApart b o ps s h k = elim (Bool-cases (is_empty (compute_gpu_slots ps))) [
    | inl e ↦
        slotless-IsApart b.instances o ps (write_instance fresh s b.instances)
          (bound_order pf now fresh payload (routing_order o ps) fresh) b.orders refl e
    | inr e ↦
        searched-IsApart b.instances o ps (write_instance fresh s b.instances)
          (bound_order pf now fresh payload (routing_order o ps) fresh) b.orders refl refl
          (λ c. refl) (rw e at h) (holds_slots-write b.instances fresh s b.orders k)
  ]

  -- The instance has been created, and the order that is to be bound to it is apart.
  abbrev IsGuarded : Board → Accepted → Type 0
  IsGuarded b (over c r) = Unit {0}
  IsGuarded b (created c n i) = IsApart c.instances b.orders (bound_order pf now fresh payload n i)

  deploy-IsGuarded :
      (o : RoutedOrder) (ps : List RoutingPlacement) (b : Board)
      → gpu_slot_conflict b o ps ≡ false
      → names_instance fresh b.orders ≡ false
      → IsGuarded b (deploy pf now fresh payload o ps b)
  unfolding deploy
  deploy-IsGuarded o ps b g k = elim (Bool-cases (is_empty (enabled_names o ps []))) [
    | inl q ↦ rw q tt
    | inr q ↦ elim (Option-cases (refuses_instance pf o (enabled_names o ps []))) [
      | inr (r, p) ↦ rw (q, p) tt
      | inl p ↦
          rw (q, p)
            (bound-IsApart b o ps
              (if payload.require_network_ready then TaskStatus.pending else TaskStatus.scheduled) g
              k)
    ]
  ]

  over-IsGuarded :
      (b : Board) (acc : Accepted) (c : Board) (r : Reply) → acc ≡ over c r → IsGuarded b acc
  over-IsGuarded b acc c r e = rw e tt

  order-IsGuarded :
      (o : RoutedOrder) (b : Board)
      → names_instance fresh b.orders ≡ false
      → IsGuarded b (accept_order pf now fresh payload o b)
  unfolding accept_order
  order-IsGuarded o b k = elim (Option-cases o.materialized_instance_id) [
    | inr (i, m) ↦ rw m tt
    | inl m ↦ elim (Bool-cases (is_awaiting_route o.routing_status)) [
      | inr a ↦ rw (m, a) tt
      | inl a ↦
          let ps = effective_placements o payload.placements in
          elim (Option-cases (validate_placements pf o.deployment o.routing_input_dag ps)) [
            | inr (r, v) ↦
                over-IsGuarded b (accept_order pf now fresh payload o b) b r (ground arith)
            | inl v ↦ elim (Bool-cases (gpu_slot_conflict b o ps)) [
              | inl c ↦
                  over-IsGuarded b (accept_order pf now fresh payload o b) b (Reply.refused 409)
                    (ground arith)
              | inr c ↦
                  let e : accept_order pf now fresh payload o b
                      ≡ deploy pf now fresh payload o ps b =
                    ground arith in
                  rw e (deploy-IsGuarded o ps b c k)
            ]
          ]
    ]
  ]

  result-IsGuarded :
      (id : ℕ) (b : Board)
      → names_instance fresh b.orders ≡ false
      → IsGuarded b (accept_result pf now fresh payload id b)
  unfolding accept_result
  result-IsGuarded id b k = elim (Option-cases (find_order id b.orders)) [
    | inl f ↦
        over-IsGuarded b (accept_result pf now fresh payload id b) b (Reply.refused 404)
          (ground arith)
    | inr (o, f) ↦ elim (Bool-cases o.is_deleted) [
      | inl d ↦
          over-IsGuarded b (accept_result pf now fresh payload id b) b (Reply.refused 404)
            (ground arith)
      | inr d ↦
          let e : accept_result pf now fresh payload id b ≡ accept_order pf now fresh payload o b =
            ground arith in
          rw e (order-IsGuarded o b k)
    ]
  ]

  -- When receive_routing_result has created an instance, the order that it is about to bind to it
  -- holds no GPU slot together with another order of the tables that it has read, on the same host
  -- at overlapping times, where the statuses are those behind the creation. What others write
  -- meanwhile is not seen. The id of the instance was named by no order.
  pub accept-IsApart :
      (id : ℕ) (b c : Board) (n : RoutedOrder) (i : ℕ)
      → names_instance fresh b.orders ≡ false
      → accept_result pf now fresh payload id b ≡ created c n i
      → IsApart c.instances b.orders (bound_order pf now fresh payload n i)
  accept-IsApart id b c n i k e = rw e at (result-IsGuarded id b k)
