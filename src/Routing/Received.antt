-- ===== src/Routing/Received.antt =====
-- The three ways in which receive_routing_result (backend/api/orders.py) ends, with what it has
-- checked by then.
use manage_deploy.Common.{
  Bool, Bool-cases, List, Option-cases, [], arith, false, inl, inr, is_empty, none, refl, some,
  true, ℕ, ◌∙◌, ◌∷◌, ◌≡◌,
}
use manage_deploy.Enums.{is_awaiting_route}
use manage_deploy.Routing.Board.{Board, RoutedOrder, find_order, gpu_slot_conflict, write_order}
use manage_deploy.Routing.Placements.{
  DagNode, Deployment, RoutingPlacement, placement_is_deployable,
}
use manage_deploy.Routing.Result.{
  Accepted, Machine, Payload, Platform, Reply, accept_order, accept_result, bind_instance,
  check_hosts, create_instance, deploy, effective_placements, enabled_names, finish_result,
  is_error, machines_named, over, receive_routing_result, refuses_instance, route_only_order,
  routing_order, validate_placements,
}

-- Replies that come with no write to an order.
abbrev pub is_refusal : Reply → Bool
is_refusal (Reply.refused c) = true
is_refusal Reply.raised = true
is_refusal (Reply.already i) = true
is_refusal Reply.not_deployed = false
is_refusal (Reply.deployed i) = false

error-refusal : (r : Reply) → is_error r ≡ true → is_refusal r ≡ true
error-refusal r e = ground arith

refuses_instance-error :
    (pf : Platform) (o : RoutedOrder) (names : List ℕ) (r : Reply)
    → refuses_instance pf o names ≡ some r
    → is_error r ≡ true
refuses_instance-error pf o names r e = ground arith

check_hosts-refusal :
    (role : ℕ) (ms : List Machine) (r : Reply) → check_hosts role ms ≡ some r → is_refusal r ≡ true
check_hosts-refusal role [] r e = ground arith
check_hosts-refusal role (m ∷ []) r e = ground arith
check_hosts-refusal role (m ∷ n ∷ ms) r e = ground arith

validate-refusal :
    (pf : Platform) (d : Deployment) (dag : List DagNode) (ps : List RoutingPlacement) (r : Reply)
    → validate_placements pf d dag ps ≡ some r
    → is_refusal r ≡ true
unfolding validate_placements
validate-refusal pf d dag [] r e = absurd (ground arith)
validate-refusal pf d dag (p ∷ ps) r e =
    elim (Bool-cases (placement_is_deployable d dag p.task_node_id)) [
      | inr q ↦ validate-refusal pf d dag ps r (rw q at e)
      | inl q ↦
          elim (Option-cases
            (check_hosts p.task_node_id (machines_named p.topology_node_id pf.machines))) [
              | inl w ↦ validate-refusal pf d dag ps r (rw (q, w) at e)
              | inr (a, w) ↦
                  check_hosts-refusal p.task_node_id (machines_named p.topology_node_id pf.machines)
                    r (w ∙ (rw (q, w) at e))
            ]
    ]

module _ (pf : Platform) (now fresh : ℕ) (payload : Payload) (id : ℕ) (b : Board) where
  pub data Received : Board → Reply → Type 0 where
    kept : (r : Reply) → is_refusal r ≡ true → Received b r
    unplaced :
        (o : RoutedOrder) (ps : List RoutingPlacement)
        → find_order id b.orders ≡ some o
        → o.materialized_instance_id ≡ none
        → Received
            (record b { orders = write_order (route_only_order o payload ps) b.orders })
            Reply.not_deployed
    placed :
        (o : RoutedOrder) (ps : List RoutingPlacement)
        → find_order id b.orders ≡ some o
        → o.materialized_instance_id ≡ none
        → o.is_deleted ≡ false
        → gpu_slot_conflict b o ps ≡ false
        → ps ≡ effective_placements o payload.placements
        → Received
            (bind_instance pf now fresh payload (routing_order o ps) fresh (
              create_instance now fresh o payload.require_network_ready
                (record b { orders = write_order (routing_order o ps) b.orders })))
            (Reply.deployed fresh)

  deploy-Received :
      (o : RoutedOrder) (ps : List RoutingPlacement)
      → find_order id b.orders ≡ some o
      → o.materialized_instance_id ≡ none
      → o.is_deleted ≡ false
      → gpu_slot_conflict b o ps ≡ false
      → ps ≡ effective_placements o payload.placements
      → Received
          (finish_result pf now fresh payload b (deploy pf now fresh payload o ps b)).0
          (finish_result pf now fresh payload b (deploy pf now fresh payload o ps b)).1
  unfolding deploy finish_result
  deploy-Received o ps f m d c e = elim (Bool-cases (is_empty (enabled_names o ps []))) [
    | inl q ↦ rw q (unplaced o ps f m)
    | inr q ↦ elim (Option-cases (refuses_instance pf o (enabled_names o ps []))) [
      | inr (r, p) ↦
          let e = refuses_instance-error pf o (enabled_names o ps []) r p in
          rw (q, p, e) (kept r (error-refusal r e))
      | inl p ↦ rw (q, p) (placed o ps f m d c e)
    ]
  ]

  over-Received :
      (acc : Accepted) (r : Reply)
      → acc ≡ over b r
      → is_refusal r ≡ true
      → Received
          (finish_result pf now fresh payload b acc).0
          (finish_result pf now fresh payload b acc).1
  unfolding finish_result
  over-Received acc r e h = elim (Bool-cases (is_error r)) [
    | inl x ↦ rw (e, x) (kept r h)
    | inr x ↦ rw (e, x) (kept r h)
  ]

  accept-Received :
      (o : RoutedOrder)
      → find_order id b.orders ≡ some o
      → o.is_deleted ≡ false
      → Received
          (finish_result pf now fresh payload b (accept_order pf now fresh payload o b)).0
          (finish_result pf now fresh payload b (accept_order pf now fresh payload o b)).1
  unfolding accept_order
  accept-Received o f d = elim (Option-cases o.materialized_instance_id) [
    | inr (i, m) ↦
        over-Received (accept_order pf now fresh payload o b) (Reply.already i) (ground arith) refl
    | inl m ↦ elim (Bool-cases (is_awaiting_route o.routing_status)) [
      | inr a ↦
          over-Received (accept_order pf now fresh payload o b) (Reply.refused 409) (ground arith)
            refl
      | inl a ↦
          let ps = effective_placements o payload.placements in
          elim (Option-cases (validate_placements pf o.deployment o.routing_input_dag ps)) [
            | inr (r, v) ↦
                over-Received (accept_order pf now fresh payload o b) r (ground arith)
                  (validate-refusal pf o.deployment o.routing_input_dag ps r v)
            | inl v ↦ elim (Bool-cases (gpu_slot_conflict b o ps)) [
              | inl c ↦
                  over-Received (accept_order pf now fresh payload o b) (Reply.refused 409)
                    (ground arith) refl
              | inr c ↦
                  let e : accept_order pf now fresh payload o b
                      ≡ deploy pf now fresh payload o ps b =
                    ground arith in
                  rw e (deploy-Received o ps f m d c refl)
            ]
          ]
    ]
  ]

  -- Every way in which the handler ends is one of the three.
  pub receive-Received :
      Received
        (receive_routing_result pf now fresh payload id b).0
        (receive_routing_result pf now fresh payload id b).1
  unfolding receive_routing_result accept_result
  receive-Received = elim (Option-cases (find_order id b.orders)) [
    | inl f ↦
        over-Received (accept_result pf now fresh payload id b) (Reply.refused 404) (ground arith)
          refl
    | inr (o, f) ↦ elim (Bool-cases o.is_deleted) [
      | inl d ↦
          over-Received (accept_result pf now fresh payload id b) (Reply.refused 404) (ground arith)
            refl
      | inr d ↦
          let e : accept_result pf now fresh payload id b ≡ accept_order pf now fresh payload o b =
            ground arith in
          rw e (accept-Received o f d)
    ]
  ]
