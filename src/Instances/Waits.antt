-- ===== src/Instances/Waits.antt =====
-- An instance that was made for a routed order (backend/api/orders.py) is not started through
-- backend/api/instances.py before the router has confirmed the network (backend/api/routing.py).
use manage_deploy.Common.{if◌then◌else◌}
use manage_deploy.Common.{
  Bool, Bool-cases, List, Option, Option-cases, [], arith, false, inl, inr, is_empty, refl, some,
  true, ℕ, ◌&&◌, ◌==◌, ◌∷◌, ◌≡◌,
}
use manage_deploy.Enums.{TaskStatus, is_routed}
use manage_deploy.Instances.{
  Call, StartReply, Waiting, awaits_network, http_error, instance_waiting_for_network_ready,
  is_binding_ready, is_up, may_start, multiple_rows, network_ready_required, nobody, one_waiting,
  preflight_reply, server_error, start_instance, waiting_orders, waits, is_same,
}
use manage_deploy.Instances.Agree.{is_well, reply_outcome}
use manage_deploy.Routing.Board.{Board, RoutedOrder, end_of, find_order, write_order}
use mathlib.Core.Path.{subst}
use manage_deploy.Routing.Board.{names_instance}
use manage_deploy.Enums.{OrderStatus}
use manage_deploy.Routing.Router.{Executed, start_or_schedule}
use manage_deploy.Instances.{Session, opened, is_answer, start_body}
use manage_deploy.Routing.Received.{Received, kept, unplaced, placed, receive-Received}
use manage_deploy.Routing.Result.{
  Payload, Platform, Reply, bind_instance, bound_order, create_instance, receive_routing_result,
  routing_order,
}
use manage_deploy.Routing.Rows.{find_order-id, find_order-write, write_order-write_order}
use manage_deploy.Routing.Router.{
  confirm_found, confirm_instance, confirm_network_ready, confirmed_order, has_row, is_past,
}
use manage_deploy.Common.{◌∙◌, sym, ==_refl, ap}

-- The row stands for an order whose instance has to wait.
abbrev is_row_of : ℕ → RoutedOrder → Bool
is_row_of i o = is_same i o.materialized_instance_id && is_binding_ready o.routing_status

abbrev holds_back : Waiting → Bool
holds_back nobody = false
holds_back _ = true

waiting-write_some :
    (i : ℕ) (n : RoutedOrder) (os : List RoutedOrder) (o : RoutedOrder)
    → find_order n.id os ≡ some o
    → is_row_of i n ≡ true
    → is_empty (waiting_orders i (write_order n os)) ≡ false
waiting-write_some i n [] o f h = absurd (ground arith)
waiting-write_some i n (p ∷ ps) o f h = elim (Bool-cases (p.id == n.id)) [
  | inl q ↦ rw (q, h) refl
  | inr q ↦ elim (Bool-cases (is_row_of i p)) [
    | inl r ↦ rw (q, r) refl
    | inr r ↦ rw (q, r) (waiting-write_some i n ps o (rw q at f) h)
  ]
]

one_waiting-head :
    (n : RoutedOrder) (os : List RoutedOrder)
    → network_ready_required n.routing_result ≡ true
    → holds_back (one_waiting (n ∷ os)) ≡ true
one_waiting-head n [] w = rw w refl
one_waiting-head n (p ∷ ps) w = refl

one_waiting-cons :
    (p : RoutedOrder) (os : List RoutedOrder)
    → is_empty os ≡ false
    → holds_back (one_waiting (p ∷ os)) ≡ true
one_waiting-cons p [] e = absurd (ground arith)
one_waiting-cons p (o ∷ os) e = refl

waiting-write :
    (i : ℕ) (n : RoutedOrder) (os : List RoutedOrder) (o : RoutedOrder)
    → find_order n.id os ≡ some o
    → is_row_of i n ≡ true
    → network_ready_required n.routing_result ≡ true
    → holds_back (one_waiting (waiting_orders i (write_order n os))) ≡ true
waiting-write i n [] o f h w = absurd (ground arith)
waiting-write i n (p ∷ ps) o f h w = elim (Bool-cases (p.id == n.id)) [
  | inl q ↦ rw (q, h) (one_waiting-head n (waiting_orders i (write_order n ps)) w)
  | inr q ↦ elim (Bool-cases (is_row_of i p)) [
    | inl r ↦
        rw (q, r)
          (one_waiting-cons p (waiting_orders i (write_order n ps))
            (waiting-write_some i n ps o (rw q at f) h))
    | inr r ↦ rw (q, r) (waiting-write i n ps o (rw q at f) h w)
  ]
]

-- No other order names the instance, and the written one does not wait.
waiting-write_none :
    (i : ℕ) (n : RoutedOrder) (os : List RoutedOrder)
    → names_instance i os ≡ false
    → is_binding_ready n.routing_status ≡ false
    → waiting_orders i (write_order n os) ≡ []
waiting-write_none i n [] h e = refl
waiting-write_none i n (p ∷ ps) h e =
    let rest = waiting-write_none i n ps (ground arith) e in
    elim (Bool-cases (p.id == n.id)) [
      | inl q ↦ let skipped : is_row_of i n ≡ false = ground arith in rw (q, skipped) rest
      | inr q ↦ let skipped : is_row_of i p ≡ false = ground arith in rw (q, skipped) rest
    ]

module _ (preflight : ℕ → Session → Call Bool)
    (execute_dag_start : ℕ → Session → Call (Bool × Option ℕ)) where
  held-body :
      (i : ℕ) (s : Session) (t : TaskStatus)
      → s.view.instances i ≡ some t
      → is_up t ≡ false
      → holds_back (instance_waiting_for_network_ready i s.view.orders) ≡ true
      → ((start_body preflight execute_dag_start i s).0 ≡ s)
        × (is_well (reply_outcome (start_body preflight execute_dag_start i s).1) ≡ false)
  unfolding start_body
  held-body i s t e u h = elim (Bool-cases (may_start t)) [
    | inr m ↦ rw (e, u, m, start_body) (refl, refl)
    | inl m ↦
        rw (e, u, m, start_body) (behind (instance_waiting_for_network_ready i s.view.orders) h)
  ]
    where
      behind :
          (w : Waiting)
          → holds_back w ≡ true
          → let r = elim w as (λ x. Session × StartReply) [
            | multiple_rows ↦ (s, server_error)
            | waits o ↦ (s, http_error 409 (awaits_network o))
            | nobody ↦ preflight_reply preflight execute_dag_start i (preflight i s)
          ] in
            (r.0 ≡ s) × (is_well (reply_outcome r.1) ≡ false)
      behind nobody h = absurd (ground arith)
      behind (waits o) h = (refl, refl)
      behind multiple_rows h = (refl, refl)

  settled : (b : Board) (r : StartReply) → (if is_answer r then b else b) ≡ b
  settled b r = elim (Bool-cases (is_answer r)) [ inl e ↦ rw e refl | inr e ↦ rw e refl ]

  held-start :
      (i : ℕ) (b : Board) (t : TaskStatus)
      → b.instances i ≡ some t
      → is_up t ≡ false
      → holds_back (instance_waiting_for_network_ready i b.orders) ≡ true
      → ((start_instance preflight execute_dag_start i b).0 ≡ b)
        × (is_well (reply_outcome (start_instance preflight execute_dag_start i b).1) ≡ false)
  unfolding start_instance
  held-start i b t e u h =
      let (same, refused) = held-body i (opened b) t e u h in
      (rw same (settled b (start_body preflight execute_dag_start i (opened b)).1), refused)

-- A start writes no order.
started-orders :
    (execute : ℕ → (ℕ → Option TaskStatus) → Executed) (now : ℕ) (auto_start : Bool) (i : ℕ)
    (o : RoutedOrder) (b : Board)
    → (if auto_start then start_or_schedule execute now auto_start i o b else b).orders ≡ b.orders
started-orders execute now auto_start i o b = ground arith

-- What the confirmation of a routed order writes.
confirm-write :
    (execute : ℕ → (ℕ → Option TaskStatus) → Executed) (now : ℕ) (auto_start : Bool) (id : ℕ)
    (b : Board) (n : RoutedOrder)
    → find_order id b.orders ≡ some n
    → n.is_deleted ≡ false
    → is_routed n.routing_status ≡ true
    → (m : RoutedOrder) × (m.id ≡ n.id)
      × (is_binding_ready m.routing_status ≡ false)
      × ((confirm_network_ready execute now auto_start id b).0.orders ≡ write_order m b.orders)
unfolding confirm_network_ready confirm_found confirm_instance
confirm-write execute now auto_start id b n f d q = elim (Option-cases n.materialized_instance_id) [
  | inl e ↦ (confirmed_order n, refl, refl, ground arith)
  | inr (i, e) ↦ elim (Bool-cases (has_row b.instances i)) [
    | inr r ↦ (confirmed_order n, refl, refl, ground arith)
    | inl r ↦ elim (Bool-cases (is_past now (end_of n))) [
      | inl t ↦
          (record (confirmed_order n) { status = OrderStatus.failed }, refl, refl, ground arith)
      | inr t ↦
          let written = record b { orders = write_order (confirmed_order n) b.orders } in
          let kept = started-orders execute now auto_start i n written in
          (confirmed_order n, refl, refl, ground (arith, kept))
    ]
  ]
]

module _ (preflight : ℕ → Session → Call Bool)
    (execute_dag_start : ℕ → Session → Call (Bool × Option ℕ)) (pf : Platform) (now fresh : ℕ)
    (payload : Payload) (id : ℕ) (b : Board) (execute : ℕ → (ℕ → Option TaskStatus) → Executed)
    (later : ℕ) (auto_start : Bool) where
  -- The start is refused, and the confirmation ends the wait.
  abbrev WaitsIn : ℕ → Board → Type 0
  WaitsIn i c =
      ((start_instance preflight execute_dag_start i c).0 ≡ c)
      × (is_well (reply_outcome (start_instance preflight execute_dag_start i c).1) ≡ false)
      × (instance_waiting_for_network_ready i
            (confirm_network_ready execute later auto_start id c).0.orders
          ≡ nobody)

  waits-outcome :
      (i : ℕ) (c : Board) (r : Reply)
      → names_instance fresh b.orders ≡ false
      → payload.require_network_ready ≡ true
      → Received pf now fresh payload id b c r
      → r ≡ Reply.deployed i
      → WaitsIn i c
  unfolding bind_instance instance_waiting_for_network_ready
  waits-outcome i c r u q (kept r' z) h = absurd (ground arith)
  waits-outcome i c r u q (unplaced o ps f m) h = absurd (ground arith)
  waits-outcome i c r u q (placed o ps f m d g e) h =
      let n = bound_order pf now fresh payload (routing_order o ps) fresh in
      let made =
        create_instance now fresh o payload.require_network_ready
          (record b { orders = write_order (routing_order o ps) b.orders }) in
      let bound = bind_instance pf now fresh payload (routing_order o ps) fresh made in
      let at_id : o.id ≡ id = find_order-id id b.orders o f in
      let found : find_order n.id b.orders ≡ some o =
        subst (λ t. find_order t b.orders ≡ some o) (sym at_id) f in
      let orders : bound.orders ≡ write_order n b.orders =
        write_order-write_order n (routing_order o ps) b.orders refl in
      let there : find_order id bound.orders ≡ some n = rw orders (
        subst (λ t. find_order t (write_order n b.orders) ≡ some n) at_id
          (find_order-write n b.orders o found)) in
      let row : is_row_of fresh n ≡ true = rw (q, ==_refl fresh) refl in
      let pending : bound.instances fresh ≡ some TaskStatus.pending = rw (q, ==_refl fresh) refl in
      let held : holds_back (one_waiting (waiting_orders fresh bound.orders)) ≡ true =
        rw orders (waiting-write fresh n b.orders o found row (rw q refl)) in
      let (m', same, done, written) =
        confirm-write execute later auto_start id bound n there d (rw q refl) in
      let (start, refused) =
        held-start preflight execute_dag_start fresh bound TaskStatus.pending pending refl held in
      let again : write_order m' bound.orders ≡ write_order m' b.orders =
        rw orders (write_order-write_order m' n b.orders (sym same)) in
      let over : waiting_orders fresh
            (confirm_network_ready execute later auto_start id bound).0.orders
          ≡ [] =
        ap (waiting_orders fresh) (written ∙ again) ∙ waiting-write_none fresh m' b.orders u done in
      let same_instance : fresh ≡ i = ground arith in
      subst (λ t. WaitsIn t bound) same_instance (start, refused, ap one_waiting over)

  -- An instance made for an order whose network is still to be confirmed is not started: the start
  -- fails and changes nothing, whatever the check and the executor would answer; and once the
  -- network of that order is confirmed, no order makes the instance wait. No order has named the
  -- instance before.
  pub start-waits :
      (i : ℕ)
      → names_instance fresh b.orders ≡ false
      → payload.require_network_ready ≡ true
      → (receive_routing_result pf now fresh payload id b).1 ≡ Reply.deployed i
      → let c = (receive_routing_result pf now fresh payload id b).0 in
        ((start_instance preflight execute_dag_start i c).0 ≡ c)
        × (is_well (reply_outcome (start_instance preflight execute_dag_start i c).1) ≡ false)
        × (instance_waiting_for_network_ready i
              (confirm_network_ready execute later auto_start id c).0.orders
            ≡ nobody)
  start-waits i u q h =
      waits-outcome i (receive_routing_result pf now fresh payload id b).0
        (receive_routing_result pf now fresh payload id b).1 u q
        (receive-Received pf now fresh payload id b) h
