-- ===== src/Enums.antt =====
-- backend/enums.py: the status values that the services store and compare.
use manage_deploy.Common.{Bool, true, false}

pub data TaskStatus : Type 0 where
  pending scheduled starting running stopping stopped failed expired : TaskStatus

pub data NodeStatus : Type 0 where
  pending starting running ready stopping stopped failed : NodeStatus

pub data OrderStatus : Type 0 where
  pending materialized failed cancelled completed orphaned : OrderStatus

pub data RoutingStatus : Type 0 where
  not_required pending computing network_binding_ready completed failed cancelled : RoutingStatus

-- `status == TaskStatus.RUNNING` and the like.
abbrev pub is_running : TaskStatus → Bool
is_running TaskStatus.running = true
is_running _ = false

abbrev pub is_starting : TaskStatus → Bool
is_starting TaskStatus.starting = true
is_starting _ = false

abbrev pub is_stopped : TaskStatus → Bool
is_stopped TaskStatus.stopped = true
is_stopped _ = false

abbrev pub is_pending : TaskStatus → Bool
is_pending TaskStatus.pending = true
is_pending _ = false

abbrev pub is_scheduled : TaskStatus → Bool
is_scheduled TaskStatus.scheduled = true
is_scheduled _ = false

abbrev pub is_materialized : OrderStatus → Bool
is_materialized OrderStatus.materialized = true
is_materialized _ = false

-- `routing_status in {PENDING, COMPUTING}`
abbrev pub is_awaiting_route : RoutingStatus → Bool
is_awaiting_route RoutingStatus.pending = true
is_awaiting_route RoutingStatus.computing = true
is_awaiting_route _ = false

-- `routing_status in {NETWORK_BINDING_READY, COMPLETED}`
abbrev pub is_routed : RoutingStatus → Bool
is_routed RoutingStatus.network_binding_ready = true
is_routed RoutingStatus.completed = true
is_routed _ = false
