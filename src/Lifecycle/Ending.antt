-- ===== src/Lifecycle/Ending.antt =====
-- What is left of an instance whose scheduled stop has run (backend/services/scheduler.py).
use manage_deploy.Common.{
  Bool, Bool-cases, Each, Each-all, Each-select, List, arith, false, inl, inr, not, refl, select,
  some, true, ℕ, ◌==◌, ◌≡◌, ap,
}
use manage_deploy.Dag.Graph.{Graph}
use manage_deploy.Dag.Messages.{TaskEvent}
use manage_deploy.Lifecycle.{
  AgentReply, World, auto_cleanup_instance, purge_world, release, run_stop,
  mark_orders_completed_for_instance, purge_order_instance_artifacts, exists,
}
use manage_deploy.Orders.Effects.{mark_completed-none_left}
use manage_deploy.Orders.Sync.{
  completes, count_orders, delete_evidence, delete_runtime, mark_orders_completed_for_instance,
  purge_order_instance_artifacts,
}
use manage_deploy.Orders.Integrity.{IsPurged, purge-IsPurged}
use manage_deploy.Orders.Tables.{IsConsistent, Tables}
use manage_deploy.Releases.{Order, ResourceEvent}
use manage_deploy.Releases.Instance.{emit_for_instance_again}

completed-IsConsistent :
    (i : ℕ) (t : Tables) → IsConsistent t → IsConsistent (mark_orders_completed_for_instance i t).0
unfolding mark_orders_completed_for_instance
completed-IsConsistent i t h = record {
  nodes_belong = h.nodes_belong;
  edges_belong = h.edges_belong;
  edges_join = h.edges_join;
}

events-purged :
    (i : ℕ) (es : List TaskEvent)
    → Each (λ e. (e.instance_id == i) ≡ false) (select (λ e. not (e.instance_id == i)) es)
events-purged i es =
    Each-select (λ e. Unit {0}) _ _ es (λ e kept u. ground arith) (Each-all _ es (λ e. tt))

purge-orders : (i : ℕ) (t : Tables) → (purge_order_instance_artifacts (some i) t).orders ≡ t.orders
unfolding purge_order_instance_artifacts delete_runtime delete_evidence
purge-orders i t = elim (Bool-cases (exists t i)) [ inl e ↦ rw e refl | inr e ↦ rw e refl ]

-- No row of an instance is left but its metrics, in neither view.
pub record IsEnded (i : ℕ) (w : World) : Type 0 where
  pub purged : IsPurged i w.tables
  pub events : Each (λ e. (e.instance_id == i) ≡ false) w.store.events

module _ (g : Graph) (i : ℕ) (replies : ℕ → AgentReply) (pending : List ResourceEvent)
    (conflicts : ℕ → ℕ → ℕ → Bool) (orders : List Order) where
  -- The automatic clean-up leaves no row of the instance but its metrics: neither the instance nor a
  -- node, edge, event, evaluation or result, whatever the agents answer and also if one of their
  -- calls raises; the orders stay. The foreign keys hold before, and every edge joins two nodes of
  -- its own instance.
  pub auto_cleanup-IsEnded :
      (reason : ℕ) (w : World)
      → IsConsistent w.tables
      → let after = (auto_cleanup_instance g i replies pending conflicts orders reason w).0 in
        IsEnded i after × (after.tables.orders ≡ w.tables.orders)
  unfolding auto_cleanup_instance purge_world release
  auto_cleanup-IsEnded reason w h = (
    record { purged = (purge-IsPurged i w.tables h).0; events = events-purged i _ },
    purge-orders i w.tables,
  )

  abbrev completed : World → World
  completed w = record w { tables = (mark_orders_completed_for_instance i w.tables).0 }

  ended :
      (scheduled_stop auto_cleanup : ℕ) (w : World)
      → IsConsistent w.tables
      → let before = release g i replies pending conflicts orders scheduled_stop (completed w) in
        let after =
          auto_cleanup_instance g i replies pending conflicts orders auto_cleanup before in
        IsEnded i after.0 × (after.0.tables.orders ≡ (completed w).tables.orders)
  unfolding release
  ended scheduled_stop auto_cleanup w h =
      auto_cleanup-IsEnded auto_cleanup
        (release g i replies pending conflicts orders scheduled_stop (completed w))
        (completed-IsConsistent i w.tables h)

  -- Behind the scheduled stop of an instance that is there, none of its orders is still only
  -- materialized, whether it is kept or not; and if it is not kept, no row of the instance is left
  -- but its metrics: neither the instance nor a node, edge, event, evaluation or result, whatever
  -- the agents answer. The foreign keys hold before, and every edge joins two nodes of its own
  -- instance.
  pub run_stop-IsEnded :
      (scheduled_stop auto_cleanup : ℕ) (keep_after_stop : Bool) (w : World)
      → IsConsistent w.tables
      → exists w.tables i ≡ true
      → (count_orders
            (completes i)
            (run_stop g i replies pending conflicts orders scheduled_stop auto_cleanup
              keep_after_stop w).tables.orders
          ≡ 0)
        × IsEnded i
            (run_stop g i replies pending conflicts orders scheduled_stop auto_cleanup false w)
  unfolding run_stop release
  run_stop-IsEnded scheduled_stop auto_cleanup true w h e =
      rw e (mark_completed-none_left i w.tables, (ended scheduled_stop auto_cleanup w h).0)
  run_stop-IsEnded scheduled_stop auto_cleanup false w h e =
      let (gone, same) = ended scheduled_stop auto_cleanup w h in
      rw e (rw same (mark_completed-none_left i w.tables), gone)

  -- A scheduled stop emits the same release events whether the instance is kept or not: those of the
  -- automatic clean-up, for its own reason, add nothing to those of the stop.
  pub run_stop-releases :
      (scheduled_stop auto_cleanup : ℕ) (w : World)
      → (run_stop g i replies pending conflicts orders scheduled_stop auto_cleanup false w).releases
        ≡ (run_stop g i replies pending conflicts orders scheduled_stop auto_cleanup true
            w).releases
  unfolding run_stop auto_cleanup_instance purge_world release
  run_stop-releases scheduled_stop auto_cleanup w = elim (Bool-cases (exists w.tables i)) [
    | inl e ↦ rw e (
        ap (λ x. x.0)
          (emit_for_instance_again pending conflicts scheduled_stop auto_cleanup (some i) orders
            w.releases))
    | inr e ↦ rw e refl
  ]
