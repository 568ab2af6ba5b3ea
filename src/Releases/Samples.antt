-- ===== src/Releases/Samples.antt =====
-- An order whose GPU is released (backend/services/routing_resource_events.py).
use manage_deploy.Common.{Bool, Each, [], false, length, none, refl, some, true, ℕ, ◌+◌, ◌∷◌, ◌≡◌}
use manage_deploy.Releases.{Order, Role, dict, emit_release_events_for_order, junk, placements_of}
use manage_deploy.Releases.Once.{
  IsUnique, emit_for_order_again, emit_for_order_releases, placement_released,
}

abbrev placed : Order
placed = record {
  id = 4;
  materialized_instance_id = some 7;
  external_routing_id = none;
  benchmark_run_id = none;
  task_type = none;
  placements =
      junk
      ∷ dict (record { role = Role.other; topology_node_id = some 1; gpu_device = some 0 })
      ∷ dict (record { role = Role.compute; topology_node_id = some 2; gpu_device = some 0 })
      ∷ dict (record { role = Role.worker; topology_node_id = some 2; gpu_device = some 0 })
      ∷ [];
}

abbrev no_conflict : ℕ → ℕ → ℕ → Bool
no_conflict o h d = false

-- Two placements on one device make one event.
emits_one : (emit_release_events_for_order [] no_conflict 5 placed []).1 ≡ 1
unfolding emit_release_events_for_order
emits_one = refl

emit_for_order_releases_example :
    let after = emit_release_events_for_order [] no_conflict 5 placed [] in
    IsUnique after.0
    × (length after.0 ≡ 0 + after.1)
    × Each
        (λ p. placement_released [] no_conflict 5 placed after.0 p ≡ true)
        (placements_of placed.placements)
emit_for_order_releases_example = emit_for_order_releases [] no_conflict 5 placed [] tt

emit_for_order_again_example :
    let after = (emit_release_events_for_order [] no_conflict 5 placed []).0 in
    emit_release_events_for_order [] no_conflict 5 placed after ≡ (after, 0)
emit_for_order_again_example = emit_for_order_again [] no_conflict 5 placed []
