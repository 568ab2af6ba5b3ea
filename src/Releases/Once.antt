-- ===== src/Releases/Once.antt =====
-- A GPU is released once (backend/services/routing_resource_events.py).
use manage_deploy.Common.{
  Bool, Bool-cases, Each, List, Option-cases, [], arith, false, if◌then◌else◌, inl, inr, length,
  none, refl, some, true, ||-intro_right, ℕ, ◌+◌, ◌||◌, ◌∷◌, ◌≡◌,
}
use manage_deploy.Releases.{
  Order, Placement, ResourceEvent, emit_gpu, emit_gpus, emit_placement, emit_placements,
  emit_release_events_for_order, event_exists, gpu_ids, is_compute, placements_of,
}

-- No two events have the same order, host and device: the table's unique constraint.
abbrev pub IsUnique : List ResourceEvent → Type 0
IsUnique [] = Unit {0}
IsUnique (e ∷ es) = (event_exists es e.order_id e.node_hostname e.resource_id ≡ false) × IsUnique es

-- The event is there, unflushed or durable, or another transaction has it.
abbrev pub is_released :
    List ResourceEvent → (ℕ → ℕ → ℕ → Bool) → List ResourceEvent → ℕ → ℕ → ℕ → Bool
is_released pending conflicts rows o h d =
    event_exists pending o h d || event_exists rows o h d || conflicts o h d

-- No event is lost.
abbrev pub Kept : List ResourceEvent → List ResourceEvent → Type 0
Kept before after = (k h d : ℕ) → event_exists before k h d ≡ true → event_exists after k h d ≡ true

module _ (pending : List ResourceEvent) (conflicts : ℕ → ℕ → ℕ → Bool) (reason : ℕ)
    (o : Order) where
  -- What the rows and the count keep over a part of the work: the keys stay unique, each event
  -- emitted is one row more, no row is lost, and nothing is done where all is released.
  pub record Adds (before after : List ResourceEvent × ℕ) : Type 0 where
    unique : IsUnique before.0 → IsUnique after.0
    counted : length after.0 + before.1 ≡ length before.0 + after.1
    pub kept : Kept before.0 after.0

  Adds-refl : (acc : List ResourceEvent × ℕ) → Adds acc acc
  Adds-refl acc = record { unique = λ u. u; counted = refl; kept = λ k h d e. e }

  Adds-trans : {a b c : List ResourceEvent × ℕ} → Adds a b → Adds b c → Adds a c
  Adds-trans p q = record {
    unique = λ u. q.unique (p.unique u);
    counted = omega (arith, p.counted, q.counted);
    kept = λ k h d e. q.kept k h d (p.kept k h d e);
  }

  emit_gpu-Adds :
      (h d : ℕ) (acc : List ResourceEvent × ℕ)
      → Adds acc (emit_gpu pending conflicts reason o h d acc)
  unfolding emit_gpu
  emit_gpu-Adds h d (rows, n) =
      elim (Bool-cases (event_exists pending o.id h d || event_exists rows o.id h d)) [
        | inl e ↦ rw e (Adds-refl (rows, n))
        | inr e ↦ elim (Bool-cases (conflicts o.id h d)) [
          | inl c ↦ rw (e, c) (Adds-refl (rows, n))
          | inr c ↦
              rw (e, c)
                (record {
                  unique = λ u. (ground arith, u);
                  counted = omega arith;
                  kept = λ k h' d' x. ||-intro_right _ _ x;
                })
        ]
      ]

  emit_gpu-released :
      (h d : ℕ) (acc : List ResourceEvent × ℕ)
      → is_released pending conflicts (emit_gpu pending conflicts reason o h d acc).0 o.id h d
        ≡ true
  unfolding emit_gpu
  emit_gpu-released h d (rows, n) = ground arith

  emit_gpu-again :
      (h d : ℕ) (acc : List ResourceEvent × ℕ)
      → is_released pending conflicts acc.0 o.id h d ≡ true
      → emit_gpu pending conflicts reason o h d acc ≡ acc
  unfolding emit_gpu
  emit_gpu-again h d (rows, n) e = ground arith

  is_released-Kept :
      (a b : List ResourceEvent) (k h d : ℕ)
      → Kept a b
      → is_released pending conflicts a k h d ≡ true
      → is_released pending conflicts b k h d ≡ true
  is_released-Kept a b k h d kept e = elim (Bool-cases (event_exists a k h d)) [
    | inl x ↦ let y = kept k h d x in ground arith
    | inr x ↦ ground arith
  ]

  emit_gpus-Adds :
      (h : ℕ) (ds : List ℕ) (acc : List ResourceEvent × ℕ)
      → Adds acc (emit_gpus pending conflicts reason o h ds acc)
  unfolding emit_gpus
  emit_gpus-Adds h [] acc = Adds-refl acc
  emit_gpus-Adds h (d ∷ ds) acc = Adds-trans (emit_gpu-Adds h d acc) (emit_gpus-Adds h ds _)

  -- The GPU of a placement that computes somewhere is released.
  unfoldable pub placement_released : List ResourceEvent → Placement → Bool
  placement_released rows p =
      if is_compute p.role
      then elim p.topology_node_id [
        | none ↦ true
        | some h ↦ elim p.gpu_device [
          | none ↦ true
          | some d ↦ is_released pending conflicts rows o.id h d
        ]
      ]
      else true

  emit_placement-Adds :
      (p : Placement) (acc : List ResourceEvent × ℕ)
      → Adds acc (emit_placement pending conflicts reason o p acc)
  unfolding emit_placement
  emit_placement-Adds p acc = elim (Bool-cases (is_compute p.role)) [
    | inl c ↦ elim (Option-cases p.topology_node_id) [
      | inl n ↦ rw (c, n) (Adds-refl acc)
      | inr (h, s) ↦ rw (c, s) (emit_gpus-Adds h (gpu_ids p) acc)
    ]
    | inr c ↦ rw c (Adds-refl acc)
  ]

  emit_placement_gpu :
      (h d : ℕ) (p : Placement) (acc : List ResourceEvent × ℕ)
      → is_compute p.role ≡ true
      → p.topology_node_id ≡ some h
      → p.gpu_device ≡ some d
      → emit_placement pending conflicts reason o p acc
        ≡ emit_gpu pending conflicts reason o h d acc
  unfolding emit_placement emit_gpus
  emit_placement_gpu h d p acc c s g = rw (c, s, g)

  emit_placement-released :
      (p : Placement) (acc : List ResourceEvent × ℕ)
      → placement_released (emit_placement pending conflicts reason o p acc).0 p ≡ true
  unfolding placement_released
  emit_placement-released p acc = elim (Bool-cases (is_compute p.role)) [
    | inl c ↦ elim (Option-cases p.topology_node_id) [
      | inl n ↦ rw (c, n)
      | inr (h, s) ↦ elim (Option-cases p.gpu_device) [
        | inl n ↦ rw (c, s, n)
        | inr (d, g) ↦
            rw (c, s, g) (rw (emit_placement_gpu h d p acc c s g) (emit_gpu-released h d acc))
      ]
    ]
    | inr c ↦ rw c
  ]

  emit_placement-again :
      (p : Placement) (acc : List ResourceEvent × ℕ)
      → placement_released acc.0 p ≡ true
      → emit_placement pending conflicts reason o p acc ≡ acc
  unfolding placement_released emit_placement emit_gpus
  emit_placement-again p acc e = elim (Bool-cases (is_compute p.role)) [
    | inl c ↦ elim (Option-cases p.topology_node_id) [
      | inl n ↦ rw (c, n)
      | inr (h, s) ↦ elim (Option-cases p.gpu_device) [
        | inl n ↦ rw (c, s, n)
        | inr (d, g) ↦ rw (c, s, g) (emit_gpu-again h d acc (rw (c, s, g) at e))
      ]
    ]
    | inr c ↦ rw c
  ]

  pub placement_released-Kept :
      (a b : List ResourceEvent) (p : Placement)
      → Kept a b
      → placement_released a p ≡ true
      → placement_released b p ≡ true
  unfolding placement_released
  placement_released-Kept a b p q e = elim (Bool-cases (is_compute p.role)) [
    | inl c ↦ elim (Option-cases p.topology_node_id) [
      | inl n ↦ rw (c, n)
      | inr (h, s) ↦ elim (Option-cases p.gpu_device) [
        | inl n ↦ rw (c, s, n)
        | inr (d, g) ↦ rw (c, s, g) (is_released-Kept a b o.id h d q (rw (c, s, g) at e))
      ]
    ]
    | inr c ↦ rw c
  ]

  pub emit_placements-Adds :
      (ps : List Placement) (acc : List ResourceEvent × ℕ)
      → Adds acc (emit_placements pending conflicts reason o ps acc)
  unfolding emit_placements
  emit_placements-Adds [] acc = Adds-refl acc
  emit_placements-Adds (p ∷ ps) acc =
      Adds-trans (emit_placement-Adds p acc) (emit_placements-Adds ps _)

  pub emit_placements-released :
      (ps : List Placement) (acc : List ResourceEvent × ℕ)
      → Each
          (λ p. placement_released (emit_placements pending conflicts reason o ps acc).0 p ≡ true)
          ps
  unfolding emit_placements
  emit_placements-released [] acc = tt
  emit_placements-released (p ∷ ps) acc =
      let next = emit_placement pending conflicts reason o p acc in
      (
        placement_released-Kept _ _ p (emit_placements-Adds ps next).kept
            (emit_placement-released p acc),
        emit_placements-released ps next,
      )

  pub emit_placements-again :
      (ps : List Placement) (acc : List ResourceEvent × ℕ)
      → Each (λ p. placement_released acc.0 p ≡ true) ps
      → emit_placements pending conflicts reason o ps acc ≡ acc
  unfolding emit_placements
  emit_placements-again [] acc h = refl
  emit_placements-again (p ∷ ps) acc h =
      rw (emit_placement-again p acc h.0) (emit_placements-again ps acc h.1)

module _ (pending : List ResourceEvent) (conflicts : ℕ → ℕ → ℕ → Bool) (reason : ℕ) (o : Order)
    (rows : List ResourceEvent) where
  -- Releasing the GPUs of an order, where the keys of the events are unique, keeps them so, adds as many rows as it
  -- reports, and leaves each GPU of a compute placement with a host released: its event is a row, or
  -- unflushed, or with another transaction.
  pub emit_for_order_releases :
      let after = emit_release_events_for_order pending conflicts reason o rows in
      IsUnique rows
      → IsUnique after.0
        × (length after.0 ≡ length rows + after.1)
        × Each
            (λ p. placement_released pending conflicts reason o after.0 p ≡ true)
            (placements_of o.placements)
  unfolding emit_release_events_for_order
  emit_for_order_releases unique =
      let adds =
        emit_placements-Adds pending conflicts reason o (placements_of o.placements) (rows, 0) in
      (
        adds.unique unique,
        omega (arith, adds.counted),
        emit_placements-released pending conflicts reason o (placements_of o.placements) (rows, 0),
      )

  -- Releasing the GPUs of an order once more, with the same unflushed events and the same rows of
  -- other transactions, emits nothing and leaves the rows as they are.
  pub emit_for_order_again :
      let after = (emit_release_events_for_order pending conflicts reason o rows).0 in
      emit_release_events_for_order pending conflicts reason o after ≡ (after, 0)
  unfolding emit_release_events_for_order
  emit_for_order_again =
      emit_placements-again pending conflicts reason o (placements_of o.placements) _
        (emit_placements-released pending conflicts reason o (placements_of o.placements) (rows, 0))
