-- ===== src/Lifecycle/Runtime.antt =====
-- What `cleanup_instance_runtime` (backend/services/instance_lifecycle.py) leaves of the containers.
use manage_deploy.Common.{
  Bool, Bool-cases, Each, Each-get, List, Option, [], ap, arith, contains, false, get_elem?,
  if◌then◌else◌, inl, inr, is_empty, none, not, refl, some, sym, true, ℕ, ◌&&◌, ◌∙◌, ◌∷◌, ◌≡◌, ◌⊎◌,
}
use manage_deploy.Dag.Graph.{Graph, NodeRow, get_all_instance_nodes}
use manage_deploy.Dag.Messages.{AgentResult, Message}
use manage_deploy.Dag.Nodes.{Store, remove_node, update_node_status}
use manage_deploy.Lifecycle.{
  AgentReply, Cleanup, Removal, answered, broke, cleanup_instance_runtime, cleanup_nodes, failed,
  finished, has_runtime, raised, remove_one, returned, with_warning,
}

remove_node-keeps_clean :
    (g : Graph) (n : NodeRow) (r : AgentResult) (st : Store) (j : ℕ)
    → has_runtime (st.node_state j) ≡ false
    → has_runtime ((remove_node g n r st).0.node_state j) ≡ false
unfolding remove_node update_node_status
remove_node-keeps_clean g n r st j h = ground arith

remove_node-clean :
    (g : Graph) (n : NodeRow) (r : AgentResult) (st : Store)
    → contains n.node_id g.machines ≡ true
    → (remove_node g n r st).1 ≡ none
    → has_runtime ((remove_node g n r st).0.node_state n.id) ≡ false
unfolding remove_node update_node_status
remove_node-clean g n r st m h = ground arith

-- The warnings of a clean-up; one that raised has none yet.
abbrev pub is_clean : Cleanup → Bool
is_clean (finished st ws) = is_empty ws
is_clean (failed st e) = false

abbrev pub store_of : Cleanup → Store
store_of (finished st ws) = st
store_of (failed st e) = st

with_warning-store_of :
    (k : ℕ) (m : Option Message) (c : Cleanup) → store_of (with_warning k m c) ≡ store_of c
with_warning-store_of k none c = refl
with_warning-store_of k (some m) (finished st ws) = refl
with_warning-store_of k (some m) (failed st e) = refl

with_warning-is_clean :
    (k : ℕ) (m : Option Message) (c : Cleanup)
    → is_clean (with_warning k m c) ≡ true
    → (m ≡ none) × (is_clean c ≡ true)
with_warning-is_clean k none c h = (refl, h)
with_warning-is_clean k (some m) (finished st ws) h = absurd (ground arith)
with_warning-is_clean k (some m) (failed st e) h = absurd (ground arith)

Removal-cases :
    (x : Removal)
    → ((e : List ℕ) × (x ≡ broke e)) ⊎ ((st : Store) × (m : Option Message) × (x ≡ returned st m))
Removal-cases (broke e) = inl (e, refl)
Removal-cases (returned st m) = inr (st, m, refl)

module _ (g : Graph) (replies : ℕ → AgentReply) where
  remove_one-keeps_clean :
      (n : NodeRow) (st after : Store) (m : Option Message) (j : ℕ)
      → remove_one g replies n st ≡ returned after m
      → has_runtime (st.node_state j) ≡ false
      → has_runtime (after.node_state j) ≡ false
  unfolding remove_one
  remove_one-keeps_clean n st after m j e h = by_reply (replies n.id) e
    where
      by_reply :
          (reply : AgentReply)
          → (if not (has_runtime (st.node_state n.id))
              then returned st none
              else if not (contains n.node_id g.machines)
              then returned st none
              else elim reply [
                | raised x ↦ broke x
                | answered r ↦ returned (remove_node g n r st).0 (remove_node g n r st).1
              ])
            ≡ returned after m
          → has_runtime (after.node_state j) ≡ false
      by_reply (raised x) q = ground arith
      by_reply (answered r) q = let kept = remove_node-keeps_clean g n r st j h in ground arith

  remove_one-clean :
      (n : NodeRow) (st after : Store)
      → remove_one g replies n st ≡ returned after none
      → (contains n.node_id g.machines && has_runtime (after.node_state n.id)) ≡ false
  unfolding remove_one
  remove_one-clean n st after e = by_reply (replies n.id) e
    where
      by_reply :
          (reply : AgentReply)
          → (if not (has_runtime (st.node_state n.id))
              then returned st none
              else if not (contains n.node_id g.machines)
              then returned st none
              else elim reply [
                | raised x ↦ broke x
                | answered r ↦ returned (remove_node g n r st).0 (remove_node g n r st).1
              ])
            ≡ returned after none
          → (contains n.node_id g.machines && has_runtime (after.node_state n.id)) ≡ false
      by_reply (raised x) q = ground arith
      by_reply (answered r) q = elim (Bool-cases (contains n.node_id g.machines)) [
        | inr k ↦ ground arith
        | inl k ↦ let clean = remove_node-clean g n r st k in ground arith
      ]

  cleanup_nodes-returned :
      (n : NodeRow) (ns : List NodeRow) (st after : Store) (m : Option Message)
      → remove_one g replies n st ≡ returned after m
      → cleanup_nodes g replies (n ∷ ns) st ≡ with_warning n.id m (cleanup_nodes g replies ns after)
  unfolding cleanup_nodes
  cleanup_nodes-returned n ns st after m q = rw (q, cleanup_nodes) refl

  cleanup_nodes-broke :
      (n : NodeRow) (ns : List NodeRow) (st : Store) (e : List ℕ)
      → remove_one g replies n st ≡ broke e
      → cleanup_nodes g replies (n ∷ ns) st ≡ failed st e
  unfolding cleanup_nodes
  cleanup_nodes-broke n ns st e q = rw (q, cleanup_nodes) refl

  store_of-returned :
      (n : NodeRow) (ns : List NodeRow) (st after : Store) (m : Option Message)
      → remove_one g replies n st ≡ returned after m
      → store_of (cleanup_nodes g replies (n ∷ ns) st) ≡ store_of (cleanup_nodes g replies ns after)
  store_of-returned n ns st after m q =
      ap store_of (cleanup_nodes-returned n ns st after m q)
      ∙ with_warning-store_of n.id m (cleanup_nodes g replies ns after)

  cleanup_nodes-keeps_clean :
      (ns : List NodeRow) (st : Store) (j : ℕ)
      → has_runtime (st.node_state j) ≡ false
      → has_runtime ((store_of (cleanup_nodes g replies ns st)).node_state j) ≡ false
  cleanup_nodes-keeps_clean [] st j h = unfold cleanup_nodes in h
  cleanup_nodes-keeps_clean (n ∷ ns) st j h = elim (Removal-cases (remove_one g replies n st)) [
    | inl (e, q) ↦ rw (cleanup_nodes-broke n ns st e q) h
    | inr (after, m, q) ↦
        rw (store_of-returned n ns st after m q)
          (cleanup_nodes-keeps_clean ns after j (remove_one-keeps_clean n st after m j q h))
  ]

  cleanup_nodes-clean :
      (ns : List NodeRow) (st final : Store)
      → store_of (cleanup_nodes g replies ns st) ≡ final
      → is_clean (cleanup_nodes g replies ns st) ≡ true
      → Each
          (λ n. (contains n.node_id g.machines && has_runtime (final.node_state n.id)) ≡ false)
          ns
  cleanup_nodes-clean [] st final s h = tt
  cleanup_nodes-clean (n ∷ ns) st final s h = elim (Removal-cases (remove_one g replies n st)) [
    | inl (e, q) ↦ absurd (let stuck = rw (cleanup_nodes-broke n ns st e q) at h in cc)
    | inr (after, m, q) ↦
        let (quiet, clean) =
          with_warning-is_clean n.id m (cleanup_nodes g replies ns after)
            (rw (cleanup_nodes-returned n ns st after m q) at h) in
        let same = sym (store_of-returned n ns st after m q) ∙ s in
        (
          later after final (remove_one-clean n st after (rw quiet at q))
              (rw same at (cleanup_nodes-keeps_clean ns after n.id)),
          cleanup_nodes-clean ns after final same clean,
        )
  ]
    where
      later :
          (after final : Store)
          → (contains n.node_id g.machines && has_runtime (after.node_state n.id)) ≡ false
          → (has_runtime (after.node_state n.id) ≡ false
              → has_runtime (final.node_state n.id) ≡ false)
          → (contains n.node_id g.machines && has_runtime (final.node_state n.id)) ≡ false
      later after final a f = elim (Bool-cases (contains n.node_id g.machines)) [
        | inl k ↦ let b = f (ground arith) in ground arith
        | inr k ↦ ground arith
      ]

-- When the clean-up of the containers of an instance ends without a warning, each node of the
-- instance whose machine is known has neither a container nor a status of a running one, whatever the
-- agents answered.
pub cleanup-clean :
    (g : Graph) (i : ℕ) (replies : ℕ → AgentReply) (st : Store) (k : ℕ) (n : NodeRow)
    → is_clean (cleanup_instance_runtime g i replies st) ≡ true
    → get_elem? (get_all_instance_nodes g i) k ≡ some n
    → contains n.node_id g.machines ≡ true
    → has_runtime ((store_of (cleanup_instance_runtime g i replies st)).node_state n.id) ≡ false
unfolding cleanup_instance_runtime
cleanup-clean g i replies st k n h got known =
    let nodes = get_all_instance_nodes g i in
    let apart : (contains n.node_id g.machines
          && has_runtime ((store_of (cleanup_nodes g replies nodes st)).node_state n.id))
        ≡ false =
      Each-get _ nodes k got (cleanup_nodes-clean g replies nodes st _ refl h) in
    ground arith
