-- ===== src/Routing/Apart.antt =====
-- When two orders hold a GPU slot at the same time (backend/api/orders.py).
use manage_deploy.Common.{
  Bool, Each, Each-all, List, Option, [], arith, false, is_empty, not, refl, true, ℕ, ◌&&◌, ◌==◌,
  ◌∷◌, ◌≡◌,
}
use manage_deploy.Enums.{TaskStatus}
use manage_deploy.Routing.Board.{
  RoutedOrder, has_conflict, holds_slots, names_instance, order_gpu_slots, time_windows_overlap,
  write_instance,
}
use manage_deploy.Routing.Placements.{RoutingPlacement, compute_gpu_slots, share_slot}

-- The two orders hold a slot at the same time.
abbrev pub clash : (ℕ → Option TaskStatus) → RoutedOrder → RoutedOrder → Bool
clash instances a b =
    not (a.id == b.id)
    && (holds_slots instances a
        && (holds_slots instances b
            && (time_windows_overlap a b && share_slot (order_gpu_slots a) (order_gpu_slots b))))

abbrev pub IsApart : (ℕ → Option TaskStatus) → List RoutedOrder → RoutedOrder → Type 0
IsApart instances os a = Each (λ b. clash instances a b ≡ false) os

-- Another instance's status is none of an order's concern.
pub holds_slots-write :
    (f : ℕ → Option TaskStatus) (i : ℕ) (s : TaskStatus) (os : List RoutedOrder)
    → names_instance i os ≡ false
    → Each (λ a. holds_slots (write_instance i s f) a ≡ holds_slots f a) os
unfolding holds_slots
holds_slots-write f i s [] e = tt
holds_slots-write f i s (o ∷ os) e = (ground arith, holds_slots-write f i s os (ground arith))

module _ (f : ℕ → Option TaskStatus) (o : RoutedOrder) (ps : List RoutingPlacement) where
  -- Without requested slots there is nothing to clash over.
  pub slotless-IsApart :
      (g : ℕ → Option TaskStatus) (n : RoutedOrder) (os : List RoutedOrder)
      → order_gpu_slots n ≡ compute_gpu_slots ps
      → is_empty (compute_gpu_slots ps) ≡ true
      → IsApart g os n
  slotless-IsApart g n os e h =
      Each-all (λ c. clash g n c ≡ false) os
        (λ c.
          let none_shared : share_slot (order_gpu_slots n) (order_gpu_slots c) ≡ false =
            rw e (empty-share (compute_gpu_slots ps) (order_gpu_slots c) h) in
          ground arith)
    where
      empty-share : (ss ts : List (ℕ × ℕ)) → is_empty ss ≡ true → share_slot ss ts ≡ false
      empty-share [] ts h = refl
      empty-share (s ∷ ss) ts h = absurd (ground arith)

  -- The loop over the candidates finds none that the order's row would clash with.
  pub searched-IsApart :
      (g : ℕ → Option TaskStatus) (n : RoutedOrder) (os : List RoutedOrder)
      → n.id ≡ o.id
      → order_gpu_slots n ≡ compute_gpu_slots ps
      → ((c : RoutedOrder) → time_windows_overlap n c ≡ time_windows_overlap o c)
      → has_conflict f o (compute_gpu_slots ps) os ≡ false
      → Each (λ a. holds_slots g a ≡ holds_slots f a) os
      → IsApart g os n
  unfolding has_conflict
  searched-IsApart g n [] i e t h k = tt
  searched-IsApart g n (c ∷ cs) i e t h k =
      (ground (arith, t c, i, k.0, h), searched-IsApart g n cs i e t (ground arith) k.1)
