-- ===== src/Routing/Rows.antt =====
-- Writing a row of the orders (backend/api/orders.py): what becomes of the others, and what the
-- overlap of windows and of slots does not depend on.
use manage_deploy.Common.{
  ==_iff, ==_refl, Bool-cases, Each, List, [], arith, false, inl, inr, refl, some, true, ℕ, ◌==◌,
  ◌||◌, ◌∷◌, ◌≡◌,
}
use manage_deploy.Routing.Board.{RoutedOrder, find_order, time_windows_overlap, write_order}
use manage_deploy.Routing.Placements.{has_slot, share_slot}

pub Each-write_order :
    (P : RoutedOrder → Type 0) (n : RoutedOrder) (os : List RoutedOrder)
    → Each P os
    → P n
    → Each P (write_order n os)
Each-write_order P n [] h p = tt
Each-write_order P n (o ∷ os) h p = elim (Bool-cases (o.id == n.id)) [
  | inl e ↦ rw e (p, Each-write_order P n os h.1 p)
  | inr e ↦ rw e (h.0, Each-write_order P n os h.1 p)
]

-- The second write of one order is all that is left.
pub write_order-write_order :
    (n m : RoutedOrder) (os : List RoutedOrder)
    → m.id ≡ n.id
    → write_order n (write_order m os) ≡ write_order n os
write_order-write_order n m [] e = refl
write_order-write_order n m (o ∷ os) e = elim (Bool-cases (o.id == n.id)) [
  | inl q ↦
      let same : (o.id == m.id) ≡ true = rw e q in
      let again : (m.id == n.id) ≡ true = rw e (==_refl n.id) in
      rw (same, q, again) (rw (write_order-write_order n m os e))
  | inr q ↦
      let same : (o.id == m.id) ≡ false = rw e q in
      rw (same, q) (rw (write_order-write_order n m os e))
]

pub find_order-id :
    (i : ℕ) (os : List RoutedOrder) (o : RoutedOrder) → find_order i os ≡ some o → o.id ≡ i
find_order-id i [] o e = absurd (ground arith)
find_order-id i (p ∷ ps) o e = elim (Bool-cases (p.id == i)) [
  | inl q ↦ let same : p ≡ o = ground arith in rw (← same) ((==_iff p.id i).0 q)
  | inr q ↦ find_order-id i ps o (ground arith)
]

pub find_order-write_ne :
    (j : ℕ) (n : RoutedOrder) (os : List RoutedOrder)
    → (j == n.id) ≡ false
    → find_order j (write_order n os) ≡ find_order j os
find_order-write_ne j n [] e = refl
find_order-write_ne j n (o ∷ os) e = elim (Bool-cases (o.id == n.id)) [
  | inl q ↦
      let same : o.id ≡ n.id = (==_iff o.id n.id).0 q in
      let other : (o.id == j) ≡ false = ground arith in
      let other' : (n.id == j) ≡ false = ground arith in
      rw (q, other, other') (find_order-write_ne j n os e)
  | inr q ↦ rw q (rw (find_order-write_ne j n os e))
]

pub find_order-write :
    (n : RoutedOrder) (os : List RoutedOrder) (o : RoutedOrder)
    → find_order n.id os ≡ some o
    → find_order n.id (write_order n os) ≡ some n
find_order-write n [] o e = absurd (ground arith)
find_order-write n (p ∷ ps) o e = elim (Bool-cases (p.id == n.id)) [
  | inl q ↦ rw (q, ==_refl n.id)
  | inr q ↦ rw (q, q) (find_order-write n ps o (ground arith))
]

share_slot-nil : (ss : List (ℕ × ℕ)) → share_slot ss [] ≡ false
share_slot-nil [] = refl
share_slot-nil (s ∷ ss) = share_slot-nil ss

share_slot-cons :
    (ss : List (ℕ × ℕ)) (t : ℕ × ℕ) (ts : List (ℕ × ℕ))
    → share_slot ss (t ∷ ts) ≡ (has_slot t ss || share_slot ss ts)
share_slot-cons [] t ts = refl
share_slot-cons (s ∷ ss) t ts = ground (arith, share_slot-cons ss t ts)

pub share_slot_comm : (ss ts : List (ℕ × ℕ)) → share_slot ss ts ≡ share_slot ts ss
share_slot_comm ss [] = share_slot-nil ss
share_slot_comm ss (t ∷ ts) = rw (share_slot-cons ss t ts) (rw (share_slot_comm ss ts))

pub overlap_comm : (a b : RoutedOrder) → time_windows_overlap a b ≡ time_windows_overlap b a
unfolding time_windows_overlap
overlap_comm a b = ground arith
