-- ===== src/Benchmark/Counts.antt =====
-- The count of active orders by slot (_advance_controlled_benchmark_run of backend/api/orders.py)
-- after the status of one instance is written.
use manage_deploy.Benchmark.{
  BenchmarkOrder, Slot, active_orders, benchmark_compute_slot, is_active, is_active_order,
  is_same_slot, write_status,
}
use manage_deploy.Common.{
  ==_refl, Bool, Each, Each-and, Each-imp, List, Option, [], arith, contains, false, if◌then◌else◌,
  none, not, refl, some, true, ℕ, ◌&&◌, ◌+◌, ◌==◌, ◌∷◌, ◌≡◌,
}
use manage_deploy.Enums.{TaskStatus}

abbrev pub has_instance : ℕ → BenchmarkOrder → Bool
has_instance i o = elim o.materialized_instance_id [ none ↦ false | some j ↦ j == i ]

abbrev pub shares_instance : BenchmarkOrder → BenchmarkOrder → Bool
shares_instance a b = elim a.materialized_instance_id [ none ↦ false | some i ↦ has_instance i b ]

-- No instance belongs to two orders.
abbrev pub IsDistinct : List BenchmarkOrder → Type 0
IsDistinct [] = Unit {0}
IsDistinct (o ∷ os) = Each (λ p. shares_instance o p ≡ false) os × IsDistinct os

abbrev one_if : Bool → ℕ
one_if b = if b then 1 else 0

-- A start of the order's instance counts in its slot.
abbrev pub IsCounted : List ℕ → List BenchmarkOrder → BenchmarkOrder → Type 0
IsCounted e os o =
    (f : ℕ → Option TaskStatus) (i : ℕ) (s : TaskStatus)
    → o.materialized_instance_id ≡ some i
    → contains i e ≡ false
    → f i ≡ some s
    → is_active s ≡ false
    → (k : Slot)
    → active_orders e (write_status i TaskStatus.starting f) os k
      ≡ active_orders e f os k + (if is_same_slot k (benchmark_compute_slot o) then 1 else 0)

other_order :
    (e : List ℕ) (f : ℕ → Option TaskStatus) (i : ℕ) (s : TaskStatus) (o : BenchmarkOrder)
    → has_instance i o ≡ false
    → is_active_order e (write_status i s f) o ≡ is_active_order e f o
other_order e f i s o h = go o.materialized_instance_id h
  where
    go :
        (m : Option ℕ)
        → elim m [ none ↦ false | some j ↦ j == i ] ≡ false
        → elim m [
          | none ↦ false
          | some j ↦
              not (contains j e)
              && elim (write_status i s f j) [ none ↦ false | some t ↦ is_active t ]
        ]
          ≡ elim m [
            | none ↦ false
            | some j ↦ not (contains j e) && elim (f j) [ none ↦ false | some t ↦ is_active t ]
          ]
    go none h = refl
    go (some j) h = rw h refl

other_orders :
    (e : List ℕ) (f : ℕ → Option TaskStatus) (i : ℕ) (s : TaskStatus) (os : List BenchmarkOrder)
    (k : Slot)
    → Each (λ p. has_instance i p ≡ false) os
    → active_orders e (write_status i s f) os k ≡ active_orders e f os k
unfolding active_orders
other_orders e f i s [] k h = refl
other_orders e f i s (o ∷ os) k h =
    rw (other_order e f i s o h.0, other_orders e f i s os k h.1) refl

claimed_active :
    (e : List ℕ) (f : ℕ → Option TaskStatus) (i : ℕ) (o : BenchmarkOrder)
    → o.materialized_instance_id ≡ some i
    → contains i e ≡ false
    → is_active_order e (write_status i TaskStatus.starting f) o ≡ true
claimed_active e f i o m c = rw m (rw (c, ==_refl i) refl)

unclaimed_idle :
    (e : List ℕ) (f : ℕ → Option TaskStatus) (i : ℕ) (s : TaskStatus) (o : BenchmarkOrder)
    → o.materialized_instance_id ≡ some i
    → f i ≡ some s
    → is_active s ≡ false
    → is_active_order e f o ≡ false
unclaimed_idle e f i s o m t a = rw m (rw (t, a) (ground arith))

first-IsCounted :
    (e : List ℕ) (o : BenchmarkOrder) (os : List BenchmarkOrder)
    → Each (λ p. shares_instance o p ≡ false) os
    → IsCounted e (o ∷ os) o
unfolding active_orders
first-IsCounted e o os h f i s m c t a k =
    let others = other_orders e f i TaskStatus.starting os k (Each-imp os (λ p q. rw m at q) h) in
    let after = claimed_active e f i o m c in
    let before = unclaimed_idle e f i s o m t a in rw (others, after, before) (ground arith)

later-IsCounted :
    (e : List ℕ) (o p : BenchmarkOrder) (os : List BenchmarkOrder)
    → shares_instance o p ≡ false
    → IsCounted e os p
    → IsCounted e (o ∷ os) p
unfolding active_orders
later-IsCounted e o p os h g f i s m c t a k =
    let rest = g f i s m c t a k in
    let head = other_order e f i TaskStatus.starting o (ground arith) in
    rw (rest, head) (omega arith)

-- Every order of the list counts once.
pub distinct-IsCounted :
    (e : List ℕ) (os : List BenchmarkOrder) → IsDistinct os → Each (IsCounted e os) os
distinct-IsCounted e [] d = tt
distinct-IsCounted e (o ∷ os) d = (
  first-IsCounted e o os d.0,
  Each-imp os (λ p q. later-IsCounted e o p os q.0 q.1)
      (Each-and (λ p. shares_instance o p ≡ false) (IsCounted e os) os d.0
        (distinct-IsCounted e os d.1)),
)
