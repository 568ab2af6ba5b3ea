-- ===== src/Dag/Stop/Keys.antt =====
-- Dicts with each key once, and the rows of the node table, for the stop loop
-- (backend/services/dag_executor.py).
use manage_deploy.Dag.Graph.{upstream_rows, rows_of, EdgeRow}
use manage_deploy.Dag.Graph.Neighbours.{ids-append}
use manage_deploy.Dag.Start.State.{find_key}
use manage_deploy.Common.{
  ◌∙◌, ap, sym, ==_iff, Bool-cases, Each, List, [], arith, contains, contains-append,
  contains-keys-delete_ne, contains-keys-put, contains_self, delete, false, find, inl, inr, keys,
  put, refl, some, true, ||-intro_right, ||-true, ℕ, ◌++◌, ◌==◌, ◌∷◌, ◌≡◌,
}
use manage_deploy.Dag.Graph.{EdgeRow, NodeRow, ids, rows_of, upstream_rows}
use manage_deploy.Dag.Stop.Cover.{stop_ids}
use manage_deploy.Dag.Stop.Loop.{StopTask}

abbrev pub IsOnce : List (ℕ × ℕ) → Type 0
IsOnce [] = Unit {0}
IsOnce ((k, v) ∷ m) = (contains k (keys m) ≡ false) × IsOnce m

pub put-IsOnce :
    (k v : ℕ) (m : List (ℕ × ℕ)) → contains k (keys m) ≡ false → IsOnce m → IsOnce (put k v m)
put-IsOnce k v [] h o = (refl, tt)
put-IsOnce k v ((j, u) ∷ m) h o = elim (Bool-cases (k == j)) [
  | inl e ↦ absurd (ground arith)
  | inr e ↦
      rw e (ground (arith, contains-keys-put {0} j k v m, o.0), put-IsOnce k v m (ground arith) o.1)
]

pub delete-IsOnce :
    (k : ℕ) (m : List (ℕ × ℕ))
    → IsOnce m
    → IsOnce (delete k m) × (contains k (keys (delete k m)) ≡ false)
delete-IsOnce k [] o = (tt, refl)
delete-IsOnce k ((j, u) ∷ m) o = elim (Bool-cases (k == j)) [
  | inl e ↦ rw e (o.1, rw ((==_iff k j).0 e) o.0)
  | inr e ↦
      let rest = delete-IsOnce k m o.1 in
      let other : (j == k) ≡ false = ground arith in
      rw (e, e) ((contains-keys-delete_ne {0} j k m other ∙ o.0, rest.0), rest.1)
]

-- Nothing is in a shorter dict that was not in the longer.
pub delete_idle :
    (a k : ℕ) (m : List (ℕ × ℕ))
    → contains a (keys m) ≡ false
    → contains a (keys (delete k m)) ≡ false
delete_idle a k [] h = h
delete_idle a k ((j, u) ∷ m) h = ground (arith, delete_idle a k m)

pub find_key-in_keys :
    (m : List (ℕ × ℕ)) (u k : ℕ) → find_key u m ≡ some k → contains k (keys m) ≡ true
find_key-in_keys [] u k e = absurd (ground arith)
find_key-in_keys ((j, v) ∷ m) u k e = elim (Bool-cases (v == u)) [
  | inl q ↦ let same : j ≡ k = ground arith in ground arith
  | inr q ↦ ||-intro_right _ _ (find_key-in_keys m u k (ground arith))
]

pub still :
    (a k : ℕ) (m : List (ℕ × ℕ))
    → contains a (keys (delete k m)) ≡ true
    → contains a (keys m) ≡ true
still a k [] h = h
still a k ((j, u) ∷ m) h = ground (arith, still a k m)

pub Each-ids :
    (P : NodeRow → Type 0) (ns : List NodeRow)
    → ((u : NodeRow) → contains u.id (ids ns) ≡ true → P u)
    → Each P ns
Each-ids P [] h = tt
Each-ids P (n ∷ ns) h = (
  h n (contains_self n.id (ids ns)),
  Each-ids P ns (λ u m. h u (||-intro_right (u.id == n.id) (contains u.id (ids ns)) m)),
)

pub task_free :
    (P : ℕ → Type 0) (ts : List StopTask) (a : ℕ)
    → contains a (stop_ids ts) ≡ true
    → Each (λ t. P t.node.id) ts
    → P a
task_free P [] a m h = absurd (ground arith)
task_free P (t ∷ ts) a m h = elim (Bool-cases (a == t.node.id)) [
  | inl e ↦ rw ((==_iff a t.node.id).0 e) h.0
  | inr e ↦ task_free P ts a (ground arith) h.1
]

rows_of-in_table :
    (ns : List NodeRow) (k a : ℕ)
    → contains a (ids (rows_of ns k)) ≡ true
    → contains a (ids ns) ≡ true
rows_of-in_table [] k a h = h
rows_of-in_table (n ∷ ns) k a h = ground (arith, rows_of-in_table ns k a)

pub upstream-in_table :
    (ns : List NodeRow) (es : List EdgeRow) (k a : ℕ)
    → contains a (ids (upstream_rows ns es k)) ≡ true
    → contains a (ids ns) ≡ true
upstream-in_table ns [] k a h = absurd (ground arith)
upstream-in_table ns (e ∷ es) k a h = elim (Bool-cases (e.to_node_id == k)) [
  | inr q ↦ upstream-in_table ns es k a (rw q at h)
  | inl q ↦
      let parts : contains a (ids (rows_of ns e.from_node_id) ++ ids (upstream_rows ns es k))
          ≡ true =
        ap (contains a) (sym (ids-append (rows_of ns e.from_node_id) (upstream_rows ns es k)))
        ∙ (rw q at h) in
      elim (||-true (contains a (ids (rows_of ns e.from_node_id)))
        (contains a (ids (upstream_rows ns es k)))
        (sym (contains-append a (ids (rows_of ns e.from_node_id)) (ids (upstream_rows ns es k)))
          ∙ parts)) [
            | inl m ↦ rows_of-in_table ns e.from_node_id a m
            | inr m ↦ upstream-in_table ns es k a m
          ]
]

pub differs :
    (j k : ℕ) (xs : List ℕ) → contains j xs ≡ true → contains k xs ≡ false → (j == k) ≡ false
differs j k xs m h = elim (Bool-cases (j == k)) [
  | inl e ↦ let here : contains k xs ≡ true = rw (← (==_iff j k).0 e) m in ground arith
  | inr e ↦ e
]

pub in_table :
    (ns : List NodeRow) (k : ℕ) (n : NodeRow)
    → find (λ m. m.id == k) ns ≡ some n
    → contains k (ids ns) ≡ true
in_table [] k n e = absurd (ground arith)
in_table (x ∷ ns) k n e = elim (Bool-cases (x.id == k)) [
  | inl q ↦ ground arith
  | inr q ↦ ||-intro_right (k == x.id) (contains k (ids ns)) (in_table ns k n (ground arith))
]
