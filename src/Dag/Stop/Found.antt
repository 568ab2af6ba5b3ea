-- ===== src/Dag/Stop/Found.antt =====
-- The tasks that the stop loop (backend/services/dag_executor.py) finds over, and the nodes that they
-- belong to.
use manage_deploy.Dag.Start.State.{find_key}
use manage_deploy.Dag.Graph.{upstream_rows, rows_of, EdgeRow}
use manage_deploy.Common.{
  ==_iff, ==_refl, Bool, Bool-cases, List, [], ap, arith, contains, false, inl, inr, is_empty,
  is_none, length, length-append, length-select_le, not, refl, remove, true, ||-intro_right, ℕ,
  ◌==◌, ◌||◌, ◌∷◌, ◌≡◌, ◌≤◌,
}
use manage_deploy.Dag.Graph.{EdgeRow, NodeRow, rows_of, upstream_rows}
use manage_deploy.Dag.Stop.Loop.{StopTask, is_over, over_tasks}
use manage_deploy.Dag.Stop.Weights.{weigh}

abbrev pub is_found : ℕ → List (ℕ × ℕ) → Bool
is_found d m = not (is_none (find_key d m))

-- Some task of the list is that of a running node.
abbrev pub any_found : List ℕ → List (ℕ × ℕ) → Bool
any_found [] m = false
any_found (d ∷ ds) m = is_found d m || any_found ds m

pub upstream_rows-length :
    (ns : List NodeRow) (es : List EdgeRow) (k : ℕ)
    → length (upstream_rows ns es k) ≤ weigh (length ns) es
upstream_rows-length ns [] k = omega arith
upstream_rows-length ns (e ∷ es) k = ground (
  arith,
  upstream_rows-length ns es k,
  length-append (rows_of ns e.from_node_id) (upstream_rows ns es k),
  length-select_le (λ (n : NodeRow). n.id == e.from_node_id) ns,
)

pub over_tasks-length :
    (ts : List StopTask) (m : List (ℕ × ℕ)) → length (over_tasks ts m) ≤ length m
over_tasks-length ts [] = omega arith
over_tasks-length ts ((k, t) ∷ m) = ground (arith, over_tasks-length ts m)

find_key-own : (t : ℕ) (k : ℕ) (m : List (ℕ × ℕ)) → is_found t ((k, t) ∷ m) ≡ true
find_key-own t k m = rw (==_refl t) refl

find_key-more :
    (d k t : ℕ) (m : List (ℕ × ℕ)) → is_found d m ≡ true → is_found d ((k, t) ∷ m) ≡ true
find_key-more d k t m h = ground arith

any_found-more :
    (ds : List ℕ) (k t : ℕ) (m : List (ℕ × ℕ))
    → any_found ds m ≡ true
    → any_found ds ((k, t) ∷ m) ≡ true
any_found-more [] k t m h = h
any_found-more (d ∷ ds) k t m h = ground (arith, any_found-more ds k t m, find_key-more d k t m)

-- The tasks that are over belong to running nodes.
pub over_tasks-found :
    (ts : List StopTask) (m : List (ℕ × ℕ))
    → is_empty (over_tasks ts m) ≡ false
    → any_found (over_tasks ts m) m ≡ true
over_tasks-found ts [] h = absurd (ground arith)
over_tasks-found ts ((k, t) ∷ m) h = elim (Bool-cases (is_over ts t)) [
  | inl e ↦ rw (e, find_key-own t k m) refl
  | inr e ↦ rw e (any_found-more (over_tasks ts m) k t m (over_tasks-found ts m (rw e at h)))
]

pub any_found-intro :
    (ds : List ℕ) (d : ℕ) (m : List (ℕ × ℕ))
    → contains d ds ≡ true
    → is_found d m ≡ true
    → any_found ds m ≡ true
any_found-intro [] d m h f = absurd (ground arith)
any_found-intro (x ∷ ds) d m h f = elim (Bool-cases (d == x)) [
  | inl e ↦ let here : is_found x m ≡ true = rw (← (==_iff d x).0 e) f in ground arith
  | inr e ↦ ||-intro_right (is_found x m) (any_found ds m) (any_found-intro ds d m (ground arith) f)
]

-- A task that is found nowhere can be dropped.
pub any_found-remove :
    (ds : List ℕ) (d : ℕ) (m : List (ℕ × ℕ))
    → is_found d m ≡ false
    → any_found (remove d ds) m ≡ any_found ds m
any_found-remove [] d m h = refl
any_found-remove (x ∷ ds) d m h = elim (Bool-cases (d == x)) [
  | inl e ↦
      let here : is_found x m ≡ false = rw (← (==_iff d x).0 e) h in
      rw (e, here) (any_found-remove ds d m h)
  | inr e ↦ rw e (ap (λ b. is_found x m || b) (any_found-remove ds d m h))
]
