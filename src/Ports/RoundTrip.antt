-- ===== src/Ports/RoundTrip.antt =====
-- What the readers of backend/services/port_plan.py see of the mappings that
-- ports_map_from_host_ports (node_agent/port_utils.py) and resolve_port_values
-- (backend/services/instance_builder.py) write.
use manage_deploy.Common.{
  ◌∙◌, ==_iff, Bool, Bool-cases, Each, Each-imp, List, Option, Option-cases, [], ap, arith,
  contains, contains-add, contains_self, false, inl, inr, is_empty, keys, map, none, not, put, refl,
  some, sym, true, ||-intro_right, ℕ, ◌&&◌, ◌<◌, ◌==◌, ◌||◌, ◌∷◌, ◌≡◌, ◌≤◌,
}
use manage_deploy.Ports.Ascending.{
  contains-sorted, extract_host_ports-IsAscending, has_port, is_distinct, sorted-IsAscending,
  valid_port-range,
}
use manage_deploy.Ports.Bindings.{AreValid, ascending_ext, ports_map-extract}
use manage_deploy.Ports.Extract.{
  PortEntry, Raw, effective_values, extract_host_ports, extract_ports_from_values, max_port, number,
  sorted, valid_port,
}
use manage_deploy.Ports.Resolve.{
  NamedDef, add_def, add_defs, add_values, assign, entry, label, named_ports, or_default, other,
  ports_map_from_host_ports, ports_of, raw_of, resolve_port_values, to_set,
}

Each-contains : (P : ℕ → Type 0) (ps : List ℕ) → ((a : ℕ) → contains a ps ≡ true → P a) → Each P ps
Each-contains P [] h = tt
Each-contains P (p ∷ ps) h = (
  h p (contains_self p ps),
  Each-contains P ps (λ a m. h a (||-intro_right (a == p) (contains a ps) m)),
)

has_port-range : (a : ℕ) (rs : List Raw) → has_port a rs ≡ true → (0 < a) × (a ≤ max_port)
has_port-range a [] h = absurd (ground arith)
has_port-range a (r ∷ rs) h = elim (Option-cases (valid_port r)) [
  | inl e ↦ has_port-range a rs (ground arith)
  | inr (p, e) ↦ elim (Bool-cases (a == p)) [
    | inl q ↦ rw ((==_iff a p).0 q) (valid_port-range r p e)
    | inr q ↦ has_port-range a rs (ground arith)
  ]
]

-- The ports of a mapping are read back from the mapping that is made of them, in either network
-- mode: whatever the first mapping held, nothing is lost, added or put in another order.
pub ports_map-round_trip :
    (ports : List PortEntry) (host_mode mode : Bool)
    → extract_host_ports (ports_map_from_host_ports (extract_host_ports ports host_mode)) mode
      ≡ extract_host_ports ports host_mode
ports_map-round_trip ports host_mode mode =
    let (up, same, up', same') = extract_host_ports-IsAscending ports host_mode [] in
    ports_map-extract (extract_host_ports ports host_mode) mode up (
      Each-contains (λ p. (0 < p) × (p ≤ max_port)) (extract_host_ports ports host_mode)
        (λ a m. has_port-range a (effective_values host_mode ports) (sym (same a) ∙ m)))

contains-to_set : (a : ℕ) (ps : List ℕ) → contains a (to_set ps) ≡ contains a ps
contains-to_set a [] = refl
contains-to_set a (p ∷ ps) =
    contains-add a p (to_set ps) ∙ ap (λ b. a == p || b) (contains-to_set a ps)

to_set-distinct : (ps : List ℕ) → is_distinct (to_set ps) ≡ true
to_set-distinct [] = refl
to_set-distinct (p ∷ ps) = ground (arith, to_set-distinct ps)

AreValid-to_set : (ps : List ℕ) → AreValid ps → AreValid (to_set ps)
AreValid-to_set [] v = tt
AreValid-to_set (p ∷ ps) v = elim (Bool-cases (contains p (to_set ps))) [
  | inl e ↦ rw e (AreValid-to_set ps v.1)
  | inr e ↦ rw e (v.0, AreValid-to_set ps v.1)
]

has_port-number : (a : ℕ) (ps : List ℕ) → AreValid ps → has_port a (map number ps) ≡ contains a ps
has_port-number a [] v = refl
has_port-number a (p ∷ ps) v = ground (arith, has_port-number a ps v.1)

AreValid-sorted : (ps : List ℕ) → AreValid ps → AreValid (sorted ps)
AreValid-sorted ps v =
    Each-contains (λ p. (0 < p) × (p ≤ max_port)) (sorted ps)
      (λ a m. valid_member ps a v (sym (contains-sorted a ps) ∙ m))
  where
    valid_member :
        (ps : List ℕ) (a : ℕ) → AreValid ps → contains a ps ≡ true → (0 < a) × (a ≤ max_port)
    valid_member [] a v m = absurd (ground arith)
    valid_member (p ∷ ps) a v m = elim (Bool-cases (a == p)) [
      | inl e ↦ rw ((==_iff a p).0 e) v.0
      | inr e ↦ valid_member ps a v.1 (ground arith)
    ]

-- Valid ports, sorted as a set, are what the reader of named values makes of them.
set-values :
    (ps : List ℕ) → AreValid ps → sorted (to_set ps) ≡ extract_ports_from_values (map number ps)
set-values ps v =
    let (up, same, up', same') = extract_host_ports-IsAscending [] true (map number ps) in
    ascending_ext 0 (sorted (to_set ps)) (extract_ports_from_values (map number ps))
      (sorted-IsAscending (to_set ps) (to_set-distinct ps)
        (Each-imp (to_set ps) (λ p q. q.0) (AreValid-to_set ps v)))
      up'
      (λ a.
        contains-sorted a (to_set ps)
        ∙ contains-to_set a ps
        ∙ sym (same' a ∙ has_port-number a ps v))

put-AreValid :
    (n p : ℕ) (m : List (ℕ × ℕ))
    → (0 < p) × (p ≤ max_port)
    → AreValid (ports_of m)
    → AreValid (ports_of (put n p m))
put-AreValid n p [] h v = (h, tt)
put-AreValid n p ((k, q) ∷ m) h v = elim (Bool-cases (n == k)) [
  | inl e ↦ rw e (h, v.1)
  | inr e ↦ rw e (v.0, put-AreValid n p m h v.1)
]

assign-AreValid :
    (n : ℕ) (r : Option ℕ) (m : List (ℕ × ℕ))
    → ((p : ℕ) → r ≡ some p → (0 < p) × (p ≤ max_port))
    → AreValid (ports_of m)
    → AreValid (ports_of (assign n r m))
assign-AreValid n none m h v = v
assign-AreValid n (some p) m h v = put-AreValid n p m (h p refl) v

or_default-range :
    (r d : Raw) (p : ℕ)
    → or_default (valid_port r) (valid_port d) ≡ some p
    → (0 < p) × (p ≤ max_port)
or_default-range r d p e = elim (Option-cases (valid_port r)) [
  | inl q ↦ valid_port-range d p (rw q at e)
  | inr (x, q) ↦ valid_port-range r p (q ∙ (rw q at e))
]

add_def-AreValid :
    (values : List (ℕ × Raw)) (d : NamedDef) (m : List (ℕ × ℕ))
    → AreValid (ports_of m)
    → AreValid (ports_of (add_def values d m))
add_def-AreValid values (label none) m v = v
add_def-AreValid values (label (some n)) m v =
    assign-AreValid n (valid_port (raw_of n values)) m (valid_port-range (raw_of n values)) v
add_def-AreValid values (entry none d) m v = v
add_def-AreValid values (entry (some n) d) m v =
    assign-AreValid n (or_default (valid_port (raw_of n values)) (valid_port d)) m
      (or_default-range (raw_of n values) d) v
add_def-AreValid values other m v = v

add_defs-AreValid :
    (values : List (ℕ × Raw)) (ds : List NamedDef) (m : List (ℕ × ℕ))
    → AreValid (ports_of m)
    → AreValid (ports_of (add_defs values ds m))
add_defs-AreValid values [] m v = v
add_defs-AreValid values (d ∷ ds) m v =
    add_defs-AreValid values ds (add_def values d m) (add_def-AreValid values d m v)

add_values-AreValid :
    (values : List (ℕ × Raw)) (m : List (ℕ × ℕ))
    → AreValid (ports_of m)
    → AreValid (ports_of (add_values values m))
add_values-AreValid [] m v = v
add_values-AreValid ((k, r) ∷ rest) m v = elim (Bool-cases (contains k (keys m))) [
  | inl e ↦ rw e (add_values-AreValid rest m v)
  | inr e ↦ rw e (
      add_values-AreValid rest (assign k (valid_port r) m)
        (assign-AreValid k (valid_port r) m (valid_port-range r) v))
]

named_ports-AreValid :
    (defs : List NamedDef) (values : List (ℕ × Raw)) → AreValid (ports_of (named_ports defs values))
unfolding named_ports
named_ports-AreValid defs values =
    add_values-AreValid values (add_defs values defs []) (add_defs-AreValid values defs [] tt)

-- The ports of a node that stand in its container mapping are, for either network mode, those that
-- stand in its named values, wherever there are named values or no old mapping to fall back on.
pub resolve-agree :
    (defs : List NamedDef) (values : List (ℕ × Raw)) (legacy : List (ℕ × PortEntry)) (mode : Bool)
    → (is_empty (named_ports defs values) && not (is_empty legacy)) ≡ false
    → extract_host_ports (resolve_port_values defs values legacy).0 mode
      ≡ extract_ports_from_values (map number (ports_of (resolve_port_values defs values legacy).1))
unfolding resolve_port_values
resolve-agree defs values legacy mode h =
    let ps = ports_of (named_ports defs values) in
    let v = named_ports-AreValid defs values in
    rw h (
      ports_map-extract (sorted (to_set ps)) mode
        (sorted-IsAscending (to_set ps) (to_set-distinct ps)
          (Each-imp (to_set ps) (λ p q. q.0) (AreValid-to_set ps v)))
        (AreValid-sorted (to_set ps) (AreValid-to_set ps v))
      ∙ set-values ps v)
