-- ===== src/Ports/Ascending.antt =====
-- The port lists of backend/services/port_plan.py are in order, without repetition and in range.
use manage_deploy.Common.{
  ◌∙◌, ==_iff, Bool, Bool-cases, Each, Each-append, List, Option-cases, [], ap, arith, contains,
  contains-append, false, inl, inr, leb, none, not, refl, some, true, ℕ, ◌&&◌, ◌++◌, ◌<◌, ◌==◌,
  ◌||◌, ◌∷◌, ◌≡◌, ◌≤◌,
}
use manage_deploy.Ports.Extract.{
  PortEntry, Raw, blank, collect_ports, effective_values, extract_host_ports,
  extract_ports_from_values, insert_port, max_port, negative, number, sorted, valid_port, word,
}

-- Every element is above a bound, and the list rises strictly.
abbrev pub IsAscending : ℕ → List ℕ → Type 0
IsAscending low [] = Unit {0}
IsAscending low (p ∷ ps) = (low < p) × IsAscending p ps

abbrev pub has_port : ℕ → List Raw → Bool
has_port p [] = false
has_port p (r ∷ rs) = elim (valid_port r) [ none ↦ false | some q ↦ p == q ] || has_port p rs

pub IsAscending-weaken : (a b : ℕ) (ps : List ℕ) → a ≤ b → IsAscending b ps → IsAscending a ps
IsAscending-weaken a b [] h k = tt
IsAscending-weaken a b (p ∷ ps) h k = (omega arith, k.1)

pub insert_port-IsAscending :
    (low p : ℕ) (ps : List ℕ)
    → low < p
    → contains p ps ≡ false
    → IsAscending low ps
    → IsAscending low (insert_port p ps)
unfolding insert_port
insert_port-IsAscending low p [] l h k = (l, tt)
insert_port-IsAscending low p (q ∷ qs) l h k = elim (Bool-cases (leb p q)) [
  | inl e ↦ rw e (l, (ground arith, k.1))
  | inr e ↦ rw e (k.0, insert_port-IsAscending q p qs (ground arith) (ground arith) k.1)
]

contains-insert_port :
    (a p : ℕ) (ps : List ℕ) → contains a (insert_port p ps) ≡ (a == p || contains a ps)
unfolding insert_port
contains-insert_port a p [] = refl
contains-insert_port a p (q ∷ qs) = ground (arith, contains-insert_port a p qs)

pub contains-sorted : (a : ℕ) (ps : List ℕ) → contains a (sorted ps) ≡ contains a ps
unfolding sorted
contains-sorted a [] = refl
contains-sorted a (p ∷ ps) =
    contains-insert_port a p (sorted ps) ∙ ap (λ b. a == p || b) (contains-sorted a ps)

-- The list has no element twice.
abbrev pub is_distinct : List ℕ → Bool
is_distinct [] = true
is_distinct (p ∷ ps) = not (contains p ps) && is_distinct ps

is_distinct-append :
    (ps : List ℕ) (p : ℕ)
    → is_distinct ps ≡ true
    → contains p ps ≡ false
    → is_distinct (ps ++ p ∷ []) ≡ true
is_distinct-append [] p d h = refl
is_distinct-append (q ∷ qs) p d h =
    ground (arith, is_distinct-append qs p, contains-append q qs (p ∷ []))

pub sorted-IsAscending :
    (ps : List ℕ) → is_distinct ps ≡ true → Each (λ p. 0 < p) ps → IsAscending 0 (sorted ps)
unfolding sorted
sorted-IsAscending [] d h = tt
sorted-IsAscending (p ∷ ps) d h =
    insert_port-IsAscending 0 p (sorted ps) h.0 (contains-sorted p ps ∙ (ground arith))
      (sorted-IsAscending ps (ground arith) h.1)

-- What the loop has seen: no port twice, each in range.
record IsSeen (seen : List ℕ) : Type 0 where
  distinct : is_distinct seen ≡ true
  positive : Each (λ p. 0 < p) seen
  small : Each (λ p. p ≤ max_port) seen

add_port-IsSeen :
    (p : ℕ) (seen : List ℕ)
    → contains p seen ≡ false
    → 0 < p
    → p ≤ max_port
    → IsSeen seen
    → IsSeen (seen ++ p ∷ [])
add_port-IsSeen p seen new low high h = record {
  distinct = is_distinct-append seen p h.distinct new;
  positive = Each-append _ seen (p ∷ []) h.positive (low, tt);
  small = Each-append _ seen (p ∷ []) h.small (high, tt);
}

pub valid_port-range : (r : Raw) (p : ℕ) → valid_port r ≡ some p → (0 < p) × (p ≤ max_port)
valid_port-range (number n) p e = ground arith
valid_port-range blank p e = absurd (ground arith)
valid_port-range negative p e = absurd (ground arith)
valid_port-range word p e = absurd (ground arith)

collect_ports-IsSeen :
    (rs : List Raw) (seen : List ℕ) → IsSeen seen → IsSeen (collect_ports rs seen)
unfolding collect_ports
collect_ports-IsSeen [] seen h = h
collect_ports-IsSeen (r ∷ rs) seen h = elim (Option-cases (valid_port r)) [
  | inl e ↦ rw e (collect_ports-IsSeen rs seen h)
  | inr (p, e) ↦ elim (Bool-cases (contains p seen)) [
    | inl c ↦ rw (e, c) (collect_ports-IsSeen rs seen h)
    | inr c ↦
        let (low, high) = valid_port-range r p e in
        rw (e, c) (collect_ports-IsSeen rs (seen ++ p ∷ []) (add_port-IsSeen p seen c low high h))
  ]
]

contains-collect_ports :
    (a : ℕ) (rs : List Raw) (seen : List ℕ)
    → contains a (collect_ports rs seen) ≡ (contains a seen || has_port a rs)
unfolding collect_ports
contains-collect_ports a [] seen = ground arith
contains-collect_ports a (r ∷ rs) seen = elim (Option-cases (valid_port r)) [
  | inl e ↦ rw e (contains-collect_ports a rs seen)
  | inr (p, e) ↦ elim (Bool-cases (contains p seen)) [
    | inl c ↦ rw (e, c) (contains-collect_ports a rs seen ∙ already p c)
    | inr c ↦
        rw (e, c)
          (contains-collect_ports a rs (seen ++ p ∷ [])
            ∙ ground (arith, contains-append a seen (p ∷ [])))
  ]
]
  where
    already :
        (p : ℕ)
        → contains p seen ≡ true
        → (contains a seen || has_port a rs) ≡ (contains a seen || (a == p || has_port a rs))
    already p c = elim (Bool-cases (a == p)) [
      | inl e ↦ let here : contains a seen ≡ true = rw ((==_iff a p).0 e) c in ground arith
      | inr e ↦ ground arith
    ]

pub values-IsAscending :
    (rs : List Raw)
    → IsAscending 0 (sorted (collect_ports rs []))
      × ((a : ℕ) → contains a (sorted (collect_ports rs [])) ≡ has_port a rs)
values-IsAscending rs =
    let seen : IsSeen (collect_ports rs []) =
      collect_ports-IsSeen rs [] (record { distinct = refl; positive = tt; small = tt }) in
    (
      sorted-IsAscending (collect_ports rs []) seen.distinct seen.positive,
      λ a. contains-sorted a (collect_ports rs []) ∙ contains-collect_ports a rs [],
    )

-- The host ports of a mapping come in strictly rising order, and they are exactly the values of the
-- mapping (in host mode the container port where the value is blank) that read as a number from 1
-- to 65535. The same holds of the ports of named values.
pub extract_host_ports-IsAscending :
    (ports : List PortEntry) (host_mode : Bool) (values : List Raw)
    → IsAscending 0 (extract_host_ports ports host_mode)
      × ((a : ℕ)
          → contains a (extract_host_ports ports host_mode)
            ≡ has_port a (effective_values host_mode ports))
      × IsAscending 0 (extract_ports_from_values values)
      × ((a : ℕ) → contains a (extract_ports_from_values values) ≡ has_port a values)
unfolding extract_host_ports extract_ports_from_values
extract_host_ports-IsAscending ports host_mode values =
    let (up, same) = values-IsAscending (effective_values host_mode ports) in
    let (up', same') = values-IsAscending values in (up, same, up', same')
