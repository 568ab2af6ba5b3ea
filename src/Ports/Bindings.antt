-- ===== src/Ports/Bindings.antt =====
-- From ports to a mapping and back: ports_map_from_host_ports (node_agent/port_utils.py),
-- resolve_port_values (backend/services/instance_builder.py) and the two readers of
-- backend/services/port_plan.py.
use mathlib.Core.List.{append_assoc, append-nil}
use manage_deploy.Common.{
  ◌∙◌, Bool, Bool-cases, Each, List, [], ap, arith, contains, contains-append, false, inl, inr, leb,
  leb→le, map, refl, some, sym, ℕ, ◌++◌, ◌<◌, ◌∷◌, ◌≡◌, ◌≤◌,
}
use manage_deploy.Ports.Ascending.{IsAscending}
use manage_deploy.Ports.Extract.{
  Raw, collect_ports, effective_values, extract_host_ports, insert_port, max_port, number, sorted,
  valid_port,
}
use manage_deploy.Ports.Resolve.{drop_port, port_entry, ports_map_from_host_ports}

abbrev pub AreValid : List ℕ → Type 0
AreValid ps = Each (λ p. (0 < p) × (p ≤ max_port)) ps

-- Two rising lists with the same elements are one.
IsAscending-above : (low a : ℕ) (ps : List ℕ) → a ≤ low → IsAscending low ps → contains a ps ≡ false
IsAscending-above low a [] h k = refl
IsAscending-above low a (p ∷ ps) h k =
    ground (arith, IsAscending-above p a ps (omega (arith, h, k.0)) k.1)

pub ascending_ext :
    (low : ℕ) (ps qs : List ℕ)
    → IsAscending low ps
    → IsAscending low qs
    → ((a : ℕ) → contains a ps ≡ contains a qs)
    → ps ≡ qs
ascending_ext low [] [] h k e = refl
ascending_ext low [] (q ∷ qs) h k e = absurd (ground (arith, e q))
ascending_ext low (p ∷ ps) [] h k e = absurd (ground (arith, e p))
ascending_ext low (p ∷ ps) (q ∷ qs) h k e =
    let same : p ≡ q =
      ground (arith, e p, e q, IsAscending-above q p qs, IsAscending-above p q ps) in
    let tails = ascending_ext p ps qs h.1 (rw same k.1) (λ a. elim (Bool-cases (leb a p)) [
      | inl l ↦
          IsAscending-above p a ps (leb→le a p l) h.1
          ∙ sym (IsAscending-above q a qs (rw (← same) (leb→le a p l)) k.1)
      | inr l ↦ ground (arith, e a)
    ]) in
    rw (same, tails) refl

-- The mapping of rising ports has an entry for each.
drop_port-other :
    (p : ℕ) (qs : List ℕ)
    → contains p qs ≡ false
    → drop_port p (map port_entry qs) ≡ map port_entry qs
drop_port-other p [] h = refl
drop_port-other p (q ∷ qs) h = ground (arith, drop_port-other p qs)

ports_map-IsAscending :
    (low : ℕ) (ps : List ℕ) → IsAscending low ps → ports_map_from_host_ports ps ≡ map port_entry ps
unfolding ports_map_from_host_ports
ports_map-IsAscending low [] h = refl
ports_map-IsAscending low (p ∷ ps) h = rw (ports_map-IsAscending p ps h.1) (
    ap (λ es. port_entry p ∷ es)
      (drop_port-other p ps (IsAscending-above p p ps (omega arith) h.1)))

effective_values-map :
    (m : Bool) (ps : List ℕ) → effective_values m (map port_entry ps) ≡ map number ps
effective_values-map m [] = refl
effective_values-map m (p ∷ ps) = rw (effective_values-map m ps) refl

collect_ports-new :
    (r : Raw) (p : ℕ) (rs : List Raw) (seen : List ℕ)
    → valid_port r ≡ some p
    → contains p seen ≡ false
    → collect_ports (r ∷ rs) seen ≡ collect_ports rs (seen ++ p ∷ [])
unfolding collect_ports
collect_ports-new r p rs seen e c = rw (e, c) refl

collect_ports-fresh :
    (ps seen : List ℕ) (low : ℕ)
    → IsAscending low ps
    → AreValid ps
    → ((a : ℕ) → low < a → contains a seen ≡ false)
    → collect_ports (map number ps) seen ≡ seen ++ ps
unfolding collect_ports
collect_ports-fresh [] seen low h v s = sym (append-nil seen)
collect_ports-fresh (p ∷ ps) seen low h v s =
    let new : contains p seen ≡ false = s p h.0 in
    collect_ports-new (number p) p (map number ps) seen (ground (arith, v.0)) new
    ∙ collect_ports-fresh ps (seen ++ p ∷ []) p h.1 v.1
        (λ a l. contains-append a seen (p ∷ []) ∙ ground (arith, s a (omega (arith, h.0, l))))
    ∙ append_assoc seen (p ∷ []) ps

sorted-ascending : (low : ℕ) (ps : List ℕ) → IsAscending low ps → sorted ps ≡ ps
unfolding sorted insert_port
sorted-ascending low [] h = refl
sorted-ascending low (p ∷ ps) h = rw (sorted-ascending p ps h.1) (first p ps h.1)
  where
    first : (p : ℕ) (ps : List ℕ) → IsAscending p ps → insert_port p ps ≡ p ∷ ps
    first p [] h = refl
    first p (q ∷ qs) h = ground arith

-- Rising valid ports come back from their mapping.
pub ports_map-extract :
    (ps : List ℕ) (m : Bool)
    → IsAscending 0 ps
    → AreValid ps
    → extract_host_ports (ports_map_from_host_ports ps) m ≡ ps
unfolding extract_host_ports
ports_map-extract ps m h v = rw (ports_map-IsAscending 0 ps h) (
    rw (effective_values-map m ps)
      (rw (collect_ports-fresh ps [] 0 h v (λ a l. refl)) (sorted-ascending 0 ps h)))
