-- ===== src/Ports/Resolve.antt =====
-- `resolve_port_values` of backend/services/instance_builder.py, which gives a node of an instance
-- its ports, and `ports_map_from_host_ports` of node_agent/port_utils.py. A name is a number, and
-- `none` the empty text.
use manage_deploy.Common.{
  List, Option, [], add, contains, if◌then◌else◌, is_empty, keys, none, not, put, some, ℕ, ◌&&◌,
  ◌==◌, ◌∷◌,
}
use manage_deploy.Ports.Extract.{PortEntry, Raw, blank, number, sorted, valid_port}

-- An item of `port_defs`: a text, a dict with its name and default, or anything else.
pub data NamedDef : Type 0 where
  label : Option ℕ → NamedDef
  entry : Option ℕ → Raw → NamedDef
  other : NamedDef

abbrev pub raw_of : ℕ → List (ℕ × Raw) → Raw
raw_of n [] = blank
raw_of n ((k, r) ∷ m) = if n == k then r else raw_of n m

-- `normalized[name] = port` where there is one; `_port_number` is `valid_port`.
abbrev pub assign : ℕ → Option ℕ → List (ℕ × ℕ) → List (ℕ × ℕ)
assign n none m = m
assign n (some p) m = put n p m

abbrev pub or_default : Option ℕ → Option ℕ → Option ℕ
or_default none d = d
or_default (some p) d = some p

abbrev pub add_def : List (ℕ × Raw) → NamedDef → List (ℕ × ℕ) → List (ℕ × ℕ)
add_def values (label none) m = m
add_def values (label (some n)) m = assign n (valid_port (raw_of n values)) m
add_def values (entry none d) m = m
add_def values (entry (some n) d) m =
    assign n (or_default (valid_port (raw_of n values)) (valid_port d)) m
add_def values other m = m

-- The loop over `port_defs`.
abbrev pub add_defs : List (ℕ × Raw) → List NamedDef → List (ℕ × ℕ) → List (ℕ × ℕ)
add_defs values [] m = m
add_defs values (d ∷ ds) m = add_defs values ds (add_def values d m)

-- The loop over the values that no definition names.
abbrev pub add_values : List (ℕ × Raw) → List (ℕ × ℕ) → List (ℕ × ℕ)
add_values [] m = m
add_values ((k, r) ∷ rest) m =
    add_values rest (if contains k (keys m) then m else assign k (valid_port r) m)

unfoldable pub named_ports : List NamedDef → List (ℕ × Raw) → List (ℕ × ℕ)
named_ports defs values = add_values values (add_defs values defs [])

abbrev pub ports_of : List (ℕ × ℕ) → List ℕ
ports_of [] = []
ports_of ((k, p) ∷ m) = p ∷ ports_of m

-- `set(ports)`
abbrev pub to_set : List ℕ → List ℕ
to_set [] = []
to_set (p ∷ ps) = add p (to_set ps)

abbrev pub port_entry : ℕ → PortEntry
port_entry p = record { container_port = number p; host_port = number p }

-- The entries of other container ports.
abbrev pub drop_port : ℕ → List PortEntry → List PortEntry
drop_port p [] = []
drop_port p (e ∷ es) =
    let rest = drop_port p es in
    elim e.container_port [ number q ↦ if p == q then rest else e ∷ rest | _ ↦ e ∷ rest ]

-- `{str(port): str(port) for port in ports}`: a port that comes again changes nothing.
unfoldable pub ports_map_from_host_ports : List ℕ → List PortEntry
ports_map_from_host_ports [] = []
ports_map_from_host_ports (p ∷ ps) = port_entry p ∷ drop_port p (ports_map_from_host_ports ps)

-- The values of the old mapping under its container ports, whose values are texts.

abbrev pub legacy_port : PortEntry → Option ℕ
legacy_port e = or_default (valid_port e.host_port) (valid_port e.container_port)

abbrev pub legacy_values : List (ℕ × PortEntry) → List (ℕ × ℕ) → List (ℕ × ℕ)
legacy_values [] m = m
legacy_values ((k, e) ∷ es) m = legacy_values es (assign k (legacy_port e) m)

abbrev pub entries_of : List (ℕ × PortEntry) → List PortEntry
entries_of [] = []
entries_of ((k, e) ∷ es) = e ∷ entries_of es

-- The mapping of the container and the named ports. An old mapping is a dict from names, with the
-- container port that a name reads as.
unfoldable pub resolve_port_values :
    List NamedDef → List (ℕ × Raw) → List (ℕ × PortEntry) → List PortEntry × List (ℕ × ℕ)
unfolding named_ports ports_map_from_host_ports sorted
resolve_port_values defs values legacy =
    let normalized = named_ports defs values in
    if is_empty normalized && not (is_empty legacy)
    then (entries_of legacy, legacy_values legacy [])
    else (ports_map_from_host_ports (sorted (to_set (ports_of normalized))), normalized)
