-- ===== src/Ports/Extract.antt =====
-- `extract_host_ports` and `extract_ports_from_values` of backend/services/port_plan.py; the first
-- stands once more in node_agent/port_utils.py.
use manage_deploy.Common.{
  Bool, List, Option, [], contains, false, if◌then◌else◌, leb, ltb, none, some, true, ℕ, ◌&&◌, ◌++◌,
  ◌||◌, ◌∷◌,
}

-- A value as `str(value).strip()` and `int` read it: nothing, a number from 0 on, a negative number,
-- or another text. None counts as blank.
pub data Raw : Type 0 where
  blank : Raw
  number : ℕ → Raw
  negative : Raw
  word : Raw

abbrev pub is_blank : Raw → Bool
is_blank blank = true
is_blank _ = false

pub record PortEntry : Type 0 where
  pub container_port : Raw
  pub host_port : Raw

abbrev pub max_port : ℕ
max_port = 65535

-- `sorted(ports)`
unfoldable pub insert_port : ℕ → List ℕ → List ℕ
insert_port p [] = p ∷ []
insert_port p (q ∷ qs) = if leb p q then p ∷ q ∷ qs else q ∷ insert_port p qs

unfoldable pub sorted : List ℕ → List ℕ
unfolding insert_port
sorted [] = []
sorted (p ∷ ps) = insert_port p (sorted ps)

-- The text that the loop reads as a number, with the container port in its place in host mode.
abbrev pub effective : Bool → PortEntry → Raw
effective host_mode e = if is_blank e.host_port && host_mode then e.container_port else e.host_port

-- The number that passes the tests of the loop but the one for repetition.
abbrev pub valid_port : Raw → Option ℕ
valid_port (number n) = if leb n 0 || ltb max_port n then none else some n
valid_port _ = none

unfoldable pub collect_ports : List Raw → List ℕ → List ℕ
collect_ports [] seen = seen
collect_ports (r ∷ rs) seen = collect_ports rs (elim (valid_port r) [
  | none ↦ seen
  | some p ↦ if contains p seen then seen else seen ++ p ∷ []
])

abbrev pub effective_values : Bool → List PortEntry → List Raw
effective_values host_mode [] = []
effective_values host_mode (e ∷ es) = effective host_mode e ∷ effective_values host_mode es

unfoldable pub extract_host_ports : List PortEntry → Bool → List ℕ
unfolding collect_ports sorted
extract_host_ports ports host_mode = sorted (collect_ports (effective_values host_mode ports) [])

unfoldable pub extract_ports_from_values : List Raw → List ℕ
unfolding collect_ports sorted
extract_ports_from_values port_values = sorted (collect_ports port_values [])
