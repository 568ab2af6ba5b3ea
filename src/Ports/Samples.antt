-- ===== src/Ports/Samples.antt =====
-- Small inputs for the port modules.
use manage_deploy.Common.{
  List, [], arith, contains, false, map, none, refl, some, true, ℕ, ◌==◌, ◌∷◌, ◌≡◌,
}
use manage_deploy.Enums.{TaskStatus}
use manage_deploy.Ports.Allocate.{
  DefItem, auto_allocate-keeps, auto_allocate_ports, int_value, lookup, port_def,
}
use manage_deploy.Ports.Ascending.{IsAscending, extract_host_ports-IsAscending, has_port}
use manage_deploy.Ports.Conflicts.{
  Deployed, NodePlan, find_running_port_conflict_records, no_records-apart,
}
use manage_deploy.Ports.Extract.{
  PortEntry, Raw, blank, collect_ports, effective_values, extract_host_ports,
  extract_ports_from_values, insert_port, number, sorted, word,
}
use manage_deploy.Ports.Resolve.{
  NamedDef, entry, label, named_ports, ports_map_from_host_ports, ports_of, resolve_port_values,
}
use manage_deploy.Ports.RoundTrip.{ports_map-round_trip, resolve-agree}
use manage_deploy.Ports.Search.{
  allocate_from_range, allocate_from_range-eq, find_available_ports, find_available_ports-eq,
}

abbrev web : List PortEntry
web =
    record { container_port = number 80; host_port = number 8080 }
    ∷ record { container_port = number 443; host_port = blank }
    ∷ record { container_port = number 9; host_port = number 70000 }
    ∷ record { container_port = number 8; host_port = number 8080 }
    ∷ []

web_ports : extract_host_ports web true ≡ 443 ∷ 8080 ∷ []
unfolding extract_host_ports
web_ports = refl

extract_host_ports-IsAscending_example :
    IsAscending 0 (extract_host_ports web true)
    × ((a : ℕ) → contains a (extract_host_ports web true) ≡ has_port a (effective_values true web))
    × IsAscending 0 (extract_ports_from_values (number 5 ∷ word ∷ []))
    × ((a : ℕ)
        → contains a (extract_ports_from_values (number 5 ∷ word ∷ []))
          ≡ has_port a (number 5 ∷ word ∷ []))
extract_host_ports-IsAscending_example =
    extract_host_ports-IsAscending web true (number 5 ∷ word ∷ [])

find_available_ports-eq_example :
    find_available_ports 2 18000 18005 (18000 ∷ []) (18002 ∷ []) (λ p. p == 18003)
    ≡ 18001 ∷ 18004 ∷ []
find_available_ports-eq_example =
    find_available_ports-eq 2 18000 18005 (18000 ∷ []) (18002 ∷ []) (λ p. p == 18003)

allocate_from_range-eq_example : allocate_from_range 2 18000 18005 (18001 ∷ []) ≡ 18000 ∷ 18002 ∷ []
allocate_from_range-eq_example = allocate_from_range-eq 2 18000 18005 (18001 ∷ [])

-- Asked for no port, the search still returns one.
one_for_none : find_available_ports 0 18000 18005 [] [] (λ p. false) ≡ 18000 ∷ []
unfolding find_available_ports
one_for_none = refl

abbrev api_def : DefItem
api_def = port_def (record { name = some 1; auto = true; range = []; default = none })

abbrev ui_def : DefItem
ui_def = port_def (record { name = some 2; auto = true; range = []; default = none })

auto_allocate-keeps_example :
    lookup 1 (auto_allocate_ports (api_def ∷ ui_def ∷ []) ((1, int_value 9000) ∷ []) [] none)
    ≡ some (int_value 9000)
auto_allocate-keeps_example =
    auto_allocate-keeps (api_def ∷ ui_def ∷ []) ((1, int_value 9000) ∷ []) [] none 1 refl

abbrev web_plan : NodePlan
web_plan = record { node_id = some 3; ports = web; host_mode = true }

abbrev other_node : Deployed
other_node = record {
  worker = 3;
  instance_id = 6;
  status = TaskStatus.running;
  ports = record { container_port = number 22; host_port = number 22 } ∷ [];
  host_mode = true;
}

no_records-apart_example : contains 8080 (extract_host_ports other_node.ports true) ≡ false
unfolding find_running_port_conflict_records extract_host_ports
no_records-apart_example =
    no_records-apart (web_plan ∷ []) (other_node ∷ []) none 0 0 3 8080 web_plan other_node refl refl
      refl refl refl refl

-- A port that stands twice, one out of range and one out of order.
abbrev untidy : List PortEntry
untidy =
    record { container_port = number 90; host_port = number 9000 }
    ∷ record { container_port = number 80; host_port = blank }
    ∷ record { container_port = number 91; host_port = number 9000 }
    ∷ record { container_port = word; host_port = number 70000 }
    ∷ []

untidy_ports : extract_host_ports untidy true ≡ 80 ∷ 9000 ∷ []
unfolding extract_host_ports collect_ports sorted insert_port
untidy_ports = refl

ports_map-round_trip_example :
    extract_host_ports (ports_map_from_host_ports (extract_host_ports untidy true)) false
    ≡ extract_host_ports untidy true
ports_map-round_trip_example = ports_map-round_trip untidy true false

abbrev named_defs : List NamedDef
named_defs = label (some 1) ∷ entry (some 2) (number 9090) ∷ []

abbrev named_values : List (ℕ × Raw)
named_values = (1, number 8080) ∷ (3, number 22) ∷ (4, word) ∷ []

resolve-agree_example :
    extract_host_ports (resolve_port_values named_defs named_values []).0 true
    ≡ extract_ports_from_values
        (map number (ports_of (resolve_port_values named_defs named_values []).1))
resolve-agree_example = resolve-agree named_defs named_values [] true (ground arith)

resolved : (resolve_port_values named_defs named_values []).1 ≡ (1, 8080) ∷ (2, 9090) ∷ (3, 22) ∷ []
unfolding resolve_port_values named_ports
resolved = refl
