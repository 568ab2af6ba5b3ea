-- ===== src/Routing/Placements.antt =====
-- The placements of a routing result (backend/api/orders.py): which are deployed, which the
-- platform adds, and the GPU slots that they take. A role is a lower-cased text and stands as a
-- number, as host names and GPU indices do; the code's lower-casing of roles is not repeated.
use manage_deploy.Common.{
  Bool, List, Option, [], contains, false, if◌then◌else◌, is_none, none, not, some, true, ℕ, ◌&&◌,
  ◌++◌, ◌==◌, ◌||◌, ◌∷◌,
}

abbrev pub compute_role : ℕ
compute_role = 1

abbrev pub worker_role : ℕ
worker_role = 2

abbrev pub infer_role : ℕ
infer_role = 3

abbrev pub train_role : ℕ
train_role = 4

abbrev pub source_role : ℕ
source_role = 5

abbrev pub sink_role : ℕ
sink_role = 6

abbrev pub input_role : ℕ
input_role = 7

abbrev pub output_role : ℕ
output_role = 8

abbrev pub video_role : ℕ
video_role = 9

abbrev pub is_compute_role : ℕ → Bool
is_compute_role r = r == compute_role || r == worker_role || r == infer_role || r == train_role

abbrev pub is_endpoint_role : ℕ → Bool
is_endpoint_role r =
    r == source_role || r == sink_role || r == input_role || r == output_role || r == video_role

-- An empty `topology_node_id` is `none`.
pub record RoutingPlacement : Type 0 where
  pub task_node_id : ℕ
  pub topology_node_id : Option ℕ
  pub gpu_device : Option ℕ

-- A node of `routing_input_dag`.
pub record DagNode : Type 0 where
  pub task_node_id : Option ℕ
  pub task_role : Option ℕ
  pub deployable : Option Bool
  pub fixed_topology_node_id : Option ℕ

-- `runtime_config.platform_deployment`
pub record Deployment : Type 0 where
  pub deployable_roles : Option (List ℕ)
  pub non_deployable_roles : Option (List ℕ)
  pub route_only : Bool

-- `a == b` where `a` may be missing.
abbrev pub is_same : ℕ → Option ℕ → Bool
is_same b none = false
is_same b (some a) = a == b

-- `_routing_dag_nodes_by_role(order).get(role)`: a later node takes the place of an earlier one.
unfoldable pub dag_node_of : ℕ → List DagNode → Option DagNode
dag_node_of role [] = none
dag_node_of role (n ∷ ns) = elim (dag_node_of role ns) [
  | some m ↦ some m
  | none ↦ if is_same role n.task_node_id || is_same role n.task_role then some n else none
]

unfoldable pub placement_is_deployable : Deployment → List DagNode → ℕ → Bool
unfolding dag_node_of
placement_is_deployable d dag role = elim d.deployable_roles [
  | some roles ↦ contains role roles
  | none ↦ elim d.non_deployable_roles [
    | some roles ↦ not (contains role roles)
    | none ↦ elim (dag_node_of role dag) [
      | none ↦ true
      | some n ↦ elim n.deployable [ none ↦ true | some b ↦ b ]
    ]
  ]
]

abbrev pub has_role : ℕ → List RoutingPlacement → Bool
has_role role [] = false
has_role role (p ∷ ps) = p.task_node_id == role || has_role role ps

abbrev pub or_else : Option ℕ → Option ℕ → Option ℕ
or_else none b = b
or_else (some a) b = some a

-- What the platform adds for one endpoint role, whose name the order has as `fallback`.
unfoldable pub fixed_endpoint :
    Deployment → List DagNode → ℕ → Option ℕ → List RoutingPlacement → List RoutingPlacement
unfolding dag_node_of placement_is_deployable
fixed_endpoint d dag role fallback ps =
    if has_role role ps then [] else elim (dag_node_of role dag) [
      | none ↦ []
      | some n ↦ elim (or_else n.fixed_topology_node_id fallback) [
        | none ↦ []
        | some host ↦
            if placement_is_deployable d dag role
            then record { task_node_id = role; topology_node_id = some host; gpu_device = none }
              ∷ []
            else []
      ]
    ]

-- `_complete_platform_fixed_endpoint_placements`
unfoldable pub complete_placements :
    Deployment → List DagNode → Option ℕ → Option ℕ → List RoutingPlacement → List RoutingPlacement
unfolding fixed_endpoint
complete_placements d dag source_name destination_name ps =
    ps
    ++ (fixed_endpoint d dag source_role source_name ps
        ++ fixed_endpoint d dag sink_role destination_name ps)

-- Every task type has the default "0".
abbrev pub default_compute_gpu : ℕ
default_compute_gpu = 0

abbrev pub with_default_gpu : RoutingPlacement → RoutingPlacement
with_default_gpu p =
    if is_compute_role p.task_node_id && is_none p.gpu_device
    then record p { gpu_device = some default_compute_gpu }
    else p

-- `_normalize_effective_placement_resources`
unfoldable pub normalize_placements : List RoutingPlacement → List RoutingPlacement
normalize_placements [] = []
normalize_placements (p ∷ ps) = with_default_gpu p ∷ normalize_placements ps

-- `_compute_gpu_slots_from_placements`: pairs of a host and a GPU.
unfoldable pub compute_gpu_slots : List RoutingPlacement → List (ℕ × ℕ)
compute_gpu_slots [] = []
compute_gpu_slots (p ∷ ps) =
    let rest = compute_gpu_slots ps in
    if is_compute_role p.task_node_id
    then elim p.topology_node_id [
      | none ↦ rest
      | some host ↦ elim p.gpu_device [ none ↦ rest | some gpu ↦ (host, gpu) ∷ rest ]
    ]
    else rest

abbrev pub has_slot : ℕ × ℕ → List (ℕ × ℕ) → Bool
has_slot s [] = false
has_slot s (t ∷ ts) = s.0 == t.0 && s.1 == t.1 || has_slot s ts

-- `a & b` is not empty.
abbrev pub share_slot : List (ℕ × ℕ) → List (ℕ × ℕ) → Bool
share_slot [] ts = false
share_slot (s ∷ ss) ts = has_slot s ts || share_slot ss ts
