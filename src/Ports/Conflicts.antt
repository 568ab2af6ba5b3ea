-- ===== src/Ports/Conflicts.antt =====
-- `find_running_port_conflict_records` of backend/services/port_plan.py: the ports of a plan against
-- those of the nodes that run on the same worker.
use manage_deploy.Common.{
  ==_iff, Bool, Bool-cases, Each, Each-all, Each-get, Each-imp, List, Option, Option-cases, [],
  arith, contains, false, get_elem?, if◌then◌else◌, inl, inr, is_empty, none, not, refl, select,
  some, true, ||-true, ℕ, ◌&&◌, ◌++◌, ◌==◌, ◌||◌, ◌∷◌, ◌≡◌, ◌⊎◌,
}
use manage_deploy.Enums.{TaskStatus, is_running, is_starting}
use manage_deploy.Ports.Extract.{PortEntry, extract_host_ports}

pub record NodePlan : Type 0 where
  pub node_id : Option ℕ
  pub ports : List PortEntry
  pub host_mode : Bool

-- A row of the join of nodes and instances.
pub record Deployed : Type 0 where
  pub worker : ℕ
  pub instance_id : ℕ
  pub status : TaskStatus
  pub ports : List PortEntry
  pub host_mode : Bool

pub record ConflictRecord : Type 0 where
  pub worker_id : ℕ
  pub overlap : List ℕ
  pub existing : Deployed

abbrev pub is_active : TaskStatus → Bool
is_active s = is_running s || is_starting s

-- The `where` of the statement.
abbrev pub selected : ℕ → Option ℕ → Deployed → Bool
selected w exclude d =
    d.worker == w
    && (is_active d.status && elim exclude [ none ↦ true | some i ↦ not (d.instance_id == i) ])

-- `requested & existing_ports`
abbrev pub common_ports : List ℕ → List ℕ → List ℕ
common_ports xs ys = select (λ p. contains p ys) xs

abbrev pub overlap_of : NodePlan → Deployed → List ℕ
overlap_of p d =
    common_ports (extract_host_ports p.ports p.host_mode) (extract_host_ports d.ports d.host_mode)

unfoldable pub records_on : ℕ → Option ℕ → NodePlan → List Deployed → List ConflictRecord
records_on w exclude p [] = []
records_on w exclude p (d ∷ ds) =
    let rest = records_on w exclude p ds in
    if selected w exclude d && not (is_empty (overlap_of p d))
    then record { worker_id = w; overlap = overlap_of p d; existing = d } ∷ rest
    else rest

unfoldable pub plan_records : Option ℕ → List Deployed → NodePlan → List ConflictRecord
unfolding records_on
plan_records exclude deployed p = elim p.node_id [
  | none ↦ []
  | some w ↦
      if is_empty p.ports || is_empty (extract_host_ports p.ports p.host_mode)
      then []
      else records_on w exclude p deployed
]

unfoldable pub find_running_port_conflict_records :
    List NodePlan → List Deployed → Option ℕ → List ConflictRecord
unfolding plan_records
find_running_port_conflict_records [] deployed exclude = []
find_running_port_conflict_records (p ∷ ps) deployed exclude =
    plan_records exclude deployed p ++ find_running_port_conflict_records ps deployed exclude

-- A plan and a running node have no port of one worker in common.
abbrev pub IsApart : Option ℕ → NodePlan → Deployed → Type 0
IsApart exclude p d =
    (w a : ℕ)
    → p.node_id ≡ some w
    → selected w exclude d ≡ true
    → contains a (extract_host_ports p.ports p.host_mode) ≡ true
    → contains a (extract_host_ports d.ports d.host_mode) ≡ false

contains-common_ports :
    (xs ys : List ℕ) (a : ℕ)
    → is_empty (common_ports xs ys) ≡ true
    → contains a xs ≡ true
    → contains a ys ≡ false
contains-common_ports [] ys a e h = absurd (ground arith)
contains-common_ports (x ∷ xs) ys a e h = elim (Bool-cases (contains x ys)) [
  | inl c ↦ absurd (ground arith)
  | inr c ↦ elim (Bool-cases (a == x)) [
    | inl same ↦ rw ((==_iff a x).0 same) c
    | inr other ↦ contains-common_ports xs ys a (ground arith) (ground arith)
  ]
]

records_on-none :
    (w : ℕ) (exclude : Option ℕ) (p : NodePlan) (ds : List Deployed)
    → records_on w exclude p ds ≡ []
    → Each (λ d. selected w exclude d ≡ true → is_empty (overlap_of p d) ≡ true) ds
unfolding records_on
records_on-none w exclude p [] h = tt
records_on-none w exclude p (d ∷ ds) h =
    elim (Bool-cases (selected w exclude d && not (is_empty (overlap_of p d)))) [
      | inl c ↦ absurd (ground arith)
      | inr c ↦ (λ s. ground arith, records_on-none w exclude p ds (ground arith))
    ]

extract_host_ports-nil :
    (ports : List PortEntry) (host_mode : Bool)
    → is_empty ports ≡ true
    → is_empty (extract_host_ports ports host_mode) ≡ true
unfolding extract_host_ports
extract_host_ports-nil [] host_mode h = refl
extract_host_ports-nil (e ∷ es) host_mode h = absurd (ground arith)

overlap_of-nil : (xs ys : List ℕ) → is_empty xs ≡ true → is_empty (common_ports xs ys) ≡ true
overlap_of-nil [] ys h = refl
overlap_of-nil (x ∷ xs) ys h = absurd (ground arith)

plan_records-none :
    (exclude : Option ℕ) (ds : List Deployed) (p : NodePlan)
    → plan_records exclude ds p ≡ []
    → Each (IsApart exclude p) ds
unfolding plan_records
plan_records-none exclude ds p h = Each-imp ds (λ d f. apart d f) (each (Option-cases p.node_id))
  where
    Quiet : Deployed → Type 0
    Quiet d =
        (w : ℕ)
        → p.node_id ≡ some w
        → selected w exclude d ≡ true
        → is_empty (overlap_of p d) ≡ true

    apart : (d : Deployed) → Quiet d → IsApart exclude p d
    apart d f w a n s c = contains-common_ports _ _ a (f w n s) c

    each : (p.node_id ≡ none) ⊎ ((w : ℕ) × (p.node_id ≡ some w)) → Each Quiet ds
    each (inl n) = Each-all Quiet ds (λ d w e s. absurd (clash w n e))
      where
        clash : (w : ℕ) → p.node_id ≡ none → p.node_id ≡ some w → ⊥
        clash w n e = cc
    each (inr (v, n)) =
        elim (Bool-cases (is_empty p.ports || is_empty (extract_host_ports p.ports p.host_mode))) [
          | inl c ↦ Each-all Quiet ds (λ d w e s. nothing d c)
          | inr c ↦
              Each-imp ds (λ d f w e s. f (rw (same w e) at s))
                (records_on-none v exclude p ds (ground arith))
        ]
      where
        same : (w : ℕ) → p.node_id ≡ some w → w ≡ v
        same w e = ground arith

        nothing :
            (d : Deployed)
            → (is_empty p.ports || is_empty (extract_host_ports p.ports p.host_mode)) ≡ true
            → is_empty (overlap_of p d) ≡ true
        nothing d c = overlap_of-nil _ _ (elim (||-true _ _ c) [
          | inl a ↦ extract_host_ports-nil p.ports p.host_mode a
          | inr a ↦ a
        ])

append-eq-nil : (xs ys : List ConflictRecord) → (xs ++ ys) ≡ [] → (xs ≡ []) × (ys ≡ [])
append-eq-nil [] ys h = (refl, h)
append-eq-nil (x ∷ xs) ys h = absurd (ground arith)

records_none-IsApart :
    (ps : List NodePlan) (deployed : List Deployed) (exclude : Option ℕ)
    → find_running_port_conflict_records ps deployed exclude ≡ []
    → Each (λ p. Each (IsApart exclude p) deployed) ps
unfolding find_running_port_conflict_records
records_none-IsApart [] deployed exclude h = tt
records_none-IsApart (p ∷ ps) deployed exclude h =
    let (here, later) = append-eq-nil (plan_records exclude deployed p) _ h in
    (plan_records-none exclude deployed p here, records_none-IsApart ps deployed exclude later)

-- Where no conflict is recorded, a host port of a plan is not one of a node of a running or starting
-- instance on the plan's worker, the excluded instance left aside.
pub no_records-apart :
    (ps : List NodePlan) (deployed : List Deployed) (exclude : Option ℕ) (m n w a : ℕ)
    (p : NodePlan) (d : Deployed)
    → find_running_port_conflict_records ps deployed exclude ≡ []
    → get_elem? ps m ≡ some p
    → get_elem? deployed n ≡ some d
    → p.node_id ≡ some w
    → selected w exclude d ≡ true
    → contains a (extract_host_ports p.ports p.host_mode) ≡ true
    → contains a (extract_host_ports d.ports d.host_mode) ≡ false
no_records-apart ps deployed exclude m n w a p d h e f =
    Each-get (IsApart exclude p) deployed n f
      (Each-get (λ q. Each (IsApart exclude q) deployed) ps m e
        (records_none-IsApart ps deployed exclude h))
      w a
