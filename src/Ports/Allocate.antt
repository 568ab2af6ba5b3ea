-- ===== src/Ports/Allocate.antt =====
-- `auto_allocate_ports` of backend/services/auto_port_allocator.py. What the node agent answers is
-- an argument: the list under "ports", or none where the call raises.
use manage_deploy.Common.{
  ==_iff, Bool, Bool-cases, Each, List, Option, Option-cases, [], arith, false, if◌then◌else◌, inl,
  inr, is_empty, length, none, not, put, refl, some, suc, true, ℕ, ◌&&◌, ◌++◌, ◌==◌, ◌||◌, ◌∙◌, ◌∷◌,
  ◌≡◌, ◌⊎◌,
}
use manage_deploy.Ports.Extract.{Raw, number}
use manage_deploy.Ports.Search.{allocate_from_range}

-- A value of `port_values`: whether it counts as true, and what `int` reads.
pub record PortValue : Type 0 where
  pub truthy : Bool
  pub raw : Raw

-- An item of `port_defs` that is a dict; an empty or missing name is `none`.
pub record PortDef : Type 0 where
  pub name : Option ℕ
  pub auto : Bool
  pub range : List ℕ
  pub default : Option ℕ

pub data DefItem : Type 0 where
  port_def : PortDef → DefItem
  junk : DefItem

abbrev pub Values : Type 0
Values = List (ℕ × PortValue)

abbrev pub lookup : ℕ → Values → Option PortValue
lookup k [] = none
lookup k ((j, v) ∷ m) = if k == j then some v else lookup k m

abbrev pub int_value : ℕ → PortValue
int_value n = record { truthy = not (n == 0); raw = number n }

-- `name in result and result[name]`
abbrev pub has_value : ℕ → Values → Bool
has_value k m = elim (lookup k m) [ none ↦ false | some v ↦ v.truthy ]

-- The names that get a port, with their defaults.
abbrev pub auto_ports : List DefItem → Values → List (ℕ × PortDef)
auto_ports [] m = []
auto_ports (junk ∷ items) m = auto_ports items m
auto_ports (port_def d ∷ items) m =
    let rest = auto_ports items m in
    elim d.name [
      | none ↦ rest
      | some k ↦ if d.auto && not (has_value k m) then (k, d) ∷ rest else rest
    ]

-- `port_range[0] if len(port_range) > 0 else 18000`, and the like for the end.
abbrev pub range_start : List ℕ → ℕ
range_start [] = 18000
range_start (a ∷ r) = a

abbrev pub range_end : List ℕ → ℕ
range_end (a ∷ b ∷ r) = b
range_end _ = 19999

-- The values that `int` reads; a negative one excludes no port.
abbrev pub numbers : Values → List ℕ
numbers [] = []
numbers ((k, v) ∷ m) = elim v.raw [ number n ↦ n ∷ numbers m | _ ↦ numbers m ]

-- The loop that hands the ports out.
unfoldable pub hand_out : List (ℕ × PortDef) → List ℕ → Values → Values
hand_out [] ports m = m
hand_out ((k, d) ∷ autos) (p ∷ ports) m = hand_out autos ports (put k (int_value p) m)
hand_out ((k, d) ∷ autos) [] m =
    hand_out autos [] (elim d.default [ none ↦ m | some n ↦ put k (int_value n) m ])

abbrev pub fallback_ports : List (ℕ × PortDef) → Values → List ℕ → List ℕ
fallback_ports [] m exclude = []
fallback_ports ((k, d) ∷ autos) m exclude =
    allocate_from_range (suc (length autos)) (range_start d.range) (range_end d.range)
      (exclude ++ numbers m)

unfoldable pub auto_allocate_ports : List DefItem → Values → List ℕ → Option (List ℕ) → Values
unfolding hand_out
auto_allocate_ports defs existing exclude answer =
    let autos = auto_ports defs existing in
    if is_empty defs || is_empty autos
    then existing
    else hand_out autos
        (elim answer [ none ↦ fallback_ports autos existing exclude | some ports ↦ ports ]) existing

lookup-put :
    (k j : ℕ) (v : PortValue) (m : Values)
    → lookup j (put k v m) ≡ (if j == k then some v else lookup j m)
lookup-put k j v [] = refl
lookup-put k j v ((i, w) ∷ m) = ground (arith, lookup-put k j v m)

-- No name of the list has a value.
abbrev AllOpen : List (ℕ × PortDef) → Values → Type 0
AllOpen autos m = Each (λ a. has_value a.0 m ≡ false) autos

auto_ports-open : (items : List DefItem) (m : Values) → AllOpen (auto_ports items m) m
auto_ports-open [] m = tt
auto_ports-open (junk ∷ items) m = auto_ports-open items m
auto_ports-open (port_def d ∷ items) m = elim (Option-cases d.name) [
  | inl e ↦ rw e (auto_ports-open items m)
  | inr (k, e) ↦ elim (Bool-cases (d.auto && not (has_value k m))) [
    | inl c ↦ rw (e, c) (ground arith, auto_ports-open items m)
    | inr c ↦ rw (e, c) (auto_ports-open items m)
  ]
]

hand_out-other :
    (autos : List (ℕ × PortDef)) (ports : List ℕ) (m : Values) (j : ℕ)
    → Each (λ a. (j == a.0) ≡ false) autos
    → lookup j (hand_out autos ports m) ≡ lookup j m
unfolding hand_out
hand_out-other [] ports m j h = refl
hand_out-other ((k, d) ∷ autos) (p ∷ ports) m j h =
    hand_out-other autos ports (put k (int_value p) m) j h.1
    ∙ lookup-put k j (int_value p) m
    ∙ rw h.0
hand_out-other ((k, d) ∷ autos) [] m j h = elim (Option-cases d.default) [
  | inl e ↦ rw e (hand_out-other autos [] m j h.1)
  | inr (n, e) ↦ rw e (
      hand_out-other autos [] (put k (int_value n) m) j h.1
      ∙ lookup-put k j (int_value n) m
      ∙ rw h.0)
]

open_other :
    (autos : List (ℕ × PortDef)) (m : Values) (j : ℕ)
    → has_value j m ≡ true
    → AllOpen autos m
    → Each (λ a. (j == a.0) ≡ false) autos
open_other [] m j e h = tt
open_other ((k, d) ∷ autos) m j e h = (apart (Bool-cases (j == k)), open_other autos m j e h.1)
  where
    apart : ((j == k) ≡ true) ⊎ ((j == k) ≡ false) → (j == k) ≡ false
    apart (inl same) =
        let here : has_value k m ≡ true = rw ((==_iff j k).0 same) at e in absurd (clash here h.0)
      where
        clash : has_value k m ≡ true → has_value k m ≡ false → ⊥
        clash a b = cc
    apart (inr other) = other

-- A port that has a value before keeps it, whatever the node agent answers.
pub auto_allocate-keeps :
    (defs : List DefItem) (existing : Values) (exclude : List ℕ) (answer : Option (List ℕ)) (j : ℕ)
    → has_value j existing ≡ true
    → lookup j (auto_allocate_ports defs existing exclude answer) ≡ lookup j existing
unfolding auto_allocate_ports
auto_allocate-keeps defs existing exclude answer j e =
    elim (Bool-cases (is_empty defs || is_empty (auto_ports defs existing))) [
      | inl c ↦ rw c
      | inr c ↦ rw c (
          hand_out-other (auto_ports defs existing) _ existing j
            (open_other (auto_ports defs existing) existing j e (auto_ports-open defs existing)))
    ]
