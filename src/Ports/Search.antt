-- ===== src/Ports/Search.antt =====
-- Looking for free ports: `find_available_ports` of node_agent/port_utils.py and
-- `_allocate_from_range` of backend/services/auto_port_allocator.py.
use mathlib.Core.List.{append-nil, append_assoc}
use manage_deploy.Common.{
  Bool, Bool-cases, List, [], add, ap, arith, contains, false, if◌then◌else◌, inl, inr, leb, length,
  length-append, max, not, refl, select, suc, sym, take, true, zero, ℕ, ◌++◌, ◌+◌, ◌-◌, ◌||◌, ◌∙◌,
  ◌∷◌, ◌≡◌, ◌≤◌,
}

-- `range(start, start + n)`
abbrev pub upto : ℕ → ℕ → List ℕ
upto zero start = []
upto (suc n) start = start ∷ upto n (start + 1)

-- The rounds left, the port of the round, and the ports found.
unfoldable pub available_from : (ℕ → Bool) → ℕ → ℕ → ℕ → List ℕ → List ℕ
available_from blocked count zero port available = available
available_from blocked count (suc left) port available =
    let found = available ++ port ∷ [] in
    let skip = available_from blocked count left (port + 1) available in
    let more = available_from blocked count left (port + 1) found in
    if blocked port then skip else if leb count (length found) then found else more

-- Whether a port is in use on the host is asked of the socket: an argument.
unfoldable pub find_available_ports : ℕ → ℕ → ℕ → List ℕ → List ℕ → (ℕ → Bool) → List ℕ
unfolding available_from
find_available_ports count start end exclude occupied in_use =
    available_from (λ p. contains p exclude || contains p occupied || in_use p) count
      (end + 1 - start) start []

unfoldable pub allocated_from : ℕ → ℕ → ℕ → List ℕ → List ℕ → List ℕ
allocated_from count zero port excluded allocated = allocated
allocated_from count (suc left) port excluded allocated =
    let found = allocated ++ port ∷ [] in
    let skip = allocated_from count left (port + 1) excluded allocated in
    let more = allocated_from count left (port + 1) (add port excluded) found in
    if contains port excluded then skip else if leb count (length found) then found else more

-- `count` is the number of automatic ports.
unfoldable pub allocate_from_range : ℕ → ℕ → ℕ → List ℕ → List ℕ
unfolding allocated_from
allocate_from_range count start end exclude =
    allocated_from count (end + 1 - start) start exclude []

-- The first ports of the range that pass a test, as many as asked for and at least one.
abbrev pub first_ports : (ℕ → Bool) → ℕ → ℕ → ℕ → List ℕ
first_ports free count left start = take (max count 1) (select free (upto left start))

available_from-eq :
    (blocked : ℕ → Bool) (count k left port : ℕ) (available : List ℕ)
    → length available + suc k ≡ max count 1
    → available_from blocked count left port available
      ≡ available ++ take (suc k) (select (λ p. not (blocked p)) (upto left port))
unfolding available_from
available_from-eq blocked count k zero port available h = sym (append-nil available)
available_from-eq blocked count zero (suc left) port available h =
    elim (Bool-cases (blocked port)) [
      | inl b ↦ rw b (available_from-eq blocked count zero left (port + 1) available h)
      | inr b ↦
          let full : leb count (length (available ++ port ∷ [])) ≡ true =
            ground (arith, length-append available (port ∷ [])) in
          rw (b, full)
    ]
available_from-eq blocked count (suc k) (suc left) port available h =
    elim (Bool-cases (blocked port)) [
      | inl b ↦ rw b (available_from-eq blocked count (suc k) left (port + 1) available h)
      | inr b ↦
          let room : leb count (length (available ++ port ∷ [])) ≡ false =
            ground (arith, length-append available (port ∷ [])) in
          rw (b, room)
            (available_from-eq blocked count k left (port + 1) (available ++ port ∷ [])
                (omega (arith, length-append {0} available (port ∷ [])))
              ∙ append_assoc available (port ∷ []) _)
    ]

-- Only the ports from the present one on matter.
select-ext :
    (p q : ℕ → Bool) (n start : ℕ)
    → ((a : ℕ) → start ≤ a → p a ≡ q a)
    → select p (upto n start) ≡ select q (upto n start)
select-ext p q zero start f = refl
select-ext p q (suc n) start f =
    rw (f start (omega arith)) (rw (select-ext p q n (start + 1) (λ a h. f a (omega arith))))

allocated_from-eq :
    (count k left port : ℕ) (excluded allocated : List ℕ)
    → length allocated + suc k ≡ max count 1
    → allocated_from count left port excluded allocated
      ≡ allocated ++ take (suc k) (select (λ p. not (contains p excluded)) (upto left port))
unfolding allocated_from
allocated_from-eq count k zero port excluded allocated h = sym (append-nil allocated)
allocated_from-eq count zero (suc left) port excluded allocated h =
    elim (Bool-cases (contains port excluded)) [
      | inl b ↦ rw b (allocated_from-eq count zero left (port + 1) excluded allocated h)
      | inr b ↦
          let full : leb count (length (allocated ++ port ∷ [])) ≡ true =
            ground (arith, length-append allocated (port ∷ [])) in
          rw (b, full)
    ]
allocated_from-eq count (suc k) (suc left) port excluded allocated h =
    elim (Bool-cases (contains port excluded)) [
      | inl b ↦ rw b (allocated_from-eq count (suc k) left (port + 1) excluded allocated h)
      | inr b ↦
          let room : leb count (length (allocated ++ port ∷ [])) ≡ false =
            ground (arith, length-append allocated (port ∷ [])) in
          let rest =
            allocated_from-eq count k left (port + 1) (port ∷ excluded) (allocated ++ port ∷ [])
              (omega (arith, length-append {0} allocated (port ∷ []))) in
          rw (b, room)
            (rest
              ∙ append_assoc allocated (port ∷ []) _
              ∙ ap (λ xs. allocated ++ port ∷ take (suc k) xs)
                  (select-ext _ _ left (port + 1) later))
    ]
  where
    later : (a : ℕ) → port + 1 ≤ a → not (contains a (port ∷ excluded)) ≡ not (contains a excluded)
    later a h = ground arith

-- The port search of the node agent returns the first free ports of the range in order, as many as
-- asked for, or all of them if there are fewer; free is what is not excluded, not held by a
-- container and not in use on the host. Asked for none it still returns one, if there is one.
pub find_available_ports-eq :
    (count start end : ℕ) (exclude occupied : List ℕ) (in_use : ℕ → Bool)
    → find_available_ports count start end exclude occupied in_use
      ≡ first_ports
          (λ p. not (contains p exclude || contains p occupied || in_use p))
          count
          (end + 1 - start)
          start
unfolding find_available_ports
find_available_ports-eq count start end exclude occupied in_use =
    let one : max count 1 ≡ suc (max count 1 - 1) = omega arith in
    rw one (available_from-eq _ count (max count 1 - 1) (end + 1 - start) start [] (omega arith))

-- The platform's own search, for when the node agent does not answer, returns the first ports of
-- the range that are not excluded, as many as there are automatic ports (at least one), or all of
-- them if there are fewer.
pub allocate_from_range-eq :
    (count start end : ℕ) (exclude : List ℕ)
    → allocate_from_range count start end exclude
      ≡ first_ports (λ p. not (contains p exclude)) count (end + 1 - start) start
unfolding allocate_from_range
allocate_from_range-eq count start end exclude =
    let one : max count 1 ≡ suc (max count 1 - 1) = omega arith in
    rw one
      (allocated_from-eq count (max count 1 - 1) (end + 1 - start) start exclude [] (omega arith))
