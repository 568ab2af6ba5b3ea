-- ===== src/Dag/Start/Idle.antt =====
-- Where the loop of `execute_dag_start` (backend/services/dag_executor.py) stands when it leaves.
use manage_deploy.Common.{
  Bool-cases, List, [], arith, inl, inr, is_empty, length, ltb, not, refl, some, true, ℕ, ◌&&◌, ◌∷◌,
  ◌≡◌,
}
use manage_deploy.Dag.Graph.{Graph}
use manage_deploy.Dag.Messages.{AgentResult}
use manage_deploy.Dag.Start.Loop.{
  advance, at_done, at_fill, at_head, at_pc, at_process, at_rollback, at_visit, at_wait, launch,
  leave,
}
use manage_deploy.Dag.Start.Moves.{
  MainMove, advance-Move, launched, processed, quiet, to_visit, visited,
}
use manage_deploy.Dag.Start.State.{Pc, Run, fill, finished, head, process, rollback, visit, waiting}

-- The loop leaves with success only from a state with nothing failed, pending or running.
pub record IsIdle (r : Run) : Type 0 where
  pub no_failed : is_empty r.failed ≡ true
  pub no_pending : is_empty r.pending ≡ true
  pub no_running : is_empty r.running ≡ true
  pub no_visits : to_visit r.pc ≡ []

leave-IsIdle :
    (now : ℕ) (r : Run)
    → is_empty r.pending ≡ true
    → is_empty r.running ≡ true
    → to_visit r.pc ≡ []
    → (leave now r).pc ≡ finished true
    → IsIdle r
unfolding leave
leave-IsIdle now r a b c e = ground arith

at_head-IsIdle : (now : ℕ) (r : Run) → r.pc ≡ head → (at_head now r).pc ≡ finished true → IsIdle r
unfolding at_head leave
at_head-IsIdle now r p e = ground arith

launch-pc : (g : Graph) (k : ℕ) (r : Run) → (launch g k r).pc ≡ r.pc
unfolding launch
launch-pc g k r = ground arith

room : (xs : List (ℕ × ℕ)) → is_empty xs ≡ true → ltb (length xs) 10 ≡ true
room [] h = refl
room (x ∷ xs) h = absurd (ground arith)

at_fill-IsIdle :
    (g : Graph) (now choice : ℕ) (r s : Run)
    → r.pc ≡ fill
    → at_fill g now choice r ≡ some s
    → s.pc ≡ finished true
    → IsIdle r
unfolding at_fill leave
at_fill-IsIdle g now choice r s p e f =
    elim (Bool-cases (not (is_empty r.pending) && ltb (length r.running) 10)) [
      | inl c ↦ absurd (ground (arith, launch-pc g choice r))
      | inr c ↦ elim (Bool-cases (is_empty r.running)) [
        | inl d ↦ let small = room r.running d in ground arith
        | inr d ↦ absurd (ground arith)
      ]
    ]

pub at_pc-IsIdle :
    (g : Graph) (i now choice : ℕ) (reply : AgentResult) (c : Pc) (r s : Run)
    → r.pc ≡ c
    → at_pc g i now choice reply c r ≡ some s
    → s.pc ≡ finished true
    → IsIdle r
unfolding at_pc at_rollback
at_pc-IsIdle g i now choice reply head r s p e f = at_head-IsIdle now r p (ground arith)
at_pc-IsIdle g i now choice reply fill r s p e f = at_fill-IsIdle g now choice r s p e f
at_pc-IsIdle g i now choice reply waiting r s p e f = absurd (unfold at_wait in ground arith)
at_pc-IsIdle g i now choice reply (process ds) r s p e f =
    absurd (unfold at_process at_done in ground arith)
at_pc-IsIdle g i now choice reply (visit [] rest) r s p e f = absurd (ground arith)
at_pc-IsIdle g i now choice reply (visit (d ∷ ds) rest) r s p e f =
    absurd (unfold at_visit in ground arith)
at_pc-IsIdle g i now choice reply (rollback []) r s p e f = absurd (ground arith)
at_pc-IsIdle g i now choice reply (rollback (k ∷ ks)) r s p e f = absurd (ground arith)
at_pc-IsIdle g i now choice reply (finished b) r s p e f = absurd (ground arith)

MainMove-started : (g : Graph) (i : ℕ) {r s : Run} → MainMove g i r s → s.started ≡ r.started
unfolding launch at_done at_visit
MainMove-started g i (quiet q) = q.started
MainMove-started g i (launched k p m l e) = ground arith
MainMove-started g i (processed ds k success rest p q e) = ground arith
MainMove-started g i (visited d ds rest p e) = ground arith

-- The loop itself starts no node.
pub advance-started :
    (g : Graph) (i now choice : ℕ) (reply : AgentResult) (r s : Run)
    → advance g i now choice reply r ≡ some s
    → s.started ≡ r.started
advance-started g i now choice reply r s e =
    MainMove-started g i (advance-Move g i now choice reply r s e)

pub advance-IsIdle :
    (g : Graph) (i now choice : ℕ) (reply : AgentResult) (r s : Run)
    → advance g i now choice reply r ≡ some s
    → s.pc ≡ finished true
    → IsIdle r
unfolding advance
advance-IsIdle g i now choice reply r s e f = at_pc-IsIdle g i now choice reply r.pc r s refl e f
