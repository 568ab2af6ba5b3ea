-- ===== src/Dag/Start/Progress.antt =====
-- `execute_dag_start` (backend/services/dag_executor.py) is never stuck before its end.
use manage_deploy.Common.{
  Bool, Bool-cases, Each, List, Option-cases, [], arith, false, get_elem?, if◌then◌else◌, inl, inr,
  is_empty, length, ltb, none, not, pick, pick-contains, refl, remove, some, suc, sym, true, zero,
  ℕ, ◌&&◌, ◌<◌, ◌∷◌, ◌≡◌, ◌≢◌, ◌⊎◌, contains_self,
}
use manage_deploy.Dag.Graph.{Graph}
use manage_deploy.Dag.Messages.{AgentResult}
use manage_deploy.Dag.Nodes.{Store, start_node, stop_node, update_node_status}
use manage_deploy.Dag.Start.Entry.{Reach, first_run}
use manage_deploy.Dag.Start.Live.{IsLive, IsOver, Reach-IsLive}
use manage_deploy.Dag.Start.Loop.{
  advance, at_done, at_fill, at_head, at_pc, at_process, at_rollback, at_visit, at_wait, launch,
  leave,
}
use manage_deploy.Dag.Start.Monitor.{
  after_health, after_start, monitor, set_phase, start_and_monitor,
}
use manage_deploy.Dag.Start.State.{
  Health, Pc, Phase, Run, Task, checking, created, done, done_tasks, fill, finished, head, process,
  result_of, rollback, starting, stopping, task_result, visit, waiting,
}
use manage_deploy.Enums.{NodeStatus}
use mathlib.Core.Path.{subst}

pick-Each : (P : ℕ → Type 0) (xs : List ℕ) → is_empty xs ≡ false → Each P xs → P (pick xs)
pick-Each P [] e h = absurd (ground arith)
pick-Each P (x ∷ xs) e h = h.0

get_elem?-some : (ts : List Task) (k : ℕ) → k < length ts → (t : Task) × (get_elem? ts k ≡ some t)
get_elem?-some [] k h = absurd (omega arith)
get_elem?-some (t ∷ ts) zero h = (t, refl)
get_elem?-some (t ∷ ts) (suc k) h = get_elem?-some ts k (omega arith)

-- Where no running task is done, one of them is at work.
unfinished_task :
    (ts : List Task) (m : List (ℕ × ℕ))
    → not (is_empty m) ≡ true
    → Each (λ q. q.1 < length ts) m
    → is_empty (done_tasks ts m) ≡ true
    → (k : ℕ) × ((t : Task) × ((get_elem? ts k ≡ some t) × (result_of t.phase ≡ none)))
unfinished_task ts [] a b c = absurd (ground arith)
unfinished_task ts ((j, k) ∷ m) a b c =
    let (t, got) = get_elem?-some ts k b.0 in (k, (t, (got, open_phase t got)))
  where
    open_phase : (t : Task) → get_elem? ts k ≡ some t → result_of t.phase ≡ none
    open_phase t got = elim (Option-cases (result_of t.phase)) [
      | inl q ↦ q
      | inr (b, q) ↦ absurd (ground arith)
    ]

-- The loop can make a step, for some choice of it, or some coroutine can, with the very answers that
-- are given.
abbrev pub CanGoOn : Graph → ℕ → AgentResult → Health → Run → Type 0
CanGoOn g i reply verdict r =
    (s : Run) × (((choice : ℕ) × (advance g i 0 choice reply r ≡ some s))
      ⊎ ((k : ℕ) × (start_and_monitor g i k reply verdict r ≡ some s)))

module _ (g : Graph) (i : ℕ) (reply : AgentResult) (verdict : Health) where
  loop_step :
      (c : Pc) (choice : ℕ) (r s : Run)
      → r.pc ≡ c
      → at_pc g i 0 choice reply c r ≡ some s
      → CanGoOn g i reply verdict r
  unfolding advance
  loop_step c choice r s p e =
      (s, inl (choice, subst (λ x. at_pc g i 0 choice reply x r ≡ some s) (sym p) e))

  async_step :
      (k : ℕ) (t : Task) (c : Phase) (r s : Run)
      → get_elem? r.tasks k ≡ some t
      → t.phase ≡ c
      → monitor g i k reply verdict r t c ≡ some s
      → CanGoOn g i reply verdict r
  async_step k t c r s got p e =
      let at_phase : monitor g i k reply verdict r t t.phase ≡ some s =
        subst (λ x. monitor g i k reply verdict r t x ≡ some s) (sym p) e in
      (s, inr (k, unfold start_and_monitor in ground (arith, at_phase)))

  coroutine_step :
      (k : ℕ) (t : Task) (c : Phase) (r : Run)
      → get_elem? r.tasks k ≡ some t
      → t.phase ≡ c
      → result_of c ≡ none
      → CanGoOn g i reply verdict r
  unfolding monitor
  coroutine_step k t created r got p n =
      async_step k t created r
        (record r {
          store = update_node_status r.store t.node.id NodeStatus.starting none;
          tasks = set_phase r k t starting;
        })
        got p refl
  coroutine_step k t starting r got p n =
      async_step k t starting r (after_start r k t (start_node g i t.node reply r.store)) got p refl
  coroutine_step k t checking r got p n =
      async_step k t checking r (after_health r k t verdict) got p refl
  coroutine_step k t stopping r got p n =
      async_step k t stopping r
        (record r {
          store = (stop_node g t.node reply r.store).0;
          tasks = set_phase r k t (done false);
        })
        got p refl
  coroutine_step k t (done b) r got p n = absurd (ground arith)

  live_step :
      (c : Pc) (r : Run)
      → r.pc ≡ c
      → ((b : Bool) → c ≢ finished b)
      → IsLive r
      → CanGoOn g i reply verdict r
  live_step head r p n h = loop_step head 0 r (at_head 0 r) p (unfold at_pc in refl)
  live_step fill r p n h =
      elim (Bool-cases (not (is_empty r.pending) && ltb (length r.running) 10)) [
        | inl c ↦
            let there = pick-contains r.pending (ground arith) in
            loop_step fill (pick r.pending) r (launch g (pick r.pending) r) p
              (unfold at_pc at_fill in rw (c, there))
        | inr c ↦
            loop_step fill 0 r (if is_empty r.running then leave 0 r else record r { pc = waiting })
              p (unfold at_pc at_fill in rw c)
      ]
  live_step waiting r p n h = elim (Bool-cases (is_empty (done_tasks r.tasks r.running))) [
    | inl c ↦
        let (k, rest) = unfinished_task r.tasks r.running (rw p at h.waits) h.valid c in
        coroutine_step k rest.0 (rest.0).phase r rest.1.0 refl rest.1.1
    | inr c ↦
        loop_step waiting 0 r (record r { pc = process (done_tasks r.tasks r.running) }) p
          (unfold at_pc at_wait in rw c)
  ]
  live_step (process ds) r p n h = elim (Bool-cases (is_empty ds)) [
    | inl c ↦
        loop_step (process ds) 0 r (record r { pc = head }) p (unfold at_pc at_process in rw c)
    | inr c ↦
        let over : IsOver r.tasks (pick ds) = pick-Each (IsOver r.tasks) ds c (rw p at h.over) in
        elim (Option-cases (task_result r.tasks (pick ds))) [
          | inl q ↦ absurd (ground arith)
          | inr (b, q) ↦
              loop_step (process ds) (pick ds) r (at_done g i (pick ds) b (remove (pick ds) ds) r) p
                (unfold at_pc at_process in rw (c, pick-contains ds c, q))
        ]
  ]
  live_step (visit [] rest) r p n h =
      loop_step (visit [] rest) 0 r (record r { pc = process rest }) p (unfold at_pc in refl)
  live_step (visit (d ∷ ds) rest) r p n h =
      loop_step (visit (d ∷ ds) rest) 0 r (at_visit g i d ds rest r) p (unfold at_pc in refl)
  live_step (rollback []) r p n h =
      loop_step (rollback []) 0 r (at_rollback g reply 0 [] r) p (unfold at_pc in refl)
  live_step (rollback (k ∷ ks)) r p n h =
      loop_step (rollback (k ∷ ks)) k r (at_rollback g reply k (k ∷ ks) r) p
        (unfold at_pc in (rw (contains_self k ks) refl))
  live_step (finished b) r p n h = absurd (n b refl)

-- The start of an instance is never stuck: from every state that it can reach but the end, and for
-- each answer of an agent and each verdict of a health check, good or bad, the loop or one of its
-- coroutines takes a step with that answer and that verdict.
pub start_goes_on :
    (g : Graph) (i : ℕ) (st : Store) (r : Run) (reply : AgentResult) (verdict : Health)
    → Reach g i (first_run g i st) r
    → ((b : Bool) → r.pc ≢ finished b)
    → CanGoOn g i reply verdict r
start_goes_on g i st r reply verdict p n =
    live_step g i reply verdict r.pc r refl n
      (Reach-IsLive p (record { valid = tt; waits = refl; over = tt }))
