-- ===== src/Dag/Stop/Progress.antt =====
-- `execute_dag_stop` (backend/services/dag_executor.py) is never stuck before its end.
use mathlib.Core.Path.{subst}
use manage_deploy.Common.{
  Bool-cases, Each, List, [], arith, get_elem?, if◌then◌else◌, inl, inr, is_empty, length, ltb, not,
  pick, pick-contains, refl, remove, set, some, suc, sym, true, zero, ℕ, ◌&&◌, ◌<◌, ◌∷◌, ◌≡◌, ◌≢◌,
  ◌⊎◌,
}
use manage_deploy.Dag.Graph.{Graph}
use manage_deploy.Dag.Messages.{AgentResult}
use manage_deploy.Dag.Nodes.{Store, stop_node}
use manage_deploy.Dag.Stop.Live.{StopLive, StopReach-StopLive}
use manage_deploy.Dag.Stop.Loop.{
  StopPc, StopPhase, StopReach, StopRun, StopTask, after_stop, calling, created, fill, finish_stop,
  finished, first_stop, head, launch_stop, over, over_tasks, process, stop_advance, stop_at,
  stop_done, stop_fill, stop_node_async, stop_node_at, stop_process, stop_visit, stop_wait, visit,
  waiting,
}

get_elem?-some :
    (ts : List StopTask) (k : ℕ) → k < length ts → (t : StopTask) × (get_elem? ts k ≡ some t)
get_elem?-some [] k h = absurd (omega arith)
get_elem?-some (t ∷ ts) zero h = (t, refl)
get_elem?-some (t ∷ ts) (suc k) h = get_elem?-some ts k (omega arith)

-- Where no running task is over, one of them is at work.
unfinished_task :
    (ts : List StopTask) (m : List (ℕ × ℕ))
    → not (is_empty m) ≡ true
    → Each (λ q. q.1 < length ts) m
    → is_empty (over_tasks ts m) ≡ true
    → (k : ℕ) × ((t : StopTask) × ((get_elem? ts k ≡ some t) × (t.phase ≢ over)))
unfinished_task ts [] a b c = absurd (ground arith)
unfinished_task ts ((j, k) ∷ m) a b c =
    let (t, got) = get_elem?-some ts k b.0 in (k, (t, (got, λ e. clash t got e)))
  where
    clash : (t : StopTask) → get_elem? ts k ≡ some t → t.phase ≡ over → ⊥
    clash t got e = ground arith

-- The loop can make a step, for some choice of it, or some coroutine can, with the very answer that
-- is given.
abbrev pub CanGoOn : Graph → ℕ → AgentResult → StopRun → Type 0
CanGoOn g i reply r =
    (s : StopRun) × (((choice : ℕ) × (stop_advance g i 0 choice r ≡ some s))
      ⊎ ((k : ℕ) × (stop_node_async g k reply r ≡ some s)))

module _ (g : Graph) (i : ℕ) (reply : AgentResult) where
  loop_step :
      (c : StopPc) (choice : ℕ) (r s : StopRun)
      → r.pc ≡ c
      → stop_at g i 0 choice c r ≡ some s
      → CanGoOn g i reply r
  unfolding stop_advance
  loop_step c choice r s p e =
      (s, inl (choice, subst (λ x. stop_at g i 0 choice x r ≡ some s) (sym p) e))

  async_step :
      (k : ℕ) (t : StopTask) (c : StopPhase) (r s : StopRun)
      → get_elem? r.tasks k ≡ some t
      → t.phase ≡ c
      → stop_node_at g k reply r t c ≡ some s
      → CanGoOn g i reply r
  async_step k t c r s got p e =
      let at_phase : stop_node_at g k reply r t t.phase ≡ some s =
        subst (λ x. stop_node_at g k reply r t x ≡ some s) (sym p) e in
      (s, inr (k, unfold stop_node_async in ground (arith, at_phase)))

  coroutine_step :
      (k : ℕ) (t : StopTask) (c : StopPhase) (r : StopRun)
      → get_elem? r.tasks k ≡ some t
      → t.phase ≡ c
      → c ≢ over
      → CanGoOn g i reply r
  unfolding stop_node_at
  coroutine_step k t created r got p n =
      async_step k t created r (record r { tasks = set r.tasks k (record t { phase = calling }) })
        got p refl
  coroutine_step k t calling r got p n =
      async_step k t calling r (after_stop r k t (stop_node g t.node reply r.store)) got p refl
  coroutine_step k t over r got p n = absurd (n refl)

  live_step :
      (c : StopPc) (r : StopRun) → r.pc ≡ c → c ≢ finished → StopLive r → CanGoOn g i reply r
  live_step head r p n h =
      loop_step head 0 r
        (if is_empty r.pending && is_empty r.running
          then finish_stop 0 r
          else record r { pc = fill })
        p (unfold stop_at in refl)
  live_step fill r p n h =
      elim (Bool-cases (not (is_empty r.pending) && ltb (length r.running) 10)) [
        | inl c ↦
            let there = pick-contains r.pending (ground arith) in
            loop_step fill (pick r.pending) r (launch_stop g (pick r.pending) r) p
              (unfold stop_at stop_fill in rw (c, there))
        | inr c ↦
            loop_step fill 0 r
              (if is_empty r.running then finish_stop 0 r else record r { pc = waiting }) p
              (unfold stop_at stop_fill in rw c)
      ]
  live_step waiting r p n h = elim (Bool-cases (is_empty (over_tasks r.tasks r.running))) [
    | inl c ↦
        let (k, rest) = unfinished_task r.tasks r.running (rw p at h.waits) h.valid c in
        coroutine_step k rest.0 (rest.0).phase r rest.1.0 refl rest.1.1
    | inr c ↦
        loop_step waiting 0 r (record r { pc = process (over_tasks r.tasks r.running) }) p
          (unfold stop_at stop_wait in rw c)
  ]
  live_step (process ds) r p n h = elim (Bool-cases (is_empty ds)) [
    | inl c ↦
        loop_step (process ds) 0 r (record r { pc = head }) p (unfold stop_at stop_process in rw c)
    | inr c ↦
        loop_step (process ds) (pick ds) r (stop_done g i (pick ds) (remove (pick ds) ds) r) p
          (unfold stop_at stop_process in rw (c, pick-contains ds c))
  ]
  live_step (visit [] rest) r p n h =
      loop_step (visit [] rest) 0 r (record r { pc = process rest }) p (unfold stop_at in refl)
  live_step (visit (u ∷ us) rest) r p n h =
      loop_step (visit (u ∷ us) rest) 0 r (stop_visit g i u us rest r) p (unfold stop_at in refl)
  live_step finished r p n h = absurd (n refl)

-- The stop of an instance is never stuck: from every state that it can reach but the end, and for
-- each answer of an agent, a failure included, the loop or one of its coroutines takes a step with
-- that answer.
pub stop_goes_on :
    (g : Graph) (i : ℕ) (st : Store) (r : StopRun) (reply : AgentResult)
    → StopReach g i (first_stop g i st) r
    → r.pc ≢ finished
    → CanGoOn g i reply r
stop_goes_on g i st r reply p n =
    live_step g i reply r.pc r refl n (StopReach-StopLive p (record { valid = tt; waits = refl }))
