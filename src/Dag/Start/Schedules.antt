-- ===== src/Dag/Start/Schedules.antt =====
-- Interleavings of `execute_dag_start` (backend/services/dag_executor.py) written out as schedules,
-- to run them on concrete instances.
use manage_deploy.Common.{List, Option, Option-cases, [], arith, inl, inr, none, some, ℕ, ◌∷◌, ◌≡◌}
use manage_deploy.Dag.Graph.{Graph}
use manage_deploy.Dag.Messages.{AgentResult}
use manage_deploy.Dag.Start.Entry.{Reach, Step, here, main, next, task}
use manage_deploy.Dag.Start.Loop.{advance}
use manage_deploy.Dag.Start.Monitor.{start_and_monitor}
use manage_deploy.Dag.Start.State.{Health, Run}

pub data Action : Type 0 where
  main_step : (choice : ℕ) → Action
  task_step : (k : ℕ) → Health → Action

-- Every agent call of the schedule has the same answer.
unfoldable pub act : Graph → ℕ → AgentResult → Action → Run → Option Run
act g i reply (main_step choice) r = advance g i 0 choice reply r
act g i reply (task_step k verdict) r = start_and_monitor g i k reply verdict r

unfoldable pub play : Graph → ℕ → AgentResult → List Action → Run → Option Run
unfolding act
play g i reply [] r = some r
play g i reply (a ∷ as') r = elim (act g i reply a r) [
  | none ↦ none
  | some s ↦ play g i reply as' s
]

act-Step :
    (g : Graph) (i : ℕ) (reply : AgentResult) (a : Action) (r s : Run)
    → act g i reply a r ≡ some s
    → Step g i r s
unfolding act
act-Step g i reply (main_step choice) r s e = main 0 choice reply e
act-Step g i reply (task_step k verdict) r s e = task k reply verdict e

Reach-trans : {g : Graph} {i : ℕ} {r s t : Run} → Reach g i r s → Reach g i s t → Reach g i r t
Reach-trans p here = p
Reach-trans p (next q st) = next (Reach-trans p q) st

-- What a schedule does can happen.
pub play-Reach :
    (g : Graph) (i : ℕ) (reply : AgentResult) (acts : List Action) (r s : Run)
    → play g i reply acts r ≡ some s
    → Reach g i r s
unfolding play
play-Reach g i reply [] r s e = let same : r ≡ s = ground arith in rw (← same) here
play-Reach g i reply (a ∷ acts) r s e = elim (Option-cases (act g i reply a r)) [
  | inl q ↦ absurd (ground arith)
  | inr (t, q) ↦
      Reach-trans (next here (act-Step g i reply a r t q))
        (play-Reach g i reply acts t s (ground arith))
]
