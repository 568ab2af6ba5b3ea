-- ===== src/Instances/Batch.antt =====
-- What batch_start_instances (backend/api/instances.py) says of each instance.
use manage_deploy.Common.{
  ◌∙◌, Bool, List, Option, [], arith, contains, contains-append, contains-keys-put, false, keys,
  refl, true, ℕ, ◌==◌, ◌||◌, ◌∙◌, ◌∷◌, ◌≡◌,
}
use manage_deploy.Instances.{opened}
use manage_deploy.Instances.{
  Attempt, BatchResult, Call, Session, answered, batch_start, batch_start_instances, of_exception,
  opened, or_unknown, raised, record_attempt, start_instance_with_preflight,
}
use manage_deploy.Routing.Board.{Board}

-- The instance is in one of the two lists.
abbrev is_told : ℕ → BatchResult → Bool
is_told i r = contains i r.succeeded || contains i (keys r.failed)

module _ (preflight : ℕ → Session → Call Bool)
    (execute_dag_start : ℕ → Session → Call (Bool × Option ℕ)) where
  record_attempt-told :
      (i j : ℕ) (a : Session × Attempt) (r : BatchResult)
      → is_told j (record_attempt preflight execute_dag_start i a r) ≡ (j == i || is_told j r)
  record_attempt-told i j (s, raised) r =
      ground (arith, contains-keys-put j i of_exception r.failed)
  record_attempt-told i j (s, answered true d) r =
      ground (arith, contains-append j r.succeeded (i ∷ []))
  record_attempt-told i j (s, answered false d) r =
      ground (arith, contains-keys-put j i (or_unknown preflight execute_dag_start d) r.failed)

  batch_start-told :
      (is : List ℕ) (j : ℕ) (r : BatchResult)
      → is_told j (batch_start preflight execute_dag_start is r) ≡ (contains j is || is_told j r)
  unfolding batch_start
  batch_start-told [] j r = refl
  batch_start-told (i ∷ is) j r =
      let next =
        record_attempt preflight execute_dag_start i
          (start_instance_with_preflight preflight execute_dag_start i r.session) r in
      ground (
        arith,
        batch_start-told is j next,
        record_attempt-told i j
            (start_instance_with_preflight preflight execute_dag_start i r.session) r,
      )

  -- A batch of starts tells of exactly the instances that were asked for, whatever becomes of each:
  -- an exception of one ends neither the loop nor the answer.
  pub batch_start-accounted :
      (is : List ℕ) (b : Board) (j : ℕ)
      → (contains j (batch_start_instances preflight execute_dag_start is b).succeeded
          || contains j (keys (batch_start_instances preflight execute_dag_start is b).failed))
        ≡ contains j is
  unfolding batch_start_instances
  batch_start-accounted is b j =
      batch_start-told is j (record { session = opened b; succeeded = []; failed = [] })
      ∙ (ground arith)
