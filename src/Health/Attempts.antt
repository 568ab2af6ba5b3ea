-- ===== src/Health/Attempts.antt =====
-- The polling loops of backend/services/health_checker.py against what the agent answers.
use manage_deploy.Common.{
  Bool, Bool-cases, Option, arith, false, inl, inr, is_none, none, not, refl, some, suc, true, zero,
  ℕ, ◌&&◌, ◌+◌, ◌==◌, ◌||◌, ◌∙◌, ◌≡◌,
}
use manage_deploy.Dag.Messages.{Message}
use manage_deploy.Health.{
  Answers, HealthConfig, Outcome, health_attempts, is_integer, max_retries, perform_health_check,
  retries_of, returned, running_attempts, type_error, unbound, wait_for_health, wait_for_running,
}

-- Some attempt of a range, from its first number on, passes a test.
abbrev pub some_attempt : (ℕ → Bool) → ℕ → ℕ → Bool
some_attempt p zero first = false
some_attempt p (suc left) first = p first || some_attempt p left (first + 1)

-- The container is up and the check is passed.
abbrev pub passes : HealthConfig → Answers → ℕ → Bool
passes c a n = (a.container n).is_up && (perform_health_check c (a.check n)).0

abbrev pub is_success : Outcome → Bool
is_success (returned b m) = b
is_success unbound = false
is_success type_error = false

abbrev pub is_unbound : Outcome → Bool
is_unbound (returned b m) = false
is_unbound unbound = true
is_unbound type_error = false

abbrev pub is_type_error : Outcome → Bool
is_type_error (returned b m) = false
is_type_error unbound = false
is_type_error type_error = true

abbrev pub is_whole : Option HealthConfig → Bool
is_whole none = true
is_whole (some c) = is_integer c.retry

-- A value that `range` refuses gives no round.
no_rounds : (c : HealthConfig) → is_integer c.retry ≡ false → retries_of (some c) ≡ 0
no_rounds c e = ground arith

health_attempts-success :
    (c : HealthConfig) (a : Answers) (retries left attempt : ℕ) (message : Option (Option Message))
    → attempt + left ≡ retries
    → is_success (health_attempts c a retries left attempt message)
      ≡ some_attempt (passes c a) left attempt
unfolding health_attempts
health_attempts-success c a retries zero attempt none e = refl
health_attempts-success c a retries zero attempt (some m) e = refl
health_attempts-success c a retries (suc zero) attempt message e = elim message [
  | none ↦ ground arith
  | some m ↦ ground arith
]
health_attempts-success c a retries (suc (suc left)) attempt message e =
    let error = (perform_health_check c (a.check attempt)).1 in
    let again =
      health_attempts-success c a retries (suc left) (attempt + 1) (some error) (omega arith) in
    let skipped =
      health_attempts-success c a retries (suc left) (attempt + 1) message (omega arith) in
    ground arith

running_attempts-success :
    (a : Answers) (left attempt : ℕ) (message : Option (Option Message))
    → is_success (running_attempts a left attempt message)
      ≡ some_attempt (λ n. (a.container n).is_up) left attempt
unfolding running_attempts
running_attempts-success a zero attempt none = refl
running_attempts-success a zero attempt (some m) = refl
running_attempts-success a (suc left) attempt message =
    let again =
      running_attempts-success a left (attempt + 1) (some (a.container attempt).message) in
    ground arith

-- What one attempt has to find, with and without a configured check.
abbrev pub attempt_passes : Option HealthConfig → Answers → ℕ → Bool
attempt_passes none a n = (a.container n).is_up
attempt_passes (some c) a n = passes c a n

-- A node is reported ready exactly if its machine is known and one of its attempts, as many as the
-- configuration says (three by default), finds the container up and the configured check passed.
pub wait_for_health-success :
    (has_machine : Bool) (node_id : ℕ) (config : Option HealthConfig) (a : Answers)
    → is_success (wait_for_health has_machine node_id config a)
      ≡ (has_machine && some_attempt (attempt_passes config a) (retries_of config) 0)
unfolding wait_for_health wait_for_running
wait_for_health-success false node_id none a = refl
wait_for_health-success false node_id (some c) a = refl
wait_for_health-success true node_id none a = running_attempts-success a max_retries 0 none
wait_for_health-success true node_id (some c) a = elim (Bool-cases (is_integer c.retry)) [
  | inl e ↦
      rw e (
        health_attempts-success c a (retries_of (some c)) (retries_of (some c)) 0 none
          (omega arith))
  | inr e ↦ rw (e, no_rounds c e) refl
]

-- One attempt that is not the last, over two results of the rounds behind it that have a value.
health_attempts-round :
    (c : HealthConfig) (a : Answers) (retries left attempt : ℕ) (message : Option (Option Message))
    → ((m : Option (Option Message))
        → is_unbound (health_attempts c a retries (suc left) (attempt + 1) m) ≡ false)
    → is_unbound (health_attempts c a retries (suc (suc left)) attempt message) ≡ false
unfolding health_attempts
health_attempts-round c a retries left attempt message later =
    let again = later (some (perform_health_check c (a.check attempt)).1) in
    let skipped = later message in ground arith

health_attempts-last :
    (c : HealthConfig) (a : Answers) (retries attempt : ℕ) (message : Option (Option Message))
    → attempt + 1 ≡ retries
    → is_unbound (health_attempts c a retries 1 attempt message) ≡ false
unfolding health_attempts
health_attempts-last c a retries attempt none e = ground arith
health_attempts-last c a retries attempt (some m) e = ground arith

health_attempts-bound :
    (c : HealthConfig) (a : Answers) (retries left attempt : ℕ) (message : Option (Option Message))
    → attempt + suc left ≡ retries
    → is_unbound (health_attempts c a retries (suc left) attempt message) ≡ false
health_attempts-bound c a retries zero attempt message e =
    health_attempts-last c a retries attempt message (omega arith)
health_attempts-bound c a retries (suc left) attempt message e =
    health_attempts-round c a retries left attempt message
      (λ m. health_attempts-bound c a retries left (attempt + 1) m (omega arith))

health_attempts-unbound :
    (c : HealthConfig) (a : Answers) (retries : ℕ)
    → is_unbound (health_attempts c a retries retries 0 none) ≡ (retries == 0)
unfolding health_attempts
health_attempts-unbound c a zero = refl
health_attempts-unbound c a (suc n) =
    health_attempts-bound c a (suc n) n 0 none (omega arith) ∙ ground arith

running_attempts-bound :
    (a : Answers) (left attempt : ℕ) (message : Option (Option Message))
    → is_unbound (running_attempts a left attempt message) ≡ (left == 0 && is_none message)
unfolding running_attempts
running_attempts-bound a zero attempt none = refl
running_attempts-bound a zero attempt (some m) = refl
running_attempts-bound a (suc left) attempt message =
    let again = running_attempts-bound a left (attempt + 1) (some (a.container attempt).message) in
    ground arith

health_attempts-typed :
    (c : HealthConfig) (a : Answers) (retries left attempt : ℕ) (message : Option (Option Message))
    → is_type_error (health_attempts c a retries left attempt message) ≡ false
unfolding health_attempts
health_attempts-typed c a retries zero attempt none = refl
health_attempts-typed c a retries zero attempt (some m) = refl
health_attempts-typed c a retries (suc left) attempt message =
    let error = (perform_health_check c (a.check attempt)).1 in
    let again = health_attempts-typed c a retries left (attempt + 1) (some error) in
    let skipped = health_attempts-typed c a retries left (attempt + 1) message in ground arith

running_attempts-typed :
    (a : Answers) (left attempt : ℕ) (message : Option (Option Message))
    → is_type_error (running_attempts a left attempt message) ≡ false
unfolding running_attempts
running_attempts-typed a zero attempt none = refl
running_attempts-typed a zero attempt (some m) = refl
running_attempts-typed a (suc left) attempt message =
    let again = running_attempts-typed a left (attempt + 1) (some (a.container attempt).message) in
    ground arith

-- With a known machine the wait ends with an UnboundLocalError exactly if the configured number of
-- attempts is an integer that is not positive, and with a TypeError exactly if it is no integer;
-- without one it ends with neither, and in every other case it returns.
pub wait_for_health-unbound :
    (has_machine : Bool) (node_id : ℕ) (config : Option HealthConfig) (a : Answers)
    → (is_unbound (wait_for_health has_machine node_id config a)
        ≡ (has_machine && (is_whole config && retries_of config == 0)))
      × (is_type_error (wait_for_health has_machine node_id config a)
          ≡ (has_machine && not (is_whole config)))
unfolding wait_for_health wait_for_running
wait_for_health-unbound false node_id none a = (refl, refl)
wait_for_health-unbound false node_id (some c) a = (refl, refl)
wait_for_health-unbound true node_id none a =
    (running_attempts-bound a max_retries 0 none, running_attempts-typed a max_retries 0 none)
wait_for_health-unbound true node_id (some c) a = elim (Bool-cases (is_integer c.retry)) [
  | inl e ↦ rw e (
    health_attempts-unbound c a (retries_of (some c)),
    health_attempts-typed c a (retries_of (some c)) (retries_of (some c)) 0 none,
  )
  | inr e ↦ rw e (refl, refl)
]
