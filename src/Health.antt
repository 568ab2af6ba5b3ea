-- ===== src/Health.antt =====
-- backend/services/health_checker.py: the polling loops that decide whether a started node is
-- ready. What the agent answers at each attempt is an argument; `sleep` leaves no trace.
pub mod Attempts
mod Samples
use manage_deploy.Common.{
  Bool, List, Option, [], false, if◌then◌else◌, ltb, none, not, some, suc, true, zero, ℕ, ◌+◌, ◌-◌,
  ◌∷◌,
}
use manage_deploy.Dag.Messages.{
  Message, Setting, container_not_running, container_status, health_check_failed, machine_not_found,
  not_specified, or_else,
}

-- The answer of `get_container_status`: "running", or another status by its code.
pub record Container : Type 0 where
  pub is_up : Bool
  pub status : ℕ
  pub message : Option Message

-- The answers of the agent by the number of the attempt.
pub record Answers : Type 0 where
  pub container : ℕ → Container
  pub check : ℕ → Bool × Option Message

pub data CheckType : Type 0 where
  port http log container other : CheckType

-- `health_config["retry"]`: no such key, an integer (`negative n` is -1 - n), or a value that `range`
-- refuses, as null or a text.
pub data Retry : Type 0 where
  missing : Retry
  count : ℕ → Retry
  negative : ℕ → Retry
  not_integer : Retry

abbrev pub is_integer : Retry → Bool
is_integer not_integer = false
is_integer _ = true

-- `node.health_check`; a missing key is `none`, an empty text `[]`.
pub record HealthConfig : Type 0 where
  pub check_type : CheckType
  pub retry : Retry
  pub port : Option ℕ
  pub url : Option (List ℕ)
  pub keyword : Option (List ℕ)
  pub container_name : Option (List ℕ)

-- A pair that is returned, the UnboundLocalError of a name that no round has bound, or the TypeError
-- of `range`.
pub data Outcome : Type 0 where
  returned : Bool → Option Message → Outcome
  unbound : Outcome
  type_error : Outcome

-- `if not value`
abbrev pub is_set : Option (List ℕ) → Bool
is_set none = false
is_set (some []) = false
is_set (some (c ∷ cs)) = true

abbrev pub is_port : Option ℕ → Bool
is_port none = false
is_port (some zero) = false
is_port (some (suc n)) = true

-- Each check refuses a configuration that lacks its setting, and asks the agent otherwise.
unfoldable pub check_setting : Bool → Setting → Bool × Option Message → Bool × Option Message
check_setting present setting answer =
    if present then answer else (false, some (not_specified setting))

unfoldable pub perform_health_check : HealthConfig → Bool × Option Message → Bool × Option Message
unfolding check_setting
perform_health_check c answer = elim c.check_type [
  | CheckType.port ↦ check_setting (is_port c.port) Setting.port answer
  | CheckType.http ↦ check_setting (is_set c.url) Setting.url answer
  | CheckType.log ↦ check_setting (is_set c.keyword) Setting.keyword answer
  | CheckType.container ↦ check_setting (is_set c.container_name) Setting.container answer
  | CheckType.other ↦ (true, none)
]

-- The rounds left, the number of the attempt, and what `message` is bound to.
unfoldable pub health_attempts :
    HealthConfig → Answers → ℕ → ℕ → ℕ → Option (Option Message) → Outcome
health_attempts c a retries zero attempt message = elim message [
  | none ↦ unbound
  | some m ↦ returned false (some (or_else m health_check_failed))
]
health_attempts c a retries (suc left) attempt message =
    let state = a.container attempt in
    let (ok, error) = perform_health_check c (a.check attempt) in
    let skipped = health_attempts c a retries left (attempt + 1) message in
    let again = health_attempts c a retries left (attempt + 1) (some error) in
    if state.is_up
    then if ok then returned true none else again
    else if ltb attempt (retries - 1)
    then skipped
    else returned false (some (or_else state.message (container_status state.status)))

unfoldable pub running_attempts : Answers → ℕ → ℕ → Option (Option Message) → Outcome
running_attempts a zero attempt message = elim message [
  | none ↦ unbound
  | some m ↦ returned false (some (or_else m container_not_running))
]
running_attempts a (suc left) attempt message =
    let state = a.container attempt in
    let again = running_attempts a left (attempt + 1) (some state.message) in
    if state.is_up then returned true none else again

unfoldable pub wait_for_running : Bool → ℕ → Answers → ℕ → Outcome
unfolding running_attempts
wait_for_running has_machine node_id a max_retries =
    if has_machine
    then running_attempts a max_retries 0 none
    else returned false (some (machine_not_found node_id))

abbrev pub max_retries : ℕ
max_retries = 3

-- The rounds of `range(max_retries)`.
abbrev pub retries_of : Option HealthConfig → ℕ
retries_of none = max_retries
retries_of (some c) = elim c.retry [
  | missing ↦ max_retries
  | count n ↦ n
  | negative n ↦ 0
  | not_integer ↦ 0
]

unfoldable pub wait_for_health : Bool → ℕ → Option HealthConfig → Answers → Outcome
unfolding health_attempts wait_for_running
wait_for_health has_machine node_id none a = wait_for_running has_machine node_id a max_retries
wait_for_health has_machine node_id (some c) a =
    if not has_machine
    then returned false (some (machine_not_found node_id))
    else if is_integer c.retry
    then health_attempts c a (retries_of (some c)) (retries_of (some c)) 0 none
    else type_error
