-- ===== src/Health/Samples.antt =====
-- Runs of the polling loops of backend/services/health_checker.py.
use manage_deploy.Common.{Option, false, leb, none, refl, some, true, ◌≡◌}
use manage_deploy.Dag.Messages.{health_check_failed}
use manage_deploy.Health.{
  Answers, CheckType, HealthConfig, Retry, count, negative, perform_health_check, returned,
  wait_for_health,
}
use manage_deploy.Health.Attempts.{
  is_success, is_type_error, is_unbound, wait_for_health-success, wait_for_health-unbound,
}

-- The container is up from the second attempt on, and the check passes at the third.
abbrev slow : Answers
slow = record {
  container = λ n. record { is_up = leb 1 n; status = 1; message = none };
  check = λ n. (leb 2 n, none);
}

abbrev port_check : Retry → Option HealthConfig
port_check retries = some (record {
  check_type = CheckType.port;
  retry = retries;
  port = some 8080;
  url = none;
  keyword = none;
  container_name = none;
})

wait_for_health-success_example :
    is_success (wait_for_health true 5 (port_check (count 3)) slow) ≡ true
unfolding perform_health_check
wait_for_health-success_example = wait_for_health-success true 5 (port_check (count 3)) slow

wait_for_health-unbound_example :
    (is_unbound (wait_for_health true 5 (port_check (negative 0)) slow) ≡ true)
    × (is_type_error (wait_for_health true 5 (port_check (negative 0)) slow) ≡ false)
wait_for_health-unbound_example = wait_for_health-unbound true 5 (port_check (negative 0)) slow

-- Two attempts are too few.
gives_up :
    wait_for_health true 5 (port_check (count 2)) slow ≡ returned false (some health_check_failed)
unfolding wait_for_health perform_health_check
gives_up = refl
