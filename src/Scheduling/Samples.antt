-- ===== src/Scheduling/Samples.antt =====
-- A restart (backend/services/scheduler.py) with one overdue and one future instance.
use manage_deploy.Common.{List, [], arith, contains, keys, refl, some, true, ℕ, ◌∷◌, ◌≡◌}
use manage_deploy.Enums.{TaskStatus}
use manage_deploy.Scheduling.{Planned, restore_pending_jobs, schedule_task_end, schedule_task_start}
use manage_deploy.Scheduling.Restore.{
  AllAfter, no_jobs, restore_pending_jobs-after, restore_pending_jobs-ends,
  restore_pending_jobs-starts,
}

abbrev overdue : Planned
overdue = record {
  id = 1;
  status = TaskStatus.running;
  scheduled_start_time = some 10;
  scheduled_end_time = some 50;
}

abbrev ahead : Planned
ahead = record {
  id = 2;
  status = TaskStatus.scheduled;
  scheduled_start_time = some 200;
  scheduled_end_time = some 300;
}

abbrev rows : List (Planned × ℕ)
rows = (overdue, 100) ∷ (ahead, 101) ∷ []

restored :
    restore_pending_jobs 100 rows (record { starts = []; ends = [] })
    ≡ record { starts = (2, 200) ∷ []; ends = (1, 101) ∷ (2, 300) ∷ [] }
unfolding restore_pending_jobs schedule_task_start schedule_task_end
restored = refl

restore_pending_jobs-after_example :
    let jobs = restore_pending_jobs 100 rows no_jobs in
    AllAfter 100 jobs.starts × AllAfter 100 jobs.ends
restore_pending_jobs-after_example = restore_pending_jobs-after 100 rows (omega arith)

restore_pending_jobs-ends_example :
    contains 1 (keys (restore_pending_jobs 100 rows no_jobs).ends) ≡ true
restore_pending_jobs-ends_example =
    restore_pending_jobs-ends 100 0 100 50 rows overdue (omega arith) refl refl refl

restore_pending_jobs-starts_example :
    contains 2 (keys (restore_pending_jobs 100 rows no_jobs).starts) ≡ true
restore_pending_jobs-starts_example =
    restore_pending_jobs-starts 100 1 101 200 300 rows ahead (omega arith) refl refl refl refl
