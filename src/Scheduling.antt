-- ===== src/Scheduling.antt =====
-- backend/services/scheduler.py and backend/services/time_utils.py: the start and end jobs of
-- instances, and their restoration when the backend starts. Times are seconds; a job is kept under
-- its kind and its instance, as its text identifier says.
pub mod Restore
mod Samples
use manage_deploy.Common.{
  Bool, List, Option, [], contains, delete, if◌then◌else◌, keys, leb, ltb, none, put, some, ℕ, ◌&&◌,
  ◌*◌, ◌+◌, ◌||◌, ◌∷◌,
}
use manage_deploy.Enums.{TaskStatus, is_pending, is_running, is_scheduled, is_starting}

-- The jobs that the scheduler holds, by instance, with the time at which they run.
pub record Jobs : Type 0 where
  pub starts : List (ℕ × ℕ)
  pub ends : List (ℕ × ℕ)

unfoldable pub next_business_time : ℕ → ℕ → ℕ
next_business_time now value = if leb value now then now + 1 else value

-- `get_job`, `remove_job`, `add_job`
abbrev pub replace_job : ℕ → ℕ → List (ℕ × ℕ) → List (ℕ × ℕ)
replace_job i at jobs = put i at (if contains i (keys jobs) then delete i jobs else jobs)

unfoldable pub schedule_task_start : ℕ → ℕ → ℕ → Jobs → Jobs
unfolding next_business_time
schedule_task_start now i run_time j = record j {
  starts = replace_job i (next_business_time now run_time) j.starts;
}

unfoldable pub schedule_task_end : ℕ → ℕ → ℕ → Jobs → Jobs
unfolding next_business_time
schedule_task_end now i end_time j = record j {
  ends = replace_job i (next_business_time now end_time) j.ends;
}

abbrev pub drop_job : ℕ → List (ℕ × ℕ) → List (ℕ × ℕ)
drop_job i jobs = if contains i (keys jobs) then delete i jobs else jobs

unfoldable pub cancel_scheduled_start : ℕ → Jobs → Jobs
cancel_scheduled_start i j = record j { starts = drop_job i j.starts }

unfoldable pub cancel_scheduled_end : ℕ → Jobs → Jobs
cancel_scheduled_end i j = record j { ends = drop_job i j.ends }

unfoldable pub cancel_all_schedules : ℕ → Jobs → Jobs
unfolding cancel_scheduled_start cancel_scheduled_end
cancel_all_schedules i j = cancel_scheduled_end i (cancel_scheduled_start i j)

pub record Planned : Type 0 where
  pub id : ℕ
  pub status : TaskStatus
  pub scheduled_start_time : Option ℕ
  pub scheduled_end_time : Option ℕ

-- `status in (PENDING, SCHEDULED)` and `status in (STARTING, RUNNING)`.
abbrev pub is_waiting : TaskStatus → Bool
is_waiting s = is_pending s || is_scheduled s

abbrev pub is_live : TaskStatus → Bool
is_live s = is_starting s || is_running s

-- The `where` of the statement, for a row with an end time.
abbrev pub is_restored : TaskStatus → Bool
is_restored s = is_waiting s || is_live s

unfoldable pub restore_start : ℕ → ℕ → Planned → Jobs → Jobs
restore_start now clock p j = elim p.scheduled_start_time [
  | none ↦ j
  | some start ↦
      if ltb now start && is_waiting p.status then schedule_task_start clock p.id start j else j
]

-- The jobs, and the number of overdue ends so far.
unfoldable pub restore_end : ℕ → ℕ → Planned → ℕ → Jobs × ℕ → Jobs × ℕ
restore_end now clock p end (j, overdue) =
    if ltb now end
    then (schedule_task_end clock p.id end j, overdue)
    else if is_live p.status
    then (schedule_task_end clock p.id (clock + (1 + overdue * 3)) j, overdue + 1)
    else (j, overdue)

-- The body of the loop over the rows.
unfoldable pub restore_row : ℕ → ℕ → Planned → Jobs × ℕ → Jobs × ℕ
unfolding restore_start restore_end
restore_row now clock p (j, overdue) = elim p.scheduled_end_time [
  | none ↦ (j, overdue)
  | some end ↦
      if is_restored p.status
      then restore_end now clock p end (restore_start now clock p j, overdue)
      else (j, overdue)
]

-- The rows, each with the time of day at which the loop comes to it.
unfoldable pub restore_rows : ℕ → List (Planned × ℕ) → Jobs × ℕ → Jobs × ℕ
unfolding restore_row
restore_rows now [] acc = acc
restore_rows now ((p, clock) ∷ rows) acc = restore_rows now rows (restore_row now clock p acc)

unfoldable pub restore_pending_jobs : ℕ → List (Planned × ℕ) → Jobs → Jobs
unfolding restore_rows
restore_pending_jobs now rows j = (restore_rows now rows (j, 0)).0
