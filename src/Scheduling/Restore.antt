-- ===== src/Scheduling/Restore.antt =====
-- Which jobs are there after a restart (backend/services/scheduler.py).
use manage_deploy.Common.{
  ==_refl, Bool-cases, Each, Each-delete, Each-get, Each-put, List, Option-cases, [], arith,
  contains, contains-keys-delete_ne, contains-keys-put, delete, false, get_elem?, inl, inr, keys,
  ltb, some, true, ||-intro_right, ℕ, ◌&&◌, ◌<◌, ◌==◌, ◌||◌, ◌∙◌, ◌∷◌, ◌≡◌, ◌≤◌, ◌⊎◌,
}
use manage_deploy.Scheduling.{
  Jobs, Planned, is_live, is_restored, is_waiting, next_business_time, replace_job, restore_end,
  restore_pending_jobs, restore_row, restore_rows, restore_start, schedule_task_end,
  schedule_task_start,
}

keys-replace_job :
    (a i at : ℕ) (jobs : List (ℕ × ℕ))
    → contains a (keys (replace_job i at jobs)) ≡ (a == i || contains a (keys jobs))
keys-replace_job a i at jobs = elim (Bool-cases (contains i (keys jobs))) [
  | inl c ↦ rw c (contains-keys-put a i at (delete i jobs) ∙ deleted (Bool-cases (a == i)))
  | inr c ↦ rw c (contains-keys-put a i at jobs)
]
  where
    deleted :
        ((a == i) ≡ true) ⊎ ((a == i) ≡ false)
        → (a == i || contains a (keys (delete i jobs))) ≡ (a == i || contains a (keys jobs))
    deleted (inl e) = rw e
    deleted (inr e) = rw (contains-keys-delete_ne a i jobs e)

-- The times of the jobs lie behind a moment.
abbrev pub AllAfter : ℕ → List (ℕ × ℕ) → Type 0
AllAfter now jobs = Each (λ q. now < q.1) jobs

replace_job-AllAfter :
    (now i at : ℕ) (jobs : List (ℕ × ℕ))
    → now < at
    → AllAfter now jobs
    → AllAfter now (replace_job i at jobs)
replace_job-AllAfter now i at jobs h k = elim (Bool-cases (contains i (keys jobs))) [
  | inl c ↦ rw c (Each-put _ (delete i jobs) i at (Each-delete _ jobs i k) h)
  | inr c ↦ rw c (Each-put _ jobs i at k h)
]

pub next_business_time-after :
    (now clock value : ℕ) → now ≤ clock → now < next_business_time clock value
unfolding next_business_time
next_business_time-after now clock value h = ground arith

-- What a row asks for is there.
abbrev pub HasJobs : ℕ → Planned → Jobs → Type 0
HasJobs now p j =
    ((end : ℕ)
      → p.scheduled_end_time ≡ some end
      → (is_live p.status || is_waiting p.status && ltb now end) ≡ true
      → contains p.id (keys j.ends) ≡ true)
    × ((start end : ℕ)
        → p.scheduled_end_time ≡ some end
        → p.scheduled_start_time ≡ some start
        → (is_waiting p.status && ltb now start) ≡ true
        → contains p.id (keys j.starts) ≡ true)

-- Jobs are only added.
record Grows (now : ℕ) (j k : Jobs) : Type 0 where
  starts : (a : ℕ) → contains a (keys j.starts) ≡ true → contains a (keys k.starts) ≡ true
  ends : (a : ℕ) → contains a (keys j.ends) ≡ true → contains a (keys k.ends) ≡ true
  starts_after : AllAfter now j.starts → AllAfter now k.starts
  ends_after : AllAfter now j.ends → AllAfter now k.ends

Grows-refl : (now : ℕ) (j : Jobs) → Grows now j j
Grows-refl now j = record {
  starts = λ a h. h;
  ends = λ a h. h;
  starts_after = λ h. h;
  ends_after = λ h. h;
}

Grows-trans : {now : ℕ} {a b c : Jobs} → Grows now a b → Grows now b c → Grows now a c
Grows-trans p q = record {
  starts = λ x h. q.starts x (p.starts x h);
  ends = λ x h. q.ends x (p.ends x h);
  starts_after = λ h. q.starts_after (p.starts_after h);
  ends_after = λ h. q.ends_after (p.ends_after h);
}

module _ (now clock : ℕ) (later : now ≤ clock) where
  start-Grows : (i t : ℕ) (j : Jobs) → Grows now j (schedule_task_start clock i t j)
  unfolding schedule_task_start
  start-Grows i t j = record {
    starts = λ a h. keys-replace_job a i _ j.starts ∙ ||-intro_right (a == i) _ h;
    ends = λ a h. h;
    starts_after =
        replace_job-AllAfter now i _ j.starts (next_business_time-after now clock t later);
    ends_after = λ h. h;
  }

  end-Grows : (i t : ℕ) (j : Jobs) → Grows now j (schedule_task_end clock i t j)
  unfolding schedule_task_end
  end-Grows i t j = record {
    starts = λ a h. h;
    ends = λ a h. keys-replace_job a i _ j.ends ∙ ||-intro_right (a == i) _ h;
    starts_after = λ h. h;
    ends_after = replace_job-AllAfter now i _ j.ends (next_business_time-after now clock t later);
  }

  end-there : (i t : ℕ) (j : Jobs) → contains i (keys (schedule_task_end clock i t j).ends) ≡ true
  unfolding schedule_task_end
  end-there i t j = keys-replace_job i i _ j.ends ∙ rw ==_refl

  start-there :
      (i t : ℕ) (j : Jobs) → contains i (keys (schedule_task_start clock i t j).starts) ≡ true
  unfolding schedule_task_start
  start-there i t j = keys-replace_job i i _ j.starts ∙ rw ==_refl

  restore_start-Grows : (p : Planned) (j : Jobs) → Grows now j (restore_start now clock p j)
  unfolding restore_start
  restore_start-Grows p j = elim (Option-cases p.scheduled_start_time) [
    | inl e ↦ rw e (Grows-refl now j)
    | inr (start, e) ↦ elim (Bool-cases (ltb now start && is_waiting p.status)) [
      | inl c ↦ rw (e, c) (start-Grows p.id start j)
      | inr c ↦ rw (e, c) (Grows-refl now j)
    ]
  ]

  restore_start-there :
      (p : Planned) (j : Jobs) (start : ℕ)
      → p.scheduled_start_time ≡ some start
      → (is_waiting p.status && ltb now start) ≡ true
      → contains p.id (keys (restore_start now clock p j).starts) ≡ true
  unfolding restore_start
  restore_start-there p j start e c =
      let d : (ltb now start && is_waiting p.status) ≡ true = ground arith in
      rw (e, d) (start-there p.id start j)

  restore_end-Grows :
      (p : Planned) (end : ℕ) (j : Jobs) (n : ℕ)
      → Grows now j (restore_end now clock p end (j, n)).0
  unfolding restore_end
  restore_end-Grows p end j n = elim (Bool-cases (ltb now end)) [
    | inl c ↦ rw c (end-Grows p.id end j)
    | inr c ↦ elim (Bool-cases (is_live p.status)) [
      | inl d ↦ rw (c, d) (end-Grows p.id _ j)
      | inr d ↦ rw (c, d) (Grows-refl now j)
    ]
  ]

  restore_end-there :
      (p : Planned) (end : ℕ) (j : Jobs) (n : ℕ)
      → (is_live p.status || is_waiting p.status && ltb now end) ≡ true
      → contains p.id (keys (restore_end now clock p end (j, n)).0.ends) ≡ true
  unfolding restore_end
  restore_end-there p end j n h = elim (Bool-cases (ltb now end)) [
    | inl c ↦ rw c (end-there p.id end j)
    | inr c ↦ let d : is_live p.status ≡ true = ground arith in rw (c, d) (end-there p.id _ j)
  ]

  restore_row-Grows :
      (p : Planned) (j : Jobs) (n : ℕ) → Grows now j (restore_row now clock p (j, n)).0
  unfolding restore_row
  restore_row-Grows p j n = elim (Option-cases p.scheduled_end_time) [
    | inl e ↦ rw e (Grows-refl now j)
    | inr (end, e) ↦ elim (Bool-cases (is_restored p.status)) [
      | inl c ↦
          rw (e, c)
            (Grows-trans (restore_start-Grows p j)
              (restore_end-Grows p end (restore_start now clock p j) n))
      | inr c ↦ rw (e, c) (Grows-refl now j)
    ]
  ]

  restore_row-there :
      (p : Planned) (j : Jobs) (n : ℕ) → HasJobs now p (restore_row now clock p (j, n)).0
  unfolding restore_row
  restore_row-there p j n = (
    λ end e h.
        let c : is_restored p.status ≡ true = ground arith in
        rw (e, c) (restore_end-there p end (restore_start now clock p j) n h),
    λ start end e f h.
        let c : is_restored p.status ≡ true = ground arith in
        rw (e, c)
          ((restore_end-Grows p end (restore_start now clock p j) n).starts p.id
            (restore_start-there p j start f h)),
  )

HasJobs-Grows :
    (now : ℕ) (p : Planned) {j k : Jobs} → Grows now j k → HasJobs now p j → HasJobs now p k
HasJobs-Grows now p g h =
    (λ end e c. g.ends p.id (h.0 end e c), λ start end e f c. g.starts p.id (h.1 start end e f c))

restore_rows-Grows :
    (now : ℕ) (rows : List (Planned × ℕ)) (acc : Jobs × ℕ)
    → Each (λ q. now ≤ q.1) rows
    → Grows now acc.0 (restore_rows now rows acc).0
unfolding restore_rows
restore_rows-Grows now [] acc h = Grows-refl now acc.0
restore_rows-Grows now ((p, clock) ∷ rows) (j, n) h =
    Grows-trans (restore_row-Grows now clock h.0 p j n) (restore_rows-Grows now rows _ h.1)

restore_rows-there :
    (now : ℕ) (rows : List (Planned × ℕ)) (acc : Jobs × ℕ)
    → Each (λ q. now ≤ q.1) rows
    → Each (λ q. HasJobs now q.0 (restore_rows now rows acc).0) rows
unfolding restore_rows
restore_rows-there now [] acc h = tt
restore_rows-there now ((p, clock) ∷ rows) (j, n) h = (
  HasJobs-Grows now p (restore_rows-Grows now rows (restore_row now clock p (j, n)) h.1)
      (restore_row-there now clock h.0 p j n),
  restore_rows-there now rows _ h.1,
)

abbrev pub no_jobs : Jobs
no_jobs = record { starts = []; ends = [] }

-- After a restart with no jobs left, every job that is restored runs after the moment of the
-- restart. The clock does not go back while the rows are read.
pub restore_pending_jobs-after :
    (now : ℕ) (rows : List (Planned × ℕ))
    → Each (λ q. now ≤ q.1) rows
    → let jobs = restore_pending_jobs now rows no_jobs in
      AllAfter now jobs.starts × AllAfter now jobs.ends
unfolding restore_pending_jobs
restore_pending_jobs-after now rows h =
    let grows = restore_rows-Grows now rows (no_jobs, 0) h in
    (grows.starts_after tt, grows.ends_after tt)

-- After a restart with no jobs left, an instance with an end time that is starting or running has an
-- end job, and so has a pending or scheduled one whose end lies ahead. The clock does not go back
-- while the rows are read.
pub restore_pending_jobs-ends :
    (now k clock end : ℕ) (rows : List (Planned × ℕ)) (p : Planned)
    → Each (λ q. now ≤ q.1) rows
    → get_elem? rows k ≡ some (p, clock)
    → p.scheduled_end_time ≡ some end
    → (is_live p.status || is_waiting p.status && ltb now end) ≡ true
    → contains p.id (keys (restore_pending_jobs now rows no_jobs).ends) ≡ true
unfolding restore_pending_jobs
restore_pending_jobs-ends now k clock end rows p h got =
    (Each-get (λ q. HasJobs now q.0 (restore_rows now rows (no_jobs, 0)).0) rows k got
        (restore_rows-there now rows (no_jobs, 0) h)).0
      end

-- After a restart with no jobs left, a pending or scheduled instance with an end time whose start
-- lies ahead has a start job. The clock does not go back while the rows are read.
pub restore_pending_jobs-starts :
    (now k clock start end : ℕ) (rows : List (Planned × ℕ)) (p : Planned)
    → Each (λ q. now ≤ q.1) rows
    → get_elem? rows k ≡ some (p, clock)
    → p.scheduled_end_time ≡ some end
    → p.scheduled_start_time ≡ some start
    → (is_waiting p.status && ltb now start) ≡ true
    → contains p.id (keys (restore_pending_jobs now rows no_jobs).starts) ≡ true
unfolding restore_pending_jobs
restore_pending_jobs-starts now k clock start end rows p h got =
    (Each-get (λ q. HasJobs now q.0 (restore_rows now rows (no_jobs, 0)).0) rows k got
        (restore_rows-there now rows (no_jobs, 0) h)).1
      start end
