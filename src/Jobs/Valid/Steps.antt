-- ===== src/Jobs/Valid/Steps.antt =====
-- `add`, `remove` and the changes of state keep the job table valid (crates/common/src/jobs.rs).
use mathlib.Core.Bool.{false≢true}
use cherubsh.Base.{
  ◌≡◌, refl, ◌∙◌, ℕ, ◌+◌, ◌%◌, ◌^◌, inl, inr, ℤ, true, ◌||◌, Option, none, some, List, [], ◌∷◌, map,
  ◌==◌, arith, Bool-cases, Option-cases,
}
use cherubsh.Jobs.{Job, Process, JobTable, at_job, WaitStatus}
use cherubsh.Jobs.Markers.{has_id, reset_current_previous}
use cherubsh.Jobs.Table.{
  get, modify, set_waited_for, bury, bury_in, mark_job_dead, mark_dead, stop_in, mark_job_stopped,
  mark_stopped, resume, resume_in, mark_job_running, mark_running, completes_found,
  mark_found_running, is_marked,
}
use cherubsh.Jobs.Valid.{has_pid, owns, DistinctIds, IsTable}
use cherubsh.Jobs.Valid.Lists.{
  owns-has_id, KeepsIdentity, has_id-modify, owns-modify, DistinctIds-modify, find-has_id,
}
use cherubsh.Jobs.Valid.Marked.{reset_current_previous-Marks}

-- The markers are set anew.
pub reset-IsTable :
    (t : JobTable)
    → DistinctIds t.jobs
    → ((pid : ℤ) (id : ℕ) → t.pid_to_job pid ≡ some id → owns id pid t.jobs ≡ true)
    → ((id n : ℕ) → t.completion_order id ≡ some n → has_id id t.jobs ≡ true)
    → IsTable (reset_current_previous t)
unfolding reset_current_previous
reset-IsTable t d p o =
    let (c, q) = reset_current_previous-Marks t in
    record { distinct = d; pids_live = p; current_live = c; previous_live = q; order_live = o }

-- A change of one job that keeps its number and its processes.
pub modify-IsTable :
    (id : ℕ) (f : Job → Job) (t : JobTable)
    → KeepsIdentity f
    → IsTable t
    → IsTable (record t { jobs = modify id f t.jobs })
modify-IsTable id f t k v = record {
  distinct = DistinctIds-modify f k id t.jobs v.distinct;
  pids_live = λ pid n e. owns-modify f k id n pid t.jobs ∙ v.pids_live pid n e;
  current_live = λ n e. has_id-modify f k id n t.jobs ∙ v.current_live n e;
  previous_live = λ n e. has_id-modify f k id n t.jobs ∙ v.previous_live n e;
  order_live = λ n m e. has_id-modify f k id n t.jobs ∙ v.order_live n m e;
}

-- A change of every process that keeps its id.
has_pid-map :
    (g : Process → Process) (pid : ℤ) (ps : List Process)
    → ((p : Process) → (g p).pid ≡ p.pid)
    → has_pid pid (map g ps) ≡ has_pid pid ps
has_pid-map g pid [] h = refl
has_pid-map g pid (p ∷ ps) h = ground (arith, h p, has_pid-map g pid ps h)

bury_pid : (pid : ℤ) (status : ℕ) (p : Process) → (bury pid status p).pid ≡ p.pid
bury_pid pid status p = ground arith

bury_in-KeepsIdentity :
    (w : WaitStatus) (pid : ℤ) (status : ℕ) → KeepsIdentity (bury_in w pid status)
unfolding bury_in
bury_in-KeepsIdentity w pid status = record {
  same_id = λ j. ground arith;
  same_pids =
      λ j n. ground (arith, has_pid-map (bury pid status) n j.processes (bury_pid pid status));
}

stop_in-KeepsIdentity : (pid : ℤ) (sig : ℕ) → KeepsIdentity (stop_in pid sig)
stop_in-KeepsIdentity pid sig = record {
  same_id = λ j. refl;
  same_pids = λ j n. has_pid-map _ n j.processes (λ p. ground arith);
}

resume_pid : (p : Process) → (resume p).pid ≡ p.pid
resume_pid p = ground arith

resume_in-KeepsIdentity : KeepsIdentity resume_in
unfolding resume_in
resume_in-KeepsIdentity = record {
  same_id = λ j. ground arith;
  same_pids = λ j n. ground (arith, has_pid-map resume n j.processes resume_pid);
}

pub set_waited_for-KeepsIdentity : KeepsIdentity set_waited_for
unfolding set_waited_for
set_waited_for-KeepsIdentity = record { same_id = λ j. refl; same_pids = λ j n. refl }

-- A place in the order of completion for a job of the table.
place-IsTable :
    (jid n next : ℕ) (t : JobTable)
    → has_id jid t.jobs ≡ true
    → IsTable t
    → IsTable (record t {
      completion_order = at_job jid (some n) t.completion_order;
      next_completion_order = next;
    })
place-IsTable jid n next t h v = record {
  distinct = v.distinct;
  pids_live = v.pids_live;
  current_live = v.current_live;
  previous_live = v.previous_live;
  order_live = λ i m e. elim (Bool-cases (jid == i)) [
    | inl same ↦ let q : jid ≡ i = ground arith in rw (← q) h
    | inr other ↦ v.order_live i m (rw other at e)
  ];
}

pub reset_again-IsTable : (t : JobTable) → IsTable t → IsTable (reset_current_previous t)
reset_again-IsTable t v = reset-IsTable t v.distinct v.pids_live v.order_live

completed-has_id :
    (jid : ℕ) (pid : ℤ) (status : ℕ) (t : JobTable)
    → completes_found pid status (get jid t) ≡ true
    → has_id jid t.jobs ≡ true
unfolding get
completed-has_id jid pid status t h = elim (Option-cases (get jid t)) [
  | inl e ↦ absurd (false≢true (rw e at h))
  | inr (j, e) ↦ find-has_id jid t.jobs e
]

mark_job_dead-IsTable :
    (w : WaitStatus) (pid : ℤ) (status : ℕ) (m : Option ℕ) (t : JobTable)
    → IsTable t
    → IsTable (mark_job_dead w pid status m t)
unfolding mark_job_dead
mark_job_dead-IsTable w pid status none t v = v
mark_job_dead-IsTable w pid status (some jid) t v =
    let k = bury_in-KeepsIdentity w pid status in
    let s = modify-IsTable jid (bury_in w pid status) t k v in
    elim (Bool-cases (completes_found pid status (get jid t))) [
      | inr going_on ↦ rw going_on s
      | inl complete ↦
          let here =
            has_id-modify (bury_in w pid status) k jid jid t.jobs
            ∙ completed-has_id jid pid status t complete in
          let r =
            place-IsTable jid t.next_completion_order ((t.next_completion_order + 1) % 2 ^ 64)
              (record t { jobs = modify jid (bury_in w pid status) t.jobs }) here s in
          elim (Bool-cases (is_marked t.current jid || is_marked t.previous jid)) [
            | inl marked ↦ rw (complete, marked) (reset_again-IsTable _ r)
            | inr unmarked ↦ rw (complete, unmarked) r
          ]
    ]

pub mark_dead-IsTable :
    (w : WaitStatus) (pid : ℤ) (status : ℕ) (t : JobTable)
    → IsTable t
    → IsTable (mark_dead w pid status t)
unfolding mark_dead
mark_dead-IsTable w pid status t v = mark_job_dead-IsTable w pid status (t.pid_to_job pid) t v

-- The new current job is one of the table.
mark_job_stopped-IsTable :
    (pid : ℤ) (sig : ℕ) (m : Option ℕ) (t : JobTable)
    → IsTable t
    → t.pid_to_job pid ≡ m
    → IsTable (mark_job_stopped pid sig m t)
unfolding mark_job_stopped
mark_job_stopped-IsTable pid sig none t v e = v
mark_job_stopped-IsTable pid sig (some jid) t v e =
    let k = stop_in-KeepsIdentity pid sig in
    let s = modify-IsTable jid (stop_in pid sig) t k v in
    let here =
      has_id-modify (stop_in pid sig) k jid jid t.jobs
      ∙ owns-has_id jid pid t.jobs (v.pids_live pid jid e) in
    elim (Bool-cases (is_marked t.current jid)) [
      | inl already ↦ rw already s
      | inr new_current ↦ rw new_current (record {
        distinct = s.distinct;
        pids_live = s.pids_live;
        current_live = λ n q. let p : jid ≡ n = cc in rw (← p) here;
        previous_live = s.current_live;
        order_live = s.order_live;
      })
    ]

pub mark_stopped-IsTable :
    (pid : ℤ) (sig : ℕ) (t : JobTable) → IsTable t → IsTable (mark_stopped pid sig t)
unfolding mark_stopped
mark_stopped-IsTable pid sig t v = mark_job_stopped-IsTable pid sig (t.pid_to_job pid) t v refl

pub mark_job_running-IsTable :
    (jid : ℕ) (t : JobTable) → IsTable t → IsTable (mark_job_running jid t)
unfolding mark_job_running
mark_job_running-IsTable jid t v = modify-IsTable jid resume_in t resume_in-KeepsIdentity v

pub mark_running-IsTable : (pid : ℤ) (t : JobTable) → IsTable t → IsTable (mark_running pid t)
unfolding mark_running
mark_running-IsTable pid t v = elim (Option-cases (t.pid_to_job pid)) [
  | inl e ↦ rw (e, mark_found_running) v
  | inr (jid, e) ↦ rw (e, mark_found_running) (mark_job_running-IsTable jid t v)
]
