-- ===== src/Jobs/Valid/Runs.antt =====
-- The job table under any sequence of operations and of reaped children
-- (crates/common/src/jobs.rs).
use cherubsh.Base.{
  ℕ, inl, inr, ℤ, Bool, true, Option, none, some, List, [], ◌∷◌, ◌>>=◌, arith, Bool-cases, Text,
}
use cherubsh.Jobs.{Job, Process, JobTable, WaitStatus, at_pid, new_table}
use cherubsh.Jobs.Table.{
  get, new_job, add, remove, mark_pid_waited, mark_job_waited, all_waited, set_waited_for,
  mark_job_running,
}
use cherubsh.Jobs.Reap.{purge_done, pending_notifications, reap, reap_all}
use cherubsh.Jobs.Valid.{IsTable}
use cherubsh.Jobs.Valid.Steps.{
  modify-IsTable, set_waited_for-KeepsIdentity, mark_dead-IsTable, mark_stopped-IsTable,
  mark_running-IsTable, mark_job_running-IsTable,
}
use cherubsh.Jobs.Valid.Members.{Adds, add-Adds, remove-IsTable, new_table-IsTable}
use cherubsh.Jobs.Valid.Purges.{purge_done-IsTable, pending_notifications-IsTable}

mark_job_waited-IsTable : (m : Option ℕ) (t : JobTable) → IsTable t → IsTable (mark_job_waited m t)
unfolding mark_job_waited
mark_job_waited-IsTable none t v = v
mark_job_waited-IsTable (some id) t v = elim (Bool-cases (all_waited t.waited_pids (get id t))) [
  | inl all ↦ rw all (modify-IsTable id set_waited_for t set_waited_for-KeepsIdentity v)
  | inr some_left ↦ rw some_left v
]

pub mark_pid_waited-IsTable : (pid : ℤ) (t : JobTable) → IsTable t → IsTable (mark_pid_waited pid t)
unfolding mark_pid_waited
mark_pid_waited-IsTable pid t v =
    mark_job_waited-IsTable (t.pid_to_job pid)
      (record t { waited_pids = at_pid pid true t.waited_pids })
      (record {
        distinct = v.distinct;
        pids_live = v.pids_live;
        current_live = v.current_live;
        previous_live = v.previous_live;
        order_live = v.order_live;
      })

pub data TableOperation : Type 0 where
  add_job : ℤ → ℤ → Text → Bool → Bool → List Process → TableOperation
  remove_job resume_job : ℕ → TableOperation
  wait_for : ℤ → TableOperation
  purge tell : TableOperation
  reap_children : List (ℤ × ℕ) → TableOperation

abbrev pub table_of : Option (JobTable × ℕ) → Option JobTable
table_of none = none
table_of (some (t, id)) = some t

abbrev pub Sound : Option JobTable → Type 0
Sound none = ⊥
Sound (some t) = IsTable t

Adds-Sound : (t : JobTable) (j : Job) (m : Option (JobTable × ℕ)) → Adds t j m → Sound (table_of m)
Adds-Sound t j none h = h
Adds-Sound t j (some (t', id)) (v, _, _, _, _) = v

module _ (w : WaitStatus) where
  reap-IsTable : (pid : ℤ) (status : ℕ) (t : JobTable) → IsTable t → IsTable (reap w pid status t)
  unfolding reap
  reap-IsTable pid status t v = ground (
    arith,
    mark_dead-IsTable w pid status t v,
    mark_stopped-IsTable pid (w.stop_signal status) t v,
    mark_running-IsTable pid t v,
  )

  pub reap_all-IsTable :
      (events : List (ℤ × ℕ)) (t : JobTable) → IsTable t → IsTable (reap_all w events t).0
  unfolding reap_all
  reap_all-IsTable [] t v = v
  reap_all-IsTable ((pid, status) ∷ events) t v =
      reap_all-IsTable events (reap w pid status t) (reap-IsTable pid status t v)

  unfoldable pub perform : TableOperation → JobTable → Option JobTable
  perform (add_job pgid leader line async control ps) t =
      table_of (add pgid leader line async control ps t)
  perform (remove_job id) t = some (remove id t)
  perform (resume_job id) t = some (mark_job_running id t)
  perform (wait_for pid) t = some (mark_pid_waited pid t)
  perform purge t = some (purge_done t).0
  perform tell t = some (pending_notifications t).0
  perform (reap_children events) t = some (reap_all w events t).0

  perform-Sound : (op : TableOperation) (t : JobTable) → IsTable t → Sound (perform op t)
  unfolding perform
  perform-Sound (add_job pgid leader line async control ps) t v =
      Adds-Sound t (new_job 0 pgid leader line async control ps)
        (add pgid leader line async control ps t) (add-Adds pgid leader line async control ps t v)
  perform-Sound (remove_job id) t v = remove-IsTable id t v
  perform-Sound (resume_job id) t v = mark_job_running-IsTable id t v
  perform-Sound (wait_for pid) t v = mark_pid_waited-IsTable pid t v
  perform-Sound purge t v = purge_done-IsTable t v
  perform-Sound tell t v = pending_notifications-IsTable t v
  perform-Sound (reap_children events) t v = reap_all-IsTable events t v

  unfoldable pub run_table : List TableOperation → JobTable → Option JobTable
  run_table [] t = some t
  run_table (op ∷ ops) t = do s ← perform op t; run_table ops s

  run_after :
      (ops : List TableOperation) (m : Option JobTable)
      → Sound m
      → ((t : JobTable) → IsTable t → Sound (run_table ops t))
      → Sound (m >>= run_table ops)
  run_after ops none h k = h
  run_after ops (some t) h k = k t h

  run_table-Sound : (ops : List TableOperation) (t : JobTable) → IsTable t → Sound (run_table ops t)
  unfolding run_table
  run_table-Sound [] t v = v
  run_table-Sound (op ∷ ops) t v =
      run_after ops (perform op t) (perform-Sound op t v) (run_table-Sound ops)

  -- From the empty table on, any sequence of operations and of reaped children runs to its end,
  -- and keeps the table valid: the job numbers are distinct, every known process id leads to a job
  -- that has the process, and the markers and the order of completion name jobs of the table.
  pub run_new_table : (ops : List TableOperation) → Sound (run_table ops new_table)
  run_new_table ops = run_table-Sound ops new_table new_table-IsTable
