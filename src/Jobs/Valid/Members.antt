-- ===== src/Jobs/Valid/Members.antt =====
-- Adding, removing and purging jobs keeps the job table valid (crates/common/src/jobs.rs).
use cherubsh.Base.{
  ◌≡◌, refl, ◌∙◌, sym, ap, ℕ, inl, inr, ℤ, Bool, false, Option, none, some, List, [], ◌∷◌, ◌++◌,
  find, ◌==◌, arith, Option-cases, if◌then◌else◌, Text,
}
use cherubsh.Jobs.{Job, Process, JobTable, at_pid, new_table}
use cherubsh.Jobs.Markers.{has_id, reset_current_previous}
use cherubsh.Jobs.Ids.{allocate_id_lowest}
use cherubsh.Jobs.Table.{register, new_job, add, forget_pids, forget, drop_first, remove}
use cherubsh.Jobs.Valid.{has_pid, IsTable}
use cherubsh.Jobs.Valid.Lists.{
  has_id-append, owns-append, DistinctIds-append, drop_first-none, has_id-drop_first,
  owns-drop_first, DistinctIds-drop_first,
}
use cherubsh.Jobs.Valid.Steps.{reset-IsTable, reset_again-IsTable}

pub new_table-IsTable : IsTable new_table
new_table-IsTable = record {
  distinct = tt;
  pids_live = λ pid id e. cc;
  current_live = λ id e. cc;
  previous_live = λ id e. cc;
  order_live = λ id n e. cc;
}

-- What `register` leaves alone, and what it writes.
register_same :
    (id : ℕ) (ps : List Process) (t : JobTable)
    → ((register id ps t).jobs ≡ t.jobs)
      × ((register id ps t).current ≡ t.current)
      × ((register id ps t).completion_order ≡ t.completion_order)
unfolding register
register_same id [] t = (refl, refl, refl)
register_same id (p ∷ ps) t = register_same id ps (record t {
  waited_pids = at_pid p.pid false t.waited_pids;
  pid_to_job = at_pid p.pid (some id) t.pid_to_job;
})

register_pids :
    (id : ℕ) (ps : List Process) (t : JobTable) (pid : ℤ)
    → (register id ps t).pid_to_job pid ≡ (if has_pid pid ps then some id else t.pid_to_job pid)
unfolding register
register_pids id [] t pid = refl
register_pids id (p ∷ ps) t pid = ground (
  arith,
  register_pids id ps
      (record t {
        waited_pids = at_pid p.pid false t.waited_pids;
        pid_to_job = at_pid p.pid (some id) t.pid_to_job;
      })
      pid,
)

forget_pids_same :
    (ps : List Process) (t : JobTable)
    → ((forget_pids ps t).jobs ≡ t.jobs)
      × ((forget_pids ps t).completion_order ≡ t.completion_order)
unfolding forget_pids
forget_pids_same [] t = (refl, refl)
forget_pids_same (p ∷ ps) t = forget_pids_same ps (record t {
  pid_to_job = at_pid p.pid none t.pid_to_job;
  waited_pids = at_pid p.pid false t.waited_pids;
})

forget_pids_lem :
    (ps : List Process) (t : JobTable) (pid : ℤ)
    → (forget_pids ps t).pid_to_job pid ≡ (if has_pid pid ps then none else t.pid_to_job pid)
unfolding forget_pids
forget_pids_lem [] t pid = refl
forget_pids_lem (p ∷ ps) t pid = ground (
  arith,
  forget_pids_lem ps
      (record t {
        pid_to_job = at_pid p.pid none t.pid_to_job;
        waited_pids = at_pid p.pid false t.waited_pids;
      })
      pid,
)

-- After a job is forgotten, what is left in the maps was there, and is not the job's.
pub forget_pid :
    (j : Job) (t : JobTable) (pid : ℤ) (id : ℕ)
    → (forget j t).pid_to_job pid ≡ some id
    → (t.pid_to_job pid ≡ some id) × (has_pid pid j.processes ≡ false)
unfolding forget
forget_pid j t pid id e = ground (arith, forget_pids_lem j.processes t pid)

pub forget_order :
    (j : Job) (t : JobTable) (id n : ℕ)
    → (forget j t).completion_order id ≡ some n
    → (t.completion_order id ≡ some n) × ((j.id == id) ≡ false)
unfolding forget
forget_order j t id n e =
    ground (arith, ap (λ (m : ℕ → Option ℕ). m id) (forget_pids_same j.processes t).1)

pub forget_jobs : (j : Job) (t : JobTable) → (forget j t).jobs ≡ t.jobs
unfolding forget
forget_jobs j t = (forget_pids_same j.processes t).0

-- The job that `add` appends has a number that was free, and takes the current marker; the table
-- stays valid.
abbrev pub Adds : JobTable → Job → Option (JobTable × ℕ) → Type 0
Adds t job none = ⊥
Adds t job (some (t', id)) =
    IsTable t'
    × (has_id id t.jobs ≡ false)
    × (t'.jobs ≡ t.jobs ++ (record job { id = id } ∷ []))
    × (t'.current ≡ some id)
    × (t'.previous ≡ t.current)

appended-IsTable :
    (id : ℕ) (job : Job) (t : JobTable)
    → job.id ≡ id
    → has_id id t.jobs ≡ false
    → IsTable t
    → IsTable (record (register id job.processes t) {
      jobs = t.jobs ++ (job ∷ []);
      previous = t.current;
      current = some id;
    })
appended-IsTable id job t q free v =
    let (_, _, order) = register_same id job.processes t in
    let r = register id job.processes t in
    record {
      distinct = DistinctIds-append t.jobs job v.distinct (rw q free);
      pids_live = λ pid n e. ground (
        arith,
        register_pids id job.processes t pid,
        owns-append n pid t.jobs (job ∷ []),
        v.pids_live pid n,
      );
      current_live = λ n e. ground (arith, has_id-append n t.jobs (job ∷ []));
      previous_live = λ n e. ground (arith, has_id-append n t.jobs (job ∷ []), v.current_live n e);
      order_live = λ n m e. ground (
        arith,
        has_id-append n t.jobs (job ∷ []),
        v.order_live n m (ap (λ (o : ℕ → Option ℕ). o n) (sym order) ∙ e),
      );
    }

-- `add` always finds a number; what it appends is a new running job.
pub add-Adds :
    (pgid leader_pid : ℤ) (command_line : Text) (async_flag job_control : Bool)
    (processes : List Process) (t : JobTable)
    → IsTable t
    → Adds t
        (new_job 0 pgid leader_pid command_line async_flag job_control processes)
        (add pgid leader_pid command_line async_flag job_control processes t)
unfolding add
add-Adds pgid leader_pid command_line async_flag job_control processes t v =
    let (id, e, (free, _, _), _) = allocate_id_lowest t in
    let (jobs, current, _) = register_same id processes t in
    let job = new_job id pgid leader_pid command_line async_flag job_control processes in
    rw (e, jobs, current) (appended-IsTable id job t refl free v, free, refl, refl, refl)

-- A job that goes takes with it what the maps say of it.
removed-IsTable :
    (id : ℕ) (j : Job) (t : JobTable)
    → find (λ j. j.id == id) t.jobs ≡ some j
    → IsTable t
    → IsTable (reset_current_previous (forget j (record t { jobs = drop_first id t.jobs })))
removed-IsTable id j t e v =
    let s = record t { jobs = drop_first id t.jobs } in
    let same = forget_jobs j s in
    reset-IsTable (forget j s) (rw same (DistinctIds-drop_first id t.jobs v.distinct))
      (λ pid n f. rw same (
        ground
          (arith, forget_pid j s pid n f, v.pids_live pid n, owns-drop_first id n pid t.jobs e)))
      (λ n m f.
        rw same (
          ground
            (arith, forget_order j s n m f, v.order_live n m, has_id-drop_first id n t.jobs e)))

pub remove-IsTable : (id : ℕ) (t : JobTable) → IsTable t → IsTable (remove id t)
unfolding remove
remove-IsTable id t v = elim (Option-cases (find (λ j. j.id == id) t.jobs)) [
  | inl absent ↦ rw (absent, drop_first-none id t.jobs absent) (reset_again-IsTable t v)
  | inr (j, e) ↦ rw e (removed-IsTable id j t e v)
]
