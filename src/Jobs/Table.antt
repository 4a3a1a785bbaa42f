-- ===== src/Jobs/Table.antt =====
-- The operations of `JobTable` (crates/common/src/jobs.rs).
use cherubsh.Base.{
  ℕ, ◌+◌, ◌*◌, ◌%◌, ◌^◌, ℤ, ◌==ℤ◌, Bool, true, false, not, ◌&&◌, ◌||◌, Option, none, some, List, [],
  ◌∷◌, ◌++◌, ◌>>=◌, Text, any, all, find, map, get_last?, ◌==◌, if◌then◌else◌,
}
use cherubsh.Jobs.{
  Job, Process, running, stopped, done, state_eq, no_flags, JobTable, at_pid, at_job, WaitStatus,
  decode_status,
}
use cherubsh.Jobs.Markers.{allocate_id, reset_current_previous, is_done}

unfoldable pub get : ℕ → JobTable → Option Job
get id t = find (λ j. j.id == id) t.jobs

-- `get_mut`, and what is done with the job: the first of that number changes
unfoldable pub modify : ℕ → (Job → Job) → List Job → List Job
modify id f [] = []
modify id f (j ∷ jobs) = if j.id == id then f j ∷ jobs else j ∷ modify id f jobs

-- the loop of `add` over the processes
unfoldable pub register : ℕ → List Process → JobTable → JobTable
register id [] t = t
register id (p ∷ ps) t = register id ps (record t {
  waited_pids = at_pid p.pid false t.waited_pids;
  pid_to_job = at_pid p.pid (some id) t.pid_to_job;
})

abbrev pub new_job : ℕ → ℤ → ℤ → Text → Bool → Bool → List Process → Job
new_job id pgid leader_pid command_line async_flag job_control processes = record {
  id = id;
  pgid = pgid;
  leader_pid = leader_pid;
  state = running;
  flags = record no_flags {
    foreground = not async_flag;
    async = async_flag;
    jobcontrol = job_control;
  };
  processes = processes;
  command_line = command_line;
  notified = false;
  exit_status = none;
}

unfoldable pub add : ℤ → ℤ → Text → Bool → Bool → List Process → JobTable → Option (JobTable × ℕ)
unfolding register
add pgid leader_pid command_line async_flag job_control processes t = do
  id ← allocate_id t
  let r = register id processes t
  let job = new_job id pgid leader_pid command_line async_flag job_control processes
  some (record r { jobs = r.jobs ++ job ∷ []; previous = r.current; current = some id }, id)

-- the maps without the processes of a job, and without its place in the order of completion
unfoldable pub forget_pids : List Process → JobTable → JobTable
forget_pids [] t = t
forget_pids (p ∷ ps) t = forget_pids ps (record t {
  pid_to_job = at_pid p.pid none t.pid_to_job;
  waited_pids = at_pid p.pid false t.waited_pids;
})

unfoldable pub forget : Job → JobTable → JobTable
unfolding forget_pids
forget j t =
    let s = forget_pids j.processes t in
    record s { completion_order = at_job j.id none s.completion_order }

-- the jobs without the first of that number
unfoldable pub drop_first : ℕ → List Job → List Job
drop_first id [] = []
drop_first id (j ∷ jobs) = if j.id == id then jobs else j ∷ drop_first id jobs

unfoldable pub forget_found : Option Job → JobTable → JobTable
unfolding forget
forget_found none t = t
forget_found (some j) t = forget j t

unfoldable pub remove : ℕ → JobTable → JobTable
unfolding forget_found get drop_first
remove id t =
    reset_current_previous (forget_found (get id t) (record t { jobs = drop_first id t.jobs }))

unfoldable pub set_waited_for : Job → Job
set_waited_for j = record j { flags = record (j.flags) { waited_for = true } }

unfoldable pub all_waited : (ℤ → Bool) → Option Job → Bool
all_waited waited none = false
all_waited waited (some j) = all (λ p. waited p.pid) j.processes

unfoldable pub mark_job_waited : Option ℕ → JobTable → JobTable
unfolding all_waited set_waited_for
mark_job_waited none t = t
mark_job_waited (some id) t =
    if all_waited t.waited_pids (get id t)
    then record t { jobs = modify id set_waited_for t.jobs }
    else t

unfoldable pub mark_pid_waited : ℤ → JobTable → JobTable
unfolding mark_job_waited
mark_pid_waited pid t =
    let s = record t { waited_pids = at_pid pid true t.waited_pids } in
    mark_job_waited (s.pid_to_job pid) s

-- `current == Some(id)`
abbrev pub is_marked : Option ℕ → ℕ → Bool
is_marked none id = false
is_marked (some n) id = n == id

abbrev pub bury : ℤ → ℕ → Process → Process
bury pid status_raw p =
    if p.pid ==ℤ pid then record p { status_raw = status_raw; state = done } else p

abbrev pub last_status : List Process → ℕ
last_status ps = elim (get_last? ps) [ none ↦ 0 | some p ↦ p.status_raw ]

abbrev pub all_done : List Process → Bool
all_done ps = all (λ p. state_eq p.state done) ps

-- the job after the death of `pid`, and whether that completes it
abbrev pub completes : ℤ → ℕ → Job → Bool
completes pid status_raw j = not (is_done j) && all_done (map (bury pid status_raw) j.processes)

unfoldable pub bury_in : WaitStatus → ℤ → ℕ → Job → Job
bury_in w pid status_raw j =
    let ps = map (bury pid status_raw) j.processes in
    let s = record j { processes = ps } in
    if completes pid status_raw j
    then record s { state = done; exit_status = some (decode_status w (last_status ps)) }
    else s

abbrev pub completes_found : ℤ → ℕ → Option Job → Bool
completes_found pid status_raw none = false
completes_found pid status_raw (some j) = completes pid status_raw j

unfoldable pub mark_job_dead : WaitStatus → ℤ → ℕ → Option ℕ → JobTable → JobTable
unfolding bury_in
mark_job_dead w pid status_raw none t = t
mark_job_dead w pid status_raw (some jid) t =
    let s = record t { jobs = modify jid (bury_in w pid status_raw) t.jobs } in
    let r = record s {
      completion_order = at_job jid (some t.next_completion_order) t.completion_order;
      next_completion_order = (t.next_completion_order + 1) % 2 ^ 64;
    } in
    if completes_found pid status_raw (get jid t)
    then (if is_marked t.current jid || is_marked t.previous jid
        then reset_current_previous r
        else r)
    else s

unfoldable pub mark_dead : WaitStatus → ℤ → ℕ → JobTable → JobTable
unfolding mark_job_dead
mark_dead w pid status_raw t = mark_job_dead w pid status_raw (t.pid_to_job pid) t

-- `(stop_sig << 8) | 0x7f`: the shift leaves the low eight bits clear.
abbrev pub stop_word : ℕ → ℕ
stop_word stop_sig = (stop_sig * 256) % 2 ^ 32 + 0x7f

abbrev pub stop_in : ℤ → ℕ → Job → Job
stop_in pid stop_sig j = record j {
  processes =
      map
        (λ p.
          if p.pid ==ℤ pid
          then record p { state = stopped; status_raw = stop_word stop_sig }
          else p)
        j.processes;
  state = stopped;
}

unfoldable pub mark_job_stopped : ℤ → ℕ → Option ℕ → JobTable → JobTable
mark_job_stopped pid stop_sig none t = t
mark_job_stopped pid stop_sig (some jid) t =
    let s = record t { jobs = modify jid (stop_in pid stop_sig) t.jobs } in
    if is_marked s.current jid then s else record s { previous = s.current; current = some jid }

unfoldable pub mark_stopped : ℤ → ℕ → JobTable → JobTable
unfolding mark_job_stopped
mark_stopped pid stop_sig t = mark_job_stopped pid stop_sig (t.pid_to_job pid) t

abbrev pub resume : Process → Process
resume p = if state_eq p.state stopped then record p { state = running } else p

unfoldable pub resume_in : Job → Job
resume_in j =
    let ps = map resume j.processes in
    let s = record j { processes = ps } in
    if any (λ p. state_eq p.state running) ps
    then record s { state = running; notified = false }
    else s

unfoldable pub mark_job_running : ℕ → JobTable → JobTable
unfolding resume_in
mark_job_running jid t = record t { jobs = modify jid resume_in t.jobs }

abbrev pub mark_found_running : Option ℕ → JobTable → JobTable
mark_found_running none t = t
mark_found_running (some jid) t = mark_job_running jid t

unfoldable pub mark_running : ℤ → JobTable → JobTable
mark_running pid t = mark_found_running (t.pid_to_job pid) t
