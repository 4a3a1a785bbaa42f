-- ===== src/Jobs/Tests.antt =====
-- Runs of the job table, and the theorems at concrete inputs (crates/common/src/jobs.rs).
use cherubsh.Base.{
  any, keep, if◌then◌else◌, ◌++◌, ◌≡◌, refl, ℕ, ◌/◌, ◌%◌, ◌≤◌, ◌&&◌, not, true, false, some, [],
  ◌∷◌, arith, codes, leb, ◌==◌, pos, to_string,
}
use cherubsh.Jobs.{
  Job, JobState, done, Process, running, stopped, JobTable, new_table, WaitStatus, IsPosix,
}
use cherubsh.Jobs.Markers.{allocate_id, markers, last_two, is_done}
use cherubsh.Jobs.Valid.Resets.{ids, in_state, markers_lem}
use cherubsh.Jobs.Valid.Purges.{Told, pending_notifications_once}
use cherubsh.Jobs.Reap.{pending_notifications, purge_done}
use cherubsh.Jobs.Table.{new_job, add}
use cherubsh.Jobs.Ids.{LowestFree, allocate_id_lowest}
use cherubsh.Jobs.Spec.{
  parse, lookup, by_id, by_prefix, err, is_ambiguous, parse_id, lookup_shared_prefix,
}
use cherubsh.Jobs.Valid.{IsTable}
use cherubsh.Jobs.Valid.Members.{Adds, add-Adds, new_table-IsTable}
use cherubsh.Jobs.Valid.Runs.{Sound, run_table, run_new_table, add_job, reap_children, tell, purge}

-- The macros as glibc has them.
abbrev glibc : WaitStatus
glibc = record {
  exited = λ raw. raw % 128 == 0;
  signaled = λ raw. leb 1 (raw % 128) && leb (raw % 128) 126;
  is_stopped = λ raw. raw % 256 == 127;
  continued = λ raw. raw == 0xffff;
  exit_code = λ raw. raw / 256 % 256;
  term_signal = λ raw. raw % 128;
  stop_signal = λ raw. raw / 256 % 128;
}

glibc-IsPosix : IsPosix glibc
glibc-IsPosix = record {
  exit_code_byte = λ raw h. omega arith;
  term_signal_bits = λ raw h. omega arith;
  stop_signal_byte = λ raw h. omega arith;
}

abbrev process : ℕ → Process
process pid = record { pid = pos pid; status_raw = 0; state = running; command = codes "job" }

abbrev sleep_job : ℕ → ℕ → Job
sleep_job id pid = new_job id (pos pid) (pos pid) (codes "sleep 9") true true (process pid ∷ [])

run_new_table_example : Sound (
    run_table glibc
      (add_job (pos 201) (pos 201) (codes "sleep 9") true true (process 201 ∷ [])
        ∷ reap_children ((pos 201, 0x137f) ∷ (pos 201, 0) ∷ [])
        ∷ tell
        ∷ purge
        ∷ [])
      new_table)
run_new_table_example = run_new_table glibc (
    add_job (pos 201) (pos 201) (codes "sleep 9") true true (process 201 ∷ [])
    ∷ reap_children ((pos 201, 0x137f) ∷ (pos 201, 0) ∷ [])
    ∷ tell
    ∷ purge
    ∷ [])

abbrev two_jobs : JobTable
two_jobs = record new_table {
  jobs = sleep_job 1 201 ∷ sleep_job 3 203 ∷ [];
  current = some 3;
  previous = some 1;
}

allocate_id_lowest_example :
    (n : ℕ) × (allocate_id two_jobs ≡ some n) × LowestFree 1 two_jobs.jobs n × (n ≤ 3)
allocate_id_lowest_example = allocate_id_lowest two_jobs

add-Adds_example :
    Adds new_table
      (new_job 0 (pos 7) (pos 7) (codes "cat") false true (process 7 ∷ []))
      (add (pos 7) (pos 7) (codes "cat") false true (process 7 ∷ []) new_table)
add-Adds_example =
    add-Adds (pos 7) (pos 7) (codes "cat") false true (process 7 ∷ []) new_table new_table-IsTable

parse_id_example : parse (b'%' ∷ to_string 42) ≡ some (by_id 42)
parse_id_example = parse_id 42 (omega arith)

lookup_shared_prefix_example : lookup (by_prefix (codes "sl")) two_jobs ≡ err is_ambiguous
lookup_shared_prefix_example =
    lookup_shared_prefix (codes "sl") (codes "eep 9") (codes "eep 9") (sleep_job 1 201)
      (sleep_job 3 203) [] [] [] two_jobs refl refl refl

two_jobs-IsTable : IsTable two_jobs
two_jobs-IsTable = record {
  distinct = (refl, (refl, tt));
  pids_live = λ pid id e. cc;
  current_live = λ id e. ground arith;
  previous_live = λ id e. ground arith;
  order_live = λ id n e. cc;
}

markers_lem_example :
    markers two_jobs.jobs
    ≡ last_two (
        if any (λ j. not (is_done j)) two_jobs.jobs
        then ids (keep (in_state running) two_jobs.jobs)
          ++ ids (keep (in_state stopped) two_jobs.jobs)
        else ids (keep (λ j. not j.notified) two_jobs.jobs))
markers_lem_example = markers_lem two_jobs.jobs

abbrev with_state : JobState → Job → Job
with_state s j = record j { state = s }

-- a running job, a done one and a stopped one
abbrev three_jobs : JobTable
three_jobs = record new_table {
  jobs =
      sleep_job 1 201
      ∷ with_state done (sleep_job 2 205)
      ∷ with_state stopped (sleep_job 3 203)
      ∷ [];
  current = some 3;
  previous = some 1;
}

pending_notifications_once_example :
    let after = (pending_notifications three_jobs).0 in
    ((pending_notifications three_jobs).1
      ≡ with_state done (sleep_job 2 205) ∷ with_state stopped (sleep_job 3 203) ∷ [])
    × (after ≡ record three_jobs { jobs = after.jobs })
    × Told three_jobs.jobs after.jobs
    × ((pending_notifications after).1 ≡ [])
    × (any is_done (purge_done after).0.jobs ≡ false)
pending_notifications_once_example = pending_notifications_once three_jobs
