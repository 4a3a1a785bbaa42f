-- ===== src/Jobs.antt =====
-- The data of the job table (crates/common/src/jobs.rs): jobs, processes and flags, the maps from
-- process ids, and the status word of `waitpid`, whose macros belong to libc.
pub mod Markers
pub mod Table
pub mod Reap
pub mod Spec
pub mod Ids
pub mod Valid
pub mod Tests
use cherubsh.Base.{
  ℕ, ◌+◌, ◌*◌, ◌%◌, ◌^◌, ◌≤◌, ◌≡◌, ℤ, ◌==ℤ◌, Bool, true, false, Option, none, some, List, [], Text,
  if◌then◌else◌, ◌==◌, arith,
}

-- `JobId` is its number.
pub data JobState : Type 0 where
  running stopped done : JobState

abbrev pub state_eq : JobState → JobState → Bool
state_eq running running = true
state_eq stopped stopped = true
state_eq done done = true
state_eq _ _ = false

-- the bits of `JobFlags`
pub record JobFlags : Type 0 where
  pub foreground : Bool
  pub async : Bool
  pub notified_flag : Bool
  pub waited_for : Bool
  pub nohup : Bool
  pub run_and_discard : Bool
  pub jobcontrol : Bool

abbrev pub no_flags : JobFlags
no_flags = record {
  foreground = false;
  async = false;
  notified_flag = false;
  waited_for = false;
  nohup = false;
  run_and_discard = false;
  jobcontrol = false;
}

-- The status is an i32, kept as its bit pattern.
pub record Process : Type 0 where
  pub pid : ℤ
  pub status_raw : ℕ
  pub state : JobState
  pub command : Text

pub record Job : Type 0 where
  pub id : ℕ
  pub pgid : ℤ
  pub leader_pid : ℤ
  pub state : JobState
  pub flags : JobFlags
  pub processes : List Process
  pub command_line : Text
  pub notified : Bool
  pub exit_status : Option ℕ

-- The hash maps and the hash set are functions, changed at one key at a time.
pub record JobTable : Type 0 where
  pub jobs : List Job
  pub current : Option ℕ
  pub previous : Option ℕ
  pub pid_to_job : ℤ → Option ℕ
  pub waited_pids : ℤ → Bool
  pub completion_order : ℕ → Option ℕ
  pub next_completion_order : ℕ

abbrev pub new_table : JobTable
new_table = record {
  jobs = [];
  current = none;
  previous = none;
  pid_to_job = λ _. none;
  waited_pids = λ _. false;
  completion_order = λ _. none;
  next_completion_order = 0;
}

module _ {ℓ} {V : Type ℓ} where
  -- the map `m` with `v` at the process id `k`
  abbrev pub at_pid : ℤ → V → (ℤ → V) → ℤ → V
  at_pid k v m j = if k ==ℤ j then v else m j

  abbrev pub at_job : ℕ → V → (ℕ → V) → ℕ → V
  at_job k v m j = if k == j then v else m j

-- The macros of libc on a status word.
pub record WaitStatus : Type 0 where
  pub exited : ℕ → Bool
  pub signaled : ℕ → Bool
  pub is_stopped : ℕ → Bool
  pub continued : ℕ → Bool
  pub exit_code : ℕ → ℕ
  pub term_signal : ℕ → ℕ
  pub stop_signal : ℕ → ℕ

-- What POSIX says of the values: an exit code is a byte, and a signal that ends a process takes
-- seven bits.
pub record IsPosix (w : WaitStatus) : Type 0 where
  pub exit_code_byte : (raw : ℕ) → w.exited raw ≡ true → w.exit_code raw ≤ 255
  pub term_signal_bits : (raw : ℕ) → w.signaled raw ≡ true → w.term_signal raw ≤ 127
  pub stop_signal_byte : (raw : ℕ) → w.is_stopped raw ≡ true → w.stop_signal raw ≤ 127

unfoldable pub decode_status : WaitStatus → ℕ → ℕ
decode_status w raw =
    if w.exited raw
    then w.exit_code raw
    else if w.signaled raw
    then 128 + w.term_signal raw
    else if w.is_stopped raw
    then 128 + w.stop_signal raw
    else 1
