-- ===== src/Jobs/Valid.antt =====
-- The invariant of the job table, and that its operations keep it (crates/common/src/jobs.rs).
pub mod Lists
pub mod Resets
pub mod Marked
pub mod Steps
pub mod Members
pub mod Purges
pub mod Runs
use cherubsh.Base.{
  ◌≡◌, ℕ, zero, suc, ◌≤◌, ℤ, ◌==ℤ◌, Bool, true, false, ◌&&◌, ◌||◌, Option, none, some, List, [],
  ◌∷◌, any, ◌==◌,
}
use cherubsh.Jobs.{Job, Process, JobTable}
use cherubsh.Jobs.Markers.{has_id}

abbrev pub has_pid : ℤ → List Process → Bool
has_pid pid ps = any (λ p. p.pid ==ℤ pid) ps

-- Some job of that number has the process.
abbrev pub owns : ℕ → ℤ → List Job → Bool
owns id pid jobs = any (λ j. j.id == id && has_pid pid j.processes) jobs

-- No two jobs share a number.
abbrev pub DistinctIds : List Job → Type 0
DistinctIds [] = Unit
DistinctIds (j ∷ jobs) = (has_id j.id jobs ≡ false) × DistinctIds jobs

abbrev pub Marks : Option ℕ → List Job → Type 0
Marks m jobs = (id : ℕ) → m ≡ some id → has_id id jobs ≡ true

pub record IsTable (t : JobTable) : Type 0 where
  pub distinct : DistinctIds t.jobs
  -- A process id leads to a job that has the process.
  pub pids_live : (pid : ℤ) (id : ℕ) → t.pid_to_job pid ≡ some id → owns id pid t.jobs ≡ true
  -- The markers stand at jobs of the table.
  pub current_live : Marks t.current t.jobs
  pub previous_live : Marks t.previous t.jobs
  -- Only jobs of the table have a place in the order of completion.
  pub order_live : (id n : ℕ) → t.completion_order id ≡ some n → has_id id t.jobs ≡ true
