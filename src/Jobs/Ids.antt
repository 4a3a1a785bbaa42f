-- ===== src/Jobs/Ids.antt =====
-- `allocate_id` finds the lowest free job number, and never needs more rounds than there are jobs
-- (crates/common/src/jobs.rs).
use cherubsh.Base.{
  ◌≡◌, ℕ, zero, suc, ◌+◌, ◌≤◌, ◌<◌, inl, inr, true, false, some, List, [], ◌∷◌, arith, length, ◌==◌,
  leb, if◌then◌else◌, Bool-cases,
}
use cherubsh.Jobs.{Job, JobTable}
use cherubsh.Jobs.Markers.{has_id, allocate_from, allocate_id}

-- how many jobs have a number from `id` on, and how many have it exactly
count_from : ℕ → List Job → ℕ
count_from id [] = 0
count_from id (j ∷ jobs) = (if leb id j.id then 1 else 0) + count_from id jobs

count_id : ℕ → List Job → ℕ
count_id id [] = 0
count_id id (j ∷ jobs) = (if j.id == id then 1 else 0) + count_id id jobs

count_from-split :
    (id : ℕ) (jobs : List Job) → count_from (id + 1) jobs + count_id id jobs ≡ count_from id jobs
unfolding count_from count_id
count_from-split id [] = omega arith
count_from-split id (j ∷ jobs) = ground (arith, count_from-split id jobs)

count_id_pos : (id : ℕ) (jobs : List Job) → has_id id jobs ≡ true → 0 < count_id id jobs
unfolding count_id
count_id_pos id [] h = cc
count_id_pos id (j ∷ jobs) h = ground (arith, count_id_pos id jobs)

count_from-le : (id : ℕ) (jobs : List Job) → count_from id jobs ≤ length jobs
unfolding count_from
count_from-le id [] = omega arith
count_from-le id (j ∷ jobs) = ground (arith, count_from-le id jobs)

-- The lowest free number from `id` on.
abbrev pub LowestFree : ℕ → List Job → ℕ → Type 0
LowestFree id jobs n =
    (has_id n jobs ≡ false) × (id ≤ n) × ((k : ℕ) → id ≤ k → k < n → has_id k jobs ≡ true)

next_or_later :
    (id k : ℕ) (jobs : List Job)
    → has_id id jobs ≡ true
    → id ≤ k
    → (id + 1 ≤ k → has_id k jobs ≡ true)
    → has_id k jobs ≡ true
next_or_later id k jobs used a later = elim (Bool-cases (id == k)) [
  | inl same ↦ let e : k ≡ id = ground arith in rw e used
  | inr apart ↦ later (ground arith)
]

allocate_from_total :
    (fuel : ℕ) (jobs : List Job) (id : ℕ)
    → count_from id jobs < fuel
    → (n : ℕ) × (allocate_from fuel jobs id ≡ some n)
      × LowestFree id jobs n
      × (n ≤ id + count_from id jobs)
unfolding allocate_from
allocate_from_total zero jobs id h = absurd (omega arith)
allocate_from_total (suc fuel) jobs id h = elim (Bool-cases (has_id id jobs)) [
  | inr free ↦ (id, rw free, (free, omega arith, λ k a b. absurd (omega arith)), omega arith)
  | inl used ↦
      let split = count_from-split id jobs in
      let some_id = count_id_pos id jobs used in
      let (n, e, (free, le, below), bound) = allocate_from_total fuel jobs (id + 1) (omega arith) in
      (
        n,
        rw (used, e),
        (free, omega arith, λ k a b. next_or_later id k jobs used a (λ later. below k later b)),
        omega arith,
      )
]

-- The loop of `allocate_id` ends, with the lowest number from 1 on that no job has, at most one
-- more than there are jobs.
pub allocate_id_lowest :
    (t : JobTable)
    → (n : ℕ) × (allocate_id t ≡ some n) × LowestFree 1 t.jobs n × (n ≤ length t.jobs + 1)
unfolding allocate_id
allocate_id_lowest t =
    let le = count_from-le 1 t.jobs in
    let (n, e, lowest, bound) = allocate_from_total (suc (length t.jobs)) t.jobs 1 (omega arith) in
    (n, e, lowest, omega arith)
