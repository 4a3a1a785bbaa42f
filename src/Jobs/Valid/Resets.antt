-- ===== src/Jobs/Valid/Resets.antt =====
-- Which jobs `reset_current_previous` marks (crates/common/src/jobs.rs).
use cherubsh.Base.{
  ◌≡◌, refl, ap, ℕ, ◌≤◌, ◌<◌, ◌+◌, inl, inr, Bool, true, false, not, List, [], ◌∷◌, ◌++◌, any, keep,
  map, length, ◌==◌, arith, Bool-cases, if◌then◌else◌, map-append,
}
use cherubsh.Jobs.{Job, JobState, running, stopped, state_eq}
use cherubsh.Jobs.Markers.{
  Candidate, is_done, candidates_from, key_lt, insert_candidate, sort_candidates, last_two, markers,
}

abbrev candidate : ℕ → Job → Candidate
candidate index j = record { index = index; id = j.id; is_stopped = state_eq j.state stopped }

-- the candidates that run, and those that are stopped
running_from : ℕ → List Job → List Candidate
running_from index [] = []
running_from index (j ∷ jobs) =
    let rest = running_from (index + 1) jobs in
    if state_eq j.state running then candidate index j ∷ rest else rest

stopped_from : ℕ → List Job → List Candidate
stopped_from index [] = []
stopped_from index (j ∷ jobs) =
    let rest = stopped_from (index + 1) jobs in
    if state_eq j.state stopped then candidate index j ∷ rest else rest

-- All stopped or all not, and none before `index`.
abbrev AllAre : Bool → ℕ → List Candidate → Type 0
AllAre flag index [] = Unit
AllAre flag index (c ∷ cs) = (c.is_stopped ≡ flag) × (index ≤ c.index) × AllAre flag index cs

AllAre-earlier :
    (flag : Bool) (i k : ℕ) (cs : List Candidate) → i ≤ k → AllAre flag k cs → AllAre flag i cs
AllAre-earlier flag i k [] h a = tt
AllAre-earlier flag i k (c ∷ cs) h (p, q, a) = (p, omega arith, AllAre-earlier flag i k cs h a)

running_from-AllAre : (index : ℕ) (jobs : List Job) → AllAre false index (running_from index jobs)
unfolding running_from
running_from-AllAre index [] = tt
running_from-AllAre index (j ∷ jobs) = ground (
  arith,
  AllAre-earlier false index (index + 1) (running_from (index + 1) jobs),
  running_from-AllAre (index + 1) jobs,
)

stopped_from-AllAre : (index : ℕ) (jobs : List Job) → AllAre true index (stopped_from index jobs)
unfolding stopped_from
stopped_from-AllAre index [] = tt
stopped_from-AllAre index (j ∷ jobs) = ground (
  arith,
  AllAre-earlier true index (index + 1) (stopped_from (index + 1) jobs),
  stopped_from-AllAre (index + 1) jobs,
)

insert_running :
    (c : Candidate) (k : ℕ) (xs ys : List Candidate)
    → c.is_stopped ≡ false
    → c.index < k
    → AllAre false k xs
    → AllAre true k ys
    → insert_candidate c (xs ++ ys) ≡ c ∷ (xs ++ ys)
unfolding insert_candidate
insert_running c k [] [] f h a b = refl
insert_running c k [] (y ∷ ys) f h a b = ground arith
insert_running c k (x ∷ xs) ys f h a b = ground arith

insert_stopped :
    (c : Candidate) (k : ℕ) (xs ys : List Candidate)
    → c.is_stopped ≡ true
    → c.index < k
    → AllAre false k xs
    → AllAre true k ys
    → insert_candidate c (xs ++ ys) ≡ xs ++ (c ∷ ys)
unfolding insert_candidate
insert_stopped c k [] [] f h a b = refl
insert_stopped c k [] (y ∷ ys) f h a b = ground arith
insert_stopped c k (x ∷ xs) ys f h (p, q, a) b =
    let passes : key_lt x c ≡ true = ground arith in
    rw passes (ap (x ∷◌) (insert_stopped c k xs ys f h a b))

-- The sort puts the running jobs first, and keeps the order of the table among each kind.
sort_candidates_lem :
    (index : ℕ) (jobs : List Job)
    → sort_candidates (candidates_from index jobs)
      ≡ running_from index jobs ++ stopped_from index jobs
unfolding sort_candidates candidates_from running_from stopped_from
sort_candidates_lem index [] = refl
sort_candidates_lem index (j ∷ jobs) =
    let ih = sort_candidates_lem (index + 1) jobs in
    let a = running_from-AllAre (index + 1) jobs in
    let b = stopped_from-AllAre (index + 1) jobs in
    ground (
      arith,
      ih,
      insert_running (candidate index j) (index + 1) (running_from (index + 1) jobs)
          (stopped_from (index + 1) jobs),
      insert_stopped (candidate index j) (index + 1) (running_from (index + 1) jobs)
          (stopped_from (index + 1) jobs),
    )

abbrev pub ids : List Job → List ℕ
ids = map (λ j. j.id)

abbrev pub in_state : JobState → Job → Bool
in_state s j = state_eq j.state s

ids-running_from :
    (index : ℕ) (jobs : List Job)
    → map (λ c. c.id) (running_from index jobs) ≡ ids (keep (in_state running) jobs)
unfolding running_from
ids-running_from index [] = refl
ids-running_from index (j ∷ jobs) = ground (arith, ids-running_from (index + 1) jobs)

ids-stopped_from :
    (index : ℕ) (jobs : List Job)
    → map (λ c. c.id) (stopped_from index jobs) ≡ ids (keep (in_state stopped) jobs)
unfolding stopped_from
ids-stopped_from index [] = refl
ids-stopped_from index (j ∷ jobs) = ground (arith, ids-stopped_from (index + 1) jobs)

candidates_from_empty :
    (index : ℕ) (jobs : List Job)
    → (length (candidates_from index jobs) == 0) ≡ not (any (λ j. not (is_done j)) jobs)
unfolding candidates_from
candidates_from_empty index [] = refl
candidates_from_empty index (j ∷ jobs) = ground (arith, candidates_from_empty (index + 1) jobs)

-- The markers go to the last two of the jobs that count: where some job is not done, of the running
-- jobs followed by the stopped ones, each in the order of the table; otherwise of the done jobs of
-- which the user has not been told.
pub markers_lem :
    (jobs : List Job)
    → markers jobs
      ≡ last_two (
          if any (λ j. not (is_done j)) jobs
          then ids (keep (in_state running) jobs) ++ ids (keep (in_state stopped) jobs)
          else ids (keep (λ j. not j.notified) jobs))
unfolding markers
markers_lem jobs = elim (Bool-cases (any (λ j. not (is_done j)) jobs)) [
  | inl live ↦ rw (
    candidates_from_empty 0 jobs,
    live,
    sort_candidates_lem 0 jobs,
    map-append,
    ids-running_from 0 jobs,
    ids-stopped_from 0 jobs,
  )
  | inr dead ↦ rw (candidates_from_empty 0 jobs, dead)
]
