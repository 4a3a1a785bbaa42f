-- ===== src/Jobs/Markers.antt =====
-- The free job number and the current and previous markers (crates/common/src/jobs.rs).
use cherubsh.Base.{
  ℕ, zero, suc, ◌+◌, Bool, not, ◌&&◌, ◌||◌, Option, none, some, List, [], ◌∷◌, map, any, keep,
  length, ltb, ◌==◌, if◌then◌else◌,
}
use cherubsh.Jobs.{Job, stopped, done, state_eq, JobTable}

abbrev pub has_id : ℕ → List Job → Bool
has_id id jobs = any (λ j. j.id == id) jobs

-- The loop of `allocate_id`; `none` means that the fuel ran out.
unfoldable pub allocate_from : ℕ → List Job → ℕ → Option ℕ
allocate_from zero jobs id = none
allocate_from (suc fuel) jobs id =
    let later = allocate_from fuel jobs (id + 1) in if has_id id jobs then later else some id

unfoldable pub allocate_id : JobTable → Option ℕ
unfolding allocate_from
allocate_id t = allocate_from (suc (length t.jobs)) t.jobs 1

-- an entry of `candidates`
pub record Candidate : Type 0 where
  pub index : ℕ
  pub id : ℕ
  pub is_stopped : Bool

abbrev pub is_done : Job → Bool
is_done j = state_eq j.state done

-- `enumerate`, `filter` and `map` of `reset_current_previous`
unfoldable pub candidates_from : ℕ → List Job → List Candidate
candidates_from index [] = []
candidates_from index (j ∷ jobs) =
    let rest = candidates_from (index + 1) jobs in
    if is_done j
    then rest
    else record { index = index; id = j.id; is_stopped = state_eq j.state stopped } ∷ rest

-- the order of the keys `(stopped, index)`
abbrev pub key_lt : Candidate → Candidate → Bool
key_lt a b =
    if a.is_stopped
    then b.is_stopped && ltb a.index b.index
    else b.is_stopped || ltb a.index b.index

-- `sort_by_key`, which keeps the order of equal keys
unfoldable pub insert_candidate : Candidate → List Candidate → List Candidate
insert_candidate c [] = c ∷ []
insert_candidate c (d ∷ ds) = if key_lt d c then d ∷ insert_candidate c ds else c ∷ d ∷ ds

unfoldable pub sort_candidates : List Candidate → List Candidate
unfolding insert_candidate
sort_candidates [] = []
sort_candidates (c ∷ cs) = insert_candidate c (sort_candidates cs)

-- `pop` twice: the last, and the one before it
abbrev pub last_two : List ℕ → Option ℕ × Option ℕ
last_two [] = (none, none)
last_two (x ∷ []) = (some x, none)
last_two (x ∷ y ∷ []) = (some y, some x)
last_two (x ∷ y ∷ z ∷ xs) = last_two (y ∷ z ∷ xs)

unfoldable pub markers : List Job → Option ℕ × Option ℕ
unfolding candidates_from sort_candidates
markers jobs =
    let candidates = candidates_from 0 jobs in
    if length candidates == 0
    then last_two (map (λ j. j.id) (keep (λ j. not j.notified) jobs))
    else last_two (map (λ c. c.id) (sort_candidates candidates))

unfoldable pub reset_current_previous : JobTable → JobTable
unfolding markers
reset_current_previous t = let m = markers t.jobs in record t { current = m.0; previous = m.1 }
