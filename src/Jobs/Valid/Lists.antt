-- ===== src/Jobs/Valid/Lists.antt =====
-- Job numbers and owners under the changes that the table makes to its list of jobs
-- (crates/common/src/jobs.rs).
use cherubsh.Base.{
  ◌≡◌, refl, ℕ, ℤ, Bool, true, false, not, ◌&&◌, ◌||◌, none, some, List, [], ◌∷◌, ◌++◌, keep, find,
  ◌==◌, arith,
}
use cherubsh.Jobs.{Job}
use cherubsh.Jobs.Markers.{has_id}
use cherubsh.Jobs.Table.{modify, drop_first}
use cherubsh.Jobs.Valid.{has_pid, owns, DistinctIds}

pub owns-has_id :
    (id : ℕ) (pid : ℤ) (jobs : List Job) → owns id pid jobs ≡ true → has_id id jobs ≡ true
owns-has_id id pid [] h = cc
owns-has_id id pid (j ∷ jobs) h = ground (arith, owns-has_id id pid jobs)

-- A change of one job that keeps its number and its processes.
pub record KeepsIdentity (f : Job → Job) : Type 0 where
  pub same_id : (j : Job) → (f j).id ≡ j.id
  pub same_pids : (j : Job) (pid : ℤ) → has_pid pid (f j).processes ≡ has_pid pid j.processes

module _ (f : Job → Job) (k : KeepsIdentity f) where
  pub has_id-modify : (id n : ℕ) (jobs : List Job) → has_id n (modify id f jobs) ≡ has_id n jobs
  unfolding modify
  has_id-modify id n [] = refl
  has_id-modify id n (j ∷ jobs) = ground (arith, has_id-modify id n jobs, k.same_id j)

  pub owns-modify :
      (id n : ℕ) (pid : ℤ) (jobs : List Job) → owns n pid (modify id f jobs) ≡ owns n pid jobs
  unfolding modify
  owns-modify id n pid [] = refl
  owns-modify id n pid (j ∷ jobs) =
      ground (arith, owns-modify id n pid jobs, k.same_id j, k.same_pids j pid)

  pub DistinctIds-modify :
      (id : ℕ) (jobs : List Job) → DistinctIds jobs → DistinctIds (modify id f jobs)
  unfolding modify
  DistinctIds-modify id [] d = tt
  DistinctIds-modify id (j ∷ jobs) (a, d) =
      ground (arith, DistinctIds-modify id jobs d, has_id-modify id j.id jobs, k.same_id j)

-- A new job at the end.
pub has_id-append : (n : ℕ) (xs ys : List Job) → has_id n (xs ++ ys) ≡ (has_id n xs || has_id n ys)
has_id-append n [] ys = refl
has_id-append n (x ∷ xs) ys = ground (arith, has_id-append n xs ys)

pub owns-append :
    (n : ℕ) (pid : ℤ) (xs ys : List Job) → owns n pid (xs ++ ys) ≡ (owns n pid xs || owns n pid ys)
owns-append n pid [] ys = refl
owns-append n pid (x ∷ xs) ys = ground (arith, owns-append n pid xs ys)

pub DistinctIds-append :
    (jobs : List Job) (j : Job)
    → DistinctIds jobs
    → has_id j.id jobs ≡ false
    → DistinctIds (jobs ++ j ∷ [])
DistinctIds-append [] j d h = (refl, tt)
DistinctIds-append (x ∷ xs) j (a, d) h =
    ground (arith, DistinctIds-append xs j d, has_id-append x.id xs (j ∷ []))

-- Jobs that go: those of `keep`, and the first of a number.
pub has_id-keep :
    (p : Job → Bool) (n : ℕ) (jobs : List Job)
    → has_id n jobs ≡ false
    → has_id n (keep p jobs) ≡ false
has_id-keep p n [] h = refl
has_id-keep p n (j ∷ jobs) h = ground (arith, has_id-keep p n jobs)

pub DistinctIds-keep :
    (p : Job → Bool) (jobs : List Job) → DistinctIds jobs → DistinctIds (keep p jobs)
DistinctIds-keep p [] d = tt
DistinctIds-keep p (j ∷ jobs) (a, d) =
    ground (arith, DistinctIds-keep p jobs d, has_id-keep p j.id jobs)

-- A job is either kept or gone.
pub has_id-keep_split :
    (p : Job → Bool) (n : ℕ) (jobs : List Job)
    → has_id n jobs ≡ (has_id n (keep p jobs) || has_id n (keep (λ j. not (p j)) jobs))
has_id-keep_split p n [] = refl
has_id-keep_split p n (j ∷ jobs) = ground (arith, has_id-keep_split p n jobs)

pub owns-keep_split :
    (p : Job → Bool) (n : ℕ) (pid : ℤ) (jobs : List Job)
    → owns n pid jobs ≡ (owns n pid (keep p jobs) || owns n pid (keep (λ j. not (p j)) jobs))
owns-keep_split p n pid [] = refl
owns-keep_split p n pid (j ∷ jobs) = ground (arith, owns-keep_split p n pid jobs)

pub find-has_id :
    (id : ℕ) (jobs : List Job) {j : Job}
    → find (λ j. j.id == id) jobs ≡ some j
    → has_id id jobs ≡ true
find-has_id id [] h = cc
find-has_id id (x ∷ jobs) {j} h = ground (arith, find-has_id id jobs {j = j})

-- `drop_first` takes away the job that `find` finds.
pub drop_first-none :
    (id : ℕ) (jobs : List Job) → find (λ j. j.id == id) jobs ≡ none → drop_first id jobs ≡ jobs
unfolding drop_first
drop_first-none id [] h = refl
drop_first-none id (x ∷ jobs) h = ground (arith, drop_first-none id jobs)

pub has_id-drop_first :
    (id n : ℕ) (jobs : List Job) {j : Job}
    → find (λ j. j.id == id) jobs ≡ some j
    → has_id n jobs ≡ (j.id == n || has_id n (drop_first id jobs))
unfolding drop_first
has_id-drop_first id n [] h = cc
has_id-drop_first id n (x ∷ jobs) {j} h = ground (arith, has_id-drop_first id n jobs {j = j})

pub owns-drop_first :
    (id n : ℕ) (pid : ℤ) (jobs : List Job) {j : Job}
    → find (λ j. j.id == id) jobs ≡ some j
    → owns n pid jobs ≡ (j.id == n && has_pid pid j.processes || owns n pid (drop_first id jobs))
unfolding drop_first
owns-drop_first id n pid [] h = cc
owns-drop_first id n pid (x ∷ jobs) {j} h = ground (arith, owns-drop_first id n pid jobs {j = j})

has_id-drop_first_absent :
    (id n : ℕ) (jobs : List Job) → has_id n jobs ≡ false → has_id n (drop_first id jobs) ≡ false
unfolding drop_first
has_id-drop_first_absent id n [] h = refl
has_id-drop_first_absent id n (x ∷ jobs) h = ground (arith, has_id-drop_first_absent id n jobs)

pub DistinctIds-drop_first :
    (id : ℕ) (jobs : List Job) → DistinctIds jobs → DistinctIds (drop_first id jobs)
unfolding drop_first
DistinctIds-drop_first id [] d = tt
DistinctIds-drop_first id (x ∷ jobs) (a, d) =
    ground (arith, DistinctIds-drop_first id jobs d, has_id-drop_first_absent id x.id jobs)
