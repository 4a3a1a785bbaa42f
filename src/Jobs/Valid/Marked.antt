-- ===== src/Jobs/Valid/Marked.antt =====
-- The markers that `reset_current_previous` sets stand at jobs of the table
-- (crates/common/src/jobs.rs).
use cherubsh.Base.{
  ◌≡◌, refl, ℕ, Bool, true, not, ◌||◌, some, List, [], ◌∷◌, ◌++◌, any, keep, ◌==◌, arith,
  if◌then◌else◌,
}
use cherubsh.Jobs.{Job, running, stopped, JobTable}
use cherubsh.Jobs.Markers.{has_id, is_done, last_two, reset_current_previous}
use cherubsh.Jobs.Valid.{Marks}
use cherubsh.Jobs.Valid.Resets.{ids, in_state, markers_lem}

abbrev pub member : ℕ → List ℕ → Bool
member n xs = any (λ x. x == n) xs

last_two-member :
    (n : ℕ) (xs : List ℕ)
    → ((last_two xs).0 ≡ some n → member n xs ≡ true)
      × ((last_two xs).1 ≡ some n → member n xs ≡ true)
last_two-member n [] = ground arith
last_two-member n (x ∷ []) = ground arith
last_two-member n (x ∷ y ∷ []) = ground arith
last_two-member n (x ∷ y ∷ z ∷ xs) = ground (arith, last_two-member n (y ∷ z ∷ xs))

member-append : (n : ℕ) (xs ys : List ℕ) → member n (xs ++ ys) ≡ (member n xs || member n ys)
member-append n [] ys = refl
member-append n (x ∷ xs) ys = ground (arith, member-append n xs ys)

pub member-ids-keep :
    (p : Job → Bool) (n : ℕ) (jobs : List Job)
    → member n (ids (keep p jobs)) ≡ true
    → has_id n jobs ≡ true
member-ids-keep p n [] h = cc
member-ids-keep p n (j ∷ jobs) h = ground (arith, member-ids-keep p n jobs)

counted : List Job → List ℕ
counted jobs =
    if any (λ j. not (is_done j)) jobs
    then ids (keep (in_state running) jobs) ++ ids (keep (in_state stopped) jobs)
    else ids (keep (λ j. not j.notified) jobs)

member-counted : (n : ℕ) (jobs : List Job) → member n (counted jobs) ≡ true → has_id n jobs ≡ true
unfolding counted
member-counted n jobs h =
    let r = ids (keep (in_state running) jobs) in
    let s = ids (keep (in_state stopped) jobs) in
    ground (
      arith,
      member-append n r s,
      member-ids-keep (in_state running) n jobs,
      member-ids-keep (in_state stopped) n jobs,
      member-ids-keep (λ (j : Job). not j.notified) n jobs,
    )

pub reset_current_previous-Marks :
    (t : JobTable)
    → Marks (reset_current_previous t).current t.jobs
      × Marks (reset_current_previous t).previous t.jobs
unfolding reset_current_previous counted
reset_current_previous-Marks t =
    let m = last_two-member in
    rw (markers_lem t.jobs) (
      λ n e. member-counted n t.jobs ((last_two-member n (counted t.jobs)).0 e),
      λ n e. member-counted n t.jobs ((last_two-member n (counted t.jobs)).1 e),
    )
