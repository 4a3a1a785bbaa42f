-- ===== src/Jobs/Valid/Purges.antt =====
-- Purging done jobs and giving notice keep the job table valid (crates/common/src/jobs.rs).
use cherubsh.Base.{
  ◌≡◌, refl, ap, ◌∙◌, sym, ℕ, inl, inr, ℤ, true, false, not, Option, some, List, [], ◌∷◌, any, keep,
  map, length, ◌==◌, arith, Bool, Bool-cases, if◌then◌else◌,
}
use cherubsh.Jobs.{Job, JobTable, JobState, running, stopped, done}
use cherubsh.Jobs.Markers.{has_id, is_done, reset_current_previous}
use cherubsh.Jobs.Table.{forget}
use cherubsh.Jobs.Reap.{is_purged, forget_all, purge_done, notify, has_news, pending_notifications}
use cherubsh.Jobs.Valid.{owns, DistinctIds, Marks, IsTable}
use cherubsh.Jobs.Valid.Lists.{has_id-keep_split, owns-keep_split, DistinctIds-keep}
use cherubsh.Jobs.Valid.Steps.{reset-IsTable}
use cherubsh.Jobs.Valid.Members.{forget_pid, forget_order, forget_jobs}

forget_all_jobs : (js : List Job) (t : JobTable) → (forget_all js t).jobs ≡ t.jobs
unfolding forget_all
forget_all_jobs [] t = refl
forget_all_jobs (j ∷ js) t = forget_all_jobs js (forget j t) ∙ forget_jobs j t

forget_all_pid :
    (js : List Job) (t : JobTable) (pid : ℤ) (id : ℕ)
    → (forget_all js t).pid_to_job pid ≡ some id
    → (t.pid_to_job pid ≡ some id) × (owns id pid js ≡ false)
unfolding forget_all
forget_all_pid [] t pid id e = (e, refl)
forget_all_pid (j ∷ js) t pid id e =
    let (f, a) = forget_all_pid js (forget j t) pid id e in
    let (g, b) = forget_pid j t pid id f in (g, ground arith)

forget_all_order :
    (js : List Job) (t : JobTable) (id n : ℕ)
    → (forget_all js t).completion_order id ≡ some n
    → (t.completion_order id ≡ some n) × (has_id id js ≡ false)
unfolding forget_all
forget_all_order [] t id n e = (e, refl)
forget_all_order (j ∷ js) t id n e =
    let (f, a) = forget_all_order js (forget j t) id n e in
    let (g, b) = forget_order j t id n f in (g, ground arith)

nil_of_length : (js : List Job) → (length js == 0) ≡ true → js ≡ []
nil_of_length [] h = refl
nil_of_length (j ∷ js) h = ground arith

-- The jobs that stay, when none goes.
kept_all :
    (t : JobTable) (m : Option ℕ)
    → keep is_purged t.jobs ≡ []
    → Marks m t.jobs
    → Marks m (keep (λ j. not (is_purged j)) t.jobs)
kept_all t m e h n q = sym (rw e at (has_id-keep_split is_purged n t.jobs)) ∙ h n q

pub purge_done-IsTable : (t : JobTable) → IsTable t → IsTable (purge_done t).0
unfolding purge_done
purge_done-IsTable t v =
    let gone = keep is_purged t.jobs in
    let kept = keep (λ j. not (is_purged j)) t.jobs in
    let s = record t { jobs = kept } in
    let same = forget_all_jobs gone s in
    let distinct = DistinctIds-keep (λ j. not (is_purged j)) t.jobs v.distinct in
    elim (Bool-cases (length gone == 0)) [
      | inl none_gone ↦
          let e = nil_of_length gone none_gone in
          rw (none_gone, e)
            (record {
              distinct = distinct;
              pids_live = λ pid n f.
                  sym (rw e at (owns-keep_split is_purged n pid t.jobs)) ∙ v.pids_live pid n f;
              current_live = kept_all t t.current e v.current_live;
              previous_live = kept_all t t.previous e v.previous_live;
              order_live = λ n m f.
                  sym (rw e at (has_id-keep_split is_purged n t.jobs)) ∙ v.order_live n m f;
            })
      | inr some_gone ↦ rw some_gone (
          reset-IsTable (forget_all gone s) (rw same distinct)
            (λ pid n f. rw same (
              ground (
                arith,
                forget_all_pid gone s pid n f,
                v.pids_live pid n,
                owns-keep_split is_purged n pid t.jobs,
              )))
            (λ n m f. rw same (
              ground (
                arith,
                forget_all_order gone s n m f,
                v.order_live n m,
                has_id-keep_split is_purged n t.jobs,
              ))))
    ]

has_id-notify : (n : ℕ) (jobs : List Job) → has_id n (map notify jobs) ≡ has_id n jobs
has_id-notify n [] = refl
has_id-notify n (j ∷ jobs) = ground (arith, has_id-notify n jobs)

owns-notify : (n : ℕ) (pid : ℤ) (jobs : List Job) → owns n pid (map notify jobs) ≡ owns n pid jobs
owns-notify n pid [] = refl
owns-notify n pid (j ∷ jobs) = ground (arith, owns-notify n pid jobs)

DistinctIds-notify : (jobs : List Job) → DistinctIds jobs → DistinctIds (map notify jobs)
DistinctIds-notify [] d = tt
DistinctIds-notify (j ∷ jobs) (a, d) =
    ground (arith, DistinctIds-notify jobs d, has_id-notify j.id jobs)

pub pending_notifications-IsTable : (t : JobTable) → IsTable t → IsTable (pending_notifications t).0
unfolding pending_notifications
pending_notifications-IsTable t v = record {
  distinct = DistinctIds-notify t.jobs v.distinct;
  pids_live = λ pid n e. owns-notify n pid t.jobs ∙ v.pids_live pid n e;
  current_live = λ n e. has_id-notify n t.jobs ∙ v.current_live n e;
  previous_live = λ n e. has_id-notify n t.jobs ∙ v.previous_live n e;
  order_live = λ n m e. has_id-notify n t.jobs ∙ v.order_live n m e;
}

no_news_left : (jobs : List Job) → keep has_news (map notify jobs) ≡ []
no_news_left [] = refl
no_news_left (j ∷ jobs) = ground (arith, no_news_left jobs)

none_done_left :
    (jobs : List Job) → any is_done (keep (λ j. not (is_purged j)) (map notify jobs)) ≡ false
none_done_left [] = refl
none_done_left (j ∷ jobs) = ground (arith, none_done_left jobs)

purge_done_jobs : (t : JobTable) → (purge_done t).0.jobs ≡ keep (λ j. not (is_purged j)) t.jobs
unfolding purge_done reset_current_previous
purge_done_jobs t = ground (
  arith,
  forget_all_jobs (keep is_purged t.jobs)
      (record t { jobs = keep (λ j. not (is_purged j)) t.jobs }),
)

abbrev add_untold : JobState → Bool → Job → List Job → List Job
add_untold running told_already j more = more
add_untold stopped false j more = j ∷ more
add_untold stopped true j more = more
add_untold done false j more = j ∷ more
add_untold done true j more = more

abbrev pub told : JobState → Job → Job
told running j = j
told stopped j = record j { notified = true }
told done j = record j { notified = true }

-- the news of a table, read off: the stopped and the done jobs that are not flagged
abbrev pub untold : List Job → List Job
untold [] = []
untold (j ∷ jobs) = add_untold j.state j.notified j (untold jobs)

untold_lem : (jobs : List Job) → keep has_news jobs ≡ untold jobs
untold_lem [] = refl
untold_lem (j ∷ jobs) = rw (untold_lem jobs) (news j.state refl j.notified refl)
  where
    news :
        (s : JobState)
        → j.state ≡ s
        → (n : Bool) → j.notified ≡ n
        → (if has_news j then j ∷ untold jobs else untold jobs) ≡ add_untold s n j (untold jobs)
    news running e n f = rw (e, f) (ground arith)
    news stopped e true f = rw (e, f) refl
    news stopped e false f = rw (e, f) refl
    news done e true f = rw (e, f) refl
    news done e false f = rw (e, f) refl

-- Job by job: a running job is as it was, and any other one has the flag set, and nothing else changed.
abbrev pub Told : List Job → List Job → Type 0
Told [] [] = Unit
Told (j ∷ js) (k ∷ ks) = (k ≡ told j.state j) × Told js ks
Told _ _ = ⊥

Told-notify : (jobs : List Job) → Told jobs (map notify jobs)
Told-notify [] = tt
Told-notify (j ∷ jobs) = (flagged j.state refl j.notified refl, Told-notify jobs)
  where
    flagged : (s : JobState) → j.state ≡ s → (n : Bool) → j.notified ≡ n → notify j ≡ told s j
    flagged running e n f = rw e (ground arith)
    flagged stopped e true f =
        let same : notify j ≡ j = rw (e, f) refl in same ∙ ap (λ n. record j { notified = n }) f
    flagged stopped e false f = rw (e, f) refl
    flagged done e true f =
        let same : notify j ≡ j = rw (e, f) refl in same ∙ ap (λ n. record j { notified = n }) f
    flagged done e false f = rw (e, f) refl

-- The notifications tell of the stopped and the done jobs that are not flagged, in the order of the
-- table and as they are there. They set the flag of each stopped or done job and change nothing else
-- in the table: right after them there is nothing more to tell, and a purge leaves no done job.
pub pending_notifications_once :
    (t : JobTable)
    → let after = (pending_notifications t).0 in
      ((pending_notifications t).1 ≡ untold t.jobs)
      × (after ≡ record t { jobs = after.jobs })
      × Told t.jobs after.jobs
      × ((pending_notifications after).1 ≡ [])
      × (any is_done (purge_done after).0.jobs ≡ false)
unfolding pending_notifications
pending_notifications_once t = (
  untold_lem t.jobs,
  refl,
  Told-notify t.jobs,
  no_news_left t.jobs,
  rw purge_done_jobs (none_done_left t.jobs),
)
