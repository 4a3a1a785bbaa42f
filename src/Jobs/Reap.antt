-- ===== src/Jobs/Reap.antt =====
-- Reaping, purging and notification of jobs (crates/common/src/jobs.rs). What `waitpid` returns is
-- a list of events, which ends where the call returns 0 or -1.
use cherubsh.Base.{
  ℕ, ℤ, Bool, true, not, ◌&&◌, ◌||◌, List, [], ◌∷◌, any, keep, map, length, ◌==◌, if◌then◌else◌,
}
use cherubsh.Jobs.{Job, running, state_eq, JobTable, WaitStatus}
use cherubsh.Jobs.Markers.{reset_current_previous, is_done}
use cherubsh.Jobs.Table.{forget, mark_dead, mark_stopped, mark_running}

abbrev pub is_purged : Job → Bool
is_purged j = is_done j && j.notified

-- what `retain` does for each job that goes
unfoldable pub forget_all : List Job → JobTable → JobTable
unfolding forget
forget_all [] t = t
forget_all (j ∷ js) t = forget_all js (forget j t)

unfoldable pub purge_done : JobTable → JobTable × List ℕ
unfolding forget_all
purge_done t =
    let gone = keep is_purged t.jobs in
    let s = forget_all gone (record t { jobs = keep (λ j. not (is_purged j)) t.jobs }) in
    (if length gone == 0 then s else reset_current_previous s, map (λ j. j.id) gone)

abbrev pub has_news : Job → Bool
has_news j = not j.notified && not (state_eq j.state running)

abbrev pub notify : Job → Job
notify j = if has_news j then record j { notified = true } else j

-- The clones are taken before the flag is set.
unfoldable pub pending_notifications : JobTable → JobTable × List Job
pending_notifications t = (record t { jobs = map notify t.jobs }, keep has_news t.jobs)

unfoldable pub is_empty : JobTable → Bool
is_empty t = length t.jobs == 0

unfoldable pub any_running : JobTable → Bool
any_running t = any (λ j. state_eq j.state running) t.jobs

module _ (w : WaitStatus) where
  -- the body of the loop of `reap_all`
  unfoldable pub reap : ℤ → ℕ → JobTable → JobTable
  reap pid status t =
      if w.exited status || w.signaled status
      then mark_dead w pid status t
      else if w.is_stopped status
      then mark_stopped pid (w.stop_signal status) t
      else if w.continued status
      then mark_running pid t
      else t

  unfoldable pub reap_all : List (ℤ × ℕ) → JobTable → JobTable × List (ℤ × ℕ)
  unfolding reap
  reap_all [] t = (t, [])
  reap_all ((pid, status) ∷ events) t =
      let (s, reaped) = reap_all events (reap pid status t) in (s, (pid, status) ∷ reaped)
