-- ===== src/Updater/Rollout/Return.antt =====
-- What holds when a bulk run returns: after all waves, after an abort, after an interruption.
use ubuntu_auto_update.Base.{
  ℕ, zero, suc, ◌*◌, ◌≤◌, ◌<◌, ◌≡◌, refl, sym, subst, ◌≢◌, true, false, List, [], ◌∷◌, ◌++◌, Option,
  none, some, length, take, drop, take-append-drop, All, arith,
}
use ubuntu_auto_update.Runs.{RunStatus, cancelled, running, succeeded, failed, Runs}
use ubuntu_auto_update.Base.Int.{to_ℕ}
use ubuntu_auto_update.Updater.Options.{BulkRunOptions, clamp_canary, percent, should_abort_iff}
use ubuntu_auto_update.Updater.Command.Rows.{status_of}
use ubuntu_auto_update.Updater.Wave.{Job, Wave}
use ubuntu_auto_update.Updater.Wave.Settle.{Apart, Statuses, count_failed, one_if_failed}
use ubuntu_auto_update.Updater.Wave.Invariant.{IsSettled}
use ubuntu_auto_update.Updater.Wave.Append.{
  All-append_left, All-append_right, Apart-append_left, Apart-append_right, second-IsRunning,
}
use ubuntu_auto_update.Updater.Rollout.Defs.{
  RolloutWorld, aborted, interrupted, Rolled, abort_reason, skip_remaining, wave_result,
  after_canary, after_first, first_size, rollout,
}
use ubuntu_auto_update.Updater.Rollout.Settle.{
  IsHealthyWorld, AreRunning, wave_result-IsSettled, skip_remaining-IsSettled, after_first-Leaves,
}

-- The hosts after the canaries: none when there is no canary.
unfoldable pub remainder : BulkRunOptions → List Job → List Job
remainder opts jobs =
    drop (first_size (clamp_canary opts.canary_count (length jobs)) (length jobs)) jobs

-- A bulk run that returns, for hosts with distinct running rows and with every FinishRun reaching
-- the table, leaves every one of them closed as succeeded or as failed and every other row as it
-- was, unless the context expired in the pause after the canaries.
pub rollout_settles :
    (opts : BulkRunOptions) (conc : ℕ) (w : RolloutWorld) (jobs : List Job) (t : Runs) (r : Rolled)
    → IsHealthyWorld w
    → Apart jobs
    → AreRunning t jobs
    → rollout opts conc w jobs t ≡ some r
    → r.ending ≢ interrupted
    → (f : ℕ) × IsSettled jobs t r.table f
unfolding rollout
rollout_settles opts conc w jobs t r good distinct fresh h returned =
    let canary = clamp_canary opts.canary_count (length jobs) in
    let leaves = after_first-Leaves opts conc w canary jobs t good distinct fresh r h in
    subst (λ l. (f : ℕ) × IsSettled l t r.table f)
      (take-append-drop (first_size canary (length jobs)) jobs) (leaves.settled returned)

-- When the context expires in the pause after the canaries, under the same conditions, the rows of
-- all remaining hosts are still running when the bulk run returns.
pub rollout_interrupted :
    (opts : BulkRunOptions) (conc : ℕ) (w : RolloutWorld) (jobs : List Job) (t : Runs) (r : Rolled)
    → IsHealthyWorld w
    → Apart jobs
    → AreRunning t jobs
    → rollout opts conc w jobs t ≡ some r
    → r.ending ≡ interrupted
    → AreRunning r.table (remainder opts jobs)
unfolding rollout remainder
rollout_interrupted opts conc w jobs t r good distinct fresh h cut =
    let canary = clamp_canary opts.canary_count (length jobs) in
    let leaves = after_first-Leaves opts conc w canary jobs t good distinct fresh r h in
    leaves.left_over cut

one_if_failed-le : (x : Option RunStatus) → one_if_failed x ≤ 1
one_if_failed-le none = omega arith
one_if_failed-le (some running) = omega arith
one_if_failed-le (some succeeded) = omega arith
one_if_failed-le (some failed) = omega arith
one_if_failed-le (some cancelled) = omega arith

one_if_failed-eq : (x : Option RunStatus) → one_if_failed x ≡ 1 → x ≡ some failed
one_if_failed-eq none h = absurd (omega (arith, h))
one_if_failed-eq (some running) h = absurd (omega (arith, h))
one_if_failed-eq (some succeeded) h = absurd (omega (arith, h))
one_if_failed-eq (some failed) h = refl
one_if_failed-eq (some cancelled) h = absurd (omega (arith, h))

count_failed-le : (σ : Statuses) (js : List Job) → count_failed σ js ≤ length js
count_failed-le σ [] = omega arith
count_failed-le σ (j ∷ js) =
    let one = one_if_failed-le (σ j.run_id) in omega (arith, one, count_failed-le σ js)

All-failed_of_count :
    (σ : Statuses) (js : List Job)
    → count_failed σ js ≡ length js
    → All (λ j. σ j.run_id ≡ some failed) js
All-failed_of_count σ [] h = tt
All-failed_of_count σ (j ∷ js) h =
    let one = one_if_failed-le (σ j.run_id) in
    let more = count_failed-le σ js in
    (
      one_if_failed-eq (σ j.run_id) (omega (arith, one, more, h)),
      All-failed_of_count σ js (omega (arith, one, more, h)),
    )

-- What an abort after the canaries' wave `s` leaves of the remaining hosts `rest`.
pub record Aborts (rest : List Job) (s : Wave) (o : Option Rolled) : Type 0 where
  pub rolled : Rolled
  pub returned : o ≡ some rolled
  pub ending : rolled.ending ≡ aborted
  pub notices : rolled.notices ≡ s.notices
  pub all_failed : All (λ j. status_of rolled.table j.run_id ≡ some failed) rest

after_canary-Aborts :
    (opts : BulkRunOptions) (conc : ℕ) (w : RolloutWorld) (canary : ℕ) (xs ys : List Job) (t : Runs)
    (s : Wave)
    → IsHealthyWorld w
    → Apart (xs ++ ys)
    → AreRunning t (xs ++ ys)
    → IsSettled xs t s.table s.failures
    → Aborts ys s (after_canary opts conc w canary ys s true)
after_canary-Aborts opts conc w canary xs ys t s good distinct fresh first =
    let fresh_rest = second-IsRunning xs ys distinct first (All-append_right _ xs ys fresh) in
    let reason = abort_reason (percent s.failures canary) opts.abort_on_failure_pct in
    let skipped =
      skip_remaining-IsSettled w 0 reason ys s.table good (Apart-append_right xs ys distinct)
        fresh_rest in
    let left = skip_remaining w.skips 0 reason ys s.table in
    record {
      rolled = record { table = left; notices = s.notices; ending = aborted };
      returned = refl;
      ending = refl;
      notices = refl;
      all_failed = All-failed_of_count (status_of left) ys (sym skipped.counted);
    }

-- When the canaries' wave ends, with running and distinct rows and every FinishRun reaching the
-- table, and the failed share of the canaries reaches a threshold from 1 to 100 percent, the bulk
-- run returns at once: each remaining host ends as failed, and none of them is connected, whatever
-- the second wave would have done.
pub rollout-Aborts :
    (opts : BulkRunOptions) (conc : ℕ) (w : RolloutWorld) (jobs : List Job) (t : Runs) (s : Wave)
    → IsHealthyWorld w
    → Apart jobs
    → AreRunning t jobs
    → 0 < clamp_canary opts.canary_count (length jobs)
    → wave_result opts conc w.first false
        (take (clamp_canary opts.canary_count (length jobs)) jobs)
        t
      ≡ some s
    → 1 ≤ to_ℕ opts.abort_on_failure_pct
    → to_ℕ opts.abort_on_failure_pct ≤ 100
    → to_ℕ opts.abort_on_failure_pct * clamp_canary opts.canary_count (length jobs)
      ≤ s.failures * 100
    → Aborts (remainder opts jobs) s (rollout opts conc w jobs t)
unfolding rollout remainder
rollout-Aborts opts conc w jobs t s good distinct fresh some_canary done lo hi =
    by_canary (clamp_canary opts.canary_count (length jobs)) some_canary done
  where
    by_canary :
        (n : ℕ)
        → 0 < n
        → wave_result opts conc w.first false (take n jobs) t ≡ some s
        → to_ℕ opts.abort_on_failure_pct * n ≤ s.failures * 100
        → let end = first_size n (length jobs) in
          Aborts (drop end jobs) s (
            after_first opts conc w n
              (drop end jobs)
              (wave_result opts conc w.first false (take end jobs) t))
    by_canary zero lt e reached = absurd (omega (arith, lt))
    by_canary (suc n) lt e reached =
        let whole = take-append-drop (suc n) jobs in
        let split_apart : Apart (take (suc n) jobs ++ drop (suc n) jobs) = rw whole distinct in
        let split_fresh : AreRunning t (take (suc n) jobs ++ drop (suc n) jobs) = rw whole fresh in
        let first =
          wave_result-IsSettled opts conc w.first false (take (suc n) jobs) t s
            (Apart-append_left _ (drop (suc n) jobs) split_apart)
            (All-append_left _ _ (drop (suc n) jobs) split_fresh) good.first e in
        let stop =
          (should_abort_iff opts.abort_on_failure_pct s.failures (suc n) lt).1 (lo, hi, reached) in
        rw (e, stop)
          (after_canary-Aborts opts conc w (suc n) (take (suc n) jobs) (drop (suc n) jobs) t s good
            split_apart split_fresh first)
