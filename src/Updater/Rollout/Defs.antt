-- ===== src/Updater/Rollout/Defs.antt =====
-- Coordinator.run and skipRemaining.
use ubuntu_auto_update.Base.{
  ℕ, zero, suc, Bool, true, false, ◌||◌, ◌&&◌, List, [], ◌∷◌, ◌++◌, Option, none, some, Text, codes,
  itoa, length, take, drop, ltb, if◌then◌else◌,
}
use ubuntu_auto_update.Base.Int.{ℤ, pos, negsuc, to_ℕ}
use ubuntu_auto_update.Runs.{Runs}
use ubuntu_auto_update.Updater.Options.{BulkRunOptions, clamp_canary, percent, should_abort}
use ubuntu_auto_update.Updater.Command.Defs.{MarkWorld, mark_failed}
use ubuntu_auto_update.Updater.Host.{Notice}
use ubuntu_auto_update.Updater.Wave.{Job, Wave, Move, start_wave, wave_run, is_done}

-- What the world does in one bulk run: the moves of its two waves, the faults of the statements for
-- the k-th skipped host, and whether the context expires while the coordinator pauses.
pub record RolloutWorld : Type 0 where
  pub first : List Move
  pub second : List Move
  pub skips : ℕ → MarkWorld
  pub expires_in_pause : Bool

pub data Ending : Type 0 where
  finished : Ending
  -- the threshold was reached: the remaining hosts are skipped
  aborted : Ending
  -- `<-ctx.Done()` in the pause: return
  interrupted : Ending

pub record Rolled : Type 0 where
  pub table : Runs
  pub notices : List Notice
  pub ending : Ending

unfoldable pub int_text : ℤ → Text
int_text (pos n) = itoa n
int_text (negsuc n) = codes "-" ++ itoa (suc n)

unfoldable pub abort_reason : ℕ → ℤ → Text
abort_reason share threshold =
    codes "canary failure rate "
    ++ (itoa share ++ (codes "% exceeded threshold " ++ (int_text threshold ++ codes "%")))

-- The loop of skipRemaining, from the k-th host on.
unfoldable pub skip_remaining : (ℕ → MarkWorld) → ℕ → Text → List Job → Runs → Runs
skip_remaining w k reason [] t = t
skip_remaining w k reason (j ∷ js) t =
    skip_remaining w (suc k) reason js (mark_failed (w k) j.run_id (codes "skipped: " ++ reason) t)

-- The pause in seconds, at most ten minutes.
unfoldable pub canary_wait : ℤ → ℕ
canary_wait asked = if ltb 600 (to_ℕ asked) then 600 else to_ℕ asked

abbrev pub when_done : Wave → Bool → Option Wave
when_done s true = some s
when_done s false = none

-- `none`: the moves are not possible, or they do not lead to the end of the wave.
unfoldable pub wave_result : BulkRunOptions → ℕ → List Move → Bool → List Job → Runs → Option Wave
wave_result opts conc ms expired jobs t = elim (wave_run opts conc ms (start_wave expired jobs t)) [
  | none ↦ none
  | some s ↦ when_done s (is_done s)
]

abbrev pub rolled : Wave → Ending → Rolled
rolled s ending = record { table = s.table; notices = s.notices; ending = ending }

-- Wave 2: the notices of both waves, in their order.
abbrev pub after_second : Wave → Option Wave → Option Rolled
after_second s none = none
after_second s (some u) =
    some (record { table = u.table; notices = s.notices ++ u.notices; ending = finished })

-- The second argument: does the context end the pause?
abbrev pub after_pause : BulkRunOptions → ℕ → RolloutWorld → List Job → Wave → Bool → Option Rolled
after_pause opts conc w rest s true = some (rolled s interrupted)
after_pause opts conc w rest s false =
    after_second s (wave_result opts conc w.second s.expired rest s.table)

-- The remaining hosts, when the canaries did not reach the threshold.
abbrev pub go_on : BulkRunOptions → ℕ → RolloutWorld → List Job → Wave → Option Rolled
go_on opts conc w [] s = some (rolled s finished)
go_on opts conc w (j ∷ js) s =
    after_pause opts conc w (j ∷ js) s
      (ltb 0 (canary_wait opts.canary_wait_seconds) && (s.expired || w.expires_in_pause))

-- The last argument: is the threshold reached?
abbrev pub after_canary :
    BulkRunOptions → ℕ → RolloutWorld → ℕ → List Job → Wave → Bool → Option Rolled
after_canary opts conc w canary rest s true = some (record {
  table =
      skip_remaining w.skips 0 (abort_reason (percent s.failures canary) opts.abort_on_failure_pct)
        rest s.table;
  notices = s.notices;
  ending = aborted;
})
after_canary opts conc w canary rest s false = go_on opts conc w rest s

abbrev pub after_first :
    BulkRunOptions → ℕ → RolloutWorld → ℕ → List Job → Option Wave → Option Rolled
after_first opts conc w canary rest none = none
after_first opts conc w zero rest (some s) = some (rolled s finished)
after_first opts conc w (suc n) rest (some s) =
    after_canary opts conc w (suc n) rest s
      (should_abort opts.abort_on_failure_pct (percent s.failures (suc n)))

-- How many hosts form wave 1: the canaries, or all hosts when there is no canary.
abbrev pub first_size : ℕ → ℕ → ℕ
first_size zero total = total
first_size (suc n) total = suc n

unfoldable pub rollout : BulkRunOptions → ℕ → RolloutWorld → List Job → Runs → Option Rolled
rollout opts conc w jobs t =
    let canary = clamp_canary opts.canary_count (length jobs) in
    let end = first_size canary (length jobs) in
    after_first opts conc w canary (drop end jobs)
      (wave_result opts conc w.first false (take end jobs) t)
