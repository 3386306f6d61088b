-- ===== src/Updater/Tests/Rollouts.antt =====
-- Rollouts with one canary: one that goes through, one that is cut in the pause, one that aborts.
use ubuntu_auto_update.Base.{
  ℕ, ◌*◌, ◌≤◌, ◌<◌, ◌≡◌, refl, sym, ◌∙◌, ◌≢◌, Bool, true, false, [], Option, none, some, length,
  take, arith,
}
use ubuntu_auto_update.Base.Int.{pos}
use ubuntu_auto_update.Updater.Options.{clamp_canary, should_abort, percent}
use ubuntu_auto_update.Updater.Command.Defs.{run_one_command}
use ubuntu_auto_update.Updater.Host.{run_one}
use ubuntu_auto_update.Updater.Wave.{Wave, start_wave, wave_step, wave_run, is_done}
use ubuntu_auto_update.Updater.Wave.Invariant.{IsSettled}
use ubuntu_auto_update.Updater.Rollout.{
  Rolled, finished, interrupted, rollout, wave_result, canary_wait,
}
use ubuntu_auto_update.Updater.Rollout.Settle.{IsHealthyWorld, AreRunning, finished-≢}
use ubuntu_auto_update.Updater.Rollout.Return.{
  rollout_settles, rollout_interrupted, rollout-Aborts, Aborts, remainder,
}
use ubuntu_auto_update.Updater.Tests.Fixtures.{
  opts, opts_with, table, jobs, one_good, one_bad, world,
}
use ubuntu_auto_update.Updater.Tests.Waves.{jobs-Apart, jobs-IsRunning}

abbrev pub nothing : Rolled
nothing = record { table = table; notices = []; ending = interrupted }

abbrev pub rolled_or : Rolled → Option Rolled → Rolled
rolled_or r none = r
rolled_or r (some u) = u

abbrev through : Rolled
through = rolled_or nothing (rollout opts 2 (world one_good false) jobs table)

goes_through : rollout opts 2 (world one_good false) jobs table ≡ some through
unfolding rollout wave_result wave_run wave_step start_wave is_done clamp_canary should_abort
    percent canary_wait run_one run_one_command
goes_through = refl

through_ending : through.ending ≡ finished
unfolding rollout wave_result wave_run wave_step start_wave is_done clamp_canary should_abort
    percent canary_wait run_one run_one_command
through_ending = refl

through_finished : through.ending ≢ interrupted
through_finished e = finished-≢ (sym through_ending ∙ e)

pub healthy : (cut : Bool) → IsHealthyWorld (world one_good cut)
healthy cut = record { first = (tt, (refl, tt)); second = (tt, (refl, tt)); skips = λ k. refl }

rollout_settles_example : (f : ℕ) × IsSettled jobs table through.table f
rollout_settles_example =
    rollout_settles opts 2 (world one_good false) jobs table through (healthy false) jobs-Apart
      jobs-IsRunning goes_through through_finished

abbrev cut : Rolled
cut = rolled_or nothing (rollout (opts_with (pos 5)) 2 (world one_good true) jobs table)

gets_cut : rollout (opts_with (pos 5)) 2 (world one_good true) jobs table ≡ some cut
unfolding rollout wave_result wave_run wave_step start_wave is_done clamp_canary should_abort
    percent canary_wait run_one run_one_command
gets_cut = refl

cut_ending : cut.ending ≡ interrupted
unfolding rollout wave_result wave_run wave_step start_wave is_done clamp_canary should_abort
    percent canary_wait run_one run_one_command
cut_ending = refl

rollout_interrupted_example : AreRunning cut.table (remainder (opts_with (pos 5)) jobs)
rollout_interrupted_example =
    rollout_interrupted (opts_with (pos 5)) 2 (world one_good true) jobs table cut (healthy true)
      jobs-Apart jobs-IsRunning gets_cut cut_ending

abbrev nothing_run : Wave
nothing_run = start_wave false jobs table

abbrev wave_or : Wave → Option Wave → Wave
wave_or s none = s
wave_or s (some u) = u

abbrev bad_canary : Wave
bad_canary = wave_or nothing_run (wave_result opts 2 one_bad false (take 1 jobs) table)

one_canary : clamp_canary opts.canary_count (length jobs) ≡ 1
unfolding clamp_canary
one_canary = refl

canary_ends :
    wave_result opts 2
      (world one_bad false).first
      false
      (take (clamp_canary opts.canary_count (length jobs)) jobs)
      table
    ≡ some bad_canary
unfolding rollout wave_result wave_run wave_step start_wave is_done clamp_canary should_abort
    percent canary_wait run_one run_one_command
canary_ends = refl

some_canary : 0 < clamp_canary opts.canary_count (length jobs)
some_canary = omega (arith, one_canary)

at_least_one : 1 ≤ 50
at_least_one = omega arith

at_most_hundred : 50 ≤ 100
at_most_hundred = omega arith

bad_canary_failures : bad_canary.failures ≡ 1
unfolding rollout wave_result wave_run wave_step start_wave is_done clamp_canary should_abort
    percent canary_wait run_one run_one_command
bad_canary_failures = refl

half_failed : 50 * clamp_canary opts.canary_count (length jobs) ≤ bad_canary.failures * 100
half_failed = rw (one_canary, bad_canary_failures) (omega arith)

healthy_bad : IsHealthyWorld (world one_bad false)
healthy_bad = record { first = (tt, (refl, tt)); second = (tt, (refl, tt)); skips = λ k. refl }

rollout-Aborts_example :
    Aborts (remainder opts jobs) bad_canary (rollout opts 2 (world one_bad false) jobs table)
rollout-Aborts_example =
    rollout-Aborts opts 2 (world one_bad false) jobs table bad_canary healthy_bad jobs-Apart
      jobs-IsRunning some_canary canary_ends at_least_one at_most_hundred half_failed
