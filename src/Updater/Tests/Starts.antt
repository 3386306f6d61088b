-- ===== src/Updater/Tests/Starts.antt =====
-- Start for two hosts, with and without a statement that fails.
use ubuntu_auto_update.Base.{
  ℕ, zero, suc, ◌<◌, ◌≡◌, refl, sym, ◌∙◌, false, [], Option, none, some, length, arith, codes,
  Fault, at_query,
}
use ubuntu_auto_update.Runs.{create_run_full, new_row}
use ubuntu_auto_update.Runs.Laws.{IsValid}
use ubuntu_auto_update.Updater.Options.{clamp_canary, should_abort, percent, clamp_concurrency}
use ubuntu_auto_update.Updater.Command.Defs.{run_one_command}
use ubuntu_auto_update.Updater.Host.{run_one}
use ubuntu_auto_update.Updater.Wave.{start_wave, wave_step, wave_run, is_done}
use ubuntu_auto_update.Updater.Rollout.{Rolled, finished, rollout, wave_result, canary_wait}
use ubuntu_auto_update.Updater.Rollout.Settle.{finished-≢}
use ubuntu_auto_update.Updater.Start.{StartWorld, Launch, start, create_rows}
use ubuntu_auto_update.Updater.Start.Effects.{Launches, start-Launches, Strands, start-Strands}
use ubuntu_auto_update.Updater.Bulk.{IsComplete, bulk_completes}
use ubuntu_auto_update.Updater.Tests.Fixtures.{
  opts, coordinator, start_world, one_good, world, deadline,
}
use ubuntu_auto_update.Updater.Tests.Rollouts.{healthy, rolled_or, nothing}

two_hosts : 0 < length opts.host_ids
two_hosts = omega arith

empty-IsValid : IsValid coordinator.table
empty-IsValid = record { drawn = tt; distinct = tt }

start-Launches_example : Launches opts (codes "g") coordinator (start start_world opts coordinator)
start-Launches_example =
    start-Launches start_world opts coordinator (codes "g") two_hosts refl (λ k. refl) empty-IsValid

abbrev second_fails : ℕ → Option Fault
second_fails zero = none
second_fails (suc k) = some (at_query deadline)

abbrev failing_world : StartWorld
failing_world = record start_world { create_fault = second_fails }

only_first : (i : ℕ) → i < 1 → failing_world.create_fault i ≡ none
only_first zero lt = refl
only_first (suc i) lt = absurd (omega (arith, lt))

second_host : 1 < length opts.host_ids
second_host = omega arith

start-Strands_example : Strands opts 1 coordinator (start failing_world opts coordinator)
start-Strands_example =
    start-Strands failing_world opts coordinator (codes "g") 1 (at_query deadline) second_host refl
      only_first refl empty-IsValid

abbrev no_launch : Launch
no_launch = record { opts = opts; group_id = []; jobs = []; conc = 0 }

abbrev launch_or : Launch → Option Launch → Launch
launch_or l none = l
launch_or l (some m) = m

abbrev launched : Launch
launched = launch_or no_launch (start start_world opts coordinator).launched

is_launched : (start start_world opts coordinator).launched ≡ some launched
unfolding start create_rows create_run_full
is_launched = refl

abbrev returned : Rolled
returned = rolled_or nothing (
    rollout launched.opts launched.conc (world one_good false) launched.jobs
      (start start_world opts coordinator).after.table)

is_returned :
    rollout launched.opts launched.conc
      (world one_good false)
      launched.jobs
      (start start_world opts coordinator).after.table
    ≡ some returned
unfolding rollout wave_result wave_run wave_step start_wave is_done clamp_canary should_abort
    percent canary_wait run_one run_one_command start create_rows create_run_full new_row
    clamp_concurrency
is_returned = refl

returned_ending : returned.ending ≡ finished
unfolding rollout wave_result wave_run wave_step start_wave is_done clamp_canary should_abort
    percent canary_wait run_one run_one_command start create_rows create_run_full new_row
    clamp_concurrency
returned_ending = refl

bulk_completes_example : IsComplete opts coordinator launched.jobs returned
bulk_completes_example =
    bulk_completes start_world opts coordinator (codes "g") (world one_good false) launched returned
      two_hosts refl (λ k. refl) empty-IsValid (healthy false) is_launched is_returned
      (λ e. finished-≢ (sym returned_ending ∙ e))
