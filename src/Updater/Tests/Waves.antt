-- ===== src/Updater/Tests/Waves.antt =====
-- A wave in which one host fails and the other is cancelled.
use ubuntu_auto_update.Base.{◌≤◌, ◌≡◌, refl, true, false, Option, none, some, length, All, arith}
use ubuntu_auto_update.Runs.{running, Runs}
use ubuntu_auto_update.Updater.Command.Rows.{status_of}
use ubuntu_auto_update.Updater.Wave.{Wave, start_wave, wave_step, wave_run, is_done}
use ubuntu_auto_update.Updater.Wave.Settle.{Apart, IsRunning}
use ubuntu_auto_update.Updater.Wave.Invariant.{IsHealthy, IsSettled, wave_run_settles}
use ubuntu_auto_update.Updater.Wave.Semaphore.{wave_run_bounded}
use ubuntu_auto_update.Updater.Tests.Fixtures.{opts, table, jobs, mixed}

abbrev wave_or : Wave → Option Wave → Wave
wave_or s none = s
wave_or s (some u) = u

abbrev start_state : Wave
start_state = start_wave false jobs table

abbrev end_state : Wave
end_state = wave_or start_state (wave_run opts 2 mixed start_state)

runs_to_end : wave_run opts 2 mixed start_state ≡ some end_state
unfolding start_wave wave_run wave_step
runs_to_end = refl

pub jobs-Apart : Apart jobs
jobs-Apart = (((λ e. omega (arith, e)), tt), (tt, tt))

pub jobs-IsRunning : All (IsRunning (status_of table)) jobs
unfolding ubuntu_auto_update.Runs.find_row ubuntu_auto_update.Runs.new_row
jobs-IsRunning = (refl, (refl, tt))

mixed-IsHealthy : All IsHealthy mixed
mixed-IsHealthy = (tt, (tt, (refl, (refl, tt))))

end_state_done : is_done end_state ≡ true
unfolding is_done wave_run wave_step start_wave
end_state_done = refl

two_failures : end_state.failures ≡ 2
unfolding wave_run wave_step start_wave ubuntu_auto_update.Updater.Host.run_one
two_failures = refl

wave_run_settles_example : IsSettled jobs table end_state.table end_state.failures
wave_run_settles_example =
    wave_run_settles opts 2 false jobs table mixed end_state jobs-Apart jobs-IsRunning
      mixed-IsHealthy runs_to_end end_state_done

wave_run_bounded_example : length end_state.active ≤ 2
wave_run_bounded_example = wave_run_bounded opts 2 false jobs table mixed end_state runs_to_end
