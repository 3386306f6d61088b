-- ===== src/Updater/Tests/Hosts.antt =====
-- The theorems on one host, at the hosts of the fixtures.
use ubuntu_auto_update.Base.{
  ℕ, zero, suc, ◌≤◌, ◌<◌, ◌≡◌, refl, false, ◌||◌, List, [], ◌∷◌, ◌++◌, none, some, Text, codes,
  length, take, arith, ok, is_some, message,
}
use ubuntu_auto_update.Runs.{UpdateRun, find_row, max_run_output, new_row}
use ubuntu_auto_update.Runs.Output.{joined}
use ubuntu_auto_update.Updater.Command.Defs.{
  Chunk, CommandWorld, started, clean, exit_status, pump_to_run,
}
use ubuntu_auto_update.Updater.Command.Rows.{Closes}
use ubuntu_auto_update.Updater.Command.Pump.{stored, pump_to_run_lem}
use ubuntu_auto_update.Updater.Reboot.{Probe, unreachable, reached, poll}
use ubuntu_auto_update.Updater.Reboot.Evidence.{saw_new_boot, saw_down_then_up, poll_iff}
use ubuntu_auto_update.Updater.Host.{run_one, commands_for}
use ubuntu_auto_update.Updater.Host.Outcome.{final_status, run_one-Closes, run_one_ok, all_clean}
use ubuntu_auto_update.Updater.Tests.Fixtures.{opts, good_host, bad_host, table, first_row}

run_one-Closes_example :
    let r = run_one opts bad_host 7 1 table in
    Closes 1 (final_status r.ok) table r.table
    × (r.notice.succeeded ≡ r.ok)
    × (r.notice.host_id ≡ 7)
    × (r.notice.run_id ≡ 1)
run_one-Closes_example = run_one-Closes opts bad_host 7 1 table refl

run_one_ok_example :
    (run_one opts good_host 7 1 table).ok
    ≡ all_clean good_host.command 0 (commands_for opts opts.steps (codes "ubuntu"))
run_one_ok_example = run_one_ok opts good_host 7 1 table refl

-- The second command exits with 3.
abbrev second_exits : ℕ → CommandWorld
second_exits zero = started none [] clean
second_exits (suc k) = started none [] (exit_status 3)

abbrev second_exits_third_clean : ℕ → CommandWorld
second_exits_third_clean zero = started none [] clean
second_exits_third_clean (suc zero) = started none [] (exit_status 3)
second_exits_third_clean (suc (suc k)) = started none [] clean

same_until_second : (j : ℕ) → j ≤ 1 → second_exits j ≡ second_exits_third_clean j
same_until_second zero le = refl
same_until_second (suc zero) le = refl
same_until_second (suc (suc j)) le = absurd (omega (arith, le))

abbrev three_steps : List Text
three_steps = codes "a" ∷ codes "b" ∷ codes "c" ∷ []

before_second : 0 ≤ 1
before_second = omega arith

abbrev two_chunks : List Chunk
two_chunks =
    record { text = codes "ab"; fault = none }
    ∷ record { text = codes "c"; fault = some (message []) }
    ∷ []

first_row_short : length first_row.output ≤ max_run_output
unfolding max_run_output new_row
first_row_short = omega arith

first_row_found : find_row 1 table.rows ≡ some first_row
unfolding find_row new_row
first_row_found = refl

pump_to_run_lem_example :
    (r : UpdateRun) × (find_row 1 (pump_to_run 1 two_chunks table).rows ≡ some r)
    × (r.output ≡ take max_run_output (first_row.output ++ joined (stored two_chunks)))
    × (r.status ≡ first_row.status)
pump_to_run_lem_example =
    pump_to_run_lem 1 two_chunks table first_row first_row_short first_row_found

-- The old boot id, an outage, the old boot id again.
abbrev outage : List Probe
outage = reached (ok (codes "a")) ∷ unreachable ∷ reached (ok (codes "a")) ∷ []

poll_iff_example :
    is_some (poll (codes "a") false outage)
    ≡ (saw_new_boot (codes "a") outage || saw_down_then_up outage)
poll_iff_example = poll_iff (codes "a") outage

three_hosts : 0 < 3
three_hosts = omega arith
