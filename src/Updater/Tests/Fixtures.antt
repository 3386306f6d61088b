-- ===== src/Updater/Tests/Fixtures.antt =====
-- Two hosts, a good and a bad one, and the requests of the tests.
use ubuntu_auto_update.Base.{Bool, true, false, List, [], ◌∷◌, none, codes, Error, message, ok, err}
use ubuntu_auto_update.Base.Int.{ℤ, pos}
use ubuntu_auto_update.Runs.{update, UpdateRun, Runs, new_row}
use ubuntu_auto_update.Updater.Options.{BulkRunOptions}
use ubuntu_auto_update.Updater.Command.Defs.{started, clean, MarkWorld}
use ubuntu_auto_update.Updater.Reboot.{RebootWorld, returned, unreachable, reached}
use ubuntu_auto_update.Updater.Host.{HostWorld}
use ubuntu_auto_update.Updater.Wave.{Job, Move, acquire, finish, expire, cancel}
use ubuntu_auto_update.Updater.Rollout.{RolloutWorld}
use ubuntu_auto_update.Updater.Start.{Coordinator, StartWorld}

-- Canaries: one; the rest is skipped when half of them fail.
abbrev pub opts_with : ℤ → BulkRunOptions
opts_with wait = record {
  host_ids = 7 ∷ 9 ∷ [];
  concurrency = pos 2;
  triggered_by = codes "admin";
  canary_count = pos 1;
  canary_wait_seconds = wait;
  abort_on_failure_pct = pos 50;
  kind = none;
  steps = [];
  use_sudo = true;
  playbook_id = none;
  security_only = false;
  reboot = false;
}

abbrev pub opts : BulkRunOptions
opts = opts_with (pos 0)

abbrev pub quiet_reboot : RebootWorld
quiet_reboot = record {
  boot_id = ok (codes "a");
  echo_fault = none;
  session = none;
  issued = returned;
  notice_fault = none;
  probes = unreachable ∷ reached (ok (codes "b")) ∷ [];
  back_fault = none;
}

abbrev pub good_host : HostWorld
good_host = record {
  connect = ok (codes "ubuntu");
  connect_fault = none;
  command = λ k. started none (record { text = codes "ok"; fault = none } ∷ []) clean;
  reboot = quiet_reboot;
  finish_fault = none;
  now = 5;
}

abbrev pub bad_host : HostWorld
bad_host = record good_host { connect = err (message (codes "refused")) }

abbrev pub mark : MarkWorld
mark = record { append_fault = none; finish_fault = none; now = 6 }

abbrev pub first_row : UpdateRun
first_row = new_row 1 0 7 (codes "admin") update (codes "g") none

abbrev pub second_row : UpdateRun
second_row = new_row 2 0 9 (codes "admin") update (codes "g") none

abbrev pub table : Runs
table = record { rows = first_row ∷ second_row ∷ []; next_id = 3 }

abbrev pub jobs : List Job
jobs = record { host_id = 7; run_id = 1 } ∷ record { host_id = 9; run_id = 2 } ∷ []

abbrev pub deadline : Error
deadline = message (codes "context deadline exceeded")

-- The first host fails to connect, the context expires, the second host is cancelled.
abbrev pub mixed : List Move
mixed = acquire ∷ expire ∷ finish 0 bad_host ∷ cancel deadline mark ∷ []

abbrev pub one_good : List Move
one_good = acquire ∷ finish 0 good_host ∷ []

abbrev pub one_bad : List Move
one_bad = acquire ∷ finish 0 bad_host ∷ []

abbrev pub world : List Move → Bool → RolloutWorld
world first cut = record {
  first = first;
  second = one_good;
  skips = λ k. mark;
  expires_in_pause = cut;
}

abbrev pub coordinator : Coordinator
coordinator = record { table = record { rows = []; next_id = 1 }; in_flight = [] }

abbrev pub start_world : StartWorld
start_world = record { uuid = ok (codes "g"); create_fault = λ k. none; now = 0 }
