-- ===== src/Updater/Tests/Requests.antt =====
-- A request for a bulk run of a playbook.
use ubuntu_auto_update.Base.{
  ℕ, ◌≡◌, refl, true, false, none, text_eq, arith, [], ◌∷◌, some, codes, ok, Result, Error,
}
use ubuntu_auto_update.Base.Int.{pos}
use ubuntu_auto_update.Playbooks.Store.{Playbook}
use ubuntu_auto_update.Updater.Start.{StartWorld, Started, start, in_flight_count}
use ubuntu_auto_update.Updater.Requests.{
  BulkPlaybookRequest, playbook_run, handle_bulk_run_playbook, IsAdmitted,
  handle_bulk_run_playbook-IsAdmitted,
}
use ubuntu_auto_update.Runs.Laws.{IsValid}
use ubuntu_auto_update.Updater.Overlap.{IsReady, IsLaunched, handle_bulk_run_playbook-Overlaps}
use ubuntu_auto_update.Updater.Tests.Fixtures.{coordinator, start_world}

abbrev listing : Playbook
listing = record {
  id = 1;
  name = codes "list";
  description = [];
  steps = codes "ls" ∷ [];
  use_sudo = true;
  created_by = codes "admin";
  created_at = 0;
  updated_at = 0;
}

abbrev request : BulkPlaybookRequest
request = record {
  host_ids = 7 ∷ 9 ∷ [];
  playbook_id = 1;
  concurrency = pos 2;
  canary_count = pos 0;
  canary_wait_seconds = pos 0;
  abort_on_failure_pct = pos 0;
}

abbrev load : ℕ → Result Error Playbook
load i = ok listing

abbrev expected : Started
expected = start start_world (playbook_run request (some (codes "admin")) listing) coordinator

is_started :
    (handle_bulk_run_playbook start_world load request
      (some (codes "admin"))
      coordinator
      coordinator).started
    ≡ some expected
unfolding handle_bulk_run_playbook in_flight_count
is_started = refl

handle_bulk_run_playbook-IsAdmitted_example :
    IsAdmitted start_world load request (some (codes "admin")) coordinator coordinator expected
handle_bulk_run_playbook-IsAdmitted_example =
    handle_bulk_run_playbook-IsAdmitted start_world load request (some (codes "admin")) coordinator
      coordinator expected is_started

-- A second request, for other hosts, that gets another group id.
abbrev other_request : BulkPlaybookRequest
other_request = record request { host_ids = 7 ∷ [] }

abbrev other_world : StartWorld
other_world = record start_world { uuid = ok (codes "h") }

request-IsReady : IsReady start_world load request listing (codes "g")
request-IsReady = record {
  some_host = omega arith;
  few_hosts = omega arith;
  found = refl;
  drawn = refl;
  healthy = λ i. refl;
}

other_request-IsReady : IsReady other_world load other_request listing (codes "h")
other_request-IsReady = record {
  some_host = omega arith;
  few_hosts = omega arith;
  found = refl;
  drawn = refl;
  healthy = λ i. refl;
}

coordinator_idle : in_flight_count coordinator ≡ 0
unfolding in_flight_count
coordinator_idle = refl

ids_differ : text_eq (codes "h") (codes "g") ≡ false
unfolding text_eq
ids_differ = refl

no_rows-IsValid : IsValid coordinator.table
no_rows-IsValid = record { drawn = tt; distinct = tt }

handle_bulk_run_playbook-Overlaps_example :
    (a : Started) × ((b : Started) × IsLaunched request
        (codes "g")
        (handle_bulk_run_playbook start_world load request none coordinator coordinator)
        a
      × IsLaunched other_request
          (codes "h")
          (handle_bulk_run_playbook other_world load other_request none coordinator a.after)
          b
      × (in_flight_count b.after ≡ 2))
handle_bulk_run_playbook-Overlaps_example =
    handle_bulk_run_playbook-Overlaps start_world other_world load request other_request none none
      coordinator listing listing (codes "g") (codes "h") coordinator_idle no_rows-IsValid
      request-IsReady other_request-IsReady ids_differ
