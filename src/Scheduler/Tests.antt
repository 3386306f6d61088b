-- ===== src/Scheduler/Tests.antt =====
-- A schedule for the night from Saturday to Sunday, 22:00 to 02:00, and the theorems at it.
use ubuntu_auto_update.Base.{
  ℕ, zero, suc, ◌+◌, ◌*◌, ◌≤◌, ◌<◌, ◌≡◌, ◌≢◌, ◌↔◌, ◌⊎◌, inl, inr, refl, Bool, true, false, List, [],
  ◌∷◌, Option, none, some, Text, codes, All, arith, length, ok, err, Result, message,
}
use ubuntu_auto_update.Base.Int.{pos}
use ubuntu_auto_update.Scheduler.Defs.{
  Schedule, Schedules, FireWorld, tick, claimed, claim_due, fire_one, deferred, in_window,
  next_window_start, is_day, is_due, switch_row, weekday, minute_of_day,
}
use ubuntu_auto_update.Scheduler.Window.{IsOpenFrom, in_window_iff}
use ubuntu_auto_update.Scheduler.Next.{IsNextOpening}
use ubuntu_auto_update.Scheduler.Claim.{HasInterval, IsClaimed, claim_due_once}
use ubuntu_auto_update.Scheduler.Fire.{AskedBy, tick-AskedBy, fire_one_defers}
use ubuntu_auto_update.Scheduler.Request.{
  CreateRequest, CreateWorld, handle_create_schedule, check_create, check_window, field_cases,
}
use ubuntu_auto_update.Scheduler.Accepted.{IsSane, handle_create_schedule-IsSane}

abbrev night : Schedule
night = record {
  id = 1;
  name = codes "night";
  host_ids = 7 ∷ [];
  interval_minutes = 60;
  next_run_at = 0;
  enabled = true;
  created_by = codes "admin";
  created_at = 0;
  playbook_id = none;
  concurrency = pos 0;
  canary_count = pos 0;
  canary_wait_seconds = pos 0;
  abort_on_failure_pct = pos 0;
  window_start_minute = some 1320;
  window_end_minute = some 120;
  window_days = 64;
  security_only = false;
}

abbrev schedules : Schedules
schedules = record { rows = night ∷ []; next_id = 2 }

-- Sunday, 4 January 1970, 01:00 and 12:00.
abbrev sunday_night : ℕ
sunday_night = 262800

abbrev sunday_noon : ℕ
sunday_noon = 302400

abbrev quiet : FireWorld
quiet = record { defer_fault = none; load = λ i. err (message (codes "none")) }

sunday_night_open : in_window night sunday_night ≡ true
unfolding in_window weekday minute_of_day is_day
sunday_night_open = refl

noon_closed : in_window night sunday_noon ≡ false
unfolding in_window weekday minute_of_day is_day
noon_closed = refl

start_lt : 1320 < 1440
start_lt = omega arith

end_lt : 120 < 1440
end_lt = omega arith

abbrev opens_minute : ℕ
opens_minute = 1320

abbrev closes_minute : ℕ
closes_minute = 120

differ : opens_minute ≢ closes_minute
differ e = omega (arith, e)

night_later : 86400 ≤ sunday_night
night_later = omega arith

noon_later : 86400 ≤ sunday_noon
noon_later = omega arith

saturday : 6 < 7
saturday = omega arith

saturday_set : is_day 64 6 ≡ true
unfolding is_day
saturday_set = refl

one_host : 0 < length night.host_ids
one_host = omega arith

in_window_iff_example :
    (in_window night sunday_night ≡ true) ↔ ((d : ℕ) × IsOpenFrom 64 1320 120 sunday_night d)
in_window_iff_example =
    in_window_iff night 1320 120 sunday_night refl refl start_lt end_lt night_later

fire_one_defers_example :
    (fire_one quiet sunday_noon night ≡ deferred (next_window_start night sunday_noon))
    × (in_window night (next_window_start night sunday_noon) ≡ true)
    × IsNextOpening 64 1320 sunday_noon (next_window_start night sunday_noon)
fire_one_defers_example =
    fire_one_defers quiet sunday_noon 1320 120 6 night refl refl start_lt end_lt differ noon_later
      saturday saturday_set one_host noon_closed

-- The same schedule, for a playbook that is found.
abbrev listed : Schedules
listed = record { rows = record night { playbook_id = some 3 } ∷ []; next_id = 2 }

abbrev with_playbook : FireWorld
with_playbook = record {
  defer_fault = none;
  load = λ i. ok (record {
    id = i;
    name = codes "list";
    description = [];
    steps = codes "ls" ∷ [];
    use_sudo = false;
    created_by = codes "admin";
    created_at = 0;
    updated_at = 0;
  });
}

tick-AskedBy_example :
    All
      (AskedBy (λ k. with_playbook) 0 sunday_night (claimed sunday_night listed.rows))
      (tick none sunday_night sunday_night (λ k. with_playbook) listed).0
tick-AskedBy_example = tick-AskedBy sunday_night sunday_night (λ k. with_playbook) listed

-- The tick does start it.
listed_runs : length (tick none sunday_night sunday_night (λ k. with_playbook) listed).0 ≡ 1
unfolding tick claim_due ubuntu_auto_update.Scheduler.Defs.fire_all claimed fire_one
    ubuntu_auto_update.Scheduler.Defs.claim_row in_window minute_of_day is_day weekday
listed_runs = refl

night_interval : HasInterval night
night_interval = omega arith

claim_due_once_example :
    let (due, t') = claim_due none sunday_night schedules in
    (due ≡ ok (claimed sunday_night schedules.rows))
    × All (IsClaimed sunday_night) (claimed sunday_night schedules.rows)
    × ((claim_due none sunday_night t').0 ≡ ok [])
claim_due_once_example = claim_due_once sunday_night schedules (night_interval, tt)

abbrev request : CreateRequest
request = record {
  name = codes "night";
  host_ids = 7 ∷ [];
  interval_minutes = pos 60;
  start_at = some 0;
  playbook_id = none;
  concurrency = pos 0;
  canary_count = pos 0;
  canary_wait_seconds = pos 0;
  abort_on_failure_pct = pos 0;
  window_start_minute = some (pos 1320);
  window_end_minute = some (pos 120);
  window_days = pos 64;
  security_only = false;
}

abbrev create_world : CreateWorld
create_world = record {
  load = λ i. err (message (codes "none"));
  create_fault = none;
  now = 0;
  user = some (codes "admin");
}

abbrev empty : Schedules
empty = record { rows = []; next_id = 1 }

request_accepted : handle_create_schedule create_world request empty ≡ (ok night, schedules)
unfolding handle_create_schedule check_create check_window field_cases
    ubuntu_auto_update.Scheduler.Defs.create_schedule
    ubuntu_auto_update.Scheduler.Request.options_of ubuntu_auto_update.Base.trim_space
request_accepted = refl

handle_create_schedule-IsSane_example : IsSane night
handle_create_schedule-IsSane_example =
    handle_create_schedule-IsSane create_world request empty schedules night request_accepted
