-- ===== src/Scheduler/Defs.antt =====
-- The table schedules, its statements, the maintenance window and Tick.
use ubuntu_auto_update.Base.{
  ℕ, zero, suc, ◌+◌, ◌-◌, ◌*◌, ◌/◌, ◌%◌, ◌^◌, Bool, true, false, ◌&&◌, List, [], ◌∷◌, ◌++◌, Option,
  none, some, Text, codes, ltb, leb, ◌==◌, if◌then◌else◌, Result, ok, err, Error, no_rows,
}
use ubuntu_auto_update.Base.Int.{ℤ}
use ubuntu_auto_update.Runs.{playbook}
use ubuntu_auto_update.Playbooks.Store.{Playbook}
use ubuntu_auto_update.Updater.Options.{BulkRunOptions}

pub record Schedule : Type 0 where
  pub id : ℕ
  pub name : Text
  pub host_ids : List ℕ
  pub interval_minutes : ℕ
  pub next_run_at : ℕ
  pub enabled : Bool
  pub created_by : Text
  pub created_at : ℕ
  pub playbook_id : Option ℕ
  pub concurrency : ℤ
  pub canary_count : ℤ
  pub canary_wait_seconds : ℤ
  pub abort_on_failure_pct : ℤ
  pub window_start_minute : Option ℕ
  pub window_end_minute : Option ℕ
  pub window_days : ℕ
  pub security_only : Bool

pub record Schedules : Type 0 where
  pub rows : List Schedule
  pub next_id : ℕ

-- `start_at` is none for the zero time.
pub record CreateOptions : Type 0 where
  pub name : Text
  pub host_ids : List ℕ
  pub interval_minutes : ℕ
  pub start_at : Option ℕ
  pub created_by : Text
  pub playbook_id : Option ℕ
  pub concurrency : ℤ
  pub canary_count : ℤ
  pub canary_wait_seconds : ℤ
  pub abort_on_failure_pct : ℤ
  pub window_start_minute : Option ℕ
  pub window_end_minute : Option ℕ
  pub window_days : ℕ
  pub security_only : Bool

abbrev pub or_interval : ℕ → ℕ → Option ℕ → ℕ
or_interval now minutes none = now + minutes * 60
or_interval now minutes (some t) = t

unfoldable pub create_schedule :
    Option Error → ℕ → CreateOptions → Schedules → Result Error Schedule × Schedules
create_schedule (some e) now o t = (err e, t)
create_schedule none now o t =
    let s : Schedule = record {
      id = t.next_id;
      name = o.name;
      host_ids = o.host_ids;
      interval_minutes = o.interval_minutes;
      next_run_at = or_interval now o.interval_minutes o.start_at;
      enabled = true;
      created_by = o.created_by;
      created_at = now;
      playbook_id = o.playbook_id;
      concurrency = o.concurrency;
      canary_count = o.canary_count;
      canary_wait_seconds = o.canary_wait_seconds;
      abort_on_failure_pct = o.abort_on_failure_pct;
      window_start_minute = o.window_start_minute;
      window_end_minute = o.window_end_minute;
      window_days = if o.window_days == 0 then 127 else o.window_days;
      security_only = o.security_only;
    } in
    (ok s, record { rows = t.rows ++ s ∷ []; next_id = suc t.next_id })

abbrev pub day_seconds : ℕ
day_seconds = 86400

-- time.Weekday, 0 for Sunday; the epoch was a Thursday.
unfoldable pub weekday : ℕ → ℕ
weekday t = (t / day_seconds + 4) % 7

-- now.Hour()*60 + now.Minute()
unfoldable pub minute_of_day : ℕ → ℕ
minute_of_day t = t / 60 % 1440

-- s.WindowDays & (1 << d) != 0
unfoldable pub is_day : ℕ → ℕ → Bool
is_day days d = (days / 2 ^ d) % 2 == 1

abbrev pub in_window_at : ℕ → ℕ → ℕ → ℕ → Bool
in_window_at days start end now =
    let minute = minute_of_day now in
    if leb start end
    then is_day days (weekday now) && (leb start minute && ltb minute end)
    else if leb start minute
    then is_day days (weekday now)
    else if ltb minute end
    then is_day days (weekday (now - day_seconds))
    else false

unfoldable pub in_window : Schedule → ℕ → Bool
in_window s now = elim s.window_start_minute [
  | none ↦ true
  | some start ↦ elim s.window_end_minute [
    | none ↦ true
    | some end ↦ in_window_at s.window_days start end now
  ]
]

-- `midnight.AddDate(0, 0, i).Add(start)`
abbrev pub opening : ℕ → ℕ → ℕ → ℕ
opening start now i = (now / day_seconds + i) * day_seconds + start * 60

abbrev pub is_opening : ℕ → ℕ → ℕ → ℕ → Bool
is_opening days start now i =
    ltb now (opening start now i) && is_day days (weekday (opening start now i))

-- The loop over the days, from day `i` on, with `n` days left.
unfoldable pub next_opening : ℕ → ℕ → ℕ → ℕ → ℕ → ℕ
next_opening days start now zero i = now + day_seconds
next_opening days start now (suc n) i =
    let rest = next_opening days start now n (suc i) in
    if is_opening days start now i then opening start now i else rest

unfoldable pub next_window_start : Schedule → ℕ → ℕ
next_window_start s now = elim s.window_start_minute [
  | none ↦ now
  | some start ↦ next_opening s.window_days start now 8 0
]

abbrev pub change_schedule : ℕ → (Schedule → Schedule) → List Schedule → List Schedule
change_schedule i f [] = []
change_schedule i f (s ∷ ss) = (if s.id == i then f s else s) ∷ change_schedule i f ss

abbrev pub find_schedule : ℕ → List Schedule → Option Schedule
find_schedule i [] = none
find_schedule i (s ∷ ss) = let rest = find_schedule i ss in if s.id == i then some s else rest

-- The row of SetEnabled's statement.
unfoldable pub switch_row : Bool → ℕ → Schedule → Schedule
switch_row enabled now s = record s {
  enabled = enabled;
  next_run_at =
      if enabled && ltb s.next_run_at now then now + s.interval_minutes * 60 else s.next_run_at;
}

unfoldable pub set_enabled :
    Option Error → ℕ → ℕ → Bool → Schedules → Result Error Schedule × Schedules
set_enabled (some e) now i enabled t = (err e, t)
set_enabled none now i enabled t =
    let rows = change_schedule i (switch_row enabled now) t.rows in
    (elim (find_schedule i rows) [ none ↦ err no_rows | some s ↦ ok s ], record t { rows = rows })

abbrev pub is_due : ℕ → Schedule → Bool
is_due now s = s.enabled && leb s.next_run_at now

unfoldable pub claim_row : ℕ → Schedule → Schedule
claim_row now s = record s { next_run_at = now + s.interval_minutes * 60 }

unfoldable pub claim_rows : ℕ → List Schedule → List Schedule
claim_rows now [] = []
claim_rows now (s ∷ ss) = (if is_due now s then claim_row now s else s) ∷ claim_rows now ss

-- RETURNING: the rows of the statement, as they are after it.
unfoldable pub claimed : ℕ → List Schedule → List Schedule
claimed now [] = []
claimed now (s ∷ ss) =
    let rest = claimed now ss in if is_due now s then claim_row now s ∷ rest else rest

unfoldable pub claim_due : Option Error → ℕ → Schedules → Result Error (List Schedule) × Schedules
claim_due (some e) now t = (err e, t)
claim_due none now t = (ok (claimed now t.rows), record t { rows = claim_rows now t.rows })

-- What a fired schedule asks of the coordinator: the apt path.
unfoldable pub base_options : Schedule → BulkRunOptions
base_options s = record {
  host_ids = s.host_ids;
  triggered_by = codes "schedule:" ++ s.name;
  concurrency = s.concurrency;
  canary_count = s.canary_count;
  canary_wait_seconds = s.canary_wait_seconds;
  abort_on_failure_pct = s.abort_on_failure_pct;
  kind = none;
  steps = [];
  use_sudo = false;
  playbook_id = none;
  security_only = s.security_only;
  reboot = false;
}

unfoldable pub playbook_options : Schedule → ℕ → Playbook → BulkRunOptions
unfolding base_options
playbook_options s i p = record (base_options s) {
  kind = some playbook;
  steps = p.steps;
  use_sudo = p.use_sudo;
  playbook_id = some i;
}

-- What the world does while one claimed schedule is handled: `load` is playbooks.Get.
pub record FireWorld : Type 0 where
  pub defer_fault : Option Error
  pub load : ℕ → Result Error Playbook

-- What Tick does with one claimed schedule.
pub data Fired : Type 0 where
  skipped : Fired
  -- the statement that defers it, to this time
  deferred : ℕ → Fired
  -- the playbook could not be loaded
  unloaded : Error → Fired
  -- coord.Start with these options
  fired : BulkRunOptions → Fired

abbrev pub loaded : Schedule → ℕ → Result Error Playbook → Fired
loaded s i (err e) = unloaded e
loaded s i (ok p) = fired (playbook_options s i p)

abbrev pub fire_options : FireWorld → Schedule → Option ℕ → Fired
fire_options w s none = fired (base_options s)
fire_options w s (some i) = loaded s i (w.load i)

abbrev pub in_time : FireWorld → ℕ → Schedule → Bool → Fired
in_time w now s true = fire_options w s s.playbook_id
in_time w now s false = deferred (next_window_start s now)

abbrev pub with_hosts : FireWorld → ℕ → Schedule → List ℕ → Fired
with_hosts w now s [] = skipped
with_hosts w now s (h ∷ hs) = in_time w now s (in_window s now)

unfoldable pub fire_one : FireWorld → ℕ → Schedule → Fired
fire_one w now s = with_hosts w now s s.host_ids

abbrev pub defer_row : ℕ → Schedule → Schedule
defer_row next s = record s { next_run_at = next }

-- UPDATE schedules SET next_run_at = $2 WHERE id = $1, where the driver does not refuse it.
abbrev pub apply_fired : Option Error → ℕ → Fired → List Schedule → List Schedule
apply_fired (some e) i f ss = ss
apply_fired none i (deferred next) ss = change_schedule i (defer_row next) ss
apply_fired none i skipped ss = ss
apply_fired none i (unloaded e) ss = ss
apply_fired none i (fired o) ss = ss

-- The calls of coord.Start, in their order.
abbrev pub starts_of : Fired → List BulkRunOptions
starts_of (fired o) = o ∷ []
starts_of skipped = []
starts_of (deferred t) = []
starts_of (unloaded e) = []

-- The loop of Tick over the claimed schedules, from the k-th on. What Start answers changes nothing.
unfoldable pub fire_all :
    (ℕ → FireWorld) → ℕ → ℕ → List Schedule → List Schedule → List BulkRunOptions × List Schedule
fire_all w k now [] ss = ([], ss)
fire_all w k now (s ∷ due) ss =
    let f = fire_one (w k) now s in
    let (starts, ss') = fire_all w (suc k) now due (apply_fired (w k).defer_fault s.id f ss) in
    (starts_of f ++ starts, ss')

abbrev pub after_claim :
    (ℕ → FireWorld) → ℕ → Result Error (List Schedule) × Schedules → List BulkRunOptions × Schedules
after_claim w now (err e, t) = ([], t)
after_claim w now (ok due, t) =
    let (starts, rows) = fire_all w 0 now due t.rows in (starts, record t { rows = rows })

-- `claim_time` is NOW() of the statement and `now` is time.Now() after it.
unfoldable pub tick :
    Option Error → ℕ → ℕ → (ℕ → FireWorld) → Schedules → List BulkRunOptions × Schedules
tick claim_fault claim_time now w t = after_claim w now (claim_due claim_fault claim_time t)
