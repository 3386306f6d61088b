-- ===== src/Scheduler/Request.antt =====
-- The requests of backend/cmd/api/schedules.go, after their JSON is decoded and the id of
-- the path is read.
use ubuntu_auto_update.Base.{
  ℕ, Bool, true, false, ◌&&◌, ◌||◌, not, List, [], ◌∷◌, Option, none, some, Text, codes, is_empty,
  trim_space, length, ltb, ◌==◌, if◌then◌else◌, Result, ok, err, Error, is_no_rows, is_some,
}
use ubuntu_auto_update.Base.Int.{ℤ, pos, negsuc, to_ℕ, is_neg}
use ubuntu_auto_update.Playbooks.Store.{Playbook}
use ubuntu_auto_update.Scheduler.Defs.{
  Schedule, Schedules, CreateOptions, create_schedule, set_enabled,
}

pub record CreateRequest : Type 0 where
  pub name : Text
  pub host_ids : List ℕ
  pub interval_minutes : ℤ
  pub start_at : Option ℕ
  pub playbook_id : Option ℕ
  pub concurrency : ℤ
  pub canary_count : ℤ
  pub canary_wait_seconds : ℤ
  pub abort_on_failure_pct : ℤ
  pub window_start_minute : Option ℤ
  pub window_end_minute : Option ℤ
  pub window_days : ℤ
  pub security_only : Bool

-- The status and the text of a refusal.
pub record Refusal : Type 0 where
  pub status : ℕ
  pub text : Text

abbrev pub bad : Text → Refusal
bad text = record { status = 400; text = text }

-- One `case` of the switch: the first that holds refuses.
abbrev pub refuse_if : Bool → Text → Option Refusal → Option Refusal
refuse_if true text rest = some (bad text)
refuse_if false text rest = rest

-- x < lo || x > hi, for lo = 0
abbrev pub is_outside : ℕ → ℤ → Bool
is_outside hi (pos n) = ltb hi n
is_outside hi (negsuc n) = true

abbrev pub same_int : ℤ → ℤ → Bool
same_int (pos a) (pos b) = a == b
same_int (negsuc a) (negsuc b) = a == b
same_int (pos a) (negsuc b) = false
same_int (negsuc a) (pos b) = false

abbrev pub is_set : Option ℤ → Bool
is_set none = false
is_set (some x) = true

abbrev pub differ : Bool → Bool → Bool
differ true b = not b
differ false b = b

-- The switch: its cases in order.
abbrev pub refuse_each : List (Bool × Text) → Option Refusal → Option Refusal
refuse_each [] rest = rest
refuse_each ((b, text) ∷ cases) rest = refuse_if b text (refuse_each cases rest)

unfoldable pub field_cases : CreateRequest → List (Bool × Text)
field_cases r =
    (is_empty (trim_space r.name), codes "name is required")
    ∷ (length r.host_ids == 0, codes "host_ids must not be empty")
    ∷ (ltb (to_ℕ r.interval_minutes) 5, codes "interval_minutes must be at least 5")
    ∷ (is_outside 20 r.concurrency, codes "concurrency must be 0-20")
    ∷ (
      is_neg r.canary_count || is_outside 3600 r.canary_wait_seconds,
      codes "canary_count must be >= 0 and canary_wait_seconds 0-3600",
    )
    ∷ (is_outside 100 r.abort_on_failure_pct, codes "abort_on_failure_pct must be 0-100")
    ∷ (
      differ (is_set r.window_start_minute) (is_set r.window_end_minute),
      codes "window_start_minute and window_end_minute must be set together",
    )
    ∷ (is_outside 127 r.window_days, codes "window_days must be a 7-bit mask (1-127)")
    ∷ []

-- The checks of a window that is given.
unfoldable pub check_window : Option ℤ → Option ℤ → ℤ → Option Refusal → Option Refusal
check_window none end days rest = rest
check_window (some s) none days rest = rest
check_window (some s) (some e) days rest =
    refuse_if (is_outside 1439 s || (is_outside 1439 e || same_int s e))
      (codes "window minutes must be 0-1439 and start must differ from end")
      (refuse_if (same_int days (pos 0)) (codes "window_days must select at least one day") rest)

unfoldable pub check_create : CreateRequest → Option Refusal
unfolding field_cases check_window
check_create r = refuse_each (field_cases r) (
    check_window r.window_start_minute r.window_end_minute r.window_days (
      refuse_if (r.security_only && is_some r.playbook_id)
        (codes "security_only applies to apt schedules; remove playbook_id") none))

abbrev pub minute : Option ℤ → Option ℕ
minute none = none
minute (some x) = some (to_ℕ x)

unfoldable pub options_of : CreateRequest → Text → CreateOptions
options_of r created_by = record {
  name = trim_space r.name;
  host_ids = r.host_ids;
  interval_minutes = to_ℕ r.interval_minutes;
  start_at = r.start_at;
  created_by = created_by;
  playbook_id = r.playbook_id;
  concurrency = r.concurrency;
  canary_count = r.canary_count;
  canary_wait_seconds = r.canary_wait_seconds;
  abort_on_failure_pct = r.abort_on_failure_pct;
  window_start_minute = minute r.window_start_minute;
  window_end_minute = minute r.window_end_minute;
  window_days = to_ℕ r.window_days;
  security_only = r.security_only;
}

-- playbooks.Get of the request's playbook, the fault of the insert, the clock and the user.
pub record CreateWorld : Type 0 where
  pub load : ℕ → Result Error Playbook
  pub create_fault : Option Error
  pub now : ℕ
  pub user : Option Text

abbrev pub user_or_unknown : Option Text → Text
user_or_unknown none = codes "unknown"
user_or_unknown (some name) = name

abbrev pub created : Result Error Schedule × Schedules → Result Refusal Schedule × Schedules
created (err e, t) = (err (record { status = 500; text = codes "Failed to create schedule" }), t)
created (ok s, t) = (ok s, t)

abbrev pub insert : CreateWorld → CreateRequest → Schedules → Result Refusal Schedule × Schedules
insert w r t =
    created (create_schedule w.create_fault w.now (options_of r (user_or_unknown w.user)) t)

abbrev pub lookup_refusal : Error → Refusal
lookup_refusal e =
    if is_no_rows e
    then record { status = 404; text = codes "Playbook not found" }
    else record { status = 500; text = codes "Failed to validate playbook" }

abbrev pub with_playbook :
    CreateWorld
    → CreateRequest
    → Option (Result Error Playbook)
    → Schedules
    → Result Refusal Schedule × Schedules
with_playbook w r none t = insert w r t
with_playbook w r (some (ok p)) t = insert w r t
with_playbook w r (some (err e)) t = (err (lookup_refusal e), t)

abbrev pub lookup : CreateWorld → Option ℕ → Option (Result Error Playbook)
lookup w none = none
lookup w (some i) = some (w.load i)

abbrev pub checked :
    CreateWorld → CreateRequest → Option Refusal → Schedules → Result Refusal Schedule × Schedules
checked w r (some x) t = (err x, t)
checked w r none t = with_playbook w r (lookup w r.playbook_id) t

unfoldable pub handle_create_schedule :
    CreateWorld → CreateRequest → Schedules → Result Refusal Schedule × Schedules
handle_create_schedule w r t = checked w r (check_create r) t

abbrev pub switched : Result Error Schedule × Schedules → Result Refusal Schedule × Schedules
switched (err e, t) = (
  err (
      if is_no_rows e
      then record { status = 404; text = codes "Schedule not found" }
      else record { status = 500; text = codes "Failed to update schedule" }),
  t,
)
switched (ok s, t) = (ok s, t)

-- `enabled` is none when the body does not have it.
unfoldable pub handle_update_schedule :
    Option Error → ℕ → ℕ → Option Bool → Schedules → Result Refusal Schedule × Schedules
handle_update_schedule fault now i none t =
    (err (bad (codes "Body must include enabled: true|false")), t)
handle_update_schedule fault now i (some enabled) t = switched (set_enabled fault now i enabled t)
