-- ===== src/Updater/Requests.antt =====
-- handleBulkRunPlaybook of backend/cmd/api/playbooks.go, after the JSON is decoded: the guards in
-- front of Start.
use ubuntu_auto_update.Base.{
  ℕ, ◌≤◌, ◌≡◌, refl, sym, Bool, true, false, List, ◌++◌, Option, none, some, Text, codes, length,
  arith, ltb, leb, ◌==◌, if◌then◌else◌, some_inj, Result, ok, err, Error, error_text, is_no_rows,
}
use ubuntu_auto_update.Base.Int.{ℤ}
use ubuntu_auto_update.Runs.{playbook}
use ubuntu_auto_update.Playbooks.Store.{Playbook}
use ubuntu_auto_update.Playbooks.Requests.{Refused, refused_with, user_name}
use ubuntu_auto_update.Updater.Options.{BulkRunOptions}
use ubuntu_auto_update.Updater.Start.{
  StartWorld, Coordinator, BulkResult, Started, start, in_flight_count,
}

pub record BulkPlaybookRequest : Type 0 where
  pub host_ids : List ℕ
  pub playbook_id : ℕ
  pub concurrency : ℤ
  pub canary_count : ℤ
  pub canary_wait_seconds : ℤ
  pub abort_on_failure_pct : ℤ

unfoldable pub playbook_run : BulkPlaybookRequest → Option Text → Playbook → BulkRunOptions
playbook_run r user p = record {
  host_ids = r.host_ids;
  concurrency = r.concurrency;
  triggered_by = user_name user;
  canary_count = r.canary_count;
  canary_wait_seconds = r.canary_wait_seconds;
  abort_on_failure_pct = r.abort_on_failure_pct;
  kind = some playbook;
  steps = p.steps;
  use_sudo = p.use_sudo;
  playbook_id = some p.id;
  security_only = false;
  reboot = false;
}

-- What comes back, and what was started, where Start was called.
pub record Replied : Type 0 where
  pub reply : Result Refused BulkResult
  pub started : Option Started

abbrev pub reply_of : Result Error BulkResult → Result Refused BulkResult
reply_of (ok b) = ok b
reply_of (err e) = err (refused_with 500 (codes "Failed to start bulk playbook: " ++ error_text e))

abbrev pub refuse_reply : ℕ → Text → Replied
refuse_reply status text = record { reply = err (refused_with status text); started = none }

abbrev pub start_reply : Started → Replied
start_reply s = record { reply = reply_of s.result; started = some s }

abbrev pub with_loaded :
    StartWorld → BulkPlaybookRequest → Option Text → Coordinator → Result Error Playbook → Replied
with_loaded w r user c (err e) =
    if is_no_rows e
    then refuse_reply 404 (codes "Playbook not found")
    else refuse_reply 500 (codes "Failed to retrieve playbook")
with_loaded w r user c (ok p) = start_reply (start w (playbook_run r user p) c)

-- `seen` is the coordinator at the call of InFlightCount and `c` the one that Start works on: the
-- playbook is loaded in between, and other requests go on.
unfoldable pub handle_bulk_run_playbook :
    StartWorld
    → (ℕ → Result Error Playbook)
    → BulkPlaybookRequest
    → Option Text
    → Coordinator
    → Coordinator
    → Replied
handle_bulk_run_playbook w load r user seen c =
    let rest = with_loaded w r user c (load r.playbook_id) in
    if length r.host_ids == 0
    then refuse_reply 400 (codes "host_ids must not be empty")
    else if ltb 200 (length r.host_ids)
    then refuse_reply 400 (codes "host_ids capped at 200 per request")
    else if leb 1 (in_flight_count seen)
    then refuse_reply 409 (codes "Another bulk run is already running. Try again when it finishes.")
    else rest

-- What the options of a bulk run of the playbook `p` are, field by field.
pub record IsRunOf (r : BulkPlaybookRequest) (user : Option Text) (p : Playbook)
    (o : BulkRunOptions) : Type 0 where
  pub hosts : o.host_ids ≡ r.host_ids
  pub kind : o.kind ≡ some playbook
  pub steps : o.steps ≡ p.steps
  pub use_sudo : o.use_sudo ≡ p.use_sudo
  pub playbook_id : o.playbook_id ≡ some p.id
  pub by : o.triggered_by ≡ elim user [ none ↦ codes "unknown" | some name ↦ name ]
  pub concurrency : o.concurrency ≡ r.concurrency
  pub canary_count : o.canary_count ≡ r.canary_count
  pub canary_wait : o.canary_wait_seconds ≡ r.canary_wait_seconds
  pub abort_pct : o.abort_on_failure_pct ≡ r.abort_on_failure_pct
  pub not_security : o.security_only ≡ false
  pub no_reboot : o.reboot ≡ false

playbook_run-IsRunOf :
    (r : BulkPlaybookRequest) (user : Option Text) (p : Playbook)
    → IsRunOf r user p (playbook_run r user p)
unfolding playbook_run
playbook_run-IsRunOf r user p = record {
  hosts = refl;
  kind = refl;
  steps = refl;
  use_sudo = refl;
  playbook_id = refl;
  by = by_user user;
  concurrency = refl;
  canary_count = refl;
  canary_wait = refl;
  abort_pct = refl;
  not_security = refl;
  no_reboot = refl;
}
  where
    by_user : (u : Option Text) → user_name u ≡ elim u [ none ↦ codes "unknown" | some name ↦ name ]
    by_user none = refl
    by_user (some name) = refl

-- Why a request came to Start, and with what.
pub record IsAdmitted (w : StartWorld) (load : ℕ → Result Error Playbook) (r : BulkPlaybookRequest)
    (user : Option Text) (seen c : Coordinator) (s : Started) : Type 0 where
  pub some_host : 1 ≤ length r.host_ids
  pub few_hosts : length r.host_ids ≤ 200
  pub idle : in_flight_count seen ≡ 0
  pub loaded : Playbook
  pub found : load r.playbook_id ≡ ok loaded
  pub options : BulkRunOptions
  pub fields : IsRunOf r user loaded options
  pub call : s ≡ start w options c

-- The request comes to Start only for 1 to 200 hosts, when no bulk run was under way at the moment of
-- the check, and for a playbook that was found; Start gets the hosts, the concurrency, canary and
-- abort settings of the request, its user's name, and the steps, the sudo setting and the id of that
-- playbook.
pub handle_bulk_run_playbook-IsAdmitted :
    (w : StartWorld) (load : ℕ → Result Error Playbook) (r : BulkPlaybookRequest)
    (user : Option Text) (seen c : Coordinator) (s : Started)
    → (handle_bulk_run_playbook w load r user seen c).started ≡ some s
    → IsAdmitted w load r user seen c s
unfolding handle_bulk_run_playbook
handle_bulk_run_playbook-IsAdmitted w load r user seen c s h =
    by_guards (length r.host_ids == 0) refl (ltb 200 (length r.host_ids)) refl
      (leb 1 (in_flight_count seen)) refl h
  where
    by_error :
        (b : Bool)
        → (if b
            then refuse_reply 404 (codes "Playbook not found")
            else refuse_reply 500 (codes "Failed to retrieve playbook")).started
          ≡ some s
        → ⊥
    by_error true k = cc
    by_error false k = cc

    by_load :
        1 ≤ length r.host_ids
        → length r.host_ids ≤ 200
        → in_flight_count seen ≡ 0
        → (o : Result Error Playbook) → load r.playbook_id ≡ o
        → (with_loaded w r user c o).started ≡ some s
        → IsAdmitted w load r user seen c s
    by_load lo hi idle (err e) at_load k = absurd (by_error (is_no_rows e) k)
    by_load lo hi idle (ok p) at_load k = record {
      some_host = lo;
      few_hosts = hi;
      idle = idle;
      loaded = p;
      found = at_load;
      options = playbook_run r user p;
      fields = playbook_run-IsRunOf r user p;
      call = sym (some_inj k);
    }

    by_guards :
        (a : Bool)
        → (length r.host_ids == 0) ≡ a
        → (b : Bool) → ltb 200 (length r.host_ids) ≡ b
        → (d : Bool) → leb 1 (in_flight_count seen) ≡ d
        → (if a
            then refuse_reply 400 (codes "host_ids must not be empty")
            else if b
            then refuse_reply 400 (codes "host_ids capped at 200 per request")
            else if d
            then refuse_reply 409
                (codes "Another bulk run is already running. Try again when it finishes.")
            else with_loaded w r user c (load r.playbook_id)).started
          ≡ some s
        → IsAdmitted w load r user seen c s
    by_guards true ea b eb d ed k = cc
    by_guards false ea true eb d ed k = cc
    by_guards false ea false eb true ed k = cc
    by_guards false ea false eb false ed k =
        by_load (ground (arith, ea)) (ground (arith, eb)) (ground (arith, ed)) (load r.playbook_id)
          refl k
