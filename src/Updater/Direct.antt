-- ===== src/Updater/Direct.antt =====
-- handleBulkRunUpdate of backend/cmd/api/main.go and handleBulkReboot of backend/cmd/api/reboot.go,
-- after the JSON is decoded: the guards in front of Start.
use ubuntu_auto_update.Base.{
  arith, ℕ, ◌≤◌, ◌≡◌, refl, sym, Bool, true, false, List, [], ◌++◌, Option, none, some, Text, codes,
  length, ltb, leb, ◌==◌, if◌then◌else◌, some_inj, ok, err, error_text,
}
use ubuntu_auto_update.Base.Int.{ℤ, pos}
use ubuntu_auto_update.Runs.{reboot}
use ubuntu_auto_update.Playbooks.Requests.{refused_with, user_name}
use ubuntu_auto_update.Updater.Options.{BulkRunOptions}
use ubuntu_auto_update.Updater.Start.{StartWorld, Coordinator, Started, start, in_flight_count}
use ubuntu_auto_update.Updater.Requests.{Replied, refuse_reply}

pub record BulkUpdateRequest : Type 0 where
  pub host_ids : List ℕ
  pub concurrency : ℤ
  pub canary_count : ℤ
  pub canary_wait_seconds : ℤ
  pub abort_on_failure_pct : ℤ
  pub security_only : Bool

unfoldable pub update_run : BulkUpdateRequest → Option Text → BulkRunOptions
update_run r user = record {
  host_ids = r.host_ids;
  concurrency = r.concurrency;
  triggered_by = user_name user;
  canary_count = r.canary_count;
  canary_wait_seconds = r.canary_wait_seconds;
  abort_on_failure_pct = r.abort_on_failure_pct;
  kind = none;
  steps = [];
  use_sudo = false;
  playbook_id = none;
  security_only = r.security_only;
  reboot = false;
}

unfoldable pub reboot_run : List ℕ → ℤ → Option Text → BulkRunOptions
reboot_run host_ids concurrency user = record {
  host_ids = host_ids;
  concurrency = concurrency;
  triggered_by = user_name user;
  canary_count = pos 0;
  canary_wait_seconds = pos 0;
  abort_on_failure_pct = pos 0;
  kind = some reboot;
  steps = [];
  use_sudo = false;
  playbook_id = none;
  security_only = false;
  reboot = true;
}

-- The answer to a call of Start, with the text of a failure.
abbrev pub replied : Text → Started → Replied
replied text s = record {
  reply = elim s.result [ ok b ↦ ok b | err e ↦ err (refused_with 500 (text ++ error_text e)) ];
  started = some s;
}

-- In both handlers `seen` is the coordinator at the call of InFlightCount and `c` the one that Start
-- works on.
unfoldable pub handle_bulk_run_update :
    StartWorld → BulkUpdateRequest → Option Text → Coordinator → Coordinator → Replied
handle_bulk_run_update w r user seen c =
    let rest = replied (codes "Failed to start bulk update: ") (start w (update_run r user) c) in
    if length r.host_ids == 0
    then refuse_reply 400 (codes "host_ids must not be empty")
    else if ltb 200 (length r.host_ids)
    then refuse_reply 400 (codes "host_ids capped at 200 per request")
    else if leb 1 (in_flight_count seen)
    then refuse_reply 409
        (codes "Another bulk update is already running. Try again when it finishes.")
    else rest

unfoldable pub handle_bulk_reboot :
    StartWorld → List ℕ → ℤ → Option Text → Coordinator → Coordinator → Replied
handle_bulk_reboot w host_ids concurrency user seen c =
    let rest =
      replied (codes "Failed to start reboot: ")
        (start w (reboot_run host_ids concurrency user) c) in
    if length host_ids == 0
    then refuse_reply 400 (codes "host_ids must not be empty")
    else if ltb 200 (length host_ids)
    then refuse_reply 400 (codes "host_ids capped at 200 per request")
    else if leb 1 (in_flight_count seen)
    then refuse_reply 409 (codes "Another bulk run is already running. Try again when it finishes.")
    else rest

-- A request that came to Start: for 1 to 200 hosts, when no bulk run was under way at the check.
pub record IsGranted (hosts : List ℕ) (seen : Coordinator) (call s : Started) : Type 0 where
  pub some_host : 1 ≤ length hosts
  pub few_hosts : length hosts ≤ 200
  pub idle : in_flight_count seen ≡ 0
  pub same : s ≡ call

guards-IsGranted :
    (hosts : List ℕ) (seen : Coordinator) (call s : Started) (text busy : Text)
    → (if length hosts == 0
        then refuse_reply 400 (codes "host_ids must not be empty")
        else if ltb 200 (length hosts)
        then refuse_reply 400 (codes "host_ids capped at 200 per request")
        else if leb 1 (in_flight_count seen)
        then refuse_reply 409 busy
        else replied text call).started
      ≡ some s
    → IsGranted hosts seen call s
guards-IsGranted hosts seen call s text busy h =
    by_guards (length hosts == 0) refl (ltb 200 (length hosts)) refl (leb 1 (in_flight_count seen))
      refl h
  where
    by_guards :
        (a : Bool)
        → (length hosts == 0) ≡ a
        → (b : Bool) → ltb 200 (length hosts) ≡ b
        → (d : Bool) → leb 1 (in_flight_count seen) ≡ d
        → (if a
            then refuse_reply 400 (codes "host_ids must not be empty")
            else if b
            then refuse_reply 400 (codes "host_ids capped at 200 per request")
            else if d
            then refuse_reply 409 busy
            else replied text call).started
          ≡ some s
        → IsGranted hosts seen call s
    by_guards true ea b eb d ed k = cc
    by_guards false ea true eb d ed k = cc
    by_guards false ea false eb true ed k = cc
    by_guards false ea false eb false ed k = record {
      some_host = ground (arith, ea);
      few_hosts = ground (arith, eb);
      idle = ground (arith, ed);
      same = sym (some_inj k);
    }

-- An update comes to Start only for 1 to 200 hosts, when no bulk run was under way at the check.
pub handle_bulk_run_update-IsGranted :
    (w : StartWorld) (r : BulkUpdateRequest) (user : Option Text) (seen c : Coordinator)
    (s : Started)
    → (handle_bulk_run_update w r user seen c).started ≡ some s
    → IsGranted r.host_ids seen (start w (update_run r user) c) s
unfolding handle_bulk_run_update
handle_bulk_run_update-IsGranted w r user seen c s h =
    guards-IsGranted r.host_ids seen (start w (update_run r user) c) s
      (codes "Failed to start bulk update: ") _ h

-- A reboot comes to Start only for 1 to 200 hosts, when no bulk run was under way at the check.
pub handle_bulk_reboot-IsGranted :
    (w : StartWorld) (hosts : List ℕ) (n : ℤ) (user : Option Text) (seen c : Coordinator)
    (s : Started)
    → (handle_bulk_reboot w hosts n user seen c).started ≡ some s
    → IsGranted hosts seen (start w (reboot_run hosts n user) c) s
unfolding handle_bulk_reboot
handle_bulk_reboot-IsGranted w hosts n user seen c s h =
    guards-IsGranted hosts seen (start w (reboot_run hosts n user) c) s
      (codes "Failed to start reboot: ") _ h
