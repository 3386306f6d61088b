-- ===== src/Updater/Host/Defs.antt =====
-- runOne, with its deferred FinishRun and Notify.
use ubuntu_auto_update.Base.{
  ℕ, suc, Bool, true, false, List, [], ◌∷◌, ◌++◌, Option, none, some, Text, codes, Result, ok, err,
  Error, error_text,
}
use ubuntu_auto_update.Base.Int.{ℤ, pos, negsuc}
use ubuntu_auto_update.Playbooks.{compile_steps}
use ubuntu_auto_update.Runs.{RunKind, RunStatus, failed, Runs, append_run_output, finish_run}
use ubuntu_auto_update.Updater.Options.{BulkRunOptions, build_update_script}
use ubuntu_auto_update.Updater.Command.Defs.{CommandWorld, run_one_command}
use ubuntu_auto_update.Updater.Reboot.{RebootWorld, reboot_and_wait}

-- What the world does in one run. `connect` is ConnectToHost, with the host's ssh_user; `command k`
-- is the k-th command that is started.
pub record HostWorld : Type 0 where
  pub connect : Result Error Text
  pub connect_fault : Option Error
  pub command : ℕ → CommandWorld
  pub reboot : RebootWorld
  pub finish_fault : Option Error
  pub now : ℕ

-- finishStatus, finishExit, finishErr
pub record Outcome : Type 0 where
  pub status : RunStatus
  pub exit_code : ℤ
  pub message : Text

-- One call of Coordinator.Notify.
pub record Notice : Type 0 where
  pub kind : Option RunKind
  pub host_id : ℕ
  pub run_id : ℕ
  pub succeeded : Bool
  pub message : Text

abbrev pub success : Outcome
success = record { status = RunStatus.succeeded; exit_code = pos 0; message = [] }

abbrev pub failure : ℤ → Error → Outcome
failure code e = record { status = failed; exit_code = code; message = error_text e }

-- cmdErr != nil ends the loop, and the run.
abbrev pub unless_failed : (ℤ × Option Error) × Runs → (Runs → Outcome × Runs) → Outcome × Runs
unless_failed ((code, none), u) rest = rest u
unless_failed ((code, some e), u) rest = (failure code e, u)

-- The loop over the commands, from the k-th on.
unfoldable pub run_commands : (ℕ → CommandWorld) → ℕ → List Text → ℕ → Runs → Outcome × Runs
run_commands world k [] i t = (success, t)
run_commands world k (cmd ∷ cmds) i t =
    unless_failed (run_one_command i cmd (world k) t) (λ u. run_commands world (suc k) cmds i u)

abbrev pub commands_for : BulkRunOptions → List Text → Text → List Text
commands_for opts [] ssh_user = build_update_script ssh_user opts.security_only ∷ []
commands_for opts (s ∷ steps) ssh_user = compile_steps (s ∷ steps) ssh_user opts.use_sudo

abbrev pub reboot_outcome : Option Error × Runs → Outcome × Runs
reboot_outcome (none, t) = (success, t)
reboot_outcome (some e, t) = (failure (negsuc 0) e, t)

abbrev pub connected : BulkRunOptions → HostWorld → Bool → Text → ℕ → Runs → Outcome × Runs
connected opts w true ssh_user i t = reboot_outcome (reboot_and_wait w.reboot ssh_user i t)
connected opts w false ssh_user i t =
    run_commands w.command 0 (commands_for opts opts.steps ssh_user) i t

abbrev pub connect_failed : Text → HostWorld → ℕ → Runs → Outcome × Runs
connect_failed text w i t = (
  record { status = failed; exit_code = negsuc 0; message = text },
  (append_run_output w.connect_fault i (text ++ codes "\n") t).1,
)

abbrev pub dialed : BulkRunOptions → HostWorld → Result Error Text → ℕ → Runs → Outcome × Runs
dialed opts w (err e) i t = connect_failed (codes "ssh connect: " ++ error_text e) w i t
dialed opts w (ok ssh_user) i t = connected opts w opts.reboot ssh_user i t

abbrev pub is_succeeded : RunStatus → Bool
is_succeeded RunStatus.succeeded = true
is_succeeded _ = false

pub record HostResult : Type 0 where
  pub ok : Bool
  pub table : Runs
  pub notice : Notice

unfoldable pub run_one : BulkRunOptions → HostWorld → ℕ → ℕ → Runs → HostResult
unfolding run_commands
run_one opts w host_id i t =
    let (o, u) = dialed opts w w.connect i t in
    record {
      ok = is_succeeded o.status;
      table = (finish_run w.finish_fault w.now i o.status o.exit_code o.message u).1;
      notice = record {
        kind = opts.kind;
        host_id = host_id;
        run_id = i;
        succeeded = is_succeeded o.status;
        message = o.message;
      };
    }
