-- ===== src/Updater/Host/Outcome.antt =====
-- What runOne leaves in the table and reports.
use ubuntu_auto_update.Base.{
  ℕ, suc, ◌≤◌, ◌≡◌, refl, ap, ◌∙◌, Bool, true, false, ◌&&◌, ◌≢◌, List, [], ◌∷◌, Option, none, some,
  Text, Error, Result, ok, err, arith, subst,
}
use ubuntu_auto_update.Base.Int.{ℤ}
use ubuntu_auto_update.Runs.{RunStatus, succeeded, failed, Runs}
use ubuntu_auto_update.Updater.Options.{BulkRunOptions}
use ubuntu_auto_update.Updater.Command.Defs.{
  CommandWorld, no_session, no_stdout, no_stderr, no_start, started, clean, timed_out, exit_status,
  broken, run_one_command,
}
use ubuntu_auto_update.Updater.Command.Rows.{
  Writes, Writes-refl, Writes-trans, append-Writes, run_one_command-Writes, Closes, finish-Closes,
  Writes-Closes,
}
use ubuntu_auto_update.Updater.Reboot.Evidence.{reboot_and_wait-Writes}
use ubuntu_auto_update.Updater.Reboot.{reboot_and_wait}
use ubuntu_auto_update.Updater.Host.Defs.{
  HostWorld, Outcome, unless_failed, run_commands, connected, dialed, reboot_outcome, run_one,
  is_succeeded, commands_for,
}

unless_failed-Writes :
    (i : ℕ) (t : Runs) (r : (ℤ × Option Error) × Runs) (rest : Runs → Outcome × Runs)
    → Writes i t r.1
    → ((u : Runs) → Writes i u (rest u).1)
    → Writes i t (unless_failed r rest).1
unless_failed-Writes i t ((code, none), u) rest h k = Writes-trans h (k u)
unless_failed-Writes i t ((code, some e), u) rest h k = h

run_commands-Writes :
    (world : ℕ → CommandWorld) (k : ℕ) (cmds : List Text) (i : ℕ) (t : Runs)
    → Writes i t (run_commands world k cmds i t).1
unfolding run_commands
run_commands-Writes world k [] i t = Writes-refl i t
run_commands-Writes world k (cmd ∷ cmds) i t =
    unless_failed-Writes i t (run_one_command i cmd (world k) t) _
      (run_one_command-Writes i cmd (world k) t) (λ u. run_commands-Writes world (suc k) cmds i u)

reboot_outcome-Writes :
    (i : ℕ) (t : Runs) (r : Option Error × Runs) → Writes i t r.1 → Writes i t (reboot_outcome r).1
reboot_outcome-Writes i t (none, u) h = h
reboot_outcome-Writes i t (some e, u) h = h

connected-Writes :
    (opts : BulkRunOptions) (w : HostWorld) (b : Bool) (ssh_user : Text) (i : ℕ) (t : Runs)
    → Writes i t (connected opts w b ssh_user i t).1
connected-Writes opts w true ssh_user i t =
    reboot_outcome-Writes i t _ (reboot_and_wait-Writes w.reboot ssh_user i t)
connected-Writes opts w false ssh_user i t = run_commands-Writes w.command 0 _ i t

dialed-Writes :
    (opts : BulkRunOptions) (w : HostWorld) (c : Result Error Text) (i : ℕ) (t : Runs)
    → Writes i t (dialed opts w c i t).1
dialed-Writes opts w (err e) i t = append-Writes w.connect_fault i _ t
dialed-Writes opts w (ok ssh_user) i t = connected-Writes opts w opts.reboot ssh_user i t

-- The two statuses that runOne finishes with.
abbrev pub final_status : Bool → RunStatus
final_status true = succeeded
final_status false = failed

abbrev pub Ended : Outcome → Type 0
Ended o = o.status ≡ final_status (is_succeeded o.status)

unless_failed-Ended :
    (r : (ℤ × Option Error) × Runs) (rest : Runs → Outcome × Runs)
    → ((u : Runs) → Ended (rest u).0)
    → Ended (unless_failed r rest).0
unless_failed-Ended ((code, none), u) rest k = k u
unless_failed-Ended ((code, some e), u) rest k = refl

run_commands-Ended :
    (world : ℕ → CommandWorld) (k : ℕ) (cmds : List Text) (i : ℕ) (t : Runs)
    → Ended (run_commands world k cmds i t).0
unfolding run_commands
run_commands-Ended world k [] i t = refl
run_commands-Ended world k (cmd ∷ cmds) i t =
    unless_failed-Ended (run_one_command i cmd (world k) t) _
      (λ u. run_commands-Ended world (suc k) cmds i u)

reboot_outcome-Ended : (r : Option Error × Runs) → Ended (reboot_outcome r).0
reboot_outcome-Ended (none, u) = refl
reboot_outcome-Ended (some e, u) = refl

connected-Ended :
    (opts : BulkRunOptions) (w : HostWorld) (b : Bool) (ssh_user : Text) (i : ℕ) (t : Runs)
    → Ended (connected opts w b ssh_user i t).0
connected-Ended opts w true ssh_user i t =
    reboot_outcome-Ended (reboot_and_wait w.reboot ssh_user i t)
connected-Ended opts w false ssh_user i t = run_commands-Ended w.command 0 _ i t

dialed-Ended :
    (opts : BulkRunOptions) (w : HostWorld) (c : Result Error Text) (i : ℕ) (t : Runs)
    → Ended (dialed opts w c i t).0
dialed-Ended opts w (err e) i t = refl
dialed-Ended opts w (ok ssh_user) i t = connected-Ended opts w opts.reboot ssh_user i t

-- When FinishRun reaches the table, the run ends as succeeded if runOne returned true and as failed
-- if it returned false; the rows of all other runs stay as they were, and the notice names this run
-- and says the same.
pub run_one-Closes :
    (opts : BulkRunOptions) (w : HostWorld) (host_id i : ℕ) (t : Runs)
    → w.finish_fault ≡ none
    → let r = run_one opts w host_id i t in
      Closes i (final_status r.ok) t r.table
      × (r.notice.succeeded ≡ r.ok)
      × (r.notice.host_id ≡ host_id)
      × (r.notice.run_id ≡ i)
unfolding run_one
run_one-Closes opts w host_id i t healthy = (
  rw (healthy, ← dialed-Ended opts w w.connect i t)
      (Writes-Closes (dialed-Writes opts w w.connect i t) (finish-Closes w.now i _ _ _ _)),
  refl,
  refl,
  refl,
)

-- The session of a command was started and Wait returned nil.
abbrev pub ends_clean : CommandWorld → Bool
ends_clean (started fault chunks clean) = true
ends_clean _ = false

abbrev pub all_clean : (ℕ → CommandWorld) → ℕ → List Text → Bool
all_clean world k [] = true
all_clean world k (cmd ∷ cmds) = ends_clean (world k) && all_clean world (suc k) cmds

command_clean :
    (i : ℕ) (cmd : Text) (w : CommandWorld) (t : Runs)
    → ((run_one_command i cmd w t).0.1 ≡ none → ends_clean w ≡ true)
      × (ends_clean w ≡ true → (run_one_command i cmd w t).0.1 ≡ none)
unfolding run_one_command
command_clean i cmd (no_session e) t = ((λ h. cc), λ h. cc)
command_clean i cmd (no_stdout e) t = ((λ h. cc), λ h. cc)
command_clean i cmd (no_stderr e) t = ((λ h. cc), λ h. cc)
command_clean i cmd (no_start f e) t = ((λ h. cc), λ h. cc)
command_clean i cmd (started f cs clean) t = ((λ h. refl), λ h. refl)
command_clean i cmd (started f cs timed_out) t = ((λ h. cc), λ h. cc)
command_clean i cmd (started f cs (exit_status n)) t = ((λ h. cc), λ h. cc)
command_clean i cmd (started f cs (broken e)) t = ((λ h. cc), λ h. cc)

unless_failed_clean :
    (here later : Bool) (r : (ℤ × Option Error) × Runs) (rest : Runs → Outcome × Runs)
    → (r.0.1 ≡ none → here ≡ true) × (here ≡ true → r.0.1 ≡ none)
    → ((u : Runs) → is_succeeded (rest u).0.status ≡ later)
    → is_succeeded (unless_failed r rest).0.status ≡ (here && later)
unless_failed_clean here later ((code, none), u) rest (sound, complete) k = rw (sound refl) (k u)
unless_failed_clean true later ((code, some e), u) rest (sound, complete) k =
    let bad = complete refl in cc
unless_failed_clean false later ((code, some e), u) rest (sound, complete) k = refl

run_commands_clean :
    (world : ℕ → CommandWorld) (k : ℕ) (cmds : List Text) (i : ℕ) (t : Runs)
    → is_succeeded (run_commands world k cmds i t).0.status ≡ all_clean world k cmds
unfolding run_commands
run_commands_clean world k [] i t = refl
run_commands_clean world k (cmd ∷ cmds) i t =
    unless_failed_clean (ends_clean (world k)) (all_clean world (suc k) cmds)
      (run_one_command i cmd (world k) t) _ (command_clean i cmd (world k) t)
      (λ u. run_commands_clean world (suc k) cmds i u)

-- A run that is no reboot succeeds exactly when the host was reached and every command of the run,
-- the update script or the compiled steps, was started and exited with 0.
pub run_one_ok :
    (opts : BulkRunOptions) (w : HostWorld) (host_id i : ℕ) (t : Runs)
    → opts.reboot ≡ false
    → (run_one opts w host_id i t).ok ≡ elim w.connect [
      | err e ↦ false
      | ok ssh_user ↦ all_clean w.command 0 (commands_for opts opts.steps ssh_user)
    ]
unfolding run_one
run_one_ok opts w host_id i t no_reboot = by_connect w.connect
  where
    by_connect :
        (c : Result Error Text)
        → is_succeeded (dialed opts w c i t).0.status ≡ elim c [
          | err e ↦ false
          | ok ssh_user ↦ all_clean w.command 0 (commands_for opts opts.steps ssh_user)
        ]
    by_connect (err e) = refl
    by_connect (ok ssh_user) =
        rw no_reboot (run_commands_clean w.command 0 (commands_for opts opts.steps ssh_user) i t)

unless_failed-eq :
    (r : (ℤ × Option Error) × Runs) (f g : Runs → Outcome × Runs)
    → (r.0.1 ≡ none → (u : Runs) → f u ≡ g u)
    → unless_failed r f ≡ unless_failed r g
unless_failed-eq ((code, none), u) f g h = h refl u
unless_failed-eq ((code, some e), u) f g h = refl

-- After a command that does not end cleanly nothing more is started: whatever later commands would
-- have done, the outcome and the table are the same.
pub run_commands_stop :
    (world world' : ℕ → CommandWorld) (k m : ℕ) (cmds : List Text) (i : ℕ) (t : Runs)
    → k ≤ m
    → ((j : ℕ) → j ≤ m → world j ≡ world' j)
    → ends_clean (world m) ≡ false
    → run_commands world k cmds i t ≡ run_commands world' k cmds i t
unfolding run_commands
run_commands_stop world world' k m [] i t le same bad = refl
run_commands_stop world world' k m (cmd ∷ cmds) i t le same bad =
    unless_failed-eq (run_one_command i cmd (world k) t) _ _
      (λ e u. run_commands_stop world world' (suc k) m cmds i u (before_bad e) same bad)
    ∙ ap
        (λ w. unless_failed (run_one_command i cmd w t) (λ u. run_commands world' (suc k) cmds i u))
        (same k le)
  where
    distinct : (run_one_command i cmd (world k) t).0.1 ≡ none → k ≢ m
    distinct e at_bad =
        let clean_here = (command_clean i cmd (world k) t).0 e in
        let clean_there = subst (λ j. ends_clean (world j) ≡ true) at_bad clean_here in cc

    before_bad : (run_one_command i cmd (world k) t).0.1 ≡ none → suc k ≤ m
    before_bad e = omega (arith, distinct e)
