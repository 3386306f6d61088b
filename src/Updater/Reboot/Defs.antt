-- ===== src/Updater/Reboot/Defs.antt =====
-- rebootAndWait and its poll loop. A `Probe` is what one tick finds; the list of probes ends when
-- the context of the poll does (10 minutes at one probe each 10 seconds).
use ubuntu_auto_update.Base.{
  ℕ, Bool, true, false, ◌&&◌, not, List, [], ◌∷◌, ◌++◌, Option, none, some, Text, codes, text_eq,
  is_empty, trim_space, if◌then◌else◌, Result, ok, err, Error, message, wrapped, error_text,
}
use ubuntu_auto_update.Runs.{Runs, append_run_output}
use ubuntu_auto_update.Updater.Options.{sudo_prefix}
use ubuntu_auto_update.Updater.Command.Defs.{echo_line}

-- ConnectToHost fails, or quickOutput gives the boot id.
pub data Probe : Type 0 where
  unreachable : Probe
  reached : Result Error Text → Probe

-- The select of the reboot command: it returned, with its output and an *ssh.ExitError, with another error or with
-- none, or ten seconds went by.
pub data Issued : Type 0 where
  exit_error : Text → Error → Issued
  torn_down : Error → Issued
  returned silent : Issued

pub record RebootWorld : Type 0 where
  pub boot_id : Result Error Text
  pub echo_fault : Option Error
  pub session : Option Error
  pub issued : Issued
  pub notice_fault : Option Error
  pub probes : List Probe
  pub back_fault : Option Error

-- Why the loop took the host for back.
pub data Back : Type 0 where
  new_boot : Text → Back
  went_down_and_returned : Back

-- idErr == nil && newID != "" && newID != bootID
unfoldable pub is_new_boot : Text → Result Error Text → Bool
is_new_boot boot_id (ok new_id) = not (is_empty new_id) && not (text_eq new_id boot_id)
is_new_boot boot_id (err e) = false

abbrev pub id_of : Result Error Text → Text
id_of (ok new_id) = new_id
id_of (err e) = []

-- The poll loop; the second argument is `wentDown`.
unfoldable pub poll : Text → Bool → List Probe → Option Back
unfolding is_new_boot
poll boot_id went_down [] = none
poll boot_id went_down (unreachable ∷ ps) = poll boot_id true ps
poll boot_id went_down (reached r ∷ ps) =
    let rest = poll boot_id went_down ps in
    if is_new_boot boot_id r
    then some (new_boot (id_of r))
    else if went_down
    then some went_down_and_returned
    else rest

unfoldable pub back_line : Back → Text
back_line (new_boot new_id) = codes "host is back (new boot_id " ++ (new_id ++ codes ")\n")
back_line went_down_and_returned =
    codes "host is back (went down and returned; boot_id unchanged)\n"

abbrev pub reason : Text → Error → Text
reason [] e = error_text e
reason (c ∷ s) e = c ∷ s

abbrev pub after_poll : RebootWorld → Option Back → ℕ → Runs → Option Error × Runs
after_poll w none i t = (some (message (codes "host did not come back within 10m0s")), t)
after_poll w (some b) i t = (none, (append_run_output w.back_fault i (back_line b) t).1)

-- From the reboot notice on.
unfoldable pub wait_for_host : RebootWorld → Text → ℕ → Runs → Option Error × Runs
unfolding poll back_line
wait_for_host w boot_id i t =
    let u =
      (append_run_output w.notice_fault i
        (codes "reboot issued; waiting for the host to come back...\n") t).1 in
    after_poll w (poll boot_id false w.probes) i u

abbrev pub after_issue : RebootWorld → Issued → Text → ℕ → Runs → Option Error × Runs
after_issue w (exit_error out e) boot_id i t =
    (some (message (codes "reboot command failed: " ++ reason (trim_space out) e)), t)
after_issue w (torn_down e) boot_id i t = wait_for_host w boot_id i t
after_issue w returned boot_id i t = wait_for_host w boot_id i t
after_issue w silent boot_id i t = wait_for_host w boot_id i t

abbrev pub issue_reboot : RebootWorld → Option Error → Text → ℕ → Runs → Option Error × Runs
issue_reboot w (some e) boot_id i t = (some (wrapped (codes "ssh session: ") e), t)
issue_reboot w none boot_id i t = after_issue w w.issued boot_id i t

abbrev pub with_boot_id : RebootWorld → Result Error Text → Text → ℕ → Runs → Option Error × Runs
with_boot_id w (err e) ssh_user i t = (some (wrapped (codes "read boot_id: ") e), t)
with_boot_id w (ok boot_id) ssh_user i t =
    issue_reboot w w.session boot_id i
      (append_run_output w.echo_fault i
        (echo_line (sudo_prefix ssh_user ++ codes "shutdown -r now")) t).1

unfoldable pub reboot_and_wait : RebootWorld → Text → ℕ → Runs → Option Error × Runs
unfolding wait_for_host
reboot_and_wait w ssh_user i t = with_boot_id w w.boot_id ssh_user i t
