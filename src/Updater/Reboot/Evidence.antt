-- ===== src/Updater/Reboot/Evidence.antt =====
-- When the poll loop takes a host for back.
use ubuntu_auto_update.Base.{
  ℕ, ◌≡◌, refl, Bool, true, false, ◌||◌, List, [], ◌∷◌, Option, none, some, Text, Error, Result, ok,
  err, arith, is_some,
}
use ubuntu_auto_update.Runs.{Runs}
use ubuntu_auto_update.Updater.Reboot.Defs.{
  Probe, unreachable, reached, Issued, exit_error, torn_down, returned, silent, RebootWorld,
  is_new_boot, poll, wait_for_host, reboot_and_wait, after_poll, after_issue, issue_reboot,
  with_boot_id, back_line, Back,
}
use ubuntu_auto_update.Updater.Command.Rows.{Writes, Writes-refl, Writes-trans, append-Writes}

-- Some probe read a boot id that is neither empty nor the old one.
abbrev pub saw_new_boot : Text → List Probe → Bool
saw_new_boot boot_id [] = false
saw_new_boot boot_id (unreachable ∷ ps) = saw_new_boot boot_id ps
saw_new_boot boot_id (reached r ∷ ps) = is_new_boot boot_id r || saw_new_boot boot_id ps

abbrev pub saw_reached : List Probe → Bool
saw_reached [] = false
saw_reached (unreachable ∷ ps) = saw_reached ps
saw_reached (reached r ∷ ps) = true

-- Some probe failed to connect and a later one connected.
abbrev pub saw_down_then_up : List Probe → Bool
saw_down_then_up [] = false
saw_down_then_up (unreachable ∷ ps) = saw_reached ps
saw_down_then_up (reached r ∷ ps) = saw_down_then_up ps

poll_down : (boot_id : Text) (ps : List Probe) → is_some (poll boot_id true ps) ≡ saw_reached ps
unfolding poll
poll_down boot_id [] = refl
poll_down boot_id (unreachable ∷ ps) = poll_down boot_id ps
poll_down boot_id (reached r ∷ ps) = ground arith

new_boot-reached :
    (boot_id : Text) (ps : List Probe) → saw_new_boot boot_id ps ≡ true → saw_reached ps ≡ true
new_boot-reached boot_id [] h = ground arith
new_boot-reached boot_id (unreachable ∷ ps) h = new_boot-reached boot_id ps h
new_boot-reached boot_id (reached r ∷ ps) h = refl

-- The loop reports the host as back exactly when some probe read a new boot id, or some probe
-- connected after an earlier one had failed to. A host that stays reachable under its old boot id is
-- never taken for rebooted.
pub poll_iff :
    (boot_id : Text) (ps : List Probe)
    → is_some (poll boot_id false ps) ≡ (saw_new_boot boot_id ps || saw_down_then_up ps)
unfolding poll
poll_iff boot_id [] = refl
poll_iff boot_id (unreachable ∷ ps) =
    ground (arith, poll_down boot_id ps, new_boot-reached boot_id ps)
poll_iff boot_id (reached r ∷ ps) = ground (arith, poll_iff boot_id ps)

after_poll-Writes :
    (w : RebootWorld) (o : Option Back) (i : ℕ) (t : Runs) → Writes i t (after_poll w o i t).1
after_poll-Writes w none i t = Writes-refl i t
after_poll-Writes w (some b) i t = append-Writes w.back_fault i (back_line b) t

wait_for_host-Writes :
    (w : RebootWorld) (boot_id : Text) (i : ℕ) (t : Runs)
    → Writes i t (wait_for_host w boot_id i t).1
unfolding wait_for_host
wait_for_host-Writes w boot_id i t =
    Writes-trans (append-Writes w.notice_fault i _ t)
      (after_poll-Writes w (poll boot_id false w.probes) i _)

after_issue-Writes :
    (w : RebootWorld) (s : Issued) (boot_id : Text) (i : ℕ) (t : Runs)
    → Writes i t (after_issue w s boot_id i t).1
after_issue-Writes w (exit_error out n) boot_id i t = Writes-refl i t
after_issue-Writes w (torn_down e) boot_id i t = wait_for_host-Writes w boot_id i t
after_issue-Writes w returned boot_id i t = wait_for_host-Writes w boot_id i t
after_issue-Writes w silent boot_id i t = wait_for_host-Writes w boot_id i t

issue_reboot-Writes :
    (w : RebootWorld) (session : Option Error) (boot_id : Text) (i : ℕ) (t : Runs)
    → Writes i t (issue_reboot w session boot_id i t).1
issue_reboot-Writes w (some e) boot_id i t = Writes-refl i t
issue_reboot-Writes w none boot_id i t = after_issue-Writes w w.issued boot_id i t

with_boot_id-Writes :
    (w : RebootWorld) (r : Result Error Text) (ssh_user : Text) (i : ℕ) (t : Runs)
    → Writes i t (with_boot_id w r ssh_user i t).1
with_boot_id-Writes w (err e) ssh_user i t = Writes-refl i t
with_boot_id-Writes w (ok boot_id) ssh_user i t =
    Writes-trans (append-Writes w.echo_fault i _ t) (issue_reboot-Writes w w.session boot_id i _)

-- A reboot, whatever comes of it, writes output to its own run and nothing else.
pub reboot_and_wait-Writes :
    (w : RebootWorld) (ssh_user : Text) (i : ℕ) (t : Runs)
    → Writes i t (reboot_and_wait w ssh_user i t).1
unfolding reboot_and_wait
reboot_and_wait-Writes w ssh_user i t = with_boot_id-Writes w w.boot_id ssh_user i t
