-- ===== src/Updater/Command/Defs.antt =====
-- runOneCommand, pumpToRun, markFailed. What is outside is a value: the chunks that the two pumps
-- read, in the order of their statements, each with what the driver says of it, and how the
-- session ends.
use ubuntu_auto_update.Base.{
  ℕ, List, [], ◌∷◌, ◌++◌, Option, none, some, Text, codes, itoa, Error, message, wrapped,
}
use ubuntu_auto_update.Base.Int.{ℤ, pos, negsuc}
use ubuntu_auto_update.Runs.{Runs, append_run_output, finish_run, failed}

-- One read of a pump with n > 0, and the fault of its statement.
pub record Chunk : Type 0 where
  pub text : Text
  pub fault : Option Error

-- How WaitWithAbort comes back: exit 0, an *ssh.ExitError, another error, or timedOut.
pub data Ending : Type 0 where
  clean timed_out : Ending
  exit_status : ℕ → Ending
  broken : Error → Ending

pub data CommandWorld : Type 0 where
  no_session no_stdout no_stderr : Error → CommandWorld
  no_start : Option Error → Error → CommandWorld
  started : Option Error → List Chunk → Ending → CommandWorld

unfoldable pub pump_to_run : ℕ → List Chunk → Runs → Runs
pump_to_run i [] t = t
pump_to_run i (c ∷ cs) t = pump_to_run i cs (append_run_output c.fault i c.text t).1

-- "$ cmd\n"
unfoldable pub echo_line : Text → Text
echo_line cmd = codes "$ " ++ (cmd ++ codes "\n")

unfoldable pub ending_result : Ending → ℤ × Option Error
ending_result clean = (pos 0, none)
ending_result timed_out = (negsuc 0, some (message (codes "run timed out; remote command killed")))
ending_result (exit_status n) = (pos n, some (message (codes "exit status " ++ itoa n)))
ending_result (broken e) = (negsuc 0, some e)

unfoldable pub run_one_command : ℕ → Text → CommandWorld → Runs → (ℤ × Option Error) × Runs
unfolding pump_to_run echo_line ending_result
run_one_command i cmd (no_session e) t = ((negsuc 0, some (wrapped (codes "ssh session: ") e)), t)
run_one_command i cmd (no_stdout e) t = ((negsuc 0, some (wrapped (codes "stdout pipe: ") e)), t)
run_one_command i cmd (no_stderr e) t = ((negsuc 0, some (wrapped (codes "stderr pipe: ") e)), t)
run_one_command i cmd (no_start fault e) t = (
  (negsuc 0, some (wrapped (codes "start command: ") e)),
  (append_run_output fault i (echo_line cmd) t).1,
)
run_one_command i cmd (started fault chunks ending) t =
    (ending_result ending, pump_to_run i chunks (append_run_output fault i (echo_line cmd) t).1)

-- The faults of the two statements of markFailed, and the time of the second.
pub record MarkWorld : Type 0 where
  pub append_fault : Option Error
  pub finish_fault : Option Error
  pub now : ℕ

unfoldable pub mark_failed : MarkWorld → ℕ → Text → Runs → Runs
mark_failed w i text t =
    (finish_run w.finish_fault w.now i failed (negsuc 0) text
      (append_run_output w.append_fault i (text ++ codes "\n") t).1).1
