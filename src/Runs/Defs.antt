-- ===== src/Runs/Defs.antt =====
-- The row type, the statements on single rows and on the table.
use ubuntu_auto_update.Base.{
  ℕ, suc, ◌+◌, ◌*◌, Bool, true, false, ◌&&◌, not, List, [], ◌∷◌, ◌++◌, Option, none, some, Text,
  codes, length, take, count_if, ltb, ◌==◌, if◌then◌else◌, Result, ok, err, Error, wrapped, no_rows,
  Fault, at_query, at_rows,
}
use ubuntu_auto_update.Base.Int.{ℤ, pos, negsuc}

pub data RunKind : Type 0 where
  preview update playbook reboot : RunKind

pub data RunStatus : Type 0 where
  running succeeded failed cancelled : RunStatus

pub record UpdateRun : Type 0 where
  pub id : ℕ
  pub host_id : ℕ
  pub run_group_id : Option Text
  pub triggered_by : Text
  pub kind : RunKind
  pub status : RunStatus
  pub exit_code : Option ℕ
  pub started_at : ℕ
  pub finished_at : Option ℕ
  pub output : Text
  pub error : Option Text
  pub playbook_id : Option ℕ

-- The table. `next_id` is the sequence behind the SERIAL key.
pub record Runs : Type 0 where
  pub rows : List UpdateRun
  pub next_id : ℕ

-- MaxRunOutputBytes
unfoldable pub max_run_output : ℕ
max_run_output = 1048576

-- "" is stored as NULL.
abbrev pub null_if_empty : Text → Option Text
null_if_empty [] = none
null_if_empty (c ∷ s) = some (c ∷ s)

-- The row that CreateRunFull inserts.
unfoldable pub new_row : ℕ → ℕ → ℕ → Text → RunKind → Text → Option ℕ → UpdateRun
new_row i now host_id triggered_by kind group_id playbook_id = record {
  id = i;
  host_id = host_id;
  run_group_id = null_if_empty group_id;
  triggered_by = triggered_by;
  kind = kind;
  status = running;
  exit_code = none;
  started_at = now;
  finished_at = none;
  output = [];
  error = none;
  playbook_id = playbook_id;
}

-- A missing host is a fault too: the foreign key refuses the row.
unfoldable pub create_run_full :
    Option Fault → ℕ → ℕ → Text → RunKind → Text → Option ℕ → Runs → Result Error UpdateRun × Runs
create_run_full (some (at_query e)) now host_id triggered_by kind group_id playbook_id t =
    (err (wrapped (codes "create run: ") e), t)
create_run_full (some (at_rows e)) now host_id triggered_by kind group_id playbook_id t = (err e, t)
create_run_full none now host_id triggered_by kind group_id playbook_id t =
    let run = new_row t.next_id now host_id triggered_by kind group_id playbook_id in
    (ok run, record t { rows = t.rows ++ run ∷ []; next_id = suc t.next_id })

-- UPDATE update_runs SET … WHERE id = $1
unfoldable pub update_row : ℕ → (UpdateRun → UpdateRun) → List UpdateRun → List UpdateRun
update_row i f [] = []
update_row i f (r ∷ rs) = (if r.id == i then f r else r) ∷ update_row i f rs

-- One row of AppendRunOutput's statement: `length(output) < $3`, `LEFT(output || $2, $3)`.
unfoldable pub append_row : Text → UpdateRun → UpdateRun
append_row chunk r =
    if ltb (length r.output) max_run_output
    then record r { output = take max_run_output (r.output ++ chunk) }
    else r

abbrev pub is_open : ℕ → UpdateRun → Bool
is_open i r = r.id == i && ltb (length r.output) max_run_output

unfoldable pub append_run_output : Option Error → ℕ → Text → Runs → Result Error Bool × Runs
unfolding update_row append_row
append_run_output fault i [] t = (ok true, t)
append_run_output (some e) i (c ∷ s) t = (err (wrapped (codes "append run output: ") e), t)
append_run_output none i (c ∷ s) t = (
  ok (count_if (is_open i) t.rows == 1),
  record t { rows = update_row i (append_row (c ∷ s)) t.rows },
)

-- -1 leaves the column null.
abbrev pub known_exit : ℤ → Option ℕ
known_exit (pos n) = some n
known_exit (negsuc n) = none

unfoldable pub finish_row : ℕ → RunStatus → ℤ → Text → UpdateRun → UpdateRun
finish_row now status exit_code message r = record r {
  status = status;
  exit_code = known_exit exit_code;
  finished_at = some now;
  error = null_if_empty message;
}

unfoldable pub finish_run : Option Error → ℕ → ℕ → RunStatus → ℤ → Text → Runs → Option Error × Runs
unfolding update_row finish_row
finish_run (some e) now i status exit_code message t = (some (wrapped (codes "finish run: ") e), t)
finish_run none now i status exit_code message t =
    (none, record t { rows = update_row i (finish_row now status exit_code message) t.rows })

abbrev pub is_running : RunStatus → Bool
is_running running = true
is_running _ = false

-- A day in the unit of the clock.
abbrev pub day : ℕ
day = 86400

-- started_at < NOW() - make_interval(days => $1) AND status <> 'running'
abbrev pub is_prunable : ℕ → ℕ → UpdateRun → Bool
is_prunable now retention_days r =
    ltb (r.started_at + retention_days * day) now && not (is_running r.status)

unfoldable pub drop_rows : (UpdateRun → Bool) → List UpdateRun → List UpdateRun
drop_rows p [] = []
drop_rows p (r ∷ rs) = let rest = drop_rows p rs in if p r then rest else r ∷ rest

unfoldable pub prune_runs : Option Error → ℕ → ℕ → Runs → Result Error ℕ × Runs
unfolding drop_rows
prune_runs (some e) now retention_days t = (err e, t)
prune_runs none now retention_days t = (
  ok (count_if (is_prunable now retention_days) t.rows),
  record t { rows = drop_rows (is_prunable now retention_days) t.rows },
)

unfoldable pub find_row : ℕ → List UpdateRun → Option UpdateRun
find_row i [] = none
find_row i (r ∷ rs) = if r.id == i then some r else find_row i rs

unfoldable pub get_run : Option Error → ℕ → Runs → Result Error UpdateRun
unfolding find_row
get_run (some e) i t = err e
get_run none i t = elim (find_row i t.rows) [ none ↦ err no_rows | some r ↦ ok r ]
