-- ===== src/Updater/Wave/Defs.antt =====
-- runWave. The goroutine of a host is one step, taken when it ends: it touches its own row alone.
use ubuntu_auto_update.Base.{
  ℕ, suc, Bool, true, false, List, [], ◌∷◌, ◌++◌, Option, none, some, Text, codes, length,
  get_elem?, erase_idx, ltb, if◌then◌else◌, Error, error_text,
}
use ubuntu_auto_update.Runs.{Runs}
use ubuntu_auto_update.Updater.Options.{BulkRunOptions}
use ubuntu_auto_update.Updater.Command.Defs.{MarkWorld, mark_failed}
use ubuntu_auto_update.Updater.Host.{HostWorld, Notice, run_one}

-- A host and the row that Start created for it.
pub record Job : Type 0 where
  pub host_id : ℕ
  pub run_id : ℕ

-- `active` are the goroutines that hold a unit of the semaphore, in the order of their start, and
-- `pending` the hosts that the loop has not come to.
pub record Wave : Type 0 where
  pub active : List Job
  pub pending : List Job
  pub failures : ℕ
  pub table : Runs
  pub notices : List Notice
  pub expired : Bool

pub data Move : Type 0 where
  -- sem.Acquire succeeds for the next host
  acquire : Move
  -- sem.Acquire returns the error of the context
  cancel : Error → MarkWorld → Move
  -- the goroutine at a place among the active ones ends
  finish : ℕ → HostWorld → Move
  -- the context expires
  expire : Move

-- The context is that of the whole bulk run and may have expired before.
unfoldable pub start_wave : Bool → List Job → Runs → Wave
start_wave expired jobs t = record {
  active = [];
  pending = jobs;
  failures = 0;
  table = t;
  notices = [];
  expired = expired;
}

abbrev pub acquire_next : ℕ → Wave → List Job → Option Wave
acquire_next conc s [] = none
acquire_next conc s (j ∷ rest) =
    if ltb (length s.active) conc
    then some (record s { active = s.active ++ j ∷ []; pending = rest })
    else none

unfoldable pub cancel_text : Error → Text
cancel_text e = codes "bulk cancelled before start: " ++ error_text e

abbrev pub cancel_next : Error → MarkWorld → Wave → List Job → Option Wave
cancel_next e w s [] = none
cancel_next e w s (j ∷ rest) =
    if s.expired
    then some (record s {
      pending = rest;
      failures = suc s.failures;
      table = mark_failed w j.run_id (cancel_text e) s.table;
    })
    else none

-- `failures++` unless runOne returned true.
abbrev pub count_failure : Bool → ℕ → ℕ
count_failure true n = n
count_failure false n = suc n

abbrev pub finish_job : BulkRunOptions → HostWorld → ℕ → Wave → Option Job → Option Wave
finish_job opts w k s none = none
finish_job opts w k s (some j) =
    let r = run_one opts w j.host_id j.run_id s.table in
    some (record s {
      active = erase_idx s.active k;
      failures = count_failure r.ok s.failures;
      table = r.table;
      notices = s.notices ++ r.notice ∷ [];
    })

-- `none`: the move is not possible in this state.
unfoldable pub wave_step : BulkRunOptions → ℕ → Move → Wave → Option Wave
wave_step opts conc acquire s = acquire_next conc s s.pending
wave_step opts conc (cancel e w) s = cancel_next e w s s.pending
wave_step opts conc (finish k w) s = finish_job opts w k s (get_elem? s.active k)
wave_step opts conc expire s = some (record s { expired = true })

abbrev pub and_then : Option Wave → (Wave → Option Wave) → Option Wave
and_then none f = none
and_then (some s) f = f s

unfoldable pub wave_run : BulkRunOptions → ℕ → List Move → Wave → Option Wave
wave_run opts conc [] s = some s
wave_run opts conc (m ∷ ms) s = and_then (wave_step opts conc m s) (wave_run opts conc ms)

abbrev pub both_empty : List Job → List Job → Bool
both_empty [] [] = true
both_empty (_ ∷ _) _ = false
both_empty [] (_ ∷ _) = false

-- wg.Wait() has returned: no host is left and no goroutine is active.
unfoldable pub is_done : Wave → Bool
is_done s = both_empty s.active s.pending
