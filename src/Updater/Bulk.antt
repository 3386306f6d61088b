-- ===== src/Updater/Bulk.antt =====
-- Start and the bulk run that it launches, together.
use ubuntu_auto_update.Base.{
  ℕ, ◌<◌, ◌≤◌, ◌≡◌, sym, ap, ◌∙◌, subst, arith, some_inj, [], ◌∷◌, ◌≢◌, List, map, none, some, Text,
  length, ok, All,
}
use ubuntu_auto_update.Runs.{find_row}
use ubuntu_auto_update.Runs.Laws.{IsValid}
use ubuntu_auto_update.Updater.Options.{BulkRunOptions}
use ubuntu_auto_update.Updater.Command.Rows.{status_of}
use ubuntu_auto_update.Updater.Wave.{Job}
use ubuntu_auto_update.Updater.Wave.Settle.{Elem, IsClosed}
use ubuntu_auto_update.Updater.Rollout.{RolloutWorld, Rolled, interrupted, rollout}
use ubuntu_auto_update.Updater.Rollout.Settle.{IsHealthyWorld}
use ubuntu_auto_update.Updater.Rollout.Return.{rollout_settles}
use ubuntu_auto_update.Updater.Start.{StartWorld, Coordinator, Launch, start}
use ubuntu_auto_update.Updater.Start.Rows.{Opened}
use ubuntu_auto_update.Updater.Start.Effects.{start-Launches}

-- One row per host of the request, and each of them over.
pub record IsComplete (opts : BulkRunOptions) (c : Coordinator) (jobs : List Job) (r : Rolled)
    : Type 0 where
  pub hosts : map (λ j. j.host_id) jobs ≡ opts.host_ids
  pub over : (j : Job) → Elem j jobs → IsClosed (status_of r.table) j
  pub others : (i : ℕ) → i < c.table.next_id → find_row i r.table.rows ≡ find_row i c.table.rows

older : (n i : ℕ) (js : List Job) → i < n → All (λ j. n ≤ j.run_id) js → All (λ j. j.run_id ≢ i) js
older n i [] below h = tt
older n i (j ∷ js) below (le, h) = ((λ e. omega (arith, e, le, below)), older n i js below h)

-- When Start succeeds and the bulk run that it launches returns without an interruption, with
-- every statement of Start and every FinishRun reaching the table, whose keys are distinct and
-- drawn, then every host of the request has a row that ended as succeeded or as failed, and the
-- rows that were in the table before the request are as they were.
pub bulk_completes :
    (sw : StartWorld) (opts : BulkRunOptions) (c : Coordinator) (g : Text) (w : RolloutWorld)
    (l : Launch) (r : Rolled)
    → 0 < length opts.host_ids
    → sw.uuid ≡ ok g
    → ((i : ℕ) → sw.create_fault i ≡ none)
    → IsValid c.table
    → IsHealthyWorld w
    → (start sw opts c).launched ≡ some l
    → rollout l.opts l.conc w l.jobs (start sw opts c).after.table ≡ some r
    → r.ending ≢ interrupted
    → IsComplete opts c l.jobs r
bulk_completes sw opts c g w l r some_host drawn healthy v good started h returned =
    let launch = start-Launches sw opts c g some_host drawn healthy v in
    let same : launch.jobs ≡ l.jobs = ap (λ x. x.jobs) (some_inj (sym launch.launched ∙ started)) in
    let o : Opened opts.host_ids c.table (start sw opts c).after.table l.jobs =
      subst (Opened opts.host_ids c.table (start sw opts c).after.table) same launch.opened in
    let (f, settled) =
      rollout_settles l.opts l.conc w l.jobs (start sw opts c).after.table r good o.apart
        o.are_running h returned in
    record {
      hosts = o.for_hosts;
      over = settled.closed;
      others = λ i below.
          settled.untouched i (older c.table.next_id i l.jobs below o.fresh) ∙ o.kept i below;
    }
