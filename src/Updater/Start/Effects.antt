-- ===== src/Updater/Start/Effects.antt =====
-- What Start hands to the goroutine, and what it leaves behind when a row cannot be created.
use ubuntu_auto_update.Base.{
  ℕ, ◌+◌, ◌<◌, ◌≡◌, refl, sym, ap, ◌∙◌, subst, List, [], ◌∷◌, map, none, some, Text, length, take,
  arith, ok, err, Error, Fault,
}
use ubuntu_auto_update.Runs.{Runs}
use ubuntu_auto_update.Runs.Laws.{IsValid}
use ubuntu_auto_update.Updater.Options.{BulkRunOptions, clamp_concurrency}
use ubuntu_auto_update.Updater.Wave.{Job}
use ubuntu_auto_update.Updater.Start.Defs.{
  StartWorld, Coordinator, Started, create_rows, kind_or_update, with_group, start_hosts, start,
}
use ubuntu_auto_update.Updater.Start.Rows.{Opened, Reached, create_rows_ok, create_rows_fails}

-- What a successful Start returns, launches and leaves.
pub record Launches (opts : BulkRunOptions) (g : Text) (c : Coordinator) (s : Started)
    : Type 0 where
  pub jobs : List Job
  pub opened : Opened opts.host_ids c.table s.after.table jobs
  pub returned :
      s.result
      ≡ ok (record { group_id = g; run_ids = map (λ j. j.run_id) jobs; host_ids = opts.host_ids })
  pub launched :
      s.launched
      ≡ some (record {
        opts = record opts { kind = some (kind_or_update opts.kind) };
        group_id = g;
        jobs = jobs;
        conc = clamp_concurrency opts.concurrency;
      })

-- When hosts are given, the keys of the table are distinct and drawn, a group id is drawn and no
-- statement fails, Start launches one bulk run over the hosts in their order, with a row of its
-- own for each: the rows are new, distinct and running, the rows that were in the table before are
-- as they were, and the result names the same runs.
pub start-Launches :
    (w : StartWorld) (opts : BulkRunOptions) (c : Coordinator) (g : Text)
    → 0 < length opts.host_ids
    → w.uuid ≡ ok g
    → ((i : ℕ) → w.create_fault i ≡ none)
    → IsValid c.table
    → Launches opts g c (start w opts c)
unfolding start
start-Launches w opts c g some_host drawn healthy v = by_hosts opts.host_ids refl some_host
  where
    reported :
        (js : List Job) (u : Runs)
        → create_rows w opts.triggered_by
            (kind_or_update opts.kind)
            g
            opts.playbook_id
            0
            opts.host_ids
            c.table
          ≡ (ok js, u)
        → Opened opts.host_ids c.table u js
        → Launches opts g c (with_group w opts (ok g) c)
    reported js u e o = rw e (record { jobs = js; opened = o; returned = refl; launched = refl })

    launches : Launches opts g c (with_group w opts (ok g) c)
    launches =
        let (js, (u, (e, o))) =
          create_rows_ok w opts.triggered_by (kind_or_update opts.kind) g opts.playbook_id 0
            opts.host_ids c.table healthy v in
        reported js u e o

    by_hosts :
        (hs : List ℕ)
        → hs ≡ opts.host_ids
        → 0 < length hs
        → Launches opts g c (start_hosts w opts hs c)
    by_hosts [] e lt = absurd (omega (arith, lt))
    by_hosts (h ∷ hs) e lt =
        subst (λ u. Launches opts g c (with_group w opts u c)) (sym drawn) launches

-- What Start leaves when it fails at host `n`.
pub record Strands (opts : BulkRunOptions) (n : ℕ) (c : Coordinator) (s : Started) : Type 0 where
  pub error : Error
  pub jobs : List Job
  pub opened : Opened (take n opts.host_ids) c.table s.after.table jobs
  pub returned : s.result ≡ err error
  pub launched : s.launched ≡ none

-- When a group id is drawn, the keys of the table are distinct and drawn, and the row of host `n`
-- is the first that cannot be created, Start fails and launches nothing, but the rows of the hosts
-- before it stay in the table, running.
pub start-Strands :
    (w : StartWorld) (opts : BulkRunOptions) (c : Coordinator) (g : Text) (n : ℕ) (f : Fault)
    → n < length opts.host_ids
    → w.uuid ≡ ok g
    → ((i : ℕ) → i < n → w.create_fault i ≡ none)
    → w.create_fault n ≡ some f
    → IsValid c.table
    → Strands opts n c (start w opts c)
unfolding start
start-Strands w opts c g n f at_host drawn before bad v = by_hosts opts.host_ids refl at_host
  where
    reported :
        (e : Error) (u : Runs)
        → create_rows w opts.triggered_by
            (kind_or_update opts.kind)
            g
            opts.playbook_id
            0
            opts.host_ids
            c.table
          ≡ (err e, u)
        → Reached opts.host_ids n c.table u
        → Strands opts n c (with_group w opts (ok g) c)
    reported e u q reached = rw q (record {
      error = e;
      jobs = reached.js;
      opened = reached.opened;
      returned = refl;
      launched = refl;
    })

    strands : Strands opts n c (with_group w opts (ok g) c)
    strands =
        let first : 0 + n ≡ n = omega arith in
        let (e, (u, (q, reached))) =
          create_rows_fails w opts.triggered_by (kind_or_update opts.kind) g opts.playbook_id n 0
            opts.host_ids c.table f at_host (λ i lt. before i (omega (arith, lt)))
            (ap w.create_fault first ∙ bad) v in
        reported e u q reached

    by_hosts :
        (hs : List ℕ)
        → hs ≡ opts.host_ids
        → n < length hs
        → Strands opts n c (start_hosts w opts hs c)
    by_hosts [] e lt = absurd (omega (arith, lt))
    by_hosts (h ∷ hs) e lt =
        subst (λ u. Strands opts n c (with_group w opts u c)) (sym drawn) strands
