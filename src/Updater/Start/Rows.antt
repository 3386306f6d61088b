-- ===== src/Updater/Start/Rows.antt =====
-- The loop of Start that creates the rows: all of them, or those before the first failure.
use ubuntu_auto_update.Base.{
  ℕ, zero, suc, ◌+◌, ◌<◌, ◌≤◌, ◌≡◌, refl, ap, ◌∙◌, ◌≢◌, List, [], ◌∷◌, map, Option, none, some,
  Text, length, take, arith, All, ok, err, Error, wrapped, codes, Fault, at_query, at_rows,
}
use ubuntu_auto_update.Runs.{RunKind, running, UpdateRun, Runs, new_row, create_run_full, find_row}
use ubuntu_auto_update.Runs.Laws.{IsValid}
use ubuntu_auto_update.Runs.Create.{
  with_row, with_row-IsValid, find_with_row_new, find_with_row_old,
}
use ubuntu_auto_update.Updater.Command.Rows.{status_of, status_of_found}
use ubuntu_auto_update.Updater.Wave.{Job}
use ubuntu_auto_update.Updater.Wave.Settle.{Apart, IsRunning}
use ubuntu_auto_update.Updater.Wave.Invariant.{status_of_rows}
use ubuntu_auto_update.Updater.Start.Defs.{StartWorld, add_job, create_rows, create_text}

-- The rows of `js` were added to `t`, for the hosts `hosts`.
pub record Opened (hosts : List ℕ) (t u : Runs) (js : List Job) : Type 0 where
  pub valid : IsValid u
  pub fresh : All (λ j. t.next_id ≤ j.run_id) js
  pub apart : Apart js
  pub are_running : All (IsRunning (status_of u)) js
  pub kept : (i : ℕ) → i < t.next_id → find_row i u.rows ≡ find_row i t.rows
  pub for_hosts : map (λ j. j.host_id) js ≡ hosts

Opened-nil : (t : Runs) → IsValid t → Opened [] t t []
Opened-nil t v = record {
  valid = v;
  fresh = tt;
  apart = tt;
  are_running = tt;
  kept = λ i lt. refl;
  for_hosts = refl;
}

All-fresh : (n : ℕ) (js : List Job) → All (λ j. suc n ≤ j.run_id) js → All (λ j. n ≤ j.run_id) js
All-fresh n [] h = tt
All-fresh n (j ∷ js) (le, h) = (omega (arith, le), All-fresh n js h)

All-apart : (n : ℕ) (js : List Job) → All (λ j. suc n ≤ j.run_id) js → All (λ j. j.run_id ≢ n) js
All-apart n [] h = tt
All-apart n (j ∷ js) (le, h) = ((λ e. omega (arith, le, e)), All-apart n js h)

abbrev pub job_of : ℕ → Runs → Job
job_of host_id t = record { host_id = host_id; run_id = t.next_id }

Opened-cons :
    (h : ℕ) (hs : List ℕ) (t u : Runs) (r : UpdateRun) (js : List Job)
    → IsValid t
    → r.id ≡ t.next_id
    → r.status ≡ running
    → Opened hs (with_row t r) u js
    → Opened (h ∷ hs) t u (job_of h t ∷ js)
Opened-cons h hs t u r js v here open_row o = record {
  valid = o.valid;
  fresh = (omega arith, All-fresh t.next_id js o.fresh);
  apart = (All-apart t.next_id js o.fresh, o.apart);
  are_running = (
    status_of_rows (with_row t r) u t.next_id (o.kept t.next_id (omega arith))
        ∙ (status_of_found (with_row t r).rows t.next_id r (find_with_row_new t r v here)
            ∙ ap some open_row),
    o.are_running,
  );
  kept = λ i lt. o.kept i (omega (arith, lt)) ∙ find_with_row_old t r v here i lt;
  for_hosts = ap (λ l. h ∷ l) o.for_hosts;
}

-- What the loop has done when it stops: the rows of the first `n` hosts are there.
pub record Reached (hosts : List ℕ) (n : ℕ) (t u : Runs) : Type 0 where
  pub js : List Job
  pub opened : Opened (take n hosts) t u js

module _ (w : StartWorld) (by : Text) (kind : RunKind) (g : Text) (playbook : Option ℕ) where
  abbrev row_at : ℕ → Runs → UpdateRun
  row_at h t = new_row t.next_id w.now h by kind g playbook

  row_at-id : (h : ℕ) (t : Runs) → (row_at h t).id ≡ t.next_id
  unfolding new_row
  row_at-id h t = refl

  row_at-running : (h : ℕ) (t : Runs) → (row_at h t).status ≡ running
  unfolding new_row
  row_at-running h t = refl

  -- When no statement fails, every host gets a row.
  pub create_rows_ok :
      (k : ℕ) (hosts : List ℕ) (t : Runs)
      → ((i : ℕ) → w.create_fault i ≡ none)
      → IsValid t
      → (js : List Job) × ((u : Runs) × ((create_rows w by kind g playbook k hosts t ≡ (ok js, u))
            × Opened hosts t u js))
  unfolding create_rows create_run_full new_row
  create_rows_ok k [] t healthy v = ([], (t, (refl, Opened-nil t v)))
  create_rows_ok k (h ∷ hs) t healthy v =
      let r = row_at h t in
      let (js, (u, (e, o))) =
        create_rows_ok (suc k) hs (with_row t r) healthy (with_row-IsValid t r v (row_at-id h t)) in
      (
        job_of h t ∷ js,
        (
          u,
          (
            rw (healthy k) (ap (add_job (job_of h t)) e),
            Opened-cons h hs t u r js v (row_at-id h t) (row_at-running h t) o,
          ),
        ),
      )

  -- When the statement for host `n` is the first that fails, the rows before it are there.
  pub create_rows_fails :
      (n k : ℕ) (hosts : List ℕ) (t : Runs) (f : Fault)
      → n < length hosts
      → ((i : ℕ) → i < k + n → w.create_fault i ≡ none)
      → w.create_fault (k + n) ≡ some f
      → IsValid t
      → (e : Error) × ((u : Runs) × ((create_rows w by kind g playbook k hosts t ≡ (err e, u))
            × Reached hosts n t u))
  unfolding create_rows create_run_full new_row
  create_rows_fails n k [] t f lt before bad v = absurd (omega (arith, lt))
  create_rows_fails zero k (h ∷ hs) t f lt before bad v = at_fault f (ap w.create_fault same ∙ bad)
    where
      same : k ≡ k + 0
      same = omega arith

      at_fault :
          (f : Fault)
          → w.create_fault k ≡ some f
          → (e : Error) × ((u : Runs) × ((create_rows w by kind g playbook k (h ∷ hs) t
                  ≡ (err e, u))
                × Reached (h ∷ hs) zero t u))
      at_fault (at_query e) q = (
        wrapped (create_text h) (wrapped (codes "create run: ") e),
        (t, (rw q refl, record { js = []; opened = Opened-nil t v })),
      )
      at_fault (at_rows e) q =
          (wrapped (create_text h) e, (t, (rw q refl, record { js = []; opened = Opened-nil t v })))
  create_rows_fails (suc n) k (h ∷ hs) t f lt before bad v =
      let r = row_at h t in
      let next : suc k + n ≡ k + suc n = omega arith in
      let (e, (u, (q, reached))) =
        create_rows_fails n (suc k) hs (with_row t r) f (omega (arith, lt))
          (λ i below. before i (omega (arith, below))) (ap w.create_fault next ∙ bad)
          (with_row-IsValid t r v (row_at-id h t)) in
      (
        e,
        (
          u,
          (
            rw (before k (omega arith)) (ap (add_job (job_of h t)) q),
            record {
              js = job_of h t ∷ reached.js;
              opened =
                  Opened-cons h (take n hs) t u r reached.js v (row_at-id h t) (row_at-running h t)
                    reached.opened;
            },
          ),
        ),
      )
