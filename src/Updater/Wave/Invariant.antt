-- ===== src/Updater/Wave/Invariant.antt =====
-- What holds in every state of a wave, and when it is over.
use ubuntu_auto_update.Base.{
  ℕ, suc, ◌≡◌, refl, sym, ap, ◌∙◌, subst, ◌≢◌, ◌⊎◌, inl, inr, Bool, true, false, List, [], ◌∷◌,
  ◌++◌, append_assoc, Option, none, some, length, get_elem?, erase_idx, All, ltb, Bool-cases, Error,
  some_inj, Option-cases,
}
use ubuntu_auto_update.Runs.{running, Runs, find_row}
use ubuntu_auto_update.Updater.Options.{BulkRunOptions}
use ubuntu_auto_update.Updater.Command.Defs.{MarkWorld, mark_failed}
use ubuntu_auto_update.Updater.Command.Rows.{status_of, found_of_status, Closes, mark_failed-Closes}
use ubuntu_auto_update.Updater.Host.{HostWorld, run_one}
use ubuntu_auto_update.Updater.Host.Outcome.{final_status, run_one-Closes}
use ubuntu_auto_update.Updater.Wave.Defs.{
  Job, Wave, Move, acquire, cancel, finish, expire, start_wave, acquire_next, cancel_next,
  cancel_text, finish_job, count_failure, wave_step, wave_run, is_done, both_empty,
}
use ubuntu_auto_update.Updater.Wave.Settle.{
  Elem, Apart, Statuses, IsRunning, IsClosed, count_failed, ClosesIn, Accounts, Accounts-close,
  All-get_elem?, get_elem?-append, get_elem?-middle,
}

-- FinishRun reaches the table.
abbrev pub IsHealthy : Move → Type 0
IsHealthy acquire = Unit {0}
IsHealthy (cancel e w) = w.finish_fault ≡ none
IsHealthy (finish k w) = w.finish_fault ≡ none
IsHealthy expire = Unit {0}

-- `t0` is the table at the start of the wave.
pub record IsSound (jobs : List Job) (t0 : Runs) (s : Wave) : Type 0 where
  pub accounts : Accounts jobs (s.active ++ s.pending) (status_of s.table) s.failures
  pub untouched :
      (k : ℕ) → All (λ j. j.run_id ≢ k) jobs → find_row k s.table.rows ≡ find_row k t0.rows

pub status_of_rows :
    (t t' : Runs) (k : ℕ) → find_row k t'.rows ≡ find_row k t.rows → status_of t' k ≡ status_of t k
status_of_rows t t' k h = ap (λ o. elim o [ none ↦ none | some r ↦ some r.status ]) h

Closes-ClosesIn :
    {i : ℕ} {b : Bool} {t t' : Runs}
    → status_of t i ≡ some running
    → Closes i (final_status b) t t'
    → ClosesIn i b (status_of t) (status_of t')
Closes-ClosesIn {i} {b} {t} {t'} was c = record {
  others = λ k ne. status_of_rows t t' k (c.others k ne);
  closed = let (r, found, _) = found_of_status t.rows i running was in c.closed r found;
}

All-ne_of_Elem :
    (jobs : List Job) (j : Job) (k : ℕ) → Elem j jobs → All (λ y. y.run_id ≢ k) jobs → k ≢ j.run_id
All-ne_of_Elem [] j k m h = elim m [ ]
All-ne_of_Elem (x ∷ xs) j k (inl e) (ne, h) = λ q. ne (ap (λ y. y.run_id) (sym e) ∙ sym q)
All-ne_of_Elem (x ∷ xs) j k (inr m) (ne, h) = All-ne_of_Elem xs j k m h

module _ {jobs : List Job} {t0 : Runs} (distinct : Apart jobs) where
  -- A step that closes the open run at place `k`.
  close_step :
      (s s' : Wave) (b : Bool) (k : ℕ) (j : Job)
      → IsSound jobs t0 s
      → get_elem? (s.active ++ s.pending) k ≡ some j
      → Closes j.run_id (final_status b) s.table s'.table
      → s'.active ++ s'.pending ≡ erase_idx (s.active ++ s.pending) k
      → s'.failures ≡ count_failure b s.failures
      → IsSound jobs t0 s'
  close_step s s' b k j v e c open_same failures_same = record {
    accounts =
        rw (open_same, failures_same)
          (Accounts-close b k j distinct v.accounts e (Closes-ClosesIn was c));
    untouched = λ i h. c.others i (All-ne_of_Elem jobs j i inside h) ∙ v.untouched i h;
  }
    where
      was : status_of s.table j.run_id ≡ some running
      was = All-get_elem? j (IsRunning (status_of s.table)) _ k e v.accounts.still_running

      inside : Elem j jobs
      inside = All-get_elem? j (λ y. Elem y jobs) _ k e v.accounts.within

  acquire-IsSound :
      (conc : ℕ) (s s' : Wave) (ps : List Job)
      → s.pending ≡ ps
      → IsSound jobs t0 s
      → acquire_next conc s ps ≡ some s'
      → IsSound jobs t0 s'
  acquire-IsSound conc s s' [] q v h = cc
  acquire-IsSound conc s s' (j ∷ rest) q v h = elim (Bool-cases (ltb (length s.active) conc)) [
    | inl room ↦
        let now : record s { active = s.active ++ j ∷ []; pending = rest } ≡ s' =
          some_inj (sym (rw room refl) ∙ h) in
        subst (IsSound jobs t0) now (acquired room)
    | inr full ↦ let no : none ≡ some s' = sym (rw full refl) ∙ h in cc
  ]
    where
      acquired :
          ltb (length s.active) conc ≡ true
          → IsSound jobs t0 (record s { active = s.active ++ j ∷ []; pending = rest })
      acquired room = record {
        accounts =
            subst (λ l. Accounts jobs l (status_of s.table) s.failures)
              (ap (λ r. s.active ++ r) q ∙ sym (append_assoc s.active (j ∷ []) rest)) v.accounts;
        untouched = v.untouched;
      }

  cancel-IsSound :
      (e : Error) (w : MarkWorld) (s s' : Wave) (ps : List Job)
      → s.pending ≡ ps
      → w.finish_fault ≡ none
      → IsSound jobs t0 s
      → cancel_next e w s ps ≡ some s'
      → IsSound jobs t0 s'
  cancel-IsSound e w s s' [] q healthy v h = cc
  cancel-IsSound e w s s' (j ∷ rest) q healthy v h = elim (Bool-cases s.expired) [
    | inl over ↦
        let now : marked ≡ s' = some_inj (sym (rw over refl) ∙ h) in
        subst (IsSound jobs t0) now cancelled_one
    | inr live ↦ let no : none ≡ some s' = sym (rw live refl) ∙ h in cc
  ]
    where
      marked : Wave
      marked = record s {
        pending = rest;
        failures = suc s.failures;
        table = mark_failed w j.run_id (cancel_text e) s.table;
      }

      here : get_elem? (s.active ++ s.pending) (length s.active) ≡ some j
      here = rw q (get_elem?-middle j s.active rest).0

      cancelled_one : IsSound jobs t0 marked
      cancelled_one =
          close_step s marked false (length s.active) j v here
            (mark_failed-Closes w j.run_id (cancel_text e) s.table healthy)
            (rw q (sym (get_elem?-middle j s.active rest).1)) refl

  finish-IsSound :
      (opts : BulkRunOptions) (w : HostWorld) (k : ℕ) (s s' : Wave) (found : Option Job)
      → get_elem? s.active k ≡ found
      → w.finish_fault ≡ none
      → IsSound jobs t0 s
      → finish_job opts w k s found ≡ some s'
      → IsSound jobs t0 s'
  finish-IsSound opts w k s s' none q healthy v h = cc
  finish-IsSound opts w k s s' (some j) q healthy v h = subst (IsSound jobs t0) (some_inj h) (
      close_step s _ (run_one opts w j.host_id j.run_id s.table).ok k j v
        (get_elem?-append j s.active s.pending k q).0
        (run_one-Closes opts w j.host_id j.run_id s.table healthy).0
        (sym (get_elem?-append j s.active s.pending k q).1) refl)

  pub wave_step-IsSound :
      (opts : BulkRunOptions) (conc : ℕ) (m : Move) (s s' : Wave)
      → IsHealthy m
      → IsSound jobs t0 s
      → wave_step opts conc m s ≡ some s'
      → IsSound jobs t0 s'
  unfolding wave_step
  wave_step-IsSound opts conc acquire s s' healthy v h =
      acquire-IsSound conc s s' s.pending refl v h
  wave_step-IsSound opts conc (cancel e w) s s' healthy v h =
      cancel-IsSound e w s s' s.pending refl healthy v h
  wave_step-IsSound opts conc (finish k w) s s' healthy v h =
      finish-IsSound opts w k s s' (get_elem? s.active k) refl healthy v h
  wave_step-IsSound opts conc expire s s' healthy v h =
      subst (IsSound jobs t0) (some_inj h)
        (record { accounts = v.accounts; untouched = v.untouched })

  pub wave_run-IsSound :
      (opts : BulkRunOptions) (conc : ℕ) (ms : List Move) (s s' : Wave)
      → All IsHealthy ms
      → IsSound jobs t0 s
      → wave_run opts conc ms s ≡ some s'
      → IsSound jobs t0 s'
  unfolding wave_run
  wave_run-IsSound opts conc [] s s' healthy v h = subst (IsSound jobs t0) (some_inj h) v
  wave_run-IsSound opts conc (m ∷ ms) s s' (good, healthy) v h =
      elim (Option-cases (wave_step opts conc m s)) [
        | inl stuck ↦ let no : none ≡ some s' = sym (rw stuck refl) ∙ h in cc
        | inr (u, e) ↦
            wave_run-IsSound opts conc ms u s' healthy (wave_step-IsSound opts conc m s u good v e)
              (sym (rw e refl) ∙ h)
      ]

All-Elem_self : (xs : List Job) → All (λ j. Elem j xs) xs
All-Elem_self xs = widen xs xs (λ j m. m)
  where
    widen : (xs ys : List Job) → ((j : Job) → Elem j xs → Elem j ys) → All (λ j. Elem j ys) xs
    widen [] ys f = tt
    widen (x ∷ xs) ys f = (f x (inl refl), widen xs ys (λ j m. f j (inr m)))

count_failed_running :
    (t : Runs) (xs : List Job)
    → All (IsRunning (status_of t)) xs
    → count_failed (status_of t) xs ≡ 0
count_failed_running t [] h = refl
count_failed_running t (x ∷ xs) (here, rest) = rw (here, count_failed_running t xs rest) refl

start_wave-IsSound :
    (jobs : List Job) (over : Bool) (t : Runs)
    → Apart jobs
    → All (IsRunning (status_of t)) jobs
    → IsSound jobs t (start_wave over jobs t)
unfolding start_wave
start_wave-IsSound jobs over t distinct fresh = record {
  accounts = record {
    still_running = fresh;
    apart = distinct;
    within = All-Elem_self jobs;
    covered = λ j m. inl m;
    counted = sym (count_failed_running t jobs fresh);
  };
  untouched = λ k h. refl;
}

-- The runs `jobs`, running in `t`, are over in `t'`.
pub record IsSettled (jobs : List Job) (t t' : Runs) (failures : ℕ) : Type 0 where
  pub closed : (j : Job) → Elem j jobs → IsClosed (status_of t') j
  pub counted : failures ≡ count_failed (status_of t') jobs
  pub untouched : (k : ℕ) → All (λ j. j.run_id ≢ k) jobs → find_row k t'.rows ≡ find_row k t.rows

both_empty-nil : (xs ys : List Job) → both_empty xs ys ≡ true → xs ++ ys ≡ []
both_empty-nil [] [] h = refl
both_empty-nil [] (y ∷ ys) h = cc
both_empty-nil (x ∷ xs) ys h = cc

IsClosed-of : (j : Job) (σ : Statuses) → Elem j [] ⊎ IsClosed σ j → IsClosed σ j
IsClosed-of j σ (inl m) = absurd m
IsClosed-of j σ (inr c) = c

-- Of hosts whose rows are running and distinct, when runWave returns, every one of their runs is
-- closed as succeeded or as failed, its result counts the failed ones, and the rows of all other
-- runs are as they were, provided FinishRun reaches the table. This holds for every interleaving
-- and also when the context expires on the way.
pub wave_run_settles :
    (opts : BulkRunOptions) (conc : ℕ) (over : Bool) (jobs : List Job) (t : Runs) (ms : List Move)
    (s : Wave)
    → Apart jobs
    → All (IsRunning (status_of t)) jobs
    → All IsHealthy ms
    → wave_run opts conc ms (start_wave over jobs t) ≡ some s
    → is_done s ≡ true
    → IsSettled jobs t s.table s.failures
unfolding is_done
wave_run_settles opts conc over jobs t ms s distinct fresh healthy h done =
    let v =
      wave_run-IsSound distinct opts conc ms (start_wave over jobs t) s healthy
        (start_wave-IsSound jobs over t distinct fresh) h in
    record {
      closed = λ j m. IsClosed-of j (status_of s.table) (
          subst (λ l. Elem j l ⊎ IsClosed (status_of s.table) j)
            (both_empty-nil s.active s.pending done) (v.accounts.covered j m));
      counted = v.accounts.counted;
      untouched = v.untouched;
    }
