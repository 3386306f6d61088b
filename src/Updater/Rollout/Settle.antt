-- ===== src/Updater/Rollout/Settle.antt =====
-- What a bulk run leaves of the rows that Start created.
use ubuntu_auto_update.Base.{
  ℕ, zero, suc, ◌+◌, ◌≡◌, refl, sym, ◌∙◌, subst, ◌≢◌, Bool, true, false, List, [], ◌∷◌, ◌++◌,
  append-nil, none, some, Text, codes, length, take, drop, take-append-drop, All, Option-cases,
  some_inj, inl, inr, arith,
}
use ubuntu_auto_update.Runs.{Runs}
use ubuntu_auto_update.Updater.Options.{BulkRunOptions}
use ubuntu_auto_update.Updater.Command.Defs.{mark_failed}
use ubuntu_auto_update.Updater.Command.Rows.{status_of, mark_failed-Closes}
use ubuntu_auto_update.Updater.Wave.{Job, Wave, Move, start_wave, wave_run, is_done}
use ubuntu_auto_update.Updater.Wave.Settle.{Apart, IsRunning}
use ubuntu_auto_update.Updater.Wave.Invariant.{IsHealthy, IsSettled, wave_run_settles}
use ubuntu_auto_update.Updater.Wave.Append.{
  All-append_left, All-append_right, Apart-append_left, Apart-append_right, second-IsRunning,
  IsSettled-append, Closes-IsSettled,
}
use ubuntu_auto_update.Updater.Rollout.Defs.{
  RolloutWorld, finished, aborted, interrupted, Rolled, skip_remaining, when_done, wave_result,
  after_second, after_pause, go_on, after_canary, after_first, first_size, rolled,
}

-- Every FinishRun of the bulk run reaches the table.
pub record IsHealthyWorld (w : RolloutWorld) : Type 0 where
  pub first : All IsHealthy w.first
  pub second : All IsHealthy w.second
  pub skips : (k : ℕ) → (w.skips k).finish_fault ≡ none

abbrev pub AreRunning : Runs → List Job → Type 0
AreRunning t jobs = All (IsRunning (status_of t)) jobs

when_done-some : (s u : Wave) (b : Bool) → when_done s b ≡ some u → (s ≡ u) × (b ≡ true)
when_done-some s u true h = (some_inj h, refl)
when_done-some s u false h = cc

pub wave_result-IsSettled :
    (opts : BulkRunOptions) (conc : ℕ) (ms : List Move) (over : Bool) (jobs : List Job) (t : Runs)
    (s : Wave)
    → Apart jobs
    → AreRunning t jobs
    → All IsHealthy ms
    → wave_result opts conc ms over jobs t ≡ some s
    → IsSettled jobs t s.table s.failures
unfolding wave_result
wave_result-IsSettled opts conc ms over jobs t s distinct fresh healthy h =
    elim (Option-cases (wave_run opts conc ms (start_wave over jobs t))) [
      | inl stuck ↦ let no : none ≡ some s = sym (rw (wave_result, stuck) refl) ∙ h in cc
      | inr (u, e) ↦
          let (same, done) = when_done-some u s (is_done u) (sym (rw (wave_result, e) refl) ∙ h) in
          subst (λ v. IsSettled jobs t v.table v.failures) same
            (wave_run_settles opts conc over jobs t ms u distinct fresh healthy e done)
    ]

IsSettled-nil : (t : Runs) → IsSettled [] t t 0
IsSettled-nil t = record { closed = λ j m. absurd m; counted = refl; untouched = λ k h. refl }

-- Every host that is skipped ends as failed.
pub skip_remaining-IsSettled :
    (w : RolloutWorld) (k : ℕ) (reason : Text) (js : List Job) (t : Runs)
    → IsHealthyWorld w
    → Apart js
    → AreRunning t js
    → (IsSettled js t (skip_remaining w.skips k reason js t) (length js))
unfolding skip_remaining
skip_remaining-IsSettled w k reason [] t good distinct fresh = IsSettled-nil t
skip_remaining-IsSettled w k reason (j ∷ js) t good distinct (here, fresh) =
    let more : 1 + length js ≡ suc (length js) = omega arith in
    subst (λ n. IsSettled (j ∷ js) t (skip_remaining w.skips (suc k) reason js marked) n) more
      (IsSettled-append (j ∷ []) js distinct one (
        skip_remaining-IsSettled w (suc k) reason js marked good distinct.1
          (second-IsRunning (j ∷ []) js distinct one fresh)))
  where
    marked : Runs
    marked = mark_failed (w.skips k) j.run_id (codes "skipped: " ++ reason) t

    one : IsSettled (j ∷ []) t marked 1
    one = Closes-IsSettled here (mark_failed-Closes (w.skips k) j.run_id _ t (good.skips k))

-- What a bulk run promises for the hosts `xs` of wave 1 and the remaining hosts `ys`.
pub record Leaves (xs ys : List Job) (t : Runs) (r : Rolled) : Type 0 where
  pub settled : r.ending ≢ interrupted → (f : ℕ) × IsSettled (xs ++ ys) t r.table f
  pub left_over : r.ending ≡ interrupted → AreRunning r.table ys

settled_end :
    {xs ys : List Job} {t : Runs} {r : Rolled} (f : ℕ)
    → r.ending ≢ interrupted
    → IsSettled (xs ++ ys) t r.table f
    → Leaves xs ys t r
settled_end f other h = record { settled = λ ne. (f, h); left_over = λ e. absurd (other e) }

pub finished-≢ : finished ≢ interrupted
finished-≢ e = cc

aborted-≢ : aborted ≢ interrupted
aborted-≢ e = cc

module _ (opts : BulkRunOptions) (conc : ℕ) (w : RolloutWorld) (good : IsHealthyWorld w)
    (xs ys : List Job) (t : Runs) (s : Wave) (distinct : Apart (xs ++ ys))
    (fresh : AreRunning t (xs ++ ys)) (first : IsSettled xs t s.table s.failures) where
  rest_fresh : AreRunning s.table ys
  rest_fresh = second-IsRunning xs ys distinct first (All-append_right _ xs ys fresh)

  after_pause-Leaves :
      (b : Bool) (r : Rolled) → after_pause opts conc w ys s b ≡ some r → Leaves xs ys t r
  after_pause-Leaves true r h =
      subst (Leaves xs ys t) (some_inj h)
        (record { settled = λ ne. absurd (ne refl); left_over = λ e. rest_fresh })
  after_pause-Leaves false r h =
      elim (Option-cases (wave_result opts conc w.second s.expired ys s.table)) [
        | inl stuck ↦ let no : none ≡ some r = sym (rw stuck refl) ∙ h in cc
        | inr (u, e) ↦
            let now : after_second s (some u) ≡ some r = sym (rw e refl) ∙ h in
            subst (Leaves xs ys t) (some_inj now) (
              settled_end (s.failures + u.failures) finished-≢ (
                IsSettled-append xs ys distinct first (
                  wave_result-IsSettled opts conc w.second s.expired ys s.table u
                    (Apart-append_right xs ys distinct) rest_fresh good.second e)))
      ]

  after_canary-Leaves :
      (canary : ℕ) (b : Bool) (r : Rolled)
      → (go_on opts conc w ys s ≡ some r → Leaves xs ys t r)
      → after_canary opts conc w canary ys s b ≡ some r
      → Leaves xs ys t r
  after_canary-Leaves canary true r k h = subst (Leaves xs ys t) (some_inj h) (
      settled_end (s.failures + length ys) aborted-≢ (
        IsSettled-append xs ys distinct first (
          skip_remaining-IsSettled w 0 _ ys s.table good (Apart-append_right xs ys distinct)
            rest_fresh)))
  after_canary-Leaves canary false r k h = k h

-- No host is left after wave 1.
nothing_left :
    (xs : List Job) (t : Runs) (s : Wave) (r : Rolled)
    → IsSettled xs t s.table s.failures
    → some (rolled s finished) ≡ some r
    → Leaves xs [] t r
nothing_left xs t s r first h = subst (Leaves xs [] t) (some_inj h) (
    settled_end s.failures finished-≢
      (subst (λ l. IsSettled l t s.table s.failures) (sym (append-nil xs)) first))

go_on-Leaves :
    (opts : BulkRunOptions) (conc : ℕ) (w : RolloutWorld) (good : IsHealthyWorld w)
    (xs ys : List Job) (t : Runs) (s : Wave)
    → Apart (xs ++ ys)
    → AreRunning t (xs ++ ys)
    → IsSettled xs t s.table s.failures
    → (r : Rolled) → go_on opts conc w ys s ≡ some r
    → Leaves xs ys t r
go_on-Leaves opts conc w good xs [] t s distinct fresh first r h = nothing_left xs t s r first h
go_on-Leaves opts conc w good xs (y ∷ ys) t s distinct fresh first r h =
    after_pause-Leaves opts conc w good xs (y ∷ ys) t s distinct fresh first _ r h

drop_all : (jobs : List Job) → drop (length jobs) jobs ≡ []
drop_all [] = refl
drop_all (j ∷ js) = drop_all js

pub after_first-Leaves :
    (opts : BulkRunOptions) (conc : ℕ) (w : RolloutWorld) (canary : ℕ) (jobs : List Job) (t : Runs)
    → IsHealthyWorld w
    → Apart jobs
    → AreRunning t jobs
    → (r : Rolled)
    → let end = first_size canary (length jobs) in
      after_first opts conc w canary
          (drop end jobs)
          (wave_result opts conc w.first false (take end jobs) t)
        ≡ some r
      → Leaves (take end jobs) (drop end jobs) t r
after_first-Leaves opts conc w canary jobs t good distinct fresh r h =
    elim (Option-cases (wave_result opts conc w.first false (take end jobs) t)) [
      | inl stuck ↦ let no : none ≡ some r = sym (rw stuck refl) ∙ h in cc
      | inr (s, e) ↦ by_canary s (first_settled s e) canary refl (sym (rw e refl) ∙ h)
    ]
  where
    end : ℕ
    end = first_size canary (length jobs)

    whole : take end jobs ++ drop end jobs ≡ jobs
    whole = take-append-drop end jobs

    split_apart : Apart (take end jobs ++ drop end jobs)
    split_apart = rw whole distinct

    split_fresh : AreRunning t (take end jobs ++ drop end jobs)
    split_fresh = rw whole fresh

    first_settled :
        (s : Wave)
        → wave_result opts conc w.first false (take end jobs) t ≡ some s
        → IsSettled (take end jobs) t s.table s.failures
    first_settled s e =
        wave_result-IsSettled opts conc w.first false (take end jobs) t s
          (Apart-append_left (take end jobs) (drop end jobs) split_apart)
          (All-append_left _ (take end jobs) (drop end jobs) split_fresh) good.first e

    by_canary :
        (s : Wave)
        → IsSettled (take end jobs) t s.table s.failures
        → (n : ℕ) → n ≡ canary
        → after_first opts conc w n (drop end jobs) (some s) ≡ some r
        → Leaves (take end jobs) (drop end jobs) t r
    by_canary s first zero e k =
        let none_left : drop end jobs ≡ [] = rw (← e) (drop_all jobs) in
        subst (λ l. Leaves (take end jobs) l t r) (sym none_left)
          (nothing_left (take end jobs) t s r first k)
    by_canary s first (suc n) e k =
        after_canary-Leaves opts conc w good (take end jobs) (drop end jobs) t s split_apart
          split_fresh first (suc n) _ r
          (go_on-Leaves opts conc w good (take end jobs) (drop end jobs) t s split_apart split_fresh
            first r)
          k
