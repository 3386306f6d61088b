-- ===== src/Updater/Wave/Settle.antt =====
-- Counting the failed runs of a wave while one open run after the other is closed, over any
-- function `σ` that gives the status of a run.
use ubuntu_auto_update.Base.{
  ℕ, zero, suc, ◌+◌, ◌≡◌, refl, sym, ap, ◌∙◌, ◌≢◌, ◌⊎◌, inl, inr, Bool, true, false, List, [], ◌∷◌,
  ◌++◌, Option, none, some, arith, length, get_elem?, erase_idx, All, subst,
}
use native.Mathlib.Decide.{ℕ_discrete}
use ubuntu_auto_update.Runs.{RunStatus, running, succeeded, failed, cancelled}
use ubuntu_auto_update.Updater.Host.Outcome.{final_status}
use ubuntu_auto_update.Updater.Wave.Defs.{Job, count_failure}

abbrev pub Statuses : Type 0
Statuses = ℕ → Option RunStatus

abbrev pub Elem : Job → List Job → Type 0
Elem j [] = ⊥
Elem j (x ∷ xs) = (j ≡ x) ⊎ Elem j xs

-- No run twice.
abbrev pub Apart : List Job → Type 0
Apart [] = Unit {0}
Apart (x ∷ xs) = All (λ y. y.run_id ≢ x.run_id) xs × Apart xs

abbrev pub IsRunning : Statuses → Job → Type 0
IsRunning σ j = σ j.run_id ≡ some running

-- Closed as succeeded or as failed.
abbrev pub IsClosed : Statuses → Job → Type 0
IsClosed σ j = (σ j.run_id ≡ some succeeded) ⊎ (σ j.run_id ≡ some failed)

abbrev pub one_if_failed : Option RunStatus → ℕ
one_if_failed none = 0
one_if_failed (some running) = 0
one_if_failed (some succeeded) = 0
one_if_failed (some failed) = 1
one_if_failed (some cancelled) = 0

abbrev pub count_failed : Statuses → List Job → ℕ
count_failed σ [] = 0
count_failed σ (j ∷ js) = one_if_failed (σ j.run_id) + count_failed σ js

-- What a step that closes run `i` does to the statuses.
pub record ClosesIn (i : ℕ) (b : Bool) (σ σ' : Statuses) : Type 0 where
  pub others : (k : ℕ) → k ≢ i → σ' k ≡ σ k
  pub closed : σ' i ≡ some (final_status b)

IsClosed_self :
    {x : Option RunStatus} (b : Bool)
    → x ≡ some (final_status b)
    → (x ≡ some succeeded) ⊎ (x ≡ some failed)
IsClosed_self true h = inl h
IsClosed_self false h = inr h

Elem-apart :
    (j : Job) (xs : List Job) {n : ℕ} → All (λ y. y.run_id ≢ n) xs → Elem j xs → j.run_id ≢ n
Elem-apart j [] h m = elim m [ ]
Elem-apart j (x ∷ xs) (ne, _) (inl e) = rw e ne
Elem-apart j (x ∷ xs) (_, h) (inr m) = Elem-apart j xs h m

module _ {i : ℕ} {b : Bool} {σ σ' : Statuses} (c : ClosesIn i b σ σ') where
  pub count_failed_apart :
      (js : List Job) → All (λ y. y.run_id ≢ i) js → count_failed σ' js ≡ count_failed σ js
  count_failed_apart [] h = refl
  count_failed_apart (j ∷ js) (ne, h) = rw (c.others j.run_id ne, count_failed_apart js h) refl

  pub All-IsRunning_apart :
      (js : List Job) → All (λ y. y.run_id ≢ i) js → All (IsRunning σ) js → All (IsRunning σ') js
  All-IsRunning_apart [] h r = tt
  All-IsRunning_apart (j ∷ js) (ne, h) (r, rs) =
      (c.others j.run_id ne ∙ r, All-IsRunning_apart js h rs)

  pub IsClosed-kept : (j : Job) → IsClosed σ j → IsClosed σ' j
  IsClosed-kept j h = elim (ℕ_discrete j.run_id i) [
    | yes e ↦ rw e (IsClosed_self b c.closed)
    | no ne ↦ rw (c.others j.run_id ne) h
  ]

  -- The wave gains a failed run exactly when the closed one failed.
  pub count_failed_close :
      (j : Job) (js : List Job)
      → Apart js
      → Elem j js
      → j.run_id ≡ i
      → σ i ≡ some running
      → count_failed σ' js ≡ one_if_failed (some (final_status b)) + count_failed σ js
  count_failed_close j [] a m at_i was = elim m [ ]
  count_failed_close j (x ∷ xs) (apart, _) (inl e) at_i was =
      let here : x.run_id ≡ i = ap (λ y. y.run_id) (sym e) ∙ at_i in
      rw
        (
          here,
          was,
          c.closed,
          count_failed_apart xs (subst (λ k. All (λ y. y.run_id ≢ k) xs) here apart),
        )
        (omega arith)
  count_failed_close j (x ∷ xs) (apart, rest) (inr m) at_i was =
      let away : x.run_id ≢ i = λ e. Elem-apart j xs apart m (at_i ∙ sym e) in
      rw (c.others x.run_id away, count_failed_close j xs rest m at_i was) (omega arith)

-- Taking one entry out of the list of open runs.
module _ (j : Job) where
  pub All-erase_idx {κ} :
      (P : Job → Type κ) (xs : List Job) (k : ℕ) → All P xs → All P (erase_idx xs k)
  All-erase_idx P [] k h = tt
  All-erase_idx P (x ∷ xs) zero (p, h) = h
  All-erase_idx P (x ∷ xs) (suc k) (p, h) = (p, All-erase_idx P xs k h)

  pub All-get_elem? {κ} :
      (P : Job → Type κ) (xs : List Job) (k : ℕ) → get_elem? xs k ≡ some j → All P xs → P j
  All-get_elem? P [] k e h = cc
  All-get_elem? P (x ∷ xs) zero e (p, h) = let same : x ≡ j = cc in subst P same p
  All-get_elem? P (x ∷ xs) (suc k) e (p, h) = All-get_elem? P xs k e h

  pub Apart-erase_idx :
      (xs : List Job) (k : ℕ)
      → get_elem? xs k ≡ some j
      → Apart xs
      → Apart (erase_idx xs k) × All (λ y. y.run_id ≢ j.run_id) (erase_idx xs k)
  Apart-erase_idx [] k e a = cc
  Apart-erase_idx (x ∷ xs) zero e (h, a) =
      let same : x ≡ j = cc in (a, subst (λ z. All (λ y. y.run_id ≢ z.run_id) xs) same h)
  Apart-erase_idx (x ∷ xs) (suc k) e (h, a) =
      let (a', h') = Apart-erase_idx xs k e a in
      (
        (All-erase_idx (λ y. y.run_id ≢ x.run_id) xs k h, a'),
        ((λ q. All-get_elem? (λ y. y.run_id ≢ x.run_id) xs k e h (sym q)), h'),
      )

  pub Elem-erase_idx :
      (y : Job) (xs : List Job) (k : ℕ)
      → get_elem? xs k ≡ some j
      → Elem y xs
      → (y ≡ j) ⊎ Elem y (erase_idx xs k)
  Elem-erase_idx y [] k e m = elim m [ ]
  Elem-erase_idx y (x ∷ xs) zero e (inl q) = let same : x ≡ j = cc in inl (q ∙ same)
  Elem-erase_idx y (x ∷ xs) zero e (inr m) = inr m
  Elem-erase_idx y (x ∷ xs) (suc k) e (inl q) = inr (inl q)
  Elem-erase_idx y (x ∷ xs) (suc k) e (inr m) = elim (Elem-erase_idx y xs k e m) [
    | inl q ↦ inl q
    | inr q ↦ inr (inr q)
  ]

  pub get_elem?-append :
      (xs ys : List Job) (k : ℕ)
      → get_elem? xs k ≡ some j
      → (get_elem? (xs ++ ys) k ≡ some j) × (erase_idx (xs ++ ys) k ≡ erase_idx xs k ++ ys)
  get_elem?-append [] ys k e = cc
  get_elem?-append (x ∷ xs) ys zero e = (e, refl)
  get_elem?-append (x ∷ xs) ys (suc k) e =
      let (found, rest) = get_elem?-append xs ys k e in (found, ap (λ t. x ∷ t) rest)

  pub get_elem?-middle :
      (xs ys : List Job)
      → (get_elem? (xs ++ j ∷ ys) (length xs) ≡ some j)
        × (erase_idx (xs ++ j ∷ ys) (length xs) ≡ xs ++ ys)
  get_elem?-middle [] ys = (refl, refl)
  get_elem?-middle (x ∷ xs) ys =
      let (found, rest) = get_elem?-middle xs ys in (found, ap (λ t. x ∷ t) rest)

-- The runs `jobs` of a wave, of which `open` are not closed yet.
pub record Accounts (jobs open_jobs : List Job) (σ : Statuses) (failures : ℕ) : Type 0 where
  pub still_running : All (IsRunning σ) open_jobs
  pub apart : Apart open_jobs
  pub within : All (λ j. Elem j jobs) open_jobs
  pub covered : (j : Job) → Elem j jobs → Elem j open_jobs ⊎ IsClosed σ j
  pub counted : failures ≡ count_failed σ jobs

-- Closing one open run keeps the accounts, with one more failure if it failed.
pub Accounts-close :
    {jobs open_jobs : List Job} {σ σ' : Statuses} {failures : ℕ} (b : Bool) (k : ℕ) (j : Job)
    → Apart jobs
    → Accounts jobs open_jobs σ failures
    → get_elem? open_jobs k ≡ some j
    → ClosesIn j.run_id b σ σ'
    → Accounts jobs (erase_idx open_jobs k) σ' (count_failure b failures)
Accounts-close {jobs} {open_jobs} {σ} {σ'} {failures} b k j distinct a e c = record {
  still_running =
      All-IsRunning_apart c (erase_idx open_jobs k) gone
        (All-erase_idx j (IsRunning σ) open_jobs k a.still_running);
  apart = (Apart-erase_idx j open_jobs k e a.apart).0;
  within = All-erase_idx j (λ y. Elem y jobs) open_jobs k a.within;
  covered = λ y m. after_close y (a.covered y m);
  counted = count_step b (count_failed_close c j jobs distinct inside refl was) a.counted;
}
  where
    gone : All (λ y. y.run_id ≢ j.run_id) (erase_idx open_jobs k)
    gone = (Apart-erase_idx j open_jobs k e a.apart).1

    inside : Elem j jobs
    inside = All-get_elem? j (λ y. Elem y jobs) open_jobs k e a.within

    was : σ j.run_id ≡ some running
    was = All-get_elem? j (IsRunning σ) open_jobs k e a.still_running

    closed_now :
        (y : Job)
        → (y ≡ j) ⊎ Elem y (erase_idx open_jobs k)
        → Elem y (erase_idx open_jobs k) ⊎ IsClosed σ' y
    closed_now y (inl same) = inr (rw same (IsClosed_self b c.closed))
    closed_now y (inr m) = inl m

    after_close :
        (y : Job) → Elem y open_jobs ⊎ IsClosed σ y → Elem y (erase_idx open_jobs k) ⊎ IsClosed σ' y
    after_close y (inl m) = closed_now y (Elem-erase_idx j y open_jobs k e m)
    after_close y (inr h) = inr (IsClosed-kept c y h)

    count_step :
        (b : Bool)
        → count_failed σ' jobs ≡ one_if_failed (some (final_status b)) + count_failed σ jobs
        → failures ≡ count_failed σ jobs
        → count_failure b failures ≡ count_failed σ' jobs
    count_step true p q = omega arith
    count_step false p q = omega arith
