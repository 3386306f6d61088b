-- ===== src/Updater/Command/Rows.antt =====
-- The statements of a run touch its own row alone, and only FinishRun changes a status.
use ubuntu_auto_update.Base.{
  ℕ, ◌≡◌, refl, ◌∙◌, ◌≢◌, inl, inr, List, [], ◌∷◌, Option, none, some, Text, Error, arith,
  Option-cases,
}
use ubuntu_auto_update.Base.Int.{ℤ}
use ubuntu_auto_update.Runs.{
  UpdateRun, Runs, RunStatus, update_row, find_row, append_row, append_run_output, finish_row,
  finish_run, failed,
}
use ubuntu_auto_update.Runs.Laws.{KeepsId, find-update_row_self, find-update_row_ne}
use ubuntu_auto_update.Updater.Command.Defs.{
  Chunk, CommandWorld, no_session, no_stdout, no_stderr, no_start, started, pump_to_run, echo_line,
  run_one_command, MarkWorld, mark_failed,
}

abbrev pub status_in : List UpdateRun → ℕ → Option RunStatus
status_in rs i = elim (find_row i rs) [ none ↦ none | some r ↦ some r.status ]

-- The status of a run, none for a key that is not in the table.
abbrev pub status_of : Runs → ℕ → Option RunStatus
status_of t i = status_in t.rows i

pub status_of_found :
    (rs : List UpdateRun) (i : ℕ) (r : UpdateRun)
    → find_row i rs ≡ some r
    → status_in rs i ≡ some r.status
status_of_found rs i r h = ground arith

pub found_of_status :
    (rs : List UpdateRun) (i : ℕ) (s : RunStatus)
    → status_in rs i ≡ some s
    → (r : UpdateRun) × (find_row i rs ≡ some r) × (r.status ≡ s)
found_of_status rs i s h = elim (Option-cases (find_row i rs)) [
  | inl e ↦ absurd (nothing e)
  | inr (r, e) ↦ (r, e, ground arith)
]
  where
    nothing : find_row i rs ≡ none → ⊥
    nothing e = ground arith

-- What writing output to run `i` does: other rows stay, and so do all statuses.
pub record Writes (i : ℕ) (t t' : Runs) : Type 0 where
  pub others : (k : ℕ) → k ≢ i → find_row k t'.rows ≡ find_row k t.rows
  pub status_kept : (k : ℕ) → status_of t' k ≡ status_of t k

pub Writes-refl : (i : ℕ) (t : Runs) → Writes i t t
Writes-refl i t = record { others = λ k ne. refl; status_kept = λ k. refl }

pub Writes-trans : {i : ℕ} {t u v : Runs} → Writes i t u → Writes i u v → Writes i t v
Writes-trans a b = record {
  others = λ k ne. b.others k ne ∙ a.others k ne;
  status_kept = λ k. b.status_kept k ∙ a.status_kept k;
}

append_row-status : (c : Text) (r : UpdateRun) → (append_row c r).status ≡ r.status
unfolding append_row
append_row-status c r = ground arith

append_row-id : (c : Text) → KeepsId (append_row c)
unfolding append_row
append_row-id c r = ground arith

status-append_row :
    (i : ℕ) (c : Text) (rs : List UpdateRun) (k : ℕ)
    → status_in (update_row i (append_row c) rs) k ≡ status_in rs k
unfolding update_row find_row
status-append_row i c [] k = refl
status-append_row i c (x ∷ rs) k =
    ground (arith, append_row-id c x, append_row-status c x, status-append_row i c rs k)

pub append-Writes :
    (fault : Option Error) (i : ℕ) (c : Text) (t : Runs)
    → Writes i t (append_run_output fault i c t).1
unfolding append_run_output
append-Writes fault i [] t = Writes-refl i t
append-Writes (some e) i (a ∷ c) t = Writes-refl i t
append-Writes none i (a ∷ c) t = record {
  others = λ k ne. find-update_row_ne i k (append_row (a ∷ c)) t.rows (append_row-id (a ∷ c)) ne;
  status_kept = status-append_row i (a ∷ c) t.rows;
}

pub pump_to_run-Writes : (i : ℕ) (cs : List Chunk) (t : Runs) → Writes i t (pump_to_run i cs t)
unfolding pump_to_run
pump_to_run-Writes i [] t = Writes-refl i t
pump_to_run-Writes i (c ∷ cs) t =
    Writes-trans (append-Writes c.fault i c.text t)
      (pump_to_run-Writes i cs (append_run_output c.fault i c.text t).1)

pub run_one_command-Writes :
    (i : ℕ) (cmd : Text) (w : CommandWorld) (t : Runs) → Writes i t (run_one_command i cmd w t).1
unfolding run_one_command
run_one_command-Writes i cmd (no_session e) t = Writes-refl i t
run_one_command-Writes i cmd (no_stdout e) t = Writes-refl i t
run_one_command-Writes i cmd (no_stderr e) t = Writes-refl i t
run_one_command-Writes i cmd (no_start fault e) t = append-Writes fault i (echo_line cmd) t
run_one_command-Writes i cmd (started fault chunks ending) t =
    Writes-trans (append-Writes fault i (echo_line cmd) t) (pump_to_run-Writes i chunks _)

-- What closing run `i` with a status does: other rows stay, and the row gets the status.
pub record Closes (i : ℕ) (s : RunStatus) (t t' : Runs) : Type 0 where
  pub others : (k : ℕ) → k ≢ i → find_row k t'.rows ≡ find_row k t.rows
  pub closed : (r : UpdateRun) → find_row i t.rows ≡ some r → status_of t' i ≡ some s

finish_row-id :
    (now : ℕ) (s : RunStatus) (code : ℤ) (text : Text) → KeepsId (finish_row now s code text)
unfolding finish_row
finish_row-id now s code text r = refl

pub finish-Closes :
    (now i : ℕ) (s : RunStatus) (code : ℤ) (text : Text) (t : Runs)
    → Closes i s t (finish_run none now i s code text t).1
unfolding finish_run
finish-Closes now i s code text t = record {
  others = λ k ne.
      find-update_row_ne i k (finish_row now s code text) t.rows (finish_row-id now s code text) ne;
  closed = λ r h.
      status_of_found _ i _ (
        find-update_row_self i (finish_row now s code text) t.rows r (finish_row-id now s code text)
          h)
      ∙ unfold finish_row in refl;
}

-- Output first, then the status.
pub Writes-Closes :
    {i : ℕ} {s : RunStatus} {t u v : Runs} → Writes i t u → Closes i s u v → Closes i s t v
Writes-Closes {i} {s} {t} {u} {v} a b = record {
  others = λ k ne. b.others k ne ∙ a.others k ne;
  closed = λ r h. elim (Option-cases (find_row i u.rows)) [
    | inl missing ↦ absurd (lost r h missing)
    | inr (r', e) ↦ b.closed r' e
  ];
}
  where
    lost : (r : UpdateRun) → find_row i t.rows ≡ some r → find_row i u.rows ≡ none → ⊥
    lost r h missing =
        let e : status_in u.rows i ≡ status_in t.rows i = a.status_kept i in ground arith

pub mark_failed-Closes :
    (w : MarkWorld) (i : ℕ) (text : Text) (t : Runs)
    → w.finish_fault ≡ none
    → Closes i failed t (mark_failed w i text t)
unfolding mark_failed
mark_failed-Closes w i text t healthy =
    rw healthy
      (Writes-Closes (append-Writes w.append_fault i _ t) (finish-Closes w.now i failed _ text _))
