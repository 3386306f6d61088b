-- ===== src/Updater/Command/Pump.antt =====
-- What a run row holds after its output was pumped.
use ubuntu_auto_update.Base.{
  ℕ, ◌≤◌, ◌≡◌, refl, sym, ap, ◌∙◌, List, [], ◌∷◌, ◌++◌, append-nil, Option, none, some, Text, Error,
  arith, length, take, take_of_length-le,
}
use ubuntu_auto_update.Runs.{
  UpdateRun, Runs, find_row, append_row, append_run_output, max_run_output,
}
use ubuntu_auto_update.Runs.Laws.{find-update_row_self}
use ubuntu_auto_update.Runs.Output.{
  append_row-KeepsId, append_chunks, append_chunks_output, joined, length-append_row-le,
}
use ubuntu_auto_update.Updater.Command.Defs.{Chunk, pump_to_run}

abbrev pub keep : Option Error → Text → List Text → List Text
keep none c cs = c ∷ cs
keep (some e) c cs = cs

-- The chunks whose statement reached the table.
abbrev pub stored : List Chunk → List Text
stored [] = []
stored (c ∷ cs) = keep c.fault c.text (stored cs)

append_row_nil : (r : UpdateRun) → length r.output ≤ max_run_output → append_row [] r ≡ r
append_row_nil r h =
    unfold append_row in
    ground (arith, append-nil r.output, take_of_length-le max_run_output r.output h)

append_run_output-find :
    (i : ℕ) (c : Text) (t : Runs) (r : UpdateRun)
    → length r.output ≤ max_run_output
    → find_row i t.rows ≡ some r
    → find_row i (append_run_output none i c t).1.rows ≡ some (append_row c r)
append_run_output-find i [] t r le h =
    unfold append_run_output in h ∙ ap some (sym (append_row_nil r le))
append_run_output-find i (a ∷ c) t r le h =
    unfold append_run_output in
    find-update_row_self i (append_row (a ∷ c)) t.rows r (append_row-KeepsId (a ∷ c)) h

append_run_output_fault :
    (e : Error) (i : ℕ) (c : Text) (t : Runs) → (append_run_output (some e) i c t).1 ≡ t
unfolding append_run_output
append_run_output_fault e i [] t = refl
append_run_output_fault e i (a ∷ c) t = refl

-- One chunk, and what is known of the rest.
after_chunk :
    (i : ℕ) (fault : Option Error) (c : Text) (cs : List Chunk) (t : Runs) (r : UpdateRun)
    → length r.output ≤ max_run_output
    → find_row i t.rows ≡ some r
    → ((u : Runs) (q : UpdateRun)
        → length q.output ≤ max_run_output
        → find_row i u.rows ≡ some q
        → find_row i (pump_to_run i cs u).rows ≡ some (append_chunks (stored cs) q))
    → find_row i (pump_to_run i cs (append_run_output fault i c t).1).rows
      ≡ some (append_chunks (keep fault c (stored cs)) r)
after_chunk i none c cs t r le h rest =
    rest _ (append_row c r) (length-append_row-le c r le) (append_run_output-find i c t r le h)
after_chunk i (some e) c cs t r le h rest = rw (append_run_output_fault e i c t) (rest t r le h)

-- Faults apart, the row of the run gets the chunks one by one.
pump_to_run-find :
    (i : ℕ) (cs : List Chunk) (t : Runs) (r : UpdateRun)
    → length r.output ≤ max_run_output
    → find_row i t.rows ≡ some r
    → find_row i (pump_to_run i cs t).rows ≡ some (append_chunks (stored cs) r)
unfolding pump_to_run
pump_to_run-find i [] t r le h = h
pump_to_run-find i (c ∷ cs) t r le h =
    after_chunk i c.fault c.text cs t r le h (pump_to_run-find i cs)

append_chunks-status : (cs : List Text) (r : UpdateRun) → (append_chunks cs r).status ≡ r.status
append_chunks-status [] r = refl
append_chunks-status (c ∷ cs) r =
    append_chunks-status cs (append_row c r) ∙ unfold append_row in ground arith

-- For a run that is in the table with an output within the cap: after both pumps have ended its
-- row holds the first 1 MiB (counted in characters) of its old output and of all chunks whose
-- statement reached the table, in the order of the statements, and its status is unchanged.
pub pump_to_run_lem :
    (i : ℕ) (cs : List Chunk) (t : Runs) (r : UpdateRun)
    → length r.output ≤ max_run_output
    → find_row i t.rows ≡ some r
    → (r' : UpdateRun) × (find_row i (pump_to_run i cs t).rows ≡ some r')
      × (r'.output ≡ take max_run_output (r.output ++ joined (stored cs)))
      × (r'.status ≡ r.status)
pump_to_run_lem i cs t r le h = (
  append_chunks (stored cs) r,
  pump_to_run-find i cs t r le h,
  append_chunks_output (stored cs) r le,
  append_chunks-status (stored cs) r,
)
