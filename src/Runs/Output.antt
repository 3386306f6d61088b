-- ===== src/Runs/Output.antt =====
-- The stored output of a run: AppendRunOutput keeps the first `max_run_output` characters.
use ubuntu_auto_update.Base.{
  ℕ, zero, suc, ◌≤◌, ◌≡◌, refl, ap, sym, ◌∙◌, ◌≢◌, inl, inr, List, [], ◌∷◌, ◌++◌, append_assoc,
  append-nil, none, some, Text, arith, length, take, length-take, take_of_length-le, ==_iff, ◌==◌,
  if◌then◌else◌, Bool-cases, ok, ltb, count_if, All,
}
use ubuntu_auto_update.Runs.Defs.{
  UpdateRun, Runs, find_row, append_row, append_run_output, max_run_output, is_open,
}
use ubuntu_auto_update.Runs.Laws.{find-update_row_self, KeepsId, IsValid, Distinct}

take-take-append : (n : ℕ) (x c : Text) → take n (take n x ++ c) ≡ take n (x ++ c)
take-take-append zero x c = refl
take-take-append (suc n) [] c = refl
take-take-append (suc n) (a ∷ x) c = ap (λ t. a ∷ t) (take-take-append n x c)

take_of_full : (n : ℕ) (x c : Text) → length x ≡ n → take n (x ++ c) ≡ x
take_of_full zero [] c h = refl
take_of_full zero (a ∷ x) c h = absurd (omega arith)
take_of_full (suc n) [] c h = absurd (omega arith)
take_of_full (suc n) (a ∷ x) c h = ap (λ t. a ∷ t) (take_of_full n x c (omega arith))

pub append_row-KeepsId : (c : Text) → KeepsId (append_row c)
unfolding append_row
append_row-KeepsId c r = ground arith

-- The new output is the old one and the chunk, cut at the cap.
pub append_row_output :
    (c : Text) (r : UpdateRun)
    → length r.output ≤ max_run_output
    → (append_row c r).output ≡ take max_run_output (r.output ++ c)
append_row_output c r h = elim (Bool-cases (ltb (length r.output) max_run_output)) [
  | inl room ↦ unfold append_row in rw room refl
  | inr full ↦
      unfold append_row in rw full (sym (take_of_full max_run_output r.output c (ground arith)))
]

-- The output after a list of chunks, one statement each.
abbrev pub append_chunks : List Text → UpdateRun → UpdateRun
append_chunks [] r = r
append_chunks (c ∷ cs) r = append_chunks cs (append_row c r)

abbrev pub joined : List Text → Text
joined [] = []
joined (c ∷ cs) = c ++ joined cs

pub length-append_row-le :
    (c : Text) (r : UpdateRun)
    → length r.output ≤ max_run_output
    → length (append_row c r).output ≤ max_run_output
length-append_row-le c r h =
    rw (append_row_output c r h) (omega (arith, length-take max_run_output (r.output ++ c)))

-- For an output within the cap: whatever the sizes of the chunks, what is stored is the first
-- `max_run_output` characters of all that was written, in the order of the writes.
pub append_chunks_output :
    (cs : List Text) (r : UpdateRun)
    → length r.output ≤ max_run_output
    → (append_chunks cs r).output ≡ take max_run_output (r.output ++ joined cs)
append_chunks_output [] r h = rw append-nil (sym (take_of_length-le max_run_output r.output h))
append_chunks_output (c ∷ cs) r h =
    append_chunks_output cs (append_row c r) (length-append_row-le c r h)
    ∙ ap (λ t. take max_run_output (t ++ joined cs)) (append_row_output c r h)
    ∙ take-take-append max_run_output (r.output ++ c) (joined cs)
    ∙ ap (take max_run_output) (append_assoc r.output c (joined cs))

count-open_apart :
    (i : ℕ) (rs : List UpdateRun) → All (λ r. r.id ≢ i) rs → count_if (is_open i) rs ≡ 0
count-open_apart i [] h = refl
count-open_apart i (x ∷ rs) (ne, h) = ground (arith, count-open_apart i rs h)

count-open :
    (i : ℕ) (rs : List UpdateRun) (r : UpdateRun)
    → Distinct rs
    → find_row i rs ≡ some r
    → count_if (is_open i) rs ≡ (if ltb (length r.output) max_run_output then 1 else 0)
unfolding find_row
count-open i [] r d h = ground arith
count-open i (x ∷ rs) r (apart, d) h = elim (Bool-cases (x.id == i)) [
  | inl e ↦ here ((==_iff x.id i).0 e)
  | inr e ↦ ground (arith, count-open i rs r d)
]
  where
    here :
        x.id ≡ i
        → count_if (is_open i) (x ∷ rs) ≡ (if ltb (length r.output) max_run_output then 1 else 0)
    here e = ground (arith, count-open_apart i rs (rw e at apart))

-- For a run in a table whose keys are distinct, with an output within the cap, and a chunk that is
-- not empty and reaches the table: the reply to a write is true exactly when the stored output was
-- below the cap before it, and the row then holds the first `max_run_output` characters of the old
-- output and the chunk. So a write that is cut short is answered like one that fits.
pub append_run_output_lem :
    (i c : ℕ) (s : Text) (t : Runs) (r : UpdateRun)
    → IsValid t
    → find_row i t.rows ≡ some r
    → length r.output ≤ max_run_output
    → let (reply, t') = append_run_output none i (c ∷ s) t in
      (reply ≡ ok (ltb (length r.output) max_run_output))
      × (find_row i t'.rows ≡ some (record r { output = take max_run_output (r.output ++ c ∷ s) }))
append_run_output_lem i c s t r v h le = (
  unfold append_run_output in
      rw (count-open i t.rows r v.distinct h)
        (elim (Bool-cases (ltb (length r.output) max_run_output)) [
          | inl e ↦ rw e refl
          | inr e ↦ rw e refl
        ]),
  unfold append_run_output in
      find-update_row_self i (append_row (c ∷ s)) t.rows r (append_row-KeepsId (c ∷ s)) h
      ∙ ap some same,
)
  where
    same : append_row (c ∷ s) r ≡ record r { output = take max_run_output (r.output ++ c ∷ s) }
    same = elim (Bool-cases (ltb (length r.output) max_run_output)) [
      | inl e ↦ unfold append_row in rw e refl
      | inr e ↦
          unfold append_row in
          rw (e, take_of_full max_run_output r.output (c ∷ s) (ground arith)) refl
    ]
