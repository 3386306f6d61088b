-- ===== src/Runs/Laws.antt =====
-- What the statements do to the rows: one row at most changes, keys stay distinct.
use ubuntu_auto_update.Base.{
  ℕ, ◌≤◌, ◌<◌, ◌≡◌, refl, ◌≢◌, inl, inr, List, [], ◌∷◌, ◌++◌, none, some, arith, All, ◌==◌,
  Bool-cases,
}
use ubuntu_auto_update.Runs.Defs.{UpdateRun, Runs, update_row, find_row}

-- No key twice.
abbrev pub Distinct : List UpdateRun → Type 0
Distinct [] = Unit {0}
Distinct (r ∷ rs) = All (λ s. s.id ≢ r.id) rs × Distinct rs

-- Keys are distinct and were all drawn from the sequence.
pub record IsValid (t : Runs) : Type 0 where
  pub drawn : All (λ r. r.id < t.next_id) t.rows
  pub distinct : Distinct t.rows

-- A change of a row that leaves its key alone.
abbrev pub KeepsId : (UpdateRun → UpdateRun) → Type 0
KeepsId f = (r : UpdateRun) → (f r).id ≡ r.id

pub find-update_row_self :
    (i : ℕ) (f : UpdateRun → UpdateRun) (rs : List UpdateRun) (r : UpdateRun)
    → KeepsId f
    → find_row i rs ≡ some r
    → find_row i (update_row i f rs) ≡ some (f r)
unfolding find_row update_row
find-update_row_self i f [] r keeps h = ground arith
find-update_row_self i f (x ∷ rs) r keeps h =
    ground (arith, keeps x, find-update_row_self i f rs r keeps)

pub find-update_row_ne :
    (i j : ℕ) (f : UpdateRun → UpdateRun) (rs : List UpdateRun)
    → KeepsId f
    → j ≢ i
    → find_row j (update_row i f rs) ≡ find_row j rs
unfolding find_row update_row
find-update_row_ne i j f [] keeps ne = refl
find-update_row_ne i j f (x ∷ rs) keeps ne =
    ground (arith, keeps x, find-update_row_ne i j f rs keeps ne)

pub find-update_row-none :
    (i j : ℕ) (f : UpdateRun → UpdateRun) (rs : List UpdateRun)
    → KeepsId f
    → find_row j rs ≡ none
    → find_row j (update_row i f rs) ≡ none
unfolding find_row update_row
find-update_row-none i j f [] keeps h = refl
find-update_row-none i j f (x ∷ rs) keeps h =
    ground (arith, keeps x, find-update_row-none i j f rs keeps)

All-id-update_row :
    (P : ℕ → Type 0) (i : ℕ) (f : UpdateRun → UpdateRun) (rs : List UpdateRun)
    → KeepsId f
    → All (λ r. P r.id) rs
    → All (λ r. P r.id) (update_row i f rs)
unfolding update_row
All-id-update_row P i f [] keeps h = tt
All-id-update_row P i f (x ∷ rs) keeps (here, rest) = (
  elim (Bool-cases (x.id == i)) [ inl e ↦ rw (e, keeps x) here | inr e ↦ rw e here ],
  All-id-update_row P i f rs keeps rest,
)

update_row-Distinct :
    (i : ℕ) (f : UpdateRun → UpdateRun) (rs : List UpdateRun)
    → KeepsId f
    → Distinct rs
    → Distinct (update_row i f rs)
unfolding update_row
update_row-Distinct i f [] keeps d = tt
update_row-Distinct i f (x ∷ rs) keeps (apart, d) = (
  elim (Bool-cases (x.id == i)) [
    | inl e ↦ rw (e, keeps x) (All-id-update_row (λ k. k ≢ x.id) i f rs keeps apart)
    | inr e ↦ rw e (All-id-update_row (λ k. k ≢ x.id) i f rs keeps apart)
  ],
  update_row-Distinct i f rs keeps d,
)

pub update_row-IsValid :
    (i : ℕ) (f : UpdateRun → UpdateRun) (t : Runs)
    → KeepsId f
    → IsValid t
    → IsValid (record t { rows = update_row i f t.rows })
update_row-IsValid i f t keeps v = record {
  drawn = All-id-update_row (λ k. k < t.next_id) i f t.rows keeps v.drawn;
  distinct = update_row-Distinct i f t.rows keeps v.distinct;
}

pub find_row-append :
    (i : ℕ) (xs ys : List UpdateRun) (r : UpdateRun)
    → find_row i xs ≡ some r
    → find_row i (xs ++ ys) ≡ some r
unfolding find_row
find_row-append i [] ys r h = ground arith
find_row-append i (x ∷ xs) ys r h = ground (arith, find_row-append i xs ys r)

pub find_row-append_none :
    (i : ℕ) (xs ys : List UpdateRun) → find_row i xs ≡ none → find_row i (xs ++ ys) ≡ find_row i ys
unfolding find_row
find_row-append_none i [] ys h = refl
find_row-append_none i (x ∷ xs) ys h = ground (arith, find_row-append_none i xs ys)

-- A key that the sequence has not drawn yet is not in the table.
pub find_row_undrawn :
    (i n : ℕ) (rs : List UpdateRun) → All (λ r. r.id < n) rs → n ≤ i → find_row i rs ≡ none
unfolding find_row
find_row_undrawn i n [] below h = refl
find_row_undrawn i n (x ∷ rs) below h = ground (arith, find_row_undrawn i n rs below.1 h)

pub find_row-id : (i : ℕ) (rs : List UpdateRun) (r : UpdateRun) → find_row i rs ≡ some r → r.id ≡ i
unfolding find_row
find_row-id i [] r h = ground arith
find_row-id i (x ∷ rs) r h = ground (arith, find_row-id i rs r)
