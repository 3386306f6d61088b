-- ===== src/Runs/Create.antt =====
-- A new row gets a key of its own and leaves the other rows alone.
use ubuntu_auto_update.Base.{
  ℕ, suc, ◌<◌, ◌≡◌, ◌∙◌, ◌≢◌, List, [], ◌∷◌, ◌++◌, some, arith, All, All-append,
}
use ubuntu_auto_update.Runs.Defs.{UpdateRun, Runs, find_row}
use ubuntu_auto_update.Runs.Laws.{Distinct, IsValid, find_row-append_none, find_row_undrawn}

pub find_row-append_ne :
    (i : ℕ) (xs : List UpdateRun) (r : UpdateRun)
    → r.id ≢ i
    → find_row i (xs ++ r ∷ []) ≡ find_row i xs
unfolding find_row
find_row-append_ne i [] r ne = ground arith
find_row-append_ne i (x ∷ xs) r ne = ground (arith, find_row-append_ne i xs r ne)

All-below : (n : ℕ) (xs : List UpdateRun) → All (λ r. r.id < n) xs → All (λ r. r.id < suc n) xs
All-below n [] h = tt
All-below n (x ∷ xs) (lt, h) = (omega (arith, lt), All-below n xs h)

Distinct-append :
    (xs : List UpdateRun) (r : UpdateRun)
    → All (λ x. x.id < r.id) xs
    → Distinct xs
    → Distinct (xs ++ r ∷ [])
Distinct-append [] r h d = (tt, tt)
Distinct-append (x ∷ xs) r (lt, h) (apart, d) = (
  All-append (λ s. s.id ≢ x.id) xs (r ∷ []) apart ((λ e. omega (arith, lt, e)), tt),
  Distinct-append xs r h d,
)

-- The table with one more row, under the next key.
abbrev pub with_row : Runs → UpdateRun → Runs
with_row t r = record t { rows = t.rows ++ r ∷ []; next_id = suc t.next_id }

module _ (t : Runs) (r : UpdateRun) (v : IsValid t) (here : r.id ≡ t.next_id) where
  pub with_row-IsValid : IsValid (with_row t r)
  with_row-IsValid = record {
    drawn =
        All-append (λ x. x.id < suc t.next_id) t.rows (r ∷ []) (All-below t.next_id t.rows v.drawn)
          (omega (arith, here), tt);
    distinct = Distinct-append t.rows r (rw here v.drawn) v.distinct;
  }

  pub find_with_row_new : find_row t.next_id (with_row t r).rows ≡ some r
  unfolding find_row
  find_with_row_new =
      find_row-append_none t.next_id t.rows (r ∷ [])
        (find_row_undrawn t.next_id t.next_id t.rows v.drawn (omega arith))
      ∙ ground (arith, here)

  pub find_with_row_old :
      (i : ℕ) → i < t.next_id → find_row i (with_row t r).rows ≡ find_row i t.rows
  find_with_row_old i lt = find_row-append_ne i t.rows r (λ e. omega (arith, e, lt, here))
