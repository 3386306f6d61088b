-- ===== src/Playbooks/Store.antt =====
-- The statements on the table playbooks (backend/pkg/playbooks/playbooks.go, whose names are unique
-- by backend/db/migrations). Each takes the fault that the driver reports for it.
use ubuntu_auto_update.Base.{
  ℕ, suc, Bool, true, false, not, ◌&&◌, ◌||◌, List, [], ◌∷◌, ◌++◌, Option, none, some, Text, codes,
  text_eq, ◌==◌, if◌then◌else◌, Result, ok, err, Error, no_rows, pg,
}

pub record Playbook : Type 0 where
  pub id : ℕ
  pub name : Text
  pub description : Text
  pub steps : List Text
  pub use_sudo : Bool
  pub created_by : Text
  pub created_at : ℕ
  pub updated_at : ℕ

pub record PlaybookTable : Type 0 where
  pub rows : List Playbook
  pub next_id : ℕ

unfoldable pub find_playbook : ℕ → List Playbook → Option Playbook
find_playbook i [] = none
find_playbook i (p ∷ ps) = let rest = find_playbook i ps in if p.id == i then some p else rest

abbrev pub row_or_missing {ℓ} : {A : Type ℓ} → Option A → Result Error A
row_or_missing none = err no_rows
row_or_missing (some r) = ok r

unfoldable pub get_playbook : Option Error → ℕ → PlaybookTable → Result Error Playbook
get_playbook (some e) i t = err e
get_playbook none i t = row_or_missing (find_playbook i t.rows)

-- Is the name taken by a row other than `i`?
unfoldable pub is_name_taken : ℕ → Text → List Playbook → Bool
is_name_taken i name [] = false
is_name_taken i name (p ∷ ps) = (not (p.id == i) && text_eq p.name name) || is_name_taken i name ps

abbrev pub duplicate_name : Error
duplicate_name = pg (codes "23505") (codes "duplicate key value violates unique constraint")

unfoldable pub create_playbook :
    Option Error
    → ℕ
    → Text
    → Text
    → List Text
    → Bool
    → Text
    → PlaybookTable
    → Result Error Playbook × PlaybookTable
create_playbook (some e) now name description steps use_sudo created_by t = (err e, t)
create_playbook none now name description steps use_sudo created_by t =
    let p : Playbook = record {
      id = t.next_id;
      name = name;
      description = description;
      steps = steps;
      use_sudo = use_sudo;
      created_by = created_by;
      created_at = now;
      updated_at = now;
    } in
    if is_name_taken t.next_id name t.rows
    then (err duplicate_name, t)
    else (ok p, record { rows = t.rows ++ p ∷ []; next_id = suc t.next_id })

unfoldable pub change_playbook : ℕ → (Playbook → Playbook) → List Playbook → List Playbook
change_playbook i f [] = []
change_playbook i f (p ∷ ps) = (if p.id == i then f p else p) ∷ change_playbook i f ps

unfoldable pub update_playbook :
    Option Error
    → ℕ
    → ℕ
    → Text
    → Text
    → List Text
    → Bool
    → PlaybookTable
    → Result Error Playbook × PlaybookTable
update_playbook (some e) now i name description steps use_sudo t = (err e, t)
update_playbook none now i name description steps use_sudo t =
    let f : Playbook → Playbook = λ p. record p {
      name = name;
      description = description;
      steps = steps;
      use_sudo = use_sudo;
      updated_at = now;
    } in
    let rows = change_playbook i f t.rows in
    elim (find_playbook i rows) [
      | none ↦ (err no_rows, t)
      | some p ↦
          if is_name_taken i name t.rows
          then (err duplicate_name, t)
          else (ok p, record t { rows = rows })
    ]

unfoldable pub drop_playbook : ℕ → List Playbook → List Playbook
drop_playbook i [] = []
drop_playbook i (p ∷ ps) = let rest = drop_playbook i ps in if p.id == i then rest else p ∷ rest

-- The number of rows that were deleted. A schedule that refers to the row makes the driver report
-- a fault.
unfoldable pub delete_playbook :
    Option Error → ℕ → PlaybookTable → Result Error Bool × PlaybookTable
delete_playbook (some e) i t = (err e, t)
delete_playbook none i t = (
  elim (find_playbook i t.rows) [ none ↦ ok false | some p ↦ ok true ],
  record t { rows = drop_playbook i t.rows },
)
