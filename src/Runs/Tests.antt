-- ===== src/Runs/Tests.antt =====
-- The theorems at a table of one row.
use ubuntu_auto_update.Base.{◌≡◌, ◌≤◌, refl, List, [], ◌∷◌, none, some, Text, codes, length, arith}
use ubuntu_auto_update.Runs.Defs.{UpdateRun, Runs, update, new_row, max_run_output, find_row}
use ubuntu_auto_update.Runs.Laws.{IsValid}

abbrev row : UpdateRun
row = new_row 1 0 7 (codes "admin") update (codes "g") none

abbrev table : Runs
table = record { rows = row ∷ []; next_id = 2 }

table-IsValid : IsValid table
unfolding new_row
table-IsValid = record { drawn = (omega arith, tt); distinct = (tt, tt) }

row_found : find_row 1 table.rows ≡ some row
unfolding find_row new_row
row_found = refl

row_short : length row.output ≤ max_run_output
unfolding max_run_output new_row
row_short = omega arith

abbrev two_chunks : List Text
two_chunks = codes "ab" ∷ codes "c" ∷ []
