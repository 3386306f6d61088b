-- ===== src/Base/Errors.antt =====
-- Go's `error` values, with what errors.Is, errors.As and `.Error()` see of them.
use mathlib.Core.Bool.{Bool, true, false}
use mathlib.Core.List.{◌++◌}
use ubuntu_auto_update.Base.Strings.{Text, codes, text_eq}

pub data Error : Type 0 where
  -- errors.New, or fmt.Errorf with no %w
  message : Text → Error
  -- fmt.Errorf("…: %w", err)
  wrapped : Text → Error → Error
  -- pgx.ErrNoRows
  no_rows : Error
  -- a *pgconn.PgError: its code and its text
  pg : Text → Text → Error

-- What `%w` was given at the bottom of the chain.
abbrev pub cause : Error → Error
cause (message t) = message t
cause (wrapped t e) = cause e
cause no_rows = no_rows
cause (pg code t) = pg code t

-- errors.Is(err, pgx.ErrNoRows)
abbrev pub is_no_rows : Error → Bool
is_no_rows (message t) = false
is_no_rows (wrapped t e) = is_no_rows e
is_no_rows no_rows = true
is_no_rows (pg code t) = false

-- errors.As into *pgconn.PgError, and its code "23505": a unique constraint
abbrev pub is_unique_violation : Error → Bool
is_unique_violation (message t) = false
is_unique_violation (wrapped t e) = is_unique_violation e
is_unique_violation no_rows = false
is_unique_violation (pg code t) = text_eq code (codes "23505")

-- err.Error()
unfoldable pub error_text : Error → Text
error_text (message t) = t
error_text (wrapped t e) = t ++ error_text e
error_text no_rows = codes "no rows in result set"
error_text (pg code t) = t

-- Where a pgx query with rows reports its failure: from Query, or deferred to the collection.
pub data Fault : Type 0 where
  at_query at_rows : Error → Fault
