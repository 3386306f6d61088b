-- ===== src/Accounts/Users.antt =====
-- The table users and its operations.
use ubuntu_auto_update.Base.{
  ℕ, suc, ◌+◌, Bool, true, false, ◌||◌, not, List, [], ◌∷◌, ◌++◌, Option, none, some, Text, codes,
  text_eq, is_empty, trim_space, byte_length, ltb, leb, ◌==◌, if◌then◌else◌, Result, ok, err, Error,
  wrapped, is_unique_violation, pg,
}

abbrev pub max_failed_logins : ℕ
max_failed_logins = 8

-- Seconds.
abbrev pub lockout_duration : ℕ
lockout_duration = 900

pub record User : Type 0 where
  pub id : ℕ
  pub username : Text
  pub password_hash : Text
  pub role : Text
  pub disabled_at : Option ℕ
  pub created_at : ℕ
  pub updated_at : ℕ
  pub last_login_at : Option ℕ
  pub failed_logins : ℕ
  pub locked_until : Option ℕ

pub record Users : Type 0 where
  pub rows : List User
  pub next_id : ℕ

pub data UserError : Type 0 where
  user_not_found invalid_credentials account_locked duplicate_username invalid_role
        password_too_short username_required :
      UserError
  other : Error → UserError
  -- "create bootstrap admin: %w"
  bootstrap_failed : UserError → UserError

unfoldable pub is_valid_role : Text → Bool
is_valid_role role =
    text_eq role (codes "viewer")
    || (text_eq role (codes "operator") || text_eq role (codes "admin"))

-- `generate` is bcrypt.GenerateFromPassword.
unfoldable pub hash_password : (Text → Result Error Text) → Text → Result UserError Text
hash_password generate password =
    if ltb (byte_length password) 12 then err password_too_short else elim (generate password) [
      | err e ↦ err (other (wrapped (codes "bcrypt: ") e))
      | ok hash ↦ ok hash
    ]

unfoldable pub find_user : Text → List User → Option User
find_user name [] = none
find_user name (u ∷ us) =
    let rest = find_user name us in if text_eq u.username name then some u else rest

unfoldable pub user_by_id : ℕ → List User → Option User
user_by_id i [] = none
user_by_id i (u ∷ us) = let rest = user_by_id i us in if u.id == i then some u else rest

-- UPDATE users SET … WHERE id = $1
unfoldable pub change_user : ℕ → (User → User) → List User → List User
change_user i f [] = []
change_user i f (u ∷ us) = (if u.id == i then f u else u) ∷ change_user i f us

unfoldable pub drop_user : ℕ → List User → List User
drop_user i [] = []
drop_user i (u ∷ us) = let rest = drop_user i us in if u.id == i then rest else u ∷ rest

abbrev pub is_taken : Text → List User → Bool
is_taken name us = elim (find_user name us) [ none ↦ false | some u ↦ true ]

unfoldable pub map_insert_error : Error → UserError
map_insert_error e = if is_unique_violation e then duplicate_username else other e

abbrev pub new_user : ℕ → ℕ → Text → Text → Text → User
new_user i now username hash role = record {
  id = i;
  username = username;
  password_hash = hash;
  role = role;
  disabled_at = none;
  created_at = now;
  updated_at = now;
  last_login_at = none;
  failed_logins = 0;
  locked_until = none;
}

-- The insert; the name is UNIQUE.
abbrev pub insert_user :
    Option Error → ℕ → Text → Text → Text → Users → Result UserError User × Users
insert_user (some e) now username hash role t = (err (map_insert_error e), t)
insert_user none now username hash role t =
    if is_taken username t.rows
    then (err (map_insert_error (pg (codes "23505") (codes "duplicate key"))), t)
    else (
      ok (new_user t.next_id now username hash role),
      record {
        rows = t.rows ++ new_user t.next_id now username hash role ∷ [];
        next_id = suc t.next_id;
      },
    )

abbrev pub with_hash :
    Option Error → ℕ → Text → Text → Result UserError Text → Users → Result UserError User × Users
with_hash fault now username role (err e) t = (err e, t)
with_hash fault now username role (ok hash) t = insert_user fault now username hash role t

unfoldable pub create_user :
    (Text → Result Error Text)
    → Option Error
    → ℕ
    → Text
    → Text
    → Text
    → Users
    → Result UserError User × Users
unfolding hash_password
create_user generate fault now username password role t =
    let name = trim_space username in
    let made = with_hash fault now name role (hash_password generate password) t in
    if is_empty name
    then (err username_required, t)
    else if not (is_valid_role role)
    then (err invalid_role, t)
    else made

-- The driver's faults and the clock of one Authenticate.
pub record LoginWorld : Type 0 where
  pub select_fault : Option Error
  pub bump_fault : Option Error
  pub now : ℕ

-- The row after a wrong password.
unfoldable pub fail_row : ℕ → ℕ → User → User
fail_row now failed u =
    if leb max_failed_logins failed
    then record u {
      failed_logins = failed;
      locked_until = some (now + lockout_duration);
      updated_at = now;
    }
    else record u { failed_logins = failed; updated_at = now }

unfoldable pub login_row : ℕ → User → User
login_row now u = record u {
  failed_logins = 0;
  locked_until = none;
  last_login_at = some now;
  updated_at = now;
}

-- A statement whose error is ignored.
abbrev pub bump : Option Error → ℕ → (User → User) → Users → Users
bump (some e) i f t = t
bump none i f t = record t { rows = change_user i f t.rows }

abbrev pub is_locked : ℕ → Option ℕ → Bool
is_locked now none = false
is_locked now (some t) = ltb now t

-- The fields of the User that Authenticate fills in.
pub record Login : Type 0 where
  pub id : ℕ
  pub username : Text
  pub role : Text

-- bcrypt.CompareHashAndPassword returned nil, or not.
abbrev pub compared : LoginWorld → User → Bool → Users → Result UserError Login × Users
compared w u false t =
    (err invalid_credentials, bump w.bump_fault u.id (fail_row w.now (suc u.failed_logins)) t)
compared w u true t = (
  ok (record { id = u.id; username = u.username; role = u.role }),
  bump w.bump_fault u.id (login_row w.now) t,
)

abbrev pub unless_locked : LoginWorld → User → Bool → Bool → Users → Result UserError Login × Users
unless_locked w u true right t = (err account_locked, t)
unless_locked w u false right t = compared w u right t

abbrev pub unless_disabled :
    LoginWorld → User → Option ℕ → Bool → Users → Result UserError Login × Users
unless_disabled w u (some since) right t = (err invalid_credentials, t)
unless_disabled w u none right t = unless_locked w u (is_locked w.now u.locked_until) right t

abbrev pub with_row :
    (Text → Text → Bool) → LoginWorld → Text → Option User → Users → Result UserError Login × Users
with_row matches w password none t = (err invalid_credentials, t)
with_row matches w password (some u) t =
    unless_disabled w u u.disabled_at (matches u.password_hash password) t

abbrev pub selected :
    (Text → Text → Bool)
    → LoginWorld
    → Option Error
    → Text
    → Text
    → Users
    → Result UserError Login × Users
selected matches w (some e) name password t = (err (other e), t)
selected matches w none name password t = with_row matches w password (find_user name t.rows) t

unfoldable pub authenticate :
    (Text → Text → Bool) → LoginWorld → Text → Text → Users → Result UserError Login × Users
authenticate matches w name password t = selected matches w w.select_fault name password t

-- The statements with RowsAffected.
abbrev pub affected : Option Error → ℕ → (User → User) → Users → Option UserError × Users
affected (some e) i f t = (some (other e), t)
affected none i f t = elim (user_by_id i t.rows) [
  | none ↦ (some user_not_found, t)
  | some u ↦ (none, record t { rows = change_user i f t.rows })
]

abbrev pub store_hash :
    Option Error → ℕ → ℕ → Result UserError Text → Users → Option UserError × Users
store_hash fault now i (err e) t = (some e, t)
store_hash fault now i (ok hash) t =
    affected fault i
      (λ u. record u {
        password_hash = hash;
        updated_at = now;
        failed_logins = 0;
        locked_until = none;
      })
      t

unfoldable pub set_password :
    (Text → Result Error Text) → Option Error → ℕ → ℕ → Text → Users → Option UserError × Users
unfolding hash_password
set_password generate fault now i password t =
    store_hash fault now i (hash_password generate password) t

unfoldable pub set_role : Option Error → ℕ → ℕ → Text → Users → Option UserError × Users
set_role fault now i role t =
    let done = affected fault i (λ u. record u { role = role; updated_at = now }) t in
    if not (is_valid_role role) then (some invalid_role, t) else done

unfoldable pub set_disabled : Option Error → ℕ → ℕ → Bool → Users → Option UserError × Users
set_disabled fault now i disabled t =
    affected fault i
      (λ u. record u { disabled_at = if disabled then some now else none; updated_at = now }) t

abbrev pub removed : Option Error → ℕ → Users → Option UserError × Users
removed (some e) i t = (some (other e), t)
removed none i t = elim (user_by_id i t.rows) [
  | none ↦ (some user_not_found, t)
  | some u ↦ (none, record t { rows = drop_user i t.rows })
]

unfoldable pub delete_user : Option Error → ℕ → Users → Option UserError × Users
delete_user fault i t = removed fault i t

abbrev pub booted : Result UserError User × Users → Result UserError Bool × Users
booted (err password_too_short, t) = (err password_too_short, t)
booted (err e, t) = (err (bootstrap_failed e), t)
booted (ok u, t) = (ok true, t)

abbrev pub boot_if_empty :
    (Text → Result Error Text)
    → Option Error
    → ℕ
    → Text
    → Text
    → List User
    → Users
    → Result UserError Bool × Users
boot_if_empty generate fault now name password [] t =
    booted (create_user generate fault now name password (codes "admin") t)
boot_if_empty generate fault now name password (u ∷ us) t = (ok false, t)

abbrev pub counted :
    (Text → Result Error Text)
    → Option Error
    → Option Error
    → ℕ
    → Text
    → Text
    → Users
    → Result UserError Bool × Users
counted generate (some e) fault now name password t =
    (err (other (wrapped (codes "count users: ") e)), t)
counted generate none fault now name password t =
    boot_if_empty generate fault now name password t.rows t

unfoldable pub ensure_bootstrap_admin :
    (Text → Result Error Text)
    → Option Error
    → Option Error
    → ℕ
    → Text
    → Text
    → Users
    → Result UserError Bool × Users
ensure_bootstrap_admin generate count_fault fault now username password t =
    let name = trim_space username in
    let done = counted generate count_fault fault now name password t in
    if is_empty name || is_empty password then (ok false, t) else done
