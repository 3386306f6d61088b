-- ===== src/Tokens/Defs.antt =====
-- The table api_tokens, whose hashes are UNIQUE, and the handlers that change it, with the adapter
-- of backend/cmd/api/main.go that SessionAuthMiddleware calls. SHA-256 and the random bytes in hex
-- are outside: `hash` and `random`.
use ubuntu_auto_update.Base.{
  ℕ, zero, suc, not, List, [], ◌∷◌, ◌++◌, Option, none, some, Text, codes, text_eq, is_empty,
  trim_space, has_prefix, ◌==◌, if◌then◌else◌, Result, ok, err, Error, is_some,
}
use ubuntu_auto_update.Accounts.Users.{is_valid_role}
use ubuntu_auto_update.Accounts.Roles.{Principal}

pub record Token : Type 0 where
  pub id : ℕ
  pub name : Text
  pub token_hash : Text
  pub role : Text
  pub created_by : Text
  pub created_at : ℕ
  pub last_used_at : Option ℕ

pub record TokenTable : Type 0 where
  pub rows : List Token
  pub next_id : ℕ

abbrev pub prefix : Text
prefix = codes "uat_"

unfoldable pub find_token : Text → List Token → Option Token
find_token h [] = none
find_token h (t ∷ ts) =
    let rest = find_token h ts in if text_eq t.token_hash h then some t else rest

unfoldable pub token_by_id : ℕ → List Token → Option Token
token_by_id i [] = none
token_by_id i (t ∷ ts) = let rest = token_by_id i ts in if t.id == i then some t else rest

unfoldable pub drop_token : ℕ → List Token → List Token
drop_token i [] = []
drop_token i (t ∷ ts) = let rest = drop_token i ts in if t.id == i then rest else t ∷ rest

unfoldable pub touch : Text → ℕ → List Token → List Token
touch h now [] = []
touch h now (t ∷ ts) =
    (if text_eq t.token_hash h then record t { last_used_at = some now } else t) ∷ touch h now ts

abbrev pub new_token : (Text → Text) → ℕ → ℕ → Text → Text → Text → Text → Token
new_token hash i now raw name role created_by = record {
  id = i;
  name = name;
  token_hash = hash raw;
  role = role;
  created_by = created_by;
  created_at = now;
  last_used_at = none;
}

-- The insert of a minted token; a UNIQUE violation is one of its faults.
abbrev pub minted_row :
    (Text → Text)
    → Option Error
    → ℕ
    → Text
    → Text
    → Text
    → Text
    → TokenTable
    → Result Error (Token × Text) × TokenTable
minted_row hash (some e) now raw name role created_by t = (err e, t)
minted_row hash none now raw name role created_by t =
    let row = new_token hash t.next_id now raw name role created_by in
    (ok (row, raw), record { rows = t.rows ++ row ∷ []; next_id = suc t.next_id })

abbrev pub with_random :
    (Text → Text)
    → Result Error Text
    → Option Error
    → ℕ
    → Text
    → Text
    → Text
    → TokenTable
    → Result Error (Token × Text) × TokenTable
with_random hash (err e) fault now name role created_by t = (err e, t)
with_random hash (ok random) fault now name role created_by t =
    minted_row hash fault now (prefix ++ random) name role created_by t

unfoldable pub create_token :
    (Text → Text)
    → Result Error Text
    → Option Error
    → ℕ
    → Text
    → Text
    → Text
    → TokenTable
    → Result Error (Token × Text) × TokenTable
create_token hash random fault now name role created_by t =
    with_random hash random fault now name role created_by t

unfoldable pub delete_token : Option Error → ℕ → TokenTable → Result Error ℕ × TokenTable
delete_token (some e) i t = (err e, t)
delete_token none i t =
    (ok (if is_some (token_by_id i t.rows) then 1 else 0), record t { rows = drop_token i t.rows })

abbrev pub touched : Option Error → Text → ℕ → TokenTable → Result Error (Option Token) × TokenTable
touched (some e) h now t = (err e, t)
touched none h now t =
    let rows = touch h now t.rows in (ok (find_token h rows), record t { rows = rows })

-- `none` is the answer false.
unfoldable pub validate_token :
    (Text → Text) → Option Error → ℕ → Text → TokenTable → Result Error (Option Token) × TokenTable
validate_token hash fault now raw t =
    let done = touched fault (hash raw) now t in
    if has_prefix raw prefix then done else (ok none, t)

abbrev pub token_principal : Token → Principal
token_principal t = record {
  user_id = 0;
  username = codes "token:" ++ t.name;
  role = t.role;
  session_id = 0;
  agent_label = [];
}

abbrev pub principal_or : Result Error (Option Token) → Result Error (Option Principal)
principal_or (err e) = err e
principal_or (ok none) = ok none
principal_or (ok (some t)) = ok (some (token_principal t))

-- The validator that the router gives SessionAuthMiddleware.
unfoldable pub token_auth :
    (Text → Text) → Option Error → ℕ → TokenTable → Text → Result Error (Option Principal)
token_auth hash fault now t raw = principal_or (validate_token hash fault now raw t).0

pub record TokenRequest : Type 0 where
  pub name : Text
  pub role : Text

pub data TokenReply : Type 0 where
  -- 201 with the row and the secret, 204
  minted : Token → Text → TokenReply
  removed_token : TokenReply
  token_refused : ℕ → Text → TokenReply

abbrev pub creator : Option Text → Text
creator none = codes "unknown"
creator (some name) = name

abbrev pub answer_token : Result Error (Token × Text) × TokenTable → TokenReply × TokenTable
answer_token (err e, t) = (token_refused 500 (codes "Failed to create token"), t)
answer_token (ok (row, raw), t) = (minted row raw, t)

unfoldable pub handle_create_api_token :
    (Text → Text)
    → Result Error Text
    → Option Error
    → ℕ
    → Option Text
    → Option TokenRequest
    → TokenTable
    → TokenReply × TokenTable
handle_create_api_token hash random fault now user none t =
    (token_refused 400 (codes "Invalid request body"), t)
handle_create_api_token hash random fault now user (some r) t =
    let name = trim_space r.name in
    let made = answer_token (create_token hash random fault now name r.role (creator user) t) in
    if is_empty name
    then (token_refused 400 (codes "name is required"), t)
    else if not (is_valid_role r.role)
    then (token_refused 400 (codes "role must be viewer, operator, or admin"), t)
    else made

abbrev pub answer_removal : Result Error ℕ × TokenTable → TokenReply × TokenTable
answer_removal (err e, t) = (token_refused 500 (codes "Failed to delete token"), t)
answer_removal (ok zero, t) = (token_refused 404 (codes "Token not found"), t)
answer_removal (ok (suc n), t) = (removed_token, t)

unfoldable pub handle_delete_api_token : Option Error → ℕ → TokenTable → TokenReply × TokenTable
handle_delete_api_token fault i t = answer_removal (delete_token fault i t)
