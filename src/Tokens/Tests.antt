-- ===== src/Tokens/Tests.antt =====
-- A token for a build, minted, used and deleted.
use ubuntu_auto_update.Base.{
  arith, ℕ, ◌≡◌, refl, ap, subst, ◌⊎◌, true, [], ◌∷◌, ◌++◌, Option, none, some, Text, codes,
  trim_space, Result, ok, err, Error, text_eq,
}
use ubuntu_auto_update.Accounts.Users.{is_valid_role}
use ubuntu_auto_update.Accounts.Roles.{Principal}
use ubuntu_auto_update.Accounts.Gates.{Request, session_auth}
use ubuntu_auto_update.Tokens.Defs.{
  Token, TokenTable, prefix, find_token, new_token, token_auth, TokenRequest, minted, token_refused,
  handle_create_api_token, handle_delete_api_token, create_token,
}
use ubuntu_auto_update.Tokens.Access.{bearing, handle_create_api_token-Opens}

-- A secret's hash, for the tests.
abbrev marked : Text → Text
marked s = 1 ∷ s

abbrev table_of_one : TokenTable
table_of_one = record {
  rows = new_token marked 1 10 (codes "uat_aa") (codes "old") (codes "viewer") (codes "ann") ∷ [];
  next_id = 2;
}

abbrev asked_for : TokenRequest
asked_for = record { name = codes " build "; role = codes "operator" }

abbrev bare_request : Request
bare_request = record {
  method = codes "POST";
  authorization = [];
  upgrade = [];
  query_token = [];
  auth_cookie = none;
  csrf_cookie = none;
  csrf_header = [];
}

abbrev no_session : Text → Result Error (Option Principal)
no_session s = ok none

minted_test :
    (handle_create_api_token marked
      (ok (codes "bb"))
      none
      20
      (some (codes "ann"))
      (some asked_for)
      table_of_one).0
    ≡ minted
        (new_token marked 2 20 (codes "uat_bb") (codes "build") (codes "operator") (codes "ann"))
        (codes "uat_bb")
unfolding handle_create_api_token trim_space is_valid_role text_eq create_token
minted_test = refl

abbrev drawn : Result Error Text
drawn = ok (codes "bb")

abbrev drawn_text : Result Error Text → Text
drawn_text (ok s) = s
drawn_text (err e) = []

unused : (s : Text) → drawn ≡ ok s → find_token (marked (prefix ++ s)) table_of_one.rows ≡ none
unfolding find_token text_eq
unused s h =
    subst (λ x. find_token (marked (prefix ++ x)) table_of_one.rows ≡ none) (ap drawn_text h) refl

handle_create_api_token-Opens_example :
    ((status : ℕ) × (text : Text) × (handle_create_api_token marked drawn none 20 none
          (some asked_for)
          table_of_one
        ≡ (token_refused status text, table_of_one)))
    ⊎ ((row : Token) × (raw : Text) × ((handle_create_api_token marked drawn none 20 none
            (some asked_for)
            table_of_one).0
          ≡ minted row raw)
        × (is_valid_role (codes "operator") ≡ true)
        × (session_auth no_session
              (some (
                token_auth marked none 30
                  (handle_create_api_token marked drawn none 20 none
                    (some asked_for)
                    table_of_one).1))
              (bearing bare_request raw)
            ≡ ok (record {
              user_id = 0;
              username = codes "token:" ++ trim_space (codes " build ");
              role = codes "operator";
              session_id = 0;
              agent_label = [];
            }))
        × (session_auth no_session
              (some (
                token_auth marked none 30
                  (handle_delete_api_token none row.id
                    (handle_create_api_token marked drawn none 20 none
                      (some asked_for)
                      table_of_one).1).1))
              (bearing bare_request raw)
            ≡ err (codes "Invalid API token")))
handle_create_api_token-Opens_example =
    handle_create_api_token-Opens marked drawn none 20 30 none asked_for table_of_one no_session
      bare_request unused (omega arith, tt)
