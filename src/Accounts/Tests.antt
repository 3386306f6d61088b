-- ===== src/Accounts/Tests.antt =====
-- One user, one session, and the theorems at them.
mod Entry
use ubuntu_auto_update.Base.{
  ◌+◌, ◌<◌, ◌≡◌, ◌≢◌, ◌⊎◌, refl, Bool, true, false, ◌&&◌, ◌||◌, not, List, [], ◌∷◌, Option, none,
  some, Text, codes, All, ◌↔◌, arith, length, ok, err, Result, Error, is_empty, has_prefix, text_eq,
}
use ubuntu_auto_update.Base.Int.{pos}
use ubuntu_auto_update.Accounts.Users.{
  User, Users, find_user, LoginWorld, authenticate, account_locked, lockout_duration,
}
use ubuntu_auto_update.Accounts.Lockout.{Attempt, healthy_at, try_all, last_time, lockout}
use ubuntu_auto_update.Accounts.Roles.{
  Principal, has_role, role_name, operator, viewer, covers, has_role_lem,
}
use ubuntu_auto_update.Accounts.Sessions.{
  Session, Sessions, ValidateWorld, find_session, validate, revoke,
}
use ubuntu_auto_update.Accounts.Lifetime.{IsGood, validate-IsGood}
use ubuntu_auto_update.Accounts.Revocation.{
  validate-revoke, SessionOp, opened, asked, swept, is_apart, session_ops,
}
use ubuntu_auto_update.Accounts.Gates.{
  Request, passed, cookie_value, bearer, extract_token, is_safe_method, csrf_gate, is_passed,
  csrf_gate_iff, role_gate, session_auth,
}
use ubuntu_auto_update.Accounts.Passage.{IsKnown, role_gate-session_auth}

abbrev alice : User
alice = record {
  id = 1;
  username = codes "alice";
  password_hash = codes "h";
  role = codes "operator";
  disabled_at = none;
  created_at = 0;
  updated_at = 0;
  last_login_at = none;
  failed_logins = 0;
  locked_until = none;
}

abbrev users : Users
users = record { rows = alice ∷ []; next_id = 2 }

-- The hash of a password is the password.
abbrev same_text : Text → Text → Bool
same_text hash password = text_eq hash password

abbrev guess : Attempt
guess = record { now = 10; password = codes "x" }

abbrev seven_more : List Attempt
seven_more = guess ∷ guess ∷ guess ∷ guess ∷ guess ∷ guess ∷ guess ∷ []

alice_found : find_user (codes "alice") users.rows ≡ some alice
unfolding find_user text_eq
alice_found = refl

All-wrong : All (λ a. same_text alice.password_hash a.password ≡ false) (guess ∷ seven_more)
unfolding text_eq
All-wrong = (refl, (refl, (refl, (refl, (refl, (refl, (refl, (refl, tt))))))))

still_early : 20 < last_time 0 (guess ∷ seven_more) + lockout_duration
still_early = omega arith

seven : length seven_more ≡ 7
seven = refl

lockout_example :
    authenticate same_text
      (healthy_at 20)
      (codes "alice")
      (codes "h")
      (try_all same_text (codes "alice") (guess ∷ seven_more) users)
    ≡ (err account_locked, try_all same_text (codes "alice") (guess ∷ seven_more) users)
lockout_example =
    lockout same_text (codes "alice") guess seven_more alice users (healthy_at 20) (codes "h")
      alice_found refl refl refl seven All-wrong refl still_early

abbrev alice_principal : Principal
alice_principal = record {
  user_id = 1;
  username = codes "alice";
  role = codes "operator";
  session_id = 5;
  agent_label = [];
}

abbrev same_hash : Text → Text
same_hash token = token

abbrev session : Session
session = record {
  id = 5;
  token_hash = codes "t";
  user_id = some 1;
  agent_label = none;
  expires_at = 100;
  ip = none;
  user_agent = none;
}

abbrev sessions : Sessions
sessions = record { rows = session ∷ []; next_id = 6 }

abbrev at_ten : ValidateWorld
at_ten = record { lookup_fault = none; delete_fault = none; now = 10 }

accepts : (validate same_hash at_ten (codes "t") users.rows sessions).0 ≡ ok (some alice_principal)
unfolding validate find_session text_eq ubuntu_auto_update.Accounts.Users.user_by_id
accepts = refl

validate-IsGood_example :
    (codes "t" ≢ []) × IsGood same_hash 10 (codes "t") users.rows sessions alice_principal
validate-IsGood_example =
    validate-IsGood same_hash at_ten (codes "t") users.rows sessions alice_principal accepts

-- Later on another session is opened and used, and the expired ones are swept.
abbrev later_ops : List SessionOp
later_ops =
    opened (record { token = ok (codes "u"); insert_fault = none; now = 5 }) alice_principal
      (pos 60) [] []
    ∷ asked at_ten (codes "u") users.rows
    ∷ swept none 200
    ∷ []

later_ops-apart : All (λ o. is_apart same_hash (codes "t") o ≡ true) later_ops
unfolding text_eq
later_ops-apart = (refl, (refl, (refl, tt)))

validate-revoke_example :
    (validate same_hash at_ten
      (codes "t")
      users.rows
      (session_ops same_hash later_ops (revoke same_hash none (codes "t") sessions).1)).0
    ≡ ok none
validate-revoke_example =
    validate-revoke same_hash at_ten (codes "t") users.rows sessions later_ops later_ops-apart refl

abbrev post : Request
post = record {
  method = codes "POST";
  authorization = [];
  upgrade = [];
  query_token = [];
  auth_cookie = some (codes "t");
  csrf_cookie = some (codes "c");
  csrf_header = codes "c";
}

abbrev store : Text → Result Error (Option Principal)
store token = (validate same_hash at_ten token users.rows sessions).0

auth_passes : session_auth store none post ≡ ok alice_principal
unfolding session_auth extract_token has_prefix validate find_session text_eq
    ubuntu_auto_update.Accounts.Users.user_by_id
auth_passes = refl

role_gate-session_auth_example :
    ((session_auth store none post ≡ ok alice_principal)
      × (role_gate (codes "viewer") (some alice_principal) ≡ passed))
    ↔ (IsKnown store none post alice_principal × (covers operator viewer ≡ true))
role_gate-session_auth_example =
    role_gate-session_auth store none post alice_principal operator viewer refl
