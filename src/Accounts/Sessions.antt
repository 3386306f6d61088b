-- ===== src/Accounts/Sessions.antt =====
-- The session store of the database. `hash` is the hex SHA-256 of a token.
use ubuntu_auto_update.Base.{
  ℕ, zero, suc, ◌+◌, Bool, true, false, ◌||◌, List, [], ◌∷◌, ◌++◌, Option, none, some, Text, codes,
  text_eq, ltb, ◌==◌, if◌then◌else◌, Result, ok, err, Error, message, wrapped,
}
use ubuntu_auto_update.Base.Int.{ℤ, to_ℕ, is_nonpos}
use ubuntu_auto_update.Accounts.Users.{User, user_by_id}
use ubuntu_auto_update.Accounts.Roles.{Principal}

pub record Session : Type 0 where
  pub id : ℕ
  pub token_hash : Text
  pub user_id : Option ℕ
  pub agent_label : Option Text
  pub expires_at : ℕ
  pub ip : Option Text
  pub user_agent : Option Text

pub record Sessions : Type 0 where
  pub rows : List Session
  pub next_id : ℕ

abbrev pub id_or_null : ℕ → Option ℕ
id_or_null zero = none
id_or_null (suc n) = some (suc n)

abbrev pub text_or_null : Text → Option Text
text_or_null [] = none
text_or_null (c ∷ s) = some (c ∷ s)

-- GenerateToken, the fault of the insert, and the clock.
pub record SessionWorld : Type 0 where
  pub token : Result Error Text
  pub insert_fault : Option Error
  pub now : ℕ

abbrev pub session_row : (Text → Text) → ℕ → ℕ → Principal → Text → Text → Text → Session
session_row hash i expires_at p token ip user_agent = record {
  id = i;
  token_hash = hash token;
  user_id = id_or_null p.user_id;
  agent_label = text_or_null p.agent_label;
  expires_at = expires_at;
  ip = text_or_null ip;
  user_agent = text_or_null user_agent;
}

abbrev pub inserted :
    (Text → Text)
    → SessionWorld
    → Option Error
    → Principal
    → ℕ
    → Text
    → Text
    → Text
    → Sessions
    → Result Error Text × Sessions
inserted hash w (some e) p expiry ip user_agent token t =
    (err (wrapped (codes "insert session: ") e), t)
inserted hash w none p expiry ip user_agent token t = (
  ok token,
  record {
    rows = t.rows ++ session_row hash t.next_id (w.now + expiry) p token ip user_agent ∷ [];
    next_id = suc t.next_id;
  },
)

abbrev pub with_token :
    (Text → Text)
    → SessionWorld
    → Result Error Text
    → Principal
    → ℕ
    → Text
    → Text
    → Sessions
    → Result Error Text × Sessions
with_token hash w (err e) p expiry ip user_agent t = (err e, t)
with_token hash w (ok token) p expiry ip user_agent t =
    inserted hash w w.insert_fault p expiry ip user_agent token t

unfoldable pub create_session :
    (Text → Text)
    → SessionWorld
    → Principal
    → ℤ
    → Text
    → Text
    → Sessions
    → Result Error Text × Sessions
create_session hash w p expiry ip user_agent t =
    let made = with_token hash w w.token p (to_ℕ expiry) ip user_agent t in
    if is_nonpos expiry then (err (message (codes "expiry must be positive")), t) else made

unfoldable pub find_session : Text → List Session → Option Session
find_session h [] = none
find_session h (s ∷ ss) =
    let rest = find_session h ss in if text_eq s.token_hash h then some s else rest

unfoldable pub drop_id : ℕ → List Session → List Session
drop_id i [] = []
drop_id i (s ∷ ss) = let rest = drop_id i ss in if s.id == i then rest else s ∷ rest

unfoldable pub drop_hash : Text → List Session → List Session
drop_hash h [] = []
drop_hash h (s ∷ ss) =
    let rest = drop_hash h ss in if text_eq s.token_hash h then rest else s ∷ rest

-- The faults of the lookup and of the delete, and the clock.
pub record ValidateWorld : Type 0 where
  pub lookup_fault : Option Error
  pub delete_fault : Option Error
  pub now : ℕ

abbrev pub user_principal : Session → ℕ → Option User → Principal
user_principal s i none = record {
  user_id = i;
  username = [];
  role = [];
  session_id = s.id;
  agent_label = [];
}
user_principal s i (some u) = record {
  user_id = i;
  username = u.username;
  role = u.role;
  session_id = s.id;
  agent_label = [];
}

abbrev pub no_user_principal : Session → Option Text → Principal
no_user_principal s none = record {
  user_id = 0;
  username = [];
  role = [];
  session_id = s.id;
  agent_label = [];
}
no_user_principal s (some label) = record {
  user_id = 0;
  username = codes "agent:" ++ label;
  role = codes "agent";
  session_id = s.id;
  agent_label = label;
}

abbrev pub principal_of : Session → Option Text → Option ℕ → Option User → Principal
principal_of s (some label) i u = no_user_principal s (some label)
principal_of s none none u = no_user_principal s none
principal_of s none (some i) u = user_principal s i u

-- The LEFT JOIN on users.
abbrev pub joined_user : Option ℕ → List User → Option User
joined_user none us = none
joined_user (some i) us = user_by_id i us

abbrev pub is_disabled : Option User → Bool
is_disabled none = false
is_disabled (some u) = elim u.disabled_at [ none ↦ false | some since ↦ true ]

abbrev pub delete_session : Option Error → ℕ → Sessions → Sessions
delete_session (some e) i t = t
delete_session none i t = record t { rows = drop_id i t.rows }

abbrev pub unless_over :
    ValidateWorld
    → Session
    → Option User
    → Bool
    → Sessions
    → Result Error (Option Principal) × Sessions
unless_over w s u true t = (ok none, delete_session w.delete_fault s.id t)
unless_over w s u false t = (ok (some (principal_of s s.agent_label s.user_id u)), t)

abbrev pub found_session :
    ValidateWorld
    → Option Session
    → List User
    → Sessions
    → Result Error (Option Principal) × Sessions
found_session w none us t = (ok none, t)
found_session w (some s) us t =
    let u = joined_user s.user_id us in
    unless_over w s u (ltb s.expires_at w.now || is_disabled u) t

abbrev pub looked_up :
    ValidateWorld
    → Option Error
    → Text
    → List User
    → Sessions
    → Result Error (Option Principal) × Sessions
looked_up w (some e) h us t = (err (wrapped (codes "lookup session: ") e), t)
looked_up w none h us t = found_session w (find_session h t.rows) us t

-- `none` is the answer false. The bump of last_seen_at, which nothing reads here, is left out.
unfoldable pub validate :
    (Text → Text)
    → ValidateWorld
    → Text
    → List User
    → Sessions
    → Result Error (Option Principal) × Sessions
validate hash w [] us t = (ok none, t)
validate hash w (c ∷ s) us t = looked_up w w.lookup_fault (hash (c ∷ s)) us t

unfoldable pub revoke : (Text → Text) → Option Error → Text → Sessions → Option Error × Sessions
revoke hash fault [] t = (none, t)
revoke hash (some e) (c ∷ s) t = (some e, t)
revoke hash none (c ∷ s) t = (none, record t { rows = drop_hash (hash (c ∷ s)) t.rows })

unfoldable pub drop_expired : ℕ → List Session → List Session
drop_expired now [] = []
drop_expired now (s ∷ ss) =
    let rest = drop_expired now ss in if ltb s.expires_at now then rest else s ∷ rest

unfoldable pub clean_expired : Option Error → ℕ → Sessions → Option Error × Sessions
clean_expired (some e) now t = (some e, t)
clean_expired none now t = (none, record t { rows = drop_expired now t.rows })
