-- ===== src/Accounts/Entry.antt =====
-- How a session begins and ends: handleLogin, handleEnroll and handleLogout of
-- backend/cmd/api/main.go where the database is wired. The in-memory store of the tests, the
-- cookies and the audit log are left out.
use ubuntu_auto_update.Base.{
  ℕ, Bool, true, false, not, List, [], ◌∷◌, ◌++◌, Option, none, some, Text, codes, text_eq,
  is_empty, has_prefix, drop_prefix, trim_space, if◌then◌else◌, Result, ok, err, Error,
}
use ubuntu_auto_update.Base.Int.{ℤ, pos}
use ubuntu_auto_update.Limits.Defs.{Bucket, allow}
use ubuntu_auto_update.Accounts.Users.{Users, UserError, LoginWorld, Login, authenticate}
use ubuntu_auto_update.Accounts.Roles.{Principal}
use ubuntu_auto_update.Accounts.Sessions.{SessionWorld, Sessions, create_session, revoke}
use ubuntu_auto_update.Accounts.Gates.{Request, bearer}

-- The state that the three handlers share.
pub record Entrance : Type 0 where
  pub buckets : List Bucket
  pub users : Users
  pub sessions : Sessions

pub record LoginRequest : Type 0 where
  pub username : Text
  pub password : Text

-- Who asks: the client's address, its User-Agent, and the limiter's clock.
pub record Caller : Type 0 where
  pub ip : Text
  pub user_agent : Text
  pub tick : ℕ

pub data EntryReply : Type 0 where
  -- the token, with the role after a login
  logged_in : Text → Text → EntryReply
  enrolled : Text → EntryReply
  turned_away : ℕ → Text → EntryReply

-- Seconds: 24 hours, and 90 days.
abbrev pub login_lifetime : ℤ
login_lifetime = pos 86400

abbrev pub agent_lifetime : ℤ
agent_lifetime = pos 7776000

abbrev pub login_principal : Login → Principal
login_principal u = record {
  user_id = u.id;
  username = u.username;
  role = u.role;
  session_id = 0;
  agent_label = [];
}

abbrev pub agent_principal : Text → Principal
agent_principal hostname = record {
  user_id = 0;
  username = codes "agent:" ++ hostname;
  role = codes "agent";
  session_id = 0;
  agent_label = hostname;
}

abbrev pub session_made : Entrance → Login → Result Error Text × Sessions → EntryReply × Entrance
session_made s u (err e, t) =
    (turned_away 500 (codes "Failed to create session"), record s { sessions = t })
session_made s u (ok token, t) = (logged_in token u.role, record s { sessions = t })

-- `hash` is the hash of a token.
abbrev pub authenticated :
    (Text → Text)
    → SessionWorld
    → Caller
    → Entrance
    → Result UserError Login × Users
    → EntryReply × Entrance
authenticated hash w c s (err e, us) =
    (turned_away 401 (codes "Invalid credentials"), record s { users = us })
authenticated hash w c s (ok u, us) =
    session_made (record s { users = us }) u
      (create_session hash w (login_principal u) login_lifetime c.ip c.user_agent s.sessions)

abbrev pub login_decoded :
    (Text → Text → Bool)
    → (Text → Text)
    → LoginWorld
    → SessionWorld
    → Caller
    → Option LoginRequest
    → Entrance
    → EntryReply × Entrance
login_decoded matches hash l w c none s = (turned_away 400 (codes "Invalid request body"), s)
login_decoded matches hash l w c (some r) s =
    authenticated hash w c s (authenticate matches l r.username r.password s.users)

abbrev pub limited :
    (Text → Text → Bool)
    → (Text → Text)
    → LoginWorld
    → SessionWorld
    → Caller
    → Option LoginRequest
    → Entrance
    → Bool × List Bucket
    → EntryReply × Entrance
limited matches hash l w c body s (false, bs) = (
  turned_away 429 (codes "Too many login attempts; try again shortly"),
  record s { buckets = bs },
)
limited matches hash l w c body s (true, bs) =
    login_decoded matches hash l w c body (record s { buckets = bs })

unfoldable pub handle_login :
    (Text → Text → Bool)
    → (Text → Text)
    → LoginWorld
    → SessionWorld
    → Caller
    → Option LoginRequest
    → Entrance
    → EntryReply × Entrance
handle_login matches hash l w c body s =
    limited matches hash l w c body s (allow c.tick c.ip s.buckets)

pub record EnrollRequest : Type 0 where
  pub enrollment_token : Text
  pub hostname : Text

abbrev pub agent_made : Result Error Text × Sessions → EntryReply × Sessions
agent_made (err e, t) = (turned_away 500 (codes "Failed to generate token"), t)
agent_made (ok token, t) = (enrolled token, t)

-- `configured` is the environment's ENROLLMENT_TOKEN. The limiter stands before this handler, by
-- `rate_limited`.
unfoldable pub handle_enroll :
    (Text → Text)
    → SessionWorld
    → Text
    → Caller
    → Option EnrollRequest
    → Sessions
    → EntryReply × Sessions
handle_enroll hash w configured c none t = (turned_away 400 (codes "Invalid request body"), t)
handle_enroll hash w configured c (some r) t =
    let hostname = trim_space r.hostname in
    let made =
      agent_made
        (create_session hash w (agent_principal hostname) agent_lifetime c.ip c.user_agent t) in
    if is_empty hostname
    then (turned_away 400 (codes "Hostname cannot be empty"), t)
    else if is_empty configured
    then (turned_away 500 (codes "Enrollment not configured"), t)
    else if not (text_eq r.enrollment_token configured)
    then (turned_away 401 (codes "Invalid enrollment token"), t)
    else made

-- RateLimitHandler in front of a handler: whether `next` runs, and the buckets.
unfoldable pub rate_limited :
    {A : Type 0} → Caller → EntryReply × A → A → List Bucket → (EntryReply × A) × List Bucket
rate_limited c next a bs =
    let (admits, after) = allow c.tick c.ip bs in
    (
      if admits then next else (turned_away 429 (codes "Too many requests; try again shortly"), a),
      after,
    )

-- The cookie before the header.
unfoldable pub logout_token : Request → Text
logout_token r = elim r.auth_cookie [
  | some (c ∷ v) ↦ c ∷ v
  | _ ↦ if has_prefix r.authorization bearer then drop_prefix r.authorization bearer else []
]

-- The error of Revoke is ignored.
unfoldable pub handle_logout : (Text → Text) → Option Error → Request → Sessions → Sessions
handle_logout hash fault r t =
    let revoked = (revoke hash fault (logout_token r) t).1 in
    if is_empty (logout_token r) then t else revoked
