-- ===== src/Accounts/Tests/Entry.antt =====
-- A login and an enrolment, and what Validate says of their tokens.
use ubuntu_auto_update.Limits.Defs.{find_bucket, refill, allow}
use ubuntu_auto_update.Base.{
  arith, ℕ, ◌<◌, ◌≡◌, refl, subst, ◌⊎◌, false, [], ◌∷◌, none, some, Text, codes, text_eq, is_empty,
  trim_space, ok, some_inj,
}
use ubuntu_auto_update.Accounts.Users.{
  User, LoginWorld, find_user, user_by_id, new_user, authenticate,
}
use ubuntu_auto_update.Accounts.Roles.{Principal, has_role}
use ubuntu_auto_update.Accounts.Sessions.{
  SessionWorld, ValidateWorld, find_session, validate, create_session,
}
use ubuntu_auto_update.Accounts.Entry.{
  Entrance, LoginRequest, Caller, logged_in, enrolled, turned_away, EnrollRequest, handle_login,
  handle_enroll,
}
use ubuntu_auto_update.Accounts.Acceptance.{Accepts}
use ubuntu_auto_update.Accounts.Admission.{user_session, handle_login-Opens}
use ubuntu_auto_update.Accounts.Enrolment.{handle_enroll-Agent}

abbrev ann : User
ann = new_user 1 50 (codes "ann") (codes "secret") (codes "operator")

abbrev entrance : Entrance
entrance = record {
  buckets = [];
  users = record { rows = ann ∷ []; next_id = 2 };
  sessions = record { rows = []; next_id = 1 };
}

abbrev clock : LoginWorld
clock = record { select_fault = none; bump_fault = none; now = 1000 }

abbrev minted : SessionWorld
minted = record { token = ok (codes "t1"); insert_fault = none; now = 1000 }

abbrev later : ValidateWorld
later = record { lookup_fault = none; delete_fault = none; now = 87400 }

abbrev caller : Caller
caller = record { ip = codes "10.0.0.7"; user_agent = codes "curl"; tick = 5 }

abbrev credentials : LoginRequest
credentials = record { username = codes "ann"; password = codes "secret" }

-- A token's hash, for the tests.
abbrev marked : Text → Text
marked s = 1 ∷ s

logged_in_test :
    (handle_login text_eq marked clock minted caller (some credentials) entrance).0
    ≡ logged_in (codes "t1") (codes "operator")
unfolding handle_login allow refill find_bucket authenticate find_user text_eq create_session
logged_in_test = refl

ann_alone :
    (u : User)
    → find_user (codes "ann") entrance.users.rows ≡ some u
    → (0 < u.id) × (user_by_id u.id entrance.users.rows ≡ some u)
unfolding find_user text_eq user_by_id
ann_alone u found =
    subst (λ x. (0 < x.id) × (user_by_id x.id entrance.users.rows ≡ some x)) (some_inj found)
      (omega arith, refl)

fresh :
    (token : Text)
    → minted.token ≡ ok token
    → (is_empty token ≡ false) × (find_session (marked token) entrance.sessions.rows ≡ none)
unfolding find_session
fresh [] made = absurd cc
fresh (c ∷ token) made = (refl, refl)

handle_login-Opens_example :
    ((status : ℕ) × (text : Text) × ((handle_login text_eq marked clock minted caller
          (some credentials)
          entrance).0
        ≡ turned_away status text)
      × ((handle_login text_eq marked clock minted caller (some credentials) entrance).1.sessions
          ≡ entrance.sessions))
    ⊎ ((u : User) × (token : Text) × ((handle_login text_eq marked clock minted caller
            (some credentials)
            entrance).0
          ≡ logged_in token u.role)
        × Accepts text_eq clock (codes "ann") (codes "secret") entrance.users.rows u
        × ((validate marked later token
              (handle_login text_eq marked clock minted caller
                (some credentials)
                entrance).1.users.rows
              (handle_login text_eq marked clock minted caller
                (some credentials)
                entrance).1.sessions).0
            ≡ ok (some (user_session u 1))))
handle_login-Opens_example =
    handle_login-Opens text_eq marked clock minted later caller credentials entrance refl
      (omega arith) ann_alone fresh

abbrev enrolment : EnrollRequest
enrolment = record { enrollment_token = codes "join"; hostname = codes " web " }

handle_enroll-Agent_example :
    ((status : ℕ) × (text : Text) × ((handle_enroll marked minted
          (codes "join")
          caller
          (some enrolment)
          entrance.sessions).0
        ≡ turned_away status text)
      × ((handle_enroll marked minted (codes "join") caller (some enrolment) entrance.sessions).1
          ≡ entrance.sessions))
    ⊎ ((token : Text) × (p : Principal) × ((handle_enroll marked minted
            (codes "join")
            caller
            (some enrolment)
            entrance.sessions).0
          ≡ enrolled token)
        × (is_empty (codes "join") ≡ false)
        × (codes "join" ≡ codes "join")
        × ((validate marked later token []
              (handle_enroll marked minted
                (codes "join")
                caller
                (some enrolment)
                entrance.sessions).1).0
            ≡ ok (some p))
        × (p.agent_label ≡ trim_space (codes " web "))
        × (has_role p (codes "viewer") ≡ false)
        × (has_role p (codes "operator") ≡ false)
        × (has_role p (codes "admin") ≡ false))
handle_enroll-Agent_example =
    handle_enroll-Agent marked minted later (codes "join") caller enrolment [] entrance.sessions
      refl (omega arith) fresh
