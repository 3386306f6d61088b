-- ===== src/Accounts/Admission.antt =====
-- A token that a login or an enrolment hands out, seen by Validate afterwards.
use ubuntu_auto_update.Base.{
  arith, ℕ, zero, suc, ◌+◌, ◌≤◌, ◌<◌, ◌≡◌, refl, sym, ap, subst, ◌∙◌, ◌⊎◌, inl, inr, Bool, true,
  false, ◌||◌, List, [], ◌∷◌, ◌++◌, Option, none, some, Text, text_eq, text_eq_self, is_empty, ltb,
  Bool-cases, Result, ok, err, Error,
}
use ubuntu_auto_update.Limits.Defs.{Bucket, allow}
use ubuntu_auto_update.Accounts.Users.{
  User, LoginWorld, find_user, user_by_id, login_row, bump, authenticate,
}
use ubuntu_auto_update.Accounts.Acceptance.{Accepts, login_of, authenticate-cases, bump-row}
use ubuntu_auto_update.Accounts.Roles.{Principal}
use ubuntu_auto_update.Accounts.Sessions.{
  Session, Sessions, SessionWorld, session_row, id_or_null, inserted, with_token, create_session,
  find_session, ValidateWorld, user_principal, principal_of, joined_user, is_disabled, unless_over,
  found_session, looked_up, validate,
}
use ubuntu_auto_update.Accounts.Entry.{
  Entrance, LoginRequest, Caller, EntryReply, logged_in, turned_away, login_principal, session_made,
  authenticated, limited, handle_login,
}

find_session-new :
    (s : Session) (ss : List Session)
    → find_session s.token_hash ss ≡ none
    → find_session s.token_hash (ss ++ s ∷ []) ≡ some s
unfolding find_session
find_session-new s [] absent = rw (text_eq_self s.token_hash) refl
find_session-new s (r ∷ ss) absent = elim (Bool-cases (text_eq r.token_hash s.token_hash)) [
  | inl e ↦ absurd (ground (arith, e))
  | inr e ↦ rw e (find_session-new s ss (sym (rw e refl) ∙ absent))
]

-- A new session is valid until it expires.
pub validate-new :
    (hash : Text → Text) (v : ValidateWorld) (c : ℕ) (rest : Text) (s : Session) (us : List User)
    (t : Sessions)
    → v.lookup_fault ≡ none
    → s.token_hash ≡ hash (c ∷ rest)
    → find_session (hash (c ∷ rest)) t.rows ≡ none
    → v.now ≤ s.expires_at
    → is_disabled (joined_user s.user_id us) ≡ false
    → (n : ℕ)
    → (validate hash v (c ∷ rest) us (record { rows = t.rows ++ s ∷ []; next_id = n })).0
      ≡ ok (some (principal_of s s.agent_label s.user_id (joined_user s.user_id us)))
unfolding validate
validate-new hash v c rest s us t reaches hashed absent alive able n =
    let t' : Sessions = record { rows = t.rows ++ s ∷ []; next_id = n } in
    let found : find_session (hash (c ∷ rest)) t'.rows ≡ some s =
      subst (λ h. find_session h t.rows ≡ none → find_session h t'.rows ≡ some s) hashed
        (find_session-new s t.rows) absent in
    let live : (ltb s.expires_at v.now || is_disabled (joined_user s.user_id us)) ≡ false =
      ground (arith, alive, able) in
    ap (λ f. (looked_up v f (hash (c ∷ rest)) us t').0) reaches
    ∙ (ap (λ o. (found_session v o us t').0) found
        ∙ ap (λ b. (unless_over v s (joined_user s.user_id us) b t').0) live)

id_or_null-some : (i : ℕ) → 0 < i → id_or_null i ≡ some i
id_or_null-some zero lt = absurd (omega (arith, lt))
id_or_null-some (suc n) lt = refl

-- The principal of a user's session.
abbrev pub user_session : User → ℕ → Principal
user_session u i = record {
  user_id = u.id;
  username = u.username;
  role = u.role;
  session_id = i;
  agent_label = [];
}

abbrev some_principal : Principal → Result Error (Option Principal)
some_principal p = ok (some p)

validate-login :
    (hash : Text → Text) (v : ValidateWorld) (now c i n : ℕ) (rest ip agent : Text) (u u' : User)
    (us : List User) (t : Sessions)
    → v.lookup_fault ≡ none
    → v.now ≤ now + 86400
    → 0 < u.id
    → find_session (hash (c ∷ rest)) t.rows ≡ none
    → user_by_id u.id us ≡ some u'
    → u'.username ≡ u.username
    → u'.role ≡ u.role
    → u'.disabled_at ≡ none
    → (validate hash v (c ∷ rest) us (record {
      rows =
          t.rows
          ++ session_row hash i (now + 86400) (login_principal (login_of u)) (c ∷ rest) ip agent
            ∷ [];
      next_id = n;
    })).0
      ≡ ok (some (user_session u i))
validate-login hash v now c i n rest ip agent u u' us t reaches alive positive absent found name
      role able =
    let s = session_row hash i (now + 86400) (login_principal (login_of u)) (c ∷ rest) ip agent in
    let joined : joined_user s.user_id us ≡ some u' =
      ap (λ o. joined_user o us) (id_or_null-some u.id positive) ∙ found in
    let enabled : is_disabled (joined_user s.user_id us) ≡ false =
      ap is_disabled joined ∙ ap (λ d. elim d [ none ↦ false | some since ↦ true ]) able in
    validate-new hash v c rest s us t reaches refl absent alive enabled n
    ∙ (ap (λ o. some_principal (principal_of s none o (joined_user o us)))
          (id_or_null-some u.id positive)
        ∙ (ap (λ o. some_principal (user_principal s u.id o)) found
            ∙ (ap (λ x. some_principal (record (user_session u i) { username = x; role = u'.role }))
                  name
                ∙ ap (λ x. some_principal (record (user_session u i) { role = x })) role)))

-- What a login comes to: turned away without a session, or a token that Validate knows.
abbrev IsOpening :
    (Text → Text → Bool)
    → (Text → Text)
    → LoginWorld
    → ValidateWorld
    → LoginRequest
    → Entrance
    → EntryReply × Entrance
    → Type 0
IsOpening matches hash l v r s o =
    ((status : ℕ) × (text : Text) × (o.0 ≡ turned_away status text) × (o.1.sessions ≡ s.sessions))
    ⊎ ((u : User) × (token : Text) × (o.0 ≡ logged_in token u.role)
        × Accepts matches l r.username r.password s.users.rows u
        × ((validate hash v token o.1.users.rows o.1.sessions).0
            ≡ ok (some (user_session u s.sessions.next_id))))

module _ (matches : Text → Text → Bool) (hash : Text → Text) (l : LoginWorld) (w : SessionWorld)
    (v : ValidateWorld) (c : Caller) (r : LoginRequest) (s : Entrance)
    (reaches : v.lookup_fault ≡ none) (alive : v.now ≤ w.now + 86400)
    (ids : (u : User)
      → find_user r.username s.users.rows ≡ some u
      → (0 < u.id) × (user_by_id u.id s.users.rows ≡ some u))
    (fresh : (token : Text)
      → w.token ≡ ok token
      → (is_empty token ≡ false) × (find_session (hash token) s.sessions.rows ≡ none)) where
  abbrev opened : List Bucket → User → Entrance
  opened bs u = record {
    buckets = bs;
    users = bump l.bump_fault u.id (login_row l.now) s.users;
    sessions = s.sessions;
  }

  inserted-IsOpening :
      (bs : List Bucket) (u : User) (x : ℕ) (rest : Text) (f : Option Error)
      → Accepts matches l r.username r.password s.users.rows u
      → w.token ≡ ok (x ∷ rest)
      → IsOpening matches hash l v r s (
          session_made (opened bs u) (login_of u) (
            inserted hash w f
              (login_principal (login_of u))
              86400
              c.ip
              c.user_agent
              (x ∷ rest)
              s.sessions))
  inserted-IsOpening bs u x rest (some e) a made = inl (_, _, refl, refl)
  inserted-IsOpening bs u x rest none a made =
      let (positive, mine) = ids u a.named in
      let (u', found, name, role, able) = bump-row l.bump_fault l.now u s.users mine a.enabled in
      inr (
        u,
        x ∷ rest,
        refl,
        a,
        validate-login hash v w.now x s.sessions.next_id _ rest c.ip c.user_agent u u' _ s.sessions
            reaches alive positive (fresh (x ∷ rest) made).1 found name role able,
      )

  with_token-IsOpening :
      (bs : List Bucket) (u : User) (t : Result Error Text)
      → Accepts matches l r.username r.password s.users.rows u
      → w.token ≡ t
      → IsOpening matches hash l v r s (
          session_made
            (opened bs u)
            (login_of u)
            (with_token hash w t (login_principal (login_of u)) 86400 c.ip c.user_agent s.sessions))
  with_token-IsOpening bs u (err e) a made = inl (_, _, refl, refl)
  with_token-IsOpening bs u (ok []) a made = absurd (ground (arith, (fresh [] made).0))
  with_token-IsOpening bs u (ok (x ∷ rest)) a made =
      inserted-IsOpening bs u x rest w.insert_fault a made

  authenticated-IsOpening :
      (bs : List Bucket)
      → IsOpening matches hash l v r s (
          authenticated hash w c
            (record s { buckets = bs })
            (authenticate matches l r.username r.password s.users))
  unfolding create_session
  authenticated-IsOpening bs = elim (authenticate-cases matches l r.username r.password s.users) [
    | inl (e, us, p) ↦
        subst
          (λ a.
            IsOpening matches hash l v r s (authenticated hash w c (record s { buckets = bs }) a))
          (sym p) (inl (_, _, refl, refl))
    | inr (u, a, p) ↦
        subst
          (λ x.
            IsOpening matches hash l v r s (authenticated hash w c (record s { buckets = bs }) x))
          (sym p) (with_token-IsOpening bs u w.token a refl)
  ]

-- A login with the database wired, by a caller that the limiter may stop: either it is turned away,
-- and no session is made; or it gives out a token, and then the password matches that of an
-- enabled, unlocked user under the name given, and for 24 hours Validate, where it meets no fault,
-- takes the token for that user with the user's role. Ids of users are positive and name one row;
-- a new token is not empty and its hash is not stored yet.
pub handle_login-Opens :
    (matches : Text → Text → Bool) (hash : Text → Text) (l : LoginWorld) (w : SessionWorld)
    (v : ValidateWorld) (c : Caller) (r : LoginRequest) (s : Entrance)
    → v.lookup_fault ≡ none
    → v.now ≤ w.now + 86400
    → ((u : User)
        → find_user r.username s.users.rows ≡ some u
        → (0 < u.id) × (user_by_id u.id s.users.rows ≡ some u))
    → ((token : Text)
        → w.token ≡ ok token
        → (is_empty token ≡ false) × (find_session (hash token) s.sessions.rows ≡ none))
    → ((status : ℕ) × (text : Text) × ((handle_login matches hash l w c (some r) s).0
          ≡ turned_away status text)
        × ((handle_login matches hash l w c (some r) s).1.sessions ≡ s.sessions))
      ⊎ ((u : User) × (token : Text) × ((handle_login matches hash l w c (some r) s).0
            ≡ logged_in token u.role)
          × Accepts matches l r.username r.password s.users.rows u
          × ((validate hash v token
                (handle_login matches hash l w c (some r) s).1.users.rows
                (handle_login matches hash l w c (some r) s).1.sessions).0
              ≡ ok (some (user_session u s.sessions.next_id))))
unfolding handle_login
handle_login-Opens matches hash l w v c r s reaches alive ids fresh =
    by_limit (allow c.tick c.ip s.buckets)
  where
    by_limit :
        (b : Bool × List Bucket)
        → IsOpening matches hash l v r s (limited matches hash l w c (some r) s b)
    by_limit (false, bs) = inl (_, _, refl, refl)
    by_limit (true, bs) =
        authenticated-IsOpening matches hash l w v c r s reaches alive ids fresh bs
