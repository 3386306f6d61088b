-- ===== src/Accounts/Enrolment.antt =====
-- The token of an enrolled agent: what it is worth.
use ubuntu_auto_update.Base.{
  arith, ℕ, ◌+◌, ◌≤◌, ◌≡◌, refl, ◌⊎◌, inl, inr, Bool, true, false, not, List, [], ◌∷◌, ◌++◌, Option,
  none, some, Text, codes, text_eq, text_eq_iff, is_empty, trim_space, if◌then◌else◌, Result, ok,
  err, Error,
}
use ubuntu_auto_update.Accounts.Users.{User}
use ubuntu_auto_update.Accounts.Roles.{Principal, has_role}
use ubuntu_auto_update.Accounts.Sessions.{
  Sessions, SessionWorld, session_row, inserted, with_token, create_session, find_session,
  ValidateWorld, validate,
}
use ubuntu_auto_update.Accounts.Admission.{validate-new}
use ubuntu_auto_update.Accounts.Entry.{
  Caller, EntryReply, enrolled, turned_away, agent_principal, agent_made, EnrollRequest,
  handle_enroll,
}

-- The principal of an agent's session.
abbrev pub agent_session : Text → ℕ → Principal
agent_session hostname i = record {
  user_id = 0;
  username = codes "agent:" ++ hostname;
  role = codes "agent";
  session_id = i;
  agent_label = hostname;
}

agent_has_no_role :
    (hostname : Text) (i : ℕ)
    → (has_role (agent_session hostname i) (codes "viewer") ≡ false)
      × (has_role (agent_session hostname i) (codes "operator") ≡ false)
      × (has_role (agent_session hostname i) (codes "admin") ≡ false)
unfolding has_role text_eq
agent_has_no_role hostname i = (refl, refl, refl)

-- Enrolment turns a request away and makes no session, or it gives out a token: then the
-- enrolment token sent is the one configured, which is not empty, and for 90 days Validate, where
-- it meets no fault, takes the token for the agent of the hostname, a principal with none of the
-- roles viewer, operator and admin. A new token is not empty and its hash is not stored yet.
pub handle_enroll-Agent :
    (hash : Text → Text) (w : SessionWorld) (v : ValidateWorld) (configured : Text) (c : Caller)
    (r : EnrollRequest) (us : List User) (t : Sessions)
    → v.lookup_fault ≡ none
    → v.now ≤ w.now + 7776000
    → ((token : Text)
        → w.token ≡ ok token
        → (is_empty token ≡ false) × (find_session (hash token) t.rows ≡ none))
    → ((status : ℕ) × (text : Text) × ((handle_enroll hash w configured c (some r) t).0
          ≡ turned_away status text)
        × ((handle_enroll hash w configured c (some r) t).1 ≡ t))
      ⊎ ((token : Text) × (p : Principal) × ((handle_enroll hash w configured c (some r) t).0
            ≡ enrolled token)
          × (is_empty configured ≡ false)
          × (r.enrollment_token ≡ configured)
          × ((validate hash v token us (handle_enroll hash w configured c (some r) t).1).0
              ≡ ok (some p))
          × (p.agent_label ≡ trim_space r.hostname)
          × (has_role p (codes "viewer") ≡ false)
          × (has_role p (codes "operator") ≡ false)
          × (has_role p (codes "admin") ≡ false))
unfolding handle_enroll create_session
handle_enroll-Agent hash w v configured c r us t reaches alive fresh =
    by_guards (is_empty (trim_space r.hostname)) (is_empty configured)
      (text_eq r.enrollment_token configured) refl refl refl
  where
    Good : Text → EntryReply × Sessions → Type 0
    Good hostname o =
        ((status : ℕ) × (text : Text) × (o.0 ≡ turned_away status text) × (o.1 ≡ t))
        ⊎ ((token : Text) × (p : Principal) × (o.0 ≡ enrolled token)
            × (is_empty configured ≡ false)
            × (r.enrollment_token ≡ configured)
            × ((validate hash v token us o.1).0 ≡ ok (some p))
            × (p.agent_label ≡ hostname)
            × (has_role p (codes "viewer") ≡ false)
            × (has_role p (codes "operator") ≡ false)
            × (has_role p (codes "admin") ≡ false))

    by_insert :
        (h : ℕ) (host : Text) (x : ℕ) (rest : Text) (f : Option Error)
        → is_empty configured ≡ false
        → r.enrollment_token ≡ configured
        → w.token ≡ ok (x ∷ rest)
        → Good (h ∷ host) (
            agent_made (
              inserted hash w f
                (agent_principal (h ∷ host))
                7776000
                c.ip
                c.user_agent
                (x ∷ rest)
                t))
    by_insert h host x rest (some e) set same made = inl (_, _, refl, refl)
    by_insert h host x rest none set same made =
        let row =
          session_row hash t.next_id (w.now + 7776000) (agent_principal (h ∷ host)) (x ∷ rest) c.ip
            c.user_agent in
        let (viewer, operator, admin) = agent_has_no_role (h ∷ host) t.next_id in
        inr (
          x ∷ rest,
          agent_session (h ∷ host) t.next_id,
          refl,
          set,
          same,
          validate-new hash v x rest row us t reaches refl (fresh (x ∷ rest) made).1 alive refl _,
          refl,
          viewer,
          operator,
          admin,
        )

    by_token :
        is_empty configured ≡ false
        → r.enrollment_token ≡ configured
        → (hostname : Text) → is_empty hostname ≡ false
        → (k : Result Error Text) → w.token ≡ k
        → Good hostname (
            agent_made (with_token hash w k (agent_principal hostname) 7776000 c.ip c.user_agent t))
    by_token set same [] named k made = absurd (ground (arith, named))
    by_token set same (h ∷ host) named (err e) made = inl (_, _, refl, refl)
    by_token set same (h ∷ host) named (ok []) made = absurd (ground (arith, (fresh [] made).0))
    by_token set same (h ∷ host) named (ok (x ∷ rest)) made =
        by_insert h host x rest w.insert_fault set same made

    by_guards :
        (a b same : Bool)
        → is_empty (trim_space r.hostname) ≡ a
        → is_empty configured ≡ b
        → text_eq r.enrollment_token configured ≡ same
        → Good (trim_space r.hostname) (
            if a
            then (turned_away 400 (codes "Hostname cannot be empty"), t)
            else if b
            then (turned_away 500 (codes "Enrollment not configured"), t)
            else if not same
            then (turned_away 401 (codes "Invalid enrollment token"), t)
            else agent_made (
                with_token hash w w.token
                  (agent_principal (trim_space r.hostname))
                  7776000
                  c.ip
                  c.user_agent
                  t))
    by_guards true b same named set e = inl (_, _, refl, refl)
    by_guards false true same named set e = inl (_, _, refl, refl)
    by_guards false false false named set e = inl (_, _, refl, refl)
    by_guards false false true named set e =
        by_token set ((text_eq_iff r.enrollment_token configured).0 e) (trim_space r.hostname) named
          w.token refl
