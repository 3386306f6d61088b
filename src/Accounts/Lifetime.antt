-- ===== src/Accounts/Lifetime.antt =====
-- When a token of backend/pkg/session/session.go opens the door.
use ubuntu_auto_update.Base.{
  either_false, ℕ, ◌≤◌, ◌≡◌, refl, sym, ap, ◌≢◌, Bool, true, false, List, [], ◌∷◌, Option, none,
  some, Text, arith, ltb, Result, ok, err, Error,
}
use ubuntu_auto_update.Accounts.Users.{User}
use ubuntu_auto_update.Accounts.Roles.{Principal}
use ubuntu_auto_update.Accounts.Sessions.{
  Session, Sessions, find_session, ValidateWorld, principal_of, joined_user, is_disabled,
  unless_over, found_session, looked_up, validate,
}

-- Why a token was accepted.
pub record IsGood (hash : Text → Text) (now : ℕ) (token : Text) (us : List User) (t : Sessions)
    (p : Principal) : Type 0 where
  pub session : Session
  pub stored : find_session (hash token) t.rows ≡ some session
  pub live : now ≤ session.expires_at
  pub allowed : is_disabled (joined_user session.user_id us) ≡ false
  pub principal :
      p ≡ principal_of session session.agent_label session.user_id (joined_user session.user_id us)

abbrev yes : Principal → Result Error (Option Principal)
yes p = ok (some p)

answer-inj : (q q' : Principal) → yes q ≡ yes q' → q ≡ q'
answer-inj q q' e = ap (λ r. elim r [ err x ↦ q | ok o ↦ elim o [ none ↦ q | some y ↦ y ] ]) e

accepted :
    (s : Session) (u : Option User) (w : ValidateWorld) (t : Sessions) (p : Principal) (b : Bool)
    → (unless_over w s u b t).0 ≡ ok (some p)
    → (b ≡ false) × (p ≡ principal_of s s.agent_label s.user_id u)
accepted s u w t p true h = cc
accepted s u w t p false h = (refl, sym (answer-inj _ p h))

-- Whatever the faults, a token that Validate accepts is not empty, and the session stored under its
-- hash has not expired and is not that of a disabled user; the principal is read off that session
-- and its user.
pub validate-IsGood :
    (hash : Text → Text) (w : ValidateWorld) (token : Text) (us : List User) (t : Sessions)
    (p : Principal)
    → (validate hash w token us t).0 ≡ ok (some p)
    → (token ≢ []) × IsGood hash w.now token us t p
unfolding validate
validate-IsGood hash w [] us t p h = cc
validate-IsGood hash w (c ∷ s) us t p h = ((λ e. cc), by_fault w.lookup_fault h)
  where
    by_session :
        (o : Option Session)
        → find_session (hash (c ∷ s)) t.rows ≡ o
        → (found_session w o us t).0 ≡ ok (some p)
        → IsGood hash w.now (c ∷ s) us t p
    by_session none e k = cc
    by_session (some x) e k =
        let (fine, principal) = accepted x (joined_user x.user_id us) w t p _ k in
        let (fresh, allowed) =
          either_false (ltb x.expires_at w.now) (is_disabled (joined_user x.user_id us)) fine in
        record {
          session = x;
          stored = e;
          live = ground (arith, fresh);
          allowed = allowed;
          principal = principal;
        }

    by_fault :
        (f : Option Error)
        → (looked_up w f (hash (c ∷ s)) us t).0 ≡ ok (some p)
        → IsGood hash w.now (c ∷ s) us t p
    by_fault (some e) k = cc
    by_fault none k = by_session (find_session (hash (c ∷ s)) t.rows) refl k
