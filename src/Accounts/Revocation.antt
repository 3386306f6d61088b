-- ===== src/Accounts/Revocation.antt =====
-- What becomes of a revoked token in the session store of backend/pkg/session/session.go.
use ubuntu_auto_update.Base.{
  ℕ, ◌≡◌, refl, sym, ◌∙◌, ◌++◌, All, not, codes, message, ◌==◌, if◌then◌else◌, inl, inr, Bool, true,
  false, List, [], ◌∷◌, Option, none, some, Text, text_eq, ltb, Bool-cases, Result, ok, err, Error,
}
use ubuntu_auto_update.Base.Int.{ℤ, to_ℕ, is_nonpos}
use ubuntu_auto_update.Accounts.Users.{User}
use ubuntu_auto_update.Accounts.Roles.{Principal}
use ubuntu_auto_update.Accounts.Sessions.{
  Session, Sessions, find_session, drop_hash, ValidateWorld, unless_over, found_session, looked_up,
  validate, revoke, SessionWorld, create_session, clean_expired, inserted, with_token, drop_id,
  drop_expired, delete_session,
}

find-drop_hash : (h : Text) (ss : List Session) → find_session h (drop_hash h ss) ≡ none
unfolding find_session drop_hash
find-drop_hash h [] = refl
find-drop_hash h (s ∷ ss) = elim (Bool-cases (text_eq s.token_hash h)) [
  | inl e ↦ rw e (find-drop_hash h ss)
  | inr e ↦ rw (e, e) (find-drop_hash h ss)
]

-- What may happen to the sessions between two requests: each of the store's operations, with its
-- world.
pub data SessionOp : Type 0 where
  opened : SessionWorld → Principal → ℤ → Text → Text → SessionOp
  asked : ValidateWorld → Text → List User → SessionOp
  closed : Option Error → Text → SessionOp
  swept : Option Error → ℕ → SessionOp

abbrev pub session_op : (Text → Text) → SessionOp → Sessions → Sessions
session_op hash (opened w p expiry ip user_agent) t =
    (create_session hash w p expiry ip user_agent t).1
session_op hash (asked w token us) t = (validate hash w token us t).1
session_op hash (closed fault token) t = (revoke hash fault token t).1
session_op hash (swept fault now) t = (clean_expired fault now t).1

abbrev pub session_ops : (Text → Text) → List SessionOp → Sessions → Sessions
session_ops hash [] t = t
session_ops hash (o ∷ ops) t = session_ops hash ops (session_op hash o t)

-- Whether the operation opens no session whose token has the hash `h`.
abbrev pub is_apart : (Text → Text) → Text → SessionOp → Bool
is_apart hash h (opened w p expiry ip user_agent) = elim w.token [
  | err e ↦ true
  | ok token ↦ not (text_eq (hash token) h)
]
is_apart hash h (asked w token us) = true
is_apart hash h (closed fault token) = true
is_apart hash h (swept fault now) = true

-- No session is stored under `h`.
abbrev IsGone : Text → Sessions → Type 0
IsGone h t = find_session h t.rows ≡ none

-- The rest of a list without a session under `h` has none either.
tail-none :
    (h : Text) (s : Session) (ss : List Session)
    → find_session h (s ∷ ss) ≡ none
    → (text_eq s.token_hash h ≡ false) × (find_session h ss ≡ none)
unfolding find_session
tail-none h s ss e = elim (Bool-cases (text_eq s.token_hash h)) [
  | inl b ↦ let bad : some s ≡ none = sym (rw b refl) ∙ e in cc
  | inr b ↦ (b, sym (rw b refl) ∙ e)
]

module _ (h : Text) where
  find-keep :
      (b : Bool) (s : Session) (rest : List Session)
      → text_eq s.token_hash h ≡ false
      → find_session h rest ≡ none
      → find_session h (if b then rest else s ∷ rest) ≡ none
  unfolding find_session
  find-keep true s rest apart e = e
  find-keep false s rest apart e = rw apart e

  find-drop_id-none :
      (i : ℕ) (ss : List Session) → find_session h ss ≡ none → find_session h (drop_id i ss) ≡ none
  unfolding drop_id
  find-drop_id-none i [] e = e
  find-drop_id-none i (s ∷ ss) e =
      let (apart, rest) = tail-none h s ss e in
      find-keep (s.id == i) s (drop_id i ss) apart (find-drop_id-none i ss rest)

  find-drop_hash-none :
      (g : Text) (ss : List Session)
      → find_session h ss ≡ none
      → find_session h (drop_hash g ss) ≡ none
  unfolding drop_hash
  find-drop_hash-none g [] e = e
  find-drop_hash-none g (s ∷ ss) e =
      let (apart, rest) = tail-none h s ss e in
      find-keep (text_eq s.token_hash g) s (drop_hash g ss) apart (find-drop_hash-none g ss rest)

  find-drop_expired-none :
      (now : ℕ) (ss : List Session)
      → find_session h ss ≡ none
      → find_session h (drop_expired now ss) ≡ none
  unfolding drop_expired
  find-drop_expired-none now [] e = e
  find-drop_expired-none now (s ∷ ss) e =
      let (apart, rest) = tail-none h s ss e in
      find-keep (ltb s.expires_at now) s (drop_expired now ss) apart
        (find-drop_expired-none now ss rest)

  find-append-none :
      (x : Session) (ss : List Session)
      → text_eq x.token_hash h ≡ false
      → find_session h ss ≡ none
      → find_session h (ss ++ x ∷ []) ≡ none
  unfolding find_session
  find-append-none x [] apart e = rw apart refl
  find-append-none x (s ∷ ss) apart e =
      let (other_hash, rest) = tail-none h s ss e in
      rw other_hash (find-append-none x ss apart rest)

  create_session-IsGone :
      (hash : Text → Text) (w : SessionWorld) (p : Principal) (expiry : ℤ) (ip user_agent : Text)
      (t : Sessions)
      → is_apart hash h (opened w p expiry ip user_agent) ≡ true
      → IsGone h t
      → IsGone h (create_session hash w p expiry ip user_agent t).1
  unfolding create_session
  create_session-IsGone hash w p expiry ip user_agent t apart gone = by_sign (is_nonpos expiry)
    where
      other_hash : (b : Bool) → not b ≡ true → b ≡ false
      other_hash true k = cc
      other_hash false k = refl

      by_fault :
          (token : Text)
          → text_eq (hash token) h ≡ false
          → (f : Option Error)
          → IsGone h (inserted hash w f p (to_ℕ expiry) ip user_agent token t).1
      by_fault token fresh (some e) = gone
      by_fault token fresh none = find-append-none _ t.rows fresh gone

      by_token :
          (r : Result Error Text)
          → elim r [ err e ↦ true | ok token ↦ not (text_eq (hash token) h) ] ≡ true
          → IsGone h (with_token hash w r p (to_ℕ expiry) ip user_agent t).1
      by_token (err e) k = gone
      by_token (ok token) k = by_fault token (other_hash _ k) w.insert_fault

      by_sign :
          (b : Bool)
          → IsGone h
              (if b
                then (err (message (codes "expiry must be positive")), t)
                else with_token hash w w.token p (to_ℕ expiry) ip user_agent t).1
      by_sign true = gone
      by_sign false = by_token w.token apart

  validate-IsGone :
      (hash : Text → Text) (w : ValidateWorld) (token : Text) (us : List User) (t : Sessions)
      → IsGone h t
      → IsGone h (validate hash w token us t).1
  unfolding validate
  validate-IsGone hash w [] us t gone = gone
  validate-IsGone hash w (c ∷ s) us t gone = by_fault w.lookup_fault
    where
      by_delete : (i : ℕ) (f : Option Error) → IsGone h (delete_session f i t)
      by_delete i (some e) = gone
      by_delete i none = find-drop_id-none i t.rows gone

      by_end : (x : Session) (u : Option User) (b : Bool) → IsGone h (unless_over w x u b t).1
      by_end x u true = by_delete x.id w.delete_fault
      by_end x u false = gone

      by_session : (o : Option Session) → IsGone h (found_session w o us t).1
      by_session none = gone
      by_session (some x) = by_end x _ _

      by_fault : (f : Option Error) → IsGone h (looked_up w f (hash (c ∷ s)) us t).1
      by_fault (some e) = gone
      by_fault none = by_session (find_session (hash (c ∷ s)) t.rows)

  revoke-IsGone :
      (hash : Text → Text) (fault : Option Error) (token : Text) (t : Sessions)
      → IsGone h t
      → IsGone h (revoke hash fault token t).1
  unfolding revoke
  revoke-IsGone hash fault [] t gone = gone
  revoke-IsGone hash (some e) (c ∷ s) t gone = gone
  revoke-IsGone hash none (c ∷ s) t gone = find-drop_hash-none (hash (c ∷ s)) t.rows gone

  clean_expired-IsGone :
      (fault : Option Error) (now : ℕ) (t : Sessions)
      → IsGone h t
      → IsGone h (clean_expired fault now t).1
  unfolding clean_expired
  clean_expired-IsGone (some e) now t gone = gone
  clean_expired-IsGone none now t gone = find-drop_expired-none now t.rows gone

  session_ops-IsGone :
      (hash : Text → Text) (ops : List SessionOp) (t : Sessions)
      → All (λ o. is_apart hash h o ≡ true) ops
      → IsGone h t
      → IsGone h (session_ops hash ops t)
  session_ops-IsGone hash [] t apart gone = gone
  session_ops-IsGone hash (opened w p expiry ip agent_name ∷ ops) t (apart, more) gone =
      session_ops-IsGone hash ops _ more
        (create_session-IsGone hash w p expiry ip agent_name t apart gone)
  session_ops-IsGone hash (asked w token us ∷ ops) t (apart, more) gone =
      session_ops-IsGone hash ops _ more (validate-IsGone hash w token us t gone)
  session_ops-IsGone hash (closed fault token ∷ ops) t (apart, more) gone =
      session_ops-IsGone hash ops _ more (revoke-IsGone hash fault token t gone)
  session_ops-IsGone hash (swept fault now ∷ ops) t (apart, more) gone =
      session_ops-IsGone hash ops _ more (clean_expired-IsGone fault now t gone)

-- After Revoke has reached the table its token is refused by every lookup without a fault, after any
-- further sequence of sign-ins, lookups, revocations and sweeps, faults included, that opens no
-- session under the same hash; the time and the users are arbitrary.
pub validate-revoke :
    (hash : Text → Text) (w : ValidateWorld) (token : Text) (us : List User) (t : Sessions)
    (ops : List SessionOp)
    → All (λ o. is_apart hash (hash token) o ≡ true) ops
    → w.lookup_fault ≡ none
    → (validate hash w token us (session_ops hash ops (revoke hash none token t).1)).0 ≡ ok none
unfolding validate revoke
validate-revoke hash w [] us t ops apart reaches = refl
validate-revoke hash w (c ∷ s) us t ops apart reaches =
    let gone =
      session_ops-IsGone (hash (c ∷ s)) hash ops (revoke hash none (c ∷ s) t).1 apart
        (find-drop_hash (hash (c ∷ s)) t.rows) in
    rw (reaches, gone) refl
