-- ===== src/Accounts/Passage.antt =====
-- Which requests come through the authentication and the role gate of backend/pkg/middleware, said
-- without their order of tests.
use ubuntu_auto_update.Base.{
  ◌≡◌, ◌≢◌, refl, ap, ◌⊎◌, ◌↔◌, inl, inr, Bool, true, false, [], ◌∷◌, ◌++◌, Option, none, some,
  Text, codes, text_eq, text_eq_iff, is_empty, has_prefix, drop_prefix, Bool-cases, Result, ok, err,
  Error, if◌then◌else◌, arith, subst,
}
use ubuntu_auto_update.Accounts.Roles.{Principal, Role, role_name, covers, has_role_lem}
use ubuntu_auto_update.Accounts.Gates.{
  Request, passed, forbidden, cookie_value, bearer, extract_token, role_gate, answer, by_pat,
  session_auth,
}

-- Where the token of a request stands: after Bearer in the header; else, for a WebSocket, in the
-- query alone; else, in the cookie alone.
abbrev pub IsTokenOf : Request → Text → Type 0
IsTokenOf r token =
    (r.authorization ≡ codes "Bearer " ++ token)
    ⊎ ((has_prefix r.authorization (codes "Bearer ") ≡ false)
        × (r.upgrade ≡ codes "websocket")
        × (r.query_token ≡ token))
    ⊎ ((has_prefix r.authorization (codes "Bearer ") ≡ false)
        × (r.upgrade ≢ codes "websocket")
        × (cookie_value r.auth_cookie ≡ token))

-- A token that starts with uat_ is the API tokens' where there are any; every other one is the
-- session store's.
abbrev pub IsNamedBy :
    (Text → Result Error (Option Principal))
    → Option (Text → Result Error (Option Principal))
    → Text
    → Principal
    → Type 0
IsNamedBy store none token p = store token ≡ ok (some p)
IsNamedBy store (some pat) token p =
    ((has_prefix token (codes "uat_") ≡ true) × (pat token ≡ ok (some p)))
    ⊎ ((has_prefix token (codes "uat_") ≡ false) × (store token ≡ ok (some p)))

prefix_split : (s p : Text) → has_prefix s p ≡ true → s ≡ p ++ drop_prefix s p
unfolding has_prefix
prefix_split s [] h = refl
prefix_split [] (x ∷ p) h = cc
prefix_split (c ∷ s) (x ∷ p) h = ground (arith, prefix_split s p)

has_prefix-append : (p t : Text) → has_prefix (p ++ t) p ≡ true
unfolding has_prefix
has_prefix-append [] t = refl
has_prefix-append (x ∷ p) t = ground (arith, has_prefix-append p t)

drop_prefix-append : (p t : Text) → drop_prefix (p ++ t) p ≡ t
drop_prefix-append [] t = refl
drop_prefix-append (x ∷ p) t = drop_prefix-append p t

differ : (s t : Text) → text_eq s t ≡ false → s ≢ t
differ s t h e = let same = (text_eq_iff s t).1 e in cc

apart : (s t : Text) → s ≢ t → text_eq s t ≡ false
apart s t n = elim (Bool-cases (text_eq s t)) [
  | inl e ↦ absurd (n ((text_eq_iff s t).0 e))
  | inr e ↦ e
]

extract_token-IsTokenOf : (r : Request) → IsTokenOf r (extract_token r)
unfolding extract_token
extract_token-IsTokenOf r = elim (Bool-cases (has_prefix r.authorization bearer)) [
  | inl b ↦ rw b (inl (prefix_split r.authorization bearer b))
  | inr b ↦ elim (Bool-cases (text_eq r.upgrade (codes "websocket"))) [
    | inl u ↦ rw (b, u) (inr (inl (refl, (text_eq_iff r.upgrade _).0 u, refl)))
    | inr u ↦ rw (b, u) (inr (inr (refl, differ r.upgrade _ u, refl)))
  ]
]

IsTokenOf-extract_token : (r : Request) (token : Text) → IsTokenOf r token → extract_token r ≡ token
unfolding extract_token
IsTokenOf-extract_token r token (inl e) =
    rw (e, has_prefix-append bearer token) (drop_prefix-append bearer token)
IsTokenOf-extract_token r token (inr (inl (b, u, e))) =
    rw (b, (text_eq_iff r.upgrade (codes "websocket")).1 u) e
IsTokenOf-extract_token r token (inr (inr (b, u, e))) =
    rw (b, apart r.upgrade (codes "websocket") u) e

answer-ok :
    (invalid : Text) (x : Result Error (Option Principal)) (p : Principal)
    → answer invalid x ≡ ok p
    → x ≡ ok (some p)
answer-ok invalid (err e) p h = cc
answer-ok invalid (ok none) p h = cc
answer-ok invalid (ok (some q)) p h =
    ap (λ y. ok (some y)) (ap (λ y. elim y [ err t ↦ q | ok z ↦ z ]) h)

by_pat-IsNamedBy :
    (store : Text → Result Error (Option Principal))
    (pat : Option (Text → Result Error (Option Principal))) (token : Text) (p : Principal)
    → (by_pat store pat token (has_prefix token (codes "uat_")) ≡ ok p)
      ↔ IsNamedBy store pat token p
by_pat-IsNamedBy store none token p = (answer-ok _ (store token) p, λ e. rw e refl)
by_pat-IsNamedBy store (some pat) token p = by_prefix (has_prefix token (codes "uat_"))
  where
    by_prefix :
        (b : Bool)
        → (by_pat store (some pat) token b ≡ ok p)
          ↔ (((b ≡ true) × (pat token ≡ ok (some p))) ⊎ ((b ≡ false) × (store token ≡ ok (some p))))
    by_prefix true = (λ h. inl (refl, answer-ok _ (pat token) p h), λ o. from_pat o)
      where
        from_pat :
            ((true ≡ true) × (pat token ≡ ok (some p)))
              ⊎ ((true ≡ false) × (store token ≡ ok (some p)))
            → answer (codes "Invalid API token") (pat token) ≡ ok p
        from_pat (inl (t, e)) = rw e refl
        from_pat (inr (f, e)) = cc
    by_prefix false = (λ h. inr (refl, answer-ok _ (store token) p h), λ o. from_store o)
      where
        from_store :
            ((false ≡ true) × (pat token ≡ ok (some p)))
              ⊎ ((false ≡ false) × (store token ≡ ok (some p)))
            → answer (codes "Invalid or expired authentication token") (store token) ≡ ok p
        from_store (inl (t, e)) = cc
        from_store (inr (f, e)) = rw e refl

-- The request carries a token under which `p` is known.
abbrev pub IsKnown :
    (Text → Result Error (Option Principal))
    → Option (Text → Result Error (Option Principal))
    → Request
    → Principal
    → Type 0
IsKnown store pat r p =
    (token : Text) × (token ≢ []) × IsTokenOf r token × IsNamedBy store pat token p

session_auth_iff :
    (store : Text → Result Error (Option Principal))
    (pat : Option (Text → Result Error (Option Principal))) (r : Request) (p : Principal)
    → (session_auth store pat r ≡ ok p) ↔ IsKnown store pat r p
unfolding session_auth
session_auth_iff store pat r p = (by_token (extract_token r) refl, back)
  where
    by_token :
        (token : Text)
        → extract_token r ≡ token
        → (if is_empty token
            then err (codes "No authentication token provided")
            else by_pat store pat token (has_prefix token (codes "uat_")))
          ≡ ok p
        → IsKnown store pat r p
    by_token [] e h = cc
    by_token (c ∷ s) e h = (
      c ∷ s,
      (λ x. cc),
      subst (IsTokenOf r) e (extract_token-IsTokenOf r),
      (by_pat-IsNamedBy store pat (c ∷ s) p).0 h,
    )

    answered :
        (token : Text)
        → token ≢ []
        → IsNamedBy store pat token p
        → (if is_empty token
            then err (codes "No authentication token provided")
            else by_pat store pat token (has_prefix token (codes "uat_")))
          ≡ ok p
    answered [] n k = absurd (n refl)
    answered (c ∷ s) n k = (by_pat-IsNamedBy store pat (c ∷ s) p).1 k

    back : IsKnown store pat r p → session_auth store pat r ≡ ok p
    back (token, n, at, k) = rw (IsTokenOf-extract_token r token at) (answered token n k)

role_gate_iff :
    (p : Principal) (mine required : Role)
    → p.role ≡ role_name mine
    → (role_gate (role_name required) (some p) ≡ passed) ↔ (covers mine required ≡ true)
unfolding role_gate
role_gate_iff p mine required e =
    rw (has_role_lem p mine required e) (by_cover (covers mine required) _)
  where
    by_cover : (b : Bool) (t : Text) → ((if b then passed else forbidden t) ≡ passed) ↔ (b ≡ true)
    by_cover true t = (λ h. refl, λ h. refl)
    by_cover false t = (λ h. cc, λ h. cc)

-- For a principal with one of the four roles, a request comes through the authentication as that
-- principal and then through the gate of a role exactly when the principal's role covers the
-- required one (an admin covers all, an operator operators and viewers, viewers and agents
-- themselves alone) and the request carries a token that is not empty and under which the principal
-- is known: to the API tokens, where there are any, for a token that starts with uat_, and to the
-- session store for every other. The token stands after Bearer in the header Authorization; without
-- it, a WebSocket's is the query parameter, never the cookie, and any other request's is the
-- cookie, never the query parameter.
pub role_gate-session_auth :
    (store : Text → Result Error (Option Principal))
    (pat : Option (Text → Result Error (Option Principal))) (r : Request) (p : Principal)
    (mine required : Role)
    → p.role ≡ role_name mine
    → ((session_auth store pat r ≡ ok p) × (role_gate (role_name required) (some p) ≡ passed))
      ↔ (IsKnown store pat r p × (covers mine required ≡ true))
role_gate-session_auth store pat r p mine required e =
    let (known, known_back) = session_auth_iff store pat r p in
    let (may, may_back) = role_gate_iff p mine required e in
    (λ h. (known h.0, may h.1), λ h. (known_back h.0, may_back h.1))
