-- ===== src/Accounts/Gates.antt =====
-- The gates of backend/pkg/middleware in front of a handler: the token of a request, the session,
-- the CSRF token, the role. A request is its method, its headers and its cookies, as net/http
-- gives them.
use ubuntu_auto_update.Base.{
  ◌≡◌, refl, inl, inr, Bool, true, false, ◌&&◌, ◌||◌, not, [], ◌∷◌, ◌++◌, Option, none, some, Text,
  codes, text_eq, is_empty, has_prefix, drop_prefix, if◌then◌else◌, Bool-cases, Result, ok, err,
  Error,
}
use ubuntu_auto_update.Accounts.Roles.{Principal, has_role}

-- `upgrade` is the lower-cased header Upgrade and `token` the query parameter.
pub record Request : Type 0 where
  pub method : Text
  pub authorization : Text
  pub upgrade : Text
  pub query_token : Text
  pub auth_cookie : Option Text
  pub csrf_cookie : Option Text
  pub csrf_header : Text

pub data Verdict : Type 0 where
  passed : Verdict
  -- 401 and 403 with their text
  unauthorized forbidden : Text → Verdict

abbrev pub cookie_value : Option Text → Text
cookie_value none = []
cookie_value (some v) = v

abbrev pub bearer : Text
bearer = codes "Bearer "

unfoldable pub extract_token : Request → Text
extract_token r =
    if has_prefix r.authorization bearer
    then drop_prefix r.authorization bearer
    else if text_eq r.upgrade (codes "websocket")
    then r.query_token
    else cookie_value r.auth_cookie

unfoldable pub is_safe_method : Text → Bool
is_safe_method m =
    text_eq m (codes "GET") || (text_eq m (codes "HEAD") || text_eq m (codes "OPTIONS"))

unfoldable pub csrf_gate : Request → Verdict
csrf_gate r =
    let cookie = cookie_value r.csrf_cookie in
    if is_safe_method r.method
    then passed
    else if has_prefix r.authorization bearer
    then passed
    else if is_empty cookie
    then forbidden (codes "CSRF token missing")
    else if is_empty r.csrf_header
    then forbidden (codes "CSRF header missing")
    else if text_eq cookie r.csrf_header
    then passed
    else forbidden (codes "CSRF token mismatch")

abbrev pub role_text : Text → Text
role_text required = codes "Role '" ++ (required ++ codes "' required")

unfoldable pub role_gate : Text → Option Principal → Verdict
role_gate required none = unauthorized (codes "No authenticated principal")
role_gate required (some p) = if has_role p required then passed else forbidden (role_text required)

abbrev pub answer : Text → Result Error (Option Principal) → Result Text Principal
answer invalid (err e) = err (codes "Authentication temporarily unavailable")
answer invalid (ok none) = err invalid
answer invalid (ok (some p)) = ok p

-- `store` is the session store's Validate and `pat` the API tokens' one, where there is one.
abbrev pub by_pat :
    (Text → Result Error (Option Principal))
    → Option (Text → Result Error (Option Principal))
    → Text
    → Bool
    → Result Text Principal
by_pat store (some pat) token true = answer (codes "Invalid API token") (pat token)
by_pat store (some pat) token false =
    answer (codes "Invalid or expired authentication token") (store token)
by_pat store none token b = answer (codes "Invalid or expired authentication token") (store token)

-- The principal that the next handler sees, or the text of a 401.
unfoldable pub session_auth :
    (Text → Result Error (Option Principal))
    → Option (Text → Result Error (Option Principal))
    → Request
    → Result Text Principal
session_auth store pat r =
    let token = extract_token r in
    let answered = by_pat store pat token (has_prefix token (codes "uat_")) in
    if is_empty token then err (codes "No authentication token provided") else answered

abbrev pub is_passed : Verdict → Bool
is_passed passed = true
is_passed (unauthorized t) = false
is_passed (forbidden t) = false

-- The three refusals of the CSRF gate, over what it reads.
csrf_cases :
    (c h x y z : Text)
    → is_passed (
        if is_empty c
        then forbidden x
        else if is_empty h
        then forbidden y
        else if text_eq c h
        then passed
        else forbidden z)
      ≡ (not (is_empty c) && text_eq c h)
unfolding text_eq
csrf_cases [] h x y z = refl
csrf_cases (a ∷ c) [] x y z = refl
csrf_cases (a ∷ c) (b ∷ h) x y z = elim (Bool-cases (text_eq (a ∷ c) (b ∷ h))) [
  | inl e ↦ rw e refl
  | inr e ↦ rw e refl
]

-- A request passes the CSRF gate exactly when its method is safe, or it carries a Bearer header, or
-- its CSRF cookie is not empty and the CSRF header has the same value.
pub csrf_gate_iff :
    (r : Request)
    → is_passed (csrf_gate r) ≡ (
        is_safe_method r.method
        || (has_prefix r.authorization bearer
            || (not (is_empty (cookie_value r.csrf_cookie))
                && text_eq (cookie_value r.csrf_cookie) r.csrf_header)))
unfolding csrf_gate
csrf_gate_iff r = elim (Bool-cases (is_safe_method r.method)) [
  | inl e ↦ rw e refl
  | inr e ↦ elim (Bool-cases (has_prefix r.authorization bearer)) [
    | inl b ↦ rw (e, b) refl
    | inr b ↦ rw (e, b) (csrf_cases (cookie_value r.csrf_cookie) r.csrf_header _ _ _)
  ]
]
