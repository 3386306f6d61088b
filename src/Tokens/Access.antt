-- ===== src/Tokens/Access.antt =====
-- What a minted token opens, and for how long.
use ubuntu_auto_update.Base.{
  arith, ℕ, zero, suc, ◌<◌, ◌≡◌, refl, sym, ap, ◌∙◌, ◌⊎◌, inl, inr, Bool, true, false, not, List,
  [], ◌∷◌, ◌++◌, Option, none, some, Text, codes, text_eq, text_eq_self, is_empty, trim_space,
  has_prefix, ◌==◌, ==_refl, if◌then◌else◌, is_some, Bool-cases, Result, ok, err, Error, All,
}
use ubuntu_auto_update.Accounts.Users.{is_valid_role}
use ubuntu_auto_update.Accounts.Roles.{Principal}
use ubuntu_auto_update.Accounts.Gates.{Request, bearer, extract_token, answer, session_auth}
use ubuntu_auto_update.Tokens.Defs.{
  Token, TokenTable, prefix, find_token, drop_token, touch, new_token, minted_row, with_random,
  create_token, delete_token, token_by_id, validate_token, principal_or, token_auth, TokenRequest,
  TokenReply, minted, token_refused, creator, answer_token, handle_create_api_token,
  handle_delete_api_token, answer_removal,
}

abbrev on_token : (Token → Token) → Option Token → Option Token
on_token f none = none
on_token f (some t) = some (f t)

find-touch :
    (h : Text) (now : ℕ) (ts : List Token)
    → find_token h (touch h now ts)
      ≡ on_token (λ t. record t { last_used_at = some now }) (find_token h ts)
unfolding find_token touch
find-touch h now [] = refl
find-touch h now (t ∷ ts) = elim (Bool-cases (text_eq t.token_hash h)) [
  | inl e ↦ rw (e, e) refl
  | inr e ↦ rw (e, e) (find-touch h now ts)
]

find_token-new :
    (t : Token) (ts : List Token)
    → find_token t.token_hash ts ≡ none
    → find_token t.token_hash (ts ++ t ∷ []) ≡ some t
unfolding find_token
find_token-new t [] absent = rw (text_eq_self t.token_hash) refl
find_token-new t (u ∷ ts) absent = elim (Bool-cases (text_eq u.token_hash t.token_hash)) [
  | inl e ↦ absurd (ground (arith, e))
  | inr e ↦ rw e (find_token-new t ts (sym (rw e refl) ∙ absent))
]

drop_token-new :
    (t : Token) (ts : List Token) → All (λ u. u.id < t.id) ts → drop_token t.id (ts ++ t ∷ []) ≡ ts
unfolding drop_token
drop_token-new t [] all = rw (==_refl t.id) refl
drop_token-new t (u ∷ ts) (below, all) =
    let differs : (u.id == t.id) ≡ false = ground (arith, below) in
    rw differs (ap (λ r. u ∷ r) (drop_token-new t ts all))

-- A request that carries a token as its bearer.
abbrev pub bearing : Request → Text → Request
bearing r raw = record r { authorization = bearer ++ raw }

-- For a token of this kind the answer is the validator's, whatever the session store says.
session_auth-prefixed :
    (store pat : Text → Result Error (Option Principal)) (r : Request) (s : Text)
    → session_auth store (some pat) (bearing r (prefix ++ s))
      ≡ answer (codes "Invalid API token") (pat (prefix ++ s))
unfolding session_auth extract_token has_prefix
session_auth-prefixed store pat r s = refl

token_auth-find :
    (hash : Text → Text) (now : ℕ) (t : TokenTable) (s : Text)
    → token_auth hash none now t (prefix ++ s)
      ≡ principal_or (ok (find_token (hash (prefix ++ s)) (touch (hash (prefix ++ s)) now t.rows)))
unfolding token_auth validate_token has_prefix
token_auth-find hash now t s = refl

-- The table after a deletion without a fault.
handle_delete_api_token-rows :
    (i : ℕ) (t : TokenTable) → (handle_delete_api_token none i t).1.rows ≡ drop_token i t.rows
unfolding handle_delete_api_token delete_token
handle_delete_api_token-rows i t = by_count (if is_some (token_by_id i t.rows) then 1 else 0)
  where
    by_count :
        (n : ℕ)
        → (answer_removal (ok n, record t { rows = drop_token i t.rows })).1.rows
          ≡ drop_token i t.rows
    by_count zero = refl
    by_count (suc n) = refl

-- A request for an API token is refused and changes nothing, or it mints one with one of the three
-- roles. Then, where the validation meets no fault, every request that carries the secret as its
-- bearer is authenticated with that role and the name asked for; and from the token's deletion on
-- it is refused. The hash of a new secret is not stored yet, and ids are below the sequence.
pub handle_create_api_token-Opens :
    (hash : Text → Text) (random : Result Error Text) (fault : Option Error) (now later : ℕ)
    (user : Option Text) (q : TokenRequest) (t : TokenTable)
    (store : Text → Result Error (Option Principal)) (r : Request)
    → ((s : Text) → random ≡ ok s → find_token (hash (prefix ++ s)) t.rows ≡ none)
    → All (λ x. x.id < t.next_id) t.rows
    → ((status : ℕ) × (text : Text) × (handle_create_api_token hash random fault now user (some q) t
          ≡ (token_refused status text, t)))
      ⊎ ((row : Token) × (raw : Text) × ((handle_create_api_token hash random fault now user
              (some q)
              t).0
            ≡ minted row raw)
          × (is_valid_role q.role ≡ true)
          × (session_auth store
                (some (
                  token_auth hash none later
                    (handle_create_api_token hash random fault now user (some q) t).1))
                (bearing r raw)
              ≡ ok (record {
                user_id = 0;
                username = codes "token:" ++ trim_space q.name;
                role = q.role;
                session_id = 0;
                agent_label = [];
              }))
          × (session_auth store
                (some (
                  token_auth hash none later
                    (handle_delete_api_token none row.id
                      (handle_create_api_token hash random fault now user (some q) t).1).1))
                (bearing r raw)
              ≡ err (codes "Invalid API token")))
unfolding handle_create_api_token create_token
handle_create_api_token-Opens hash random fault now later user q t store r fresh below =
    by_guards (is_empty name) (is_valid_role q.role) refl
  where
    name : Text
    name = trim_space q.name

    Good : TokenReply × TokenTable → Type 0
    Good o =
        ((status : ℕ) × (text : Text) × (o ≡ (token_refused status text, t)))
        ⊎ ((row : Token) × (raw : Text) × (o.0 ≡ minted row raw)
            × (is_valid_role q.role ≡ true)
            × (session_auth store (some (token_auth hash none later o.1)) (bearing r raw)
                ≡ ok (record {
                  user_id = 0;
                  username = codes "token:" ++ name;
                  role = q.role;
                  session_id = 0;
                  agent_label = [];
                }))
            × (session_auth store
                  (some (token_auth hash none later (handle_delete_api_token none row.id o.1).1))
                  (bearing r raw)
                ≡ err (codes "Invalid API token")))

    seen_as : Option Token → Result Text Principal
    seen_as o =
        answer (codes "Invalid API token")
          (principal_or (ok (on_token (λ x. record x { last_used_at = some later }) o)))

    reads :
        (u : TokenTable) (s : Text)
        → session_auth store (some (token_auth hash none later u)) (bearing r (prefix ++ s))
          ≡ seen_as (find_token (hash (prefix ++ s)) u.rows)
    reads u s =
        session_auth-prefixed store (token_auth hash none later u) r s
        ∙ (ap (answer (codes "Invalid API token")) (token_auth-find hash later u s)
            ∙ ap (λ o. answer (codes "Invalid API token") (principal_or (ok o)))
                (find-touch (hash (prefix ++ s)) later u.rows))

    by_insert :
        (s : Text) (f : Option Error)
        → random ≡ ok s
        → is_valid_role q.role ≡ true
        → Good (answer_token (minted_row hash f now (prefix ++ s) name q.role (creator user) t))
    by_insert s (some e) made valid = inl (_, _, refl)
    by_insert s none made valid =
        let row : Token = new_token hash t.next_id now (prefix ++ s) name q.role (creator user) in
        let t' : TokenTable = record { rows = t.rows ++ row ∷ []; next_id = suc t.next_id } in
        inr (
          row,
          prefix ++ s,
          refl,
          valid,
          reads t' s ∙ ap seen_as (find_token-new row t.rows (fresh s made)),
          reads (handle_delete_api_token none row.id t').1 s
              ∙ ap seen_as (
                  ap (find_token (hash (prefix ++ s)))
                    (handle_delete_api_token-rows row.id t' ∙ drop_token-new row t.rows below)
                  ∙ fresh s made),
        )

    by_random :
        (x : Result Error Text)
        → random ≡ x
        → is_valid_role q.role ≡ true
        → Good (answer_token (with_random hash x fault now name q.role (creator user) t))
    by_random (err e) made valid = inl (_, _, refl)
    by_random (ok s) made valid = by_insert s fault made valid

    by_guards :
        (a b : Bool)
        → is_valid_role q.role ≡ b
        → Good (
            if a
            then (token_refused 400 (codes "name is required"), t)
            else if not b
            then (token_refused 400 (codes "role must be viewer, operator, or admin"), t)
            else answer_token (with_random hash random fault now name q.role (creator user) t))
    by_guards true b valid = inl (_, _, refl)
    by_guards false false valid = inl (_, _, refl)
    by_guards false true valid = by_random random refl valid
