-- ===== src/Accounts/Acceptance.antt =====
-- The row that Authenticate accepts, and what becomes of it (backend/pkg/users/users.go).
use ubuntu_auto_update.Base.{
  arith, ℕ, ◌≡◌, refl, sym, ap, ◌∙◌, ◌⊎◌, inl, inr, Bool, true, false, List, [], ◌∷◌, Option, none,
  some, Text, ◌==◌, if◌then◌else◌, Bool-cases, Result, ok, err, Error, some_inj,
}
use ubuntu_auto_update.Accounts.Users.{
  User, Users, UserError, LoginWorld, Login, find_user, user_by_id, change_user, login_row, bump,
  is_locked, compared, unless_locked, unless_disabled, with_row, selected, authenticate,
}

user_by_id-change :
    (i : ℕ) (f : User → User) (u : User) (us : List User)
    → ((g : User) → (f g).id ≡ g.id)
    → user_by_id i us ≡ some u
    → user_by_id i (change_user i f us) ≡ some (f u)
unfolding user_by_id change_user
user_by_id-change i f u [] keeps found = ground arith
user_by_id-change i f u (g ∷ us) keeps found = elim (Bool-cases (g.id == i)) [
  | inl e ↦
      let rest = user_by_id i (change_user i f us) in
      let same : g ≡ u = some_inj (sym (rw e refl) ∙ found) in
      rw e (
        ap (λ b. if b then some (f g) else rest) (ap (λ x. x == i) (keeps g) ∙ e)
        ∙ ap (λ x. some (f x)) same)
  | inr e ↦ rw (e, e) (user_by_id-change i f u us keeps (sym (rw e refl) ∙ found))
]

-- A row that Authenticate accepts.
pub record Accepts (matches : Text → Text → Bool) (w : LoginWorld) (name password : Text)
    (us : List User) (u : User) : Type 0 where
  pub named : find_user name us ≡ some u
  pub enabled : u.disabled_at ≡ none
  pub unlocked : is_locked w.now u.locked_until ≡ false
  pub right : matches u.password_hash password ≡ true

abbrev pub login_of : User → Login
login_of u = record { id = u.id; username = u.username; role = u.role }

-- Authenticate refuses, or it accepts a row.
pub authenticate-cases :
    (matches : Text → Text → Bool) (w : LoginWorld) (name password : Text) (t : Users)
    → ((e : UserError) × (t' : Users) × (authenticate matches w name password t ≡ (err e, t')))
      ⊎ ((u : User) × Accepts matches w name password t.rows u
          × (authenticate matches w name password t
              ≡ (ok (login_of u), bump w.bump_fault u.id (login_row w.now) t)))
unfolding authenticate
authenticate-cases matches w name password t = by_select w.select_fault
  where
    Cases : Result UserError Login × Users → Type 0
    Cases r =
        ((e : UserError) × (t' : Users) × (r ≡ (err e, t')))
        ⊎ ((u : User) × Accepts matches w name password t.rows u
            × (r ≡ (ok (login_of u), bump w.bump_fault u.id (login_row w.now) t)))

    by_match :
        (u : User) (b : Bool)
        → find_user name t.rows ≡ some u
        → u.disabled_at ≡ none
        → is_locked w.now u.locked_until ≡ false
        → matches u.password_hash password ≡ b
        → Cases (compared w u b t)
    by_match u false n d l m = inl (_, _, refl)
    by_match u true n d l m =
        inr (u, record { named = n; enabled = d; unlocked = l; right = m }, refl)

    by_lock :
        (u : User) (b : Bool)
        → find_user name t.rows ≡ some u
        → u.disabled_at ≡ none
        → is_locked w.now u.locked_until ≡ b
        → Cases (unless_locked w u b (matches u.password_hash password) t)
    by_lock u true n d l = inl (_, _, refl)
    by_lock u false n d l = by_match u (matches u.password_hash password) n d l refl

    by_disabled :
        (u : User) (o : Option ℕ)
        → find_user name t.rows ≡ some u
        → u.disabled_at ≡ o
        → Cases (unless_disabled w u o (matches u.password_hash password) t)
    by_disabled u (some since) n d = inl (_, _, refl)
    by_disabled u none n d = by_lock u (is_locked w.now u.locked_until) n d refl

    by_row : (o : Option User) → find_user name t.rows ≡ o → Cases (with_row matches w password o t)
    by_row none n = inl (_, _, refl)
    by_row (some u) n = by_disabled u u.disabled_at n refl

    by_select : (f : Option Error) → Cases (selected matches w f name password t)
    by_select (some e) = inl (_, _, refl)
    by_select none = by_row (find_user name t.rows) refl

-- The row stays enabled and keeps its name and role through the login.
pub bump-row :
    (fault : Option Error) (now : ℕ) (u : User) (t : Users)
    → user_by_id u.id t.rows ≡ some u
    → u.disabled_at ≡ none
    → (u' : User) × (user_by_id u.id (bump fault u.id (login_row now) t).rows ≡ some u')
      × (u'.username ≡ u.username)
      × (u'.role ≡ u.role)
      × (u'.disabled_at ≡ none)
unfolding login_row
bump-row (some e) now u t found enabled = (u, found, refl, refl, enabled)
bump-row none now u t found enabled = (
  login_row now u,
  user_by_id-change u.id (login_row now) u t.rows (λ g. refl) found,
  refl,
  refl,
  enabled,
)
