-- ===== src/Accounts/Manage.antt =====
-- The handlers of backend/cmd/api/users.go that change users, after the id of the path is read.
-- bcrypt is `generate`. An update writes its fields one after the other.
use ubuntu_auto_update.Base.{
  ℕ, arith, ◌≡◌, refl, ap, ◌∙◌, inl, inr, Bool, false, not, ◌||◌, List, [], ◌∷◌, Option, none, some,
  Text, codes, is_empty, ◌==◌, if◌then◌else◌, Bool-cases, Result, ok, err, Error,
}
use ubuntu_auto_update.Accounts.Users.{
  User, Users, UserError, user_not_found, duplicate_username, invalid_role, password_too_short,
  is_valid_role, user_by_id, drop_user, removed, create_user, set_role, set_disabled, set_password,
  delete_user,
}
use ubuntu_auto_update.Accounts.Roles.{Principal}

pub data UserReply : Type 0 where
  -- 201, 204
  user_created : User → UserReply
  user_changed : UserReply
  user_refused : ℕ → Text → UserReply

pub record NewUser : Type 0 where
  pub username : Text
  pub password : Text
  pub role : Text

unfoldable pub create_refusal : UserError → UserReply
create_refusal duplicate_username = user_refused 409 (codes "Username already exists")
create_refusal password_too_short =
    user_refused 400 (codes "Password must be at least 12 characters")
create_refusal invalid_role = user_refused 400 (codes "Invalid role")
create_refusal _ = user_refused 500 (codes "Failed to create user")

abbrev pub answer_created : Result UserError User × Users → UserReply × Users
answer_created (ok u, t) = (user_created u, t)
answer_created (err e, t) = (create_refusal e, t)

abbrev pub viewer_or : Text → Text
viewer_or role = if is_empty role then codes "viewer" else role

unfoldable pub handle_create_user :
    (Text → Result Error Text) → Option Error → ℕ → Option NewUser → Users → UserReply × Users
handle_create_user generate fault now none t = (user_refused 400 (codes "Invalid request body"), t)
handle_create_user generate fault now (some r) t =
    let role = viewer_or r.role in
    let made = answer_created (create_user generate fault now r.username r.password role t) in
    if is_empty r.username || is_empty r.password
    then (user_refused 400 (codes "username and password are required"), t)
    else if not (is_valid_role role)
    then (user_refused 400 (codes "role must be viewer, operator, or admin"), t)
    else made

-- respondUserUpdateError
unfoldable pub update_refusal : UserError → UserReply
update_refusal user_not_found = user_refused 404 (codes "User not found")
update_refusal invalid_role = user_refused 400 (codes "Invalid role")
update_refusal password_too_short =
    user_refused 400 (codes "Password must be at least 12 characters")
update_refusal _ = user_refused 500 (codes "Failed to update user")

pub record UserUpdate : Type 0 where
  pub role : Option Text
  pub disabled : Option Bool
  pub password : Option Text

-- The faults of the three statements and the clock.
pub record ManageWorld : Type 0 where
  pub generate : Text → Result Error Text
  pub role_fault : Option Error
  pub disabled_fault : Option Error
  pub password_fault : Option Error
  pub now : ℕ

abbrev pub answer_changed : Option UserError × Users → UserReply × Users
answer_changed (none, t) = (user_changed, t)
answer_changed (some e, t) = (update_refusal e, t)

abbrev pub password_step : ManageWorld → ℕ → Option Text → Users → UserReply × Users
password_step w i none t = (user_changed, t)
password_step w i (some p) t = answer_changed (set_password w.generate w.password_fault w.now i p t)

abbrev pub after_disabled :
    ManageWorld → ℕ → UserUpdate → Option UserError × Users → UserReply × Users
after_disabled w i r (some e, t) = (update_refusal e, t)
after_disabled w i r (none, t) = password_step w i r.password t

abbrev pub disabled_step : ManageWorld → ℕ → UserUpdate → Option Bool → Users → UserReply × Users
disabled_step w i r none t = password_step w i r.password t
disabled_step w i r (some b) t = after_disabled w i r (set_disabled w.disabled_fault w.now i b t)

abbrev pub after_role : ManageWorld → ℕ → UserUpdate → Option UserError × Users → UserReply × Users
after_role w i r (some e, t) = (update_refusal e, t)
after_role w i r (none, t) = disabled_step w i r r.disabled t

abbrev pub role_step : ManageWorld → ℕ → UserUpdate → Option Text → Users → UserReply × Users
role_step w i r none t = disabled_step w i r r.disabled t
role_step w i r (some role) t = after_role w i r (set_role w.role_fault w.now i role t)

unfoldable pub handle_update_user : ManageWorld → ℕ → Option UserUpdate → Users → UserReply × Users
handle_update_user w i none t = (user_refused 400 (codes "Invalid request body"), t)
handle_update_user w i (some r) t = role_step w i r r.role t

abbrev pub is_own : ℕ → Option Principal → Bool
is_own i none = false
is_own i (some p) = p.user_id == i

unfoldable pub handle_delete_user : Option Error → Option Principal → ℕ → Users → UserReply × Users
handle_delete_user fault p i t =
    let done = answer_changed (delete_user fault i t) in
    if is_own i p then (user_refused 400 (codes "Cannot delete your own account"), t) else done

user_by_id-drop :
    (i j : ℕ) (us : List User) → (i == j) ≡ false → user_by_id j (drop_user i us) ≡ user_by_id j us
unfolding user_by_id drop_user
user_by_id-drop i j [] differ = refl
user_by_id-drop i j (u ∷ us) differ = ground (arith, differ, user_by_id-drop i j us differ)

-- Whatever a deletion meets, the row of the user who asks for it stays as it was.
pub handle_delete_user-Keeps :
    (fault : Option Error) (p : Principal) (i : ℕ) (t : Users)
    → user_by_id p.user_id (handle_delete_user fault (some p) i t).1.rows
      ≡ user_by_id p.user_id t.rows
unfolding handle_delete_user delete_user
handle_delete_user-Keeps fault p i t = elim (Bool-cases (p.user_id == i)) [
  | inl e ↦
      ap
        (λ b.
          user_by_id p.user_id
            (if b then (the_own, t) else answer_changed (removed fault i t)).1.rows)
        e
  | inr e ↦
      ap
        (λ b.
          user_by_id p.user_id
            (if b then (the_own, t) else answer_changed (removed fault i t)).1.rows)
        e
      ∙ by_fault fault e
]
  where
    the_own : UserReply
    the_own = user_refused 400 (codes "Cannot delete your own account")

    by_fault :
        (f : Option Error)
        → (p.user_id == i) ≡ false
        → user_by_id p.user_id (answer_changed (removed f i t)).1.rows ≡ user_by_id p.user_id t.rows
    by_fault (some x) e = refl
    by_fault none e = by_row (user_by_id i t.rows)
      where
        by_row :
            (o : Option User)
            → user_by_id p.user_id
                (answer_changed (elim o [
                  | none ↦ (some user_not_found, t)
                  | some u ↦ (none, record t { rows = drop_user i t.rows })
                ])).1.rows
              ≡ user_by_id p.user_id t.rows
        by_row none = refl
        by_row (some u) = user_by_id-drop i p.user_id t.rows (ground (arith, e))
