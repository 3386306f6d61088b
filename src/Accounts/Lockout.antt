-- ===== src/Accounts/Lockout.antt =====
-- Eight wrong passwords lock an account for a quarter of an hour.
use ubuntu_auto_update.Base.{
  ℕ, suc, ◌+◌, ◌<◌, ◌≡◌, refl, sym, ap, ◌∙◌, inl, inr, Bool, true, false, List, [], ◌∷◌, none, some,
  Text, text_eq, arith, length, ltb, leb, lt→ltb, some_inj, ◌==◌, ==_refl, Bool-cases, err, All,
}
use ubuntu_auto_update.Accounts.Users.{
  User, Users, account_locked, max_failed_logins, lockout_duration, find_user, change_user,
  LoginWorld, fail_row, is_locked, compared, unless_locked, unless_disabled, with_row, selected,
  authenticate,
}

-- A change that keeps the name.
abbrev pub KeepsName : (User → User) → Type 0
KeepsName f = (u : User) → (f u).username ≡ u.username

find-change_user :
    (name : Text) (f : User → User) (u : User) (us : List User)
    → KeepsName f
    → find_user name us ≡ some u
    → find_user name (change_user u.id f us) ≡ some (f u)
unfolding find_user change_user
find-change_user name f u [] keeps h = ground arith
find-change_user name f u (v ∷ us) keeps h = elim (Bool-cases (text_eq v.username name)) [
  | inl here ↦
      let same : v ≡ u = some_inj (sym (rw here refl) ∙ h) in
      let named : text_eq u.username name ≡ true =
        ap (λ x. text_eq x.username name) (sym same) ∙ here in
      rw (same, ==_refl u.id, keeps u, named) refl
  | inr away ↦
      let later : find_user name us ≡ some u = sym (rw away refl) ∙ h in
      elim (Bool-cases (v.id == u.id)) [
        | inl hit ↦ rw (hit, keeps v, away) (find-change_user name f u us keeps later)
        | inr miss ↦ rw (miss, away) (find-change_user name f u us keeps later)
      ]
]

-- One call of Authenticate under one name.
pub record Attempt : Type 0 where
  pub now : ℕ
  pub password : Text

abbrev pub healthy_at : ℕ → LoginWorld
healthy_at now = record { select_fault = none; bump_fault = none; now = now }

unfoldable pub try_all : (Text → Text → Bool) → Text → List Attempt → Users → Users
try_all matches name [] t = t
try_all matches name (a ∷ rest) t =
    try_all matches name rest (authenticate matches (healthy_at a.now) name a.password t).1

abbrev pub last_time : ℕ → List Attempt → ℕ
last_time now [] = now
last_time now (a ∷ rest) = last_time a.now rest

fail_row-KeepsName : (now failed : ℕ) → KeepsName (fail_row now failed)
unfolding fail_row
fail_row-KeepsName now failed u = elim (Bool-cases (leb max_failed_logins failed)) [
  | inl e ↦ rw e refl
  | inr e ↦ rw e refl
]

module _ (matches : Text → Text → Bool) (name : Text) where
  reaches_row :
      (w : LoginWorld) (password : Text) (u : User) (t : Users)
      → w.select_fault ≡ none
      → find_user name t.rows ≡ some u
      → u.disabled_at ≡ none
      → authenticate matches w name password t
        ≡ unless_locked w u (is_locked w.now u.locked_until) (matches u.password_hash password) t
  unfolding authenticate
  reaches_row w password u t reaches found enabled =
      ap (λ f. selected matches w f name password t) reaches
      ∙ (ap (λ o. with_row matches w password o t) found
          ∙ ap (λ d. unless_disabled w u d (matches u.password_hash password) t) enabled)

  -- An attempt with a wrong password on a row that is neither disabled nor locked.
  fails :
      (a : Attempt) (u : User) (t : Users)
      → find_user name t.rows ≡ some u
      → u.disabled_at ≡ none
      → u.locked_until ≡ none
      → matches u.password_hash a.password ≡ false
      → find_user name (authenticate matches (healthy_at a.now) name a.password t).1.rows
        ≡ some (fail_row a.now (suc u.failed_logins) u)
  fails a u t found enabled unlocked wrong =
      let w = healthy_at a.now in
      let right = matches u.password_hash a.password in
      let one : authenticate matches w name a.password t ≡ compared w u false t =
        reaches_row w a.password u t refl found enabled
        ∙ (ap (λ l. unless_locked w u (is_locked a.now l) right t) unlocked
            ∙ ap (λ b. compared w u b t) wrong) in
      ap (λ r. find_user name r.1.rows) one
      ∙ find-change_user name (fail_row a.now (suc u.failed_logins)) u t.rows
          (fail_row-KeepsName a.now (suc u.failed_logins)) found

  -- The row after wrong attempts that bring the count to the limit.
  locked_row :
      (first : ℕ) (a : Attempt) (rest : List Attempt) (u : User) (t : Users)
      → find_user name t.rows ≡ some u
      → u.disabled_at ≡ none
      → u.locked_until ≡ none
      → suc (length rest) + u.failed_logins ≡ max_failed_logins
      → All (λ x. matches u.password_hash x.password ≡ false) (a ∷ rest)
      → (u' : User) × (find_user name (try_all matches name (a ∷ rest) t).rows ≡ some u')
        × (u'.disabled_at ≡ none)
        × (u'.locked_until ≡ some (last_time first (a ∷ rest) + lockout_duration))
  unfolding try_all fail_row
  locked_row first a [] u t found enabled unlocked count (wrong, _) =
      let full : leb max_failed_logins (suc u.failed_logins) ≡ true = ground (arith, count) in
      (
        fail_row a.now (suc u.failed_logins) u,
        fails a u t found enabled unlocked wrong,
        rw full enabled,
        rw full refl,
      )
  locked_row first a (b ∷ rest) u t found enabled unlocked count (wrong, others) =
      let short : leb max_failed_logins (suc u.failed_logins) ≡ false = ground (arith, count) in
      let u1 : User = record u { failed_logins = suc u.failed_logins; updated_at = a.now } in
      let found1 : find_user name (authenticate matches (healthy_at a.now) name a.password t).1.rows
          ≡ some u1 =
        fails a u t found enabled unlocked wrong ∙ ap some (rw short refl) in
      locked_row a.now b rest u1 (authenticate matches (healthy_at a.now) name a.password t).1
        found1 enabled unlocked (omega (arith, count)) others

  -- Eight wrong passwords in a row for an account that was neither disabled nor locked and had no
  -- failed login, each statement reaching the table, lock it: until fifteen minutes after the last
  -- of them every attempt is refused as locked, the right password included, and changes nothing.
  pub lockout :
      (a : Attempt) (rest : List Attempt) (u : User) (t : Users) (w : LoginWorld) (password : Text)
      → find_user name t.rows ≡ some u
      → u.disabled_at ≡ none
      → u.locked_until ≡ none
      → u.failed_logins ≡ 0
      → length rest ≡ 7
      → All (λ x. matches u.password_hash x.password ≡ false) (a ∷ rest)
      → w.select_fault ≡ none
      → w.now < last_time 0 (a ∷ rest) + lockout_duration
      → authenticate matches w name password (try_all matches name (a ∷ rest) t)
        ≡ (err account_locked, try_all matches name (a ∷ rest) t)
  lockout a rest u t w password found enabled unlocked fresh seven wrong reaches early =
      let (u', found', enabled', locked') =
        locked_row 0 a rest u t found enabled unlocked (omega (arith, fresh, seven)) wrong in
      let still : ltb w.now (last_time 0 (a ∷ rest) + lockout_duration) ≡ true = lt→ltb _ _ early in
      let after = try_all matches name (a ∷ rest) t in
      reaches_row w password u' after reaches found' enabled'
      ∙ (ap (λ l. unless_locked w u' (is_locked w.now l) (matches u'.password_hash password) after)
            locked'
          ∙ ap (λ b. unless_locked w u' b (matches u'.password_hash password) after) still)
