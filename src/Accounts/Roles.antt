-- ===== src/Accounts/Roles.antt =====
-- Principal and HasRole.
use ubuntu_auto_update.Base.{
  ℕ, ◌≡◌, refl, Bool, true, false, ◌&&◌, Text, codes, text_eq, is_empty, not, if◌then◌else◌,
}

-- The zero values stand for the absent fields.
pub record Principal : Type 0 where
  pub user_id : ℕ
  pub username : Text
  pub role : Text
  pub session_id : ℕ
  pub agent_label : Text

unfoldable pub is_agent : Principal → Bool
is_agent p = not (is_empty p.agent_label)

unfoldable pub has_role : Principal → Text → Bool
has_role p required =
    if text_eq p.role (codes "admin")
    then true
    else if text_eq p.role required
    then true
    else text_eq p.role (codes "operator") && text_eq required (codes "viewer")

-- The roles in their order, and the agents beside it.
pub data Role : Type 0 where
  viewer operator admin agent : Role

abbrev pub role_name : Role → Text
role_name viewer = codes "viewer"
role_name operator = codes "operator"
role_name admin = codes "admin"
role_name agent = codes "agent"

-- Who may do what `required` may.
abbrev pub covers : Role → Role → Bool
covers admin required = true
covers operator operator = true
covers operator viewer = true
covers operator admin = false
covers operator agent = false
covers viewer viewer = true
covers viewer operator = false
covers viewer admin = false
covers viewer agent = false
covers agent agent = true
covers agent viewer = false
covers agent operator = false
covers agent admin = false

-- Among the four roles, a principal passes a gate exactly when its role covers the required one:
-- an admin covers all, an operator covers operators and viewers, viewers and agents cover
-- themselves alone.
pub has_role_lem :
    (p : Principal) (mine required : Role)
    → p.role ≡ role_name mine
    → has_role p (role_name required) ≡ covers mine required
unfolding has_role text_eq
has_role_lem p viewer viewer e = rw e refl
has_role_lem p viewer operator e = rw e refl
has_role_lem p viewer admin e = rw e refl
has_role_lem p viewer agent e = rw e refl
has_role_lem p operator viewer e = rw e refl
has_role_lem p operator operator e = rw e refl
has_role_lem p operator admin e = rw e refl
has_role_lem p operator agent e = rw e refl
has_role_lem p admin viewer e = rw e refl
has_role_lem p admin operator e = rw e refl
has_role_lem p admin admin e = rw e refl
has_role_lem p admin agent e = rw e refl
has_role_lem p agent viewer e = rw e refl
has_role_lem p agent operator e = rw e refl
has_role_lem p agent admin e = rw e refl
has_role_lem p agent agent e = rw e refl
