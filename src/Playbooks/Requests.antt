-- ===== src/Playbooks/Requests.antt =====
-- The handlers of backend/cmd/api/playbooks.go that change playbooks, after the JSON
-- is decoded and the id of the path is read.
use ubuntu_auto_update.Base.{
  ℕ, zero, suc, ◌≤◌, ◌≡◌, refl, sym, ap, ◌∙◌, subst, inl, inr, Bool, true, false, List, ◌++◌,
  Option, none, some, Text, codes, itoa, is_empty, trim_space, trim_space_idem, All, length,
  if◌then◌else◌, Bool-cases, Result, ok, err, Error, is_no_rows, is_unique_violation,
}
use ubuntu_auto_update.Playbooks.Defs.{
  StepsError, step_too_long, no_steps, too_many_steps, clean_steps,
}
use ubuntu_auto_update.Playbooks.Clean.{IsStep, clean_steps-IsStep}
use ubuntu_auto_update.Playbooks.Store.{
  Playbook, PlaybookTable, create_playbook, update_playbook, delete_playbook, is_name_taken,
  duplicate_name,
}

-- `use_sudo` is none when the body does not have it.
pub record PlaybookRequest : Type 0 where
  pub name : Text
  pub description : Text
  pub steps : List Text
  pub use_sudo : Option Bool

-- The status and the text of a refusal.
pub record Refused : Type 0 where
  pub status : ℕ
  pub text : Text

abbrev pub refused_with : ℕ → Text → Refused
refused_with status text = record { status = status; text = text }

unfoldable pub steps_text : StepsError → Text
steps_text step_too_long = codes "each step must be at most 4096 characters"
steps_text no_steps = codes "at least one non-empty step is required"
steps_text too_many_steps = codes "at most 50 steps per playbook"

abbrev pub sudo_or_true : Option Bool → Bool
sudo_or_true none = true
sudo_or_true (some b) = b

abbrev pub user_name : Option Text → Text
user_name none = codes "unknown"
user_name (some name) = name

-- What the name and the steps of a request come to: the first refusal, or both cleaned.
abbrev pub after_steps : Text → Result StepsError (List Text) → Result Refused (Text × List Text)
after_steps name (err e) = err (refused_with 400 (steps_text e))
after_steps name (ok steps) = ok (name, steps)

unfoldable pub check_playbook : PlaybookRequest → Result Refused (Text × List Text)
check_playbook r =
    let rest = after_steps (trim_space r.name) (clean_steps r.steps) in
    if is_empty (trim_space r.name) then err (refused_with 400 (codes "name is required")) else rest

abbrev pub duplicate_text : Text
duplicate_text = codes "A playbook with that name already exists"

abbrev pub answer_create :
    Result Error Playbook × PlaybookTable → Result Refused Playbook × PlaybookTable
answer_create (ok p, t) = (ok p, t)
answer_create (err e, t) = (
  err (
      if is_unique_violation e
      then refused_with 409 duplicate_text
      else refused_with 500 (codes "Failed to create playbook")),
  t,
)

abbrev pub create_checked :
    Option Error
    → ℕ
    → Option Text
    → PlaybookRequest
    → Result Refused (Text × List Text)
    → PlaybookTable
    → Result Refused Playbook × PlaybookTable
create_checked fault now user r (err x) t = (err x, t)
create_checked fault now user r (ok (name, steps)) t = answer_create (
    create_playbook fault now name (trim_space r.description) steps (sudo_or_true r.use_sudo)
      (user_name user) t)

unfoldable pub handle_create_playbook :
    Option Error
    → ℕ
    → Option Text
    → PlaybookRequest
    → PlaybookTable
    → Result Refused Playbook × PlaybookTable
handle_create_playbook fault now user r t = create_checked fault now user r (check_playbook r) t

abbrev pub answer_update :
    Result Error Playbook × PlaybookTable → Result Refused Playbook × PlaybookTable
answer_update (ok p, t) = (ok p, t)
answer_update (err e, t) = (
  err (
      if is_no_rows e
      then refused_with 404 (codes "Playbook not found")
      else if is_unique_violation e
      then refused_with 409 duplicate_text
      else refused_with 500 (codes "Failed to update playbook")),
  t,
)

abbrev pub update_checked :
    Option Error
    → ℕ
    → ℕ
    → PlaybookRequest
    → Result Refused (Text × List Text)
    → PlaybookTable
    → Result Refused Playbook × PlaybookTable
update_checked fault now i r (err x) t = (err x, t)
update_checked fault now i r (ok (name, steps)) t =
    answer_update (
      update_playbook fault now i name (trim_space r.description) steps (sudo_or_true r.use_sudo) t)

unfoldable pub handle_update_playbook :
    Option Error → ℕ → ℕ → PlaybookRequest → PlaybookTable → Result Refused Playbook × PlaybookTable
handle_update_playbook fault now i r t = update_checked fault now i r (check_playbook r) t

abbrev pub answer_delete : Result Error Bool × PlaybookTable → Option Refused × PlaybookTable
answer_delete (err e, t) = (some (refused_with 500 (codes "Failed to delete playbook")), t)
answer_delete (ok false, t) = (some (refused_with 404 (codes "Playbook not found")), t)
answer_delete (ok true, t) = (none, t)

-- The count of the schedules that use the playbook, where the driver gives it.
abbrev pub unless_used :
    Option Error → Result Error ℕ → ℕ → PlaybookTable → Option Refused × PlaybookTable
unless_used fault (err e) i t = (some (refused_with 500 (codes "Failed to delete playbook")), t)
unless_used fault (ok zero) i t = answer_delete (delete_playbook fault i t)
unless_used fault (ok (suc n)) i t = (
  some (
      refused_with 409 (
        codes "playbook is used by "
        ++ (itoa (suc n) ++ codes " schedule(s); delete or change them first"))),
  t,
)

unfoldable pub handle_delete_playbook :
    Option Error → Result Error ℕ → ℕ → PlaybookTable → Option Refused × PlaybookTable
handle_delete_playbook fault count i t = unless_used fault count i t

-- What a stored playbook of the API looks like.
pub record IsStorable (p : Playbook) : Type 0 where
  pub named : is_empty p.name ≡ false
  pub trimmed : trim_space p.name ≡ p.name
  pub clean : All IsStep p.steps
  pub some_step : 1 ≤ length p.steps
  pub few_steps : length p.steps ≤ 50

abbrev the_ok : Playbook → Result Refused Playbook
the_ok p = ok p

made-inj : (p q : Playbook) → the_ok p ≡ ok q → p ≡ q
made-inj p q h = ap (λ x. elim x [ ok y ↦ y | err e ↦ p ]) h

unless_taken :
    (b : Bool) (q : Playbook) (u : PlaybookTable) (p : Playbook) (t t' : PlaybookTable)
    → answer_create (if b then (err duplicate_name, t) else (ok q, u)) ≡ (ok p, t')
    → IsStorable q
    → IsStorable p
unless_taken true q u p t t' h good = cc
unless_taken false q u p t t' h good = subst IsStorable (made-inj q p (ap (λ x. x.0) h)) good

create_playbook-IsStorable :
    (fault : Option Error) (now : ℕ) (name description : Text) (steps : List Text) (sudo : Bool)
    (by : Text) (t t' : PlaybookTable) (p : Playbook)
    → is_empty name ≡ false
    → trim_space name ≡ name
    → All IsStep steps
    → 1 ≤ length steps
    → length steps ≤ 50
    → answer_create (create_playbook fault now name description steps sudo by t) ≡ (ok p, t')
    → IsStorable p
unfolding create_playbook
create_playbook-IsStorable (some e) now name description steps sudo by t t' p named trimmed clean lo
      hi h =
    cc
create_playbook-IsStorable none now name description steps sudo by t t' p named trimmed clean lo hi
      h =
    unless_taken (is_name_taken t.next_id name t.rows) _ _ p t t' h
      (record { named = named; trimmed = trimmed; clean = clean; some_step = lo; few_steps = hi })

-- A playbook that POST /playbooks creates has a name that is not blank or padded, and between 1 and
-- 50 steps, none of them blank, padded or longer than 4096 bytes.
pub handle_create_playbook-IsStorable :
    (fault : Option Error) (now : ℕ) (user : Option Text) (r : PlaybookRequest)
    (t t' : PlaybookTable) (p : Playbook)
    → handle_create_playbook fault now user r t ≡ (ok p, t')
    → IsStorable p
unfolding handle_create_playbook check_playbook
handle_create_playbook-IsStorable fault now user r t t' p h =
    elim (Bool-cases (is_empty (trim_space r.name))) [
      | inl blank ↦
          absurd
            (refused_blank (refused_with 400 (codes "name is required")) (sym (rw blank refl) ∙ h))
      | inr named ↦ by_steps named (clean_steps r.steps) refl (sym (rw named refl) ∙ h)
    ]
  where
    refused_blank : (x : Refused) → create_checked fault now user r (err x) t ≡ (ok p, t') → ⊥
    refused_blank x k = cc

    by_steps :
        is_empty (trim_space r.name) ≡ false
        → (c : Result StepsError (List Text)) → clean_steps r.steps ≡ c
        → create_checked fault now user r (after_steps (trim_space r.name) c) t ≡ (ok p, t')
        → IsStorable p
    by_steps named (err e) at_steps k = cc
    by_steps named (ok steps) at_steps k =
        let (steps_good, lo, hi) = clean_steps-IsStep r.steps steps at_steps in
        create_playbook-IsStorable fault now (trim_space r.name) _ steps _ _ t t' p named
          (trim_space_idem r.name) steps_good lo hi k
