-- ===== src/Updater/Options.antt =====
-- BulkRunOptions, the clamps and thresholds, and the shell line of an apt update.
use native.Mathlib.Nat.{le-div_iff_mul-le}
use ubuntu_auto_update.Base.{
  refl, ◌⊎◌, inl, inr, Bool-cases, ltb→lt, ℕ, zero, suc, ◌*◌, ◌/◌, ◌≤◌, ◌<◌, ◌≡◌, ◌↔◌, Bool, true,
  false, ◌||◌, not, ◌&&◌, List, ◌++◌, Option, Text, codes, text_eq, is_empty, arith, ltb, leb, ◌==◌,
  if◌then◌else◌,
}
use ubuntu_auto_update.Base.Int.{ℤ, pos, negsuc, to_ℕ, is_nonpos}
use ubuntu_auto_update.Runs.{RunKind}

abbrev pub default_concurrency : ℕ
default_concurrency = 5

abbrev pub max_concurrency : ℕ
max_concurrency = 20

-- `kind` is none for the zero value "". RunTimeout decides only when the context expires, which is
-- for the moves of a wave to say.
pub record BulkRunOptions : Type 0 where
  pub host_ids : List ℕ
  pub concurrency : ℤ
  pub triggered_by : Text
  pub canary_count : ℤ
  pub canary_wait_seconds : ℤ
  pub abort_on_failure_pct : ℤ
  pub kind : Option RunKind
  pub steps : List Text
  pub use_sudo : Bool
  pub playbook_id : Option ℕ
  pub security_only : Bool
  pub reboot : Bool

-- The first lines of Start: not positive means default, then the ceiling.
unfoldable pub clamp_concurrency : ℤ → ℕ
clamp_concurrency asked =
    let conc = if is_nonpos asked then default_concurrency else to_ℕ asked in
    if ltb max_concurrency conc then max_concurrency else conc

-- Of the host list of length `total`, how many form the canary wave.
unfoldable pub clamp_canary : ℤ → ℕ → ℕ
clamp_canary asked total = if ltb total (to_ℕ asked) then total else to_ℕ asked

unfoldable pub percent : ℕ → ℕ → ℕ
percent part total = if total == 0 then 0 else part * 100 / total

unfoldable pub should_abort : ℤ → ℕ → Bool
should_abort threshold observed =
    if is_nonpos threshold || ltb 100 (to_ℕ threshold) then false else leb (to_ℕ threshold) observed

-- `sudo -n ` for a user other than root.
unfoldable pub sudo_prefix : Text → Text
sudo_prefix ssh_user =
    if not (is_empty ssh_user) && not (text_eq ssh_user (codes "root"))
    then codes "sudo -n "
    else codes ""

unfoldable pub apt_noninteractive : Text
apt_noninteractive =
    codes "DEBIAN_FRONTEND=noninteractive apt-get -o Dpkg::Options::=\"--force-confdef\" "
    ++ codes "-o Dpkg::Options::=\"--force-confold\" -y "

unfoldable pub build_update_script : Text → Bool → Text
build_update_script ssh_user security_only =
    let prefix = sudo_prefix ssh_user in
    if security_only
    then codes "set -o pipefail; "
      ++ (codes "echo '== ubuntu-auto-update: security-only update =='; "
          ++ (prefix
              ++ (apt_noninteractive
                  ++ (codes "update && " ++ (prefix ++ codes "unattended-upgrade -v")))))
    else codes "set -o pipefail; "
      ++ (codes "echo '== ubuntu-auto-update: update =='; "
          ++ (prefix
              ++ (apt_noninteractive
                  ++ (codes "update && " ++ (prefix ++ (apt_noninteractive ++ codes "upgrade"))))))

-- Whatever concurrency is asked for, between 1 and 20 sessions are open at once; it is what was
-- asked for, unless that is not positive or more than 20.
pub clamp_concurrency_bounds :
    (asked : ℤ)
    → (1 ≤ clamp_concurrency asked)
      × (clamp_concurrency asked ≤ 20)
      × ((clamp_concurrency asked ≡ to_ℕ asked) ⊎ ((to_ℕ asked ≡ 0) ⊎ (20 < to_ℕ asked)))
unfolding clamp_concurrency
clamp_concurrency_bounds (pos zero) = (ground arith, ground arith, inr (inl refl))
clamp_concurrency_bounds (pos (suc n)) = (
  ground arith,
  ground arith,
  elim (Bool-cases (ltb 20 (suc n))) [
    | inl more ↦ inr (inr (ltb→lt 20 (suc n) more))
    | inr fine ↦ inl (rw fine refl)
  ],
)
clamp_concurrency_bounds (negsuc n) = (ground arith, ground arith, inr (inl refl))

pub clamp_canary-le : (asked : ℤ) (total : ℕ) → clamp_canary asked total ≤ total
unfolding clamp_canary
clamp_canary-le asked total = ground arith

-- A canary wave stops the rollout exactly when the threshold is a percentage from 1 to 100 and the
-- failed share, taken exactly, reaches it.
pub should_abort_iff :
    (threshold : ℤ) (failed total : ℕ)
    → 0 < total
    → (should_abort threshold (percent failed total) ≡ true)
      ↔ ((1 ≤ to_ℕ threshold) × (to_ℕ threshold ≤ 100) × (to_ℕ threshold * total ≤ failed * 100))
unfolding should_abort percent
should_abort_iff (negsuc n) failed total h = (λ e. ground arith, λ e. absurd (omega arith))
should_abort_iff (pos zero) failed total h = (λ e. ground arith, λ e. absurd (omega arith))
should_abort_iff (pos (suc n)) failed total h =
    let (share, exact) = le-div_iff_mul-le {k = total} {x = suc n} {y = failed * 100} h in
    (λ e. ground (arith, share), λ (lo, hi, e). ground (arith, exact e))
