-- ===== src/Scheduler/Claim.antt =====
-- A due schedule is claimed once, and only while it is enabled.
use ubuntu_auto_update.Base.{
  ℕ, ◌+◌, ◌*◌, ◌≤◌, ◌≡◌, refl, ap, ◌⊎◌, inl, inr, true, false, List, [], ◌∷◌, none, All, arith,
  ◌==◌, Bool-cases, ok,
}
use ubuntu_auto_update.Scheduler.Defs.{
  Schedule, Schedules, is_due, claim_row, claim_rows, claimed, claim_due, switch_row,
}

-- The CHECK of the table, which asks for 5 minutes.
abbrev pub HasInterval : Schedule → Type 0
HasInterval s = 5 ≤ s.interval_minutes

-- What the statement returns of a row.
abbrev pub IsClaimed : ℕ → Schedule → Type 0
IsClaimed now s = (s.enabled ≡ true) × (s.next_run_at ≡ now + s.interval_minutes * 60)

due_enabled : (now : ℕ) (s : Schedule) → is_due now s ≡ true → s.enabled ≡ true
due_enabled now s h = ground arith

claim_row-is_due : (now : ℕ) (s : Schedule) → HasInterval s → is_due now (claim_row now s) ≡ false
unfolding claim_row
claim_row-is_due now s long = ground (arith, long)

claimed-IsClaimed : (now : ℕ) (ss : List Schedule) → All (IsClaimed now) (claimed now ss)
unfolding claimed claim_row
claimed-IsClaimed now [] = tt
claimed-IsClaimed now (s ∷ ss) = elim (Bool-cases (is_due now s)) [
  | inl due ↦ rw due ((due_enabled now s due, refl), claimed-IsClaimed now ss)
  | inr early ↦ rw early (claimed-IsClaimed now ss)
]

claimed-claim_rows :
    (now : ℕ) (ss : List Schedule) → All HasInterval ss → claimed now (claim_rows now ss) ≡ []
unfolding claimed claim_rows
claimed-claim_rows now [] h = refl
claimed-claim_rows now (s ∷ ss) (long, h) = elim (Bool-cases (is_due now s)) [
  | inl due ↦ rw (due, claim_row-is_due now s long) (claimed-claim_rows now ss h)
  | inr early ↦ rw (early, early) (claimed-claim_rows now ss h)
]

-- claimDue returns enabled schedules only, each moved to one interval from now however late it was,
-- and a second call at the same moment returns none, when all intervals are at least 5 minutes.
pub claim_due_once :
    (now : ℕ) (t : Schedules)
    → All HasInterval t.rows
    → let (due, t') = claim_due none now t in
      (due ≡ ok (claimed now t.rows))
      × All (IsClaimed now) (claimed now t.rows)
      × ((claim_due none now t').0 ≡ ok [])
unfolding claim_due
claim_due_once now t long =
    (refl, claimed-IsClaimed now t.rows, ap ok (claimed-claim_rows now t.rows long))

-- A schedule that SetEnabled switches on is not due at once, however long it was off, unless its
-- time is this very moment; its time never moves back.
pub switch_row-is_due :
    (now : ℕ) (s : Schedule)
    → HasInterval s
    → ((is_due now (switch_row true now s) ≡ false) ⊎ (s.next_run_at ≡ now))
      × (s.next_run_at ≤ (switch_row true now s).next_run_at)
unfolding switch_row
switch_row-is_due now s long = (by_time (Bool-cases (s.next_run_at == now)), ground (arith, long))
  where
    by_time :
        ((s.next_run_at == now) ≡ true) ⊎ ((s.next_run_at == now) ≡ false)
        → (is_due now (switch_row true now s) ≡ false) ⊎ (s.next_run_at ≡ now)
    by_time (inl e) = inr (ground arith)
    by_time (inr e) = inl (ground (arith, long))
