-- ===== src/Scheduler/Next.antt =====
-- NextWindowStart finds the first opening after a moment.
use ubuntu_auto_update.Base.{
  ℕ, zero, suc, ◌+◌, ◌-◌, ◌*◌, ◌/◌, ◌%◌, ◌≤◌, ◌<◌, ◌≡◌, ◌⊎◌, inl, inr, refl, sym, ap, ◌∙◌, subst,
  true, false, some, arith, ltb, Bool-cases, ltb→lt, lt→ltb,
}
use ubuntu_auto_update.Scheduler.Defs.{
  Schedule, weekday, is_day, opening, is_opening, next_opening, next_window_start,
}
use ubuntu_auto_update.Scheduler.Window.{opens_on, both, ltb-false}

-- The days from `i` on, of which `n` are tried.
pub record Finds (days start now n i r : ℕ) : Type 0 where
  pub day : ℕ
  pub at_day : is_opening days start now day ≡ true
  pub result : r ≡ opening start now day
  pub earliest : (k : ℕ) → i ≤ k → k < day → is_opening days start now k ≡ false

scan :
    (days start now n i : ℕ)
    → Finds days start now n i (next_opening days start now n i)
      ⊎ ((k : ℕ) → i ≤ k → k < i + n → is_opening days start now k ≡ false)
unfolding next_opening
scan days start now zero i = inr (λ k lo hi. absurd (omega (arith, lo, hi)))
scan days start now (suc n) i = elim (Bool-cases (is_opening days start now i)) [
  | inl here ↦ inl (record {
    day = i;
    at_day = here;
    result = rw here refl;
    earliest = λ k lo hi. absurd (omega (arith, lo, hi));
  })
  | inr miss ↦ elim (scan days start now n (suc i)) [
    | inl f ↦ inl (record {
      day = f.day;
      at_day = f.at_day;
      result = rw miss f.result;
      earliest = λ k lo hi. elim (Bool-cases (ltb i k)) [
        | inl later ↦ f.earliest k (let lt = ltb→lt _ _ later in omega (arith, lt)) hi
        | inr first ↦ subst (λ x. is_opening days start now x ≡ false) (same k lo first) miss
      ];
    })
    | inr f ↦ inr (λ k lo hi. elim (Bool-cases (ltb i k)) [
      | inl later ↦ f k (let lt = ltb→lt _ _ later in omega (arith, lt)) (omega (arith, hi))
      | inr first ↦ subst (λ x. is_opening days start now x ≡ false) (same k lo first) miss
    ])
  ]
]
  where
    same : (k : ℕ) → i ≤ k → ltb i k ≡ false → i ≡ k
    same k lo first = ground arith

-- The opening on day `d`.
abbrev pub opens_at : ℕ → ℕ → ℕ
opens_at start d = d * 86400 + start * 60

module _ (days start now : ℕ) (start_lt : start < 1440) where
  weekday-opening : (i : ℕ) → weekday (opening start now i) ≡ (now / 86400 + i + 4) % 7
  unfolding weekday
  weekday-opening i =
      let day : ((now / 86400 + i) * 86400 + start * 60) / 86400 ≡ now / 86400 + i =
        omega (arith, start_lt) in
      ap (λ x. (x + 4) % 7) day

  -- An allowed opening after `now` is one of the candidates.
  is_opening_of :
      (i : ℕ)
      → opens_on days (now / 86400 + i) ≡ true
      → now < opens_at start (now / 86400 + i)
      → is_opening days start now i ≡ true
  is_opening_of i allowed later =
      rw (lt→ltb now (opening start now i) later, weekday-opening i, allowed) refl

  opens_on_of :
      (i : ℕ) → is_opening days start now i ≡ true → opens_on days (now / 86400 + i) ≡ true
  opens_on_of i h =
      let (_, allowed) = both _ _ h in ap (λ x. is_day days x) (sym (weekday-opening i)) ∙ allowed

  -- Some day of the next week is allowed.
  within_week :
      (d : ℕ)
      → d < 7
      → is_day days d ≡ true
      → (i : ℕ) × ((1 ≤ i) × ((i < 8) × (opens_on days (now / 86400 + i) ≡ true)))
  within_week d lt h =
      let i = suc ((d + 6 + 7 - (now / 86400 + 4) % 7) % 7) in
      let on : (now / 86400 + i + 4) % 7 ≡ d = omega (arith, lt) in
      (i, (omega arith, (omega arith, ap (λ x. is_day days x) on ∙ h)))

-- What NextWindowStart promises.
pub record IsNextOpening (days start now r : ℕ) : Type 0 where
  pub later : now < r
  pub day : ℕ
  pub allowed : opens_on days day ≡ true
  pub at_start : r ≡ opens_at start day
  pub earliest : (d : ℕ) → opens_on days d ≡ true → now < opens_at start d → r ≤ opens_at start d

-- When some weekday is allowed and the window starts within a day, NextWindowStart is the earliest
-- opening of the window after `now`: the fallback of one day is never taken.
pub next_window_start-IsNextOpening :
    (s : Schedule) (start now d : ℕ)
    → s.window_start_minute ≡ some start
    → start < 1440
    → d < 7
    → is_day s.window_days d ≡ true
    → IsNextOpening s.window_days start now (next_window_start s now)
unfolding next_window_start
next_window_start-IsNextOpening s start now d at_start start_lt d_lt allowed =
    rw at_start (by_scan (scan s.window_days start now 8 0))
  where
    days : ℕ
    days = s.window_days

    by_scan :
        Finds days start now 8 0 (next_opening days start now 8 0)
          ⊎ ((k : ℕ) → 0 ≤ k → k < 0 + 8 → is_opening days start now k ≡ false)
        → IsNextOpening days start now (next_opening days start now 8 0)
    by_scan (inr none_found) =
        let (i, (lo, (hi, on))) = within_week days start now start_lt d d_lt allowed in
        let yes = is_opening_of days start now start_lt i on (omega (arith, lo)) in
        let no = none_found i (omega arith) (omega (arith, hi)) in
        let clash : true ≡ false = sym yes ∙ no in cc
    by_scan (inl f) = record {
      later = let (after, _) = both _ _ f.at_day in let lt = ltb→lt _ _ after in rw f.result lt;
      day = now / 86400 + f.day;
      allowed = opens_on_of days start now start_lt f.day f.at_day;
      at_start = f.result;
      earliest = λ d' on later. elim (Bool-cases (ltb d' (now / 86400 + f.day))) [
        | inl sooner ↦ absurd (missed d' on later (ltb→lt _ _ sooner))
        | inr not_sooner ↦ rw f.result (not_before d' not_sooner)
      ];
    }
      where
        not_before :
            (d' : ℕ)
            → ltb d' (now / 86400 + f.day) ≡ false
            → opening start now f.day ≤ opens_at start d'
        not_before d' h = let le = ltb-false _ _ h in omega (arith, le)

        missed :
            (d' : ℕ)
            → opens_on days d' ≡ true
            → now < opens_at start d'
            → d' < now / 86400 + f.day
            → ⊥
        missed d' on later sooner =
            let k = d' - now / 86400 in
            let from_today : now / 86400 ≤ d' = omega (arith, later, start_lt) in
            let same : d' ≡ now / 86400 + k = omega (arith, from_today) in
            let yes =
              is_opening_of days start now start_lt k (subst (λ x. opens_on days x ≡ true) same on)
                (subst (λ x. now < opens_at start x) same later) in
            let no = f.earliest k (omega arith) (omega (arith, sooner, from_today)) in
            let clash : true ≡ false = sym yes ∙ no in cc
