-- ===== src/Scheduler/Window.antt =====
-- The maintenance window against its description by days.
use ubuntu_auto_update.Base.{
  ℕ, suc, ◌+◌, ◌-◌, ◌*◌, ◌/◌, ◌%◌, ◌≤◌, ◌<◌, ◌≡◌, ◌↔◌, inl, inr, refl, sym, ap, ◌∙◌, Bool, true,
  false, ◌&&◌, some, arith, ltb, leb, if◌then◌else◌, Bool-cases, ltb→lt, lt→ltb, leb→le,
}
use ubuntu_auto_update.Scheduler.Defs.{
  Schedule, day_seconds, weekday, minute_of_day, is_day, in_window_at, in_window,
}

-- Minutes for which a window is open; one that wraps midnight runs into the next day.
abbrev pub window_length : ℕ → ℕ → ℕ
window_length start end = if leb start end then end - start else 1440 - start + end

-- Day `d` (0 is the first day of the epoch) is one of the days of the window.
abbrev pub opens_on : ℕ → ℕ → Bool
opens_on days d = is_day days ((d + 4) % 7)

-- `now` lies in the window that opened on day `d`.
pub record IsOpenFrom (days start end now d : ℕ) : Type 0 where
  pub allowed : opens_on days d ≡ true
  pub after : d * 86400 + start * 60 ≤ now
  pub before : now < d * 86400 + start * 60 + window_length start end * 60

pub both : (a b : Bool) → (a && b) ≡ true → (a ≡ true) × (b ≡ true)
both true b h = (refl, h)
both false b h = cc

le→leb : (a b : ℕ) → a ≤ b → leb a b ≡ true
le→leb a b h = ground arith

leb-false : (a b : ℕ) → leb a b ≡ false → b < a
leb-false a b h = ground arith

pub ltb-false : (a b : ℕ) → ltb a b ≡ false → b ≤ a
ltb-false a b h = ground arith

module _ (days start end now : ℕ) (start_lt : start < 1440) (end_lt : end < 1440)
    (second_day : 86400 ≤ now) where
  minutes :
      (now / 86400) * 86400 + minute_of_day now * 60 ≤ now
      × (now < (now / 86400) * 86400 + minute_of_day now * 60 + 60)
  unfolding minute_of_day
  minutes = (omega arith, omega arith)

  same_day : weekday now ≡ (now / 86400 + 4) % 7
  unfolding weekday
  same_day = refl

  day_before : (d : ℕ) → suc d ≡ now / 86400 → weekday (now - day_seconds) ≡ (d + 4) % 7
  unfolding weekday
  day_before d e =
      let back : (now - 86400) / 86400 ≡ d = omega (arith, e, second_day) in
      ap (λ x. (x + 4) % 7) back

  open_today :
      is_day days (weekday now) ≡ true
      → start ≤ minute_of_day now
      → minute_of_day now < start + window_length start end
      → IsOpenFrom days start end now (now / 86400)
  unfolding weekday
  open_today allowed lo hi = record {
    allowed = allowed;
    after = let (low, _) = minutes in omega (arith, low, lo);
    before = let (_, high) = minutes in omega (arith, high, hi);
  }

  open_yesterday :
      is_day days (weekday (now - day_seconds)) ≡ true
      → minute_of_day now < end
      → window_length start end ≡ 1440 - start + end
      → IsOpenFrom days start end now (now / 86400 - 1)
  open_yesterday allowed hi long = record {
    allowed =
        let first : suc (now / 86400 - 1) ≡ now / 86400 = omega (arith, second_day) in
        sym (ap (λ x. is_day days x) (day_before (now / 86400 - 1) first)) ∙ allowed;
    after = let (low, _) = minutes in omega (arith, low, second_day, start_lt);
    before = let (_, high) = minutes in omega (arith, high, hi, long, start_lt, second_day);
  }

  length_plain : leb start end ≡ true → window_length start end ≡ end - start
  length_plain e = rw e refl

  length_wrap : leb start end ≡ false → window_length start end ≡ 1440 - start + end
  length_wrap e = rw e refl

  open_from : in_window_at days start end now ≡ true → (d : ℕ) × IsOpenFrom days start end now d
  open_from h = elim (Bool-cases (leb start end)) [
    | inl plain ↦
        let h' : (is_day days (weekday now)
              && (leb start (minute_of_day now) && ltb (minute_of_day now) end))
            ≡ true =
          sym (rw plain refl) ∙ h in
        let (allowed, times) = both _ _ h' in
        let (lo, hi) = both _ _ times in
        let len = length_plain plain in
        (
          now / 86400,
          open_today allowed (leb→le _ _ lo)
              (let lt = ltb→lt _ _ hi in let le = leb→le _ _ plain in omega (arith, lt, le, len)),
        )
    | inr wraps ↦ elim (Bool-cases (leb start (minute_of_day now))) [
      | inl late ↦
          let allowed : is_day days (weekday now) ≡ true = sym (rw (wraps, late) refl) ∙ h in
          let len = length_wrap wraps in
          (
            now / 86400,
            open_today allowed (leb→le _ _ late) (
                let below : minute_of_day now < 1440 = unfold minute_of_day in omega arith in
                omega (arith, below, len, start_lt)),
          )
      | inr early ↦ elim (Bool-cases (ltb (minute_of_day now) end)) [
        | inl inside ↦
            let allowed : is_day days (weekday (now - day_seconds)) ≡ true =
              sym (rw (wraps, early, inside) refl) ∙ h in
            (now / 86400 - 1, open_yesterday allowed (ltb→lt _ _ inside) (length_wrap wraps))
        | inr outside ↦ let no : false ≡ true = sym (rw (wraps, early, outside) refl) ∙ h in cc
      ]
    ]
  ]

  allowed_today :
      (d : ℕ) → d ≡ now / 86400 → opens_on days d ≡ true → is_day days (weekday now) ≡ true
  unfolding weekday
  allowed_today d e h = ap (λ x. is_day days ((x + 4) % 7)) (sym e) ∙ h

  is_open : (d : ℕ) → IsOpenFrom days start end now d → in_window_at days start end now ≡ true
  is_open d o = elim (Bool-cases (leb start end)) [
    | inl plain ↦
        let le = leb→le _ _ plain in
        let len = length_plain plain in
        let today : d ≡ now / 86400 = omega (arith, o.after, o.before, len, le, end_lt) in
        let (low, high) = minutes in
        let lo : leb start (minute_of_day now) ≡ true =
          le→leb _ _ (omega (arith, today, low, high, o.after)) in
        let hi : ltb (minute_of_day now) end ≡ true =
          lt→ltb _ _ (omega (arith, today, low, high, o.before, len, le)) in
        rw (plain, allowed_today d today o.allowed, lo, hi) refl
    | inr wraps ↦
        let gt = leb-false _ _ wraps in
        let len = length_wrap wraps in
        let (low, high) = minutes in
        elim (Bool-cases (leb start (minute_of_day now))) [
          | inl late ↦
              let from = leb→le _ _ late in
              let today : d ≡ now / 86400 =
                omega (arith, o.after, o.before, len, gt, start_lt, low, high, from) in
              rw (wraps, late, allowed_today d today o.allowed) refl
          | inr early ↦
              let until = leb-false _ _ early in
              let yesterday : suc d ≡ now / 86400 =
                omega (arith, o.after, o.before, len, gt, start_lt, low, high, until) in
              let inside : ltb (minute_of_day now) end ≡ true =
                lt→ltb _ _ (omega (arith, yesterday, o.before, len, start_lt, low, high)) in
              let allowed : is_day days (weekday (now - day_seconds)) ≡ true =
                ap (λ x. is_day days x) (day_before d yesterday) ∙ o.allowed in
              rw (wraps, early, inside, allowed) refl
        ]
  ]

-- From the second day of the epoch on, a schedule with a window, both ends within a day, is in its
-- window exactly when the window opened on some allowed day at the start minute and has not been
-- open for its length yet; a window whose start is after its end runs into the next day and counts
-- for the day on which it opened.
pub in_window_iff :
    (s : Schedule) (start end now : ℕ)
    → s.window_start_minute ≡ some start
    → s.window_end_minute ≡ some end
    → start < 1440
    → end < 1440
    → 86400 ≤ now
    → (in_window s now ≡ true) ↔ ((d : ℕ) × IsOpenFrom s.window_days start end now d)
unfolding in_window
in_window_iff s start end now at_start at_end start_lt end_lt later =
    rw (at_start, at_end)
      (
        (λ h. open_from s.window_days start end now start_lt end_lt later h),
        (λ (d, o). is_open s.window_days start end now start_lt end_lt later d o),
      )
