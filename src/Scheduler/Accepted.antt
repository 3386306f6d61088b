-- ===== src/Scheduler/Accepted.antt =====
-- A schedule that the API accepts meets what the tick relies on.
use ubuntu_auto_update.Base.{
  ℕ, ◌/◌, ◌%◌, ◌^◌, ◌≤◌, ◌<◌, ◌≡◌, ◌≢◌, ◌⊎◌, inl, inr, refl, sym, ap, subst, Bool, true, false,
  ◌||◌, List, [], ◌∷◌, Option, none, some, Text, arith, length, ltb, ◌==◌, if◌then◌else◌,
  Bool-cases, All, Result, ok, err, Error,
}
use ubuntu_auto_update.Base.Int.{ℤ, pos, negsuc, to_ℕ}
use ubuntu_auto_update.Playbooks.Store.{Playbook}
use ubuntu_auto_update.Scheduler.Defs.{Schedule, Schedules, CreateOptions, create_schedule, is_day}
use ubuntu_auto_update.Scheduler.Request.{
  CreateRequest, Refusal, refuse_if, is_outside, same_int, differ, is_set, refuse_each, field_cases,
  check_window, check_create, minute, options_of, CreateWorld, user_or_unknown, created, insert,
  with_playbook, lookup, checked, handle_create_schedule,
}

-- What the window theorems and the claim ask of a schedule.
pub record IsSane (s : Schedule) : Type 0 where
  pub interval : 5 ≤ s.interval_minutes
  pub hosts : 0 < length s.host_ids
  pub window :
      ((s.window_start_minute ≡ none) × (s.window_end_minute ≡ none))
      ⊎ ((start : ℕ) × ((end : ℕ) × ((d : ℕ) × ((s.window_start_minute ≡ some start)
                × (s.window_end_minute ≡ some end)
                × (start < 1440)
                × (end < 1440)
                × (start ≢ end)
                × (d < 7)
                × (is_day s.window_days d ≡ true)))))

refuse_if-none :
    (b : Bool) (text : Text) (rest : Option Refusal)
    → refuse_if b text rest ≡ none
    → (b ≡ false) × (rest ≡ none)
refuse_if-none true text rest h = cc
refuse_if-none false text rest h = (refl, h)

no_bit : (m d : ℕ) → is_day m d ≡ false → (m / 2 ^ d) % 2 ≡ 0
unfolding is_day
no_bit m d h = ground arith

-- A mask from 1 to 127 has one of its seven bits.
some_day : (m : ℕ) → 1 ≤ m → m ≤ 127 → (d : ℕ) × ((d < 7) × (is_day m d ≡ true))
some_day m lo hi = elim (Bool-cases (is_day m 0)) [
  | inl h ↦ (0, (omega arith, h))
  | inr b0 ↦ elim (Bool-cases (is_day m 1)) [
    | inl h ↦ (1, (omega arith, h))
    | inr b1 ↦ elim (Bool-cases (is_day m 2)) [
      | inl h ↦ (2, (omega arith, h))
      | inr b2 ↦ elim (Bool-cases (is_day m 3)) [
        | inl h ↦ (3, (omega arith, h))
        | inr b3 ↦ elim (Bool-cases (is_day m 4)) [
          | inl h ↦ (4, (omega arith, h))
          | inr b4 ↦ elim (Bool-cases (is_day m 5)) [
            | inl h ↦ (5, (omega arith, h))
            | inr b5 ↦ elim (Bool-cases (is_day m 6)) [
              | inl h ↦ (6, (omega arith, h))
              | inr b6 ↦
                  let z0 : (m / 1) % 2 ≡ 0 = no_bit m 0 b0 in
                  let z1 : (m / 2) % 2 ≡ 0 = no_bit m 1 b1 in
                  let z2 : (m / 4) % 2 ≡ 0 = no_bit m 2 b2 in
                  let z3 : (m / 8) % 2 ≡ 0 = no_bit m 3 b3 in
                  let z4 : (m / 16) % 2 ≡ 0 = no_bit m 4 b4 in
                  let z5 : (m / 32) % 2 ≡ 0 = no_bit m 5 b5 in
                  let z6 : (m / 64) % 2 ≡ 0 = no_bit m 6 b6 in
                  absurd (omega (arith, lo, hi, z0, z1, z2, z3, z4, z5, z6))
            ]
          ]
        ]
      ]
    ]
  ]
]

both_false : (a b : Bool) → (a || b) ≡ false → (a ≡ false) × (b ≡ false)
both_false true b h = cc
both_false false b h = (refl, h)

inside : (hi : ℕ) (x : ℤ) → is_outside hi x ≡ false → to_ℕ x ≤ hi
inside hi (pos n) h = ground arith
inside hi (negsuc n) h = cc

apart :
    (hi : ℕ) (x y : ℤ)
    → is_outside hi x ≡ false
    → is_outside hi y ≡ false
    → same_int x y ≡ false
    → to_ℕ x ≢ to_ℕ y
apart hi (pos a) (pos b) hx hy h e = ground arith
apart hi (pos a) (negsuc b) hx hy h e = let no : true ≡ false = hy in cc
apart hi (negsuc a) y hx hy h e = let no : true ≡ false = hx in cc

nonzero : (hi : ℕ) (x : ℤ) → is_outside hi x ≡ false → same_int x (pos 0) ≡ false → 1 ≤ to_ℕ x
nonzero hi (pos n) hx h = ground arith
nonzero hi (negsuc n) hx h = let no : true ≡ false = hx in cc

abbrev pub Window : Option ℕ → Option ℕ → ℕ → Type 0
Window from until days =
    ((from ≡ none) × (until ≡ none))
    ⊎ ((start : ℕ) × ((end : ℕ) × ((d : ℕ) × ((from ≡ some start)
              × (until ≡ some end)
              × (start < 1440)
              × (end < 1440)
              × (start ≢ end)
              × (d < 7)
              × (is_day days d ≡ true)))))

check_window-Window :
    (from until : Option ℤ) (days : ℤ) (rest : Option Refusal)
    → differ (is_set from) (is_set until) ≡ false
    → is_outside 127 days ≡ false
    → check_window from until days rest ≡ none
    → Window (minute from) (minute until) (if to_ℕ days == 0 then 127 else to_ℕ days)
unfolding check_window
check_window-Window none none days rest together mask h = inl (refl, refl)
check_window-Window none (some e) days rest together mask h = cc
check_window-Window (some s) none days rest together mask h = cc
check_window-Window (some s) (some e) days rest together mask h =
    let (bounds, more) = refuse_if-none _ _ _ h in
    let (some_day_set, _) = refuse_if-none _ _ _ more in
    let (s_in, others) = both_false _ _ bounds in
    let (e_in, distinct) = both_false _ _ others in
    let positive = nonzero 127 days mask some_day_set in
    let (d, (d_lt, on)) = some_day (to_ℕ days) positive (inside 127 days mask) in
    let kept : (if to_ℕ days == 0 then 127 else to_ℕ days) ≡ to_ℕ days = ground (arith, positive) in
    inr (
      to_ℕ s,
      (
        to_ℕ e,
        (
          d,
          (
            refl,
            refl,
            omega (arith, inside 1439 s s_in),
            omega (arith, inside 1439 e e_in),
            apart 1439 s e s_in e_in distinct,
            d_lt,
            rw kept on,
          ),
        ),
      ),
    )

-- The fields that pass the checks.
pub record Passes (r : CreateRequest) : Type 0 where
  pub hosts : 0 < length r.host_ids
  pub interval : 5 ≤ to_ℕ r.interval_minutes
  pub window :
      Window
        (minute r.window_start_minute)
        (minute r.window_end_minute)
        (if to_ℕ r.window_days == 0 then 127 else to_ℕ r.window_days)

refuse_each-none :
    (cases : List (Bool × Text)) (rest : Option Refusal)
    → refuse_each cases rest ≡ none
    → All (λ c. c.0 ≡ false) cases × (rest ≡ none)
refuse_each-none [] rest h = (tt, h)
refuse_each-none ((b, text) ∷ cases) rest h =
    let (here, more) = refuse_if-none b text (refuse_each cases rest) h in
    let (others, last) = refuse_each-none cases rest more in ((here, others), last)

check_create-Passes : (r : CreateRequest) → check_create r ≡ none → Passes r
unfolding check_create field_cases
check_create-Passes r h =
    let ((_, (hosts, (interval, (_, (_, (_, (together, (mask, _)))))))), rest) =
      refuse_each-none (field_cases r) _ h in
    record {
      hosts = positive (length r.host_ids) hosts;
      interval = enough (to_ℕ r.interval_minutes) interval;
      window =
          check_window-Window r.window_start_minute r.window_end_minute r.window_days _ together
            mask rest;
    }
  where
    positive : (n : ℕ) → (n == 0) ≡ false → 0 < n
    positive n e = ground arith

    enough : (n : ℕ) → ltb n 5 ≡ false → 5 ≤ n
    enough n e = ground arith

abbrev the_ok : Schedule → Result Refusal Schedule
the_ok s = ok s

ok_inj : (s s' : Schedule) → (the_ok s) ≡ ok s' → s ≡ s'
ok_inj s s' h = ap (λ x. elim x [ ok y ↦ y | err e ↦ s ]) h

insert-IsSane :
    (w : CreateWorld) (r : CreateRequest) (t t' : Schedules) (s : Schedule)
    → Passes r
    → insert w r t ≡ (ok s, t')
    → IsSane s
unfolding create_schedule options_of
insert-IsSane w r t t' s p h = by_fault w.create_fault h
  where
    o : CreateOptions
    o = options_of r (user_or_unknown w.user)

    by_fault : (f : Option Error) → created (create_schedule f w.now o t) ≡ (ok s, t') → IsSane s
    by_fault (some e) k = cc
    by_fault none k =
        let made = ok_inj _ s (ap (λ x. x.0) k) in
        subst IsSane made (record { interval = p.interval; hosts = p.hosts; window = p.window })

-- A schedule that POST /schedules creates has hosts and an interval of at least 5 minutes, and
-- either no window or one that starts and ends within a day, at different minutes, with an allowed
-- weekday.
pub handle_create_schedule-IsSane :
    (w : CreateWorld) (r : CreateRequest) (t t' : Schedules) (s : Schedule)
    → handle_create_schedule w r t ≡ (ok s, t')
    → IsSane s
unfolding handle_create_schedule
handle_create_schedule-IsSane w r t t' s h = by_check (check_create r) refl h
  where
    by_lookup :
        (o : Option (Result Error Playbook))
        → Passes r
        → with_playbook w r o t ≡ (ok s, t')
        → IsSane s
    by_lookup none p k = insert-IsSane w r t t' s p k
    by_lookup (some (ok x)) p k = insert-IsSane w r t t' s p k
    by_lookup (some (err e)) p k = cc

    by_check : (c : Option Refusal) → c ≡ check_create r → checked w r c t ≡ (ok s, t') → IsSane s
    by_check (some x) e k = cc
    by_check none e k = by_lookup (lookup w r.playbook_id) (check_create-Passes r (sym e)) k
