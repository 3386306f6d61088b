-- ===== src/Scheduler/Fire.antt =====
-- What Tick asks of the coordinator, and when a deferred schedule comes up again.
use ubuntu_auto_update.Base.{
  ℕ, suc, ◌≤◌, ◌<◌, ◌≡◌, refl, sym, ◌⊎◌, inl, inr, ◌≢◌, subst, Bool, true, false, List, [], ◌∷◌,
  Option, none, some, All, All-append, arith, length, Result, ok, codes, ◌++◌, err, Error,
}
use ubuntu_auto_update.Runs.{playbook}
use ubuntu_auto_update.Playbooks.Store.{Playbook}
use ubuntu_auto_update.Updater.Options.{BulkRunOptions}
use ubuntu_auto_update.Scheduler.Defs.{
  Schedule, Schedules, in_window, next_window_start, base_options, playbook_options, FireWorld,
  deferred, loaded, fire_options, in_time, with_hosts, fire_one, starts_of, fire_all, claim_due,
  claimed, tick, is_day,
}
use ubuntu_auto_update.Scheduler.Window.{window_length, in_window_iff}
use ubuntu_auto_update.Scheduler.Next.{IsNextOpening, next_window_start-IsNextOpening}

-- What a run does: the update, or the steps of the playbook as they are loaded.
abbrev pub IsWorkOf : (ℕ → Result Error Playbook) → Option ℕ → BulkRunOptions → Type 0
IsWorkOf load none o =
    (o.kind ≡ none) × (o.playbook_id ≡ none) × (o.steps ≡ []) × (o.use_sudo ≡ false)
IsWorkOf load (some i) o =
    (p : Playbook) × (load i ≡ ok p)
    × (o.kind ≡ some playbook)
    × (o.playbook_id ≡ some i)
    × (o.steps ≡ p.steps)
    × (o.use_sudo ≡ p.use_sudo)

-- `o` is what the schedule `s` asks for, inside its window.
pub record IsAsked (w : FireWorld) (now : ℕ) (s : Schedule) (o : BulkRunOptions) : Type 0 where
  pub inside : in_window s now ≡ true
  pub some_host : 0 < length s.host_ids
  pub hosts : o.host_ids ≡ s.host_ids
  pub by : o.triggered_by ≡ codes "schedule:" ++ s.name
  pub concurrency : o.concurrency ≡ s.concurrency
  pub canary_count : o.canary_count ≡ s.canary_count
  pub canary_wait : o.canary_wait_seconds ≡ s.canary_wait_seconds
  pub abort_pct : o.abort_on_failure_pct ≡ s.abort_on_failure_pct
  pub security_only : o.security_only ≡ s.security_only
  pub no_reboot : o.reboot ≡ false
  pub work : IsWorkOf w.load s.playbook_id o

-- `o` is what one of the schedules asks for, the k-th of them in the world `w k`.
abbrev pub AskedBy : (ℕ → FireWorld) → ℕ → ℕ → List Schedule → BulkRunOptions → Type 0
AskedBy w k now [] o = ⊥
AskedBy w k now (s ∷ ss) o = IsAsked (w k) now s o ⊎ AskedBy w (suc k) now ss o

asked :
    (w : FireWorld) (now : ℕ) (s : Schedule) (o : BulkRunOptions)
    → in_window s now ≡ true
    → 0 < length s.host_ids
    → o.host_ids ≡ s.host_ids
    → o.triggered_by ≡ codes "schedule:" ++ s.name
    → o.concurrency ≡ s.concurrency
    → o.canary_count ≡ s.canary_count
    → o.canary_wait_seconds ≡ s.canary_wait_seconds
    → o.abort_on_failure_pct ≡ s.abort_on_failure_pct
    → o.security_only ≡ s.security_only
    → o.reboot ≡ false
    → IsWorkOf w.load s.playbook_id o
    → IsAsked w now s o
asked w now s o a b c d e f g h i j k = record {
  inside = a;
  some_host = b;
  hosts = c;
  by = d;
  concurrency = e;
  canary_count = f;
  canary_wait = g;
  abort_pct = h;
  security_only = i;
  no_reboot = j;
  work = k;
}

fire_options-IsAsked :
    (w : FireWorld) (now : ℕ) (s : Schedule) (i : Option ℕ)
    → i ≡ s.playbook_id
    → in_window s now ≡ true
    → 0 < length s.host_ids
    → All (IsAsked w now s) (starts_of (fire_options w s i))
unfolding base_options playbook_options
fire_options-IsAsked w now s none e open_now some_host = (
  asked w now s _ open_now some_host refl refl refl refl refl refl refl refl
      (subst (λ x. IsWorkOf w.load x (base_options s)) e (refl, refl, refl, refl)),
  tt,
)
fire_options-IsAsked w now s (some i) e open_now some_host = by_load (w.load i) refl
  where
    by_load :
        (r : Result Error Playbook)
        → w.load i ≡ r
        → All (IsAsked w now s) (starts_of (loaded s i r))
    by_load (err x) at_load = tt
    by_load (ok p) at_load = (
      asked w now s _ open_now some_host refl refl refl refl refl refl refl refl (
          subst (λ x. IsWorkOf w.load x (playbook_options s i p)) e
            (p, at_load, refl, refl, refl, refl)),
      tt,
    )

fire_one-IsAsked :
    (w : FireWorld) (now : ℕ) (s : Schedule) → All (IsAsked w now s) (starts_of (fire_one w now s))
unfolding fire_one
fire_one-IsAsked w now s = by_hosts s.host_ids refl
  where
    by_window :
        (b : Bool)
        → b ≡ in_window s now
        → 0 < length s.host_ids
        → All (IsAsked w now s) (starts_of (in_time w now s b))
    by_window true e some_host = fire_options-IsAsked w now s s.playbook_id refl (sym e) some_host
    by_window false e some_host = tt

    by_hosts :
        (hs : List ℕ) → hs ≡ s.host_ids → All (IsAsked w now s) (starts_of (with_hosts w now s hs))
    by_hosts [] e = tt
    by_hosts (h ∷ hs) e =
        by_window (in_window s now) refl (subst (λ l. 0 < length l) e (omega arith))

here :
    (w : ℕ → FireWorld) (k now : ℕ) (s : Schedule) (ss : List Schedule) (os : List BulkRunOptions)
    → All (IsAsked (w k) now s) os
    → All (AskedBy w k now (s ∷ ss)) os
here w k now s ss [] h = tt
here w k now s ss (o ∷ os) (mine, h) = (inl mine, here w k now s ss os h)

widen :
    (w : ℕ → FireWorld) (k now : ℕ) (s : Schedule) (ss : List Schedule) (os : List BulkRunOptions)
    → All (AskedBy w (suc k) now ss) os
    → All (AskedBy w k now (s ∷ ss)) os
widen w k now s ss [] h = tt
widen w k now s ss (o ∷ os) (later, h) = (inr later, widen w k now s ss os h)

fire_all-AskedBy :
    (w : ℕ → FireWorld) (k now : ℕ) (due rows : List Schedule)
    → All (AskedBy w k now due) (fire_all w k now due rows).0
unfolding fire_all
fire_all-AskedBy w k now [] rows = tt
fire_all-AskedBy w k now (s ∷ due) rows =
    All-append (AskedBy w k now (s ∷ due)) (starts_of (fire_one (w k) now s)) _
      (here w k now s due _ (fire_one-IsAsked (w k) now s))
      (widen w k now s due _ (fire_all-AskedBy w (suc k) now due _))

-- When the claim reaches the table, and whatever the faults after it, each bulk run that a tick
-- starts is asked for by one of the claimed schedules that has hosts and is inside its maintenance
-- window: it is for the hosts of that schedule, with its concurrency, canary, abort and security
-- settings and its name, never a reboot, and either the update, for a schedule without a playbook,
-- or the steps and the sudo setting of its playbook as the tick loads it.
pub tick-AskedBy :
    (claim_time now : ℕ) (w : ℕ → FireWorld) (t : Schedules)
    → All (AskedBy w 0 now (claimed claim_time t.rows)) (tick none claim_time now w t).0
unfolding tick claim_due
tick-AskedBy claim_time now w t = fire_all-AskedBy w 0 now (claimed claim_time t.rows) _

-- From the second day of the epoch on, a claimed schedule with hosts that is outside its window is
-- not started but put off to a moment after `now` at which it is inside its window, and there is no
-- earlier opening, when the window starts and ends within a day at different minutes and has an
-- allowed weekday.
pub fire_one_defers :
    (w : FireWorld) (now start end d : ℕ) (s : Schedule)
    → s.window_start_minute ≡ some start
    → s.window_end_minute ≡ some end
    → start < 1440
    → end < 1440
    → start ≢ end
    → 86400 ≤ now
    → d < 7
    → is_day s.window_days d ≡ true
    → 0 < length s.host_ids
    → in_window s now ≡ false
    → (fire_one w now s ≡ deferred (next_window_start s now))
      × (in_window s (next_window_start s now) ≡ true)
      × IsNextOpening s.window_days start now (next_window_start s now)
unfolding fire_one
fire_one_defers w now start end d s at_start at_end start_lt end_lt differ later d_lt allowed
      some_host closed =
    (
      by_hosts s.host_ids some_host,
      (in_window_iff s start end next at_start at_end start_lt end_lt
            (omega (arith, n.later, later))).1
          (
            n.day,
            record {
              allowed = n.allowed;
              after = omega (arith, n.at_start);
              before = let some_time = positive in omega (arith, n.at_start, some_time);
            },
          ),
      n,
    )
  where
    next : ℕ
    next = next_window_start s now

    n : IsNextOpening s.window_days start now next
    n = next_window_start-IsNextOpening s start now d at_start start_lt d_lt allowed

    positive : 0 < window_length start end
    positive = ground (arith, differ, start_lt)

    by_hosts :
        (hs : List ℕ) → 0 < length hs → with_hosts w now s hs ≡ deferred (next_window_start s now)
    by_hosts [] h = absurd (omega (arith, h))
    by_hosts (x ∷ hs) h = rw closed refl
