-- ===== src/Updater/Wave/Semaphore.antt =====
-- The weighted semaphore of runWave in backend/pkg/updater/bulk.go: who holds a unit of it.
use ubuntu_auto_update.Base.{
  ℕ, zero, suc, ◌≤◌, ◌≡◌, refl, sym, ◌∙◌, subst, inl, inr, Bool, List, [], ◌∷◌, ◌++◌, Option, none,
  some, arith, length, length-append, get_elem?, erase_idx, ltb, ltb→lt, Bool-cases, Error,
  some_inj,
}
use ubuntu_auto_update.Runs.{Runs}
use ubuntu_auto_update.Updater.Options.{BulkRunOptions}
use ubuntu_auto_update.Updater.Command.Defs.{MarkWorld, mark_failed}
use ubuntu_auto_update.Updater.Host.{HostWorld}
use ubuntu_auto_update.Updater.Wave.Defs.{
  Job, Wave, Move, acquire, cancel, finish, expire, start_wave, acquire_next, cancel_next,
  cancel_text, finish_job, wave_step, wave_run, and_then,
}

pub length-erase_idx-le : (xs : List Job) (k : ℕ) → length (erase_idx xs k) ≤ length xs
length-erase_idx-le [] k = omega arith
length-erase_idx-le (x ∷ xs) zero = omega arith
length-erase_idx-le (x ∷ xs) (suc k) = let ih = length-erase_idx-le xs k in omega (arith, ih)

-- At most `conc` hosts are connected.
abbrev IsWithin : ℕ → Wave → Type 0
IsWithin conc s = length s.active ≤ conc

module _ (opts : BulkRunOptions) (conc : ℕ) where
  acquire-IsWithin :
      (s u : Wave) (ps : List Job) → acquire_next conc s ps ≡ some u → IsWithin conc u
  acquire-IsWithin s u [] h = cc
  acquire-IsWithin s u (j ∷ rest) h = elim (Bool-cases (ltb (length s.active) conc)) [
    | inl room ↦
        let now : record s { active = s.active ++ j ∷ []; pending = rest } ≡ u =
          some_inj (sym (rw room refl) ∙ h) in
        let longer = length-append s.active (j ∷ []) in
        let lt = ltb→lt _ _ room in subst (IsWithin conc) now (omega (arith, longer, lt))
    | inr full ↦ let no : none ≡ some u = sym (rw full refl) ∙ h in cc
  ]

  cancel-IsWithin :
      (e : Error) (w : MarkWorld) (s u : Wave) (ps : List Job)
      → IsWithin conc s
      → cancel_next e w s ps ≡ some u
      → IsWithin conc u
  cancel-IsWithin e w s u [] v h = cc
  cancel-IsWithin e w s u (j ∷ rest) v h = elim (Bool-cases s.expired) [
    | inl over ↦
        let now : marked ≡ u = some_inj (sym (rw over refl) ∙ h) in subst (IsWithin conc) now v
    | inr live ↦ let no : none ≡ some u = sym (rw live refl) ∙ h in cc
  ]
    where
      marked : Wave
      marked = record s {
        pending = rest;
        failures = suc s.failures;
        table = mark_failed w j.run_id (cancel_text e) s.table;
      }

  finish-IsWithin :
      (w : HostWorld) (k : ℕ) (s u : Wave) (o : Option Job)
      → IsWithin conc s
      → finish_job opts w k s o ≡ some u
      → IsWithin conc u
  finish-IsWithin w k s u none v h = cc
  finish-IsWithin w k s u (some j) v h =
      let fewer = length-erase_idx-le s.active k in
      subst (IsWithin conc) (some_inj h) (omega (arith, fewer, v))

  wave_step-IsWithin :
      (m : Move) (s u : Wave) → IsWithin conc s → wave_step opts conc m s ≡ some u → IsWithin conc u
  unfolding wave_step
  wave_step-IsWithin acquire s u v h = acquire-IsWithin s u s.pending h
  wave_step-IsWithin (cancel e w) s u v h = cancel-IsWithin e w s u s.pending v h
  wave_step-IsWithin (finish k w) s u v h = finish-IsWithin w k s u (get_elem? s.active k) v h
  wave_step-IsWithin expire s u v h = subst (IsWithin conc) (some_inj h) v

  wave_run-IsWithin :
      (ms : List Move) (s u : Wave)
      → IsWithin conc s
      → wave_run opts conc ms s ≡ some u
      → IsWithin conc u
  unfolding wave_run
  wave_run-IsWithin [] s u v h = subst (IsWithin conc) (some_inj h) v
  wave_run-IsWithin (m ∷ ms) s u v h =
      by_step (λ x. wave_run-IsWithin ms x u) (wave_step opts conc m s) refl h
    where
      by_step :
          ((x : Wave) → IsWithin conc x → wave_run opts conc ms x ≡ some u → IsWithin conc u)
          → (o : Option Wave) → wave_step opts conc m s ≡ o
          → and_then o (wave_run opts conc ms) ≡ some u
          → IsWithin conc u
      by_step later none e k = cc
      by_step later (some x) e k = later x (wave_step-IsWithin m s x v e) k

-- At every moment of a wave at most `conc` hosts are connected, whatever the order in which they
-- start, end, are cancelled and the context expires, and whatever the hosts and the statements do.
pub wave_run_bounded :
    (opts : BulkRunOptions) (conc : ℕ) (over : Bool) (jobs : List Job) (t : Runs) (ms : List Move)
    (s : Wave)
    → wave_run opts conc ms (start_wave over jobs t) ≡ some s
    → length s.active ≤ conc
unfolding start_wave
wave_run_bounded opts conc over jobs t ms s h =
    wave_run-IsWithin opts conc ms (start_wave over jobs t) s (omega arith) h
