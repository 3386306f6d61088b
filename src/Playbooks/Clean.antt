-- ===== src/Playbooks/Clean.antt =====
-- cleanSteps against a description that does not loop: what is kept, and when it refuses.
use ubuntu_auto_update.Base.{
  either_false, ◌≤◌, ◌≡◌, refl, sym, ◌∙◌, All, subst, inl, inr, Bool, false, ◌||◌, List, [], ◌∷◌,
  Text, arith, length, ltb, if◌then◌else◌, Bool-cases, ok, err, is_empty, trim_space,
  trim_space_idem, byte_length,
}
use ubuntu_auto_update.Playbooks.Defs.{
  step_too_long, clean_loop, clean_steps, check_count, max_playbook_step_size,
}

-- The trimmed steps that are not blank.
abbrev pub kept : List Text → List Text
kept [] = []
kept (raw ∷ rest) = if is_empty (trim_space raw) then kept rest else trim_space raw ∷ kept rest

abbrev pub has_long : List Text → Bool
has_long [] = false
has_long (s ∷ rest) = ltb max_playbook_step_size (byte_length s) || has_long rest

clean_loop_lem :
    (raw : List Text)
    → clean_loop raw ≡ (if has_long (kept raw) then err step_too_long else ok (kept raw))
unfolding clean_loop
clean_loop_lem [] = refl
clean_loop_lem (r ∷ rest) = ground (arith, clean_loop_lem rest)

-- cleanSteps refuses a list exactly when a trimmed step is longer than 4096 bytes, when no step is
-- left, or when more than 50 are, in this order of precedence; otherwise it returns the trimmed
-- steps that are not blank, in order.
pub clean_steps_lem :
    (raw : List Text)
    → clean_steps raw ≡ (if has_long (kept raw) then err step_too_long else check_count (kept raw))
unfolding clean_steps
clean_steps_lem raw = ground (arith, clean_loop_lem raw)

-- What a step of a stored playbook is: not blank, not padded, and at most 4096 bytes.
abbrev pub IsStep : Text → Type 0
IsStep s = (is_empty s ≡ false) × (trim_space s ≡ s) × (byte_length s ≤ 4096)

kept-IsStep : (raw : List Text) → has_long (kept raw) ≡ false → All IsStep (kept raw)
kept-IsStep [] h = tt
kept-IsStep (r ∷ rest) h = elim (Bool-cases (is_empty (trim_space r))) [
  | inl e ↦ rw e (kept-IsStep rest (sym (rw e refl) ∙ h))
  | inr e ↦
      let (short, others) =
        either_false (ltb max_playbook_step_size (byte_length (trim_space r)))
          (has_long (kept rest)) (sym (rw e refl) ∙ h) in
      rw e ((e, trim_space_idem r, ground (arith, short)), kept-IsStep rest others)
]

check_count-ok : (out out' : List Text) → check_count out ≡ ok out' → out ≡ out'
check_count-ok [] out' h = ground arith
check_count-ok (s ∷ out) out' h = ground arith

check_count_bounds :
    (out out' : List Text) → check_count out ≡ ok out' → (1 ≤ length out') × (length out' ≤ 50)
check_count_bounds [] out' h = ground arith
check_count_bounds (s ∷ out) out' h = ground arith

-- What cleanSteps accepts it returns as between 1 and 50 steps, none of them blank, padded or longer
-- than 4096 bytes.
pub clean_steps-IsStep :
    (raw out : List Text)
    → clean_steps raw ≡ ok out
    → All IsStep out × (1 ≤ length out) × (length out ≤ 50)
clean_steps-IsStep raw out h = elim (Bool-cases (has_long (kept raw))) [
  | inl e ↦ let bad : err step_too_long ≡ ok out = rw (clean_steps_lem raw, e) at h in cc
  | inr e ↦
      let fine : check_count (kept raw) ≡ ok out = rw (clean_steps_lem raw, e) at h in
      let (lo, hi) = check_count_bounds (kept raw) out fine in
      (subst (All IsStep) (check_count-ok (kept raw) out fine) (kept-IsStep raw e), lo, hi)
]
