-- ===== src/Playbooks/Defs.antt =====
-- CompileSteps and cleanSteps.
use ubuntu_auto_update.Base.{
  ℕ, Bool, ◌||◌, not, List, [], ◌∷◌, ◌++◌, map, Text, codes, text_eq, is_empty, trim_space,
  byte_length, length, ltb, ◌==◌, if◌then◌else◌, Result, ok, err,
}

-- strings.ReplaceAll(s, "'", `'\''`)
unfoldable pub escape_quotes : Text → Text
escape_quotes [] = []
escape_quotes (c ∷ s) =
    let rest = escape_quotes s in if c == 0x27 then 0x27 ∷ 0x5c ∷ 0x27 ∷ 0x27 ∷ rest else c ∷ rest

unfoldable pub wrap_step : Text → Text
unfolding escape_quotes
wrap_step s = codes "sudo -n sh -c '" ++ (escape_quotes s ++ codes "'")

unfoldable pub is_root : Text → Bool
is_root ssh_user = is_empty ssh_user || text_eq ssh_user (codes "root")

unfoldable pub compile_steps : List Text → Text → Bool → List Text
unfolding wrap_step is_root
compile_steps steps ssh_user use_sudo =
    if not use_sudo || is_root ssh_user then steps else map wrap_step steps

abbrev pub max_playbook_steps : ℕ
max_playbook_steps = 50

abbrev pub max_playbook_step_size : ℕ
max_playbook_step_size = 4096

pub data StepsError : Type 0 where
  step_too_long no_steps too_many_steps : StepsError

-- The loop of cleanSteps, over the steps left.
unfoldable pub clean_loop : List Text → Result StepsError (List Text)
clean_loop [] = ok []
clean_loop (raw ∷ rest) =
    let s = trim_space raw in
    let others = clean_loop rest in
    if is_empty s
    then others
    else if ltb max_playbook_step_size (byte_length s)
    then err step_too_long
    else elim others [ ok out ↦ ok (s ∷ out) | err e ↦ err e ]

abbrev pub check_count : List Text → Result StepsError (List Text)
check_count [] = err no_steps
check_count (s ∷ out) =
    if ltb max_playbook_steps (length (s ∷ out)) then err too_many_steps else ok (s ∷ out)

unfoldable pub clean_steps : List Text → Result StepsError (List Text)
unfolding clean_loop
clean_steps raw = elim (clean_loop raw) [ ok out ↦ check_count out | err e ↦ err e ]
