-- ===== src/Playbooks/Shell.antt =====
-- What a POSIX shell makes of a compiled step: quotes, backslashes and blanks, read one character
-- at a time.
use ubuntu_auto_update.Base.{
  ℕ, ◌≡◌, refl, ◌⊎◌, inl, inr, Bool, true, false, ◌||◌, List, [], ◌∷◌, ◌++◌, map, Option, none,
  some, Text, codes, ◌==◌, ==_iff, Bool-cases,
}
use ubuntu_auto_update.Playbooks.Defs.{escape_quotes, wrap_step, compile_steps, is_root}

-- A character joins the current word, which is the first of the list.
abbrev pub push : ℕ → Option (List Text) → Option (List Text)
push c none = none
push c (some []) = none
push c (some (w ∷ ws)) = some ((c ∷ w) ∷ ws)

abbrev pub end_word : Option (List Text) → Option (List Text)
end_word none = none
end_word (some ws) = some ([] ∷ ws)

-- Characters that mean something else to the shell when they are not quoted.
unfoldable pub is_meta : ℕ → Bool
is_meta c =
    c == b'|'
    || c == b'&'
    || c == b';'
    || c == b'<'
    || c == b'>'
    || c == b'('
    || c == b')'
    || c == b'$'
    || c == b'`'
    || c == 0x22
    || c == 0x0a
    || c == b'*'
    || c == b'?'
    || c == b'#'

-- Outside quotes, inside single quotes, after a backslash.
pub data Mode : Type 0 where
  bare quoted escaped : Mode

-- The words of a simple command whose words stand one blank apart; `none` for an open quote, a
-- trailing backslash or an unquoted character of another meaning.
unfoldable pub shell_words_in : Mode → Text → Option (List Text)
unfolding is_meta
shell_words_in bare [] = some ([] ∷ [])
shell_words_in quoted [] = none
shell_words_in escaped [] = none
shell_words_in escaped (c ∷ s) = push c (shell_words_in bare s)
shell_words_in quoted (c ∷ s) = elim (c == 0x27) [
  | true ↦ shell_words_in bare s
  | false ↦ push c (shell_words_in quoted s)
]
shell_words_in bare (c ∷ s) = elim (c == 0x27) [
  | true ↦ shell_words_in quoted s
  | false ↦ elim (c == 0x5c) [
    | true ↦ shell_words_in escaped s
    | false ↦ elim (c == 0x20) [
      | true ↦ end_word (shell_words_in bare s)
      | false ↦ elim (is_meta c) [ true ↦ none | false ↦ push c (shell_words_in bare s) ]
    ]
  ]
]

unfoldable pub shell_words : Text → Option (List Text)
unfolding shell_words_in
shell_words s = shell_words_in bare s

-- Inside quotes, the escaped text and the closing quote give back the text.
pub quoted_words : (s : Text) → shell_words_in quoted (escape_quotes s ++ codes "'") ≡ some (s ∷ [])
unfolding shell_words_in escape_quotes
quoted_words [] = refl
quoted_words (c ∷ s) = elim (Bool-cases (c == 0x27)) [
  | inl e ↦ let same : c ≡ 0x27 = (==_iff c 0x27).0 e in rw same (rw (quoted_words s) refl)
  | inr e ↦ rw (e, escape_quotes) (rw (e, shell_words_in) (rw (quoted_words s) refl))
]

-- The shell reads a wrapped step as five words, and the last is the step as the operator wrote it.
wrap_step-shell_words :
    (s : Text)
    → shell_words (wrap_step s)
      ≡ some (codes "sudo" ∷ codes "-n" ∷ codes "sh" ∷ codes "-c" ∷ s ∷ [])
unfolding shell_words wrap_step
wrap_step-shell_words s = rw (quoted_words s) refl

abbrev pub sudo_words : Text → Option (List Text)
sudo_words s = some (codes "sudo" ∷ codes "-n" ∷ codes "sh" ∷ codes "-c" ∷ s ∷ [])

map-wrap_step-shell_words :
    (steps : List Text) → map shell_words (map wrap_step steps) ≡ map sudo_words steps
map-wrap_step-shell_words [] = refl
map-wrap_step-shell_words (s ∷ steps) =
    rw (wrap_step-shell_words s, map-wrap_step-shell_words steps) refl

-- For a user other than root with sudo on, every compiled line is read by the shell as
-- `sudo -n sh -c` and one more word, the step itself, in the order of the playbook; for root, for no
-- user and with sudo off the steps are passed on as they are.
pub compile_steps_lem :
    (steps : List Text) (ssh_user : Text) (use_sudo : Bool)
    → ((use_sudo ≡ true)
        × (is_root ssh_user ≡ false)
        × (map shell_words (compile_steps steps ssh_user use_sudo) ≡ map sudo_words steps))
      ⊎ (((use_sudo ≡ false) ⊎ (is_root ssh_user ≡ true))
          × (compile_steps steps ssh_user use_sudo ≡ steps))
unfolding compile_steps
compile_steps_lem steps ssh_user false = inr (inl refl, refl)
compile_steps_lem steps ssh_user true = elim (Bool-cases (is_root ssh_user)) [
  | inl e ↦ inr (inr e, rw e refl)
  | inr e ↦ inl (refl, e, rw e (map-wrap_step-shell_words steps))
]
