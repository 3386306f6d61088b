-- ===== src/Ssh/Sudo.antt =====
-- How the command of backend/pkg/ssh/bootstrap.go that configures sudo reads to a shell.
use ubuntu_auto_update.Base.{
  ℕ, ◌≤◌, ◌++◌, arith, ◌≡◌, refl, ◌⊎◌, inl, inr, true, false, [], ◌∷◌, some, Text, codes, is_empty,
  Bool-cases, All,
}
use ubuntu_auto_update.Playbooks.Shell.{shell_words, quoted_words}
use ubuntu_auto_update.Ssh.Defs.{
  scoped_sudoers_body, is_file_char, sanitize_chars, sanitize_for_filename,
}
use ubuntu_auto_update.Ssh.Bootstrap.{shell_quote, inner_command, sudo_command}

-- A letter, a digit, a dot, an underscore or a hyphen.
abbrev pub IsNameChar : ℕ → Type 0
IsNameChar c =
    ((97 ≤ c) × (c ≤ 122))
    ⊎ ((65 ≤ c) × (c ≤ 90))
    ⊎ ((48 ≤ c) × (c ≤ 57))
    ⊎ (c ≡ 46)
    ⊎ (c ≡ 95)
    ⊎ (c ≡ 45)

is_file_char-IsNameChar : (c : ℕ) → is_file_char c ≡ true → IsNameChar c
unfolding is_file_char
is_file_char-IsNameChar c h = ground (arith, h)

sanitize_chars-IsNameChar : (s : Text) → All IsNameChar (sanitize_chars s)
unfolding sanitize_chars
sanitize_chars-IsNameChar [] = tt
sanitize_chars-IsNameChar (c ∷ s) = (
  elim (Bool-cases (is_file_char c)) [
    | inl e ↦ rw e (is_file_char-IsNameChar c e)
    | inr e ↦ rw e (inr (inr (inr (inr (inl refl)))))
  ],
  sanitize_chars-IsNameChar s,
)

-- The command for the root shell writes `body`, as one word, to one file of /etc/sudoers.d, whose
-- name cannot leave that directory.
pub record WritesDropIn (body command : Text) : Type 0 where
  pub file : Text
  pub plain : All IsNameChar file
  pub named : is_empty file ≡ false
  pub word : Text
  pub quoted : shell_words word ≡ some (body ∷ [])
  pub text :
      command
      ≡ codes "umask 077 && printf '%s' "
        ++ (word
            ++ (codes " > /etc/sudoers.d/uau-"
                ++ (file
                    ++ (codes " && chmod 0440 /etc/sudoers.d/uau-"
                        ++ (file ++ (codes " && visudo -cf /etc/sudoers.d/uau-" ++ file))))))

inner_command-WritesDropIn :
    (user scope : Text) → WritesDropIn (scoped_sudoers_body user scope) (inner_command user scope)
unfolding inner_command sanitize_for_filename sanitize_chars shell_quote shell_words
inner_command-WritesDropIn user scope = record {
  file = sanitize_for_filename user;
  plain = by_chars user;
  named = by_length user;
  word = shell_quote (scoped_sudoers_body user scope);
  quoted = rw (quoted_words (scoped_sudoers_body user scope)) refl;
  text = refl;
}
  where
    by_chars : (u : Text) → All IsNameChar (sanitize_for_filename u)
    by_chars [] = (ground arith, (ground arith, (ground arith, (ground arith, tt))))
    by_chars (c ∷ u) = sanitize_chars-IsNameChar (c ∷ u)

    by_length : (u : Text) → is_empty (sanitize_for_filename u) ≡ false
    by_length [] = refl
    by_length (c ∷ u) = refl

-- The shell of the SSH user reads the command that configures sudo as six words and one more, the
-- command for the root shell as it was built; and that command writes the sudoers body, quoted as
-- one word, to /etc/sudoers.d/uau- followed by a name that is not empty and has only letters,
-- digits, dots, underscores and hyphens, then sets the mode of that same file and checks it.
pub sudo_command-shell_words :
    (user scope : Text)
    → (shell_words (sudo_command (inner_command user scope))
        ≡ some (
            codes "sudo"
            ∷ codes "-S"
            ∷ codes "-p"
            ∷ []
            ∷ codes "sh"
            ∷ codes "-c"
            ∷ inner_command user scope
            ∷ []))
      × WritesDropIn (scoped_sudoers_body user scope) (inner_command user scope)
unfolding shell_words sudo_command
sudo_command-shell_words user scope =
    (rw (quoted_words (inner_command user scope)) refl, inner_command-WritesDropIn user scope)
