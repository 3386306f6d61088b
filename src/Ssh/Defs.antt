-- ===== src/Ssh/Defs.antt =====
-- The lines of ~/.ssh/authorized_keys, the two scripts of backend/pkg/ssh/bootstrap.go that write
-- them, and the sudo rule.
use ubuntu_auto_update.Base.{
  ℕ, Bool, true, false, ◌&&◌, ◌||◌, List, [], ◌∷◌, ◌++◌, Option, none, some, Text, codes, text_eq,
  leb, ◌==◌, if◌then◌else◌, Error,
}

abbrev pub authorized_key_marker : Text
authorized_key_marker = codes "ubuntu-auto-update"

-- strings.TrimRight(s, "\n")
unfoldable pub trim_newlines : Text → Text
trim_newlines [] = []
trim_newlines (c ∷ s) = elim (trim_newlines s) [
  | [] ↦ if c == 0x0a then [] else c ∷ []
  | d ∷ r ↦ c ∷ d ∷ r
]

-- `marshaled` is MarshalAuthorizedKey of the public key.
unfoldable pub format_authorized_key : Text → Text
format_authorized_key marshaled = trim_newlines marshaled ++ 0x20 ∷ authorized_key_marker

-- The lines, and whether the last one ends with a newline (true of the empty file).
pub record KeyFile : Type 0 where
  pub lines : List Text
  pub ended : Bool

-- grep -qxF
unfoldable pub has_line : Text → List Text → Bool
has_line l [] = false
has_line l (m ∷ ms) = text_eq m l || has_line l ms

-- The text written at the end of a file whose last line is open.
unfoldable pub extend_last : Text → List Text → List Text
extend_last l [] = l ∷ []
extend_last l (m ∷ []) = (m ++ l) ∷ []
extend_last l (m ∷ n ∷ ms) = m ∷ extend_last l (n ∷ ms)

-- printf '%s\n' … >>
unfoldable pub append_line : Text → KeyFile → KeyFile
append_line l f = record {
  lines = if f.ended then f.lines ++ l ∷ [] else extend_last l f.lines;
  ended = true;
}

unfoldable pub install_line : Text → KeyFile → KeyFile
install_line l f = if has_line l f.lines then f else append_line l f

abbrev pub is_blank : ℕ → Bool
is_blank c = c == 0x20 || c == 0x09

abbrev pub pick : Text → Text → Text
pick last [] = last
pick last (c ∷ word) = c ∷ word

-- `word` is the field being read and `last` the one before it.
unfoldable pub last_word : Text → Text → Text → Text
last_word last word [] = pick last word
last_word last word (c ∷ s) =
    let onward = last_word last (word ++ c ∷ []) s in
    let closed = last_word (pick last word) [] s in if is_blank c then closed else onward

-- $NF of awk
unfoldable pub last_field : Text → Text
last_field s = last_word [] [] s

-- The awk program: `keep` stays, other lines that end with the marker go.
unfoldable pub revoke_lines : Text → List Text → List Text
revoke_lines keep [] = []
revoke_lines keep (l ∷ ls) =
    let rest = revoke_lines keep ls in
    if text_eq l keep
    then l ∷ rest
    else if text_eq (last_field l) authorized_key_marker
    then rest
    else l ∷ rest

unfoldable pub revoke_others : Text → KeyFile → KeyFile
revoke_others keep f = record { lines = revoke_lines keep f.lines; ended = true }

-- Where a remote script stopped: before or after its write took effect.
pub data ScriptFault : Type 0 where
  before_write after_write : Error → ScriptFault

-- The file after a script, and its error.
unfoldable pub run_script :
    Option ScriptFault → (KeyFile → KeyFile) → KeyFile → Option Error × KeyFile
run_script none change f = (none, change f)
run_script (some (before_write e)) change f = (some e, f)
run_script (some (after_write e)) change f = (some e, change f)

unfoldable pub scoped_sudoers_body : Text → Text → Text
scoped_sudoers_body user scope =
    if text_eq scope (codes "full")
    then user ++ codes " ALL=(ALL) NOPASSWD: ALL\n"
    else user
      ++ codes
          " ALL=(ALL) NOPASSWD:SETENV: /usr/bin/apt, /usr/bin/apt-get, /usr/bin/unattended-upgrade\n"

-- Inside [a-zA-Z0-9._-]
unfoldable pub is_file_char : ℕ → Bool
is_file_char c =
    (leb 0x61 c && leb c 0x7a)
    || ((leb 0x41 c && leb c 0x5a)
        || ((leb 0x30 c && leb c 0x39) || (c == 0x2e || (c == 0x5f || c == 0x2d))))

unfoldable pub sanitize_chars : Text → Text
sanitize_chars [] = []
sanitize_chars (c ∷ s) = (if is_file_char c then c else 0x5f) ∷ sanitize_chars s

abbrev pub user_or : Text → Text
user_or [] = codes "user"
user_or (c ∷ s) = c ∷ s

unfoldable pub sanitize_for_filename : Text → Text
sanitize_for_filename s = user_or (sanitize_chars s)
